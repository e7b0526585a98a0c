-- ===== src/Shell/Tests.antt =====
-- Command lines, and the theorems at them.
use aether_os.Base.{◌≡◌, refl, arith, none, some, inl, inr, ◌∷◌, ◌++◌}
use aether_os.Base.Strings.{bytes_of}
use aether_os.Console.{utoa}
use aether_os.Shell.{
  shell_process_command, parse_pid, skip_blanks, strncmp, strchr, select, unknown,
}
use aether_os.Shell.Pids.{parse_pid-utoa}
use aether_os.Shell.Words.{named, Without, Blanks, shell_process_command-named}

-- A tab does not end the command word.
tab_line : shell_process_command (bytes_of "ps\tlist") ≡ some (unknown (bytes_of "ps\tlist"), none)
unfolding shell_process_command skip_blanks strncmp strchr select
tab_line = refl

shell_process_command-named_example :
    (shell_process_command (bytes_of "  " ++ bytes_of "echo")
      ≡ some (named (bytes_of "echo"), none))
    × (shell_process_command (bytes_of "  " ++ (b'e' ∷ (bytes_of "cho" ++ (b' ' ∷ bytes_of " \t"))))
        ≡ some (named (bytes_of "echo"), none))
    × (shell_process_command (
          bytes_of "  "
          ++ (b'e' ∷ (bytes_of "cho" ++ (b' ' ∷ (bytes_of " \t" ++ (b'h' ∷ bytes_of "i u"))))))
        ≡ some (named (bytes_of "echo"), some (bytes_of "hi u")))
unfolding Without Blanks
shell_process_command-named_example =
    shell_process_command-named (bytes_of "  ") (bytes_of "cho") (bytes_of " \t") (bytes_of "i u")
      b'e' b'h' (inl refl, (inl refl, tt)) (λ e. omega (arith, e))
      (
        λ e. omega (arith, e),
        (λ e. omega (arith, e), (λ e. omega (arith, e), (λ e. omega (arith, e), tt))),
      )
      (inl refl, (inr refl, tt)) (λ e. omega (arith, e)) (λ e. omega (arith, e))

parse_pid-utoa_example : parse_pid 0 (utoa 97 10 255 ++ bytes_of " x") ≡ 255
parse_pid-utoa_example = parse_pid-utoa 255 (bytes_of " x") (omega arith) refl
