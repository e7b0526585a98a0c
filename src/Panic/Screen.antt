-- ===== src/Panic/Screen.antt =====
-- The screen that an exception leaves: src/kernel/panic.c.
use aether_os.Base.{
  ℕ, zero, suc, ◌+◌, ◌<◌, ◌^◌, ltb, ◌==◌, get_or, Bool, true, false, if◌then◌else◌, List, [], ◌∷◌,
  ◌++◌, none, some, ◌≡◌, refl, ap, ◌∙◌,
}
use mathlib.Core.Option
use aether_os.Base.Strings.{bytes_of}
use aether_os.Console.{Console}
use aether_os.Console.Screen.{InScreen, Stays}
use aether_os.Console.Printk.{number, text, console_clear, console_set_color}
use aether_os.Console.Printk.Render.{conversion}
use aether_os.Console.Printk.Covers.{covers, leaves, itoa-small, printk-Stays, console_clear-Stays}
use aether_os.Panic.{
  Frame, Call, clear, set_color, print, exception_messages, perform_call, perform,
  handle_page_fault, report, dump, stack_trace, isr_handler, bit,
}

-- The call finds the arguments that it prints.
abbrev Fine : Call → Type 0
Fine clear = Unit {0}
Fine (set_color color) = Unit {0}
Fine (print format args) = covers format args ≡ true

unfoldable AllFine : List Call → Type 0
AllFine [] = Unit {0}
AllFine (call ∷ calls) = Fine call × AllFine calls

AllFine-append : (xs ys : List Call) → AllFine xs → AllFine ys → AllFine (xs ++ ys)
unfolding AllFine
AllFine-append [] ys fine fine' = fine'
AllFine-append (x ∷ xs) ys (first, fine) fine' = (first, AllFine-append xs ys fine fine')

-- The calls have a result, with the cursor on the screen and memory behind it as before.
abbrev Shows : List Call → Console → Type 0
Shows calls c = (d : Console) × (perform calls c ≡ some d) × Stays c d

perform_call-Stays :
    (call : Call) (c : Console)
    → Fine call
    → InScreen c
    → (d : Console) × (perform_call call c ≡ some d) × Stays c d
unfolding perform_call
perform_call-Stays clear c fine is = (console_clear c, refl, console_clear-Stays c)
perform_call-Stays (set_color color) c fine is = (
  console_set_color color c,
  refl,
  record { cursor = record { row = is.row; column = is.column }; behind = λ a far. refl },
)
perform_call-Stays (print format args) c fine is =
    let (p, e, stays) = printk-Stays format args c fine is in
    (p.console, ap (Option.map (λ p. p.console)) e, stays)

perform-Shows : (calls : List Call) (c : Console) → AllFine calls → InScreen c → Shows calls c
unfolding AllFine perform
perform-Shows [] c fine is = (c, refl, record { cursor = is; behind = λ a far. refl })
perform-Shows (call ∷ calls) c (first, fine) is =
    let (d, e, stays) = perform_call-Stays call c first is in
    let (last, e', stays') = perform-Shows calls d fine stays.cursor in
    (
      last,
      ap (λ o. elim o [ none ↦ none | some d ↦ perform calls d ]) e ∙ e',
      record { cursor = stays'.cursor; behind = λ a far. stays'.behind a far ∙ stays.behind a far },
    )

exception_line :
    (n : ℕ) (message : List ℕ)
    → n < 2 ^ 31
    → covers (bytes_of "CPU Exception #%d: %s\n") (number n ∷ text message ∷ []) ≡ true
unfolding covers conversion
exception_line n message small =
    let (buffer, e) = itoa-small n small in
    ap
      (λ o. elim (leaves (elim o [ none ↦ none | some b ↦ some (b, text message ∷ []) ])) [
        | none ↦ false
        | some others ↦ covers (bytes_of ": %s\n") others
      ])
      e

interrupt_line :
    (n : ℕ) → n < 2 ^ 31 → covers (bytes_of "Unexpected Interrupt #%d\n") (number n ∷ []) ≡ true
unfolding covers conversion
interrupt_line n small =
    let (buffer, e) = itoa-small n small in
    ap
      (λ o. elim (leaves (elim o [ none ↦ none | some b ↦ some (b, []) ])) [
        | none ↦ false
        | some others ↦ covers (bytes_of "\n") others
      ])
      e

either : (b : Bool) (xs ys : List Call) → AllFine xs → AllFine ys → AllFine (if b then xs else ys)
either true xs ys fine fine' = fine
either false xs ys fine fine' = fine'

either_text :
    (b : Bool) (xs ys : List ℕ)
    → covers xs [] ≡ true
    → covers ys [] ≡ true
    → covers (if b then xs else ys) [] ≡ true
either_text true xs ys fine fine' = fine
either_text false xs ys fine fine' = fine'

-- an optional line, and what follows it
optional :
    (b : Bool) (line : List ℕ) (ys : List Call)
    → covers line [] ≡ true
    → AllFine ys
    → AllFine ((if b then print line [] ∷ [] else []) ++ ys)
unfolding AllFine
optional true line ys fine fine' = (fine, fine')
optional false line ys fine fine' = fine'

page_fault-AllFine : (cr2 : ℕ) (regs : Frame) → AllFine (handle_page_fault cr2 regs)
unfolding handle_page_fault AllFine covers conversion
page_fault-AllFine cr2 regs =
    let set = bit regs.err_code in
    (
      refl,
      (
        refl,
        (
          refl,
          (
            either_text (set 0) (bytes_of "protection violation") (bytes_of "page not present") refl
                refl,
            (
              either_text (set 1) (bytes_of ", write") (bytes_of ", read") refl refl,
              (
                either_text (set 2) (bytes_of ", user mode") (bytes_of ", kernel mode") refl refl,
                optional (set 3) (bytes_of ", reserved bits set") _ refl (
                    optional (set 4) (bytes_of ", instruction fetch")
                      (print (bytes_of ")\n") [] ∷ []) refl (refl, tt)),
              ),
            ),
          ),
        ),
      ),
    )

report-AllFine : (cr2 : ℕ) (regs : Frame) → regs.int_no < 2 ^ 31 → AllFine (report cr2 regs)
unfolding report AllFine covers conversion
report-AllFine cr2 regs small =
    either (ltb regs.int_no 32) _ (print (bytes_of "Unexpected Interrupt #%d\n") _ ∷ [])
      (
        exception_line regs.int_no (get_or exception_messages regs.int_no []) small,
        AllFine-append _ _
            (either (regs.err_code == 0) [] (print (bytes_of "Error Code: 0x%X\n") _ ∷ []) tt
              (refl, tt))
            (either (regs.int_no == 14) (handle_page_fault cr2 regs) []
              (page_fault-AllFine cr2 regs) tt),
      )
      (interrupt_line regs.int_no small, tt)

dump-AllFine : (regs : Frame) → AllFine (dump regs)
unfolding dump AllFine covers conversion
dump-AllFine regs = (refl, (refl, (refl, (refl, (refl, (refl, tt))))))

stack_trace-AllFine : (n i stack : ℕ) (words : ℕ → ℕ) → AllFine (stack_trace n i stack words)
unfolding stack_trace AllFine covers conversion
stack_trace-AllFine zero i stack words = tt
stack_trace-AllFine (suc n) i stack words =
    either (ltb stack 0x8FFF_FFFF) (print (bytes_of "  [ESP+%02d]: 0x%08X\n") _ ∷ _) []
      (refl, stack_trace-AllFine n (i + 1) stack words) tt

isr_handler-AllFine :
    (cr2 : ℕ) (words : ℕ → ℕ) (regs : Frame)
    → regs.int_no < 2 ^ 31
    → AllFine (isr_handler cr2 words regs)
unfolding isr_handler AllFine covers conversion
isr_handler-AllFine cr2 words regs small = (
  tt,
  (
    tt,
    (
      refl,
      (
        tt,
        AllFine-append (report cr2 regs) _ (report-AllFine cr2 regs small) (
          tt,
          AllFine-append (dump regs) _ (dump-AllFine regs) (
              AllFine-append (stack_trace 8 0 regs.esp words) _
                (stack_trace-AllFine 8 0 regs.esp words) (tt, (refl, tt))),
        ),
      ),
    ),
  ),
)

-- A handler that starts with `clear` shows its screen wherever the cursor was.
cleared-Shows :
    (calls : List Call) (c : Console)
    → AllFine calls
    → (d : Console) × (perform (clear ∷ calls) c ≡ some d) × Stays c d
unfolding perform perform_call
cleared-Shows calls c fine =
    let first = console_clear-Stays c in
    let (d, e, stays) = perform-Shows calls (console_clear c) fine first.cursor in
    (
      d,
      e,
      record { cursor = stays.cursor; behind = λ a far. stays.behind a far ∙ first.behind a far },
    )

-- For every console, registers, memory and interrupt number below `2 ^ 31`: the calls of `isr_handler`
-- all have a result, with the cursor on the screen, and no memory behind the screen is written.
pub isr_handler-Shows :
    (cr2 : ℕ) (words : ℕ → ℕ) (regs : Frame) (c : Console)
    → regs.int_no < 2 ^ 31
    → Shows (isr_handler cr2 words regs) c
unfolding isr_handler AllFine
isr_handler-Shows cr2 words regs c small =
    cleared-Shows _ c (isr_handler-AllFine cr2 words regs small).1
