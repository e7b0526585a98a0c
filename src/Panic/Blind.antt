-- ===== src/Panic/Blind.antt =====
-- What the screen of `isr_handler` in src/kernel/panic.c depends on.
use aether_os.Base.{
  ℕ, zero, suc, ◌+◌, ◌*◌, ltb, ◌==◌, get_or, Bool, true, false, if◌then◌else◌, List, [], ◌∷◌, ◌++◌,
  map, Option, none, some, ◌≡◌, refl, sym, ap, ◌∙◌,
}
use mathlib.Core.Option
use aether_os.Base.Strings.{bytes_of}
use aether_os.Console.{Console}
use aether_os.Console.Printk.{number, text}
use aether_os.Console.Printk.Plain.{no_specifier, printk-plain}
use aether_os.Panic.{
  Frame, Call, clear, set_color, print, perform_call, perform, handle_page_fault, report, dump,
  stack_trace, isr_handler, exception_messages,
}

-- The call without the arguments that its format does not read.
unfoldable pub shown : Call → Call
shown clear = clear
shown (set_color color) = set_color color
shown (print format args) = if no_specifier format then print format [] else print format args

perform_call-shown : (call : Call) (c : Console) → perform_call (shown call) c ≡ perform_call call c
unfolding shown perform_call
perform_call-shown clear c = refl
perform_call-shown (set_color color) c = refl
perform_call-shown (print format args) c = by_format (no_specifier format) refl
  where
    by_format :
        (b : Bool)
        → no_specifier format ≡ b
        → perform_call (if b then print format [] else print format args) c
          ≡ perform_call (print format args) c
    by_format true plain =
        ap (Option.map (λ p. p.console))
          (printk-plain format [] c plain ∙ sym (printk-plain format args c plain))
    by_format false other = refl

pub perform-shown :
    (calls : List Call) (c : Console) → perform (map shown calls) c ≡ perform calls c
unfolding perform
perform-shown [] c = refl
perform-shown (call ∷ calls) c =
    ap (λ o. elim o [ none ↦ none | some d ↦ perform (map shown calls) d ])
      (perform_call-shown call c)
    ∙ by_result (perform_call call c) (perform-shown calls)
  where
    by_result :
        (o : Option Console)
        → ((d : Console) → perform (map shown calls) d ≡ perform calls d)
        → elim o [ none ↦ none | some d ↦ perform (map shown calls) d ]
          ≡ elim o [ none ↦ none | some d ↦ perform calls d ]
    by_result none later = refl
    by_result (some d) later = later d

map-append : (xs ys : List Call) → map shown (xs ++ ys) ≡ map shown xs ++ map shown ys
map-append [] ys = refl
map-append (x ∷ xs) ys = ap (λ zs. shown x ∷ zs) (map-append xs ys)

-- the error code alone, of what `handle_page_fault` is given
page_fault-shown :
    (cr2 cr2' code : ℕ) (regs regs' : Frame)
    → map shown (handle_page_fault cr2 (record regs { err_code = code }))
      ≡ map shown (handle_page_fault cr2' (record regs' { err_code = code }))
unfolding handle_page_fault shown no_specifier
page_fault-shown cr2 cr2' code regs regs' = refl

abbrev given : ℕ → ℕ → Frame → Frame
given n code regs = record regs { int_no = n; err_code = code }

report-given :
    (cr2 cr2' n code : ℕ) (regs regs' : Frame)
    → map shown (report cr2 (given n code regs)) ≡ map shown (report cr2' (given n code regs'))
unfolding report
report-given cr2 cr2' n code regs regs' = by_tests (ltb n 32) (n == 14)
  where
    common : List Call
    common = if code == 0 then [] else print (bytes_of "Error Code: 0x%X\n") (number code ∷ []) ∷ []

    heading : Call
    heading =
        print (bytes_of "CPU Exception #%d: %s\n")
          (number n ∷ text (get_or exception_messages n []) ∷ [])

    other : List Call
    other = print (bytes_of "Unexpected Interrupt #%d\n") (number n ∷ []) ∷ []

    by_tests :
        (b p : Bool)
        → map shown (
            if b
            then heading ∷ common ++ (if p then handle_page_fault cr2 (given n code regs) else [])
            else other)
          ≡ map shown (
              if b
              then heading ∷ common
                ++ (if p then handle_page_fault cr2' (given n code regs') else [])
              else other)
    by_tests false p = refl
    by_tests true false = refl
    by_tests true true =
        ap (λ zs. shown heading ∷ zs)
          (map-append common (handle_page_fault cr2 (given n code regs))
            ∙ ap (λ zs. map shown common ++ zs)
                (page_fault-shown cr2 cr2' code (record regs { int_no = n })
                  (record regs' { int_no = n }))
            ∙ sym (map-append common (handle_page_fault cr2' (given n code regs'))))

report-shown :
    (cr2 cr2' : ℕ) (regs regs' : Frame)
    → regs.int_no ≡ regs'.int_no
    → regs.err_code ≡ regs'.err_code
    → map shown (report cr2 regs) ≡ map shown (report cr2' regs')
report-shown cr2 cr2' regs regs' same same' =
    report-given cr2 cr2' regs.int_no regs.err_code regs regs'
    ∙ ap (λ n. map shown (report cr2' (given n regs.err_code regs'))) same
    ∙ ap (λ code. map shown (report cr2' (given regs'.int_no code regs'))) same'

dump-shown : (regs regs' : Frame) → map shown (dump regs) ≡ map shown (dump regs')
unfolding dump shown no_specifier
dump-shown regs regs' = refl

stack_trace-shown :
    (n i stack stack' : ℕ) (words words' : ℕ → ℕ)
    → ltb stack 0x8FFF_FFFF ≡ ltb stack' 0x8FFF_FFFF
    → map shown (stack_trace n i stack words) ≡ map shown (stack_trace n i stack' words')
unfolding stack_trace shown no_specifier
stack_trace-shown zero i stack stack' words words' same = refl
stack_trace-shown (suc n) i stack stack' words words' same =
    by_test (ltb stack 0x8FFF_FFFF) (ltb stack' 0x8FFF_FFFF) same
      (stack_trace-shown n (i + 1) stack stack' words words' same)
  where
    line : ℕ → (ℕ → ℕ) → Call
    line stack words =
        print (bytes_of "  [ESP+%02d]: 0x%08X\n")
          (number (i * 4) ∷ number (words (stack + 4 * i)) ∷ [])

    by_test :
        (b b' : Bool)
        → b ≡ b'
        → map shown (stack_trace n (i + 1) stack words)
          ≡ map shown (stack_trace n (i + 1) stack' words')
        → map shown (if b then line stack words ∷ stack_trace n (i + 1) stack words else [])
          ≡ map shown (if b' then line stack' words' ∷ stack_trace n (i + 1) stack' words' else [])
    by_test true true e others = ap (λ zs. print (bytes_of "  [ESP+%02d]: 0x%08X\n") [] ∷ zs) others
    by_test true false e others = absurd (cc)
    by_test false true e others = absurd (cc)
    by_test false false e others = refl

isr_handler-shown :
    (cr2 cr2' : ℕ) (words words' : ℕ → ℕ) (regs regs' : Frame)
    → regs.int_no ≡ regs'.int_no
    → regs.err_code ≡ regs'.err_code
    → ltb regs.esp 0x8FFF_FFFF ≡ ltb regs'.esp 0x8FFF_FFFF
    → map shown (isr_handler cr2 words regs) ≡ map shown (isr_handler cr2' words' regs')
unfolding isr_handler
isr_handler-shown cr2 cr2' words words' regs regs' same same' bound = ap start (
    joined (report cr2 regs) (report cr2' regs') _ _ (report-shown cr2 cr2' regs regs' same same') (
      ap (λ zs. shown (set_color 15) ∷ zs)
        (joined (dump regs) (dump regs') _ _ (dump-shown regs regs') (
          joined (stack_trace 8 0 regs.esp words) (stack_trace 8 0 regs'.esp words') _ _
            (stack_trace-shown 8 0 regs.esp regs'.esp words words' bound) refl))))
  where
    start : List Call → List Call
    start zs =
        shown clear
        ∷ shown (set_color 0x4F)
        ∷ shown (print (bytes_of "*** KERNEL PANIC ***\n\n") [])
        ∷ shown (set_color 12)
        ∷ zs

    joined :
        (xs xs' ys ys' : List Call)
        → map shown xs ≡ map shown xs'
        → map shown ys ≡ map shown ys'
        → map shown (xs ++ ys) ≡ map shown (xs' ++ ys')
    joined xs xs' ys ys' e e' =
        map-append xs ys
        ∙ ap (λ zs. zs ++ map shown ys) e
        ∙ ap (λ zs. map shown xs' ++ zs) e'
        ∙ sym (map-append xs' ys')

-- For two exceptions with the same number and error code, and stack pointers on the same side of
-- 0x8FFFFFFF: `isr_handler` makes the same screen, whatever the registers, the address of a page
-- fault and the words of the stack.
pub isr_handler-blind :
    (cr2 cr2' : ℕ) (words words' : ℕ → ℕ) (regs regs' : Frame) (c : Console)
    → regs.int_no ≡ regs'.int_no
    → regs.err_code ≡ regs'.err_code
    → ltb regs.esp 0x8FFF_FFFF ≡ ltb regs'.esp 0x8FFF_FFFF
    → perform (isr_handler cr2 words regs) c ≡ perform (isr_handler cr2' words' regs') c
isr_handler-blind cr2 cr2' words words' regs regs' c same same' bound =
    sym (perform-shown (isr_handler cr2 words regs) c)
    ∙ ap (λ calls. perform calls c)
        (isr_handler-shown cr2 cr2' words words' regs regs' same same' bound)
    ∙ perform-shown (isr_handler cr2' words' regs') c
