-- ===== src/Scheduler/Ops.antt =====
-- `scheduler_add_process` and `scheduler_remove_process` of scheduler.c on the ready queue.
use aether_os.Base.{
  ℕ, ◌+◌, ◌<◌, ◌^◌, ◌≡◌, ◌≢◌, refl, false, none, some, List, [], ◌∷◌, ◌++◌, arith, ap, ◌∙◌, sym,
  length, length-append,
}
use aether_os.Process.{Kernel, Process, ready, modify, is_terminated}
use aether_os.Scheduler.{add_process, append_process, set_next}
use aether_os.Scheduler.Queue.{
  last_of, Links, Absent, Distinct, IsQueue, modify_self, modify_ne, modify-head, modify-tail,
  modify-count, Links-modify-Absent, Links-join, last, last_of-last, last-ne, Links-set_last,
  last_of-append,
}

-- a process without its place in the queue
abbrev pub core : Process → Process
core r = record r { next = none; prev = none }

pub core-modify :
    (p : ℕ) (f : Process → Process) (k : Kernel) (a : ℕ)
    → ((r : Process) → core (f r) ≡ core r)
    → core ((modify p f k).process_table a) ≡ core (k.process_table a)
unfolding modify
core-modify p f k a same = ground (arith, same (k.process_table p))

-- the fields that `add_process` gives the process before it links it
abbrev enlist : Kernel → Process → Process
enlist k q = record q { state = ready; next = none; prev = k.ready_queue_tail }

-- `add_process` past its guard
abbrev enqueue : ℕ → Kernel → Kernel
enqueue p k = append_process p (modify p (enlist k) k)

enqueue-nil : (p : ℕ) (k : Kernel) → IsQueue k [] → IsQueue (enqueue p k) (p ∷ [])
unfolding append_process
enqueue-nil p k is =
    rw (modify-tail p _ k, is.tail)
      (record {
        links = (
          ap (λ (r : Process). r.next) (modify_self p (enlist k) k),
          ap (λ (r : Process). r.prev) (modify_self p (enlist k) k) ∙ is.tail,
          tt,
        );
        head = refl;
        tail = refl;
        count = omega (arith, modify-count p (enlist k) k, is.count);
        distinct = (tt, tt);
      })

Absent-snoc : (a p : ℕ) (xs : List ℕ) → Absent a xs → a ≢ p → Absent a (xs ++ (p ∷ []))
Absent-snoc a p [] out ne = (ne, tt)
Absent-snoc a p (x ∷ xs) out ne = (out.0, Absent-snoc a p xs out.1 ne)

Distinct-snoc : (p : ℕ) (xs : List ℕ) → Distinct xs → Absent p xs → Distinct (xs ++ (p ∷ []))
Distinct-snoc p [] d out = (tt, tt)
Distinct-snoc p (x ∷ xs) d out =
    (Absent-snoc x p xs d.0 (λ e. out.0 (sym e)), Distinct-snoc p xs d.1 out.1)

enqueue-cons :
    (p : ℕ) (k : Kernel) (x : ℕ) (xs : List ℕ)
    → Absent p (x ∷ xs)
    → length (x ∷ xs) + 1 < 2 ^ 32
    → IsQueue k (x ∷ xs)
    → IsQueue (enqueue p k) ((x ∷ xs) ++ (p ∷ []))
unfolding append_process
enqueue-cons p k x xs out small is =
    let k0 = modify p (enlist k) k in
    let l = last x xs in
    let at_tail : k.ready_queue_tail ≡ some l = is.tail ∙ last_of-last none x xs in
    let front : Links (set_next l (some p) k0).process_table none (some p) (x ∷ xs) =
      Links-set_last k0 none none (some p) x xs is.distinct
        (Links-modify-Absent p (enlist k) k none none (x ∷ xs) out is.links) in
    let at_p = modify_ne l (λ q. record q { next = some p }) k0 p (last-ne p x xs out) in
    let own = at_p ∙ modify_self p (enlist k) k in
    let back : Links (set_next l (some p) k0).process_table (last_of none (x ∷ xs)) none (p ∷ []) =
      (ap (λ (r : Process). r.next) own, ap (λ (r : Process). r.prev) own ∙ is.tail, tt) in
    rw (modify-tail p _ k, at_tail)
      (record {
        links =
            Links-join (set_next l (some p) k0).process_table none none (x ∷ xs) (p ∷ []) front
              back;
        head = modify-head l _ k0 ∙ modify-head p _ k ∙ is.head;
        tail = sym (last_of-append none (x ∷ xs) (p ∷ []));
        count = omega (
          arith,
          modify-count l (λ q. record q { next = some p }) k0,
          modify-count p (enlist k) k,
          is.count,
          length-append {0} (x ∷ xs) (p ∷ []),
        );
        distinct = Distinct-snoc p (x ∷ xs) is.distinct out;
      })

-- On a queue that does not hold it, `scheduler_add_process` puts a process that is not terminated at
-- the end.
pub add_process-IsQueue :
    (p : ℕ) (k : Kernel) (ps : List ℕ)
    → is_terminated (k.process_table p).state ≡ false
    → Absent p ps
    → length ps + 1 < 2 ^ 32
    → IsQueue k ps
    → IsQueue (add_process p k) (ps ++ (p ∷ []))
unfolding add_process
add_process-IsQueue p k [] alive out small is = simp alive (enqueue-nil p k is)
add_process-IsQueue p k (x ∷ xs) alive out small is =
    simp alive (enqueue-cons p k x xs out small is)
