-- ===== src/Scheduler/Leave.antt =====
-- `scheduler_remove_process` of scheduler.c on the ready queue: the neighbours of the process are
-- linked to each other, or the ends of the queue move.
use aether_os.Base.{
  ℕ, ◌≡◌, refl, Option, none, some, List, [], ◌∷◌, ◌++◌, arith, ap, ◌∙◌, sym, subst, length-append,
}
use aether_os.Process.{Kernel, Process}
use aether_os.Scheduler.{remove_process, unlink_prev, unlink_next, set_next, set_prev}
use aether_os.Scheduler.Queue.{
  next_of, last_of, Links, Absent, Distinct, IsQueue, modify_ne, modify-head, modify-tail,
  modify-count, Links-modify-Absent, Links-split, Links-join, last, last_of-last, last-ne,
  Links-set_last, Links-set_first, last_of-append, Absent-append,
}

Distinct-drop : (p : ℕ) (xs ys : List ℕ) → Distinct (xs ++ (p ∷ ys)) → Distinct (xs ++ ys)
Distinct-drop p [] ys d = d.1
Distinct-drop p (x ∷ xs) ys d = (Absent-drop x xs d.0, Distinct-drop p xs ys d.1)
  where
    Absent-drop : (a : ℕ) (xs : List ℕ) → Absent a (xs ++ (p ∷ ys)) → Absent a (xs ++ ys)
    Absent-drop a [] h = h.1
    Absent-drop a (x ∷ xs) h = (h.0, Absent-drop a xs h.1)

Absent-mid : (p : ℕ) (xs ys : List ℕ) → Distinct (xs ++ (p ∷ ys)) → Absent p xs × Absent p ys
Absent-mid p [] ys d = (tt, d.0)
Absent-mid p (x ∷ xs) ys d =
    let r = Absent-mid p xs ys d.1 in
    let ne = ((Absent-append x xs (p ∷ ys) d.0).1).0 in ((λ e. ne (sym e), r.0), r.1)

Distinct-front : (xs ys : List ℕ) → Distinct (xs ++ ys) → Distinct xs
Distinct-front [] ys d = tt
Distinct-front (x ∷ xs) ys d = ((Absent-append x xs ys d.0).0, Distinct-front xs ys d.1)

last-Absent : (p x : ℕ) (xs ys : List ℕ) → Distinct ((x ∷ xs) ++ (p ∷ ys)) → Absent (last x xs) ys
unfolding last
last-Absent p x [] ys d = d.0.1
last-Absent p x (y ∷ xs) ys d = last-Absent p y xs ys d.1

-- `k1` is `k` with the link from before past `p`.
record HalfOut (p : ℕ) (xs ys : List ℕ) (k k1 : Kernel) : Type 0 where
  front : Links k1.process_table none (next_of none ys) xs
  back : Links k1.process_table (some p) none ys
  next : (k1.process_table p).next ≡ next_of none ys
  prev : (k1.process_table p).prev ≡ last_of none xs
  head : k1.ready_queue_head ≡ next_of none (xs ++ ys)
  tail : k1.ready_queue_tail ≡ k.ready_queue_tail
  count : k1.ready_queue_count ≡ k.ready_queue_count

abbrev pub past_prev : Option ℕ → Option ℕ → Kernel → Kernel
past_prev pv nx k = elim pv [ some q ↦ set_next q nx k | none ↦ record k { ready_queue_head = nx } ]

pub unlink_prev-past :
    (p : ℕ) (pv nx : Option ℕ) (k : Kernel)
    → (k.process_table p).prev ≡ pv
    → (k.process_table p).next ≡ nx
    → unlink_prev p k ≡ past_prev pv nx k
unfolding unlink_prev
unlink_prev-past p pv nx k v n =
    subst (λ b. unlink_prev p k ≡ past_prev pv b k) n
      (subst (λ a. unlink_prev p k ≡ past_prev a (k.process_table p).next k) v refl)

past_prev-HalfOut :
    (p : ℕ) (xs ys : List ℕ) (k : Kernel)
    → IsQueue k (xs ++ (p ∷ ys))
    → HalfOut p xs ys k (past_prev (last_of none xs) (next_of none ys) k)
past_prev-HalfOut p [] ys k is =
    let l = is.links in
    record {
      front = tt;
      back = l.2;
      next = l.0;
      prev = l.1;
      head = refl;
      tail = refl;
      count = refl;
    }
past_prev-HalfOut p (x ∷ xs) ys k is =
    let parts = Links-split k.process_table none none (x ∷ xs) (p ∷ ys) is.links in
    let own = parts.1 in
    let l = last x xs in
    let nx = next_of none ys in
    let mid = Absent-mid p (x ∷ xs) ys is.distinct in
    let same = modify_ne l (λ q. record q { next = nx }) k p (last-ne p x xs mid.0) in
    subst (λ pv. HalfOut p (x ∷ xs) ys k (past_prev pv nx k)) (sym (last_of-last none x xs))
      (record {
        front =
            Links-set_last k none (some p) nx x xs (Distinct-front (x ∷ xs) (p ∷ ys) is.distinct)
              parts.0;
        back =
            Links-modify-Absent l (λ q. record q { next = nx }) k (some p) none ys
              (last-Absent p x xs ys is.distinct) own.2;
        next = ap (λ (r : Process). r.next) same ∙ own.0;
        prev = ap (λ (r : Process). r.prev) same ∙ own.1;
        head = modify-head l (λ q. record q { next = nx }) k ∙ is.head;
        tail = modify-tail l (λ q. record q { next = nx }) k;
        count = modify-count l (λ q. record q { next = nx }) k;
      })

-- what is left to do to the queue without `p`
abbrev pub past_next : Option ℕ → Option ℕ → Kernel → Kernel
past_next nx pv k = elim nx [ some q ↦ set_prev q pv k | none ↦ record k { ready_queue_tail = pv } ]

pub unlink_next-past :
    (p : ℕ) (nx pv : Option ℕ) (k : Kernel)
    → (k.process_table p).next ≡ nx
    → (k.process_table p).prev ≡ pv
    → unlink_next p k ≡ past_next nx pv k
unfolding unlink_next
unlink_next-past p nx pv k n v =
    subst (λ b. unlink_next p k ≡ past_next nx b k) v
      (subst (λ a. unlink_next p k ≡ past_next a (k.process_table p).prev k) n refl)

-- the queue without `p`, but for the count
record Out (xs ys : List ℕ) (k k2 : Kernel) : Type 0 where
  links : Links k2.process_table none none (xs ++ ys)
  head : k2.ready_queue_head ≡ next_of none (xs ++ ys)
  tail : k2.ready_queue_tail ≡ last_of none (xs ++ ys)
  count : k2.ready_queue_count ≡ k.ready_queue_count

Absent-front : (y : ℕ) (xs ys : List ℕ) → Distinct (xs ++ (y ∷ ys)) → Absent y xs
Absent-front y xs ys d = (Absent-mid y xs ys d).0

append-nil : (xs : List ℕ) → xs ++ [] ≡ xs
append-nil [] = refl
append-nil (x ∷ xs) = ap (λ r. x ∷ r) (append-nil xs)

past_next-Out :
    (p : ℕ) (xs ys : List ℕ) (k k1 : Kernel)
    → Distinct (xs ++ ys)
    → k.ready_queue_tail ≡ last_of none (xs ++ (p ∷ ys))
    → HalfOut p xs ys k k1
    → Out xs ys k (past_next (next_of none ys) (last_of none xs) k1)
past_next-Out p xs [] k k1 d at_tail h = record {
  links = subst (Links k1.process_table none none) (sym (append-nil xs)) h.front;
  head = h.head;
  tail = ap (last_of none) (sym (append-nil xs));
  count = h.count;
}
past_next-Out p xs (y ∷ ys) k k1 d at_tail h =
    let pv = last_of none xs in
    let f : Process → Process = λ q. record q { prev = pv } in
    record {
      links =
          Links-join (set_prev y pv k1).process_table none none xs (y ∷ ys)
            (Links-modify-Absent y f k1 none (some y) xs (Absent-front y xs ys d) h.front)
            (Links-set_first k1 (some p) pv none y ys (Distinct-back xs (y ∷ ys) d) h.back);
      head = modify-head y f k1 ∙ h.head;
      tail =
          modify-tail y f k1
          ∙ h.tail
          ∙ at_tail
          ∙ last_of-append none xs (p ∷ y ∷ ys)
          ∙ sym (last_of-append none xs (y ∷ ys));
      count = modify-count y f k1 ∙ h.count;
    }
  where
    Distinct-back : (xs ys : List ℕ) → Distinct (xs ++ ys) → Distinct ys
    Distinct-back [] ys d = d
    Distinct-back (x ∷ xs) ys d = Distinct-back xs ys d.1

Absent-join : (a : ℕ) (xs ys : List ℕ) → Absent a xs → Absent a ys → Absent a (xs ++ ys)
Absent-join a [] ys h r = r
Absent-join a (x ∷ xs) ys h r = (h.0, Absent-join a xs ys h.1 r)

-- `scheduler_remove_process` of a process anywhere in the ready queue takes it out: the queue then
-- holds the others, in their order.
pub remove_process-IsQueue :
    (p : ℕ) (xs ys : List ℕ) (k : Kernel)
    → IsQueue k (xs ++ (p ∷ ys))
    → IsQueue (remove_process p k) (xs ++ ys)
unfolding remove_process
remove_process-IsQueue p xs ys k is =
    let own = (Links-split k.process_table none none xs (p ∷ ys) is.links).1 in
    let k1 = past_prev (last_of none xs) (next_of none ys) k in
    let half : HalfOut p xs ys k k1 = past_prev-HalfOut p xs ys k is in
    let k2 = past_next (next_of none ys) (last_of none xs) k1 in
    let d = Distinct-drop p xs ys is.distinct in
    let out : Out xs ys k k2 = past_next-Out p xs ys k k1 d is.tail half in
    let mid = Absent-mid p xs ys is.distinct in
    let e1 : unlink_prev p k ≡ k1 =
      unlink_prev-past p (last_of none xs) (next_of none ys) k own.1 own.0 in
    let e2 : unlink_next p k1 ≡ k2 =
      unlink_next-past p (next_of none ys) (last_of none xs) k1 half.next half.prev in
    let f : Process → Process = λ q. record q { next = none; prev = none } in
    rw (e1, e2)
      (record {
        links =
            Links-modify-Absent p f k2 none none (xs ++ ys) (Absent-join p xs ys mid.0 mid.1)
              out.links;
        head = modify-head p f k2 ∙ out.head;
        tail = modify-tail p f k2 ∙ out.tail;
        count = omega (
          arith,
          modify-count p f k2,
          out.count,
          is.count,
          length-append {0} xs (p ∷ ys),
          length-append {0} xs ys,
        );
        distinct = d;
      })
