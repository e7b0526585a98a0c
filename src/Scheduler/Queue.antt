-- ===== src/Scheduler/Queue.antt =====
-- The ready queue of scheduler.c as a list of processes: doubly linked through the table.
use aether_os.Base.{
  ℕ, ◌≡◌, ◌≢◌, refl, Option, none, some, List, [], ◌∷◌, ◌++◌, arith, ap, ◌∙◌, sym, length,
}
pub use aether_os.Process.Store.{modify_self, modify_ne, modify-head, modify-tail, modify-count}
use aether_os.Process.{Kernel, Process, Table, modify}

abbrev pub next_of : Option ℕ → List ℕ → Option ℕ
next_of nx [] = nx
next_of nx (p ∷ ps) = some p

abbrev pub last_of : Option ℕ → List ℕ → Option ℕ
last_of pv [] = pv
last_of pv (p ∷ ps) = last_of (some p) ps

-- The processes are linked in this order, from `pv` before them to `nx` behind them.
abbrev pub Links : Table → Option ℕ → Option ℕ → List ℕ → Type 0
Links t pv nx [] = Unit {0}
Links t pv nx (p ∷ ps) = ((t p).next ≡ next_of nx ps) × ((t p).prev ≡ pv) × Links t (some p) nx ps

abbrev pub Absent : ℕ → List ℕ → Type 0
Absent a [] = Unit {0}
Absent a (p ∷ ps) = (a ≢ p) × Absent a ps

abbrev pub Distinct : List ℕ → Type 0
Distinct [] = Unit {0}
Distinct (p ∷ ps) = Absent p ps × Distinct ps

-- The queue holds exactly these processes, in this order.
pub record IsQueue (k : Kernel) (ps : List ℕ) : Type 0 where
  pub links : Links k.process_table none none ps
  pub head : k.ready_queue_head ≡ next_of none ps
  pub tail : k.ready_queue_tail ≡ last_of none ps
  pub count : k.ready_queue_count ≡ length ps
  pub distinct : Distinct ps

module _ (p : ℕ) (f : Process → Process) (k : Kernel) where
  -- The links do not see a change at a process outside the list.
  pub Links-modify-Absent :
      (pv nx : Option ℕ) (ps : List ℕ)
      → Absent p ps
      → Links k.process_table pv nx ps
      → Links (modify p f k).process_table pv nx ps
  Links-modify-Absent pv nx [] out l = tt
  Links-modify-Absent pv nx (q ∷ ps) out l =
      let same = modify_ne p f k q (λ e. out.0 (sym e)) in
      (
        ap (λ (r : Process). r.next) same ∙ l.0,
        ap (λ (r : Process). r.prev) same ∙ l.1,
        Links-modify-Absent (some q) nx ps out.1 l.2,
      )

  -- Nor a change that leaves the two link fields alone.
  pub Links-modify_same :
      (pv nx : Option ℕ) (ps : List ℕ)
      → ((r : Process) → (f r).next ≡ r.next)
      → ((r : Process) → (f r).prev ≡ r.prev)
      → Links k.process_table pv nx ps
      → Links (modify p f k).process_table pv nx ps
  unfolding modify
  Links-modify_same pv nx [] n v l = tt
  Links-modify_same pv nx (q ∷ ps) n v l = (
    ground (arith, n (k.process_table p), l.0),
    ground (arith, v (k.process_table p), l.1),
    Links-modify_same (some q) nx ps n v l.2,
  )

pub next_of-append :
    (nx : Option ℕ) (xs ys : List ℕ) → next_of (next_of nx ys) xs ≡ next_of nx (xs ++ ys)
next_of-append nx [] ys = refl
next_of-append nx (x ∷ xs) ys = refl

pub last_of-append :
    (pv : Option ℕ) (xs ys : List ℕ) → last_of pv (xs ++ ys) ≡ last_of (last_of pv xs) ys
last_of-append pv [] ys = refl
last_of-append pv (x ∷ xs) ys = last_of-append (some x) xs ys

pub Links-split :
    (t : Table) (pv nx : Option ℕ) (xs ys : List ℕ)
    → Links t pv nx (xs ++ ys)
    → Links t pv (next_of nx ys) xs × Links t (last_of pv xs) nx ys
Links-split t pv nx [] ys l = (tt, l)
Links-split t pv nx (x ∷ xs) ys l =
    let r = Links-split t (some x) nx xs ys l.2 in
    ((l.0 ∙ sym (next_of-append nx xs ys), l.1, r.0), r.1)

pub Links-join :
    (t : Table) (pv nx : Option ℕ) (xs ys : List ℕ)
    → Links t pv (next_of nx ys) xs
    → Links t (last_of pv xs) nx ys
    → Links t pv nx (xs ++ ys)
Links-join t pv nx [] ys l r = r
Links-join t pv nx (x ∷ xs) ys l r =
    (l.0 ∙ next_of-append nx xs ys, l.1, Links-join t (some x) nx xs ys l.2 r)

unfoldable pub last : ℕ → List ℕ → ℕ
last x [] = x
last x (y ∷ ys) = last y ys

pub last_of-last : (pv : Option ℕ) (x : ℕ) (xs : List ℕ) → last_of pv (x ∷ xs) ≡ some (last x xs)
unfolding last
last_of-last pv x [] = refl
last_of-last pv x (y ∷ ys) = last_of-last (some x) y ys

pub last-ne : (a x : ℕ) (xs : List ℕ) → Absent a (x ∷ xs) → a ≢ last x xs
unfolding last
last-ne a x [] out = out.0
last-ne a x (y ∷ ys) out = last-ne a y ys out.1

-- Assigning `next` of the last process, or `prev` of the first one, moves that end.
pub Links-set_last :
    (k : Kernel) (pv nx nx' : Option ℕ) (x : ℕ) (xs : List ℕ)
    → Distinct (x ∷ xs)
    → Links k.process_table pv nx (x ∷ xs)
    → Links (modify (last x xs) (λ q. record q { next = nx' }) k).process_table pv nx' (x ∷ xs)
unfolding last
Links-set_last k pv nx nx' x [] d s = (
  ap (λ (r : Process). r.next) (modify_self x _ k),
  ap (λ (r : Process). r.prev) (modify_self x _ k) ∙ s.1,
  tt,
)
Links-set_last k pv nx nx' x (y ∷ xs) d s =
    let same = modify_ne (last y xs) _ k x (last-ne x y xs d.0) in
    (
      ap (λ (r : Process). r.next) same ∙ s.0,
      ap (λ (r : Process). r.prev) same ∙ s.1,
      Links-set_last k (some x) nx nx' y xs d.1 s.2,
    )

pub Links-set_first :
    (k : Kernel) (pv pv' nx : Option ℕ) (y : ℕ) (ys : List ℕ)
    → Distinct (y ∷ ys)
    → Links k.process_table pv nx (y ∷ ys)
    → Links (modify y (λ q. record q { prev = pv' }) k).process_table pv' nx (y ∷ ys)
Links-set_first k pv pv' nx y ys d s = (
  ap (λ (r : Process). r.next) (modify_self y _ k) ∙ s.0,
  ap (λ (r : Process). r.prev) (modify_self y _ k),
  Links-modify-Absent y _ k (some y) nx ys d.0 s.2,
)

pub Absent-append : (a : ℕ) (xs ys : List ℕ) → Absent a (xs ++ ys) → Absent a xs × Absent a ys
Absent-append a [] ys h = (tt, h)
Absent-append a (x ∷ xs) ys h = let r = Absent-append a xs ys h.1 in ((h.0, r.0), r.1)
