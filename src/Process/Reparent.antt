-- ===== src/Process/Reparent.antt =====
-- The loop of `process_destroy` in src/kernel/process.c that gives the children a new parent.
use aether_os.Base.{
  ℕ, zero, suc, ◌+◌, ◌≤◌, ◌<◌, ltb, Bool, true, false, if◌then◌else◌, Option, none, some, List,
  get_or, set, ◌≡◌, ◌≢◌, refl, sym, ap, ◌∙◌, arith, ◌⊎◌, inl, inr, eq-cases, if_true,
}
use aether_os.Process.{Kernel, Process, modify, add_child}
use aether_os.Process.Store.{modify_self, modify_ne}
use aether_os.Process.Destroy.{set_parent, adopt, reparent}

-- A field that an assignment to `p` keeps is kept in every process.
pub modify_keeps :
    {X : Type 0} (field : Process → X) (p : ℕ) (f : Process → Process) (k : Kernel) (q : ℕ)
    → (q ≡ p → field (f (k.process_table p)) ≡ field (k.process_table p))
    → field ((modify p f k).process_table q) ≡ field (k.process_table q)
modify_keeps field p f k q keeps = elim (eq-cases q p) [
  | inl same ↦
      ap (λ a. field ((modify p f k).process_table a)) same
      ∙ ap field (modify_self p f k)
      ∙ keeps same
      ∙ ap (λ a. field (k.process_table a)) (sym same)
  | inr ne ↦ ap field (modify_ne p f k q ne)
]

-- A field that a new parent of `q` does not change, on a process that is given no child, or a field that a
-- new child does not change either.
module _ {X : Type 0} (field : Process → X) (new_parent q : ℕ)
    (by_parent : (r : Process) (a : ℕ) → field (set_parent a r) ≡ field r)
    (by_child : (q ≢ new_parent) ⊎ ((c : ℕ) (r : Process) → field (add_child c r) ≡ field r)) where
  adopt_keeps :
      (child : Option ℕ) (k : Kernel)
      → field ((adopt child new_parent k).process_table q) ≡ field (k.process_table q)
  adopt_keeps none k = refl
  adopt_keeps (some c) k =
      let moved = modify c (set_parent new_parent) k in
      modify_keeps field new_parent (add_child c) moved q (λ same. elim by_child [
        | inl other ↦ absurd (other same)
        | inr keeps ↦ keeps c (moved.process_table new_parent)
      ])
      ∙ modify_keeps field c (set_parent new_parent) k q
          (λ same. by_parent (k.process_table c) new_parent)

  pub reparent_keeps :
      (fuel i p : ℕ) (k : Kernel)
      → field ((reparent fuel i p new_parent k).process_table q) ≡ field (k.process_table q)
  unfolding reparent
  reparent_keeps zero i p k = refl
  reparent_keeps (suc fuel) i p k =
      let child = get_or (k.process_table p).children i none in
      by_test (reparent fuel (suc i) p new_parent (adopt child new_parent k))
        (ltb i (k.process_table p).num_children)
        (reparent_keeps fuel (suc i) p (adopt child new_parent k) ∙ adopt_keeps child k)
    where
      by_test :
          (j : Kernel) (b : Bool)
          → field (j.process_table q) ≡ field (k.process_table q)
          → field ((if b then j else k).process_table q) ≡ field (k.process_table q)
      by_test j true e = e
      by_test j false e = refl

pub add_child_keeps :
    {X : Type 0} (field : Process → X)
    → ((r : Process) (cs : List (Option ℕ)) (n : ℕ)
        → field (record r { children = cs; num_children = n }) ≡ field r)
    → (c : ℕ) (r : Process) → field (add_child c r) ≡ field r
add_child_keeps field keeps c r = by_test (ltb r.num_children 16)
  where
    by_test :
        (b : Bool)
        → field (
            if b
            then record r {
              children = set r.children r.num_children (some c);
              num_children = r.num_children + 1;
            }
            else r)
          ≡ field r
    by_test true = keeps r (set r.children r.num_children (some c)) (r.num_children + 1)
    by_test false = refl

adopt-stack :
    (child : Option ℕ) (n : ℕ) (k : Kernel) → (adopt child n k).stack_allocated ≡ k.stack_allocated
unfolding modify
adopt-stack none n k = refl
adopt-stack (some c) n k = refl

pub reparent-stack :
    (fuel i p n : ℕ) (k : Kernel) → (reparent fuel i p n k).stack_allocated ≡ k.stack_allocated
unfolding reparent
reparent-stack zero i p n k = refl
reparent-stack (suc fuel) i p n k = by_test (ltb i (k.process_table p).num_children) (
    reparent-stack fuel (suc i) p n (adopt (get_or (k.process_table p).children i none) n k)
    ∙ adopt-stack (get_or (k.process_table p).children i none) n k)
  where
    later : Kernel
    later = reparent fuel (suc i) p n (adopt (get_or (k.process_table p).children i none) n k)

    by_test :
        (b : Bool)
        → later.stack_allocated ≡ k.stack_allocated
        → (if b then later else k).stack_allocated ≡ k.stack_allocated
    by_test true e = e
    by_test false e = refl

-- A process that has the new parent keeps it.
adopt-parent :
    (child : Option ℕ) (n q : ℕ) (k : Kernel)
    → (child ≡ some q) ⊎ ((k.process_table q).parent ≡ some n)
    → ((adopt child n k).process_table q).parent ≡ some n
adopt-parent none n q k (inl e) = absurd (cc)
adopt-parent none n q k (inr has) = has
adopt-parent (some c) n q k given =
    modify_keeps (λ r. r.parent) n (add_child c) (modify c (set_parent n) k) q
      (λ same. add_child_keeps (λ r. r.parent) (λ r cs m. refl) c _)
    ∙ elim (eq-cases q c) [
      | inl same ↦
          ap (λ a. ((modify c (set_parent n) k).process_table a).parent) same
          ∙ ap (λ r. r.parent) (modify_self c (set_parent n) k)
      | inr ne ↦
          ap (λ r. r.parent) (modify_ne c (set_parent n) k q ne)
          ∙ elim given [ inl e ↦ absurd (ne (cc)) | inr has ↦ has ]
    ]

reparent-parent :
    (fuel i p n q : ℕ) (k : Kernel)
    → (k.process_table q).parent ≡ some n
    → ((reparent fuel i p n k).process_table q).parent ≡ some n
unfolding reparent
reparent-parent zero i p n q k has = has
reparent-parent (suc fuel) i p n q k has =
    by_test (ltb i (k.process_table p).num_children)
      (reparent-parent fuel (suc i) p n q (adopt child n k) (adopt-parent child n q k (inr has)))
  where
    child : Option ℕ
    child = get_or (k.process_table p).children i none

    later : Kernel
    later = reparent fuel (suc i) p n (adopt child n k)

    by_test :
        (b : Bool)
        → (later.process_table q).parent ≡ some n
        → ((if b then later else k).process_table q).parent ≡ some n
    by_test true e = e
    by_test false e = has

-- Each child in the places that the loop visits has the new parent behind it.
pub reparent-children :
    (fuel i j p n c : ℕ) (k : Kernel)
    → p ≢ n
    → i ≤ j
    → j < i + fuel
    → j < (k.process_table p).num_children
    → get_or (k.process_table p).children j none ≡ some c
    → ((reparent fuel i p n k).process_table c).parent ≡ some n
unfolding reparent
reparent-children zero i j p n c k other le lt small e = absurd (omega (arith, le, lt))
reparent-children (suc fuel) i j p n c k other le lt small e =
    let child = get_or (k.process_table p).children i none in
    let next = adopt child n k in
    ap (λ k. (k.process_table c).parent)
      (if_true (ltb i (k.process_table p).num_children) _ k (ground (arith, le, small)))
    ∙ elim (eq-cases i j) [
      | inl same ↦ reparent-parent fuel (suc i) p n c next (
          adopt-parent child n c k
            (inl (ap (λ x. get_or (k.process_table p).children x none) same ∙ e)))
      | inr ne ↦
          let count : (next.process_table p).num_children ≡ (k.process_table p).num_children =
            adopt_keeps (λ r. r.num_children) n p (λ r a. refl) (inl other) child k in
          let places : (next.process_table p).children ≡ (k.process_table p).children =
            adopt_keeps (λ r. r.children) n p (λ r a. refl) (inl other) child k in
          reparent-children fuel (suc i) j p n c next other (omega (arith, le, ne))
            (omega (arith, lt)) (omega (arith, small, count))
            (ap (λ cs. get_or cs j none) places ∙ e)
    ]
