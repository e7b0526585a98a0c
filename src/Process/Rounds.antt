-- ===== src/Process/Rounds.antt =====
-- The fuel of the loop of `process_destroy` in src/kernel/process.c: 16 rounds are all that it makes, even
-- when the children go to the process itself and its own list grows.
use aether_os.Base.{
  ℕ, zero, suc, ◌+◌, ◌≤◌, ltb, leb, if◌then◌else◌, Option, none, some, get_or, ◌≡◌, refl, sym, ap,
  ◌∙◌, subst, arith, inl, inr, eq-cases, if_false, Bool-cases,
}
use aether_os.Process.{Kernel, Process, modify, add_child}
use aether_os.Process.Store.{modify_self, modify_ne}
use aether_os.Process.Destroy.{adopt, reparent, set_parent}
use aether_os.Process.Reparent.{modify_keeps}

-- `p` has no more children than places.
abbrev Few : ℕ → Kernel → Type 0
Few p k = (k.process_table p).num_children ≤ 16

add_child-few : (c : ℕ) (q : Process) → q.num_children ≤ 16 → (add_child c q).num_children ≤ 16
add_child-few c q few = ground (arith, few)

adopt-Few : (child : Option ℕ) (n p : ℕ) (k : Kernel) → Few p k → Few p (adopt child n k)
adopt-Few none n p k few = few
adopt-Few (some c) n p k few =
    let moved = modify c (set_parent n) k in
    let kept : (moved.process_table p).num_children ≡ (k.process_table p).num_children =
      modify_keeps (λ q. q.num_children) c (set_parent n) k p (λ same. refl) in
    let few' : (moved.process_table p).num_children ≤ 16 = omega (arith, kept, few) in
    elim (eq-cases p n) [
      | inl same ↦
          subst (λ q. q.num_children ≤ 16)
            (sym (
              ap (modify n (add_child c) moved).process_table same
              ∙ modify_self n (add_child c) moved))
            (add_child-few c (moved.process_table n)
              (subst (λ a. (moved.process_table a).num_children ≤ 16) same few'))
      | inr ne ↦ subst (λ q. q.num_children ≤ 16) (sym (modify_ne n (add_child c) moved p ne)) few'
    ]

one_more :
    (fuel i p n : ℕ) (k : Kernel)
    → Few p k
    → 16 ≤ i + fuel
    → reparent (suc fuel) i p n k ≡ reparent fuel i p n k
unfolding reparent
one_more zero i p n k few enough =
    if_false (ltb i (k.process_table p).num_children) _ k (ground (arith, few, enough))
one_more (suc fuel) i p n k few enough =
    let next = adopt (get_or (k.process_table p).children i none) n k in
    ap (λ later. if ltb i (k.process_table p).num_children then later else k)
      (one_more fuel (suc i) p n next
        (adopt-Few (get_or (k.process_table p).children i none) n p k few) (omega (arith, enough)))

-- For a process with at most 16 children, any amount of fuel from 16 on gives the result that 16 gives.
pub reparent-enough :
    (fuel p n : ℕ) (k : Kernel)
    → (k.process_table p).num_children ≤ 16
    → 16 ≤ fuel
    → reparent fuel 0 p n k ≡ reparent 16 0 p n k
reparent-enough zero p n k few enough = absurd (omega (arith, enough))
reparent-enough (suc fuel) p n k few enough = elim (Bool-cases (leb 16 fuel)) [
  | inl more ↦
      one_more fuel 0 p n k few (ground (arith, more))
      ∙ reparent-enough fuel p n k few (ground (arith, more))
  | inr last ↦ ap (λ f. reparent f 0 p n k) (ground (arith, last, enough))
]
