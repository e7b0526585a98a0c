-- ===== src/Process/Pids.antt =====
-- `process_allocate_pid` of src/kernel/process.c: the search for a slot of the process table.
use aether_os.Base.{
  ℕ, zero, suc, ◌+◌, ◌-◌, ◌≤◌, ◌<◌, ◌≡◌, ◌⊎◌, inl, inr, refl, true, false, Option, none, some,
  arith, ap, ◌∙◌, subst, ◌==◌, ltb, Bool-cases,
}
use aether_os.Process.{
  Kernel, Table, is_terminated, find_slot, process_allocate_pid, max_processes, no_pid,
}

-- No process in the `n` slots from `i` is terminated.
abbrev pub NoneFree : ℕ → ℕ → Table → Type 0
NoneFree n i t = (a : ℕ) → i ≤ a → a < i + n → is_terminated (t a).state ≡ false

-- `r` is the first slot free of `n` from `i`, if there is one.
abbrev pub Found : ℕ → ℕ → Table → Option ℕ → Type 0
Found n i t none = NoneFree n i t
Found n i t (some j) =
    (i ≤ j) × (j < i + n) × (is_terminated (t j).state ≡ true) × NoneFree (j - i) i t

pub find_slot-Found : (n i : ℕ) (t : Table) → Found n i t (find_slot n i t)
unfolding find_slot
find_slot-Found zero i t = λ a lo hi. ground arith
find_slot-Found (suc n) i t = elim (Bool-cases (is_terminated (t i).state)) [
  | inl free ↦ simp free (omega arith, omega arith, refl, λ a lo hi. ground arith)
  | inr busy ↦ simp busy (further n i t busy (find_slot n (i + 1) t) (find_slot-Found n (i + 1) t))
]
  where
    first_or_later : (a i : ℕ) → i ≤ a → (a ≡ i) ⊎ (i + 1 ≤ a)
    first_or_later a i lo = elim (Bool-cases (a == i)) [
      | inl e ↦ inl (ground (arith, e))
      | inr e ↦ inr (ground (arith, e))
    ]

    later :
        (m i : ℕ) (t : Table)
        → is_terminated (t i).state ≡ false
        → NoneFree m (i + 1) t
        → NoneFree (suc m) i t
    later m i t busy h a lo hi = elim (first_or_later a i lo) [
      | inl e ↦ ap (λ x. is_terminated (t x).state) e ∙ busy
      | inr up ↦ h a up (omega (arith, hi))
    ]

    further :
        (n i : ℕ) (t : Table)
        → is_terminated (t i).state ≡ false
        → (r : Option ℕ) → Found n (i + 1) t r
        → Found (suc n) i t r
    further n i t busy none h = later n i t busy h
    further n i t busy (some j) h =
        let up : suc (j - (i + 1)) ≡ j - i = omega (arith, h.0) in
        (
          omega (arith, h.0),
          omega (arith, h.1),
          h.2,
          subst (λ m. NoneFree m i t) up (later (j - (i + 1)) i t busy h.3),
        )

-- What `process_allocate_pid` returns.
abbrev pub Allocated : Kernel → ℕ × Kernel → Type 0
Allocated k (pid, k') =
    ((1 ≤ pid)
      × (pid < max_processes)
      × (is_terminated (k.process_table pid).state ≡ true)
      × (k' ≡ record k { next_pid = pid + 1 }))
    ⊎ ((pid ≡ no_pid)
        × (k' ≡ k)
        × ((a : ℕ) → 1 ≤ a → a < max_processes → is_terminated (k.process_table a).state ≡ false))

-- From a cursor of 1 to 256, `process_allocate_pid` returns a PID of 1 to 255 whose slot is
-- terminated and moves the cursor behind it, or 0xFFFFFFFF, and then none of these slots is free.
pub process_allocate_pid-Allocated :
    (k : Kernel)
    → 1 ≤ k.next_pid
    → k.next_pid ≤ max_processes
    → Allocated k (process_allocate_pid k)
unfolding process_allocate_pid
process_allocate_pid-Allocated k lo hi =
    by_search k lo hi (find_slot (max_processes - k.next_pid) k.next_pid k.process_table)
      (find_slot-Found (max_processes - k.next_pid) k.next_pid k.process_table)
      (find_slot (k.next_pid - 1) 1 k.process_table)
      (find_slot-Found (k.next_pid - 1) 1 k.process_table)
  where
    by_search :
        (k : Kernel)
        → 1 ≤ k.next_pid
        → k.next_pid ≤ max_processes
        → (r : Option ℕ) → Found (max_processes - k.next_pid) k.next_pid k.process_table r
        → (q : Option ℕ) → Found (k.next_pid - 1) 1 k.process_table q
        → Allocated k (elim r [
          | some i ↦ (i, record k { next_pid = i + 1 })
          | none ↦ elim q [ some i ↦ (i, record k { next_pid = i + 1 }) | none ↦ (no_pid, k) ]
        ])
    by_search k lo hi (some i) f q g = inl (omega (arith, f.0), omega (arith, f.1), f.2, refl)
    by_search k lo hi none f (some i) g = inl (g.0, omega (arith, g.1), g.2, refl)
    by_search k lo hi none f none g = inr (
      refl,
      refl,
      λ a one lt. elim (Bool-cases (ltb a k.next_pid)) [
        | inl e ↦ g a one (ground (arith, e))
        | inr e ↦ f a (ground (arith, e)) (ground (arith, e))
      ],
    )
