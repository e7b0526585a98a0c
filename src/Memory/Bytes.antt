-- ===== src/Memory/Bytes.antt =====
-- `memset`, `memcpy` and `memcmp` of memory.c over a byte-addressed memory. The `while (size--)`
-- loops recur on the count; pointers are not taken past the end of the address space.
use aether_os.Base.{
  ℕ, zero, suc, ◌+◌, ◌%◌, ◌≤◌, ◌<◌, ◌≡◌, refl, ltb, ◌==◌, if◌then◌else◌, ◌⊎◌, arith, ◌∙◌, ◌↔◌,
}
use aether_os.Base.Int.{ℤ, pos, negsuc}

abbrev pub Memory : Type 0
Memory = ℕ → ℕ

abbrev pub store : Memory → ℕ → ℕ → Memory
store m p v a = if a == p then v else m a

unfoldable pub memset : ℕ → ℕ → ℕ → Memory → Memory
memset p value zero m = m
memset p value (suc size) m = memset (p + 1) value size (store m p (value % 256))

unfoldable pub memcpy : ℕ → ℕ → ℕ → Memory → Memory
memcpy d s zero m = m
memcpy d s (suc size) m = memcpy (d + 1) (s + 1) size (store m d (m s))

unfoldable pub memcmp : ℕ → ℕ → ℕ → Memory → ℤ
memcmp p1 p2 zero m = pos 0
memcmp p1 p2 (suc size) m =
    if m p1 == m p2
    then memcmp (p1 + 1) (p2 + 1) size m
    else (if ltb (m p1) (m p2) then negsuc 0 else pos 1)

memset-outside :
    (p value size : ℕ) (m : Memory) (a : ℕ)
    → (a < p) ⊎ (p + size ≤ a)
    → memset p value size m a ≡ m a
unfolding memset
memset-outside p value zero m a out = refl
memset-outside p value (suc size) m a out =
    memset-outside (p + 1) value size (store m p (value % 256)) a (omega arith) ∙ ground arith

memset-inside :
    (p value size : ℕ) (m : Memory) (i : ℕ) → i < size → memset p value size m (p + i) ≡ value % 256
unfolding memset
memset-inside p value zero m i h = absurd (omega arith)
memset-inside p value (suc size) m zero h =
    memset-outside (p + 1) value size (store m p (value % 256)) (p + 0) (omega arith) ∙ ground arith
memset-inside p value (suc size) m (suc i) h =
    rw (let e : p + suc i ≡ p + 1 + i = omega arith in e)
      (memset-inside (p + 1) value size (store m p (value % 256)) i (omega arith))

-- `memset` sets the `size` bytes from `p` to the low byte of the value, and no other byte.
pub memset_lem :
    (p value size : ℕ) (m : Memory)
    → ((i : ℕ) → i < size → memset p value size m (p + i) ≡ value % 256)
      × ((a : ℕ) → (a < p) ⊎ (p + size ≤ a) → memset p value size m a ≡ m a)
memset_lem p value size m = (memset-inside p value size m, memset-outside p value size m)

memcpy-outside :
    (d s size : ℕ) (m : Memory) (a : ℕ) → (a < d) ⊎ (d + size ≤ a) → memcpy d s size m a ≡ m a
unfolding memcpy
memcpy-outside d s zero m a out = refl
memcpy-outside d s (suc size) m a out =
    memcpy-outside (d + 1) (s + 1) size (store m d (m s)) a (omega arith) ∙ ground arith

memcpy-inside :
    (d s size : ℕ) (m : Memory) (i : ℕ)
    → (d ≤ s) ⊎ (s + size ≤ d)
    → i < size
    → memcpy d s size m (d + i) ≡ m (s + i)
unfolding memcpy
memcpy-inside d s zero m i apart h = absurd (omega arith)
memcpy-inside d s (suc size) m zero apart h =
    memcpy-outside (d + 1) (s + 1) size (store m d (m s)) (d + 0) (omega arith) ∙ ground arith
memcpy-inside d s (suc size) m (suc i) apart h =
    rw
      (
        let e : d + suc i ≡ d + 1 + i = omega arith in e,
        let e : s + suc i ≡ s + 1 + i = omega arith in e,
      )
      (memcpy-inside (d + 1) (s + 1) size (store m d (m s)) i (omega arith) (omega arith)
        ∙ ground arith)

-- Where the ranges do not overlap, or the destination is not above the source, `memcpy` copies the
-- `size` bytes that the source held; it writes no byte outside the destination.
pub memcpy_lem :
    (d s size : ℕ) (m : Memory)
    → (d ≤ s) ⊎ (s + size ≤ d)
    → ((i : ℕ) → i < size → memcpy d s size m (d + i) ≡ m (s + i))
      × ((a : ℕ) → (a < d) ⊎ (d + size ≤ a) → memcpy d s size m a ≡ m a)
memcpy_lem d s size m apart = (λ i. memcpy-inside d s size m i apart, memcpy-outside d s size m)

memcmp-same :
    (p1 p2 size : ℕ) (m : Memory)
    → memcmp p1 p2 size m ≡ pos 0
    → (i : ℕ) → i < size
    → m (p1 + i) ≡ m (p2 + i)
unfolding memcmp
memcmp-same p1 p2 zero m e i h = absurd (omega arith)
memcmp-same p1 p2 (suc size) m e zero h =
    let at1 : p1 + 0 ≡ p1 = omega arith in
    let at2 : p2 + 0 ≡ p2 = omega arith in rw (at1, at2) (ground arith)
memcmp-same p1 p2 (suc size) m e (suc i) h =
    let at1 : p1 + suc i ≡ p1 + 1 + i = omega arith in
    let at2 : p2 + suc i ≡ p2 + 1 + i = omega arith in
    rw (at1, at2) (memcmp-same (p1 + 1) (p2 + 1) size m (ground arith) i (omega arith))

memcmp_of_same :
    (p1 p2 size : ℕ) (m : Memory)
    → ((i : ℕ) → i < size → m (p1 + i) ≡ m (p2 + i))
    → memcmp p1 p2 size m ≡ pos 0
unfolding memcmp
memcmp_of_same p1 p2 zero m same = refl
memcmp_of_same p1 p2 (suc size) m same =
    let at1 : p1 + 0 ≡ p1 = omega arith in
    let at2 : p2 + 0 ≡ p2 = omega arith in
    let first : m p1 ≡ m p2 = rw (at1, at2) at (same 0 (omega arith)) in
    let rest = memcmp_of_same (p1 + 1) (p2 + 1) size m λ i h.
      let e1 : p1 + 1 + i ≡ p1 + suc i = omega arith in
      let e2 : p2 + 1 + i ≡ p2 + suc i = omega arith in rw (e1, e2) (same (suc i) (omega arith)) in
    ground (arith, first, rest)

-- `memcmp` answers 0 exactly where the two ranges hold the same bytes.
pub memcmp-eq-zero :
    (p1 p2 size : ℕ) (m : Memory)
    → (memcmp p1 p2 size m ≡ pos 0) ↔ ((i : ℕ) → i < size → m (p1 + i) ≡ m (p2 + i))
memcmp-eq-zero p1 p2 size m = (memcmp-same p1 p2 size m, memcmp_of_same p1 p2 size m)
