-- ===== src/Process/Orphans.antt =====
-- What `process_destroy` of src/kernel/process.c does to the child lists, and that its slot can be used
-- again.
use aether_os.Base.{
  ℕ, zero, suc, ◌-◌, ◌≤◌, Bool, true, false, if◌then◌else◌, Option, none, some, List, [], ◌∷◌,
  get_or, set, length, ◌≡◌, refl, ap, ◌∙◌, arith,
}
use mathlib.Core.Option
use aether_os.Process.{Process}
use aether_os.Process.Destroy.{is_child, find_child, shift_children, remove_child}

-- The first `n` elements of a list that has them.
unfoldable pub take : ℕ → List (Option ℕ) → List (Option ℕ)
take zero xs = []
take (suc n) [] = []
take (suc n) (x ∷ xs) = x ∷ take n xs

-- the child list of a process
abbrev pub child_list : Process → List (Option ℕ)
child_list p = take p.num_children p.children

-- the list without the first entry for `child`
unfoldable pub without : ℕ → List (Option ℕ) → List (Option ℕ)
without child [] = []
without child (x ∷ xs) = let rest = without child xs in if is_child child x then xs else x ∷ rest

shift-cons :
    (n j : ℕ) (x : Option ℕ) (xs : List (Option ℕ))
    → shift_children n (suc j) (x ∷ xs) ≡ x ∷ shift_children n j xs
unfolding shift_children
shift-cons zero j x xs = refl
shift-cons (suc n) j x xs = shift-cons n (suc j) x (set xs j (get_or xs (suc j) none))

shift-front :
    (n : ℕ) (x : Option ℕ) (xs : List (Option ℕ))
    → n ≤ length xs
    → take n (shift_children n 0 (x ∷ xs)) ≡ take n xs
unfolding take shift_children
shift-front zero x xs fits = refl
shift-front (suc n) x [] fits = absurd (omega (arith, fits))
shift-front (suc n) x (y ∷ ys) fits =
    ap (take (suc n)) (shift-cons n 0 y (y ∷ ys))
    ∙ ap (λ zs. y ∷ zs) (shift-front n y ys (omega (arith, fits)))

find-cons :
    (child n i : ℕ) (x : Option ℕ) (xs : List (Option ℕ))
    → find_child child n (suc i) (x ∷ xs) ≡ Option.map suc (find_child child n i xs)
unfolding find_child
find-cons child zero i x xs = refl
find-cons child (suc n) i x xs =
    ap (λ later. if is_child child (get_or xs i none) then some (suc i) else later)
      (find-cons child n (suc i) x xs)
    ∙ by_place (is_child child (get_or xs i none))
  where
    by_place :
        (b : Bool)
        → (if b then some (suc i) else Option.map suc (find_child child n (suc i) xs))
          ≡ Option.map suc (if b then some i else find_child child n (suc i) xs)
    by_place true = refl
    by_place false = refl

-- the count and the places, once a search has ended
abbrev removed : Option ℕ → ℕ → List (Option ℕ) → List (Option ℕ)
removed place n children = elim place [
  | none ↦ take n children
  | some i ↦ take (n - 1) (shift_children (n - 1 - i) i children)
]

removed-cons :
    (place : Option ℕ) (child n : ℕ) (x : Option ℕ) (xs : List (Option ℕ))
    → find_child child n 0 xs ≡ place
    → removed (Option.map suc place) (suc n) (x ∷ xs) ≡ x ∷ removed place n xs
unfolding take find_child
removed-cons none child n x xs e = refl
removed-cons (some i) child zero x xs e = absurd (cc)
removed-cons (some i) child (suc n) x xs e =
    let steps : suc (suc n) - 1 - suc i ≡ suc n - 1 - i = omega arith in
    let count : suc (suc n) - 1 ≡ suc (suc n - 1) = omega arith in
    ap (λ m. take m (shift_children (suc (suc n) - 1 - suc i) (suc i) (x ∷ xs))) count
    ∙ ap (λ m. take (suc (suc n - 1)) (shift_children m (suc i) (x ∷ xs))) steps
    ∙ ap (take (suc (suc n - 1))) (shift-cons (suc n - 1 - i) i x xs)

removed-without :
    (child n : ℕ) (xs : List (Option ℕ))
    → n ≤ length xs
    → removed (find_child child n 0 xs) n xs ≡ without child (take n xs)
unfolding take find_child without
removed-without child zero xs fits = refl
removed-without child (suc n) [] fits = absurd (omega (arith, fits))
removed-without child (suc n) (x ∷ xs) fits =
    ap (λ later. removed (if is_child child x then some 0 else later) (suc n) (x ∷ xs))
      (find-cons child n 0 x xs)
    ∙ by_first (is_child child x) (removed-without child n xs (omega (arith, fits)))
  where
    by_first :
        (b : Bool)
        → removed (find_child child n 0 xs) n xs ≡ without child (take n xs)
        → removed (if b then some 0 else Option.map suc (find_child child n 0 xs)) (suc n) (x ∷ xs)
          ≡ (if b then take n xs else x ∷ without child (take n xs))
    by_first true later =
        let count : suc n - 1 ≡ n = omega arith in
        let steps : suc n - 1 - 0 ≡ n = omega arith in
        ap (λ m. take m (shift_children (suc n - 1 - 0) 0 (x ∷ xs))) count
        ∙ ap (λ m. take n (shift_children m 0 (x ∷ xs))) steps
        ∙ shift-front n x xs (omega (arith, fits))
    by_first false later =
        removed-cons (find_child child n 0 xs) child n x xs refl ∙ ap (λ zs. x ∷ zs) later

-- For a process with no more children than places: `remove_child` leaves its child list without the
-- first entry for the child, the others in order.
pub remove_child-without :
    (child : ℕ) (p : Process)
    → p.num_children ≤ length p.children
    → child_list (remove_child child p) ≡ without child (child_list p)
unfolding remove_child
remove_child-without child p fits =
    by_place (find_child child p.num_children 0 p.children)
    ∙ removed-without child p.num_children p.children fits
  where
    by_place :
        (place : Option ℕ)
        → child_list (elim place [
          | none ↦ p
          | some i ↦ record p {
            children = shift_children (p.num_children - 1 - i) i p.children;
            num_children = p.num_children - 1;
          }
        ])
          ≡ removed place p.num_children p.children
    by_place none = refl
    by_place (some i) = refl
