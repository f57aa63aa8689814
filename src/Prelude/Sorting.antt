-- ===== src/Prelude/Sorting.antt =====
-- Python's stable `list.sort` and `sorted`, by insertion. The test says which items may stand
-- before which; equal keys keep their order, also under `reverse=True`.
use Prim.Native.Nat.{ℕ, ◌+◌, ◌≤◌}
use mathlib.Core.Path.{◌≡◌, refl}
use mathlib.Core.Bool.{Bool, true, false, ◌&&◌, ◌||◌}
use mathlib.Core.List.{List, [], ◌∷◌, map}
use native.Mathlib.Omega.{arith}
use nemo_rl_submission.Prelude.Tests.{ltb, leb, ◌==◌, if◌then◌else◌, Bool-cases, leb→le}
use nemo_rl_submission.Prelude.Lists.{All, All-map}
use mathlib.Core.Logic.{inl, inr}
use nemo_rl_submission.Prelude.Sums.{sum_by, SameItems}

module _ {ℓ} {A : Type ℓ} (before : A → A → Bool) where
  unfoldable pub insert_sorted : A → List A → List A
  insert_sorted x [] = x ∷ []
  insert_sorted x (y ∷ ys) = if before x y then x ∷ y ∷ ys else y ∷ insert_sorted x ys

  unfoldable pub sort : List A → List A
  unfolding insert_sorted
  sort [] = []
  sort (x ∷ xs) = insert_sorted x (sort xs)

  sum_by-insert_sorted :
      (w : A → ℕ) (x : A) (xs : List A) → sum_by w (insert_sorted x xs) ≡ w x + sum_by w xs
  unfolding insert_sorted
  sum_by-insert_sorted w x [] = refl
  sum_by-insert_sorted w x (y ∷ ys) = ground (arith, sum_by-insert_sorted w x ys)

  pub sort-SameItems : (xs : List A) → SameItems (sort xs) xs
  unfolding sort
  sort-SameItems [] w = refl
  sort-SameItems (x ∷ xs) w = omega (arith, sum_by-insert_sorted w x (sort xs), sort-SameItems xs w)

module _ {ℓ} {A : Type ℓ} (before : A → A → Bool) where
  All-insert_sorted {κ} :
      (P : A → Type κ) (x : A) (xs : List A) → P x → All P xs → All P (insert_sorted before x xs)
  unfolding insert_sorted
  All-insert_sorted P x [] p h = (p, tt)
  All-insert_sorted P x (y ∷ ys) p h = elim (Bool-cases (before x y)) [
    | inl first ↦ rw first (p, h)
    | inr later ↦ rw later (h.0, All-insert_sorted P x ys p h.1)
  ]

  pub All-sort {κ} : (P : A → Type κ) (xs : List A) → All P xs → All P (sort before xs)
  unfolding sort
  All-sort P [] h = tt
  All-sort P (x ∷ xs) h = All-insert_sorted P x (sort before xs) h.0 (All-sort P xs h.1)

-- Each number is at most all that follow.
abbrev pub IsAscending : List ℕ → Type 0
IsAscending [] = Unit
IsAscending (x ∷ xs) = All (λ y. x ≤ y) xs × IsAscending xs

module _ {A : Type 0} (key : A → ℕ) where
  abbrev pub by_key : A → A → Bool
  by_key x y = leb (key x) (key y)

  keys_above :
      (n : ℕ) (x : A) (xs : List A)
      → n ≤ key x
      → All (λ y. n ≤ y) (map key xs)
      → All (λ y. n ≤ y) (map key (insert_sorted by_key x xs))
  unfolding insert_sorted
  keys_above n x [] p h = (p, tt)
  keys_above n x (y ∷ ys) p h = elim (Bool-cases (leb (key x) (key y))) [
    | inl first ↦ rw first (p, h)
    | inr later ↦ rw later (h.0, keys_above n x ys p h.1)
  ]

  lower : (m n : ℕ) (xs : List ℕ) → m ≤ n → All (λ y. n ≤ y) xs → All (λ y. m ≤ y) xs
  lower m n xs h k = All-map (λ y p. omega arith) xs k

  insert_sorted-IsAscending :
      (x : A) (xs : List A)
      → IsAscending (map key xs)
      → IsAscending (map key (insert_sorted by_key x xs))
  unfolding insert_sorted
  insert_sorted-IsAscending x [] h = (tt, tt)
  insert_sorted-IsAscending x (y ∷ ys) h = elim (Bool-cases (leb (key x) (key y))) [
    | inl first ↦
        let le = leb→le (key x) (key y) first in
        rw first ((le, lower (key x) (key y) (map key ys) le h.0), h)
    | inr later ↦
        rw later
          (keys_above (key y) x ys (ground (arith, later)) h.0, insert_sorted-IsAscending x ys h.1)
  ]

  pub sort-IsAscending : (xs : List A) → IsAscending (map key (sort by_key xs))
  unfolding sort
  sort-IsAscending [] = tt
  sort-IsAscending (x ∷ xs) = insert_sorted-IsAscending x (sort by_key xs) (sort-IsAscending xs)

-- The order of `sort(reverse=True)` on pairs of integers: lexicographic, largest first.
abbrev pub pair_ge : ℕ × ℕ → ℕ × ℕ → Bool
pair_ge (a, i) (b, j) = ltb b a || (a == b && leb j i)

-- Each pair stands before all that follow: it is longer, or as long with a larger index.
abbrev pub IsDecreasing : List (ℕ × ℕ) → Type 0
IsDecreasing [] = Unit
IsDecreasing (x ∷ xs) = All (λ y. pair_ge x y ≡ true) xs × IsDecreasing xs

pub pair_ge_trans : (x y z : ℕ × ℕ) → pair_ge x y ≡ true → pair_ge y z ≡ true → pair_ge x z ≡ true
pair_ge_trans (a, i) (b, j) (c, k) h h' = ground (arith, h, h')

pair_ge_total : (x y : ℕ × ℕ) → pair_ge x y ≡ false → pair_ge y x ≡ true
pair_ge_total (a, i) (b, j) h = ground (arith, h)

below :
    (x y : ℕ × ℕ) (zs : List (ℕ × ℕ))
    → pair_ge x y ≡ true
    → All (λ z. pair_ge y z ≡ true) zs
    → All (λ z. pair_ge x z ≡ true) zs
below x y zs h k = All-map (λ z p. pair_ge_trans x y z h p) zs k

insert_sorted-IsDecreasing :
    (x : ℕ × ℕ) (xs : List (ℕ × ℕ)) → IsDecreasing xs → IsDecreasing (insert_sorted pair_ge x xs)
unfolding insert_sorted
insert_sorted-IsDecreasing x [] h = (tt, tt)
insert_sorted-IsDecreasing x (y ∷ ys) h = elim (Bool-cases (pair_ge x y)) [
  | inl first ↦ rw first ((first, below x y ys first h.0), h)
  | inr later ↦ rw later (
    All-insert_sorted pair_ge (λ z. pair_ge y z ≡ true) x ys (pair_ge_total x y later) h.0,
    insert_sorted-IsDecreasing x ys h.1,
  )
]

pub sort-IsDecreasing : (xs : List (ℕ × ℕ)) → IsDecreasing (sort pair_ge xs)
unfolding sort
sort-IsDecreasing [] = tt
sort-IsDecreasing (x ∷ xs) = insert_sorted-IsDecreasing x (sort pair_ge xs) (sort-IsDecreasing xs)
