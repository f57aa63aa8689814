-- ===== src/Prelude/Sums.antt =====
-- Sums of a weight over a list. Two lists hold the same items, each as often, when every weight
-- sums to the same over both: the weight that is 1 at one item and 0 elsewhere counts that item.
use Prim.Native.Nat.{ℕ, zero, suc, ◌+◌, ◌*◌, ◌≤◌, ◌<◌}
use mathlib.Core.Path.{◌≡◌, refl, ap, ◌∙◌}
use mathlib.Core.Bool.{Bool, true}
use mathlib.Core.List.{List, [], ◌∷◌, ◌++◌, map, flatten}
use native.Mathlib.Omega.{arith}
use nemo_rl_submission.Prelude.Tests.{if◌then◌else◌, ltb, ◌==◌}
use nemo_rl_submission.Prelude.Lists.{
  length, get_or, set, All, range_from, enumerate_from, append_snoc, get_or-append_middle,
}

module _ {ℓ} {A : Type ℓ} where
  abbrev pub sum_by : (A → ℕ) → List A → ℕ
  sum_by w [] = 0
  sum_by w (x ∷ xs) = w x + sum_by w xs

  abbrev pub SameItems : List A → List A → Type ℓ
  SameItems xs ys = (w : A → ℕ) → sum_by w xs ≡ sum_by w ys

  pub sum_by-append : (w : A → ℕ) (xs ys : List A) → sum_by w (xs ++ ys) ≡ sum_by w xs + sum_by w ys
  sum_by-append w [] ys = omega arith
  sum_by-append w (x ∷ xs) ys = omega (arith, sum_by-append w xs ys)

  -- Replacing an item changes a sum by the difference of the weights.
  pub sum_by-set :
      (w : A → ℕ) (xs : List A) (i : ℕ) (v d : A)
      → i < length xs
      → sum_by w (set xs i v) + w (get_or xs i d) ≡ sum_by w xs + w v
  sum_by-set w [] i v d h = absurd (omega arith)
  sum_by-set w (x ∷ xs) zero v d h = omega arith
  sum_by-set w (x ∷ xs) (suc i) v d h = omega (arith, sum_by-set w xs i v d (omega arith))

  pub sum_by-length : (xs : List A) → sum_by (λ _. 1) xs ≡ length xs
  sum_by-length [] = refl
  sum_by-length (x ∷ xs) = omega (arith, sum_by-length xs)

  pub sum_by-le_mul :
      (w : A → ℕ) (k : ℕ) (xs : List A) → All (λ x. w x ≤ k) xs → sum_by w xs ≤ length xs * k
  sum_by-le_mul w k [] h = omega arith
  sum_by-le_mul w k (x ∷ xs) h = omega (arith, h.0, sum_by-le_mul w k xs h.1)

  pub sum_by_ext : (v w : A → ℕ) (xs : List A) → All (λ x. v x ≡ w x) xs → sum_by v xs ≡ sum_by w xs
  sum_by_ext v w [] h = refl
  sum_by_ext v w (x ∷ xs) h = omega (arith, h.0, sum_by_ext v w xs h.1)

  -- An item's weight is at most the sum.
  pub le-sum_by_of_get :
      (w : A → ℕ) (xs : List A) (i : ℕ) (d : A) → i < length xs → w (get_or xs i d) ≤ sum_by w xs
  le-sum_by_of_get w [] i d h = absurd (omega arith)
  le-sum_by_of_get w (x ∷ xs) zero d h = omega arith
  le-sum_by_of_get w (x ∷ xs) (suc i) d h = omega (arith, le-sum_by_of_get w xs i d (omega arith))

  -- A test that no item passes sums to 0, and conversely.
  pub All-of_sum_by :
      (p : A → Bool) (xs : List A)
      → sum_by (λ x. if p x then 0 else 1) xs ≡ 0
      → All (λ x. p x ≡ true) xs
  All-of_sum_by p [] h = tt
  All-of_sum_by p (x ∷ xs) h = (ground arith, All-of_sum_by p xs (omega arith))

  pub sum_by_of_All :
      (p : A → Bool) (xs : List A)
      → All (λ x. p x ≡ true) xs
      → sum_by (λ x. if p x then 0 else 1) xs ≡ 0
  sum_by_of_All p [] h = refl
  sum_by_of_All p (x ∷ xs) h = ground (arith, h.0, sum_by_of_All p xs h.1)

  -- What all items of a list pass, all items of a rearrangement pass.
  pub All-of_SameItems :
      (p : A → Bool) (xs ys : List A)
      → SameItems xs ys
      → All (λ x. p x ≡ true) ys
      → All (λ x. p x ≡ true) xs
  All-of_SameItems p xs ys same h = All-of_sum_by p xs (same _ ∙ sum_by_of_All p ys h)

pub sum_by-flatten {ℓ} :
    {A : Type ℓ} (w : A → ℕ) (xss : List (List A)) → sum_by w (flatten xss) ≡ sum_by (sum_by w) xss
unfolding flatten
sum_by-flatten w [] = refl
sum_by-flatten w (xs ∷ xss) = omega (arith, sum_by-append w xs (flatten xss), sum_by-flatten w xss)

pub sum_by-map {ℓ κ} :
    {A : Type ℓ} {B : Type κ} (w : B → ℕ) (f : A → B) (xs : List A)
    → sum_by w (map f xs) ≡ sum_by (λ x. w (f x)) xs
sum_by-map w f [] = refl
sum_by-map w f (x ∷ xs) = omega (arith, sum_by-map w f xs)

pub sum_by-enumerate {ℓ} :
    {A : Type ℓ} (w : ℕ → ℕ) (i : ℕ) (xs : List A)
    → sum_by (λ e. w e.1) (enumerate_from i xs) ≡ sum_by w (range_from i (length xs))
sum_by-enumerate w i [] = refl
sum_by-enumerate w i (x ∷ xs) = omega (arith, sum_by-enumerate w (suc i) xs)

-- How often an index stands in a range: once if it lies in it, else never.
pub count-range_from :
    (j i n : ℕ)
    → sum_by (λ k. if k == j then 1 else 0) (range_from i n)
      ≡ (if ltb j i then 0 else if ltb j (i + n) then 1 else 0)
count-range_from j i zero = ground arith
count-range_from j i (suc n) = ground (arith, count-range_from j (suc i) n)

-- A sum over the positions of a list is a sum over the list.
pub sum_by-positions {ℓ} :
    {A : Type ℓ} (g : A → ℕ) (d : A) (pre xs : List A)
    → sum_by (λ j. g (get_or (pre ++ xs) j d)) (range_from (length pre) (length xs)) ≡ sum_by g xs
sum_by-positions g d pre [] = refl
sum_by-positions g d pre (x ∷ xs) = omega (
  arith,
  ap g (get_or-append_middle pre xs x d),
  append_snoc (λ l n. sum_by (λ j. g (get_or l j d)) (range_from n (length xs)) ≡ sum_by g xs) pre x
      xs (sum_by-positions g d (pre ++ x ∷ []) xs),
)

pub length-range_from : (i n : ℕ) → length (range_from i n) ≡ n
length-range_from i zero = refl
length-range_from i (suc n) = ap suc (length-range_from (suc i) n)

-- A range moved, and a range cut in two.
pub sum_by-shift :
    (w : ℕ → ℕ) (a j n : ℕ)
    → sum_by (λ c. w (a + c)) (range_from j n) ≡ sum_by w (range_from (a + j) n)
sum_by-shift w a j zero = refl
sum_by-shift w a j (suc n) = ground (arith, sum_by-shift w a (suc j) n)

pub sum_by-range_from :
    (w : ℕ → ℕ) (a m n : ℕ)
    → sum_by w (range_from a (m + n)) ≡ sum_by w (range_from a m) + sum_by w (range_from (a + m) n)
sum_by-range_from w a zero n = ground arith
sum_by-range_from w a (suc m) n =
    let longer : suc m + n ≡ suc (m + n) = omega arith in
    let later : a + suc m ≡ suc a + m = omega arith in
    rw (longer, later) (omega (arith, sum_by-range_from w (suc a) m n))

module _ {ℓ} {A : Type ℓ} where
  sum_by_add : (v w : A → ℕ) (xs : List A) → sum_by (λ x. v x + w x) xs ≡ sum_by v xs + sum_by w xs
  sum_by_add v w [] = refl
  sum_by_add v w (x ∷ xs) = omega (arith, sum_by_add v w xs)

  pub sum_by_zero : (xs : List A) → sum_by (λ _. 0) xs ≡ 0
  sum_by_zero [] = refl
  sum_by_zero (x ∷ xs) = omega (arith, sum_by_zero xs)

module _ {ℓ κ} {A : Type ℓ} {B : Type κ} where
  -- The order of two sums does not matter.
  pub sum_by_swap :
      (f : A → B → ℕ) (xs : List A) (ys : List B)
      → sum_by (λ x. sum_by (f x) ys) xs ≡ sum_by (λ y. sum_by (λ x. f x y) xs) ys
  sum_by_swap f xs [] = sum_by_zero xs
  sum_by_swap f xs (y ∷ ys) =
      sum_by_add (λ x. f x y) (λ x. sum_by (f x) ys) xs
      ∙ ap (sum_by (λ x. f x y) xs +◌) (sum_by_swap f xs ys)
