-- ===== src/Batching/Batch/Places.antt =====
-- Picking elements by places, and putting them back.
use mathlib.Core.Path.{subst}
use native.Mathlib.Decide.{dec_le}
use nemo_rl_submission.Prelude.{
  ℕ, zero, suc, ◌+◌, ◌≤◌, ◌<◌, ◌≡◌, refl, sym, ◌∙◌, ap, true, List, [], ◌∷◌, ◌++◌, map, arith, ltb,
  leb, ◌==◌, if◌then◌else◌, length, pick, item_at, zip, All, All-map, length-map, range, range_from,
  sum_by, sum_by-map, sum_by-length, SameItems, All-of_SameItems, length-range_from, sort,
  sort-SameItems, All-sort, IsAscending, sort-IsAscending, leb→le, append_snoc,
}
use nemo_rl_submission.Batching.Batch.{reordered_indices}

-- Lists with the same items are equally long.
pub length-SameItems {ℓ} : {A : Type ℓ} (xs ys : List A) → SameItems xs ys → length xs ≡ length ys
length-SameItems xs ys h = omega (arith, sum_by-length xs, sum_by-length ys, h (λ _. 1))

pub All-range_from : (i n : ℕ) → All (λ k. leb i k ≡ true) (range_from i n)
All-range_from i zero = tt
All-range_from i (suc n) =
    (ground arith, All-map (λ k h. ground (arith, h)) _ (All-range_from (suc i) n))

pub below-range_from : (i n m : ℕ) → i + n ≤ m → All (λ k. ltb k m ≡ true) (range_from i n)
below-range_from i zero m h = tt
below-range_from i (suc n) m h = (ground arith, below-range_from (suc i) n m (omega arith))

absent : (i : ℕ) (xs : List ℕ) → All (λ y. i < y) xs → sum_by (λ y. if y == i then 1 else 0) xs ≡ 0
absent i [] h = refl
absent i (x ∷ xs) h = ground (arith, h.0, absent i xs h.1)

-- The first of an ascending rearrangement of a range.
first-le :
    (i n x : ℕ) (xs : List ℕ)
    → SameItems (x ∷ xs) (range_from i (suc n))
    → All (λ y. x ≤ y) xs
    → x ≤ i
first-le i n x xs h k = elim (dec_le x i) [
  | yes le ↦ le
  | no gt ↦
      let above : All (λ y. i < y) (x ∷ xs) = (omega arith, All-map (λ y le. omega arith) xs k) in
      absurd (ground (arith, h (λ y. if y == i then 1 else 0), absent i (x ∷ xs) above))
]

-- An ascending rearrangement of a range is the range.
pub range_from_unique :
    (i n : ℕ) (xs : List ℕ) → SameItems xs (range_from i n) → IsAscending xs → xs ≡ range_from i n
range_from_unique i zero [] h k = refl
range_from_unique i zero (x ∷ xs) h k = absurd (omega (arith, length-SameItems (x ∷ xs) [] h))
range_from_unique i (suc n) [] h k =
    absurd (omega (arith, length-SameItems [] (range_from i (suc n)) h))
range_from_unique i (suc n) (x ∷ xs) h k =
    let low : i ≤ x =
      leb→le i x
        (All-of_SameItems (λ y. leb i y) (x ∷ xs) (range_from i (suc n)) h
          (All-range_from i (suc n))).0 in
    let same : x ≡ i = omega (arith, low, first-le i n x xs h k.0) in
    rw same (ap (i ∷◌) (range_from_unique (suc i) n xs (λ w. omega (arith, h w, ap w same)) k.1))

module _ {ℓ} {A : Type ℓ} where
  item_at-in : (i : ℕ) (xs : List A) → i < length xs → (x : A) × (item_at i xs ≡ x ∷ [])
  item_at-in i [] h = absurd (omega arith)
  item_at-in zero (x ∷ xs) h = (x, refl)
  item_at-in (suc i) (x ∷ xs) h = item_at-in i xs (omega arith)

  item_at-middle : (xs ys : List A) (y : A) → item_at (length xs) (xs ++ y ∷ ys) ≡ y ∷ []
  item_at-middle [] ys y = refl
  item_at-middle (x ∷ xs) ys y = item_at-middle xs ys y

  pub pick-range_from :
      (pre xs : List A) → pick (pre ++ xs) (range_from (length pre) (length xs)) ≡ xs
  pick-range_from pre [] = refl
  pick-range_from pre (x ∷ xs) = rw (item_at-middle pre xs x) (
      ap (x ∷◌) (
        append_snoc (λ l n. pick l (range_from n (length xs)) ≡ xs) pre x xs
          (pick-range_from (pre ++ x ∷ []) xs)))

  pub length-pick :
      (xs : List A) (is : List ℕ)
      → All (λ i. ltb i (length xs) ≡ true) is
      → length (pick xs is) ≡ length is
  length-pick xs [] h = refl
  length-pick xs (i ∷ is) h =
      let (x, e) = item_at-in i xs (ground (arith, h.0)) in rw e (ap suc (length-pick xs is h.1))

  -- A place and the place that it stands at hold the same element.
  paired :
      (xs pre : List A) (is : List ℕ)
      → All (λ i. ltb i (length xs) ≡ true) is
      → All
          (λ (p : ℕ × ℕ). item_at p.1 (pre ++ pick xs is) ≡ item_at p.0 xs)
          (zip is (range_from (length pre) (length is)))
  paired xs pre [] h = tt
  paired xs pre (i ∷ is) h =
      let (x, e) = item_at-in i xs (ground (arith, h.0)) in
      let cut : pick xs (i ∷ is) ≡ x ∷ pick xs is = ap (◌++ pick xs is) e in
      subst
        (λ l.
          All (λ (p : ℕ × ℕ). item_at p.1 (pre ++ l) ≡ item_at p.0 xs)
            (zip (i ∷ is) (range_from (length pre) (suc (length is)))))
        (sym cut)
        (
          item_at-middle pre (pick xs is) x ∙ sym e,
          append_snoc
              (λ l n.
                All (λ (p : ℕ × ℕ). item_at p.1 l ≡ item_at p.0 xs)
                  (zip is (range_from n (length is))))
              pre x (pick xs is) (paired xs (pre ++ x ∷ []) is h.1),
        )

  pick-pairs :
      (xs ys : List A) (ps : List (ℕ × ℕ))
      → All (λ (p : ℕ × ℕ). item_at p.1 ys ≡ item_at p.0 xs) ps
      → pick ys (map (λ (p : ℕ × ℕ). p.1) ps) ≡ pick xs (map (λ (p : ℕ × ℕ). p.0) ps)
  pick-pairs xs ys [] h = refl
  pick-pairs xs ys (p ∷ ps) h = rw (h.0, pick-pairs xs ys ps h.1) refl

sum_by-zip :
    (w : ℕ → ℕ) (is js : List ℕ)
    → length is ≡ length js
    → sum_by (λ (p : ℕ × ℕ). w p.0) (zip is js) ≡ sum_by w is
sum_by-zip w [] js h = refl
sum_by-zip w (i ∷ is) [] h = absurd (omega arith)
sum_by-zip w (i ∷ is) (j ∷ js) h = omega (arith, sum_by-zip w is js (omega arith))

-- The keys of the sort are the places in their order.
sorted_keys :
    (n : ℕ) (is : List ℕ)
    → SameItems is (range n)
    → map (λ (p : ℕ × ℕ). p.0) (sort (λ (p : ℕ × ℕ) (q : ℕ × ℕ). leb p.0 q.0) (zip is (range n)))
      ≡ range n
sorted_keys n is h =
    range_from_unique 0 n _
      (λ w.
        sum_by-map w (λ (p : ℕ × ℕ). p.0) _
        ∙ sort-SameItems _ (zip is (range n)) (λ p. w p.0)
        ∙ sum_by-zip w is (range n) (length-SameItems is (range n) h)
        ∙ h w)
      (sort-IsAscending (λ (p : ℕ × ℕ). p.0) (zip is (range n)))

-- Picking by a rearrangement of the places and then in the order that `reorder_data` computes from it
-- gives the elements back.
pub pick-reordered :
    {A : Type 0} (xs : List A) (is : List ℕ)
    → SameItems is (range (length xs))
    → pick (pick xs is) (reordered_indices is (length xs)) ≡ xs
unfolding reordered_indices
pick-reordered xs is h =
    pick-pairs xs (pick xs is) (sort _ (zip is (range (length xs))))
      (All-sort _ _ (zip is (range (length xs))) pairs)
    ∙ ap (pick xs) (sorted_keys (length xs) is h)
    ∙ pick-range_from [] xs
  where
    many : length is ≡ length xs
    many = length-SameItems is (range (length xs)) h ∙ length-range_from 0 (length xs)

    pairs :
        All (λ (p : ℕ × ℕ). item_at p.1 (pick xs is) ≡ item_at p.0 xs) (zip is (range (length xs)))
    pairs = rw many at (
        paired xs [] is (
          All-of_SameItems (λ i. ltb i (length xs)) is (range (length xs)) h
            (below-range_from 0 (length xs) (length xs) (omega arith))))

seconds_below :
    (n : ℕ) (is js : List ℕ)
    → All (λ j. ltb j n ≡ true) js
    → All (λ (p : ℕ × ℕ). ltb p.1 n ≡ true) (zip is js)
seconds_below n [] js h = tt
seconds_below n (i ∷ is) [] h = tt
seconds_below n (i ∷ is) (j ∷ js) h = (h.0, seconds_below n is js h.1)

mapped_below :
    (n : ℕ) (ps : List (ℕ × ℕ))
    → All (λ (p : ℕ × ℕ). ltb p.1 n ≡ true) ps
    → All (λ i. ltb i n ≡ true) (map (λ (p : ℕ × ℕ). p.1) ps)
mapped_below n [] h = tt
mapped_below n (p ∷ ps) h = (h.0, mapped_below n ps h.1)

length-zip : (is js : List ℕ) → length is ≡ length js → length (zip is js) ≡ length js
length-zip [] [] h = refl
length-zip [] (j ∷ js) h = absurd (omega arith)
length-zip (i ∷ is) [] h = absurd (omega arith)
length-zip (i ∷ is) (j ∷ js) h = ap suc (length-zip is js (omega arith))

-- What `reorder_data` computes from a rearrangement are places of the batch, as many as there are.
pub reordered_indices_bounds :
    (n : ℕ) (is : List ℕ)
    → SameItems is (range n)
    → All (λ i. ltb i n ≡ true) (reordered_indices is n) × (length (reordered_indices is n) ≡ n)
unfolding reordered_indices
reordered_indices_bounds n is h = (
  mapped_below n _ (
      All-sort _ (λ (p : ℕ × ℕ). ltb p.1 n ≡ true) (zip is (range n))
        (seconds_below n is (range n) (below-range_from 0 n n (omega arith)))),
  length-map (λ (p : ℕ × ℕ). p.1) _
      ∙ length-SameItems _ (zip is (range n)) (sort-SameItems _ (zip is (range n)))
      ∙ length-zip is (range n) (length-SameItems is (range n) h)
      ∙ length-range_from 0 n,
)
