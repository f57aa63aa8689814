-- ===== src/Batching/Batch/Reorder.antt =====
-- Selecting a rearrangement of a batch and reordering it back.
use mathlib.Core.Path.{subst}
use nemo_rl_submission.Prelude.{
  ℕ, ◌<◌, ◌≡◌, refl, sym, ◌∙◌, true, false, not, List, [], ◌∷◌, map, arith, ltb, leb, ◌==◌, length,
  pick, any, All, All-map, range, SameItems, All-of_SameItems, length-range_from, Bool-cases, inl,
  inr, Result, ok, each, ◌>>=◌,
}
use nemo_rl_submission.Prelude.Text.{Text}
use nemo_rl_submission.Batching.Batch.{
  Column, BatchedDataDict, new_dict, on_elements, batch_size_of, select_column, select_indices,
  reordered_indices, reorder_data,
}
use nemo_rl_submission.Batching.Batch.Places.{
  length-SameItems, below-range_from, length-pick, pick-reordered, reordered_indices_bounds,
}

pub each-ok {ℓ κ} :
    {A : Type ℓ} {B : Type κ} (call : A → Result B) (f : A → B) (xs : List A)
    → All (λ x. call x ≡ ok (f x)) xs
    → each call xs ≡ ok (map f xs)
each-ok call f [] h = refl
each-ok call f (x ∷ xs) h = rw (h.0, each-ok call f xs h.1) refl

any-leb : (n : ℕ) (is : List ℕ) → All (λ i. ltb i n ≡ true) is → any (λ i. leb n i) is ≡ false
any-leb n [] h = refl
any-leb n (i ∷ is) h = ground (arith, h.0, any-leb n is h.1)

module _ {E : Type 0} where
  -- All columns have as many elements.
  abbrev pub AreLong : ℕ → List (Text × Column E) → Type 0
  AreLong n columns = All (λ (e : Text × Column E). length e.1.elements ≡ n) columns

  pub select_column-ok :
      (is : List ℕ) (e : Text × Column E)
      → All (λ i. ltb i (length e.1.elements) ≡ true) is
      → 0 < length is
      → select_column is e ≡ ok (on_elements (λ xs. pick xs is) e)
  unfolding select_column
  select_column-ok is (key, c) h pos = ground (arith, any-leb (length c.elements) is h)

  pub select_columns-ok :
      (n : ℕ) (is : List ℕ) (columns : List (Text × Column E))
      → AreLong n columns
      → All (λ i. ltb i n ≡ true) is
      → 0 < length is
      → each (select_column is) columns ≡ ok (map (on_elements (λ xs. pick xs is)) columns)
  select_columns-ok n is columns long h pos =
      each-ok (select_column is) (on_elements (λ xs. pick xs is)) columns (
        All-map
          (λ (e : Text × Column E) l.
            select_column-ok is e (subst (λ m. All (λ i. ltb i m ≡ true) is) (sym l) h) pos)
          columns long)

  same_lengths :
      (n : ℕ) (columns : List (Text × Column E))
      → any (λ (e : Text × Column E). not (length e.1.elements == n)) columns ≡ false
      → AreLong n columns
  same_lengths n [] h = tt
  same_lengths n ((key, c) ∷ columns) h = (ground arith, same_lengths n columns (ground arith))

  same_lengths_back :
      (n : ℕ) (columns : List (Text × Column E))
      → AreLong n columns
      → any (λ (e : Text × Column E). not (length e.1.elements == n)) columns ≡ false
  same_lengths_back n [] h = refl
  same_lengths_back n ((key, c) ∷ columns) h = ground (arith, h.0, same_lengths_back n columns h.1)

  pub AreLong-of_batch_size :
      (n : ℕ) (b : BatchedDataDict E) → batch_size_of b ≡ ok n → AreLong n b.columns
  unfolding batch_size_of
  AreLong-of_batch_size n b h = look b.columns h
    where
      look :
          (columns : List (Text × Column E))
          → batch_size_of (new_dict columns) ≡ ok n
          → AreLong n columns
      look [] h = tt
      look ((key, c) ∷ columns) h =
          elim (Bool-cases (
            any (λ (e : Text × Column E). not (length e.1.elements == length c.elements))
              columns)) [
                | inl differ ↦ absurd (ground (arith, h, differ))
                | inr agree ↦
                    let same : length c.elements ≡ n = ground (arith, h, agree) in
                    (
                      same,
                      subst (λ m. AreLong m columns) same
                          (same_lengths (length c.elements) columns agree),
                    )
              ]

  pub batch_size_of-ok :
      (n : ℕ) (e : Text × Column E) (columns : List (Text × Column E))
      → AreLong n (e ∷ columns)
      → batch_size_of (new_dict (e ∷ columns)) ≡ ok n
  unfolding batch_size_of
  batch_size_of-ok n (key, c) columns h = rw (h.0, same_lengths_back n columns h.1) refl

  no_columns : (b : BatchedDataDict E) (n : ℕ) → b.columns ≡ [] → batch_size_of b ≡ ok n → ⊥
  unfolding batch_size_of
  no_columns b n h k = ground (arith, h, k)

  picked-AreLong :
      (n : ℕ) (is : List ℕ) (columns : List (Text × Column E))
      → AreLong n columns
      → All (λ i. ltb i n ≡ true) is
      → AreLong (length is) (map (on_elements (λ xs. pick xs is)) columns)
  picked-AreLong n is [] long h = tt
  picked-AreLong n is ((key, c) ∷ columns) long h = (
    length-pick c.elements is (subst (λ m. All (λ i. ltb i m ≡ true) is) (sym long.0) h),
    picked-AreLong n is columns long.1 h,
  )

  restored :
      (n : ℕ) (is : List ℕ) (columns : List (Text × Column E))
      → AreLong n columns
      → SameItems is (range n)
      → map
          (on_elements (λ xs. pick xs (reordered_indices is n)))
          (map (on_elements (λ xs. pick xs is)) columns)
        ≡ columns
  restored n is [] long h = refl
  restored n is ((key, c) ∷ columns) long h =
      let back : pick (pick c.elements is) (reordered_indices is n) ≡ c.elements =
        subst (λ m. pick (pick c.elements is) (reordered_indices is m) ≡ c.elements) long.0
          (pick-reordered c.elements is (subst (λ m. SameItems is (range m)) (sym long.0) h)) in
      rw (back, restored n is columns long.1 h) refl

  -- For a batch that has a batch size, and a rearrangement of its places that is not empty: selecting
  -- the elements at these places and reordering by the same list gives every column back.
  pub reorder_data-select_indices :
      (b : BatchedDataDict E) (is : List ℕ) (n : ℕ)
      → batch_size_of b ≡ ok n
      → 0 < n
      → SameItems is (range n)
      → (select_indices is b >>= reorder_data is) ≡ ok (new_dict b.columns)
  unfolding select_indices reorder_data
  reorder_data-select_indices b is n sized pos h = go b.columns sized
    where
      many : length is ≡ n
      many = length-SameItems is (range n) h ∙ length-range_from 0 n

      below : All (λ i. ltb i n ≡ true) is
      below = All-of_SameItems (λ i. ltb i n) is (range n) h (below-range_from 0 n n (omega arith))

      go :
          (columns : List (Text × Column E))
          → batch_size_of (new_dict columns) ≡ ok n
          → (select_indices is (new_dict columns) >>= reorder_data is) ≡ ok (new_dict columns)
      go [] k = absurd (no_columns (new_dict []) n refl k)
      go (e ∷ columns) k =
          let long = AreLong-of_batch_size n (new_dict (e ∷ columns)) k in
          let picked : AreLong n (map (on_elements (λ xs. pick xs is)) (e ∷ columns)) =
            subst (λ m. AreLong m (map (on_elements (λ xs. pick xs is)) (e ∷ columns))) many
              (picked-AreLong n is (e ∷ columns) long below) in
          let (low, full) = reordered_indices_bounds n is h in
          rw
            (
              select_columns-ok n is (e ∷ columns) long below (omega (arith, many)),
              batch_size_of-ok n (on_elements (λ xs. pick xs is) e)
                  (map (on_elements (λ xs. pick xs is)) columns) picked,
              select_columns-ok n (reordered_indices is n)
                  (map (on_elements (λ xs. pick xs is)) (e ∷ columns)) picked low
                  (omega (arith, full)),
              restored n is (e ∷ columns) long h,
            )
            refl
