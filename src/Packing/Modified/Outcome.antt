-- ===== src/Packing/Modified/Outcome.antt =====
-- Modified first fit decreasing makes a packing.
use nemo_rl_submission.Prelude.{
  ℕ, ◌+◌, ◌-◌, ◌≤◌, ◌≡◌, refl, Bool, true, Bool-cases, inl, inr, List, [], ◌∷◌, ◌++◌, map, leb,
  if◌then◌else◌, length, length-append, All, All-append, All-of_sum_by, sum_by_of_All, sum_by,
  sum_by-append, All-of_SameItems, sort, sort-SameItems, arith,
}
use nemo_rl_submission.Packing.Modified.{
  Item, size_of, Classes, classify_items, largest_first, smallest_first, add_medium, add_pair,
  fill_bin, forward, backward, put_leftover, put_leftovers, pack_items,
}
use nemo_rl_submission.Packing.Modified.Phases.{
  IsBin, KeepsAll, add_medium-Keeps, add_pair-Keeps, fill_bin-Keeps, forward-KeepsAll,
  backward-KeepsAll,
}

classify_items-sum :
    (capacity : ℕ) (w : Item → ℕ) (items : List Item)
    → (let c = classify_items capacity items in
        sum_by w c.large + sum_by w c.medium + sum_by w c.small + sum_by w c.tiny ≡ sum_by w items)
unfolding classify_items
classify_items-sum capacity w [] = refl
classify_items-sum capacity w (x ∷ items) = ground (arith, classify_items-sum capacity w items)

module _ (capacity : ℕ) where
  singles-IsBin :
      (items : List Item)
      → All (λ e. leb e.1 capacity ≡ true) items
      → All (IsBin capacity) (map (λ e. e ∷ []) items)
  singles-IsBin [] h = tt
  singles-IsBin (x ∷ xs) h = ((ground (arith, h.0), omega arith), singles-IsBin xs h.1)

  sum_by-singles :
      (w : Item → ℕ) (items : List Item)
      → sum_by (sum_by w) (map (λ e. e ∷ []) items) ≡ sum_by w items
  sum_by-singles w [] = refl
  sum_by-singles w (x ∷ xs) = omega (arith, sum_by-singles w xs)

  sum_by-put_leftover :
      (w : Item → ℕ) (e : Item) (bins : List (List Item))
      → sum_by (sum_by w) (put_leftover capacity e bins) ≡ w e + sum_by (sum_by w) bins
  unfolding put_leftover
  sum_by-put_leftover w e [] = omega arith
  sum_by-put_leftover w e (b ∷ bins) =
      ground (arith, sum_by-put_leftover w e bins, sum_by-append w b (e ∷ []))

  put_leftover-IsBin :
      (e : Item) (bins : List (List Item))
      → leb e.1 capacity ≡ true
      → All (IsBin capacity) bins
      → All (IsBin capacity) (put_leftover capacity e bins)
  unfolding put_leftover
  put_leftover-IsBin e [] h k = ((ground arith, omega arith), tt)
  put_leftover-IsBin e (b ∷ bins) h k = elim (Bool-cases (leb e.1 (capacity - size_of b))) [
    | inl fit ↦
        rw (fit, put_leftover)
          (
            (
              ground (arith, k.0.0, sum_by-append (λ e. e.1) b (e ∷ [])),
              omega (arith, length-append b (e ∷ [])),
            ),
            k.1,
          )
    | inr full ↦ rw (full, put_leftover) (k.0, put_leftover-IsBin e bins h k.1)
  ]

  sum_by-put_leftovers :
      (w : Item → ℕ) (items : List Item) (bins : List (List Item))
      → sum_by (sum_by w) (put_leftovers capacity items bins)
        ≡ sum_by w items + sum_by (sum_by w) bins
  unfolding put_leftovers
  sum_by-put_leftovers w [] bins = omega arith
  sum_by-put_leftovers w (e ∷ items) bins = omega (
    arith,
    sum_by-put_leftovers w items (put_leftover capacity e bins),
    sum_by-put_leftover w e bins,
  )

  put_leftovers-IsBin :
      (items : List Item) (bins : List (List Item))
      → All (λ e. leb e.1 capacity ≡ true) items
      → All (IsBin capacity) bins
      → All (IsBin capacity) (put_leftovers capacity items bins)
  unfolding put_leftovers
  put_leftovers-IsBin [] bins h k = k
  put_leftovers-IsBin (e ∷ items) bins h k =
      put_leftovers-IsBin items _ h.1 (put_leftover-IsBin e bins h.0 k)

  -- The five phases over any items that fit a bin each.
  pub record Packed (items : List Item) (bins : List (List Item)) : Type 0 where
    pub same : (w : Item → ℕ) → sum_by (sum_by w) bins ≡ sum_by w items
    pub good : All (IsBin capacity) bins

  pub pack_items-Packed :
      (items : List Item)
      → All (λ e. leb e.1 capacity ≡ true) items
      → Packed items (pack_items capacity items)
  unfolding pack_items
  pack_items-Packed items h = record {
    same = λ w. omega (
      arith,
      sum_by-append (sum_by w) phase4.0 (put_leftovers capacity (sort largest_first phase4.1) []),
      sum_by-put_leftovers w (sort largest_first phase4.1) [],
      sort-SameItems largest_first phase4.1 w,
      kept w,
    );
    good =
        All-append (IsBin capacity) phase4.0 _
          (k4.good (
            k3.good (
              k2.good (
                singles-IsBin (sort largest_first c.large) (
                  All-of_SameItems small_enough _ _ (sort-SameItems largest_first c.large)
                    (fit c.large (λ w. omega (arith, classify_items-sum capacity w items))))))))
          (put_leftovers-IsBin (sort largest_first phase4.1) []
            (All-of_SameItems small_enough _ _ (sort-SameItems largest_first phase4.1)
              (fit phase4.1 (λ w. omega (arith, kept w))))
            tt);
  }
    where
      c : Classes
      c = classify_items capacity items

      small_enough : Item → Bool
      small_enough e = leb e.1 capacity

      bins1 : List (List Item)
      bins1 = map (λ e. e ∷ []) (sort largest_first c.large)

      phase2 : List (List Item) × List Item
      phase2 = forward (add_medium capacity) bins1 (sort largest_first c.medium)

      k2 : KeepsAll capacity bins1 (sort largest_first c.medium) phase2
      k2 = forward-KeepsAll capacity (add_medium capacity) (add_medium-Keeps capacity) _ _

      phase3 : List (List Item) × List Item
      phase3 = backward (add_pair capacity) phase2.0 (sort smallest_first c.small)

      k3 : KeepsAll capacity phase2.0 (sort smallest_first c.small) phase3
      k3 = backward-KeepsAll capacity (add_pair capacity) (add_pair-Keeps capacity) _ _

      rest : List Item
      rest = sort largest_first (phase2.1 ++ (phase3.1 ++ sort smallest_first c.tiny))

      phase4 : List (List Item) × List Item
      phase4 = forward (λ b l. fill_bin (length l) capacity b l) phase3.0 rest

      k4 : KeepsAll capacity phase3.0 rest phase4
      k4 = forward-KeepsAll capacity _ (λ b l. fill_bin-Keeps capacity (length l) b l) _ _

      kept : (w : Item → ℕ) → sum_by (sum_by w) phase4.0 + sum_by w phase4.1 ≡ sum_by w items
      kept w = omega (
        arith,
        k4.same w,
        k3.same w,
        k2.same w,
        sum_by-singles w (sort largest_first c.large),
        sort-SameItems largest_first c.large w,
        sort-SameItems largest_first c.medium w,
        sort-SameItems smallest_first c.small w,
        sort-SameItems smallest_first c.tiny w,
        sort-SameItems largest_first (phase2.1 ++ (phase3.1 ++ sort smallest_first c.tiny)) w,
        sum_by-append w phase2.1 (phase3.1 ++ sort smallest_first c.tiny),
        sum_by-append w phase3.1 (sort smallest_first c.tiny),
        classify_items-sum capacity w items,
      )

      fit :
          (some_items : List Item)
          → ((w : Item → ℕ) → sum_by w some_items ≤ sum_by w items)
          → All (λ e. leb e.1 capacity ≡ true) some_items
      fit some_items less = All-of_sum_by small_enough some_items (
          omega (
            arith,
            less (λ e. if small_enough e then 0 else 1),
            sum_by_of_All small_enough items h,
          ))
