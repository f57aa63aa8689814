-- ===== src/Packing/FirstFit/Packs.antt =====
-- First fit makes a packing, in whatever order it takes the sequences.
use nemo_rl_submission.Prelude.{
  ℕ, suc, ◌≤◌, ◌<◌, ◌≡◌, refl, sym, true, List, [], ◌∷◌, flatten, arith, Bool-cases, ◌⊎◌, inl, inr,
  leb, ltb, length, All, enumerate_from, sum_by-enumerate, SameItems, All-of_SameItems, ok, raise,
  value_error, leb→le,
}
use nemo_rl_submission.Packing.Packer.{
  load, is_entry, IsPacking, validate_cases, enumerate-is_entry,
}
use nemo_rl_submission.Packing.FirstFit.{
  Bins, place, place_all, pack_first_fit, pack_first_fit_shuffle,
}
use nemo_rl_submission.Packing.FirstFit.Laws.{
  put_all, AreEntries, place_all-put_all, sum_by-put_all, put_all_inv, put-fits, put-filled,
}

module _ (capacity : ℕ) where
  abbrev AreUnder : List (ℕ × ℕ) → Type 0
  AreUnder = All (λ e. leb e.0 capacity ≡ true)

  place_all_cases :
      (es : List (ℕ × ℕ)) (s : Bins) → (place_all capacity es s ≡ raise value_error) ⊎ AreUnder es
  unfolding place_all place
  place_all_cases [] s = inr tt
  place_all_cases ((l, i) ∷ es) s = elim (Bool-cases (ltb capacity l)) [
    | inl over ↦ inl (rw (over, place))
    | inr under ↦ elim (place_all_cases es _) [
      | inl e ↦ inl (rw (under, place) e)
      | inr k ↦ inr (ground arith, k)
    ]
  ]

  AreUnder-enumerate :
      (i : ℕ) (lens : List ℕ) → AreUnder (enumerate_from i lens) → All (λ l. l ≤ capacity) lens
  AreUnder-enumerate i [] k = tt
  AreUnder-enumerate i (l ∷ ls) k = (leb→le l capacity k.0, AreUnder-enumerate (suc i) ls k.1)

module _ (prepare : List (ℕ × ℕ) → List (ℕ × ℕ))
    (rearranges : (es : List (ℕ × ℕ)) → SameItems (prepare es) es) (capacity : ℕ)
    (lens : List ℕ) where
  abbrev pub first_fit_bins : List (List ℕ)
  first_fit_bins = put_all capacity lens (prepare (enumerate_from 0 lens)) []

  pub prepared-AreEntries :
      All (λ l. l ≤ capacity) lens → AreEntries capacity lens (prepare (enumerate_from 0 lens))
  prepared-AreEntries fits =
      All-of_SameItems (is_entry capacity lens) _ _ (rearranges _)
        (enumerate-is_entry capacity [] lens fits)

  pub pack_first_fit_bins :
      All (λ l. l ≤ capacity) lens → pack_first_fit prepare capacity lens ≡ ok first_fit_bins
  unfolding pack_first_fit
  pack_first_fit_bins fits = rw (
      place_all-put_all capacity lens (prepare (enumerate_from 0 lens))
        (record { bins = []; bin_remaining = [] }) (prepared-AreEntries fits) refl)

  pub first_fit_bins-IsPacking :
      All (λ l. l ≤ capacity) lens → IsPacking capacity lens first_fit_bins
  unfolding flatten
  first_fit_bins-IsPacking fits = record {
    same = λ w. omega (
      arith,
      sum_by-put_all capacity lens w (prepare (enumerate_from 0 lens)) []
          (prepared-AreEntries fits),
      rearranges (enumerate_from 0 lens) (λ e. w e.1),
      sum_by-enumerate w 0 lens,
    );
    fits =
        put_all_inv capacity lens (All (λ b. load lens b ≤ capacity))
          (λ l i bins known h. put-fits capacity lens l i known bins h) _ []
          (prepared-AreEntries fits) tt;
    filled =
        put_all_inv capacity lens (All (λ b. 0 < length b))
          (λ l i bins known h. put-filled capacity lens l i known bins) _ []
          (prepared-AreEntries fits) tt;
  }

  pub pack_first_fit-raises :
      ¬ All (λ l. l ≤ capacity) lens → pack_first_fit prepare capacity lens ≡ raise value_error
  unfolding pack_first_fit
  pack_first_fit-raises over =
      elim (place_all_cases capacity (prepare (enumerate_from 0 lens))
        (record { bins = []; bin_remaining = [] })) [
          | inl e ↦ rw e
          | inr k ↦ absurd (
              over (
                AreUnder-enumerate capacity 0 lens (
                  All-of_SameItems (λ e. leb e.0 capacity) _ _
                    (λ w. sym (rearranges (enumerate_from 0 lens) w)) k)))
        ]

  -- The two outcomes, by whether every sequence fits a bin.
  pub pack_first_fit_outcome :
      (All (λ l. l ≤ capacity) lens
        × ((bins : List (List ℕ)) × (pack_first_fit prepare capacity lens ≡ ok bins)
            × IsPacking capacity lens bins))
      ⊎ ((¬ All (λ l. l ≤ capacity) lens)
          × (pack_first_fit prepare capacity lens ≡ raise value_error))
  pack_first_fit_outcome = elim (validate_cases capacity lens) [
    | inl (_, fits) ↦
        inl (fits, (first_fit_bins, pack_first_fit_bins fits, first_fit_bins-IsPacking fits))
    | inr (_, over) ↦ inr (over, pack_first_fit-raises over)
  ]

-- For every shuffle that keeps the items, first fit over the shuffled sequences either succeeds, and
-- then no sequence is longer than a bin and its bins form a packing; or it raises ValueError, and then
-- some sequence is longer than a bin.
pub pack_first_fit_shuffle_outcome :
    (shuffle : List (ℕ × ℕ) → List (ℕ × ℕ))
    (rearranges : (es : List (ℕ × ℕ)) → SameItems (shuffle es) es) (capacity : ℕ) (lens : List ℕ)
    → (All (λ l. l ≤ capacity) lens
        × ((bins : List (List ℕ)) × (pack_first_fit_shuffle shuffle capacity lens ≡ ok bins)
            × IsPacking capacity lens bins))
      ⊎ ((¬ All (λ l. l ≤ capacity) lens)
          × (pack_first_fit_shuffle shuffle capacity lens ≡ raise value_error))
unfolding pack_first_fit_shuffle
pack_first_fit_shuffle_outcome shuffle rearranges capacity lens =
    pack_first_fit_outcome shuffle rearranges capacity lens

-- The outcome of a call that succeeds or raises, where the condition to succeed is known.
pub succeeds : {P Q R : Type 0} → P → (P × Q) ⊎ ((¬ P) × R) → Q
succeeds p (inl (_, q)) = q
succeeds p (inr (n, _)) = absurd (n p)
