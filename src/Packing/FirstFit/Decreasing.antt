-- ===== src/Packing/FirstFit/Decreasing.antt =====
-- First fit decreasing fills each bin from its longest sequence down.
use nemo_rl_submission.Prelude.{
  ℕ, ◌-◌, ◌≤◌, ◌≡◌, true, List, [], ◌∷◌, ◌++◌, map, Bool-cases, ◌⊎◌, inl, inr, leb, get_or, All,
  enumerate_from, ok, raise, value_error, sort, pair_ge, sort-SameItems, IsDecreasing,
  sort-IsDecreasing, map-snoc, All-append,
}
use nemo_rl_submission.Packing.Packer.{load, IsPacking, validate_cases}
use nemo_rl_submission.Packing.FirstFit.{pack_first_fit_decreasing}
use nemo_rl_submission.Packing.FirstFit.Laws.{put, put_all, AreEntries, is_entry-known}
use nemo_rl_submission.Packing.FirstFit.Packs.{
  first_fit_bins, prepared-AreEntries, pack_first_fit_bins, first_fit_bins-IsPacking,
  pack_first_fit-raises,
}

-- A pair behind those that all stand before it.
snoc-IsDecreasing :
    (xs : List (ℕ × ℕ)) (e : ℕ × ℕ)
    → IsDecreasing xs
    → All (λ x. pair_ge x e ≡ true) xs
    → IsDecreasing (xs ++ e ∷ [])
snoc-IsDecreasing [] e h k = (tt, tt)
snoc-IsDecreasing (x ∷ xs) e h k =
    (All-append (λ y. pair_ge x y ≡ true) xs (e ∷ []) h.0 (k.0, tt), snoc-IsDecreasing xs e h.1 k.1)

-- The sequences of a bin, with their lengths.
abbrev pub sequences : List ℕ → List ℕ → List (ℕ × ℕ)
sequences lens bin = map (λ i. (get_or lens i 0, i)) bin

module _ (capacity : ℕ) (lens : List ℕ) where
  abbrev AreDecreasing : List (List ℕ) → Type 0
  AreDecreasing bins = All (λ b. IsDecreasing (sequences lens b)) bins

  -- All that the bins hold stands before the pair.
  abbrev AreBefore : List (List ℕ) → ℕ × ℕ → Type 0
  AreBefore bins e = All (λ b. All (λ x. pair_ge x e ≡ true) (sequences lens b)) bins

  put-AreDecreasing :
      (l i : ℕ) (bins : List (List ℕ))
      → get_or lens i 0 ≡ l
      → AreDecreasing bins
      → AreBefore bins (l, i)
      → AreDecreasing (put capacity lens (l, i) bins)
  unfolding put
  put-AreDecreasing l i [] known h k = ((tt, tt), tt)
  put-AreDecreasing l i (b ∷ bins) known h k = elim (Bool-cases (leb l (capacity - load lens b))) [
    | inl fit ↦
        let grown : IsDecreasing (sequences lens (b ++ i ∷ [])) =
          rw (map-snoc {B = ℕ × ℕ} (λ j. (get_or lens j 0, j)) b i, known)
            (snoc-IsDecreasing (sequences lens b) (l, i) h.0 k.0) in
        rw fit (grown, h.1)
    | inr full ↦ rw full (h.0, put-AreDecreasing l i bins known h.1 k.1)
  ]

  -- What stands before a pair that the sequence put into a bin stands before too.
  put-AreBefore :
      (l i : ℕ) (bins : List (List ℕ)) (e : ℕ × ℕ)
      → get_or lens i 0 ≡ l
      → pair_ge (l, i) e ≡ true
      → AreBefore bins e
      → AreBefore (put capacity lens (l, i) bins) e
  unfolding put
  put-AreBefore l i [] e known h k = ((rw known h, tt), tt)
  put-AreBefore l i (b ∷ bins) e known h k = elim (Bool-cases (leb l (capacity - load lens b))) [
    | inl fit ↦
        let grown : All (λ x. pair_ge x e ≡ true) (sequences lens (b ++ i ∷ [])) =
          rw (map-snoc {B = ℕ × ℕ} (λ j. (get_or lens j 0, j)) b i, known)
            (All-append (λ x. pair_ge x e ≡ true) (sequences lens b) ((l, i) ∷ []) k.0 (h, tt)) in
        rw fit (grown, k.1)
    | inr full ↦ rw full (k.0, put-AreBefore l i bins e known h k.1)
  ]

  all-AreBefore :
      (l i : ℕ) (bins : List (List ℕ)) (es : List (ℕ × ℕ))
      → get_or lens i 0 ≡ l
      → All (λ e. pair_ge (l, i) e ≡ true) es
      → All (AreBefore bins) es
      → All (AreBefore (put capacity lens (l, i) bins)) es
  all-AreBefore l i bins [] known h k = tt
  all-AreBefore l i bins (e ∷ es) known h k =
      (put-AreBefore l i bins e known h.0 k.0, all-AreBefore l i bins es known h.1 k.1)

  put_all-AreDecreasing :
      (es : List (ℕ × ℕ)) (bins : List (List ℕ))
      → AreEntries capacity lens es
      → IsDecreasing es
      → AreDecreasing bins
      → All (AreBefore bins) es
      → AreDecreasing (put_all capacity lens es bins)
  unfolding put_all
  put_all-AreDecreasing [] bins entries d h k = h
  put_all-AreDecreasing ((l, i) ∷ es) bins entries d h k =
      let (known, fit) = is_entry-known capacity lens l i entries.0 in
      put_all-AreDecreasing es (put capacity lens (l, i) bins) entries.1 d.1
        (put-AreDecreasing l i bins known h k.0) (all-AreBefore l i bins es known d.0 k.1)

none_before :
    (es : List (ℕ × ℕ)) (capacity : ℕ) (lens : List ℕ) → All (AreBefore capacity lens []) es
none_before [] capacity lens = tt
none_before (e ∷ es) capacity lens = (tt, none_before es capacity lens)

-- First fit decreasing either succeeds, and then no sequence is longer than a bin, its bins form a
-- packing, and in each bin the sequences stand from the longest to the shortest, among equals the larger
-- index first; or it raises ValueError, and then some sequence is longer than a bin.
pub pack_first_fit_decreasing_outcome :
    (capacity : ℕ) (lens : List ℕ)
    → (All (λ l. l ≤ capacity) lens
        × ((bins : List (List ℕ)) × (pack_first_fit_decreasing capacity lens ≡ ok bins)
            × IsPacking capacity lens bins
            × All (λ b. IsDecreasing (sequences lens b)) bins))
      ⊎ ((¬ All (λ l. l ≤ capacity) lens)
          × (pack_first_fit_decreasing capacity lens ≡ raise value_error))
unfolding pack_first_fit_decreasing
pack_first_fit_decreasing_outcome capacity lens =
    let rearranges = sort-SameItems pair_ge in
    elim (validate_cases capacity lens) [
      | inl (_, fits) ↦ inl (
        fits,
        (
          first_fit_bins (sort pair_ge) rearranges capacity lens,
          pack_first_fit_bins (sort pair_ge) rearranges capacity lens fits,
          first_fit_bins-IsPacking (sort pair_ge) rearranges capacity lens fits,
          put_all-AreDecreasing capacity lens (sort pair_ge (enumerate_from 0 lens)) []
              (prepared-AreEntries (sort pair_ge) rearranges capacity lens fits)
              (sort-IsDecreasing (enumerate_from 0 lens)) tt
              (none_before (sort pair_ge (enumerate_from 0 lens)) capacity lens),
        ),
      )
      | inr (_, over) ↦
          inr (over, pack_first_fit-raises (sort pair_ge) rearranges capacity lens over)
    ]
