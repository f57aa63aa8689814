-- ===== src/Packing/FirstFit/Approximation.antt =====
-- First fit uses at most twice as many bins as any packing needs.
use native.Mathlib.Nat.{mul-le-mul_right}
use native.Mathlib.Decide.{dec_lt}
use nemo_rl_submission.Prelude.{
  ℕ, suc, ◌+◌, ◌-◌, ◌*◌, ◌≤◌, ◌<◌, ◌≡◌, sym, ◌∙◌, List, [], ◌∷◌, arith, Bool-cases, inl, inr, leb,
  length, get_or, All, range, sum_by, sum_by-append, sum_by-flatten, sum_by-le_mul, sum_by-length,
  SameItems, ok,
}
use nemo_rl_submission.Packing.Packer.{load, IsPacking}
use nemo_rl_submission.Packing.FirstFit.{pack_first_fit}
use nemo_rl_submission.Packing.FirstFit.Laws.{put, put_all_inv}
use nemo_rl_submission.Packing.FirstFit.Packs.{
  first_fit_bins, prepared-AreEntries, pack_first_fit_bins, first_fit_bins-IsPacking,
}

module _ (capacity : ℕ) (lens : List ℕ) where
  -- Any two bins together are over the capacity.
  abbrev pub AreCrowded : List (List ℕ) → Type 0
  AreCrowded [] = Unit
  AreCrowded (b ∷ bins) = All (λ c. capacity < load lens b + load lens c) bins × AreCrowded bins

  module _ (l i : ℕ) (known : get_or lens i 0 ≡ l) where
    -- A bin that is crowded with `bins`, and had no room for the sequence, is crowded with the
    -- bins after it is put.
    put-crowds :
        (n : ℕ) (bins : List (List ℕ))
        → capacity < n + l
        → All (λ c. capacity < n + load lens c) bins
        → All (λ c. capacity < n + load lens c) (put capacity lens (l, i) bins)
    unfolding put
    put-crowds n [] h k = (omega (arith, known), tt)
    put-crowds n (c ∷ bins) h k = elim (Bool-cases (leb l (capacity - load lens c))) [
      | inl fit ↦
          rw (fit, put) (omega (arith, k.0, sum_by-append (λ i. get_or lens i 0) c (i ∷ [])), k.1)
      | inr full ↦ rw (full, put) (k.0, put-crowds n bins h k.1)
    ]

    crowds_more :
        (m n : ℕ) (bins : List (List ℕ))
        → m ≤ n
        → All (λ c. capacity < m + load lens c) bins
        → All (λ c. capacity < n + load lens c) bins
    crowds_more m n [] h k = tt
    crowds_more m n (c ∷ bins) h k = (omega (arith, k.0), crowds_more m n bins h k.1)

    put-AreCrowded :
        (bins : List (List ℕ)) → AreCrowded bins → AreCrowded (put capacity lens (l, i) bins)
    unfolding put
    put-AreCrowded [] k = (tt, tt)
    put-AreCrowded (b ∷ bins) k = elim (Bool-cases (leb l (capacity - load lens b))) [
      | inl fit ↦
          rw (fit, put)
            (
              crowds_more (load lens b) _ bins
                  (omega (arith, sum_by-append (λ i. get_or lens i 0) b (i ∷ []))) k.0,
              k.1,
            )
      | inr full ↦
          rw (full, put) (put-crowds (load lens b) bins (ground arith) k.0, put-AreCrowded bins k.1)
    ]

  -- Crowded bins are half full on average, but for one.
  AreCrowded-half :
      (b : List ℕ) (bins : List (List ℕ))
      → AreCrowded (b ∷ bins)
      → length bins * (capacity + 1) ≤ 2 * sum_by (load lens) (b ∷ bins)
  AreCrowded-half b [] k = omega arith
  AreCrowded-half b (c ∷ []) k = omega (arith, k.0.0)
  AreCrowded-half b (c ∷ d ∷ bins) k = omega (arith, k.0.0, AreCrowded-half d bins k.1.1)

  total_load :
      (bins : List (List ℕ))
      → IsPacking capacity lens bins
      → sum_by (load lens) bins ≡ load lens (range (length lens))
  total_load bins p = sym (sum_by-flatten (λ i. get_or lens i 0) bins) ∙ p.same _

  -- The bins of a packing hold as many indices as there are sequences.
  total_length :
      (bins : List (List ℕ))
      → IsPacking capacity lens bins
      → sum_by (sum_by (λ _. 1)) bins ≡ sum_by (λ _. 1) (range (length lens))
  total_length bins p = sym (sum_by-flatten (λ _. 1) bins) ∙ p.same _

  half_bound : (n m c : ℕ) → n * (c + 1) ≤ 2 * (m * c) → 0 < m → n < 2 * m
  half_bound n m c h k = elim (dec_lt n (2 * m)) [
    | yes p ↦ p
    | no p ↦
        let many : 2 * m ≤ n = omega arith in absurd (omega (arith, mul-le-mul_right (c + 1) many))
  ]

  AreCrowded-le_double :
      (bins other : List (List ℕ))
      → AreCrowded bins
      → IsPacking capacity lens bins
      → IsPacking capacity lens other
      → length bins ≤ 2 * length other
  AreCrowded-le_double [] other k p q = omega arith
  AreCrowded-le_double (b ∷ bins) [] k p q =
      absurd
        (omega (arith, total_length (b ∷ bins) p, total_length [] q, p.filled.0, sum_by-length b))
  AreCrowded-le_double (b ∷ bins) (o ∷ other) k p q =
      half_bound (length bins) (suc (length other)) capacity
        (omega (
          arith,
          AreCrowded-half b bins k,
          total_load (b ∷ bins) p,
          total_load (o ∷ other) q,
          sum_by-le_mul (load lens) capacity (o ∷ other) q.fits,
        ))
        (omega arith)

-- When no sequence is longer than a bin, first fit, in whatever order it takes the sequences, uses at most
-- twice as many bins as any other packing of the same sequences into bins of the same capacity.
pub pack_first_fit_two_approx :
    (prepare : List (ℕ × ℕ) → List (ℕ × ℕ))
    (rearranges : (es : List (ℕ × ℕ)) → SameItems (prepare es) es) (capacity : ℕ) (lens : List ℕ)
    (other : List (List ℕ))
    → All (λ l. l ≤ capacity) lens
    → IsPacking capacity lens other
    → (bins : List (List ℕ)) × (pack_first_fit prepare capacity lens ≡ ok bins)
      × (length bins ≤ 2 * length other)
pack_first_fit_two_approx prepare rearranges capacity lens other fits packs = (
  first_fit_bins prepare rearranges capacity lens,
  pack_first_fit_bins prepare rearranges capacity lens fits,
  AreCrowded-le_double capacity lens _ other
      (put_all_inv capacity lens (AreCrowded capacity lens)
        (λ l i bins known _. put-AreCrowded capacity lens l i known bins) _ []
        (prepared-AreEntries prepare rearranges capacity lens fits) tt)
      (first_fit_bins-IsPacking prepare rearranges capacity lens fits) packs,
)
