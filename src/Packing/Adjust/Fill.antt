-- ===== src/Packing/Adjust/Fill.antt =====
-- The loop that fills the new bins never runs out of sequences to move.
use mathlib.Core.Path.{subst}
use nemo_rl_submission.Prelude.{
  get_or-append_left, ℕ, zero, suc, ◌+◌, ◌≤◌, ◌<◌, ◌≡◌, refl, ◌∙◌, some, List, [], ◌∷◌, ◌++◌, arith,
  Bool-cases, inl, inr, ltb, length, get_or, replicate, append-nil, Result, ok,
}
use nemo_rl_submission.Packing.Packer.{load, IsPacking}
use nemo_rl_submission.Packing.Adjust.{take_source, fill_new}
use nemo_rl_submission.Packing.Adjust.Moves.{
  sum_by-popped, length-pop_rest, split_off, move_last-split_off, surplus, AreSources, uses,
  surplus-split_off, sum_by-split_off, length-split_off, split_off-All,
}

-- The loop over the sources finds a bin to split, while there is a surplus.
record Found (front tail : List (List ℕ)) (sources : List (ℕ × ℕ)) : Type 0 where
  i : ℕ
  left : List (ℕ × ℕ)
  inside : i < length front
  two : 1 < length (get_or front i [])
  taken :
      take_source (length front) (front ++ [] ∷ tail) sources
      ≡ some (split_off i front ++ tail, left)
  are_sources : AreSources front left
  same_surplus : surplus front left ≡ surplus front sources
  no_more : (j : ℕ) → uses j left ≤ uses j sources

take_source_lem :
    (front tail : List (List ℕ)) (sources : List (ℕ × ℕ))
    → AreSources front sources
    → 0 < surplus front sources
    → Found front tail sources
unfolding take_source
take_source_lem front tail [] k h = absurd (omega arith)
take_source_lem front tail ((size, i) ∷ sources) k h =
    elim (Bool-cases (ltb 1 (length (get_or front i [])))) [
      | inl two ↦ record {
        i = i;
        left = (size, i) ∷ sources;
        inside = k.0;
        two = ground arith;
        taken = rw (
          get_or-append_left front ([] ∷ tail) i [] k.0,
          two,
          move_last-split_off i front tail k.0,
        );
        are_sources = k;
        same_surplus = refl;
        no_more = λ j. omega arith;
      }
      | inr one ↦
          let f = take_source_lem front tail sources k.1 (ground arith) in
          record {
            i = f.i;
            left = f.left;
            inside = f.inside;
            two = f.two;
            taken = rw (get_or-append_left front ([] ∷ tail) i [] k.0, one) f.taken;
            are_sources = f.are_sources;
            same_surplus = ground (arith, f.same_surplus);
            no_more = λ j. omega (arith, f.no_more j);
          }
    ]

AreSources-longer :
    (front front' : List (List ℕ)) (sources : List (ℕ × ℕ))
    → length front ≤ length front'
    → AreSources front sources
    → AreSources front' sources
AreSources-longer front front' [] h k = tt
AreSources-longer front front' (e ∷ sources) h k =
    (omega (arith, k.0), AreSources-longer front front' sources h k.1)

fill_new_zero :
    (new : ℕ) (bins : List (List ℕ)) (sources : List (ℕ × ℕ))
    → fill_new 0 new (bins ++ []) sources ≡ ok bins
unfolding fill_new
fill_new_zero new bins sources = rw (append-nil bins)

fill_new_step :
    (n new : ℕ) (bins bins' : List (List ℕ)) (sources left : List (ℕ × ℕ))
    {r : Result (List (List ℕ))}
    → take_source new bins sources ≡ some (bins', left)
    → (new' : ℕ) → new' ≡ suc new
    → fill_new n new' bins' left ≡ r
    → fill_new (suc n) new bins sources ≡ r
unfolding fill_new
fill_new_step n new bins bins' sources left {r} e new' same h =
    rw (e, fill_new) (subst (λ k. fill_new n k bins' left ≡ r) same h)

module _ (capacity : ℕ) (lens : List ℕ) where
  split_off-IsPacking :
      (i : ℕ) (front : List (List ℕ))
      → i < length front
      → 1 < length (get_or front i [])
      → IsPacking capacity lens front
      → IsPacking capacity lens (split_off i front)
  split_off-IsPacking i front h two p = record {
    same = λ w. sum_by-split_off i front h two w ∙ p.same w;
    fits =
        split_off-All i front h two (λ b. load lens b ≤ capacity)
          (λ b long fit. (
            omega (arith, sum_by-popped (λ i. get_or lens i 0) b (omega arith)),
            omega (arith, sum_by-popped (λ i. get_or lens i 0) b (omega arith)),
          ))
          p.fits;
    filled =
        split_off-All i front h two (λ b. 0 < length b)
          (λ b long fit. (omega (arith, length-pop_rest b (omega arith)), omega arith)) p.filled;
  }

  -- The new bins are all filled, as long as there is a surplus for each.
  pub fill_new_lem :
      (n : ℕ) (front : List (List ℕ)) (sources : List (ℕ × ℕ))
      → AreSources front sources
      → ((j : ℕ) → uses j sources ≤ 1)
      → n ≤ surplus front sources
      → IsPacking capacity lens front
      → (bins : List (List ℕ)) × (fill_new n (length front) (front ++ replicate n []) sources
          ≡ ok bins)
        × IsPacking capacity lens bins
        × (length bins ≡ length front + n)
  fill_new_lem zero front sources k once h p =
      (front, fill_new_zero (length front) front sources, p, omega arith)
  fill_new_lem (suc n) front sources k once h p =
      let f = take_source_lem front (replicate n []) sources k (omega arith) in
      let front' = split_off f.i front in
      let longer = length-split_off f.i front f.inside f.two in
      let (bins, filled, packs, count) =
        fill_new_lem n front' f.left
          (AreSources-longer front front' f.left (omega (arith, longer)) f.are_sources)
          (λ j. omega (arith, f.no_more j, once j))
          (omega (
            arith,
            surplus-split_off f.i front f.inside f.two f.left f.are_sources,
            f.same_surplus,
            f.no_more f.i,
            once f.i,
          ))
          (split_off-IsPacking f.i front f.inside f.two p) in
      (
        bins,
        fill_new_step n (length front) _ _ sources f.left f.taken (length front') longer filled,
        packs,
        omega (arith, longer, count),
      )
