-- ===== src/Packing/Modified/Packs.antt =====
-- Modified first fit decreasing over a list of lengths.
use nemo_rl_submission.Prelude.{
  ℕ, suc, ◌≤◌, ◌<◌, ◌≡◌, refl, ◌∙◌, Bool, true, false, List, [], ◌∷◌, ◌++◌, map, leb, ◌==◌, ◌&&◌,
  if◌then◌else◌, length, length-map, get_or, any, All, range_from, All-of_sum_by, sum_by_of_All,
  sum_by, sum_by-flatten, arith, ok, get_or-append_middle, append_snoc,
}
use nemo_rl_submission.Packing.Packer.{load, IsPacking, validate_cases}
use nemo_rl_submission.Packing.Modified.{Item, size_of, items_from, pack_items, pack_modified}
use nemo_rl_submission.Packing.Modified.Outcome.{pack_items-Packed}
use nemo_rl_submission.Packing.Modified.Phases.{IsBin}

abbrev indices : List Item → List ℕ
indices b = map (λ e. e.0) b

sum_by-indices :
    (w : ℕ → ℕ) (bins : List (List Item))
    → sum_by (sum_by w) (map indices bins) ≡ sum_by (sum_by (λ e. w e.0)) bins
sum_by-indices w [] = refl
sum_by-indices w (b ∷ bins) = omega (arith, inner b, sum_by-indices w bins)
  where
    inner : (b : List Item) → sum_by w (indices b) ≡ sum_by (λ e. w e.0) b
    inner [] = refl
    inner (e ∷ b) = omega (arith, inner b)

sum_by-items_from :
    (w : ℕ → ℕ) (i : ℕ) (ls : List ℕ)
    → sum_by (λ e. w e.0) (items_from i ls) ≡ sum_by w (range_from i (length ls))
sum_by-items_from w i [] = refl
sum_by-items_from w i (l ∷ ls) = omega (arith, sum_by-items_from w (suc i) ls)

module _ (capacity : ℕ) (lens : List ℕ) where
  -- An item of the sequences, that fits a bin.
  is_item : Item → Bool
  is_item e = get_or lens e.0 0 == e.1 && leb e.1 capacity

  load-indices : (b : List Item) → All (λ e. is_item e ≡ true) b → load lens (indices b) ≡ size_of b
  unfolding is_item
  load-indices [] h = refl
  load-indices (e ∷ b) h = ground (arith, h.0, load-indices b h.1)

  All-of_sums :
      (bins : List (List Item))
      → sum_by (sum_by (λ e. if is_item e then 0 else 1)) bins ≡ 0
      → All (λ b. All (λ e. is_item e ≡ true) b) bins
  All-of_sums [] h = tt
  All-of_sums (b ∷ bins) h = (All-of_sum_by is_item b (omega arith), All-of_sums bins (omega arith))

  indices-fits :
      (bins : List (List Item))
      → All (λ b. All (λ e. is_item e ≡ true) b) bins
      → All (IsBin capacity) bins
      → All (λ b. load lens b ≤ capacity) (map indices bins)
        × All (λ b. 0 < length b) (map indices bins)
  indices-fits [] h k = (tt, tt)
  indices-fits (b ∷ bins) h k =
      let (fits, filled) = indices-fits bins h.1 k.1 in
      (
        (omega (arith, load-indices b h.0, k.0.0), fits),
        (omega (arith, length-map {0, 0} (λ e. e.0) b, k.0.1), filled),
      )

is_item-items_from :
    (capacity : ℕ) (pre ls : List ℕ)
    → All (λ l. l ≤ capacity) ls
    → All (λ e. is_item capacity (pre ++ ls) e ≡ true) (items_from (length pre) ls)
unfolding is_item
is_item-items_from capacity pre [] h = tt
is_item-items_from capacity pre (l ∷ ls) h = (
  ground (arith, get_or-append_middle pre ls l 0, h.0),
  append_snoc (λ k n. All (λ e. is_item capacity k e ≡ true) (items_from n ls)) pre l ls
      (is_item-items_from capacity (pre ++ l ∷ []) ls h.1),
)

items_fit :
    (capacity i : ℕ) (ls : List ℕ)
    → All (λ l. l ≤ capacity) ls
    → All (λ e. leb e.1 capacity ≡ true) (items_from i ls)
items_fit capacity i [] h = tt
items_fit capacity i (l ∷ ls) h = (ground (arith, h.0), items_fit capacity (suc i) ls h.1)

pack_items-IsPacking :
    (capacity : ℕ) (lens : List ℕ)
    → All (λ l. l ≤ capacity) lens
    → IsPacking capacity lens (map indices (pack_items capacity (items_from 0 lens)))
pack_items-IsPacking capacity lens h =
    let bins = pack_items capacity (items_from 0 lens) in
    let p = pack_items-Packed capacity (items_from 0 lens) (items_fit capacity 0 lens h) in
    let known = All-of_sums capacity lens bins (
      p.same _ ∙ sum_by_of_All (is_item capacity lens) _ (is_item-items_from capacity [] lens h)) in
    let (fits, filled) = indices-fits capacity lens bins known p.good in
    record {
      same = λ w.
          sum_by-flatten w (map indices bins)
          ∙ sum_by-indices w bins
          ∙ p.same (λ e. w e.0)
          ∙ sum_by-items_from w 0 lens;
      fits = fits;
      filled = filled;
    }

any-zero : (lens : List ℕ) → All (λ l. 0 < l) lens → any (λ l. l == 0) lens ≡ false
any-zero [] h = refl
any-zero (l ∷ lens) h = ground (arith, h.0, any-zero lens h.1)

-- Modified first fit decreasing succeeds when the capacity is positive and every length is positive and at most the
-- capacity, and then its bins form a packing: also the backward pass, which pops one item before it
-- looks for a second, loses none.
pub pack_modified-IsPacking :
    (capacity : ℕ) (lens : List ℕ)
    → 0 < capacity
    → All (λ l. 0 < l) lens
    → All (λ l. l ≤ capacity) lens
    → (bins : List (List ℕ)) × (pack_modified capacity lens ≡ ok bins)
      × IsPacking capacity lens bins
unfolding pack_modified
pack_modified-IsPacking capacity lens pos all_pos fits = (
  map indices (pack_items capacity (items_from 0 lens)),
  ground (arith, any-zero lens all_pos, validate_cases capacity lens),
  pack_items-IsPacking capacity lens fits,
)
