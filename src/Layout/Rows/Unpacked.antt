-- ===== src/Layout/Rows/Unpacked.antt =====
-- Rows of packed sequences, unpacked.
use mathlib.Core.Path.{subst}
use nemo_rl_submission.Prelude.{
  replicate, ◌-◌, ℕ, zero, suc, ◌≤◌, ◌<◌, ◌≡◌, refl, sym, ap, ◌∙◌, max, true, List, [], ◌∷◌, ◌++◌,
  map, flatten, append_assoc, append_snoc, leb, arith, length, length-append, length-map,
  length-range_from, take, drop, zip, range, each, Result, ok,
}
use nemo_rl_submission.Transfer.Memory.{length-byte_slice}
use nemo_rl_submission.Rollouts.Feedback.Groups.{index-middle}
use nemo_rl_submission.Layout.Context.Whole.{take-first, drop-first}
use nemo_rl_submission.Layout.Rows.{
  attention_mask, row_length, pad_to, cat_tensors, grouped_tensors, max_row_length,
  group_and_cat_tensors, flat_input_ids, sum_lengths, PackedRows, pack_sequences, split_columns,
  max_length, unpack_vectors,
}

-- Lists taken apart by group sizes.
abbrev pub groups_of {ℓ} : {A : Type ℓ} → List ℕ → List A → List (List A)
groups_of [] xs = []
groups_of (size ∷ sizes) xs = take size xs ∷ groups_of sizes (drop size xs)

-- The sequences without their padding, from pairs of a row and its length.
abbrev pub true_sequences : List (List ℕ) → List ℕ → List (List ℕ)
true_sequences (row ∷ rows) (n ∷ ns) = take n row ∷ true_sequences rows ns
true_sequences _ _ = []

-- No length exceeds its row, and there is a row for each.
abbrev pub AreLengths : List (List ℕ) → List ℕ → Type 0
AreLengths rows [] = Unit
AreLengths [] (n ∷ ns) = ⊥
AreLengths (row ∷ rows) (n ∷ ns) = (n ≤ length row) × AreLengths rows ns

sum_lengths-flatten {ℓ} :
    {E : Type ℓ} (seqs : List (List E)) → sum_lengths (map length seqs) ≡ length (flatten seqs)
unfolding flatten
sum_lengths-flatten [] = refl
sum_lengths-flatten (s ∷ seqs) =
    omega (arith, sum_lengths-flatten seqs, length-append s (flatten seqs))

module _ {E : Type 0} (zeros : E) where
  -- The parts of one row, padded and joined.
  parts_padded :
      (m : ℕ) (seqs : List (List E)) (rest : List E)
      → flatten (
          map
            (map (pad_to m zeros))
            (split_columns ((flatten seqs ++ rest) ∷ []) (map length seqs)))
        ≡ map (pad_to m zeros) seqs
  unfolding flatten
  parts_padded m [] rest = refl
  parts_padded m (s ∷ seqs) rest =
      rw
        (
          append_assoc s (flatten seqs) rest,
          take-first s (flatten seqs ++ rest),
          drop-first s (flatten seqs ++ rest),
          parts_padded m seqs rest,
        )
        refl

  -- A row with these sequences, unpacked by their lengths.
  unpack_vectors-flatten :
      (s : List E) (seqs : List (List E)) (rest : List E)
      → unpack_vectors zeros ((flatten (s ∷ seqs) ++ rest) ∷ []) (map length (s ∷ seqs))
        ≡ ok (map (pad_to (max_length (map length (s ∷ seqs))) zeros) (s ∷ seqs))
  unfolding unpack_vectors
  unpack_vectors-flatten s seqs rest =
      let room : leb (sum_lengths (map length (s ∷ seqs))) (length (flatten (s ∷ seqs) ++ rest))
          ≡ true =
        ground (arith, sum_lengths-flatten (s ∷ seqs), length-append (flatten (s ∷ seqs)) rest) in
      rw (unpack_vectors, room)
        (ap ok (parts_padded (max_length (map length (s ∷ seqs))) (s ∷ seqs) rest))

-- The lengths of the sequences without their padding.
length-true_sequences :
    (rows : List (List ℕ)) (ns : List ℕ)
    → AreLengths rows ns
    → map length (true_sequences rows ns) ≡ ns
length-true_sequences [] [] h = refl
length-true_sequences (row ∷ rows) [] h = refl
length-true_sequences [] (n ∷ ns) h = absurd h
length-true_sequences (row ∷ rows) (n ∷ ns) h =
    rw (length-byte_slice row 0 n (omega (arith, h.0)), length-true_sequences rows ns h.1) refl

flat_input_ids-true_sequences :
    (pre rows : List (List ℕ)) (ns : List ℕ)
    → AreLengths rows ns
    → flat_input_ids (pre ++ rows) (length pre) ns ≡ ok (true_sequences rows ns)
unfolding flat_input_ids
flat_input_ids-true_sequences pre [] [] h = refl
flat_input_ids-true_sequences pre (row ∷ rows) [] h = refl
flat_input_ids-true_sequences pre [] (n ∷ ns) h = absurd h
flat_input_ids-true_sequences pre (row ∷ rows) (n ∷ ns) h =
    let later =
      append_snoc (λ l i. flat_input_ids l i ns ≡ ok (true_sequences rows ns)) pre row rows
        (flat_input_ids-true_sequences (pre ++ row ∷ []) rows ns h.1) in
    rw (index-middle pre rows row, later) refl

-- Sizes that can be taken, each positive.
abbrev pub AreSizes {ℓ} : {A : Type ℓ} → List ℕ → List A → Type 0
AreSizes [] xs = Unit
AreSizes (size ∷ sizes) xs = (0 < size) × (size ≤ length xs) × AreSizes sizes (drop size xs)

grouped_tensors-groups :
    (sizes : List ℕ) (seqs : List (List ℕ))
    → AreSizes sizes seqs
    → grouped_tensors seqs sizes ≡ ok (map flatten (groups_of sizes seqs))
unfolding grouped_tensors cat_tensors
grouped_tensors-groups [] seqs h = refl
grouped_tensors-groups (zero ∷ sizes) seqs h = absurd (omega (arith, h.0))
grouped_tensors-groups (suc n ∷ sizes) [] h = absurd (omega (arith, h.1))
grouped_tensors-groups (suc n ∷ sizes) (s ∷ seqs) h =
    let later = grouped_tensors-groups sizes (drop n seqs) h.2 in rw later refl

module _ {A B : Type 0} (f : A → B) where
  take-map : (n : ℕ) (xs : List A) → take n (map f xs) ≡ map f (take n xs)
  take-map zero xs = refl
  take-map (suc n) [] = refl
  take-map (suc n) (x ∷ xs) = ap (◌∷◌ (f x)) (take-map n xs)

  drop-map : (n : ℕ) (xs : List A) → drop n (map f xs) ≡ map f (drop n xs)
  drop-map zero xs = refl
  drop-map (suc n) [] = refl
  drop-map (suc n) (x ∷ xs) = drop-map n xs

  groups_of-map :
      (sizes : List ℕ) (xs : List A) → groups_of sizes (map f xs) ≡ map (map f) (groups_of sizes xs)
  groups_of-map [] xs = refl
  groups_of-map (n ∷ sizes) xs =
      rw (take-map n xs, drop-map n xs, groups_of-map sizes (drop n xs)) refl

  AreSizes-of_map : (sizes : List ℕ) (xs : List A) → AreSizes sizes (map f xs) → AreSizes sizes xs
  AreSizes-of_map [] xs h = tt
  AreSizes-of_map (n ∷ sizes) xs h = (
    h.0,
    omega (arith, h.1, length-map f xs),
    AreSizes-of_map sizes (drop n xs) (subst (AreSizes sizes) (drop-map n xs) h.2),
  )

module _ {A B : Type 0} (f : A → B) where
  length-maps : (seqs : List (List A)) → map length (map (map f) seqs) ≡ map length seqs
  length-maps [] = refl
  length-maps (s ∷ seqs) = rw (length-map f s, length-maps seqs) refl

  map-append : (xs ys : List A) → map f (xs ++ ys) ≡ map f xs ++ map f ys
  map-append [] ys = refl
  map-append (x ∷ xs) ys = ap (◌∷◌ (f x)) (map-append xs ys)

  map-flatten : (seqs : List (List A)) → map f (flatten seqs) ≡ flatten (map (map f) seqs)
  unfolding flatten
  map-flatten [] = refl
  map-flatten (s ∷ seqs) = map-append s (flatten seqs) ∙ ap (map f s ++◌) (map-flatten seqs)

module _ {E : Type 0} (f : ℕ → E) (zeros : E) where
  -- The vectors of each group's sequences, padded with zeros to the longest of the group.
  abbrev pub padded_groups : List (List (List ℕ)) → List (List (List E))
  padded_groups groups =
      map (λ seqs. map (pad_to (max_length (map length seqs)) zeros) (map (map f) seqs)) groups

  -- Every row, with a vector for each token, unpacked by the lengths of its group.
  abbrev pub unpack_rows : List (List ℕ) → List (List ℕ) → Result (List (List (List E)))
  unpack_rows rows lengths =
      each (λ (r : List ℕ × List ℕ). unpack_vectors zeros (map f r.0 ∷ []) r.1) (zip rows lengths)

  unpack_row :
      (s : List ℕ) (seqs : List (List ℕ)) (rest : List ℕ)
      → unpack_vectors zeros (map f (flatten (s ∷ seqs) ++ rest) ∷ []) (map length (s ∷ seqs))
        ≡ ok (map (pad_to (max_length (map length (s ∷ seqs))) zeros) (map (map f) (s ∷ seqs)))
  unpack_row s seqs rest =
      let vectors : map f (flatten (s ∷ seqs) ++ rest)
          ≡ flatten (map (map f) (s ∷ seqs)) ++ map f rest =
        map-append f (flatten (s ∷ seqs)) rest
        ∙ ap (λ l. l ++ map f rest) (map-flatten f (s ∷ seqs)) in
      ap (λ l. unpack_vectors zeros (l ∷ []) (map length (s ∷ seqs))) vectors
      ∙ subst
          (λ ns.
            unpack_vectors zeros ((flatten (map (map f) (s ∷ seqs)) ++ map f rest) ∷ []) ns
            ≡ ok (map (pad_to (max_length ns) zeros) (map (map f) (s ∷ seqs))))
          (length-maps f (s ∷ seqs))
          (unpack_vectors-flatten zeros (map f s) (map (map f) seqs) (map f rest))

  unpack_rows-groups :
      (n value : ℕ) (sizes : List ℕ) (seqs : List (List ℕ))
      → AreSizes sizes seqs
      → unpack_rows
          (map (pad_to n value) (map flatten (groups_of sizes seqs)))
          (groups_of sizes (map length seqs))
        ≡ ok (padded_groups (groups_of sizes seqs))
  unpack_rows-groups n value [] seqs h = refl
  unpack_rows-groups n value (zero ∷ sizes) seqs h = absurd (omega (arith, h.0))
  unpack_rows-groups n value (suc m ∷ sizes) [] h = absurd (omega (arith, h.1))
  unpack_rows-groups n value (suc m ∷ sizes) (s ∷ seqs) h =
      let t = take m seqs in
      let padding = replicate (n - length (flatten (s ∷ t))) value in
      rw
        (
          take-map length m seqs,
          drop-map length m seqs,
          unpack_row s t padding,
          unpack_rows-groups n value sizes (drop m seqs) h.2,
        )
        refl

-- The padded rows of sequences whose groups can be taken.
group_and_cat_tensors-groups :
    (size : ℕ) (sizes : List ℕ) (seqs : List (List ℕ)) (value least : ℕ)
    → AreSizes (size ∷ sizes) seqs
    → group_and_cat_tensors seqs (size ∷ sizes) value least
      ≡ ok (
          map
            (pad_to
              (max (max_row_length (map flatten (groups_of (size ∷ sizes) seqs))) least)
              value)
            (map flatten (groups_of (size ∷ sizes) seqs)))
unfolding group_and_cat_tensors
group_and_cat_tensors-groups size sizes seqs value least h =
    rw (group_and_cat_tensors, grouped_tensors-groups (size ∷ sizes) seqs h) refl

-- Both kinds of rows that `pack_sequences` makes, unpacked.
rows_unpacked :
    {E : Type 0} (f : ℕ → E) (zeros : E) (size : ℕ) (sizes : List ℕ) (seqs : List (List ℕ))
    (value least : ℕ)
    → AreSizes (size ∷ sizes) seqs
    → (rows : List (List ℕ)) × (group_and_cat_tensors seqs (size ∷ sizes) value least ≡ ok rows)
      × (unpack_rows f zeros rows (groups_of (size ∷ sizes) (map length seqs))
          ≡ ok (padded_groups f zeros (groups_of (size ∷ sizes) seqs)))
rows_unpacked f zeros size sizes seqs value least h = (
  _,
  group_and_cat_tensors-groups size sizes seqs value least h,
  unpack_rows-groups f zeros _ value (size ∷ sizes) seqs h,
)

length-ranges : (ns : List ℕ) → map length (map range ns) ≡ ns
length-ranges [] = refl
length-ranges (n ∷ ns) = rw (length-range_from 0 n, length-ranges ns) refl

-- For sequences that come with their lengths, and positive group sizes that there are enough sequences
-- for, packing returns, whatever the padding. With a vector for each token, so that a row is a tensor
-- with three dimensions, unpacking each row by the lengths of its group gives the vectors of the
-- group's sequences without their old padding, in order, padded with zeros to the longest of the
-- group; the vectors of the positions, unpacked likewise, count from zero in each sequence.
pub pack_sequences-unpack :
    {E : Type 0} (f : ℕ → E) (zeros : E) (input_ids : List (List ℕ)) (lengths : List ℕ) (size : ℕ)
    (sizes : List ℕ) (value least : ℕ)
    → AreLengths input_ids lengths
    → AreSizes (size ∷ sizes) lengths
    → (packed : PackedRows) × (pack_sequences input_ids lengths (size ∷ sizes) value least
        ≡ ok packed)
      × (unpack_rows f zeros packed.input_ids_packed (groups_of (size ∷ sizes) lengths)
          ≡ ok
              (padded_groups f zeros (groups_of (size ∷ sizes) (true_sequences input_ids lengths))))
      × (unpack_rows f zeros packed.position_ids_packed (groups_of (size ∷ sizes) lengths)
          ≡ ok (padded_groups f zeros (groups_of (size ∷ sizes) (map range lengths))))
unfolding pack_sequences
pack_sequences-unpack f zeros input_ids lengths size sizes value least h k =
    let all = size ∷ sizes in
    let seqs = true_sequences input_ids lengths in
    let same = length-true_sequences input_ids lengths h in
    let counted = length-ranges lengths in
    let taken = AreSizes-of_map length all seqs (subst (AreSizes all) (sym same) k) in
    let taken' =
      AreSizes-of_map length all (map range lengths) (subst (AreSizes all) (sym counted) k) in
    let (rows, run, back) = rows_unpacked f zeros size sizes seqs value least taken in
    let (rows', run', back') =
      rows_unpacked f zeros size sizes (map range lengths) 0 least taken' in
    let packed : PackedRows = record {
      input_ids_packed = rows;
      position_ids_packed = rows';
      mask = attention_mask (row_length rows) lengths all;
    } in
    (
      packed,
      rw (pack_sequences, flat_input_ids-true_sequences [] input_ids lengths h, run, run') refl,
      subst
          (λ l.
            unpack_rows f zeros rows (groups_of all l)
            ≡ ok (padded_groups f zeros (groups_of all seqs)))
          same back,
      subst
          (λ l.
            unpack_rows f zeros rows' (groups_of all l)
            ≡ ok (padded_groups f zeros (groups_of all (map range lengths))))
          counted back',
    )
