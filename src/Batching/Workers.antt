-- ===== src/Batching/Workers.antt =====
-- nemo_rl/environments/utils.py: `chunk_list_to_workers`.
use mathlib.Core.Path.{subst}
use native.Mathlib.Nat.{lt_of_mul-lt-mul_right}
use nemo_rl_submission.Prelude.{
  ℕ, zero, suc, ◌+◌, ◌-◌, ◌*◌, ◌/◌, ◌≤◌, ◌<◌, ◌≡◌, refl, sym, ap, ◌∙◌, false, List, [], ◌∷◌, ◌++◌,
  map, flatten, flatten-append, append-nil, leb, ltb, if◌then◌else◌, arith, All, All-append, length,
  length-append, length-map, take, drop, replicate, ◌⊎◌, Bool-cases, inl, inr,
}

more_slices :
    (k c n front back : ℕ)
    → front + back ≡ n
    → (front ≡ k) ⊎ (back ≡ 0)
    → c * suc k < back + suc k
    → suc c * suc k < suc n + suc k
more_slices k c n front back e (inl full) h = grind (arith, e, full, h)
more_slices k zero n front back e (inr last) h = omega arith
more_slices k (suc c) n front back e (inr last) h = absurd (grind (arith, last, h))

per_worker : (n m : ℕ) → 0 < m → 0 < (suc n + m - 1) / m
per_worker n m p = grind arith

enough_slices : (n m : ℕ) → 0 < m → n ≤ m * ((n + m - 1) / m)
enough_slices n m p = grind arith

few_slices : (c n m size : ℕ) → 0 < m → size ≡ (n + m - 1) / m → c * size < n + size → c ≤ m
few_slices c n m size p e h =
    let room : n ≤ m * ((n + m - 1) / m) = enough_slices n m p in
    let bound : c * size < suc m * size = grind (arith, room, e, h) in
    omega (arith, lt_of_mul-lt-mul_right size bound)

all_empty : (A : Type 0) (n : ℕ) → length {A = List A} (replicate n []) ≡ n
all_empty A zero = refl
all_empty A (suc n) = ap suc (all_empty A n)

All-empties : (A : Type 0) (k n : ℕ) → All (λ (c : List A). length c ≤ k) (replicate n [])
All-empties A k zero = tt
All-empties A k (suc n) = (omega arith, All-empties A k n)

module _ {A : Type 0} where
  -- `[xs[i : i + size] for i in range(0, len(xs), size)]`, on fuel; each slice takes an item.
  unfoldable pub slices_of_size : ℕ → ℕ → List A → List (List A)
  slices_of_size size zero xs = []
  slices_of_size size (suc fuel) [] = []
  slices_of_size size (suc fuel) (x ∷ xs) =
      take size (x ∷ xs) ∷ slices_of_size size fuel (drop size (x ∷ xs))

  -- `chunks[n - 1 :] = [sum(chunks[n - 1 :], [])]`, if there are more than `n`.
  unfoldable pub merge_last : ℕ → List (List A) → List (List A)
  merge_last n chunks =
      if ltb n (length chunks)
      then take (n - 1) chunks ++ flatten (drop (n - 1) chunks) ∷ []
      else chunks

  unfoldable pub chunk_list_to_workers : List A → ℕ → List (List A)
  unfolding slices_of_size merge_last
  chunk_list_to_workers to_chunk num_workers = elim to_chunk [
    | [] ↦ replicate num_workers []
    | x ∷ xs ↦
        let n = length (x ∷ xs) in
        if leb n num_workers
        then map (λ item. item ∷ []) (x ∷ xs) ++ replicate (num_workers - n) []
        else merge_last num_workers
            (slices_of_size ((n + num_workers - 1) / num_workers) n (x ∷ xs))
  ]

  flatten-empties : (n : ℕ) → flatten {A = A} (replicate n []) ≡ []
  unfolding flatten
  flatten-empties zero = refl
  flatten-empties (suc n) = flatten-empties n

  flatten-singles : (xs : List A) → flatten (map (λ x. x ∷ []) xs) ≡ xs
  unfolding flatten
  flatten-singles [] = refl
  flatten-singles (x ∷ xs) = ap (◌∷◌ x) (flatten-singles xs)

  take-drop : (n : ℕ) (xs : List A) → take n xs ++ drop n xs ≡ xs
  take-drop zero xs = refl
  take-drop (suc n) [] = refl
  take-drop (suc n) (x ∷ xs) = ap (◌∷◌ x) (take-drop n xs)

  length-take-drop : (n : ℕ) (xs : List A) → length (take n xs) + length (drop n xs) ≡ length xs
  length-take-drop n xs =
      sym (length-append (take n xs) (drop n xs)) ∙ ap (λ l. length l) (take-drop n xs)

  length-take-le : (n : ℕ) (xs : List A) → length (take n xs) ≤ n
  length-take-le zero xs = omega arith
  length-take-le (suc n) [] = omega arith
  length-take-le (suc n) (x ∷ xs) = omega (arith, length-take-le n xs)

  full_or_last : (n : ℕ) (xs : List A) → (length (take n xs) ≡ n) ⊎ (length (drop n xs) ≡ 0)
  full_or_last zero xs = inl refl
  full_or_last (suc n) [] = inr refl
  full_or_last (suc n) (x ∷ xs) = elim (full_or_last n xs) [
    | inl full ↦ inl (ap suc full)
    | inr last ↦ inr last
  ]

  -- All but the last slice are full.
  slices-bounds :
      (size fuel : ℕ) (xs : List A)
      → length xs ≤ fuel
      → 0 < size
      → (flatten (slices_of_size size fuel xs) ≡ xs)
        × All (λ c. length c ≤ size) (slices_of_size size fuel xs)
        × (length (slices_of_size size fuel xs) * size < length xs + size)
  unfolding slices_of_size flatten
  slices-bounds size zero [] h p = (refl, tt, omega arith)
  slices-bounds size zero (x ∷ xs) h p = absurd (omega arith)
  slices-bounds size (suc fuel) [] h p = (refl, tt, omega arith)
  slices-bounds zero (suc fuel) (x ∷ xs) h p = absurd (omega arith)
  slices-bounds (suc k) (suc fuel) (x ∷ xs) h p =
      let count = length-take-drop k xs in
      let (whole, small, few) = slices-bounds (suc k) fuel (drop k xs) (omega (arith, count)) p in
      (
        ap (λ l. x ∷ (take k xs ++ l)) whole ∙ ap (◌∷◌ x) (take-drop k xs),
        (omega (arith, length-take-le k xs), small),
        more_slices k (length (slices_of_size (suc k) fuel (drop k xs))) (length xs)
            (length (take k xs)) (length (drop k xs)) count (full_or_last k xs) few,
      )

  All-singles :
      (k : ℕ) (xs : List A) → 0 < k → All (λ (c : List A). length c ≤ k) (map (λ x. x ∷ []) xs)
  All-singles k [] p = tt
  All-singles k (x ∷ xs) p = (p, All-singles k xs p)

  -- The items are dealt to the workers: the chunks joined are the list, there are no more chunks than
  -- workers, none is longer than the items per worker, rounded up, and there is one for each worker
  -- when there are no more items than workers.
  pub record IsDealt (to_chunk : List A) (num_workers : ℕ) (chunks : List (List A)) : Type 0 where
    pub whole : flatten chunks ≡ to_chunk
    pub few : length chunks ≤ num_workers
    pub even : All (λ c. length c ≤ (length to_chunk + num_workers - 1) / num_workers) chunks
    pub each_worker : length to_chunk ≤ num_workers → length chunks ≡ num_workers

  singles-IsDealt :
      (x : A) (xs : List A) (m : ℕ)
      → 0 < m
      → length (x ∷ xs) ≤ m
      → IsDealt (x ∷ xs) m (map (λ item. item ∷ []) (x ∷ xs) ++ replicate (m - length (x ∷ xs)) [])
  singles-IsDealt x xs m p h =
      let n = length (x ∷ xs) in
      let items = map (λ (item : A). item ∷ []) (x ∷ xs) in
      let count = length-append items (replicate (m - n) []) in
      record {
        whole =
            flatten-append items (replicate (m - n) [])
            ∙ (ap (λ l. flatten items ++ l) (flatten-empties (m - n))
                ∙ (append-nil (flatten items) ∙ flatten-singles (x ∷ xs)));
        few = omega (arith, count, length-map (λ (item : A). item ∷ []) xs, all_empty A (m - n), h);
        even =
            All-append _ items (replicate (m - n) [])
              (All-singles ((n + m - 1) / m) (x ∷ xs) (per_worker (length xs) m p))
              (All-empties A ((n + m - 1) / m) (m - n));
        each_worker = λ _.
            omega (arith, count, length-map (λ (item : A). item ∷ []) xs, all_empty A (m - n), h);
      }

  slices-IsDealt :
      (x : A) (xs : List A) (m : ℕ)
      → 0 < m
      → m < length (x ∷ xs)
      → IsDealt
          (x ∷ xs)
          m
          (merge_last m (slices_of_size ((length (x ∷ xs) + m - 1) / m) (length (x ∷ xs)) (x ∷ xs)))
  unfolding merge_last
  slices-IsDealt x xs m p h =
      let n = length (x ∷ xs) in
      let size = (n + m - 1) / m in
      let (whole, small, count) =
        slices-bounds size n (x ∷ xs) (omega arith) (per_worker (length xs) m p) in
      let chunks = slices_of_size size n (x ∷ xs) in
      let few : length chunks ≤ m = few_slices (length chunks) n m size p refl count in
      let none_over : ltb m (length chunks) ≡ false = ground (arith, few) in
      subst (IsDealt (x ∷ xs) m) (sym (rw (merge_last, none_over) refl)) (record {
        whole = whole;
        few = few;
        even = small;
        each_worker = λ e. absurd (omega (arith, e, h));
      })

  -- For at least one worker, the items are dealt to the workers; the chunks that are too many, which the
  -- function would merge, never occur.
  pub chunk_list_to_workers-IsDealt :
      (to_chunk : List A) (num_workers : ℕ)
      → 0 < num_workers
      → IsDealt to_chunk num_workers (chunk_list_to_workers to_chunk num_workers)
  unfolding chunk_list_to_workers
  chunk_list_to_workers-IsDealt [] m p = record {
    whole = flatten-empties m;
    few = omega (arith, all_empty A m);
    even = All-empties A _ m;
    each_worker = λ _. all_empty A m;
  }
  chunk_list_to_workers-IsDealt (x ∷ xs) m p = elim (Bool-cases (leb (length (x ∷ xs)) m)) [
    | inl few ↦
        subst (IsDealt (x ∷ xs) m) (sym (rw (chunk_list_to_workers, few) refl))
          (singles-IsDealt x xs m p (ground (arith, few)))
    | inr many ↦
        subst (IsDealt (x ∷ xs) m) (sym (rw (chunk_list_to_workers, many) refl))
          (slices-IsDealt x xs m p (ground (arith, many)))
  ]
