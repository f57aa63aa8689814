-- ===== src/Layout/Context/Whole.antt =====
-- The parts of all ranks, gathered.
use native.Mathlib.Nat.{mul-le-mul_right}
use nemo_rl_submission.Prelude.{
  ℕ, zero, suc, ◌+◌, ◌-◌, ◌*◌, ◌/◌, ◌≤◌, ◌<◌, ◌≡◌, refl, sym, ap, ◌∙◌, Bool, false, List, [], ◌∷◌,
  ◌++◌, map, flatten, ◌==◌, leb, arith, All, length, take, drop, zip, range, range_from, sort,
  by_key, Bool-cases, inl, inr, length-append, length-map, length-range_from, sum_by, SameItems,
  sum_by-map, sort-SameItems, sort-IsAscending, All-sort, append-nil,
}
use nemo_rl_submission.Transfer.Memory.{length-byte_slice}
use nemo_rl_submission.Batching.Batch.Places.{range_from_unique}
use nemo_rl_submission.Layout.Context.{
  nth_slice, get_tokens_on_this_cp_rank, chunk_in_two, chunk_indices, gather_cp_tensors,
}

suc_add : (n m : ℕ) → suc n + m ≡ suc (n + m)
suc_add n m = omega arith

plus_zero : (i : ℕ) → i + 0 ≡ i
plus_zero i = omega arith

zero_plus : (m : ℕ) → 0 + m ≡ m
zero_plus m = omega arith

suc_plus : (i n : ℕ) → suc i + n ≡ i + suc n
suc_plus i n = omega arith

range_from-append :
    (w : ℕ → ℕ) (i n m : ℕ)
    → sum_by w (range_from i (n + m)) ≡ sum_by w (range_from i n) + sum_by w (range_from (i + n) m)
range_from-append w i zero m = omega (
  arith,
  ap (λ k. sum_by w (range_from k m)) (plus_zero i),
  ap (λ k. sum_by w (range_from i k)) (zero_plus m),
)
range_from-append w i (suc n) m = omega (
  arith,
  range_from-append w (suc i) n m,
  ap (λ k. sum_by w (range_from k m)) (suc_plus i n),
  ap (λ k. sum_by w (range_from i k)) (suc_add n m),
)

range_from_end :
    (w : ℕ → ℕ) (i n : ℕ) → sum_by w (range_from i (suc n)) ≡ sum_by w (range_from i n) + w (i + n)
range_from_end w i zero = let same : i + 0 ≡ i = omega arith in omega (arith, ap w same)
range_from_end w i (suc n) = omega (arith, range_from_end w (suc i) n, ap w (suc_plus i n))

-- The chunks of the first `n` ranks from `a` on are the numbers from there and from the far end.
chunk_indices-sum :
    (w : ℕ → ℕ) (cp a n : ℕ)
    → a + n ≤ cp
    → sum_by w (chunk_indices cp (range_from a n))
      ≡ sum_by w (range_from a n) + sum_by w (range_from (2 * cp - a - n) n)
chunk_indices-sum w cp a zero h = omega arith
chunk_indices-sum w cp a (suc n) h =
    let far = 2 * cp - a - suc n in
    let further : far + n ≡ 2 * cp - a - 1 = omega (arith, h) in
    let before : 2 * cp - suc a - n ≡ far = omega (arith, h) in
    omega (
      arith,
      chunk_indices-sum w cp (suc a) n (omega (arith, h)),
      range_from_end w far n,
      ap w further,
      ap (λ k. sum_by w (range_from k n)) before,
    )

shard_size_lem : (cp k : ℕ) → 0 < cp → (2 * cp * k) / (cp * 2) ≡ k
shard_size_lem cp k h = grind arith

slice_fits : (i n k : ℕ) → i < n → i * k + k ≤ n * k
slice_fits i n k h = let bound : suc i * k ≤ n * k = mul-le-mul_right k h in grind (arith, bound)

module _ {Token : Type 0} where
  take-nil : (n : ℕ) → take {A = Token} n [] ≡ []
  take-nil zero = refl
  take-nil (suc n) = refl

  drop-nil : (n : ℕ) → drop {A = Token} n [] ≡ []
  drop-nil zero = refl
  drop-nil (suc n) = refl

  take-split :
      (xs : List Token) (n m t : ℕ) → t ≡ n + m → take n xs ++ take m (drop n xs) ≡ take t xs
  take-split xs zero m t e = let same : m ≡ t = omega (arith, e) in ap (λ k. take k xs) same
  take-split [] (suc n) m t e = take-nil m ∙ sym (take-nil t)
  take-split (x ∷ xs) (suc n) m zero e = absurd (omega arith)
  take-split (x ∷ xs) (suc n) m (suc t) e = ap (◌∷◌ x) (take-split xs n m t (omega (arith, e)))

  drop-drop : (xs : List Token) (n m t : ℕ) → t ≡ n + m → drop m (drop n xs) ≡ drop t xs
  drop-drop xs zero m t e = let same : m ≡ t = omega (arith, e) in ap (λ k. drop k xs) same
  drop-drop [] (suc n) m t e = drop-nil m ∙ sym (drop-nil t)
  drop-drop (x ∷ xs) (suc n) m zero e = absurd (omega arith)
  drop-drop (x ∷ xs) (suc n) m (suc t) e = drop-drop xs n m t (omega (arith, e))

  take-all : (xs : List Token) (n : ℕ) → length xs ≤ n → take n xs ≡ xs
  take-all [] zero h = refl
  take-all [] (suc n) h = refl
  take-all (x ∷ xs) zero h = absurd (omega arith)
  take-all (x ∷ xs) (suc n) h = ap (◌∷◌ x) (take-all xs n (omega arith))

  -- Slices one behind the other.
  flatten-slices :
      (xs : List Token) (k a n start size : ℕ)
      → start ≡ a * k
      → size ≡ n * k
      → flatten (map (nth_slice xs k) (range_from a n)) ≡ take size (drop start xs)
  unfolding flatten
  flatten-slices xs k a zero start zero e f = refl
  flatten-slices xs k a zero start (suc size) e f = absurd (omega arith)
  flatten-slices xs k a (suc n) start size e f =
      let here : drop (a * k) xs ≡ drop start xs = ap (λ i. drop i xs) (sym e) in
      ap (λ l. nth_slice xs k a ++ l)
        (flatten-slices xs k (suc a) n (start + k) (n * k) (grind (arith, e)) refl)
      ∙ (ap (λ l. take k l ++ take (n * k) (drop (start + k) xs)) here
          ∙ (ap (λ l. take k (drop start xs) ++ take (n * k) l)
                (sym (drop-drop xs start k (start + k) refl))
              ∙ take-split (drop start xs) k (n * k) size (grind (arith, f))))

  whole-slices :
      (xs : List Token) (k n : ℕ)
      → length xs ≡ n * k
      → flatten (map (nth_slice xs k) (range n)) ≡ xs
  whole-slices xs k n e =
      flatten-slices xs k 0 n 0 (n * k) (omega arith) refl ∙ take-all xs (n * k) (omega (arith, e))

  pub take-first : (xs ys : List Token) → take (length xs) (xs ++ ys) ≡ xs
  take-first [] ys = refl
  take-first (x ∷ xs) ys = ap (◌∷◌ x) (take-first xs ys)

  pub drop-first : (xs ys : List Token) → drop (length xs) (xs ++ ys) ≡ ys
  drop-first [] ys = refl
  drop-first (x ∷ xs) ys = drop-first xs ys

  chunk_in_two-halves :
      (xs ys : List Token)
      → 0 < length xs
      → length ys ≡ length xs
      → chunk_in_two (xs ++ ys) ≡ xs ∷ ys ∷ []
  unfolding chunk_in_two
  chunk_in_two-halves xs ys p e =
      let half : (length (xs ++ ys) + 1) / 2 ≡ length xs = omega (arith, length-append xs ys, e) in
      let more : leb (length (xs ++ ys)) (length xs) ≡ false =
        ground (arith, length-append xs ys, e) in
      rw (chunk_in_two, half, more, take-first xs ys, drop-first xs ys) refl

  with_numbers :
      (f : ℕ → List Token) (is : List ℕ)
      → All (λ (c : List Token × ℕ). c.0 ≡ f c.1) (map (λ i. (f i, i)) is)
  with_numbers f [] = tt
  with_numbers f (i ∷ is) = (refl, with_numbers f is)

  firsts_by_number :
      (f : ℕ → List Token) (cs : List (List Token × ℕ))
      → All (λ (c : List Token × ℕ). c.0 ≡ f c.1) cs
      → map (λ (c : List Token × ℕ). c.0) cs ≡ map f (map (λ (c : List Token × ℕ). c.1) cs)
  firsts_by_number f [] h = refl
  firsts_by_number f (c ∷ cs) h = rw (h.0, firsts_by_number f cs h.1) refl

  module _ (xs : List Token) (cp k : ℕ) (some_rank : 0 < cp) (some_token : 0 < k)
      (whole : length xs ≡ 2 * cp * k) where
    abbrev nth : ℕ → List Token
    nth i = nth_slice xs k i

    -- What a rank gets: its own slice, and the one with its number counted from the end.
    tokens_of_rank :
        (r : ℕ) → r < cp → get_tokens_on_this_cp_rank xs r cp ≡ nth r ++ nth (2 * cp - r - 1)
    unfolding get_tokens_on_this_cp_rank flatten
    tokens_of_rank r below =
        let shard : length xs / (cp * 2) ≡ k =
          ap (λ n. n / (cp * 2)) whole ∙ shard_size_lem cp k some_rank in
        elim (Bool-cases (cp == 1)) [
          | inl one ↦
              let single : cp ≡ 1 = ground (arith, one) in
              let both : 2 * 1 * k ≡ 2 * k = omega arith in
              let size : length xs ≡ 2 * k =
                omega (arith, whole, both, ap (λ c. 2 * c * k) single) in
              let parts : xs ≡ nth 0 ++ nth 1 =
                sym (whole-slices xs k 2 size) ∙ ap (λ l. nth 0 ++ l) (append-nil (nth 1)) in
              let first : 0 ≡ r = omega (arith, single, below) in
              let second : 1 ≡ 2 * cp - r - 1 = omega (arith, single, below) in
              rw (get_tokens_on_this_cp_rank, one)
                (parts ∙ (ap (λ i. nth i ++ nth 1) first ∙ ap (λ i. nth r ++ nth i) second))
          | inr several ↦
              let far : cp * 2 - r - 1 ≡ 2 * cp - r - 1 = omega arith in
              rw (get_tokens_on_this_cp_rank, several, shard) (ap (λ i. nth r ++ nth i) far)
        ]

    length-nth : (i : ℕ) → i < 2 * cp → length (nth i) ≡ k
    length-nth i below =
        length-byte_slice xs (i * k) k (omega (arith, whole, slice_fits i (2 * cp) k below))

    chunks_of_ranks :
        (a n : ℕ)
        → a + n ≤ cp
        → zip
            (flatten
              (map chunk_in_two (map (λ r. get_tokens_on_this_cp_rank xs r cp) (range_from a n))))
            (chunk_indices cp (range_from a n))
          ≡ map (λ i. (nth i, i)) (chunk_indices cp (range_from a n))
    unfolding flatten
    chunks_of_ranks a zero h = refl
    chunks_of_ranks a (suc n) h =
        let own = tokens_of_rank a (omega arith) in
        let far = 2 * cp - a - 1 in
        let here = length-nth a (omega arith) in
        let there = length-nth far (omega arith) in
        rw
          (
            own,
            chunk_in_two-halves (nth a) (nth far) (omega (arith, here))
                (omega (arith, here, there)),
          )
          (ap (λ l. (nth a, a) ∷ (nth far, far) ∷ l) (chunks_of_ranks (suc a) n (omega arith)))

    chunk_indices-SameItems : SameItems (chunk_indices cp (range cp)) (range (2 * cp))
    chunk_indices-SameItems w =
        let both : 2 * cp ≡ cp + cp = omega arith in
        let behind : 2 * cp - 0 - cp ≡ 0 + cp = omega arith in
        omega (
          arith,
          chunk_indices-sum w cp 0 cp (omega arith),
          range_from-append w 0 cp cp,
          ap (λ n. sum_by w (range n)) both,
          ap (λ i. sum_by w (range_from i cp)) behind,
        )

    abbrev by_number : List Token × ℕ → List Token × ℕ → Bool
    by_number = by_key (λ (c : List Token × ℕ). c.1)

    -- The chunks in the order of their numbers, joined.
    abbrev joined : List (List Token × ℕ) → List Token
    joined chunks = flatten (map (λ (c : List Token × ℕ). c.0) (sort by_number chunks))

    abbrev pairs : List (List Token × ℕ)
    pairs = map (λ i. (nth i, i)) (chunk_indices cp (range cp))

    sorted_numbers : map (λ (c : List Token × ℕ). c.1) (sort by_number pairs) ≡ range (2 * cp)
    sorted_numbers =
        range_from_unique 0 (2 * cp) _
          (λ w.
            sum_by-map w (λ (c : List Token × ℕ). c.1) (sort by_number pairs)
            ∙ (sort-SameItems by_number pairs (λ c. w c.1)
                ∙ (sum_by-map (λ (c : List Token × ℕ). w c.1) (λ i. (nth i, i))
                      (chunk_indices cp (range cp))
                    ∙ chunk_indices-SameItems w)))
          (sort-IsAscending (λ (c : List Token × ℕ). c.1) pairs)

    -- When the length of a sequence is a positive multiple of twice the number of ranks, the parts that
    -- the ranks get of it, gathered and put in order, are the sequence.
    pub gather_cp_tensors-whole :
        gather_cp_tensors (map (λ r. get_tokens_on_this_cp_rank xs r cp) (range cp)) ≡ xs
    unfolding gather_cp_tensors
    gather_cp_tensors-whole =
        let parts = map (λ r. get_tokens_on_this_cp_rank xs r cp) (range cp) in
        let ranks : length parts ≡ cp = length-map _ (range cp) ∙ length-range_from 0 cp in
        let chunks = flatten (map chunk_in_two parts) in
        ap (λ n. joined (zip chunks (chunk_indices n (range n)))) ranks
        ∙ (ap joined (chunks_of_ranks 0 cp (omega arith))
            ∙ (ap flatten (
                  firsts_by_number nth (sort by_number pairs) (
                    All-sort by_number (λ (c : List Token × ℕ). c.0 ≡ nth c.1) pairs
                      (with_numbers nth (chunk_indices cp (range cp)))))
                ∙ (ap (λ is. flatten (map nth is)) sorted_numbers
                    ∙ whole-slices xs k (2 * cp) whole)))
