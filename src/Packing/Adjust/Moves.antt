-- ===== src/Packing/Adjust/Moves.antt =====
-- One new bin: the last sequence of a bin that holds two at least moves into it.
use nemo_rl_submission.Prelude.{
  ℕ, suc, ◌+◌, ◌-◌, ◌<◌, ◌≡◌, List, [], ◌∷◌, ◌++◌, flatten, arith, ◌==◌, if◌then◌else◌, length,
  get_or, set, All, All-append, All-set, All-get_or, length-append, length-set, set-append_left,
  get_or-append_left, get_or-append_middle, set-append_middle, get_or-set, append_assoc, sum_by,
  sum_by-append, sum_by-flatten, sum_by-set,
}
use nemo_rl_submission.Packing.Adjust.{pop_rest, popped, move_last}

pub sum_by-popped :
    (w : ℕ → ℕ) (b : List ℕ) → 0 < length b → sum_by w (pop_rest b) + w (popped b) ≡ sum_by w b
unfolding pop_rest popped
sum_by-popped w [] h = absurd (omega arith)
sum_by-popped w (x ∷ []) h = omega arith
sum_by-popped w (x ∷ y ∷ xs) h = omega (arith, sum_by-popped w (y ∷ xs) (omega arith))

pub length-pop_rest : (b : List ℕ) → 0 < length b → length (pop_rest b) + 1 ≡ length b
unfolding pop_rest
length-pop_rest [] h = absurd (omega arith)
length-pop_rest (x ∷ []) h = omega arith
length-pop_rest (x ∷ y ∷ xs) h = omega (arith, length-pop_rest (y ∷ xs) (omega arith))

-- The bins after bin `i` gave its last sequence to a new bin at the end.
abbrev pub split_off : ℕ → List (List ℕ) → List (List ℕ)
split_off i front =
    set front i (pop_rest (get_or front i [])) ++ (popped (get_or front i []) ∷ []) ∷ []

pub move_last-split_off :
    (i : ℕ) (front tail : List (List ℕ))
    → i < length front
    → move_last i (length front) (front ++ [] ∷ tail) ≡ split_off i front ++ tail
unfolding move_last
move_last-split_off i front tail h =
    let b = get_or front i [] in
    let rest = set front i (pop_rest b) in
    let long : length rest ≡ length front = length-set front i (pop_rest b) in
    rw (
      get_or-append_left front ([] ∷ tail) i [] h,
      set-append_left front ([] ∷ tail) i (pop_rest b) h,
      ← long,
      get_or-append_middle rest tail [] [],
      set-append_middle rest tail [] (popped b ∷ []),
      append_assoc rest ((popped b ∷ []) ∷ []) tail,
    )

module _ (front : List (List ℕ)) where
  -- How many sequences the sources can still give away.
  abbrev pub surplus : List (ℕ × ℕ) → ℕ
  surplus = sum_by (λ e. length (get_or front e.1 []) - 1)

  abbrev pub AreSources : List (ℕ × ℕ) → Type 0
  AreSources = All (λ e. e.1 < length front)

abbrev pub uses : ℕ → List (ℕ × ℕ) → ℕ
uses i = sum_by (λ e. if e.1 == i then 1 else 0)

module _ (i : ℕ) (front : List (List ℕ)) (h : i < length front)
    (two : 1 < length (get_or front i [])) where
  pub surplus-split_off :
      (sources : List (ℕ × ℕ))
      → AreSources front sources
      → surplus (split_off i front) sources + uses i sources ≡ surplus front sources
  surplus-split_off [] k = omega arith
  surplus-split_off ((size, j) ∷ sources) k =
      let b = get_or front i [] in
      let rest = set front i (pop_rest b) in
      let long : length rest ≡ length front = length-set front i (pop_rest b) in
      ground (
        arith,
        k.0,
        surplus-split_off sources k.1,
        get_or-append_left rest ((popped b ∷ []) ∷ []) j [],
        get_or-set front i j (pop_rest b) [],
        length-pop_rest b,
        long,
      )

  pub sum_by-split_off :
      (w : ℕ → ℕ) → sum_by w (flatten (split_off i front)) ≡ sum_by w (flatten front)
  sum_by-split_off w =
      let b = get_or front i [] in
      omega (
        arith,
        sum_by-flatten w (split_off i front),
        sum_by-flatten w front,
        sum_by-append (sum_by w) (set front i (pop_rest b)) ((popped b ∷ []) ∷ []),
        sum_by-set (sum_by w) front i (pop_rest b) [] h,
        sum_by-popped w b (omega arith),
      )

  pub length-split_off : length (split_off i front) ≡ suc (length front)
  length-split_off = omega (
    arith,
    length-append (set front i (pop_rest (get_or front i [])))
        ((popped (get_or front i []) ∷ []) ∷ []),
    length-set front i (pop_rest (get_or front i [])),
  )

  -- A property of bins that a bin hands on to its parts.
  pub split_off-All :
      (P : List ℕ → Type 0)
      → ((b : List ℕ) → 1 < length b → P b → P (pop_rest b) × P (popped b ∷ []))
      → All P front
      → All P (split_off i front)
  split_off-All P parts k =
      let b = get_or front i [] in
      let (p, q) = parts b two (All-get_or P front i [] h k) in
      All-append P (set front i (pop_rest b)) _ (All-set P front i (pop_rest b) k p) (q, tt)
