-- ===== src/Packing/FirstFit/Laws.antt =====
-- First fit over bins alone: the remaining capacities say nothing that the bins do not. From it,
-- that first fit makes a packing, in whatever order the sequences come.
use mathlib.Core.Option
use nemo_rl_submission.Prelude.{
  ℕ, zero, suc, ◌+◌, ◌-◌, ◌≤◌, ◌<◌, ◌≡◌, refl, true, none, some, List, [], ◌∷◌, ◌++◌, map, flatten,
  arith, Bool-cases, Option-cases, length-append, inl, inr, leb, if◌then◌else◌, length, get_or, set,
  All, sum_by, sum_by-append, ok,
}
use nemo_rl_submission.Packing.Packer.{load, is_entry}
use nemo_rl_submission.Packing.FirstFit.{Bins, find_fit, place, place_all}

find_fit-suc : (l i : ℕ) (rs : List ℕ) → find_fit l (suc i) rs ≡ Option.map suc (find_fit l i rs)
unfolding find_fit
find_fit-suc l i [] = refl
find_fit-suc l i (r ∷ rs) = ground (arith, find_fit-suc l (suc i) rs)

module _ (capacity : ℕ) (lens : List ℕ) where
  -- The capacity that each bin has left.
  abbrev pub rooms : List (List ℕ) → List ℕ
  rooms bins = map (λ b. capacity - load lens b) bins

  -- Puts a sequence into the first bin with room, or into a new one.
  unfoldable pub put : ℕ × ℕ → List (List ℕ) → List (List ℕ)
  put (l, idx) [] = (idx ∷ []) ∷ []
  put (l, idx) (b ∷ bins) =
      if leb l (capacity - load lens b) then (b ++ idx ∷ []) ∷ bins else b ∷ put (l, idx) bins

  module _ (l idx : ℕ) (known : get_or lens idx 0 ≡ l) where
    put-none :
        (bins : List (List ℕ))
        → find_fit l 0 (rooms bins) ≡ none
        → (put (l, idx) bins ≡ bins ++ (idx ∷ []) ∷ [])
          × (rooms (put (l, idx) bins) ≡ rooms bins ++ (capacity - l) ∷ [])
    unfolding put find_fit
    put-none [] e = (refl, ground (arith, known))
    put-none (b ∷ bins) e = ground (arith, find_fit-suc l 0 (rooms bins), put-none bins)

    put-some :
        (bins : List (List ℕ)) (i : ℕ)
        → find_fit l 0 (rooms bins) ≡ some i
        → (put (l, idx) bins ≡ set bins i (get_or bins i [] ++ idx ∷ []))
          × (rooms (put (l, idx) bins) ≡ set (rooms bins) i (get_or (rooms bins) i 0 - l))
    unfolding put find_fit
    put-some [] i e = cc
    put-some (b ∷ bins) zero e = ground (
      arith,
      find_fit-suc l 0 (rooms bins),
      known,
      sum_by-append (λ i. get_or lens i 0) b (idx ∷ []),
    )
    put-some (b ∷ bins) (suc i) e = ground (arith, find_fit-suc l 0 (rooms bins), put-some bins i)

    put-place :
        (s : Bins)
        → s.bin_remaining ≡ rooms s.bins
        → l ≤ capacity
        → place capacity (l, idx) s
          ≡ ok (record { bins = put (l, idx) s.bins; bin_remaining = rooms (put (l, idx) s.bins) })
    unfolding place
    put-place s same h = elim (Option-cases (find_fit l 0 (rooms s.bins))) [
      | inl e ↦ ground (arith, put-none s.bins)
      | inr (i, e) ↦ ground (arith, put-some s.bins i)
    ]

    sum_by-put :
        (w : ℕ → ℕ) (bins : List (List ℕ))
        → sum_by w (flatten (put (l, idx) bins)) ≡ w idx + sum_by w (flatten bins)
    unfolding put flatten
    sum_by-put w [] = refl
    sum_by-put w (b ∷ bins) = ground (
      arith,
      sum_by-put w bins,
      sum_by-append w (b ++ idx ∷ []) (flatten bins),
      sum_by-append w b (idx ∷ []),
      sum_by-append w b (flatten bins),
      sum_by-append w b (flatten (put (l, idx) bins)),
    )

    pub put-fits :
        (bins : List (List ℕ))
        → l ≤ capacity
        → All (λ b. load lens b ≤ capacity) bins
        → All (λ b. load lens b ≤ capacity) (put (l, idx) bins)
    unfolding put
    put-fits [] h k = (omega (arith, known), tt)
    put-fits (b ∷ bins) h k = elim (Bool-cases (leb l (capacity - load lens b))) [
      | inl fit ↦
          rw (fit, put)
            (ground (arith, known, k.0, sum_by-append (λ i. get_or lens i 0) b (idx ∷ [])), k.1)
      | inr full ↦ rw (full, put) (k.0, put-fits bins h k.1)
    ]

    pub put-filled :
        (bins : List (List ℕ))
        → All (λ b. 0 < length b) bins
        → All (λ b. 0 < length b) (put (l, idx) bins)
    unfolding put
    put-filled [] k = (omega arith, tt)
    put-filled (b ∷ bins) k = elim (Bool-cases (leb l (capacity - load lens b))) [
      | inl fit ↦ rw (fit, put) (omega (arith, length-append b (idx ∷ [])), k.1)
      | inr full ↦ rw (full, put) (k.0, put-filled bins k.1)
    ]

  unfoldable pub put_all : List (ℕ × ℕ) → List (List ℕ) → List (List ℕ)
  put_all [] bins = bins
  put_all (e ∷ es) bins = put_all es (put e bins)

  abbrev pub AreEntries : List (ℕ × ℕ) → Type 0
  AreEntries = All (λ e. is_entry capacity lens e ≡ true)

  pub is_entry-known :
      (l i : ℕ) → is_entry capacity lens (l, i) ≡ true → (get_or lens i 0 ≡ l) × (l ≤ capacity)
  is_entry-known l i h = ground arith

  pub place_all-put_all :
      (es : List (ℕ × ℕ)) (s : Bins)
      → AreEntries es
      → s.bin_remaining ≡ rooms s.bins
      → place_all capacity es s
        ≡ ok (record { bins = put_all es s.bins; bin_remaining = rooms (put_all es s.bins) })
  unfolding place_all put_all
  place_all-put_all [] s k same = ground arith
  place_all-put_all ((l, i) ∷ es) s k same =
      let (known, h) = is_entry-known l i k.0 in
      rw (put-place l i known s same h) (place_all-put_all es _ k.1 refl)

  pub sum_by-put_all :
      (w : ℕ → ℕ) (es : List (ℕ × ℕ)) (bins : List (List ℕ))
      → AreEntries es
      → sum_by w (flatten (put_all es bins)) ≡ sum_by (λ e. w e.1) es + sum_by w (flatten bins)
  unfolding put_all
  sum_by-put_all w [] bins k = omega arith
  sum_by-put_all w ((l, i) ∷ es) bins k =
      let (known, h) = is_entry-known l i k.0 in
      omega (arith, sum_by-put_all w es (put (l, i) bins) k.1, sum_by-put l i known w bins)

  -- What `put` keeps, `put_all` keeps.
  pub put_all_inv :
      (P : List (List ℕ) → Type 0)
      → ((l i : ℕ) (bins : List (List ℕ))
          → get_or lens i 0 ≡ l
          → l ≤ capacity
          → P bins
          → P (put (l, i) bins))
      → (es : List (ℕ × ℕ)) (bins : List (List ℕ)) → AreEntries es
      → P bins
      → P (put_all es bins)
  unfolding put_all
  put_all_inv P keep [] bins k h = h
  put_all_inv P keep ((l, i) ∷ es) bins k h =
      let (known, fit) = is_entry-known l i k.0 in
      put_all_inv P keep es _ k.1 (keep l i bins known fit h)
