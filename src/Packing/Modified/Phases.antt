-- ===== src/Packing/Modified/Phases.antt =====
-- What every phase keeps: no item is lost or made, and no bin is filled over its capacity.
use nemo_rl_submission.Prelude.{
  ℕ, zero, suc, ◌+◌, ◌-◌, ◌*◌, ◌≤◌, ◌<◌, ◌≡◌, refl, ◌∙◌, true, Bool-cases, inl, inr, ◌&&◌, ◌||◌,
  Option, none, some, List, [], ◌∷◌, ◌++◌, ltb, leb, leb→le, ◌≢◌, length, length-append, any, All,
  sum_by, sum_by-append, arith,
}
use nemo_rl_submission.Packing.Modified.{
  Item, size_of, pop_first_fit, pop_last_fit, add_medium, add_pair, last_size, fill_bin, forward,
  backward,
}

-- What a popped item and the list that it leaves add up to.
record IsPopped (room : ℕ) (items : List Item) (e : Item) (rest : List Item) : Type 0 where
  fits : e.1 ≤ room
  same : (w : Item → ℕ) → w e + sum_by w rest ≡ sum_by w items
  shorter : length rest + 1 ≡ length items

-- A pop finds nothing, or an item that fits.
data PopCase (room : ℕ) (items : List Item) (r : Option (Item × List Item)) : Type 0 where
  nothing : r ≡ none → PopCase room items r
  something :
      (e : Item) (rest : List Item)
      → r ≡ some (e, rest)
      → IsPopped room items e rest
      → PopCase room items r

IsPopped-head :
    (room : ℕ) (x : Item) (xs : List Item) → leb x.1 room ≡ true → IsPopped room (x ∷ xs) x xs
IsPopped-head room x xs h = record {
  fits = leb→le x.1 room h;
  same = λ w. refl;
  shorter = omega arith;
}

IsPopped-cons :
    (room : ℕ) (x : Item) (xs : List Item) (e : Item) (rest : List Item)
    → IsPopped room xs e rest
    → IsPopped room (x ∷ xs) e (x ∷ rest)
IsPopped-cons room x xs e rest p = record {
  fits = p.fits;
  same = λ w. omega (arith, p.same w);
  shorter = omega (arith, p.shorter);
}

pop_first_fit_cases : (room : ℕ) (items : List Item) → PopCase room items (pop_first_fit room items)
unfolding pop_first_fit
pop_first_fit_cases room [] = nothing refl
pop_first_fit_cases room (x ∷ xs) = elim (Bool-cases (leb x.1 room)) [
  | inl h ↦ something x xs (rw h) (IsPopped-head room x xs h)
  | inr h ↦ elim (pop_first_fit_cases room xs) [
    | nothing e ↦ nothing (rw (h, e))
    | something y rest e p ↦ something y (x ∷ rest) (rw (h, e)) (IsPopped-cons room x xs y rest p)
  ]
]

pop_last_fit_cases : (room : ℕ) (items : List Item) → PopCase room items (pop_last_fit room items)
unfolding pop_last_fit
pop_last_fit_cases room [] = nothing refl
pop_last_fit_cases room (x ∷ xs) = elim (pop_last_fit_cases room xs) [
  | nothing e ↦ elim (Bool-cases (leb x.1 room)) [
    | inl h ↦ something x xs (rw (e, h)) (IsPopped-head room x xs h)
    | inr h ↦ nothing (rw (e, h))
  ]
  | something y rest e p ↦ something y (x ∷ rest) (rw e) (IsPopped-cons room x xs y rest p)
]

-- If the head fits, the pop from the end finds an item.
pop_last_fit-ne_none :
    (room : ℕ) (x : Item) (xs : List Item) → x.1 ≤ room → pop_last_fit room (x ∷ xs) ≢ none
unfolding pop_last_fit
pop_last_fit-ne_none room x xs h = ground arith

module _ (capacity : ℕ) where
  abbrev pub IsBin : List Item → Type 0
  IsBin b = (size_of b ≤ capacity) × (0 < length b)

  -- A step moves items between a bin and a list, and the bin stays within its capacity.
  pub record Keeps (b items : List Item) (after : List Item × List Item) : Type 0 where
    pub same : (w : Item → ℕ) → sum_by w after.0 + sum_by w after.1 ≡ sum_by w b + sum_by w items
    pub good : IsBin b → IsBin after.0

  Keeps-same : (b items : List Item) → Keeps b items (b, items)
  Keeps-same b items = record { same = λ w. refl; good = λ h. h }

  Keeps-append :
      (b items : List Item) (e : Item) (rest : List Item)
      → IsPopped (capacity - size_of b) items e rest
      → Keeps b items (b ++ e ∷ [], rest)
  Keeps-append b items e rest p = record {
    same = λ w. omega (arith, p.same w, sum_by-append w b (e ∷ []));
    good = λ h. (
      omega (arith, h.0, p.fits, sum_by-append (λ e. e.1) b (e ∷ [])),
      omega (arith, length-append b (e ∷ [])),
    );
  }

  Keeps-trans :
      (b items b' items' : List Item) (r : List Item × List Item)
      → Keeps b items (b', items')
      → Keeps b' items' r
      → Keeps b items r
  Keeps-trans b items b' items' r p q = record {
    same = λ w. q.same w ∙ p.same w;
    good = λ h. q.good (p.good h);
  }

  pub add_medium-Keeps : (b items : List Item) → Keeps b items (add_medium capacity b items)
  unfolding add_medium
  add_medium-Keeps b items = elim (pop_first_fit_cases (capacity - size_of b) items) [
    | nothing e ↦ rw (e, add_medium) (Keeps-same b items)
    | something x rest e p ↦ rw (e, add_medium) (Keeps-append b items x rest p)
  ]

  -- The popped first item always finds a second one: the item behind it fits.
  pub add_pair-Keeps : (b items : List Item) → Keeps b items (add_pair capacity b items)
  unfolding add_pair
  add_pair-Keeps b [] = Keeps-same b []
  add_pair-Keeps b (x ∷ []) = Keeps-same b (x ∷ [])
  add_pair-Keeps b (x ∷ y ∷ small) =
      let has_medium = any (λ (e : Item). ltb capacity (3 * e.1) && leb (2 * e.1) capacity) b in
      let remaining = capacity - size_of b in
      elim (Bool-cases (has_medium || ltb remaining (x.1 + y.1))) [
        | inl stop ↦ rw stop (Keeps-same b (x ∷ y ∷ small))
        | inr go ↦ elim (pop_last_fit_cases (remaining - x.1) (y ∷ small)) [
          | nothing e ↦ absurd (pop_last_fit-ne_none (remaining - x.1) y small (ground arith) e)
          | something z rest e p ↦
              rw (go, e)
                (record {
                  same = λ w. omega (arith, p.same w, sum_by-append w b (x ∷ z ∷ []));
                  good = λ h. (
                    ground (arith, h.0, p.fits, sum_by-append (λ e. e.1) b (x ∷ z ∷ [])),
                    omega (arith, length-append b (x ∷ z ∷ [])),
                  );
                })
        ]
      ]

  pub fill_bin-Keeps :
      (fuel : ℕ) (b items : List Item) → Keeps b items (fill_bin fuel capacity b items)
  unfolding fill_bin
  fill_bin-Keeps zero b items = Keeps-same b items
  fill_bin-Keeps (suc fuel) b [] = Keeps-same b []
  fill_bin-Keeps (suc fuel) b (x ∷ xs) =
      elim (Bool-cases (ltb (capacity - size_of b) (last_size x xs))) [
        | inl stop ↦ rw stop (Keeps-same b (x ∷ xs))
        | inr go ↦ elim (pop_first_fit_cases (capacity - size_of b) (x ∷ xs)) [
          | nothing e ↦ rw (go, e) (Keeps-same b (x ∷ xs))
          | something y rest e p ↦
              rw (go, e)
                (Keeps-trans b (x ∷ xs) (b ++ y ∷ []) rest _ (Keeps-append b (x ∷ xs) y rest p)
                  (fill_bin-Keeps fuel (b ++ y ∷ []) rest))
        ]
      ]

  -- The same of a pass over all bins.
  pub record KeepsAll (bins : List (List Item)) (items : List Item)
      (after : List (List Item) × List Item) : Type 0 where
    pub same :
        (w : Item → ℕ)
        → sum_by (sum_by w) after.0 + sum_by w after.1 ≡ sum_by (sum_by w) bins + sum_by w items
    pub good : All IsBin bins → All IsBin after.0

  module _ (step : List Item → List Item → List Item × List Item)
      (keeps : (b items : List Item) → Keeps b items (step b items)) where
    pub forward-KeepsAll :
        (bins : List (List Item)) (items : List Item)
        → KeepsAll bins items (forward step bins items)
    unfolding forward
    forward-KeepsAll [] items = record { same = λ w. refl; good = λ h. h }
    forward-KeepsAll (b ∷ bins) items =
        let k = keeps b items in
        let rest = forward-KeepsAll bins (step b items).1 in
        record {
          same = λ w. omega (arith, k.same w, rest.same w);
          good = λ h. (k.good h.0, rest.good h.1);
        }

    pub backward-KeepsAll :
        (bins : List (List Item)) (items : List Item)
        → KeepsAll bins items (backward step bins items)
    unfolding backward
    backward-KeepsAll [] items = record { same = λ w. refl; good = λ h. h }
    backward-KeepsAll (b ∷ bins) items =
        let rest = backward-KeepsAll bins items in
        let k = keeps b (backward step bins items).1 in
        record {
          same = λ w. omega (arith, k.same w, rest.same w);
          good = λ h. (k.good h.0, rest.good h.1);
        }
