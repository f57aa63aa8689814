-- ===== src/Transfer/Broadcast/Chunks.antt =====
-- How the producer and the consumer cut the same sequence of tensors, whatever buffers they use.
use mathlib.Core.Path.{subst}
use nemo_rl_submission.Prelude.{
  ℕ, zero, suc, ◌+◌, ◌≤◌, ◌<◌, ◌≡◌, ◌≢◌, refl, sym, ap, ◌∙◌, Bool, true, false, List, [], ◌∷◌, ◌++◌,
  flatten, append-nil, ◌⊎◌, arith, ltb, if◌then◌else◌, length, get_or, set, Bool-cases, inl, inr,
}

module _ {ℓ} {A : Type ℓ} where
  pub set-set : (xs : List A) (i : ℕ) (a b : A) → set (set xs i a) i b ≡ set xs i b
  set-set [] i a b = refl
  set-set (x ∷ xs) zero a b = refl
  set-set (x ∷ xs) (suc i) a b = ap (◌∷◌ x) (set-set xs i a b)

  pub get_or-set_same :
      (xs : List A) (i : ℕ) (a d : A) → i < length xs → get_or (set xs i a) i d ≡ a
  get_or-set_same [] i a d h = absurd (omega arith)
  get_or-set_same (x ∷ xs) zero a d h = refl
  get_or-set_same (x ∷ xs) (suc i) a d h = get_or-set_same xs i a d (omega arith)

module _ {Item : Type 0} (target : ℕ) (size : Item → ℕ) where
  abbrev pub total : List Item → ℕ
  total [] = 0
  total (x ∷ xs) = size x + total xs

  -- The items up to the first that takes the sum past the target, those behind it, and whether there
  -- was none.
  abbrev pub first_chunk : ℕ → List Item → List Item × List Item × Bool
  first_chunk sum [] = ([], [], true)
  first_chunk sum (x ∷ xs) =
      let rest = first_chunk (sum + size x) xs in
      if ltb target (sum + size x) then (x ∷ [], xs, false) else (x ∷ rest.0, rest.1, rest.2)

  abbrev pub nonempty : List Item → List (List Item)
  nonempty [] = []
  nonempty (x ∷ xs) = (x ∷ xs) ∷ []

  abbrev pub chunks : ℕ → List Item → List (List Item)
  chunks zero items = []
  chunks (suc fuel) items =
      let cut = first_chunk 0 items in
      let later = chunks fuel cut.1 in elim cut.2 [ true ↦ nonempty cut.0 | false ↦ cut.0 ∷ later ]

  pub first_chunk-append :
      (sum : ℕ) (items : List Item) → (first_chunk sum items).0 ++ (first_chunk sum items).1 ≡ items
  first_chunk-append sum [] = refl
  first_chunk-append sum (x ∷ xs) = elim (Bool-cases (ltb target (sum + size x))) [
    | inl past ↦ rw past refl
    | inr within ↦ rw within (ap (◌∷◌ x) (first_chunk-append (sum + size x) xs))
  ]

  -- Whether the items ran out, and how many are left if they did not.
  pub first_chunk-rest :
      (sum : ℕ) (items : List Item)
      → ((first_chunk sum items).2 ≡ true × ((first_chunk sum items).1 ≡ []))
        ⊎ (((first_chunk sum items).2 ≡ false) × (length (first_chunk sum items).1 < length items))
  first_chunk-rest sum [] = inl (refl, refl)
  first_chunk-rest sum (x ∷ xs) = elim (Bool-cases (ltb target (sum + size x))) [
    | inl past ↦ rw past (inr (refl, omega arith))
    | inr within ↦ rw within (elim (first_chunk-rest (sum + size x) xs) [
      | inl done ↦ inl done
      | inr (more, less) ↦ inr (more, omega (arith, less))
    ])
  ]

  pub first_chunk-within :
      (sum : ℕ) (x : Item) (xs : List Item)
      → ltb target (sum + size x) ≡ false
      → let rest = first_chunk (sum + size x) xs in
        first_chunk sum (x ∷ xs) ≡ (x ∷ rest.0, rest.1, rest.2)
  first_chunk-within sum x xs h = rw h refl

  pub first_chunk-over :
      (sum : ℕ) (x : Item) (xs : List Item)
      → ltb target (sum + size x) ≡ true
      → first_chunk sum (x ∷ xs) ≡ (x ∷ [], xs, false)
  first_chunk-over sum x xs h = rw h refl

  pub chunks-done :
      (fuel : ℕ) (items : List Item)
      → (first_chunk 0 items).2 ≡ true
      → chunks (suc fuel) items ≡ nonempty (first_chunk 0 items).0
  chunks-done fuel items h = rw (chunks, h) refl

  pub chunks-more :
      (fuel : ℕ) (items : List Item)
      → (first_chunk 0 items).2 ≡ false
      → chunks (suc fuel) items ≡ (first_chunk 0 items).0 ∷ chunks fuel (first_chunk 0 items).1
  chunks-more fuel items h = rw (chunks, h) refl

  nonempty-flatten : (xs : List Item) → flatten (nonempty xs) ≡ xs
  unfolding flatten
  nonempty-flatten [] = refl
  nonempty-flatten (x ∷ xs) = append-nil (x ∷ xs)

  -- The chunks are the items, with enough fuel.
  pub chunks-flatten :
      (fuel : ℕ) (items : List Item) → length items < fuel → flatten (chunks fuel items) ≡ items
  unfolding flatten
  chunks-flatten zero items h = absurd (omega arith)
  chunks-flatten (suc fuel) items h = elim (first_chunk-rest 0 items) [
    | inl (done, none_left) ↦
        ap flatten (chunks-done fuel items done)
        ∙ (nonempty-flatten (first_chunk 0 items).0
            ∙ (sym (append-nil (first_chunk 0 items).0)
                ∙ subst (λ r. (first_chunk 0 items).0 ++ r ≡ items) none_left
                    (first_chunk-append 0 items)))
    | inr (more, less) ↦
        ap flatten (chunks-more fuel items more)
        ∙ (ap (λ l. (first_chunk 0 items).0 ++ l)
              (chunks-flatten fuel (first_chunk 0 items).1 (omega (arith, less)))
            ∙ first_chunk-append 0 items)
  ]

  -- All but the last item stay within the target.
  abbrev pub IsWithinTarget : ℕ → List Item → Type 0
  IsWithinTarget sum [] = Unit
  IsWithinTarget sum (x ∷ []) = sum ≤ target
  IsWithinTarget sum (x ∷ y ∷ xs) = IsWithinTarget (sum + size x) (y ∷ xs)

  -- Chunks that are cut where the sum first passes the target.
  abbrev pub IsCut : List (List Item) → Type 0
  IsCut [] = Unit
  IsCut (c ∷ []) = (c ≢ []) × IsWithinTarget 0 c
  IsCut (c ∷ d ∷ cs) = (target < total c) × IsWithinTarget 0 c × IsCut (d ∷ cs)

  IsWithinTarget-cons :
      (sum : ℕ) (x : Item) (xs : List Item)
      → sum ≤ target
      → (ltb target (sum + size x) ≡ false → IsWithinTarget (sum + size x) xs)
      → ltb target (sum + size x) ≡ false
      → IsWithinTarget sum (x ∷ xs)
  IsWithinTarget-cons sum x [] h more within = h
  IsWithinTarget-cons sum x (y ∷ ys) h more within = more within

  first_chunk-IsWithinTarget :
      (sum : ℕ) (items : List Item) → sum ≤ target → IsWithinTarget sum (first_chunk sum items).0
  first_chunk-IsWithinTarget sum [] h = tt
  first_chunk-IsWithinTarget sum (x ∷ xs) h = elim (Bool-cases (ltb target (sum + size x))) [
    | inl past ↦ rw past h
    | inr within ↦ rw within (
        IsWithinTarget-cons sum x (first_chunk (sum + size x) xs).0 h
          (λ w. first_chunk-IsWithinTarget (sum + size x) xs (ground (arith, w))) within)
  ]

  first_chunk-past :
      (sum : ℕ) (items : List Item)
      → (first_chunk sum items).2 ≡ false
      → target < sum + total (first_chunk sum items).0
  first_chunk-past sum [] h = cc
  first_chunk-past sum (x ∷ xs) h = elim (Bool-cases (ltb target (sum + size x))) [
    | inl past ↦ rw past (ground (arith, past))
    | inr within ↦
        let same = first_chunk-within sum x xs within in
        let later = first_chunk-past (sum + size x) xs (sym (ap (λ c. c.2) same) ∙ h) in
        subst (λ c. target < sum + total c.0) (sym same) (omega (arith, later))
  ]

  IsCut-cons :
      (c : List Item) (cs : List (List Item))
      → target < total c
      → IsWithinTarget 0 c
      → IsCut cs
      → IsCut (c ∷ cs)
  IsCut-cons [] [] past within cut = absurd (omega arith)
  IsCut-cons (x ∷ xs) [] past within cut = ((λ e. cc), within)
  IsCut-cons c (d ∷ ds) past within cut = (past, within, cut)

  nonempty-IsCut : (c : List Item) → IsWithinTarget 0 c → IsCut (nonempty c)
  nonempty-IsCut [] within = tt
  nonempty-IsCut (x ∷ xs) within = ((λ e. cc), within)

  pub chunks-IsCut : (fuel : ℕ) (items : List Item) → IsCut (chunks fuel items)
  chunks-IsCut zero items = tt
  chunks-IsCut (suc fuel) items =
      let within = first_chunk-IsWithinTarget 0 items (omega arith) in
      elim (first_chunk-rest 0 items) [
        | inl (done, _) ↦
            subst IsCut (sym (chunks-done fuel items done))
              (nonempty-IsCut (first_chunk 0 items).0 within)
        | inr (more, _) ↦ subst IsCut (sym (chunks-more fuel items more)) (
            IsCut-cons (first_chunk 0 items).0 (chunks fuel (first_chunk 0 items).1)
              (omega (arith, first_chunk-past 0 items more)) within
              (chunks-IsCut fuel (first_chunk 0 items).1))
      ]
