-- ===== src/Timing/Dict.antt =====
-- Dictionaries with texts for keys: a key has one place, and keeps it when its value is replaced.
use nemo_rl_submission.Prelude.{
  ◌≡◌, refl, Option, none, some, List, [], ◌∷◌, Bool-cases, inl, inr, if◌then◌else◌, arith,
}
use nemo_rl_submission.Prelude.Text.{Text, text_eq, text_eq→eq, text_eq_refl}

abbrev pub Dict {ℓ} : Type ℓ → Type ℓ
Dict V = List (Text × V)

module _ {V : Type 0} where
  unfoldable pub lookup : Dict V → Text → Option V
  lookup [] key = none
  lookup ((k, v) ∷ d) key = if text_eq k key then some v else lookup d key

  unfoldable pub put : Dict V → Text → V → Dict V
  put [] key value = (key, value) ∷ []
  put ((k, v) ∷ d) key value =
      let rest = put d key value in if text_eq k key then (k, value) ∷ d else (k, v) ∷ rest

  -- Every entry of the key, of which there is one at most.
  unfoldable pub delete : Dict V → Text → Dict V
  delete [] key = []
  delete ((k, v) ∷ d) key = let rest = delete d key in if text_eq k key then rest else (k, v) ∷ rest

  pub lookup-put :
      (d : Dict V) (key other : Text) (value : V)
      → lookup (put d key value) other ≡ (if text_eq key other then some value else lookup d other)
  unfolding lookup put
  lookup-put [] key other value = refl
  lookup-put ((k, v) ∷ d) key other value = ground (
    arith,
    lookup-put d key other value,
    text_eq→eq k key,
    text_eq→eq key other,
    text_eq→eq k other,
    text_eq_refl k,
  )

  pub lookup-delete :
      (d : Dict V) (key other : Text)
      → lookup (delete d key) other ≡ (if text_eq key other then none else lookup d other)
  unfolding lookup delete
  lookup-delete [] key other = ground arith
  lookup-delete ((k, v) ∷ d) key other = ground (
    arith,
    lookup-delete d key other,
    text_eq→eq k key,
    text_eq→eq key other,
    text_eq→eq k other,
    text_eq_refl k,
  )

  -- No key has two entries.
  abbrev pub IsDict : Dict V → Type 0
  IsDict [] = Unit
  IsDict ((k, v) ∷ d) = (lookup d k ≡ none) × IsDict d

  pub put-IsDict : (d : Dict V) (key : Text) (value : V) → IsDict d → IsDict (put d key value)
  unfolding lookup put
  put-IsDict [] key value h = (refl, tt)
  put-IsDict ((k, v) ∷ d) key value h = elim (Bool-cases (text_eq k key)) [
    | inl same ↦ rw same h
    | inr other ↦ rw other (
      ground (arith, lookup-put d key k value, h.0, other, text_eq→eq key k, text_eq_refl k),
      put-IsDict d key value h.1,
    )
  ]

  pub delete-IsDict : (d : Dict V) (key : Text) → IsDict d → IsDict (delete d key)
  unfolding lookup delete
  delete-IsDict [] key h = tt
  delete-IsDict ((k, v) ∷ d) key h = elim (Bool-cases (text_eq k key)) [
    | inl same ↦ rw same (delete-IsDict d key h.1)
    | inr other ↦ rw other (ground (arith, lookup-delete d key k, h.0), delete-IsDict d key h.1)
  ]
