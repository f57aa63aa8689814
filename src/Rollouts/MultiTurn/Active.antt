-- ===== src/Rollouts/MultiTurn/Active.antt =====
-- nemo_rl/experience/rollouts.py: the active samples of a batch, read and written back.
use nemo_rl_submission.Prelude.{
  ℕ, suc, ◌≡◌, refl, ◌∙◌, ap, Bool, false, List, [], ◌∷◌, ◌++◌, map, if◌then◌else◌, length, item_at,
  pick, set-append_middle, append_snoc, append_assoc, All, Bool-cases, inl, inr,
}
use nemo_rl_submission.Rollouts.MultiTurn.{write_at, still_active}

module _ {A : Type 0} (done : A → Bool) where
  -- The places of the items that are not done.
  abbrev pub active_from : ℕ → List A → List ℕ
  active_from i [] = []
  active_from i (x ∷ xs) = let rest = active_from (suc i) xs in if done x then rest else i ∷ rest

  abbrev pub live : List A → List A
  live [] = []
  live (x ∷ xs) = let rest = live xs in if done x then rest else x ∷ rest

  item_at-middle : (pre xs : List A) (x : A) → item_at (length pre) (pre ++ x ∷ xs) ≡ x ∷ []
  item_at-middle [] xs x = refl
  item_at-middle (p ∷ pre) xs x = item_at-middle pre xs x

  pub pick-active : (pre xs : List A) → pick (pre ++ xs) (active_from (length pre) xs) ≡ live xs
  pick-active pre [] = refl
  pick-active pre (x ∷ xs) =
      let rest : pick (pre ++ x ∷ xs) (active_from (suc (length pre)) xs) ≡ live xs =
        append_snoc (λ l n. pick l (active_from n xs) ≡ live xs) pre x xs
          (pick-active (pre ++ x ∷ []) xs) in
      elim (Bool-cases (done x)) [
        | inl over ↦ rw over rest
        | inr going ↦ rw (going, item_at-middle pre xs x) (ap (x ∷◌) rest)
      ]

  -- Writing back what a function makes of the active items changes exactly these.
  pub write_at-active :
      (f : A → A) (pre xs : List A)
      → write_at (pre ++ xs) (active_from (length pre) xs) (map f (live xs))
        ≡ pre ++ map (λ x. if done x then x else f x) xs
  unfolding write_at
  write_at-active f pre [] = refl
  write_at-active f pre (x ∷ xs) = elim (Bool-cases (done x)) [
    | inl over ↦ rw over (
        append_snoc
          (λ l n.
            write_at l (active_from n xs) (map f (live xs))
            ≡ pre ++ x ∷ map (λ x. if done x then x else f x) xs)
          pre x xs (write_at-active f (pre ++ x ∷ []) xs ∙ append_assoc pre (x ∷ []) _))
    | inr going ↦
        rw (going, set-append_middle pre xs x (f x))
          (append_snoc
            (λ l n.
              write_at l (active_from n xs) (map f (live xs))
              ≡ pre ++ f x ∷ map (λ x. if done x then x else f x) xs)
            pre (f x) xs (write_at-active f (pre ++ f x ∷ []) xs ∙ append_assoc pre (f x ∷ []) _))
  ]

  pub still_active-active :
      (f : A → A) (i : ℕ) (xs : List A)
      → still_active (active_from i xs) (map (λ x. done (f x)) (live xs))
        ≡ active_from i (map (λ x. if done x then x else f x) xs)
  unfolding still_active
  still_active-active f i [] = refl
  still_active-active f i (x ∷ xs) = elim (Bool-cases (done x)) [
    | inl over ↦ rw (over, over) (still_active-active f (suc i) xs)
    | inr going ↦ elim (Bool-cases (done (f x))) [
      | inl ended ↦ rw (going, ended) (still_active-active f (suc i) xs)
      | inr goes ↦ rw (going, goes) (ap (i ∷◌) (still_active-active f (suc i) xs))
    ]
  ]

  pub live-All :
      (P : A → Type 0) (xs : List A) → All P xs → All (λ x. P x × (done x ≡ false)) (live xs)
  live-All P [] h = tt
  live-All P (x ∷ xs) h = elim (Bool-cases (done x)) [
    | inl over ↦ rw over (live-All P xs h.1)
    | inr going ↦ rw going ((h.0, going), live-All P xs h.1)
  ]
