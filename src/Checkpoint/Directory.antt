-- ===== src/Checkpoint/Directory.antt =====
-- The checkpoint directory of nemo_rl/utils/checkpoint.py as an association list: the names that the
-- manager gives to directories, and the training info that each holds. An info is read by the names
-- of metrics; what a metric is does not matter here.
use nemo_rl_submission.Prelude.{
  ℕ, ◌≡◌, refl, sym, ap, ◌∙◌, Bool, true, false, Option, none, some, List, [], ◌∷◌, ◌==◌, ==_iff,
  arith, Bool-cases, inl, inr, if◌then◌else◌, Result, ok, raise, os_error,
}
use nemo_rl_submission.Prelude.Text.{Text}

-- `step_n`, `tmp_step_n`, `old_step_n`.
pub data Name : Type 0 where
  step tmp_step old_step : ℕ → Name

unfoldable pub name_eq : Name → Name → Bool
name_eq (step m) (step n) = m == n
name_eq (tmp_step m) (tmp_step n) = m == n
name_eq (old_step m) (old_step n) = m == n
name_eq _ _ = false

-- What `training_info.json` holds, where there is one.
abbrev pub Info : Type 0 → Type 0
Info M = Option (Text → Option M)

abbrev pub Directory : Type 0 → Type 0
Directory M = List (Name × Info M)

module _ {M : Type 0} where
  -- The content of a directory.
  unfoldable pub entry : Name → Directory M → Option (Info M)
  unfolding name_eq
  entry x [] = none
  entry x ((n, c) ∷ d) = let rest = entry x d in if name_eq n x then some c else rest

  -- `path.exists()`.
  unfoldable pub exists : Name → Directory M → Bool
  unfolding entry
  exists x d = elim (entry x d) [ none ↦ false | some c ↦ true ]

  unfoldable pub renamed : Name → Name → Directory M → Directory M
  unfolding name_eq
  renamed a b [] = []
  renamed a b ((n, c) ∷ d) = let rest = renamed a b d in (if name_eq n a then b else n, c) ∷ rest

  -- `os.rename` of a directory. A target that exists is not empty.
  unfoldable pub rename : Name → Name → Directory M → Result (Directory M)
  unfolding exists renamed
  rename a b d =
      if exists b d
      then raise os_error
      else if exists a d
      then ok (renamed a b d)
      else raise os_error

  -- `shutil.rmtree`.
  unfoldable pub remove_tree : Name → Directory M → Directory M
  unfolding name_eq
  remove_tree x [] = []
  remove_tree x ((n, c) ∷ d) =
      let rest = remove_tree x d in if name_eq n x then rest else (n, c) ∷ rest

pub name_eq→eq : (a b : Name) → name_eq a b ≡ true → a ≡ b
unfolding name_eq
name_eq→eq (step m) (step n) h = ap step ((==_iff m n).0 h)
name_eq→eq (tmp_step m) (tmp_step n) h = ap tmp_step ((==_iff m n).0 h)
name_eq→eq (old_step m) (old_step n) h = ap old_step ((==_iff m n).0 h)
name_eq→eq (step m) (tmp_step n) h = ground (arith)
name_eq→eq (step m) (old_step n) h = ground (arith)
name_eq→eq (tmp_step m) (step n) h = ground (arith)
name_eq→eq (tmp_step m) (old_step n) h = ground (arith)
name_eq→eq (old_step m) (step n) h = ground (arith)
name_eq→eq (old_step m) (tmp_step n) h = ground (arith)

pub name_eq_refl : (a : Name) → name_eq a a ≡ true
unfolding name_eq
name_eq_refl (step n) = ground arith
name_eq_refl (tmp_step n) = ground arith
name_eq_refl (old_step n) = ground arith

pub name_eq_comm : (a b : Name) → name_eq a b ≡ name_eq b a
name_eq_comm a b = elim (Bool-cases (name_eq a b)) [
  | inl h ↦ rw (name_eq→eq a b h) refl
  | inr h ↦ elim (Bool-cases (name_eq b a)) [
    | inl k ↦ rw (name_eq→eq b a k) refl
    | inr k ↦ rw (h, k) refl
  ]
]

none-ne-some : {A : Type 0} {x : A} → ¬ (some x ≡ none)
none-ne-some h = cc

module _ {M : Type 0} where
  pub entry-remove_tree :
      (x y : Name) (d : Directory M)
      → entry y (remove_tree x d) ≡ (if name_eq x y then none else entry y d)
  unfolding entry remove_tree
  entry-remove_tree x y [] = ground arith
  entry-remove_tree x y ((n, c) ∷ d) = elim (Bool-cases (name_eq n x)) [
    | inl h ↦ let same = name_eq→eq n x h in rw (h, entry-remove_tree x y d, same) (ground arith)
    | inr h ↦ elim (Bool-cases (name_eq x y)) [
      | inr k ↦ rw (h, entry-remove_tree x y d, k) refl
      | inl k ↦
          let same = name_eq→eq x y k in
          let apart : name_eq n y ≡ false = rw same at h in
          rw (h, entry-remove_tree x y d, k, apart) refl
    ]
  ]

  pub entry-renamed :
      (a b x : Name) (d : Directory M)
      → entry b d ≡ none
      → entry x (renamed a b d)
        ≡ (if name_eq b x then entry a d else if name_eq a x then none else entry x d)
  unfolding entry renamed
  entry-renamed a b x [] h = ground arith
  entry-renamed a b x ((n, c) ∷ d) h = elim (Bool-cases (name_eq n b)) [
    | inl taken ↦ absurd (none-ne-some (rw taken at h))
    | inr free ↦
        let rest = entry-renamed a b x d (rw free at h) in
        elim (Bool-cases (name_eq n a)) [
          | inl from ↦ rw (from, rest, name_eq→eq n a from) (ground arith)
          | inr other ↦ elim (Bool-cases (name_eq n x)) [
            | inl here ↦
                let same = sym (name_eq→eq n x here) in
                let not_b : name_eq b x ≡ false = ap (name_eq b) same ∙ name_eq_comm b n ∙ free in
                let not_a : name_eq a x ≡ false = ap (name_eq a) same ∙ name_eq_comm a n ∙ other in
                rw (other, here, not_b, not_a) refl
            | inr there ↦ rw (other, rest, there) refl
          ]
        ]
  ]
