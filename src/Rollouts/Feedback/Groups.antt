-- ===== src/Rollouts/Feedback/Groups.antt =====
-- The groups of samples by task, and reading a list by places.
use mathlib.Core.Path.{subst}
use nemo_rl_submission.Prelude.{
  ℕ, zero, suc, ◌+◌, ◌≡◌, refl, sym, ap, List, [], ◌∷◌, ◌++◌, map, flatten, arith, length,
  enumerate_from, zip, All, All-append, append_snoc, range_from, sum_by, sum_by-append, Bool-cases,
  inl, inr, Result, ok, each, index,
}
use nemo_rl_submission.Prelude.Text.{Text, text_eq, text_eq→eq}
use nemo_rl_submission.Rollouts.Feedback.{Row, add_to_group, task_groups}

module _ {A : Type 0} where
  pub index-middle : (pre xs : List A) (x : A) → index (pre ++ x ∷ xs) (length pre) ≡ ok x
  index-middle [] xs x = refl
  index-middle (p ∷ pre) xs x = index-middle pre xs x

  pub index-map :
      {B : Type 0} (f : A → B) (xs : List A) (i : ℕ) (x : A)
      → index xs i ≡ ok x
      → index (map f xs) i ≡ ok (f x)
  index-map f [] i x h = cc
  index-map f (y ∷ ys) zero x h = let same : y ≡ x = cc in ap (λ z. ok (f z)) same
  index-map f (y ∷ ys) (suc i) x h = index-map f ys i x h

  sum_by-add_to_group :
      (w : A → ℕ) (name : Text) (x : A) (groups : List (Text × List A))
      → sum_by (λ (g : Text × List A). sum_by w g.1) (add_to_group name x groups)
        ≡ w x + sum_by (λ (g : Text × List A). sum_by w g.1) groups
  unfolding add_to_group
  sum_by-add_to_group w name x [] = omega arith
  sum_by-add_to_group w name x ((key, group) ∷ groups) = elim (Bool-cases (text_eq key name)) [
    | inl same ↦ rw same (omega (arith, sum_by-append w group (x ∷ [])))
    | inr other ↦ rw other (omega (arith, sum_by-add_to_group w name x groups))
  ]

  -- Every entry of an enumeration stands at its place.
  pub enumerate_holds :
      (P : A → Type 0) (pre xs : List A)
      → All P xs
      → All
          (λ (e : A × ℕ). (index (pre ++ xs) e.1 ≡ ok e.0) × P e.0)
          (enumerate_from (length pre) xs)
  enumerate_holds P pre [] h = tt
  enumerate_holds P pre (x ∷ xs) h = (
    (index-middle pre xs x, h.0),
    append_snoc (λ l n. All (λ (e : A × ℕ). (index l e.1 ≡ ok e.0) × P e.0) (enumerate_from n xs))
        pre x xs (enumerate_holds P (pre ++ x ∷ []) xs h.1),
  )

  pub map-enumerate :
      {B : Type 0} (f : A → B) (i : ℕ) (xs : List A)
      → map (λ (e : A × ℕ). f e.0) (enumerate_from i xs) ≡ map f xs
  map-enumerate f i [] = refl
  map-enumerate f i (x ∷ xs) = ap (f x ∷◌) (map-enumerate f (suc i) xs)

  pub each-map :
      {B C : Type 0} (call : B → Result C) (h : A → B) (xs : List A)
      → each call (map h xs) ≡ each (λ x. call (h x)) xs
  each-map call h [] = refl
  each-map call h (x ∷ xs) = rw (each-map call h xs) refl

  pub map-map :
      {B C : Type 0} (g : B → C) (f : A → B) (xs : List A)
      → map g (map f xs) ≡ map (λ x. g (f x)) xs
  map-map g f [] = refl
  map-map g f (x ∷ xs) = ap (g (f x) ∷◌) (map-map g f xs)

  pub zip-map :
      {B C : Type 0} (f : A → B) (g : A → C) (xs : List A)
      → zip (map f xs) (map g xs) ≡ map (λ x. (f x, g x)) xs
  zip-map f g [] = refl
  zip-map f g (x ∷ xs) = ap ((f x, g x) ∷◌) (zip-map f g xs)

  pub All-flatten :
      (P : A → Type 0) (xss : List (List A)) → All (λ xs. All P xs) xss → All P (flatten xss)
  unfolding flatten
  All-flatten P [] h = tt
  All-flatten P (xs ∷ xss) h = All-append P xs (flatten xss) h.0 (All-flatten P xss h.1)

  -- A list that is read out in the order of its places.
  pub in_order :
      (pre xs : List A) (es : List (A × ℕ))
      → map (λ (e : A × ℕ). e.1) es ≡ range_from (length pre) (length xs)
      → All (λ (e : A × ℕ). index (pre ++ xs) e.1 ≡ ok e.0) es
      → map (λ (e : A × ℕ). e.0) es ≡ xs
  in_order pre [] [] h k = refl
  in_order pre [] (e ∷ es) h k = absurd cc
  in_order pre (x ∷ xs) [] h k = absurd cc
  in_order pre (x ∷ xs) ((y, i) ∷ es) h k =
      let place : i ≡ length pre = cc in
      let rest : map (λ (e : A × ℕ). e.1) es ≡ range_from (suc (length pre)) (length xs) = cc in
      let found : index (pre ++ x ∷ xs) (length pre) ≡ ok y =
        subst (λ j. index (pre ++ x ∷ xs) j ≡ ok y) place k.0 in
      let middle = index-middle pre xs x in
      let same : y ≡ x = cc in
      rw same (
        ap (x ∷◌) (
          append_snoc
            (λ l n.
              map (λ (e : A × ℕ). e.1) es ≡ range_from n (length xs)
              → All (λ (e : A × ℕ). index l e.1 ≡ ok e.0) es
              → map (λ (e : A × ℕ). e.0) es ≡ xs)
            pre x xs (in_order (pre ++ x ∷ []) xs es) rest k.1))

module _ {Info : Type 0} (K : Text → Type 0) (rows : List (Row Info)) where
  -- A group of entries of one task, at their places.
  abbrev pub OfTask : Text × List (Row Info × ℕ) → Type 0
  OfTask (name, group) =
      K name × All (λ (e : Row Info × ℕ). (e.0.task_name ≡ name) × (index rows e.1 ≡ ok e.0)) group

  add_to_group-OfTask :
      (row : Row Info) (i : ℕ) (groups : List (Text × List (Row Info × ℕ)))
      → K row.task_name
      → index rows i ≡ ok row
      → All OfTask groups
      → All OfTask (add_to_group row.task_name (row, i) groups)
  unfolding add_to_group
  add_to_group-OfTask row i [] k found h = ((k, ((refl, found), tt)), tt)
  add_to_group-OfTask row i ((key, group) ∷ groups) k found h =
      elim (Bool-cases (text_eq key row.task_name)) [
        | inl same ↦
            let this = sym (text_eq→eq key row.task_name same) in
            rw same ((h.0.0, All-append _ group ((row, i) ∷ []) h.0.1 ((this, found), tt)), h.1)
        | inr other ↦ rw other (h.0, add_to_group-OfTask row i groups k found h.1)
      ]

  pub task_groups-OfTask :
      (es : List (Row Info × ℕ)) (groups : List (Text × List (Row Info × ℕ)))
      → All (λ (e : Row Info × ℕ). (index rows e.1 ≡ ok e.0) × K e.0.task_name) es
      → All OfTask groups
      → All OfTask (task_groups es groups)
  unfolding task_groups
  task_groups-OfTask [] groups k h = h
  task_groups-OfTask ((row, i) ∷ es) groups k h =
      task_groups-OfTask es (add_to_group row.task_name (row, i) groups) k.1
        (add_to_group-OfTask row i groups k.0.1 k.0.0 h)

pub sum_by-task_groups :
    {Info : Type 0} (w : Row Info × ℕ → ℕ) (es : List (Row Info × ℕ))
    (groups : List (Text × List (Row Info × ℕ)))
    → sum_by (λ (g : Text × List (Row Info × ℕ)). sum_by w g.1) (task_groups es groups)
      ≡ sum_by w es + sum_by (λ (g : Text × List (Row Info × ℕ)). sum_by w g.1) groups
unfolding task_groups
sum_by-task_groups w [] groups = omega arith
sum_by-task_groups w ((row, i) ∷ es) groups = omega (
  arith,
  sum_by-task_groups w es (add_to_group row.task_name (row, i) groups),
  sum_by-add_to_group w row.task_name (row, i) groups,
)

pub all {ℓ κ} : {A : Type ℓ} {P : A → Type κ} (h : (x : A) → P x) (xs : List A) → All P xs
all h [] = tt
all h (x ∷ xs) = (h x, all h xs)
