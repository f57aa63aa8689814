-- ===== src/Async/Replay/Indices.antt =====
-- The indices that `sample` selects, against a plain recursion over the entries.
use nemo_rl_submission.Prelude.{
  item_at, pick, ℕ, zero, suc, ◌≤◌, ◌≡◌, refl, ap, Bool, true, false, Bool-cases, inl, inr, List,
  [], ◌∷◌, ◌++◌, map, arith, if◌then◌else◌, length, take, All, sum_by, sort, insert_sorted,
}
use nemo_rl_submission.Async.Replay.{remove_at, remove_all, descending}

module _ {ℓ} {E : Type ℓ} (p : E → Bool) where
  -- Takes the first `n` entries that pass, and leaves the others in their order.
  abbrev pub taken : ℕ → List E → List E
  taken n [] = []
  taken zero (e ∷ es) = []
  taken (suc n) (e ∷ es) = elim (p e) [ true ↦ e ∷ taken n es | false ↦ taken (suc n) es ]

  abbrev pub left : ℕ → List E → List E
  left n [] = []
  left zero (e ∷ es) = e ∷ es
  left (suc n) (e ∷ es) = elim (p e) [ true ↦ left n es | false ↦ e ∷ left (suc n) es ]

  -- The indices of the entries that pass.
  abbrev pub positions : List E → List ℕ
  positions [] = []
  positions (e ∷ es) = elim (p e) [
    | true ↦ 0 ∷ map suc (positions es)
    | false ↦ map suc (positions es)
  ]

  pub taken-All : (n : ℕ) (es : List E) → All (λ e. p e ≡ true) (taken n es)
  taken-All n [] = tt
  taken-All zero (e ∷ es) = tt
  taken-All (suc n) (e ∷ es) = elim (Bool-cases (p e)) [
    | inl h ↦ rw (h, All) (h, taken-All n es)
    | inr h ↦ rw (h, All) (taken-All (suc n) es)
  ]

  pub left-All {κ} : (Q : E → Type κ) (n : ℕ) (es : List E) → All Q es → All Q (left n es)
  left-All Q n [] h = tt
  left-All Q zero (e ∷ es) h = h
  left-All Q (suc n) (e ∷ es) h = elim (Bool-cases (p e)) [
    | inl k ↦ rw (k, All) (left-All Q n es h.1)
    | inr k ↦ rw (k, All) (h.0, left-All Q (suc n) es h.1)
  ]

  pub length-taken :
      (n : ℕ) (es : List E) → n ≤ sum_by (λ e. if p e then 1 else 0) es → length (taken n es) ≡ n
  length-taken zero [] h = refl
  length-taken zero (e ∷ es) h = refl
  length-taken (suc n) [] h = absurd (omega arith)
  length-taken (suc n) (e ∷ es) h = ground (arith, length-taken n es, length-taken (suc n) es)

take-map-suc : (n : ℕ) (is : List ℕ) → take n (map suc is) ≡ map suc (take n is)
take-map-suc zero is = refl
take-map-suc (suc n) [] = refl
take-map-suc (suc n) (i ∷ is) = ap (◌∷◌ (suc i)) (take-map-suc n is)

insert_sorted-map-suc :
    (i : ℕ) (is : List ℕ)
    → insert_sorted descending (suc i) (map suc is) ≡ map suc (insert_sorted descending i is)
unfolding insert_sorted
insert_sorted-map-suc i [] = refl
insert_sorted-map-suc i (j ∷ is) = ground (arith, insert_sorted-map-suc i is)

sort-map-suc : (is : List ℕ) → sort descending (map suc is) ≡ map suc (sort descending is)
unfolding sort
sort-map-suc [] = refl
sort-map-suc (i ∷ is) =
    ground (arith, sort-map-suc is, insert_sorted-map-suc i (sort descending is))

insert_sorted-zero : (is : List ℕ) → insert_sorted descending 0 (map suc is) ≡ map suc is ++ 0 ∷ []
unfolding insert_sorted
insert_sorted-zero [] = refl
insert_sorted-zero (i ∷ is) = ground (arith, insert_sorted-zero is)

module _ {ℓ} {A : Type ℓ} where
  remove_all-append :
      (is js : List ℕ) (xs : List A) → remove_all (is ++ js) xs ≡ remove_all js (remove_all is xs)
  unfolding remove_all
  remove_all-append [] js xs = refl
  remove_all-append (i ∷ is) js xs = remove_all-append is js (remove_at i xs)

  remove_all-map-suc :
      (is : List ℕ) (x : A) (xs : List A) → remove_all (map suc is) (x ∷ xs) ≡ x ∷ remove_all is xs
  unfolding remove_all
  remove_all-map-suc [] x xs = refl
  remove_all-map-suc (i ∷ is) x xs = remove_all-map-suc is x (remove_at i xs)

  pick-map-suc : (is : List ℕ) (x : A) (xs : List A) → pick (x ∷ xs) (map suc is) ≡ pick xs is
  pick-map-suc [] x xs = refl
  pick-map-suc (i ∷ is) x xs = ap (item_at i xs ++◌) (pick-map-suc is x xs)

  -- The order in which `sample` removes indices: those behind first.
  remove_sorted_skip :
      (is : List ℕ) (x : A) (xs : List A)
      → remove_all (sort descending (map suc is)) (x ∷ xs) ≡ x ∷ remove_all (sort descending is) xs
  remove_sorted_skip is x xs = rw (sort-map-suc is) (remove_all-map-suc (sort descending is) x xs)

  remove_sorted_take :
      (is : List ℕ) (x : A) (xs : List A)
      → remove_all (sort descending (0 ∷ map suc is)) (x ∷ xs) ≡ remove_all (sort descending is) xs
  unfolding sort remove_all
  remove_sorted_take is x xs = rw (
    sort-map-suc is,
    insert_sorted-zero (sort descending is),
    remove_all-append (map suc (sort descending is)) (0 ∷ []) (x ∷ xs),
    remove_all-map-suc (sort descending is) x xs,
  )

module _ {ℓ κ} {E : Type ℓ} {A : Type κ} (p : E → Bool) (f : E → A) where
  -- Removing the first `n` positions that pass leaves what is left.
  pub remove_all-positions :
      (n : ℕ) (es : List E)
      → remove_all (sort descending (take n (positions p es))) (map f es) ≡ map f (left p n es)
  unfolding sort remove_all
  remove_all-positions zero [] = refl
  remove_all-positions zero (e ∷ es) = refl
  remove_all-positions (suc n) [] = refl
  remove_all-positions (suc n) (e ∷ es) = ground (
    arith,
    remove_all-positions n es,
    remove_all-positions (suc n) es,
    take-map-suc n (positions p es),
    take-map-suc (suc n) (positions p es),
    remove_sorted_take (take n (positions p es)) (f e) (map f es),
    remove_sorted_skip (take (suc n) (positions p es)) (f e) (map f es),
  )

  pub pick-positions :
      (n : ℕ) (es : List E) → pick (map f es) (take n (positions p es)) ≡ map f (taken p n es)
  pick-positions zero [] = refl
  pick-positions zero (e ∷ es) = refl
  pick-positions (suc n) [] = refl
  pick-positions (suc n) (e ∷ es) = ground (
    arith,
    pick-positions n es,
    pick-positions (suc n) es,
    take-map-suc n (positions p es),
    take-map-suc (suc n) (positions p es),
    pick-map-suc (take n (positions p es)) (f e) (map f es),
    pick-map-suc (take (suc n) (positions p es)) (f e) (map f es),
  )
