-- ===== src/Async/Replay/Intended.antt =====
-- The entries of a buffer, read from its three lists side by side, and those meant for a step.
use nemo_rl_submission.Prelude.{
  ℕ, zero, suc, ◌+◌, ◌-◌, ◌*◌, ◌≤◌, ◌≡◌, refl, ap, Bool, true, ◌&&◌, List, [], ◌∷◌, map, arith, ltb,
  leb, ◌==◌, if◌then◌else◌, length, get_or, take, filterb, any, sum_by, length-map, All, All-map,
}
use nemo_rl_submission.Async.Replay.{ReplayBuffer, valid_indices}
use nemo_rl_submission.Async.Replay.Indices.{taken, positions, taken-All}

-- A trajectory group with the version that made it and the step that it is for.
pub record Entry {ℓ} (T : Type ℓ) : Type ℓ where
  pub trajectory : T
  pub version : ℕ
  pub target : ℕ

valid_indices-suc :
    (i low high : ℕ) (vs : List ℕ)
    → valid_indices (suc i) low high vs ≡ map suc (valid_indices i low high vs)
unfolding valid_indices
valid_indices-suc i low high [] = refl
valid_indices-suc i low high (v ∷ vs) = ground (arith, valid_indices-suc (suc i) low high vs)

filterb-map-suc :
    (g : ℕ → Bool) (is : List ℕ) → filterb g (map suc is) ≡ map suc (filterb (λ i. g (suc i)) is)
filterb-map-suc g [] = refl
filterb-map-suc g (i ∷ is) = ground (arith, filterb-map-suc g is)

module _ {ℓ} {T : Type ℓ} where
  -- The three lists hold the entries.
  pub record Holds (b : ReplayBuffer T) (es : List (Entry T)) : Type ℓ where
    pub trajectories : b.trajectories ≡ map (λ e. e.trajectory) es
    pub versions : b.trajectory_versions ≡ map (λ e. e.version) es
    pub targets : b.target_weight_versions ≡ map (λ e. e.target) es

  -- For training step `current`, and of an admissible age.
  abbrev pub is_intended : ℕ → ℕ → Entry T → Bool
  is_intended current max_age_steps e =
      (leb (current - max_age_steps) e.version && leb e.version current) && e.target == current

  abbrev pub is_old : ℕ → ℕ → Entry T → Bool
  is_old current max_age_steps e = ltb e.version (current - max_age_steps)

  abbrev pub count : (Entry T → Bool) → List (Entry T) → ℕ
  count p es = sum_by (λ e. if p e then 1 else 0) es

  pub intended-positions :
      (current max_age_steps : ℕ) (es : List (Entry T))
      → filterb
          (λ i. get_or (map (λ e. e.target) es) i 0 == current)
          (valid_indices 0 (current - max_age_steps) current (map (λ e. e.version) es))
        ≡ positions (is_intended current max_age_steps) es
  unfolding valid_indices
  intended-positions current age [] = refl
  intended-positions current age (e ∷ es) = ground (
    arith,
    intended-positions current age es,
    valid_indices-suc 0 (current - age) current (map (λ e. e.version) es),
    filterb-map-suc (λ i. get_or (map (λ e. e.target) (e ∷ es)) i 0 == current)
        (valid_indices 0 (current - age) current (map (λ e. e.version) es)),
  )

  pub length-positions :
      (p : Entry T → Bool) (es : List (Entry T)) → length (positions p es) ≡ count p es
  length-positions p [] = refl
  length-positions p (e ∷ es) =
      ground (arith, length-positions p es, length-map suc (positions p es))

  pub count-le : (p : Entry T → Bool) (es : List (Entry T)) → count p es ≤ length es
  count-le p [] = omega arith
  count-le p (e ∷ es) = ground (arith, count-le p es)

  pub any-map :
      (q : ℕ → Bool) (es : List (Entry T))
      → any q (map (λ e. e.version) es) ≡ any (λ e. q e.version) es
  any-map q [] = refl
  any-map q (e ∷ es) = rw (any-map q es)

  -- The total age of the entries taken for a step, as `sample` computes it.
  pub taken-age :
      (current age n : ℕ) (es : List (Entry T))
      → (let ts = taken (is_intended current age) n es in
          current * length ts - sum_by (λ v. v) (map (λ e. e.version) ts)
          ≡ sum_by (λ e. current - e.version) ts)
  taken-age current age n es = omega (
    arith,
    ages current _
        (All-map (λ e k. not_newer current age e k) _ (taken-All (is_intended current age) n es)),
  )
    where
      not_newer :
          (current age : ℕ) (e : Entry T) → is_intended current age e ≡ true → e.version ≤ current
      not_newer current age e k = ground arith

      ages :
          (current : ℕ) (ts : List (Entry T))
          → All (λ e. e.version ≤ current) ts
          → sum_by (λ v. v) (map (λ e. e.version) ts) + sum_by (λ e. current - e.version) ts
            ≡ current * length ts
      ages current [] h = omega arith
      ages current (e ∷ ts) h = omega (arith, h.0, ages current ts h.1)

pub length-filterb {ℓ} :
    {A : Type ℓ} (p : A → Bool) (xs : List A) → length (filterb p xs) ≤ length xs
length-filterb p [] = omega arith
length-filterb p (x ∷ xs) = ground (arith, length-filterb p xs)

pub length-take_le {ℓ} : {A : Type ℓ} (n : ℕ) (xs : List A) → n ≤ length xs → length (take n xs) ≡ n
length-take_le zero xs h = refl
length-take_le (suc n) [] h = absurd (omega arith)
length-take_le (suc n) (x ∷ xs) h = ap suc (length-take_le n xs (omega arith))
