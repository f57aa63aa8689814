-- ===== src/Async/Collector/Targets.antt =====
-- Which target a generation gets.
use mathlib.Core.Path.{subst}
use nemo_rl_submission.Prelude.{
  ℕ, zero, suc, ◌+◌, ◌≤◌, ◌<◌, ◌≡◌, refl, Bool, true, false, Option, none, some, List, [], ◌∷◌, map,
  arith, ◌==◌, any, All, All-map, range_from, ==_iff, Bool-cases, inl, inr, ◌⊎◌,
}
use nemo_rl_submission.Async.Collector.{
  Collector, calculate_target_weights, is_after, needs_generation, find_target, reserve,
  get_next_target_for_generation, should_pause_for_generation_limits,
}

-- A target that a generation with weights `version` may be for.
pub record IsTarget (c : Collector) (version t : ℕ) : Type 0 where
  pub not_before : version ≤ t
  pub not_late : t ≤ version + c.max_trajectory_age_steps
  pub strictly : (version ≡ c.initial_weight_version) ⊎ (version < t)

range_from-All : (i n : ℕ) → All (λ t. (i ≤ t) × (t < i + n)) (range_from i n)
range_from-All i zero = tt
range_from-All i (suc n) = (
  (omega arith, omega arith),
  All-map (λ t h. (omega (arith, h.0), omega (arith, h.1))) _ (range_from-All (suc i) n),
)

shifted-All :
    (v i n : ℕ) → All (λ t. (v + i ≤ t) × (t < v + i + n)) (map (λ k. v + k) (range_from i n))
shifted-All v i zero = tt
shifted-All v i (suc n) = (
  (omega arith, omega arith),
  All-map (λ t h. (omega (arith, h.0), omega (arith, h.1))) _ (shifted-All v (suc i) n),
)

calculate_target_weights-All :
    (c : Collector) (version : ℕ) → All (IsTarget c version) (calculate_target_weights c version)
unfolding calculate_target_weights
calculate_target_weights-All c version = elim (Bool-cases (version == c.initial_weight_version)) [
  | inl start ↦
      let same : version ≡ c.initial_weight_version = (==_iff _ _).0 start in
      rw start (
        All-map
          (λ t h. record {
            not_before = omega (arith, same, h.0);
            not_late = omega (arith, same, h.1);
            strictly = inl same;
          })
          _ (range_from-All c.initial_weight_version (c.max_trajectory_age_steps + 1)))
  | inr later ↦ rw later (
      All-map
        (λ t h. record {
          not_before = omega (arith, h.0);
          not_late = omega (arith, h.1);
          strictly = inr (omega (arith, h.0));
        })
        _ (shifted-All version 1 c.max_trajectory_age_steps))
]

any-find_target :
    (p : ℕ → Bool) (ts : List ℕ)
    → any p ts ≡ elim (find_target p ts) [ none ↦ false | some _ ↦ true ]
unfolding find_target
any-find_target p [] = refl
any-find_target p (t ∷ ts) = ground (arith, any-find_target p ts)

find_target_sound :
    (P : ℕ → Type 0) (p : ℕ → Bool) (ts : List ℕ) (t : ℕ)
    → All P ts
    → find_target p ts ≡ some t
    → P t × (p t ≡ true)
unfolding find_target
find_target_sound P p [] t h e = cc
find_target_sound P p (s ∷ ts) t h e = elim (Bool-cases (p s)) [
  | inl yes_s ↦
      let same : s ≡ t = ground (arith, yes_s, e) in
      subst (λ k. P k × (p k ≡ true)) same (h.0, yes_s)
  | inr no_s ↦ find_target_sound P p ts t h.1 (rw no_s at e)
]

needs_generation-parts :
    (last : Option ℕ) (generating : List ℕ) (t : ℕ)
    → needs_generation last generating t ≡ true
    → (is_after last t ≡ true) × (any (λ s. s == t) generating ≡ false)
unfolding needs_generation
needs_generation-parts last generating t h = ground arith

-- A target is found, or collection should pause.
abbrev pub Reserves : Option ℕ → Collector → Collector × Option ℕ → Type 0
Reserves last c r =
    ((t : ℕ) × (r ≡ (record c { generating_targets = t ∷ c.generating_targets }, some t))
      × IsTarget c c.current_weight_version t
      × (is_after last t ≡ true)
      × (any (λ s. s == t) c.generating_targets ≡ false)
      × (should_pause_for_generation_limits last c ≡ false))
    ⊎ ((r ≡ (c, none)) × (should_pause_for_generation_limits last c ≡ true))

reserve-Reserves :
    (last : Option ℕ) (c : Collector) (o : Option ℕ)
    → find_target
        (needs_generation last c.generating_targets)
        (calculate_target_weights c c.current_weight_version)
      ≡ o
    → Reserves last c (reserve o c)
unfolding reserve should_pause_for_generation_limits
reserve-Reserves last c none e = inr (refl, ground (arith, e, searched))
  where
    searched :
        any
          (needs_generation last c.generating_targets)
          (calculate_target_weights c c.current_weight_version)
        ≡ false
    searched = rw e at (
        any-find_target (needs_generation last c.generating_targets)
          (calculate_target_weights c c.current_weight_version))
reserve-Reserves last c (some t) e =
    inl (t, refl, found.0, parts.0, parts.1, ground (arith, searched))
  where
    found :
        IsTarget c c.current_weight_version t
        × (needs_generation last c.generating_targets t ≡ true)
    found =
        find_target_sound (IsTarget c c.current_weight_version)
          (needs_generation last c.generating_targets) _ t
          (calculate_target_weights-All c c.current_weight_version) e

    parts : (is_after last t ≡ true) × (any (λ r. r == t) c.generating_targets ≡ false)
    parts = needs_generation-parts last c.generating_targets t found.1

    searched :
        any
          (needs_generation last c.generating_targets)
          (calculate_target_weights c c.current_weight_version)
        ≡ true
    searched = rw e at (
        any-find_target (needs_generation last c.generating_targets)
          (calculate_target_weights c c.current_weight_version))

-- Either a target is reserved, and nothing else changes: it lies in the window of the current
-- weights, strictly after them except at the start, is past every target that the buffer has seen, and
-- was not reserved by another generation; and then collection need not pause. Or nothing is reserved and nothing changes,
-- and collection should pause.
pub get_next_target_for_generation-Reserves :
    (last : Option ℕ) (c : Collector)
    → Reserves last c (get_next_target_for_generation last c.current_weight_version c)
unfolding get_next_target_for_generation
get_next_target_for_generation-Reserves last c = reserve-Reserves last c _ refl

-- The same for weights that have been replaced meanwhile: the target lies in their window, and the
-- collector keeps its versions and its age limit.
pub get_next_target_for_generation-IsTarget :
    (last : Option ℕ) (version : ℕ) (c : Collector) (t : ℕ)
    → (get_next_target_for_generation last version c).1 ≡ some t
    → IsTarget c version t
unfolding get_next_target_for_generation
get_next_target_for_generation-IsTarget last version c t e =
    (find_target_sound (IsTarget c version) (needs_generation last c.generating_targets) _ t
      (calculate_target_weights-All c version) (reserve-some _ e)).0
  where
    reserve-some : (o : Option ℕ) → (reserve o c).1 ≡ some t → o ≡ some t
    reserve-some none k = k
    reserve-some (some s) k = k

pub get_next_target_for_generation-keeps :
    (last : Option ℕ) (version : ℕ) (c : Collector)
    → (let r = get_next_target_for_generation last version c in
        (r.0.current_weight_version ≡ c.current_weight_version)
        × (r.0.max_trajectory_age_steps ≡ c.max_trajectory_age_steps))
unfolding get_next_target_for_generation
get_next_target_for_generation-keeps last version c = kept _
  where
    kept :
        (o : Option ℕ)
        → ((reserve o c).0.current_weight_version ≡ c.current_weight_version)
          × ((reserve o c).0.max_trajectory_age_steps ≡ c.max_trajectory_age_steps)
    kept none = (refl, refl)
    kept (some t) = (refl, refl)
