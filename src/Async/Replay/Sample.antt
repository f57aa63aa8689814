-- ===== src/Async/Replay/Sample.antt =====
-- What `push_with_wait_signal` and `sample` do to the entries of a buffer.
use mathlib.Core.Path.{subst}
use native.Mathlib.Decide.{dec_le}
use nemo_rl_submission.Prelude.{
  Bool, ℕ, zero, suc, ◌-◌, ◌≤◌, ◌<◌, ◌≡◌, ◌≢◌, refl, true, false, Option, none, some, List, [], ◌∷◌,
  ◌++◌, map, arith, ltb, leb, ◌==◌, length, get_or, take, filterb, any, sum_by, Result, ok, raise,
  value_error, Bool-cases, inl, inr, ◌⊎◌, length-map, map-snoc,
}
use nemo_rl_submission.Async.Replay.{
  ReplayBuffer, Batch, success, full, valid_indices, consume, remove_selected, batch_of,
  push_with_wait_signal, sample,
}
use nemo_rl_submission.Async.Replay.Indices.{
  taken, left, positions, length-taken, remove_all-positions, pick-positions,
}
use nemo_rl_submission.Async.Replay.Intended.{
  Entry, Holds, is_intended, is_old, count, intended-positions, length-positions, count-le, any-map,
  taken-age, length-filterb, length-take_le,
}

module _ {T : Type 0} where
  -- What `sample` hands out for a step, and what it leaves.
  pub record Sampled (current age n : ℕ) (es : List (Entry T)) (b : ReplayBuffer T)
      (r : Result (ReplayBuffer T × Option (Batch T))) : Type 0 where
    pub after : ReplayBuffer T
    pub batch : Batch T
    pub result : r ≡ ok (after, some batch)
    pub holds : Holds after (left (is_intended current age) n es)
    pub trajectories :
        batch.trajectories ≡ map (λ e. e.trajectory) (taken (is_intended current age) n es)
    pub total_age :
        batch.total_age ≡ sum_by (λ e. current - e.version) (taken (is_intended current age) n es)
    pub group_count : batch.group_count ≡ n
    pub same_last :
        after.last_target_weight_already_generated ≡ b.last_target_weight_already_generated
    pub same_max_size : after.max_size ≡ b.max_size

  module _ (b : ReplayBuffer T) (es : List (Entry T)) (current age n : ℕ) (h : Holds b es)
      (enough : n ≤ count (is_intended current age) es) where
    selected : List ℕ
    selected = take n (positions (is_intended current age) es)

    length-selected : length selected ≡ n
    unfolding selected
    length-selected =
        length-take_le n (positions (is_intended current age) es)
          (omega (arith, length-positions (is_intended current age) es))

    remove_selected-Holds : Holds (remove_selected selected b) (left (is_intended current age) n es)
    unfolding remove_selected selected
    remove_selected-Holds = record {
      trajectories =
          rw h.trajectories
            (remove_all-positions (is_intended current age) (λ e. e.trajectory) n es);
      versions =
          rw h.versions (remove_all-positions (is_intended current age) (λ e. e.version) n es);
      targets = rw h.targets (remove_all-positions (is_intended current age) (λ e. e.target) n es);
    }

    batch_of-age :
        (batch_of current selected b).total_age
        ≡ sum_by (λ e. current - e.version) (taken (is_intended current age) n es)
    unfolding batch_of selected
    batch_of-age =
        rw
          (
            h.versions,
            pick-positions (is_intended current age) (λ e. e.version) n es,
            length-selected,
          )
          (rw (length-taken (is_intended current age) n es enough) at (taken-age current age n es))

    batch_of-trajectories :
        (batch_of current selected b).trajectories
        ≡ map (λ e. e.trajectory) (taken (is_intended current age) n es)
    unfolding batch_of selected
    batch_of-trajectories =
        rw h.trajectories (pick-positions (is_intended current age) (λ e. e.trajectory) n es)

    consume-Sampled : 0 < n → Sampled current age n es b (consume current selected b)
    unfolding consume remove_selected
    consume-Sampled pos = record {
      after = remove_selected selected b;
      batch = batch_of current selected b;
      result = ground (arith, length-selected);
      holds = remove_selected-Holds;
      trajectories = batch_of-trajectories;
      total_age = batch_of-age;
      group_count = length-selected;
      same_last = refl;
      same_max_size = refl;
    }

  module _ (b : ReplayBuffer T) (es : List (Entry T)) (current age : ℕ) (h : Holds b es) where
    valid : List ℕ
    valid = valid_indices 0 (current - age) current b.trajectory_versions

    intended : List ℕ
    intended = filterb (λ i. get_or b.target_weight_versions i 0 == current) valid

    intended-eq : intended ≡ positions (is_intended current age) es
    unfolding intended valid
    intended-eq = rw (h.targets, h.versions) (intended-positions current age es)

    length-intended : length intended ≡ count (is_intended current age) es
    length-intended = rw intended-eq (length-positions (is_intended current age) es)

    length-intended-le : length intended ≤ length valid
    unfolding intended
    length-intended-le = length-filterb _ valid

    length-trajectories : length b.trajectories ≡ length es
    length-trajectories = rw h.trajectories (length-map (λ (e : Entry T). e.trajectory) es)

    any-versions :
        any (λ v. ltb v (current - age)) b.trajectory_versions ≡ any (is_old current age) es
    any-versions = rw h.versions (any-map (λ v. ltb v (current - age)) es)

  any-nonempty : (q : Entry T → Bool) (es : List (Entry T)) → any q es ≡ true → 0 < length es
  any-nonempty q [] k = cc
  any-nonempty q (e ∷ es) k = omega arith

  -- For a positive number of groups, one of three: `sample` raises ValueError, and an entry is older
  -- than the age window allows; or no entry is, there are enough entries intended for the step, and
  -- it hands out the first of them in their order, with their total age and their number, and keeps
  -- all others in their order; or no entry is, there are too few, and it returns None and changes
  -- nothing.
  pub sample_outcome :
      (b : ReplayBuffer T) (es : List (Entry T)) (current age n : ℕ)
      → Holds b es
      → 0 < n
      → ((any (is_old current age) es ≡ true) × (sample n current age b ≡ raise value_error))
        ⊎ ((any (is_old current age) es ≡ false)
            × (n ≤ count (is_intended current age) es)
            × Sampled current age n es b (sample n current age b))
        ⊎ ((any (is_old current age) es ≡ false)
            × (count (is_intended current age) es < n)
            × (sample n current age b ≡ ok (b, none)))
  unfolding sample selected intended valid
  sample_outcome b es current age n h pos = elim (Bool-cases (any (is_old current age) es)) [
    | inl old ↦ inl (
      old,
      ground (
        arith,
        length-trajectories b es current age h,
        any-versions b es current age h,
        any-nonempty (is_old current age) es old,
      ),
    )
    | inr young ↦ elim (dec_le n (count (is_intended current age) es)) [
      | yes enough ↦
          let run : sample n current age b
              ≡ consume current (selected b es current age n h enough) b =
            ground (
              arith,
              length-trajectories b es current age h,
              any-versions b es current age h,
              length-intended b es current age h,
              length-intended-le b es current age h,
              intended-eq b es current age h,
              count-le (is_intended current age) es,
            ) in
          inr (inl (young, enough, rw run (consume-Sampled b es current age n h enough pos)))
      | no few ↦ inr (
          inr (
            young,
            omega arith,
            ground (
              arith,
              few,
              length-trajectories b es current age h,
              any-versions b es current age h,
              length-intended b es current age h,
            ),
          ))
    ]
  ]

  -- A push either finds room, adds the entry behind the others and reports success; or it finds the
  -- buffer full, changes nothing and reports that.
  pub push_outcome :
      (b : ReplayBuffer T) (es : List (Entry T)) (e : Entry T)
      → Holds b es
      → ((length es < b.max_size)
          × Holds (push_with_wait_signal e.trajectory e.version e.target b).0 (es ++ e ∷ [])
          × ((push_with_wait_signal e.trajectory e.version e.target b).1 ≡ success))
        ⊎ ((b.max_size ≤ length es)
            × (push_with_wait_signal e.trajectory e.version e.target b ≡ (b, full)))
  unfolding push_with_wait_signal
  push_outcome b es e h =
      let many = length-trajectories b es 0 0 h in
      elim (Bool-cases (leb b.max_size (length b.trajectories))) [
        | inl none_left ↦ inr (ground (arith, many), ground arith)
        | inr some_left ↦ rw some_left (
            inl (
              ground (arith, many),
              record {
                trajectories = rw (h.trajectories, map-snoc (λ (e : Entry T). e.trajectory) es e);
                versions = rw (h.versions, map-snoc (λ (e : Entry T). e.version) es e);
                targets = rw (h.targets, map-snoc (λ (e : Entry T). e.target) es e);
              },
              refl,
            ))
      ]

  sample_zero :
      (current age : ℕ) (b b' : ReplayBuffer T) (batch : Batch T)
      → sample 0 current age b ≢ ok (b', some batch)
  unfolding sample consume
  sample_zero current age b b' batch = ground arith

  -- Whenever `sample` hands out a batch, what it leaves are the entries not taken.
  pub sample-Holds :
      (b b' : ReplayBuffer T) (batch : Batch T) (es : List (Entry T)) (current age n : ℕ)
      → Holds b es
      → sample n current age b ≡ ok (b', some batch)
      → Holds b' (left (is_intended current age) n es)
  sample-Holds b b' batch es current age zero h e = absurd (sample_zero current age b b' batch e)
  sample-Holds b b' batch es current age (suc n) h e =
      elim (sample_outcome b es current age (suc n) h (omega arith)) [
        | inl (_, raised) ↦ absurd (cc raised)
        | inr (inl (_, _, r)) ↦
            let same : r.after ≡ b' = cc r.result in
            subst (λ x. Holds x (left (is_intended current age) (suc n) es)) same r.holds
        | inr (inr (_, _, stalled)) ↦ absurd (cc stalled)
      ]
