-- ===== src/Async/Replay/Queue/Refines.antt =====
-- The three lists of `ReplayBuffer` against one list of entries.
use nemo_rl_submission.Prelude.{
  zero, suc, ℕ, ◌-◌, ◌<◌, ◌≡◌, refl, sym, ap, ◌∙◌, inl, inr, true, false, some, List, [], ◌∷◌, map,
  arith, leb, ◌==◌, any, All, length, length-map, sum_by, ok,
}
use nemo_rl_submission.Async.Replay.{
  ReplayBuffer, Batch, raise_last, init, push_with_wait_signal, get_debug_info,
  get_existing_target_weights, size, clear,
}
use nemo_rl_submission.Async.Replay.Indices.{taken, length-taken}
use nemo_rl_submission.Async.Replay.Intended.{Entry, Holds, is_intended, count}
use nemo_rl_submission.Async.Replay.Sample.{sample_outcome, push_outcome}
use nemo_rl_submission.Async.Replay.Queue.{
  BufferCall, push_entry, sample_groups, ask_size, ask_target, ask_last_target, ask_debug_info,
  clear_all, Answer, pushed, sampled, number, found, last_target, Queue, call_buffer, batch_from,
  call_queue, answers_from_buffer, answers_from_queue, AsksGroups, empty_queue,
}

module _ {T : Type 0} where
  -- The buffer stands for the queue.
  pub record StandsFor (b : ReplayBuffer T) (q : Queue T) : Type 0 where
    pub holds : Holds b q.entries
    pub same_limit : b.max_size ≡ q.limit
    pub same_last : b.last_target_weight_already_generated ≡ q.last

  -- A call gives the same answer on both, and the buffer stands for the queue again.
  abbrev pub Agrees : ReplayBuffer T × Answer T → Queue T × Answer T → Type 0
  Agrees x y = StandsFor x.0 y.0 × (x.1 ≡ y.1)

  any-targets :
      (t : ℕ) (es : List (Entry T))
      → any (λ v. v == t) (map (λ (e : Entry T). e.target) es)
        ≡ any (λ (e : Entry T). e.target == t) es
  any-targets t [] = refl
  any-targets t (e ∷ es) = ground (arith, any-targets t es)

  count_of :
      (b : ReplayBuffer T) (q : Queue T) → StandsFor b q → length b.trajectories ≡ length q.entries
  count_of b q h = ap (λ l. length l) h.holds.trajectories ∙ length-map _ q.entries

  push-room :
      (e : Entry T) (b : ReplayBuffer T)
      → length b.trajectories < b.max_size
      → let after = (push_with_wait_signal e.trajectory e.version e.target b).0 in
        (after.max_size ≡ b.max_size)
        × (after.last_target_weight_already_generated
            ≡ raise_last b.last_target_weight_already_generated e.target)
  unfolding push_with_wait_signal
  push-room e b h =
      let room : leb b.max_size (length b.trajectories) ≡ false = ground arith in
      (rw room refl, rw room refl)

  push-Agrees :
      (e : Entry T) (b : ReplayBuffer T) (q : Queue T)
      → StandsFor b q
      → Agrees (call_buffer (push_entry e) b) (call_queue (push_entry e) q)
  unfolding call_buffer call_queue
  push-Agrees e b q h = elim (push_outcome b q.entries e h.holds) [
    | inl (room, holds, succeeds) ↦
        let kept = push-room e b (omega (arith, room, count_of b q h)) in
        let test : leb q.limit (length q.entries) ≡ false = ground (arith, room, h.same_limit) in
        rw test (
          record {
            holds = holds;
            same_limit = kept.0 ∙ h.same_limit;
            same_last = kept.1 ∙ ap (λ l. raise_last l e.target) h.same_last;
          },
          ap pushed succeeds,
        )
    | inr (none_left, stays) ↦
        let test : leb q.limit (length q.entries) ≡ true =
          ground (arith, none_left, h.same_limit) in
        rw (test, stays) (h, refl)
  ]

  batch-eq :
      (batch : Batch T) (es : List (Entry T)) (current : ℕ)
      → batch.trajectories ≡ map (λ (e : Entry T). e.trajectory) es
      → batch.total_age ≡ sum_by (λ (e : Entry T). current - e.version) es
      → batch.group_count ≡ length es
      → batch ≡ batch_from current es
  batch-eq batch es current h k l = rw (sym h, sym k, sym l) refl

  sample-Agrees :
      (n current age : ℕ) (b : ReplayBuffer T) (q : Queue T)
      → 0 < n
      → StandsFor b q
      → Agrees
          (call_buffer (sample_groups n current age) b)
          (call_queue (sample_groups n current age) q)
  unfolding call_buffer call_queue
  sample-Agrees n current age b q p h = elim (sample_outcome b q.entries current age n h.holds p) [
    | inl (old, raises) ↦ rw (raises, old) (h, refl)
    | inr (inl (young, enough, r)) ↦
        let test : leb n (count (is_intended current age) q.entries) ≡ true =
          ground (arith, enough) in
        let batch : r.batch ≡ batch_from current (taken (is_intended current age) n q.entries) =
          batch-eq r.batch (taken (is_intended current age) n q.entries) current r.trajectories
            r.total_age
            (r.group_count ∙ sym (length-taken (is_intended current age) n q.entries enough)) in
        rw (r.result, young, test)
          (
            record {
              holds = r.holds;
              same_limit = r.same_max_size ∙ h.same_limit;
              same_last = r.same_last ∙ h.same_last;
            },
            ap (λ x. sampled (ok (some x))) batch,
          )
    | inr (inr (young, few, waits)) ↦
        let test : leb n (count (is_intended current age) q.entries) ≡ false =
          ground (arith, few) in
        rw (waits, young, test) (h, refl)
  ]

  call-Agrees :
      (r : BufferCall T) (b : ReplayBuffer T) (q : Queue T)
      → AsksGroups r
      → StandsFor b q
      → Agrees (call_buffer r b) (call_queue r q)
  unfolding call_buffer call_queue size get_existing_target_weights get_debug_info clear
  call-Agrees (push_entry e) b q asks h = push-Agrees e b q h
  call-Agrees (sample_groups n current age) b q asks h = sample-Agrees n current age b q asks h
  call-Agrees ask_size b q asks h = (h, ap number (count_of b q h))
  call-Agrees (ask_target t) b q asks h =
      (h, ap found (ap (any (λ v. v == t)) h.holds.targets ∙ any-targets t q.entries))
  call-Agrees ask_last_target b q asks h = (h, ap last_target h.same_last)
  call-Agrees ask_debug_info b q asks h =
      (h, rw (h.holds.versions, h.holds.targets, h.same_limit, count_of b q h) refl)
  call-Agrees clear_all b q asks h = (
    record {
      holds = record { trajectories = refl; versions = refl; targets = refl };
      same_limit = h.same_limit;
      same_last = h.same_last;
    },
    refl,
  )

  answers-agree :
      (rs : List (BufferCall T)) (b : ReplayBuffer T) (q : Queue T)
      → All AsksGroups rs
      → StandsFor b q
      → answers_from_buffer rs b ≡ answers_from_queue rs q
  unfolding answers_from_buffer answers_from_queue
  answers-agree [] b q asks h = refl
  answers-agree (r ∷ rs) b q asks h =
      let (next, same) = call-Agrees r b q asks.0 h in
      ap (λ a. a ∷ answers_from_buffer rs (call_buffer r b).0) same
      ∙ ap (λ l. (call_queue r q).1 ∷ l)
          (answers-agree rs (call_buffer r b).0 (call_queue r q).0 asks.1 next)

  -- A new buffer of positive size refines a queue: whatever calls are made on it, where every batch asked
  -- for has at least one group, each returns or raises what the same call on one list of entries does,
  -- a list that a push extends up to the size and from which a batch takes the first entries intended
  -- for its step.
  pub replay_buffer_refines_queue :
      (max_size : ℕ) (rs : List (BufferCall T))
      → 0 < max_size
      → All AsksGroups rs
      → (b : ReplayBuffer T) × (init max_size ≡ ok b)
        × (answers_from_buffer rs b ≡ answers_from_queue rs (empty_queue max_size))
  unfolding init
  replay_buffer_refines_queue zero rs p asks = absurd (omega arith)
  replay_buffer_refines_queue (suc n) rs p asks = (
    _,
    refl,
    answers-agree rs _ (empty_queue (suc n)) asks (record {
      holds = record { trajectories = refl; versions = refl; targets = refl };
      same_limit = refl;
      same_last = refl;
    }),
  )
