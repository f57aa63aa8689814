-- ===== src/Async/Replay/Queue.antt =====
-- `ReplayBuffer` as its callers see it: one list of entries, whose first are handed out, and any
-- sequence of calls on it.
pub mod Refines
use nemo_rl_submission.Prelude.{
  ℕ, ◌-◌, ◌<◌, Bool, true, false, Option, none, some, List, [], ◌∷◌, ◌++◌, map, leb, ◌==◌, any,
  if◌then◌else◌, length, sum_by, Result, ok, raise, value_error,
}
use nemo_rl_submission.Async.Replay.{
  ReplayBuffer, Status, success, full, Batch, DebugInfo, raise_last, push_with_wait_signal, sample,
  get_debug_info, get_existing_target_weights, size, clear,
}
use nemo_rl_submission.Async.Replay.Indices.{taken, left}
use nemo_rl_submission.Async.Replay.Intended.{Entry, is_intended, is_old, count}

module _ (T : Type 0) where
  -- A call of a method, with its arguments.
  pub data BufferCall : Type 0 where
    push_entry : Entry T → BufferCall
    sample_groups : ℕ → ℕ → ℕ → BufferCall
    ask_size : BufferCall
    ask_target : ℕ → BufferCall
    ask_last_target : BufferCall
    ask_debug_info : BufferCall
    clear_all : BufferCall

  -- What a call returns, or the exception that leaves it.
  pub data Answer : Type 0 where
    pushed : Status → Answer
    sampled : Result (Option (Batch T)) → Answer
    number : ℕ → Answer
    found : Bool → Answer
    last_target : Option ℕ → Answer
    info : DebugInfo → Answer
    cleared : Answer

  -- The abstract state.
  pub record Queue : Type 0 where
    pub limit : ℕ
    pub entries : List (Entry T)
    pub last : Option ℕ

module _ {T : Type 0} where
  -- A call that raises leaves the buffer as it was.
  abbrev pub sample_answer :
      ReplayBuffer T → Result (ReplayBuffer T × Option (Batch T)) → ReplayBuffer T × Answer T
  sample_answer b (raise error) = (b, sampled (raise error))
  sample_answer b (ok returned) = (returned.0, sampled (ok returned.1))

  -- A call on the buffer.
  unfoldable pub call_buffer : BufferCall T → ReplayBuffer T → ReplayBuffer T × Answer T
  unfolding push_with_wait_signal sample size get_existing_target_weights get_debug_info clear
  call_buffer (push_entry e) b =
      let returned = push_with_wait_signal e.trajectory e.version e.target b in
      (returned.0, pushed returned.1)
  call_buffer (sample_groups n current age) b = sample_answer b (sample n current age b)
  call_buffer ask_size b = (b, number (size b))
  call_buffer (ask_target t) b = (b, found (get_existing_target_weights b t))
  call_buffer ask_last_target b = (b, last_target b.last_target_weight_already_generated)
  call_buffer ask_debug_info b = (b, info (get_debug_info b))
  call_buffer clear_all b = (clear b, cleared)

  abbrev pub batch_from : ℕ → List (Entry T) → Batch T
  batch_from current es = record {
    trajectories = map (λ (e : Entry T). e.trajectory) es;
    total_age = sum_by (λ (e : Entry T). current - e.version) es;
    group_count = length es;
  }

  -- The same call on the list of entries.
  unfoldable pub call_queue : BufferCall T → Queue T → Queue T × Answer T
  unfolding raise_last
  call_queue (push_entry e) q = if leb q.limit (length q.entries) then (q, pushed full) else (
    record q { entries = q.entries ++ e ∷ []; last = raise_last q.last e.target },
    pushed success,
  )
  call_queue (sample_groups n current age) q =
      if any (is_old current age) q.entries
      then (q, sampled (raise value_error))
      else if leb n (count (is_intended current age) q.entries)
      then (
        record q { entries = left (is_intended current age) n q.entries },
        sampled (ok (some (batch_from current (taken (is_intended current age) n q.entries)))),
      )
      else (q, sampled (ok none))
  call_queue ask_size q = (q, number (length q.entries))
  call_queue (ask_target t) q = (q, found (any (λ (e : Entry T). e.target == t) q.entries))
  call_queue ask_last_target q = (q, last_target q.last)
  call_queue ask_debug_info q = (
    q,
    info (record {
      total_trajectories = length q.entries;
      trajectory_versions = map (λ (e : Entry T). e.version) q.entries;
      target_weight_versions = map (λ (e : Entry T). e.target) q.entries;
      max_size = q.limit;
    }),
  )
  call_queue clear_all q = (record q { entries = [] }, cleared)

  -- The answers to calls, one after the other.
  unfoldable pub answers_from_buffer : List (BufferCall T) → ReplayBuffer T → List (Answer T)
  unfolding call_buffer
  answers_from_buffer [] b = []
  answers_from_buffer (r ∷ rs) b = (call_buffer r b).1 ∷ answers_from_buffer rs (call_buffer r b).0

  unfoldable pub answers_from_queue : List (BufferCall T) → Queue T → List (Answer T)
  unfolding call_queue
  answers_from_queue [] q = []
  answers_from_queue (r ∷ rs) q = (call_queue r q).1 ∷ answers_from_queue rs (call_queue r q).0

  -- Batches of at least one group are asked for.
  abbrev pub AsksGroups : BufferCall T → Type 0
  AsksGroups (sample_groups n current age) = 0 < n
  AsksGroups _ = Unit

  abbrev pub empty_queue : ℕ → Queue T
  empty_queue limit = record { limit = limit; entries = []; last = none }
