-- ===== src/Transfer/Flight/Work.antt =====
-- How many steps the two ends have left, and that one of them can always take the next.
use mathlib.Core.Path.{subst}
use nemo_rl_submission.Prelude.{
  ℕ, zero, suc, ◌+◌, ◌<◌, ◌≡◌, refl, sym, ◌⊎◌, inl, inr, List, [], ◌∷◌, ◌++◌, arith, Result,
  Exception, ok, raise,
}
use nemo_rl_submission.Prelude.Text.{Text}
use nemo_rl_submission.Transfer.Stream.{Bytes, Action, pack_bytes, send, await_ack, send_complete}
use nemo_rl_submission.Transfer.Receive.{TensorInfo, read_payload}
use nemo_rl_submission.Transfer.Socket.{
  SocketMessage, payload, complete, Phase, receiving, handling, loaded_group, updated, failed,
  Memory, bytes_of, Socket, sender_step, handle_message, receiver_step, Actor, sender, receiver,
  take_turn,
}
use nemo_rl_submission.Transfer.Flight.{
  messages_of, Flight, quiet, posted, taken, held, acked, closed, over, pending_of, messages_of,
  placed, Plan, IsSound,
}

abbrev pub action_work : Action → ℕ
action_work (pack_bytes buffer offset bytes) = 1
action_work (send buffer names used) = 4
action_work await_ack = 1
action_work send_complete = 3

abbrev pub todo_work : List Action → ℕ
todo_work [] = 0
todo_work (a ∷ todo) = action_work a + todo_work todo

abbrev pub message_work : SocketMessage → ℕ
message_work (payload buffer names used) = 3
message_work complete = 2

abbrev pub messages_work : List SocketMessage → ℕ
messages_work [] = 0
messages_work (m ∷ ms) = message_work m + messages_work ms

abbrev pub phase_work : Phase → ℕ
phase_work (handling (payload buffer names used)) = 2
phase_work (handling complete) = 1
phase_work loaded_group = 1
phase_work _ = 0

-- The steps that are left.
abbrev pub work : Socket → ℕ
work s = todo_work s.todo + messages_work s.messages + phase_work s.phase

messages_work-snoc :
    (ms : List SocketMessage) (m : SocketMessage)
    → messages_work (ms ++ m ∷ []) ≡ messages_work ms + message_work m
messages_work-snoc [] m = omega arith
messages_work-snoc (n ∷ ms) m = omega (arith, messages_work-snoc ms m)

-- A step either is one of those, or was no step.
sender_moves :
    (todo : List Action) (m : Memory) (ms : List SocketMessage) (n : ℕ) (p : Phase)
    (ws : List (Text × Bytes))
    → let s : Socket = record {
      todo = todo;
      memory = m;
      messages = ms;
      acks = n;
      phase = p;
      weights = ws;
    } in
      (work (sender_step s) < work s) ⊎ (sender_step s ≡ s)
unfolding sender_step
sender_moves [] m ms n p ws = inr refl
sender_moves (pack_bytes b o bytes ∷ todo) m ms n p ws = inl (omega arith)
sender_moves (send b names used ∷ todo) m ms n p ws =
    inl (omega (arith, messages_work-snoc ms (payload b names used)))
sender_moves (await_ack ∷ todo) m ms zero p ws = inr refl
sender_moves (await_ack ∷ todo) m ms (suc n) p ws = inl (omega arith)
sender_moves (send_complete ∷ todo) m ms n p ws =
    inl (omega (arith, messages_work-snoc ms complete))

Result-cases :
    {R : Type 0} (r : Result R) → ((x : R) × (r ≡ ok x)) ⊎ ((e : Exception) × (r ≡ raise e))
Result-cases (ok x) = inl (x, refl)
Result-cases (raise e) = inr (e, refl)

module _ (infos : List (Text × TensorInfo)) where
  handle_moves :
      (m : SocketMessage) (s : Socket)
      → s.phase ≡ handling m
      → work (handle_message infos m s) < work s
  unfolding handle_message
  handle_moves complete s h = rw h (omega arith)
  handle_moves (payload b names used) s h =
      elim (Result-cases (read_payload infos (bytes_of s.memory b) names used)) [
        | inl (group, e) ↦ rw (handle_message, e, h) (omega arith)
        | inr (error, e) ↦ rw (handle_message, e, h) (omega arith)
      ]

  receiver_moves :
      (todo : List Action) (m : Memory) (ms : List SocketMessage) (n : ℕ) (p : Phase)
      (ws : List (Text × Bytes))
      → let s : Socket = record {
        todo = todo;
        memory = m;
        messages = ms;
        acks = n;
        phase = p;
        weights = ws;
      } in
        (work (receiver_step infos s) < work s) ⊎ (receiver_step infos s ≡ s)
  unfolding receiver_step
  receiver_moves todo m [] n receiving ws = inr refl
  receiver_moves todo m (payload b names used ∷ ms) n receiving ws = inl (omega arith)
  receiver_moves todo m (complete ∷ ms) n receiving ws = inl (omega arith)
  receiver_moves todo m ms n (handling h) ws = inl (handle_moves h _ refl)
  receiver_moves todo m ms n loaded_group ws = inl (omega arith)
  receiver_moves todo m ms n updated ws = inr refl
  receiver_moves todo m ms n failed ws = inr refl

  pub act_moves :
      (a : Actor) (s : Socket) → (work (take_turn infos a s) < work s) ⊎ (take_turn infos a s ≡ s)
  act_moves sender s = sender_moves s.todo s.memory s.messages s.acks s.phase s.weights
  act_moves receiver s = receiver_moves s.todo s.memory s.messages s.acks s.phase s.weights

  -- In a sound socket with work left, one of the two ends has a step to take.
  place_moves :
      (todo : List Action) (m : Memory) (ws : List (Text × Bytes)) (f : Flight)
      (rest : List (Text × Bytes))
      → Plan infos (pending_of f) m todo rest
      → let s = placed todo m ws f in
        (work s ≡ 0) ⊎ ((work (sender_step s) < work s) ⊎ (work (receiver_step infos s) < work s))
  unfolding sender_step receiver_step
  place_moves todo m ws (taken n) rest plan = inr (inr (handle_moves n _ refl))
  place_moves todo m ws (posted (payload b names used)) rest plan = inr (inr (omega arith))
  place_moves todo m ws (posted complete) rest plan = inr (inr (omega arith))
  place_moves todo m ws (held b) rest plan = inr (inr (omega arith))
  place_moves [] m ws over rest plan = inl refl
  place_moves [] m ws quiet rest plan = cc
  place_moves [] m ws (acked b) rest plan = cc
  place_moves [] m ws closed rest plan = cc
  place_moves (pack_bytes b o bytes ∷ todo) m ws f rest plan = inr (inl (omega arith))
  place_moves (send b names used ∷ todo) m ws f rest plan =
      inr (inl (omega (arith, messages_work-snoc (messages_of f) (payload b names used))))
  place_moves (send_complete ∷ todo) m ws f rest plan =
      inr (inl (omega (arith, messages_work-snoc (messages_of f) complete)))
  place_moves (await_ack ∷ todo) m ws quiet rest plan = absurd plan.0
  place_moves (await_ack ∷ todo) m ws over rest plan = absurd plan.0
  place_moves (await_ack ∷ todo) m ws (acked b) rest plan = inr (inl (omega arith))
  place_moves (await_ack ∷ todo) m ws closed rest plan = inr (inl (omega arith))

  pub someone_moves :
      (all : List (Text × Bytes)) (s : Socket)
      → IsSound infos all s
      → (work s ≡ 0) ⊎ ((work (sender_step s) < work s) ⊎ (work (receiver_step infos s) < work s))
  someone_moves all s h =
      subst
        (λ t.
          (work t ≡ 0)
          ⊎ ((work (sender_step t) < work t) ⊎ (work (receiver_step infos t) < work t)))
        (sym h.same) (place_moves h.todo h.memory h.weights h.flight h.rest h.plan)
