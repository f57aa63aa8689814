-- ===== src/Transfer/Flight/Steps.antt =====
-- A step of either end keeps the plan of what is delivered.
use mathlib.Core.Path.{subst}
use nemo_rl_submission.Prelude.{ℕ, ◌≡◌, refl, sym, List, [], ◌∷◌, ◌++◌, append_assoc, ok, ◌∙◌}
use nemo_rl_submission.Prelude.Text.{Text}
use nemo_rl_submission.Transfer.Stream.{
  Bytes, Buffer, Action, pack_bytes, send, await_ack, send_complete,
}
use nemo_rl_submission.Transfer.Receive.{TensorInfo, read_payload}
use nemo_rl_submission.Transfer.Socket.{
  payload, complete, loaded_group, Memory, Socket, bytes_of, write_buffer, sender_step,
  handle_message, receiver_step, Actor, sender, receiver, take_turn, run,
}
use nemo_rl_submission.Transfer.Flight.{
  Flight, quiet, posted, taken, held, acked, closed, over, pending_of, placed, Plan, Owed, IsSound,
  Owed-write_buffer,
}

handle-ok :
    (infos : List (Text × TensorInfo)) (b : Buffer) (names : List Text) (used : ℕ) (s : Socket)
    (group : List (Text × Bytes))
    → read_payload infos (bytes_of s.memory b) names used ≡ ok group
    → handle_message infos (payload b names used) s
      ≡ record s { phase = loaded_group; weights = s.weights ++ group }
unfolding handle_message
handle-ok infos b names used s group h = rw (handle_message, h) refl

module _ (infos : List (Text × TensorInfo)) (all : List (Text × Bytes)) where
  -- A socket that is in such a place.
  sound :
      (todo : List Action) (m : Memory) (ws : List (Text × Bytes)) (f : Flight)
      (group rest : List (Text × Bytes))
      → Plan infos (pending_of f) m todo rest
      → Owed infos m f group
      → ws ++ (group ++ rest) ≡ all
      → IsSound infos all (placed todo m ws f)
  sound todo m ws f group rest plan owed whole = record {
    todo = todo;
    memory = m;
    weights = ws;
    flight = f;
    group = group;
    rest = rest;
    same = refl;
    plan = plan;
    owed = owed;
    whole = whole;
  }

  sends-IsSound :
      (b : Buffer) (names : List Text) (used : ℕ) (todo : List Action) (m : Memory)
      (ws : List (Text × Bytes)) (f : Flight) (group rest : List (Text × Bytes))
      → Plan infos (pending_of f) m (send b names used ∷ todo) rest
      → Owed infos m f group
      → ws ++ (group ++ rest) ≡ all
      → IsSound infos all (sender_step (placed (send b names used ∷ todo) m ws f))
  unfolding sender_step
  sends-IsSound b names used todo m ws quiet group rest plan owed whole =
      let (next, later, reads, splits, plan') = plan.1 in
      sound todo m ws (posted (payload b names used)) next later plan' reads
        (subst (λ l. ws ++ l ≡ all) splits (subst (λ g. ws ++ (g ++ rest) ≡ all) owed whole))
  sends-IsSound b names used todo m ws (posted (payload _ _ _)) group rest plan owed whole = cc
  sends-IsSound b names used todo m ws (posted complete) group rest plan owed whole = cc
  sends-IsSound b names used todo m ws (taken (payload _ _ _)) group rest plan owed whole = cc
  sends-IsSound b names used todo m ws (taken complete) group rest plan owed whole = cc
  sends-IsSound b names used todo m ws (held p) group rest plan owed whole = cc
  sends-IsSound b names used todo m ws (acked p) group rest plan owed whole = cc
  sends-IsSound b names used todo m ws closed group rest plan owed whole = cc
  sends-IsSound b names used todo m ws over group rest plan owed whole = cc

  closes-IsSound :
      (todo : List Action) (m : Memory) (ws : List (Text × Bytes)) (f : Flight)
      (group rest : List (Text × Bytes))
      → Plan infos (pending_of f) m (send_complete ∷ todo) rest
      → Owed infos m f group
      → ws ++ (group ++ rest) ≡ all
      → IsSound infos all (sender_step (placed (send_complete ∷ todo) m ws f))
  unfolding sender_step
  closes-IsSound todo m ws quiet group rest plan owed whole =
      sound todo m ws (posted complete) group rest plan.1 owed whole
  closes-IsSound todo m ws (posted (payload _ _ _)) group rest plan owed whole = cc
  closes-IsSound todo m ws (posted complete) group rest plan owed whole = cc
  closes-IsSound todo m ws (taken (payload _ _ _)) group rest plan owed whole = cc
  closes-IsSound todo m ws (taken complete) group rest plan owed whole = cc
  closes-IsSound todo m ws (held p) group rest plan owed whole = cc
  closes-IsSound todo m ws (acked p) group rest plan owed whole = cc
  closes-IsSound todo m ws closed group rest plan owed whole = cc
  closes-IsSound todo m ws over group rest plan owed whole = cc

  awaits-IsSound :
      (todo : List Action) (m : Memory) (ws : List (Text × Bytes)) (f : Flight)
      (group rest : List (Text × Bytes))
      → Plan infos (pending_of f) m (await_ack ∷ todo) rest
      → Owed infos m f group
      → ws ++ (group ++ rest) ≡ all
      → IsSound infos all (sender_step (placed (await_ack ∷ todo) m ws f))
  unfolding sender_step
  awaits-IsSound todo m ws quiet group rest plan owed whole = absurd plan.0
  awaits-IsSound todo m ws over group rest plan owed whole = absurd plan.0
  awaits-IsSound todo m ws (acked p) group rest plan owed whole =
      sound todo m ws quiet group rest plan.1 owed whole
  awaits-IsSound todo m ws closed group rest plan owed whole =
      sound todo m ws over group rest plan.1 owed whole
  awaits-IsSound todo m ws (posted n) group rest plan owed whole =
      sound (await_ack ∷ todo) m ws (posted n) group rest plan owed whole
  awaits-IsSound todo m ws (taken n) group rest plan owed whole =
      sound (await_ack ∷ todo) m ws (taken n) group rest plan owed whole
  awaits-IsSound todo m ws (held p) group rest plan owed whole =
      sound (await_ack ∷ todo) m ws (held p) group rest plan owed whole

  sender-IsSound :
      (todo : List Action) (m : Memory) (ws : List (Text × Bytes)) (f : Flight)
      (group rest : List (Text × Bytes))
      → Plan infos (pending_of f) m todo rest
      → Owed infos m f group
      → ws ++ (group ++ rest) ≡ all
      → IsSound infos all (sender_step (placed todo m ws f))
  unfolding sender_step
  sender-IsSound [] m ws f group rest plan owed whole = sound [] m ws f group rest plan owed whole
  sender-IsSound (pack_bytes b offset bytes ∷ todo) m ws f group rest plan owed whole =
      sound todo (write_buffer m b offset bytes) ws f group rest plan.1
        (Owed-write_buffer infos f b m offset bytes group plan.0 owed) whole
  sender-IsSound (send b names used ∷ todo) m ws f group rest plan owed whole =
      sends-IsSound b names used todo m ws f group rest plan owed whole
  sender-IsSound (await_ack ∷ todo) m ws f group rest plan owed whole =
      awaits-IsSound todo m ws f group rest plan owed whole
  sender-IsSound (send_complete ∷ todo) m ws f group rest plan owed whole =
      closes-IsSound todo m ws f group rest plan owed whole

  receiver-IsSound :
      (todo : List Action) (m : Memory) (ws : List (Text × Bytes)) (f : Flight)
      (group rest : List (Text × Bytes))
      → Plan infos (pending_of f) m todo rest
      → Owed infos m f group
      → ws ++ (group ++ rest) ≡ all
      → IsSound infos all (receiver_step infos (placed todo m ws f))
  unfolding receiver_step handle_message
  receiver-IsSound todo m ws quiet group rest plan owed whole =
      sound todo m ws quiet group rest plan owed whole
  receiver-IsSound todo m ws (posted (payload b names used)) group rest plan owed whole =
      sound todo m ws (taken (payload b names used)) group rest plan owed whole
  receiver-IsSound todo m ws (posted complete) group rest plan owed whole =
      sound todo m ws (taken complete) group rest plan owed whole
  receiver-IsSound todo m ws (taken (payload b names used)) group rest plan owed whole =
      subst (IsSound infos all)
        (sym (
          handle-ok infos b names used (placed todo m ws (taken (payload b names used))) group
            owed))
        (sound todo m (ws ++ group) (held b) [] rest plan refl (append_assoc ws group rest ∙ whole))
  receiver-IsSound todo m ws (taken complete) group rest plan owed whole =
      sound todo m ws closed group rest plan owed whole
  receiver-IsSound todo m ws (held b) group rest plan owed whole =
      sound todo m ws (acked b) group rest plan owed whole
  receiver-IsSound todo m ws (acked b) group rest plan owed whole =
      sound todo m ws (acked b) group rest plan owed whole
  receiver-IsSound todo m ws closed group rest plan owed whole =
      sound todo m ws closed group rest plan owed whole
  receiver-IsSound todo m ws over group rest plan owed whole =
      sound todo m ws over group rest plan owed whole

  pub take_turn-IsSound :
      (a : Actor) (s : Socket) → IsSound infos all s → IsSound infos all (take_turn infos a s)
  take_turn-IsSound sender s h =
      subst (λ t. IsSound infos all (sender_step t)) (sym h.same)
        (sender-IsSound h.todo h.memory h.weights h.flight h.group h.rest h.plan h.owed h.whole)
  take_turn-IsSound receiver s h =
      subst (λ t. IsSound infos all (receiver_step infos t)) (sym h.same)
        (receiver-IsSound h.todo h.memory h.weights h.flight h.group h.rest h.plan h.owed h.whole)

  pub run-IsSound :
      (turns : List Actor) (s : Socket)
      → IsSound infos all s
      → IsSound infos all (run infos turns s)
  run-IsSound [] s h = h
  run-IsSound (a ∷ turns) s h = run-IsSound turns (take_turn infos a s) (take_turn-IsSound a s h)
