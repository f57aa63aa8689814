-- ===== src/Transfer/Outcome.antt =====
-- What a sound socket says of the receiver, during the transfer and with no work left.
use mathlib.Core.Path.{subst}
use nemo_rl_submission.Prelude.{
  ◌≡◌, ◌≢◌, refl, sym, ◌∙◌, ◌⊎◌, inl, inr, List, [], ◌∷◌, ◌++◌, append-nil, arith,
}
use nemo_rl_submission.Prelude.Text.{Text}
use nemo_rl_submission.Transfer.Stream.{Bytes, Action, pack_bytes, send, await_ack, send_complete}
use nemo_rl_submission.Transfer.Receive.{TensorInfo}
use nemo_rl_submission.Transfer.Socket.{payload, complete, updated, failed, Memory, Socket}
use nemo_rl_submission.Transfer.Flight.{
  Owed, Flight, quiet, posted, taken, held, acked, closed, over, Pending, free, busy, closing,
  ended, pending_of, placed, phase_of, Plan, IsSound,
}
use nemo_rl_submission.Transfer.Flight.Work.{work}

-- After COMPLETE the sender has nothing to deliver.
Plan-closing :
    (infos : List (Text × TensorInfo)) (p : Pending) (m : Memory) (todo : List Action)
    (ws : List (Text × Bytes))
    → (p ≡ closing) ⊎ (p ≡ ended)
    → Plan infos p m todo ws
    → ws ≡ []
Plan-closing infos p m [] ws late plan = plan.1
Plan-closing infos p m (pack_bytes b o bytes ∷ todo) ws late plan =
    Plan-closing infos p _ todo ws late plan.1
Plan-closing infos p m (send b names used ∷ todo) ws late plan = elim late [
  | inl e ↦ cc
  | inr e ↦ cc
]
Plan-closing infos closing m (await_ack ∷ todo) ws late plan =
    Plan-closing infos ended m todo ws (inr refl) plan.1
Plan-closing infos ended m (await_ack ∷ todo) ws late plan = absurd plan.0
Plan-closing infos free m (await_ack ∷ todo) ws late plan = absurd plan.0
Plan-closing infos (busy b) m (await_ack ∷ todo) ws late plan = elim late [
  | inl e ↦ cc
  | inr e ↦ cc
]
Plan-closing infos p m (send_complete ∷ todo) ws late plan = elim late [ inl e ↦ cc | inr e ↦ cc ]

complete_weights :
    (infos : List (Text × TensorInfo)) (all : List (Text × Bytes)) (todo : List Action) (m : Memory)
    (ws group rest : List (Text × Bytes)) (p : Pending)
    → (p ≡ closing) ⊎ (p ≡ ended)
    → Plan infos p m todo rest
    → group ≡ []
    → ws ++ (group ++ rest) ≡ all
    → ws ≡ all
complete_weights infos all todo m ws group rest p late plan owed whole =
    sym (append-nil ws)
    ∙ subst (λ l. ws ++ l ≡ all) (Plan-closing infos p m todo rest late plan)
        (subst (λ g. ws ++ (g ++ rest) ≡ all) owed whole)

-- What a sound socket says of the receiver.
IsSound-placed :
    (infos : List (Text × TensorInfo)) (all : List (Text × Bytes)) (todo : List Action) (m : Memory)
    (ws : List (Text × Bytes)) (f : Flight) (group rest : List (Text × Bytes))
    → Plan infos (pending_of f) m todo rest
    → Owed infos m f group
    → ws ++ (group ++ rest) ≡ all
    → (phase_of f ≢ failed) × (phase_of f ≡ updated → ws ≡ all)
IsSound-placed infos all todo m ws quiet group rest plan owed whole = ((λ e. cc), (λ e. cc))
IsSound-placed infos all todo m ws (posted n) group rest plan owed whole = ((λ e. cc), (λ e. cc))
IsSound-placed infos all todo m ws (taken n) group rest plan owed whole = ((λ e. cc), (λ e. cc))
IsSound-placed infos all todo m ws (held b) group rest plan owed whole = ((λ e. cc), (λ e. cc))
IsSound-placed infos all todo m ws (acked b) group rest plan owed whole = ((λ e. cc), (λ e. cc))
IsSound-placed infos all todo m ws closed group rest plan owed whole = (
  (λ e. cc),
  (λ e. complete_weights infos all todo m ws group rest closing (inl refl) plan owed whole),
)
IsSound-placed infos all todo m ws over group rest plan owed whole = (
  (λ e. cc),
  (λ e. complete_weights infos all todo m ws group rest ended (inr refl) plan owed whole),
)

pub IsSound-outcome :
    (infos : List (Text × TensorInfo)) (all : List (Text × Bytes)) (s : Socket)
    → IsSound infos all s
    → (s.phase ≢ failed)
      × (s.phase ≡ updated → s.weights ≡ all)
      × ((missing : List (Text × Bytes)) × (s.weights ++ missing ≡ all))
IsSound-outcome infos all s h =
    subst
      (λ t.
        (t.phase ≢ failed)
        × (t.phase ≡ updated → t.weights ≡ all)
        × ((missing : List (Text × Bytes)) × (t.weights ++ missing ≡ all)))
      (sym h.same)
      (let (never, finish) =
          IsSound-placed infos all h.todo h.memory h.weights h.flight h.group h.rest h.plan h.owed
            h.whole in
        (never, finish, (h.group ++ h.rest, h.whole)))

place_finished :
    (infos : List (Text × TensorInfo)) (todo : List Action) (m : Memory) (ws : List (Text × Bytes))
    (f : Flight) (rest : List (Text × Bytes))
    → Plan infos (pending_of f) m todo rest
    → work (placed todo m ws f) ≡ 0
    → phase_of f ≡ updated
place_finished infos [] m ws quiet rest plan h = cc
place_finished infos [] m ws (posted (payload b names used)) rest plan h = absurd (omega arith)
place_finished infos [] m ws (posted complete) rest plan h = absurd (omega arith)
place_finished infos [] m ws (taken (payload b names used)) rest plan h = absurd (omega arith)
place_finished infos [] m ws (taken complete) rest plan h = absurd (omega arith)
place_finished infos [] m ws (held b) rest plan h = absurd (omega arith)
place_finished infos [] m ws (acked b) rest plan h = cc
place_finished infos [] m ws closed rest plan h = refl
place_finished infos [] m ws over rest plan h = refl
place_finished infos (pack_bytes b o bytes ∷ todo) m ws f rest plan h = absurd (omega arith)
place_finished infos (send b names used ∷ todo) m ws f rest plan h = absurd (omega arith)
place_finished infos (await_ack ∷ todo) m ws f rest plan h = absurd (omega arith)
place_finished infos (send_complete ∷ todo) m ws f rest plan h = absurd (omega arith)

-- With no work left, the receiver has returned.
pub IsSound-finished :
    (infos : List (Text × TensorInfo)) (all : List (Text × Bytes)) (s : Socket)
    → IsSound infos all s
    → work s ≡ 0
    → s.phase ≡ updated
IsSound-finished infos all s h none_left =
    subst (λ t. work t ≡ 0 → t.phase ≡ updated) (sym h.same)
      (place_finished infos h.todo h.memory h.weights h.flight h.rest h.plan) none_left
