-- ===== src/Transfer/Rounds.antt =====
-- Rounds in which both ends of the socket have a turn, and how many finish the work.
use native.Mathlib.Decide.{dec_le}
use nemo_rl_submission.Transfer.Stream.Cases.{too_large, switches, stays}
use nemo_rl_submission.Prelude.{
  ℕ, suc, ◌+◌, ◌*◌, ◌≤◌, ◌<◌, ◌≡◌, ap, ◌⊎◌, inl, inr, Bool, true, false, List, [], ◌∷◌, ◌++◌, arith,
  length,
}
use nemo_rl_submission.Prelude.Text.{Text}
use nemo_rl_submission.Transfer.Stream.{
  Bytes, Param, Sender, await_if, send_buffer_group_overlap, finish_stream, switch_buffer,
  pack_tensor, Action, pack_bytes, send, await_ack, send_complete, aligned, stream_params,
}
use nemo_rl_submission.Transfer.Receive.{TensorInfo}
use nemo_rl_submission.Transfer.Socket.{Socket, Actor, sender, receiver, take_turn, run}
use nemo_rl_submission.Transfer.Flight.{IsSound}
use nemo_rl_submission.Transfer.Flight.Steps.{take_turn-IsSound}
use nemo_rl_submission.Transfer.Flight.Work.{work, todo_work, act_moves, someone_moves}

-- Rounds in which each end has a turn, with the one that goes first.
abbrev pub rounds : List Actor → List Actor
rounds [] = []
rounds (sender ∷ firsts) = sender ∷ receiver ∷ rounds firsts
rounds (receiver ∷ firsts) = receiver ∷ sender ∷ rounds firsts

module _ (infos : List (Text × TensorInfo)) (all : List (Text × Bytes)) where
  take_turn-le : (a : Actor) (s : Socket) → work (take_turn infos a s) ≤ work s
  take_turn-le a s = elim (act_moves infos a s) [
    | inl less ↦ omega arith
    | inr same ↦ rw same (omega arith)
  ]

  round_works :
      (a b : Actor) (s : Socket)
      → (work s ≡ 0)
        ⊎ ((work (take_turn infos a s) < work s) ⊎ (work (take_turn infos b s) < work s))
      → (work s ≡ 0) ⊎ (work (take_turn infos b (take_turn infos a s)) < work s)
  round_works a b s moves = elim (act_moves infos a s) [
    | inl less ↦ inr (omega (arith, less, take_turn-le b (take_turn infos a s)))
    | inr same ↦ elim moves [
      | inl none_left ↦ inl none_left
      | inr (inl less) ↦ absurd (omega (arith, less, ap work same))
      | inr (inr less) ↦ inr (rw same less)
    ]
  ]

  round_le :
      (a b : Actor) (s : Socket) (n : ℕ)
      → (work s ≡ 0)
        ⊎ ((work (take_turn infos a s) < work s) ⊎ (work (take_turn infos b s) < work s))
      → work s ≤ suc n
      → work (take_turn infos b (take_turn infos a s)) ≤ n
  round_le a b s n moves enough = elim (round_works a b s moves) [
    | inl none_left ↦
        omega (arith, none_left, take_turn-le a s, take_turn-le b (take_turn infos a s))
    | inr less ↦ omega (arith, less)
  ]

  swap : {P Q R : Type 0} → P ⊎ (Q ⊎ R) → P ⊎ (R ⊎ Q)
  swap (inl p) = inl p
  swap (inr (inl q)) = inr (inr q)
  swap (inr (inr r)) = inr (inl r)

  pub rounds_finish :
      (firsts : List Actor) (s : Socket)
      → IsSound infos all s
      → work s ≤ length firsts
      → work (run infos (rounds firsts) s) ≡ 0
  rounds_finish [] s h enough = omega arith
  rounds_finish (sender ∷ firsts) s h enough =
      rounds_finish firsts (take_turn infos receiver (take_turn infos sender s))
        (take_turn-IsSound infos all receiver _ (take_turn-IsSound infos all sender s h))
        (round_le sender receiver s (length firsts) (someone_moves infos all s h) enough)
  rounds_finish (receiver ∷ firsts) s h enough =
      rounds_finish firsts (take_turn infos sender (take_turn infos receiver s))
        (take_turn-IsSound infos all sender _ (take_turn-IsSound infos all receiver s h))
        (round_le receiver sender s (length firsts) (swap (someone_moves infos all s h)) enough)

todo_work-append : (xs ys : List Action) → todo_work (xs ++ ys) ≡ todo_work xs + todo_work ys
todo_work-append [] ys = omega arith
todo_work-append (x ∷ xs) ys = omega (arith, todo_work-append xs ys)

await_if-work : (w : Bool) → todo_work (await_if w) ≤ 1
await_if-work true = omega arith
await_if-work false = omega arith

overlap_work : (s : Sender) → todo_work (send_buffer_group_overlap s) ≤ 5
unfolding send_buffer_group_overlap
overlap_work s = omega (
  arith,
  await_if-work s.await_recv,
  todo_work-append (await_if s.await_recv) (send s.current_buffer s.param_names s.used_bytes ∷ []),
)

finish_work : (s : Sender) → todo_work (finish_stream s) ≤ 10
unfolding finish_stream
finish_work s =
    elim (s.param_names)
      as (λ names.
        todo_work (elim names [
          | [] ↦ await_if s.await_recv ++ send_complete ∷ await_ack ∷ []
          | _ ∷ _ ↦ send_buffer_group_overlap s ++ await_ack ∷ send_complete ∷ await_ack ∷ []
        ])
        ≤ 10) [
          | [] ↦ omega (
            arith,
            await_if-work s.await_recv,
            todo_work-append (await_if s.await_recv) (send_complete ∷ await_ack ∷ []),
          )
          | _ ∷ _ ↦ omega (
            arith,
            overlap_work s,
            todo_work-append (send_buffer_group_overlap s)
                (await_ack ∷ send_complete ∷ await_ack ∷ []),
          )
        ]

pub stream_work :
    (size : ℕ) (ps : List Param) (s : Sender)
    → todo_work (stream_params size s ps).actions ≤ 6 * length ps + 10
unfolding stream_params
stream_work size [] s = omega (arith, finish_work s)
stream_work size (p ∷ ps) s = elim (dec_le (aligned (length p.bytes)) size) [
  | no large ↦ rw (too_large size s p ps (omega arith)) (omega arith)
  | yes fits ↦ elim (dec_le (s.used_bytes + aligned (length p.bytes)) size) [
    | yes less ↦
        rw (stays size s p ps fits less) (omega (arith, stream_work size ps (pack_tensor s p)))
    | no more ↦
        let t = switch_buffer s in
        let sent = send_buffer_group_overlap s in
        let copying = pack_bytes t.current_buffer t.used_bytes p.bytes in
        rw (switches size s p ps fits (omega arith)) (
          omega (
            arith,
            overlap_work s,
            todo_work-append sent (copying ∷ []),
            todo_work-append (sent ++ copying ∷ [])
                (stream_params size (pack_tensor t p) ps).actions,
            stream_work size ps (pack_tensor t p),
          ))
  ]
]
