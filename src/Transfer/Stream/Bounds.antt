-- ===== src/Transfer/Stream/Bounds.antt =====
-- Where `stream_weights_via_ipc_zmq_impl` writes, and when it raises.
use native.Mathlib.Decide.{dec_le}
use nemo_rl_submission.Prelude.{
  ℕ, ◌+◌, ◌/◌, ◌%◌, ◌≤◌, ◌<◌, ◌≡◌, refl, Bool, true, false, List, [], ◌∷◌, ◌++◌, arith, All,
  All-append, length, ok, raise, ◌⊎◌, inl, inr, assertion_error,
}
use nemo_rl_submission.Transfer.Stream.{
  Param, Action, pack_bytes, send, await_ack, send_complete, Sender, calculate_aligned_size,
  aligned, await_if, send_buffer_group_overlap, switch_buffer, pack_tensor, finish_stream,
  first_sender, stream_params, stream_weights_via_ipc_zmq_impl,
}
use nemo_rl_submission.Transfer.Stream.Cases.{too_large, switches, stays}

-- A parameter fits one buffer.
abbrev pub Fits : ℕ → Param → Type 0
Fits buffer_size_bytes p = aligned (length p.bytes) ≤ buffer_size_bytes / 2

-- A copy lies in a buffer of the size and starts at a multiple of the alignment, and a message tells
-- no more bytes than that.
abbrev pub IsWithin : ℕ → Action → Type 0
IsWithin size (pack_bytes buffer offset bytes) = (offset % 512 ≡ 0) × (offset + length bytes ≤ size)
IsWithin size (send buffer names used) = (used % 512 ≡ 0) × (used ≤ size)
IsWithin size _ = Unit

-- The least multiple of the alignment that is no smaller.
pub calculate_aligned_size_least :
    (size alignment : ℕ)
    → 0 < alignment
    → (calculate_aligned_size size alignment % alignment ≡ 0)
      × (size ≤ calculate_aligned_size size alignment)
      × (calculate_aligned_size size alignment < size + alignment)
unfolding calculate_aligned_size
calculate_aligned_size_least size alignment h = (grind arith, grind arith, grind arith)

aligned_more : (used n : ℕ) → used % 512 ≡ 0 → (used + aligned n) % 512 ≡ 0
unfolding aligned calculate_aligned_size
aligned_more used n h = grind arith

pub aligned-le : (n : ℕ) → n ≤ aligned n
unfolding aligned calculate_aligned_size
aligned-le n = grind arith

await_if-IsWithin : (size : ℕ) (w : Bool) → All (IsWithin size) (await_if w)
await_if-IsWithin size true = (tt, tt)
await_if-IsWithin size false = tt

overlap-IsWithin :
    (size : ℕ) (s : Sender)
    → s.used_bytes % 512 ≡ 0
    → s.used_bytes ≤ size
    → All (IsWithin size) (send_buffer_group_overlap s)
unfolding send_buffer_group_overlap
overlap-IsWithin size s even fits =
    All-append (IsWithin size) (await_if s.await_recv)
      (send s.current_buffer s.param_names s.used_bytes ∷ []) (await_if-IsWithin size s.await_recv)
      ((even, fits), tt)

finish-IsWithin :
    (size : ℕ) (s : Sender)
    → s.used_bytes % 512 ≡ 0
    → s.used_bytes ≤ size
    → All (IsWithin size) (finish_stream s)
unfolding finish_stream
finish-IsWithin size s even fits =
    elim s.param_names
      as (λ names. All (IsWithin size) (elim names [
        | [] ↦ await_if s.await_recv ++ send_complete ∷ await_ack ∷ []
        | _ ∷ _ ↦ send_buffer_group_overlap s ++ await_ack ∷ send_complete ∷ await_ack ∷ []
      ])) [
        | [] ↦
            All-append (IsWithin size) (await_if s.await_recv) _
              (await_if-IsWithin size s.await_recv) (tt, (tt, tt))
        | _ ∷ _ ↦
            All-append (IsWithin size) (send_buffer_group_overlap s) _
              (overlap-IsWithin size s even fits) (tt, (tt, (tt, tt)))
      ]

stream_params-IsWithin :
    (size : ℕ) (ps : List Param) (s : Sender)
    → s.used_bytes % 512 ≡ 0
    → s.used_bytes ≤ size
    → All (IsWithin size) (stream_params size s ps).actions
unfolding stream_params pack_tensor switch_buffer
stream_params-IsWithin size [] s even fits = finish-IsWithin size s even fits
stream_params-IsWithin size (p ∷ ps) s even room = elim (dec_le (aligned (length p.bytes)) size) [
  | no large ↦ rw (too_large size s p ps (omega arith)) tt
  | yes fits ↦ elim (dec_le (s.used_bytes + aligned (length p.bytes)) size) [
    | yes less ↦ rw (stays size s p ps fits less) (
      (even, omega (arith, aligned-le (length p.bytes))),
      stream_params-IsWithin size ps (pack_tensor s p)
          (aligned_more s.used_bytes (length p.bytes) even) less,
    )
    | no more ↦
        let t = switch_buffer s in
        let copying = pack_bytes t.current_buffer 0 p.bytes in
        rw (switches size s p ps fits (omega arith)) (
          All-append (IsWithin size) (send_buffer_group_overlap s ++ copying ∷ []) _
            (All-append (IsWithin size) (send_buffer_group_overlap s) (copying ∷ [])
              (overlap-IsWithin size s even room)
              ((refl, omega (arith, aligned-le (length p.bytes))), tt))
            (stream_params-IsWithin size ps (pack_tensor t p) (aligned_more 0 (length p.bytes) refl)
              (omega (arith, fits))))
  ]
]

stream_params_outcome :
    (size : ℕ) (ps : List Param) (s : Sender)
    → (All (λ (p : Param). aligned (length p.bytes) ≤ size) ps
        × ((stream_params size s ps).outcome ≡ ok tt))
      ⊎ ((All (λ (p : Param). aligned (length p.bytes) ≤ size) ps → ⊥)
          × ((stream_params size s ps).outcome ≡ raise assertion_error))
unfolding stream_params
stream_params_outcome size [] s = inl (tt, refl)
stream_params_outcome size (p ∷ ps) s = elim (dec_le (aligned (length p.bytes)) size) [
  | no large ↦ rw (too_large size s p ps (omega arith)) (inr ((λ h. large h.0), refl))
  | yes fits ↦ elim (dec_le (s.used_bytes + aligned (length p.bytes)) size) [
    | yes less ↦
        rw (stays size s p ps fits less) (elim (stream_params_outcome size ps (pack_tensor s p)) [
          | inl (all, e) ↦ inl ((fits, all), e)
          | inr (some, e) ↦ inr ((λ h. some h.1), e)
        ])
    | no more ↦
        rw (switches size s p ps fits (omega arith))
          (elim (stream_params_outcome size ps (pack_tensor (switch_buffer s) p)) [
            | inl (all, e) ↦ inl ((fits, all), e)
            | inr (some, e) ↦ inr ((λ h. some h.1), e)
          ])
  ]
]

-- Whether or not the sender raises in the end, every copy that it makes starts at a multiple of 512
-- bytes and lies within half of the buffer size, and every message tells a multiple of 512 bytes that
-- is no more than that half; and it raises AssertionError if some tensor, aligned, is larger than the
-- half, and raises nothing otherwise.
pub stream_weights_bounds :
    (buffer_size_bytes : ℕ) (params : List Param)
    → let streamed = stream_weights_via_ipc_zmq_impl buffer_size_bytes params in
      All (IsWithin (buffer_size_bytes / 2)) streamed.actions
      × ((All (Fits buffer_size_bytes) params × (streamed.outcome ≡ ok tt))
          ⊎ ((All (Fits buffer_size_bytes) params → ⊥)
              × (streamed.outcome ≡ raise assertion_error)))
unfolding stream_weights_via_ipc_zmq_impl
stream_weights_bounds buffer_size_bytes params = (
  stream_params-IsWithin (buffer_size_bytes / 2) params first_sender refl (omega arith),
  stream_params_outcome (buffer_size_bytes / 2) params first_sender,
)
