-- ===== src/Transfer/Stream/Cases.antt =====
-- The three ways in which the loop of `stream_weights_via_ipc_zmq_impl` takes a parameter.
use nemo_rl_submission.Prelude.{
  ℕ, ◌+◌, ◌≤◌, ◌<◌, ◌≡◌, refl, true, false, List, [], ◌∷◌, ◌++◌, arith, leb, ltb, length, raise,
  assertion_error,
}
use nemo_rl_submission.Transfer.Stream.{
  Param, Sender, pack_bytes, aligned, after, send_buffer_group_overlap, switch_buffer, pack_tensor,
  stream_params,
}

pub too_large :
    (size : ℕ) (s : Sender) (p : Param) (ps : List Param)
    → size < aligned (length p.bytes)
    → stream_params size s (p ∷ ps) ≡ record { actions = []; outcome = raise assertion_error }
unfolding stream_params
too_large size s p ps h =
    let big : leb (aligned (length p.bytes)) size ≡ false = ground arith in
    rw (stream_params, big) refl

pub switches :
    (size : ℕ) (s : Sender) (p : Param) (ps : List Param)
    → aligned (length p.bytes) ≤ size
    → size < s.used_bytes + aligned (length p.bytes)
    → stream_params size s (p ∷ ps)
      ≡ after
          (send_buffer_group_overlap s
            ++ pack_bytes (switch_buffer s).current_buffer (switch_buffer s).used_bytes p.bytes
              ∷ [])
          (stream_params size (pack_tensor (switch_buffer s) p) ps)
unfolding stream_params
switches size s p ps h k =
    let big : leb (aligned (length p.bytes)) size ≡ true = ground arith in
    let more : ltb size (s.used_bytes + aligned (length p.bytes)) ≡ true = ground arith in
    rw (stream_params, big, more) refl

pub stays :
    (size : ℕ) (s : Sender) (p : Param) (ps : List Param)
    → aligned (length p.bytes) ≤ size
    → s.used_bytes + aligned (length p.bytes) ≤ size
    → stream_params size s (p ∷ ps)
      ≡ after
          (pack_bytes s.current_buffer s.used_bytes p.bytes ∷ [])
          (stream_params size (pack_tensor s p) ps)
unfolding stream_params
stays size s p ps h k =
    let big : leb (aligned (length p.bytes)) size ≡ true = ground arith in
    let more : ltb size (s.used_bytes + aligned (length p.bytes)) ≡ false = ground arith in
    rw (stream_params, big, more) refl
