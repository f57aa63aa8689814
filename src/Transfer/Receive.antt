-- ===== src/Transfer/Receive.antt =====
-- nemo_rl/models/generation/vllm/vllm_backend.py: what `update_weights_via_ipc_zmq` does with one
-- payload.
use nemo_rl_submission.Prelude.{
  ℕ, ◌+◌, ◌*◌, not, List, [], ◌∷◌, ◌==◌, if◌then◌else◌, length, Result, ok, raise, raise_if, ◌>>=◌,
  ◌>>◌, key_error, runtime_error, assertion_error,
}
use nemo_rl_submission.Prelude.Text.{Text, text_eq}
use nemo_rl_submission.Transfer.Memory.{byte_slice}
use nemo_rl_submission.Transfer.Stream.{Bytes, aligned}

-- What `state_dict_info` holds for a name: a shape and the item size of the dtype.
pub record TensorInfo : Type 0 where
  pub shape : List ℕ
  pub itemsize : ℕ

abbrev pub numel : List ℕ → ℕ
numel [] = 1
numel (d ∷ ds) = d * numel ds

unfoldable pub info_of : List (Text × TensorInfo) → Text → Result TensorInfo
info_of [] key = raise key_error
info_of ((name, info) ∷ infos) key = if text_eq name key then ok info else info_of infos key

unfoldable pub size_in_bytes : TensorInfo → ℕ
size_in_bytes info = info.itemsize * numel info.shape

-- `.view(dtype=dtype).view(shape)`: the same bytes, if there are as many as the view needs.
unfoldable pub view_as : ℕ → Bytes → Result Bytes
view_as size bytes = if length bytes == size then ok bytes else raise runtime_error

-- The loop over the keys, and the offset it ends at.
unfoldable pub read_weights :
    List (Text × TensorInfo) → Bytes → List Text → ℕ → Result (List (Text × Bytes) × ℕ)
unfolding info_of size_in_bytes view_as aligned
read_weights infos buffer [] offset = ok ([], offset)
read_weights infos buffer (key ∷ keys) offset = info_of infos key >>= λ info.
    view_as (size_in_bytes info) (byte_slice offset (size_in_bytes info) buffer) >>= λ bytes.
    read_weights infos buffer keys (offset + aligned (size_in_bytes info)) >>= λ rest.
    ok ((key, bytes) ∷ rest.0, rest.1)

-- The weights of a payload, or what an exception of the loop's body is.
unfoldable pub read_payload :
    List (Text × TensorInfo) → Bytes → List Text → ℕ → Result (List (Text × Bytes))
unfolding read_weights
read_payload infos buffer list_keys used_bytes = read_weights infos buffer list_keys 0 >>= λ read.
    raise_if (not (read.1 == used_bytes)) assertion_error >> ok read.0
