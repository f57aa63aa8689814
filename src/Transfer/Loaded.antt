-- ===== src/Transfer/Loaded.antt =====
-- What a buffer holds after the sender packed some parameters, as the receiver reads it.
use mathlib.Core.Path.{subst}
use nemo_rl_submission.Prelude.{
  ℕ, ◌+◌, ◌≤◌, ◌≡◌, refl, ap, ◌∙◌, List, [], ◌∷◌, ◌++◌, map, arith, All, length, ok, ◌==◌, true,
}
use nemo_rl_submission.Prelude.Text.{Text}
use nemo_rl_submission.Transfer.Memory.{
  byte_slice, copy_into, byte_slice-copy_into, byte_slice-copy_into_before,
}
use nemo_rl_submission.Transfer.Stream.{Bytes, Param, aligned}
use nemo_rl_submission.Transfer.Stream.Bounds.{aligned-le}
use nemo_rl_submission.Transfer.Receive.{
  TensorInfo, info_of, size_in_bytes, view_as, read_weights, read_payload,
}

-- The receiver knows the parameter, with the size that it has.
abbrev pub IsKnown : List (Text × TensorInfo) → Param → Type 0
IsKnown infos p =
    (info : TensorInfo) × (info_of infos p.name ≡ ok info) × (size_in_bytes info ≡ length p.bytes)

abbrev pub entry : Param → Text × Bytes
entry p = (p.name, p.bytes)

abbrev pub name_of : Param → Text
name_of p = p.name

abbrev pub packed_size : List Param → ℕ
packed_size [] = 0
packed_size (p ∷ ps) = aligned (length p.bytes) + packed_size ps

-- From an offset on, the buffer holds these parameters, each at an aligned offset.
abbrev pub Holds : Bytes → ℕ → List Param → Type 0
Holds buffer offset [] = Unit
Holds buffer offset (p ∷ ps) =
    (byte_slice offset (length p.bytes) buffer ≡ p.bytes)
    × Holds buffer (offset + aligned (length p.bytes)) ps

pub view_as-all : (n : ℕ) (bytes : Bytes) → length bytes ≡ n → view_as n bytes ≡ ok bytes
unfolding view_as
view_as-all n bytes h = ground arith

pub Holds-read_weights :
    (infos : List (Text × TensorInfo)) (buffer : Bytes) (ps : List Param) (offset : ℕ)
    → All (IsKnown infos) ps
    → Holds buffer offset ps
    → read_weights infos buffer (map name_of ps) offset ≡ ok (map entry ps, offset + packed_size ps)
unfolding read_weights
Holds-read_weights infos buffer [] offset known h = ap (λ n. ok ([], n)) (omega arith)
Holds-read_weights infos buffer (p ∷ ps) offset known h =
    let (info, found, size) = known.0 in
    let rest = Holds-read_weights infos buffer ps (offset + aligned (length p.bytes)) known.1 h.1 in
    rw (found, size, h.0, view_as-all (length p.bytes) p.bytes refl, rest)
      (ap (λ n. ok (entry p ∷ map entry ps, n)) (omega arith))

same_size : (n : ℕ) → (0 + n == n) ≡ true
same_size n = ground arith

pub Holds-read_payload :
    (infos : List (Text × TensorInfo)) (buffer : Bytes) (ps : List Param)
    → All (IsKnown infos) ps
    → Holds buffer 0 ps
    → read_payload infos buffer (map name_of ps) (packed_size ps) ≡ ok (map entry ps)
unfolding read_payload
Holds-read_payload infos buffer ps known h =
    rw (Holds-read_weights infos buffer ps 0 known h, same_size (packed_size ps)) refl

-- One more, behind them.
pub Holds-snoc :
    (buffer : Bytes) (ps : List Param) (offset place : ℕ) (p : Param)
    → place ≡ offset + packed_size ps
    → place + length p.bytes ≤ length buffer
    → Holds buffer offset ps
    → Holds (copy_into buffer place p.bytes) offset (ps ++ p ∷ [])
Holds-snoc buffer [] offset place p e fits h =
    let here : place ≡ offset = omega (arith, e) in
    (
      subst (λ o. byte_slice o (length p.bytes) (copy_into buffer place p.bytes) ≡ p.bytes) here
          (byte_slice-copy_into buffer place p.bytes fits),
      tt,
    )
Holds-snoc buffer (q ∷ ps) offset place p e fits h =
    let before =
      byte_slice-copy_into_before buffer offset (length q.bytes) place p.bytes
        (omega (arith, aligned-le (length q.bytes), e)) in
    (
      before ∙ h.0,
      Holds-snoc buffer ps (offset + aligned (length q.bytes)) place p (omega (arith, e)) fits h.1,
    )

pub packed_size-snoc :
    (ps : List Param) (p : Param)
    → packed_size (ps ++ p ∷ []) ≡ packed_size ps + aligned (length p.bytes)
packed_size-snoc [] p = omega arith
packed_size-snoc (q ∷ ps) p = omega (arith, packed_size-snoc ps p)
