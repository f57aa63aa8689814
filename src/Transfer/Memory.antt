-- ===== src/Transfer/Memory.antt =====
-- The bytes of a buffer: a slice, and the copy of a tensor into one.
use nemo_rl_submission.Prelude.{
  ℕ, zero, suc, ◌+◌, ◌≤◌, ◌≡◌, refl, ap, List, [], ◌∷◌, arith, length, take, drop,
}

-- `buffer[offset : offset + size]`.
abbrev pub byte_slice {ℓ} : {A : Type ℓ} → ℕ → ℕ → List A → List A
byte_slice offset size xs = take size (drop offset xs)

-- `buffer[offset : offset + len(xs)].copy_(xs)`; nothing is written past the end.
abbrev pub copy_into {ℓ} : {A : Type ℓ} → List A → ℕ → List A → List A
copy_into [] offset xs = []
copy_into (m ∷ ms) (suc offset) xs = m ∷ copy_into ms offset xs
copy_into (m ∷ ms) zero [] = m ∷ ms
copy_into (m ∷ ms) zero (x ∷ xs) = x ∷ copy_into ms zero xs

module _ {ℓ} {A : Type ℓ} where
  pub length-copy_into :
      (ms : List A) (offset : ℕ) (xs : List A) → length (copy_into ms offset xs) ≡ length ms
  length-copy_into [] offset xs = refl
  length-copy_into (m ∷ ms) (suc offset) xs = ap suc (length-copy_into ms offset xs)
  length-copy_into (m ∷ ms) zero [] = refl
  length-copy_into (m ∷ ms) zero (x ∷ xs) = ap suc (length-copy_into ms zero xs)

  -- What was copied is read back.
  pub byte_slice-copy_into :
      (ms : List A) (offset : ℕ) (xs : List A)
      → offset + length xs ≤ length ms
      → byte_slice offset (length xs) (copy_into ms offset xs) ≡ xs
  byte_slice-copy_into [] zero [] h = refl
  byte_slice-copy_into [] (suc offset) [] h = refl
  byte_slice-copy_into [] offset (x ∷ xs) h = absurd (omega arith)
  byte_slice-copy_into (m ∷ ms) (suc offset) xs h = byte_slice-copy_into ms offset xs (omega arith)
  byte_slice-copy_into (m ∷ ms) zero [] h = refl
  byte_slice-copy_into (m ∷ ms) zero (x ∷ xs) h =
      ap (◌∷◌ x) (byte_slice-copy_into ms zero xs (omega arith))

  -- What lies before the copy stays.
  pub byte_slice-copy_into_before :
      (ms : List A) (start size offset : ℕ) (xs : List A)
      → start + size ≤ offset
      → byte_slice start size (copy_into ms offset xs) ≡ byte_slice start size ms
  byte_slice-copy_into_before [] start size offset xs h = refl
  byte_slice-copy_into_before (m ∷ ms) zero zero offset xs h = refl
  byte_slice-copy_into_before (m ∷ ms) zero (suc size) zero xs h = absurd (omega arith)
  byte_slice-copy_into_before (m ∷ ms) zero (suc size) (suc offset) xs h =
      ap (◌∷◌ m) (byte_slice-copy_into_before ms zero size offset xs (omega arith))
  byte_slice-copy_into_before (m ∷ ms) (suc start) size zero xs h = absurd (omega arith)
  byte_slice-copy_into_before (m ∷ ms) (suc start) size (suc offset) xs h =
      byte_slice-copy_into_before ms start size offset xs (omega arith)

  pub length-byte_slice :
      (ms : List A) (start size : ℕ)
      → start + size ≤ length ms
      → length (byte_slice start size ms) ≡ size
  length-byte_slice ms start zero h = refl
  length-byte_slice [] start (suc size) h = absurd (omega arith)
  length-byte_slice (m ∷ ms) zero (suc size) h =
      ap suc (length-byte_slice ms zero size (omega arith))
  length-byte_slice (m ∷ ms) (suc start) (suc size) h =
      length-byte_slice ms start (suc size) (omega arith)
