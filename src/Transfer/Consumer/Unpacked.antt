-- ===== src/Transfer/Consumer/Unpacked.antt =====
-- A packet taken apart by the sizes of its tensors.
use nemo_rl_submission.Prelude.{
  ℕ, ◌+◌, ◌≡◌, refl, ap, true, List, [], ◌∷◌, ◌++◌, map, flatten, arith, All, ◌==◌, length,
  length-append, take, drop, zip, each, ok,
}
use nemo_rl_submission.Prelude.Text.{Text}
use nemo_rl_submission.Transfer.Stream.{Bytes}
use nemo_rl_submission.Transfer.Receive.{TensorInfo, size_in_bytes}
use nemo_rl_submission.Transfer.Loaded.{view_as-all}
use nemo_rl_submission.Transfer.Consumer.{
  MetaData, sizes_sum, pieces, split_with_sizes, size_of_meta, named_view, unpack_tensor,
}

take-append : {A : Type 0} (xs ys : List A) → take (length xs) (xs ++ ys) ≡ xs
take-append [] ys = refl
take-append (x ∷ xs) ys = ap (◌∷◌ x) (take-append xs ys)

drop-append : {A : Type 0} (xs ys : List A) → drop (length xs) (xs ++ ys) ≡ ys
drop-append [] ys = refl
drop-append (x ∷ xs) ys = drop-append xs ys

equal_self : (n : ℕ) → (n == n) ≡ true
equal_self n = ground arith

module _ {Item : Type 0} (name : Item → Text) (info : Item → TensorInfo)
    (bytes : Item → Bytes) where
  -- The metadata of a tensor tells its size.
  abbrev pub IsSized : Item → Type 0
  IsSized x = size_in_bytes (info x) ≡ length (bytes x)

  abbrev pub entry_of : Item → Text × Bytes
  entry_of x = (name x, bytes x)

  abbrev pub metas_from : ℕ → List Item → List MetaData
  metas_from offset [] = []
  metas_from offset (x ∷ xs) =
      record { name = name x; info = info x; offset = offset; tensor_size = size_in_bytes (info x) }
      ∷ metas_from (offset + size_in_bytes (info x)) xs

  sized_metas :
      (offset : ℕ) (xs : List Item)
      → All IsSized xs
      → map size_of_meta (metas_from offset xs) ≡ map (λ x. length (bytes x)) xs
  sized_metas offset [] h = refl
  sized_metas offset (x ∷ xs) h =
      rw (sized_metas (offset + size_in_bytes (info x)) xs h.1, h.0) refl

  sizes_sum-flatten :
      (xs : List Item)
      → sizes_sum (map (λ x. length (bytes x)) xs) ≡ length (flatten (map bytes xs))
  unfolding flatten
  sizes_sum-flatten [] = refl
  sizes_sum-flatten (x ∷ xs) =
      omega (arith, sizes_sum-flatten xs, length-append (bytes x) (flatten (map bytes xs)))

  pieces-flatten :
      (xs : List Item)
      → pieces (map (λ x. length (bytes x)) xs) (flatten (map bytes xs)) ≡ map bytes xs
  unfolding flatten
  pieces-flatten [] = refl
  pieces-flatten (x ∷ xs) =
      rw
        (
          take-append (bytes x) (flatten (map bytes xs)),
          drop-append (bytes x) (flatten (map bytes xs)),
          pieces-flatten xs,
        )
        refl

  named_views :
      (offset : ℕ) (xs : List Item)
      → All IsSized xs
      → each named_view (zip (metas_from offset xs) (map bytes xs)) ≡ ok (map entry_of xs)
  unfolding named_view
  named_views offset [] h = refl
  named_views offset (x ∷ xs) h =
      rw
        (
          named_views (offset + size_in_bytes (info x)) xs h.1,
          h.0,
          view_as-all (length (bytes x)) (bytes x) refl,
        )
        refl

  -- What the packet of these tensors is unpacked to.
  pub unpack_tensor-packet :
      (offset : ℕ) (xs : List Item)
      → All IsSized xs
      → unpack_tensor (flatten (map bytes xs)) (metas_from offset xs) ≡ ok (map entry_of xs)
  unfolding unpack_tensor split_with_sizes
  unpack_tensor-packet offset xs h =
      rw
        (
          sized_metas offset xs h,
          sizes_sum-flatten xs,
          equal_self (length (flatten (map bytes xs))),
          pieces-flatten xs,
          named_views offset xs h,
        )
        refl
