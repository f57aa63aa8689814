-- ===== src/Packing/Concatenative/Laws.antt =====
-- `ConcatenativePacker` cuts the sequences into bins in their order.
use nemo_rl_submission.Prelude.{
  ℕ, suc, ◌+◌, ◌≤◌, ◌<◌, ◌≡◌, refl, sym, ◌∙◌, ap, true, Option, List, [], ◌∷◌, ◌++◌, flatten, arith,
  Bool-cases, inl, inr, length, get_or, All, All-append, range, enumerate_from, sum_by,
  sum_by-append, ok, raise, value_error, ltb, ◌||◌, append-nil, append_assoc, range-snoc,
  flatten-append,
}
use nemo_rl_submission.Packing.Packer.{
  load, is_entry, IsPacking, validate_cases, enumerate-is_entry,
}
use nemo_rl_submission.Packing.Concatenative.{
  Filling, exceeds_sequence_limit, close_bin, add_sequence, fill, empty, pack_concatenative,
}

flatten-close_bin :
    (bins : List (List ℕ)) (b : List ℕ) → flatten (close_bin bins b) ≡ flatten bins ++ b
unfolding close_bin flatten
flatten-close_bin bins [] = sym (append-nil (flatten bins))
flatten-close_bin bins (i ∷ is) = rw (flatten-append, append-nil)

zero_add : (n : ℕ) → 0 + n ≡ n
zero_add n = omega arith

module _ (capacity : ℕ) (lens : List ℕ) where
  -- After `n` sequences: the closed bins and the open one hold them in order.
  record IsFilling (n : ℕ) (s : Filling) : Type 0 where
    order : flatten s.bins ++ s.current_bin ≡ range n
    fits : All (λ b. load lens b ≤ capacity) s.bins
    filled : All (λ b. 0 < length b) s.bins
    tracked : load lens s.current_bin ≡ s.current_length
    room : s.current_length ≤ capacity

  close_bin-All :
      (P : List ℕ → Type 0) (bins : List (List ℕ)) (b : List ℕ)
      → All P bins
      → (0 < length b → P b)
      → All P (close_bin bins b)
  unfolding close_bin
  close_bin-All P bins [] h k = h
  close_bin-All P bins (i ∷ is) h k = All-append P bins _ h (k (omega arith), tt)

  add_sequence-IsFilling :
      (limit : Option ℕ) (n l : ℕ) (s : Filling)
      → is_entry capacity lens (l, n) ≡ true
      → IsFilling n s
      → IsFilling (suc n) (add_sequence capacity limit (l, n) s)
  unfolding add_sequence
  add_sequence-IsFilling limit n l s e h =
      elim (Bool-cases
        (ltb capacity (s.current_length + l) || exceeds_sequence_limit limit s.current_bin)) [
          | inl over ↦
              rw (over, add_sequence)
                (record {
                  order = rw (flatten-close_bin, h.order) (range-snoc n);
                  fits =
                      close_bin-All _ s.bins s.current_bin h.fits
                        (λ _. omega (arith, h.tracked, h.room));
                  filled = close_bin-All _ s.bins s.current_bin h.filled (λ k. k);
                  tracked = ground arith;
                  room = ground arith;
                })
          | inr under ↦
              rw (under, add_sequence)
                (record {
                  order =
                      rw (← append_assoc (flatten s.bins) s.current_bin (n ∷ []), h.order)
                        (range-snoc n);
                  fits = h.fits;
                  filled = h.filled;
                  tracked = ground (
                    arith,
                    h.tracked,
                    sum_by-append (λ i. get_or lens i 0) s.current_bin (n ∷ []),
                  );
                  room = ground arith;
                })
        ]

  -- The whole loop, from index `n` on.
  fill-IsFilling :
      (limit : Option ℕ) (n : ℕ) (ls : List ℕ) (s : Filling)
      → All (λ e. is_entry capacity lens e ≡ true) (enumerate_from n ls)
      → IsFilling n s
      → IsFilling (n + length ls) (fill capacity limit (enumerate_from n ls) s)
  unfolding fill
  fill-IsFilling limit n [] s e h = let same : n + 0 ≡ n = omega arith in rw same h
  fill-IsFilling limit n (l ∷ ls) s e h =
      let same : n + suc (length ls) ≡ suc n + length ls = omega arith in
      rw same (fill-IsFilling limit (suc n) ls _ e.1 (add_sequence-IsFilling limit n l s e.0 h))

  empty-IsFilling : IsFilling 0 empty
  unfolding flatten
  empty-IsFilling = record {
    order = refl;
    fits = tt;
    filled = tt;
    tracked = refl;
    room = omega arith;
  }

  -- When no sequence is longer than a bin, concatenative packing succeeds: the bins, read one
  -- after the other, are the indices in their order, and they form a packing. With any sequence
  -- limit per bin.
  pub pack_concatenative-IsPacking :
      (limit : Option ℕ)
      → All (λ l. l ≤ capacity) lens
      → (bins : List (List ℕ)) × (pack_concatenative capacity limit lens ≡ ok bins)
        × (flatten bins ≡ range (length lens))
        × IsPacking capacity lens bins
  unfolding pack_concatenative
  pack_concatenative-IsPacking limit fits = (
    close_bin s.bins s.current_bin,
    ground (arith, validate_cases capacity lens),
    order,
    record {
      same = λ w. ap (sum_by w) order;
      fits = close_bin-All _ s.bins s.current_bin h.fits (λ _. omega (arith, h.tracked, h.room));
      filled = close_bin-All _ s.bins s.current_bin h.filled (λ k. k);
    },
  )
    where
      s : Filling
      s = fill capacity limit (enumerate_from 0 lens) empty

      h : IsFilling (length lens) s
      h = rw (zero_add (length lens)) at (
          fill-IsFilling limit 0 lens empty (enumerate-is_entry capacity [] lens fits)
            empty-IsFilling)

      order : flatten (close_bin s.bins s.current_bin) ≡ range (length lens)
      order = flatten-close_bin s.bins s.current_bin ∙ h.order

  -- Otherwise the packer raises ValueError.
  pub pack_concatenative-raises :
      (limit : Option ℕ)
      → ¬ All (λ l. l ≤ capacity) lens
      → pack_concatenative capacity limit lens ≡ raise value_error
  unfolding pack_concatenative
  pack_concatenative-raises limit over = elim (validate_cases capacity lens) [
    | inl (_, fits) ↦ absurd (over fits)
    | inr (e, _) ↦ rw e
  ]
