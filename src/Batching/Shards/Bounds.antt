-- ===== src/Batching/Shards/Bounds.antt =====
-- The microbatches of dynamic batching.
use mathlib.Core.Path.{subst}
use nemo_rl_submission.Prelude.{
  ℕ, suc, ◌+◌, ◌-◌, ◌*◌, ◌≤◌, ◌≡◌, refl, sym, ap, max, true, false, List, [], ◌∷◌, ◌++◌,
  append_assoc, append-nil, arith, ltb, leb, length, length-append, All, All-append, All-map, any,
  leb→le, Bool-cases, ◌⊎◌, inl, inr, ok, raise, assertion_error,
}
use nemo_rl_submission.Batching.Shards.{Microbatches, add_place, add_places, microbatches}

-- Places from 0 on, cut into consecutive microbatches, whose padded sequences fit the tokens: no
-- sequence of a microbatch is longer than its length.
pub data IsCut (max_tokens : ℕ) : List ((ℕ × ℕ) × ℕ) → List ℕ → ℕ → Type 0 where
  nothing : IsCut max_tokens [] [] 0
  piece :
      {ms : List ((ℕ × ℕ) × ℕ)} {xs : List ℕ} {start : ℕ} (ys : List ℕ) (end len : ℕ)
      → IsCut max_tokens ms xs start
      → end ≡ start + length ys
      → All (λ y. y ≤ len) ys
      → length ys * len ≤ max_tokens
      → IsCut max_tokens (ms ++ ((start, end), len) ∷ []) (xs ++ ys) end

pub IsCut-length :
    {max_tokens : ℕ} {ms : List ((ℕ × ℕ) × ℕ)} {xs : List ℕ} {end : ℕ}
    → IsCut max_tokens ms xs end
    → end ≡ length xs
IsCut-length nothing = refl
IsCut-length (piece {ms} {xs} {start} ys end len k e long fits) =
    omega (arith, e, IsCut-length k, length-append xs ys)

record IsLoop (max_tokens : ℕ) (seen : List ℕ) (m : Microbatches) : Type 0 where
  before : List ℕ
  current : List ℕ
  split : seen ≡ before ++ current
  cut : IsCut max_tokens m.closed before m.start
  ends : m.end ≡ m.start + length current
  long : All (λ y. y ≤ m.len) current
  fits : length current * m.len ≤ max_tokens
  longest : m.max_seqlen ≡ m.len

module _ (max_tokens : ℕ) where
  -- The microbatches so far, the last one among them.
  IsLoop-IsCut :
      (seen : List ℕ) (m : Microbatches)
      → IsLoop max_tokens seen m
      → IsCut max_tokens (m.closed ++ ((m.start, m.end), m.len) ∷ []) seen (length seen)
  IsLoop-IsCut seen m k =
      let reached : m.end ≡ length seen = omega (
        arith,
        k.ends,
        IsCut-length k.cut,
        ap (λ l. length l) k.split,
        length-append k.before k.current,
      ) in
      subst (λ e. IsCut max_tokens (m.closed ++ ((m.start, m.end), m.len) ∷ []) seen e) reached
        (subst (λ l. IsCut max_tokens (m.closed ++ ((m.start, m.end), m.len) ∷ []) l m.end)
          (sym k.split) (piece k.current m.end m.len k.cut k.ends k.long k.fits))

  add_place-IsLoop :
      (seen : List ℕ) (seqlen : ℕ) (m : Microbatches)
      → seqlen ≤ max_tokens
      → IsLoop max_tokens seen m
      → (m' : Microbatches) × (add_place max_tokens (length seen) seqlen m ≡ ok m')
        × IsLoop max_tokens (seen ++ seqlen ∷ []) m'
  unfolding add_place
  add_place-IsLoop seen seqlen m h k =
      elim (Bool-cases (leb ((m.end - m.start + 1) * max m.max_seqlen seqlen) max_tokens)) [
        | inl room ↦ (
          record m {
            end = m.end + 1;
            len = max m.max_seqlen seqlen;
            max_seqlen = max m.max_seqlen seqlen;
          },
          ground (arith, h, room),
          record {
            before = k.before;
            current = k.current ++ seqlen ∷ [];
            split = rw k.split (append_assoc k.before k.current (seqlen ∷ []));
            cut = k.cut;
            ends = omega (arith, k.ends, length-append k.current (seqlen ∷ []));
            long =
                All-append _ k.current (seqlen ∷ [])
                  (All-map (λ y le. omega (arith, le, k.longest)) k.current k.long)
                  (omega arith, tt);
            fits = count (leb→le _ max_tokens room);
            longest = refl;
          },
        )
        | inr full ↦ (
          record {
            closed = m.closed ++ ((m.start, m.end), m.len) ∷ [];
            start = length seen;
            end = length seen + 1;
            len = seqlen;
            max_seqlen = seqlen;
          },
          ground (arith, h, full),
          record {
            before = seen;
            current = seqlen ∷ [];
            split = refl;
            cut = IsLoop-IsCut seen m k;
            ends = omega arith;
            long = (omega arith, tt);
            fits = omega arith;
            longest = refl;
          },
        )
      ]
    where
      count :
          (m.end - m.start + 1) * max m.max_seqlen seqlen ≤ max_tokens
          → length (k.current ++ seqlen ∷ []) * max m.max_seqlen seqlen ≤ max_tokens
      count room =
          let many : length (k.current ++ seqlen ∷ []) ≡ m.end - m.start + 1 =
            omega (arith, k.ends, length-append k.current (seqlen ∷ [])) in
          rw many room

  add_places-IsLoop :
      (seen seqlens : List ℕ) (place : ℕ) (m : Microbatches)
      → place ≡ length seen
      → All (λ l. l ≤ max_tokens) seqlens
      → IsLoop max_tokens seen m
      → (m' : Microbatches) × (add_places max_tokens place seqlens m ≡ ok m')
        × IsLoop max_tokens (seen ++ seqlens) m'
  unfolding add_places
  add_places-IsLoop seen [] place m e h k = (m, refl, rw (append-nil) k)
  add_places-IsLoop seen (l ∷ seqlens) place m e h k =
      let (m1, one, k1) = add_place-IsLoop seen l m h.0 k in
      let (m2, rest, k2) =
        add_places-IsLoop (seen ++ l ∷ []) seqlens (suc place) m1
          (omega (arith, e, length-append seen (l ∷ []))) h.1 k1 in
      let joined : (seen ++ l ∷ []) ++ seqlens ≡ seen ++ l ∷ seqlens =
        append_assoc seen (l ∷ []) seqlens in
      let here : add_place max_tokens place l m ≡ ok m1 =
        subst (λ p. add_place max_tokens p l m ≡ ok m1) (sym e) one in
      (m2, rw (here, rest) refl, rw joined at k2)

  add_places-raises :
      (seqlens : List ℕ) (place : ℕ) (m : Microbatches)
      → any (λ l. ltb max_tokens l) seqlens ≡ true
      → add_places max_tokens place seqlens m ≡ raise assertion_error
  unfolding add_places add_place
  add_places-raises [] place m h = ground (arith, h)
  add_places-raises (l ∷ seqlens) place m h = elim (Bool-cases (ltb max_tokens l)) [
    | inl big ↦ rw big refl
    | inr small ↦
        let rest : any (λ l. ltb max_tokens l) seqlens ≡ true = ground (arith, h, small) in
        elim (Bool-cases (leb ((m.end - m.start + 1) * max m.max_seqlen l) max_tokens)) [
          | inl room ↦ rw (small, room) (add_places-raises seqlens (suc place) _ rest)
          | inr full ↦ rw (small, full) (add_places-raises seqlens (suc place) _ rest)
        ]
  ]

  none_big :
      (seqlens : List ℕ)
      → any (λ l. ltb max_tokens l) seqlens ≡ false
      → All (λ l. l ≤ max_tokens) seqlens
  none_big [] h = tt
  none_big (l ∷ seqlens) h = (ground (arith, h), none_big seqlens (ground (arith, h)))

  some_big :
      (seqlens : List ℕ)
      → any (λ l. ltb max_tokens l) seqlens ≡ true
      → ¬ All (λ l. l ≤ max_tokens) seqlens
  some_big [] h all = ground (arith, h)
  some_big (l ∷ seqlens) h all = some_big seqlens (ground (arith, h, all.0)) all.1

-- Dynamic batching of a chunk either succeeds, when no padded sequence has more tokens than a
-- microbatch may have, and cuts the places into consecutive microbatches, none with more tokens than
-- allowed when all its sequences are padded to its length, and none with a sequence longer than that;
-- or some sequence has more tokens, and it raises AssertionError.
pub microbatches_outcome :
    (max_tokens : ℕ) (seqlens : List ℕ)
    → (All (λ l. l ≤ max_tokens) seqlens
        × ((ms : List ((ℕ × ℕ) × ℕ)) × (microbatches max_tokens seqlens ≡ ok ms)
            × IsCut max_tokens ms seqlens (length seqlens)))
      ⊎ ((¬ All (λ l. l ≤ max_tokens) seqlens)
          × (microbatches max_tokens seqlens ≡ raise assertion_error))
unfolding microbatches
microbatches_outcome max_tokens seqlens = elim (Bool-cases (any (λ l. ltb max_tokens l) seqlens)) [
  | inl big ↦
      inr (some_big max_tokens seqlens big, rw (add_places-raises max_tokens seqlens 0 _ big) refl)
  | inr small ↦
      let fits = none_big max_tokens seqlens small in
      let (m, run, k) =
        add_places-IsLoop max_tokens [] seqlens 0
          (record { closed = []; start = 0; end = 0; len = 0; max_seqlen = 0 }) refl fits
          (record {
            before = [];
            current = [];
            split = refl;
            cut = nothing;
            ends = refl;
            long = tt;
            fits = omega arith;
            longest = refl;
          }) in
      inl (
        fits,
        (
          m.closed ++ ((m.start, m.end), m.len) ∷ [],
          rw run refl,
          IsLoop-IsCut max_tokens seqlens m k,
        ),
      )
]
