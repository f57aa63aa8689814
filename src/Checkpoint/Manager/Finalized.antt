-- ===== src/Checkpoint/Manager/Finalized.antt =====
-- The renames that put a checkpoint in place.
use nemo_rl_submission.Prelude.{
  ℕ, ◌≡◌, refl, sym, ◌∙◌, ap, Bool, true, false, ◌||◌, Option, none, some, arith, Bool-cases, inl,
  inr, true-ne-false, ◌==◌, if◌then◌else◌, ok,
}
use nemo_rl_submission.Checkpoint.Directory.{
  Name, step, tmp_step, old_step, Info, Directory, entry, exists, rename, renamed, remove_tree,
  name_eq, name_eq→eq, entry-renamed, entry-remove_tree,
}
use nemo_rl_submission.Checkpoint.Manager.{move_into_place}

same_when_left :
    {A : Type 0} (s t o : Bool) (c : A) (e : Option A)
    → (o ≡ true → e ≡ none)
    → (if s then some c else if t then none else e)
      ≡ (if s then some c else if t || o then none else e)
same_when_left true t o c e h = refl
same_when_left false true o c e h = refl
same_when_left false false true c e h = h refl
same_when_left false false false c e h = refl

same_when_moved :
    {A : Type 0} (s t o : Bool) (c : A) (c0 e : Option A)
    → (s ≡ true → o ≡ false)
    → (if o
        then none
        else if s
        then some c
        else if t
        then none
        else if o
        then c0
        else if s
        then none
        else e)
      ≡ (if s then some c else if t || o then none else e)
same_when_moved true t true c c0 e h = absurd (true-ne-false refl (h refl))
same_when_moved true t false c c0 e h = refl
same_when_moved false true true c c0 e h = refl
same_when_moved false true false c c0 e h = refl
same_when_moved false false true c c0 e h = refl
same_when_moved false false false c c0 e h = refl

apart : (n : ℕ) (x : Name) → name_eq (step n) x ≡ true → name_eq (old_step n) x ≡ false
unfolding name_eq
apart n (step m) h = refl
apart n (tmp_step m) h = refl
apart n (old_step m) h = cc

==_refl : (n : ℕ) → (n == n) ≡ true
==_refl n = ground arith

module _ {M : Type 0} where
  exists-some : (x : Name) (d : Directory M) {c : Info M} → entry x d ≡ some c → exists x d ≡ true
  unfolding exists
  exists-some x d h = rw (h, exists) refl

  exists-none : (x : Name) (d : Directory M) → entry x d ≡ none → exists x d ≡ false
  unfolding exists
  exists-none x d h = rw (h, exists) refl

  exists-entry :
      (x : Name) (d : Directory M) → exists x d ≡ true → (c : Info M) × (entry x d ≡ some c)
  unfolding exists
  exists-entry x d h = look (entry x d) h
    where
      look :
          (o : Option (Info M))
          → (elim o [ none ↦ false | some c ↦ true ]) ≡ true
          → (c : Info M) × (o ≡ some c)
      look none h = cc
      look (some c) h = (c, refl)

  not_exists-entry : (x : Name) (d : Directory M) → exists x d ≡ false → entry x d ≡ none
  unfolding exists
  not_exists-entry x d h = look (entry x d) h
    where
      look : (o : Option (Info M)) → (elim o [ none ↦ false | some c ↦ true ]) ≡ false → o ≡ none
      look none h = refl
      look (some c) h = cc

  rename-ok :
      (a b : Name) (d : Directory M) {c : Info M}
      → entry a d ≡ some c
      → entry b d ≡ none
      → rename a b d ≡ ok (renamed a b d)
  unfolding rename
  rename-ok a b d ha hb = rw (exists-none b d hb, exists-some a d ha) refl

  -- What is under each name when checkpoint `n` with content `c` is in place.
  abbrev pub finalized : ℕ → Info M → Directory M → Name → Option (Info M)
  finalized n c d x =
      if name_eq (step n) x
      then some c
      else if name_eq (tmp_step n) x || name_eq (old_step n) x
      then none
      else entry x d

  -- Where `step_n` exists it makes way.
  replaced :
      (n : ℕ) (d : Directory M) (c c0 : Info M)
      → entry (tmp_step n) d ≡ some c
      → entry (old_step n) d ≡ none
      → entry (step n) d ≡ some c0
      → (d' : Directory M) × (move_into_place n d ≡ ok d')
        × ((x : Name) → entry x d' ≡ finalized n c d x)
  unfolding move_into_place name_eq
  replaced n d c c0 tmp old there = (
    remove_tree (old_step n) d2,
    rw
        (
          exists-some (step n) d there,
          exists-none (old_step n) d old,
          rename-ok (tmp_step n) (step n) d1 tmp1 step1,
          exists-some (old_step n) d2 old2,
        )
        refl,
    λ x.
        rw
          (
            entry-remove_tree (old_step n) x d2,
            entry-renamed (tmp_step n) (step n) x d1 step1,
            entry-renamed (step n) (old_step n) x d old,
            tmp1,
          )
          (same_when_moved (name_eq (step n) x) (name_eq (tmp_step n) x) (name_eq (old_step n) x) c
            (entry (step n) d) (entry x d) (apart n x)),
  )
    where
      d1 : Directory M
      d1 = renamed (step n) (old_step n) d

      d2 : Directory M
      d2 = renamed (tmp_step n) (step n) d1

      tmp1 : entry (tmp_step n) d1 ≡ some c
      tmp1 = entry-renamed (step n) (old_step n) (tmp_step n) d old ∙ tmp

      step1 : entry (step n) d1 ≡ none
      step1 = entry-renamed (step n) (old_step n) (step n) d old ∙ rw (==_refl n) refl

      old2 : entry (old_step n) d2 ≡ some c0
      old2 =
          entry-renamed (tmp_step n) (step n) (old_step n) d1 step1
          ∙ entry-renamed (step n) (old_step n) (old_step n) d old
          ∙ rw (==_refl n) there

  -- When `tmp_step_n` exists and no `old_step_n` is left over, the renames succeed, whether `step_n`
  -- exists or not: `step_n` then holds what the temporary directory held, that one and `old_step_n`
  -- do not exist, and every other directory is as it was.
  pub move_into_place_outcome :
      (n : ℕ) (d : Directory M) (c : Info M)
      → entry (tmp_step n) d ≡ some c
      → entry (old_step n) d ≡ none
      → (d' : Directory M) × (move_into_place n d ≡ ok d')
        × ((x : Name) → entry x d' ≡ finalized n c d x)
  unfolding move_into_place rename
  move_into_place_outcome n d c tmp old = elim (Bool-cases (exists (step n) d)) [
    | inl taken ↦ let (c0, there) = exists-entry (step n) d taken in replaced n d c c0 tmp old there
    | inr fresh ↦
        let free = not_exists-entry (step n) d fresh in
        (
          renamed (tmp_step n) (step n) d,
          rw (fresh, exists-some (tmp_step n) d tmp) refl,
          λ x.
              rw (entry-renamed (tmp_step n) (step n) x d free, tmp)
                (same_when_left (name_eq (step n) x) (name_eq (tmp_step n) x)
                  (name_eq (old_step n) x) c (entry x d)
                  (λ hit. ap (λ y. entry y d) (sym (name_eq→eq _ x hit)) ∙ old)),
        )
  ]
