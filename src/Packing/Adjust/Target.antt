-- ===== src/Packing/Adjust/Target.antt =====
-- The number of bins that is asked for.
use mathlib.Core.Option
use native.Mathlib.Nat.{mod-lt, le_refl, mod-one, mul-mod_right, div-add-mod, mul-le-mul_left}
use native.Mathlib.Decide.{dec_lt, dec_le}
use nemo_rl_submission.Prelude.{
  ℕ, ◌+◌, ◌-◌, ◌*◌, ◌/◌, ◌%◌, ◌≤◌, ◌<◌, ◌≡◌, ◌≢◌, max, arith, ==_iff, ◌==◌, if◌then◌else◌,
  Bool-cases, ◌⊎◌, inl, inr,
}
use nemo_rl_submission.Packing.Packer.{SequencePacker}
use nemo_rl_submission.Packing.Adjust.{target_bin_count}

-- The constraints of a packer on a number of bins, where `None` constrains nothing.
pub record MeetsConstraints (packer : SequencePacker) (n : ℕ) : Type 0 where
  pub enough : Option.get_or packer.min_bin_count 0 ≤ n
  pub multiple : n % Option.get_or packer.bin_count_multiple 1 ≡ 0

round_up_lem : (t m : ℕ) → 0 < m → t + (m - t % m) ≡ m * (t / m + 1)
round_up_lem t m h = omega (arith, div-add-mod t m, mod-lt t h)

round_up_least : (t m k : ℕ) → 0 < m → t % m ≢ 0 → t ≤ k → k % m ≡ 0 → t + (m - t % m) ≤ k
round_up_least t m k h r le z = elim (dec_lt (t / m) (k / m)) [
  | yes p ↦ omega (arith, round_up_lem t m h, div-add-mod k m, mul-le-mul_left m p)
  | no p ↦
      let few : k / m ≤ t / m = omega arith in
      absurd (omega (arith, div-add-mod t m, div-add-mod k m, mul-le-mul_left m few))
]

module _ (packer : SequencePacker) (current : ℕ) where
  base : ℕ
  base = max current (Option.get_or packer.min_bin_count 0)

  target_bin_count-base : target_bin_count packer current ≡ (
      let m = Option.get_or packer.bin_count_multiple 1 in
      if base % m == 0 then base else base + (m - base % m))
  unfolding target_bin_count base
  target_bin_count-base = ground (arith, mod-one current)

  least_multiple :
      (m b t : ℕ)
      → 0 < m
      → t ≡ (if b % m == 0 then b else b + (m - b % m))
      → (b ≤ t) × (t % m ≡ 0) × ((k : ℕ) → b ≤ k → k % m ≡ 0 → t ≤ k)
  least_multiple m b t h e = elim (Bool-cases (b % m == 0)) [
    | inl whole ↦
        let same : t ≡ b = rw whole at e in rw same (le_refl b, (==_iff _ _).0 whole, λ k le z. le)
    | inr part ↦
        let up : t ≡ b + (m - b % m) = rw part at e in
        let r : b % m ≢ 0 = ground arith in
        rw up (
          omega arith,
          rw (round_up_lem b m h) (mul-mod_right m (b / m + 1)),
          λ k le z. round_up_least b m k h r le z,
        )
  ]

  -- When the packer's multiple is positive, the target is the least number of bins that is not below
  -- the current one, not below the minimum, and a multiple of the multiple: a smaller number is below
  -- the current one or does not meet the constraints.
  pub target_bin_count_least :
      0 < Option.get_or packer.bin_count_multiple 1
      → (current ≤ target_bin_count packer current)
        × MeetsConstraints packer (target_bin_count packer current)
        × ((k : ℕ)
            → (target_bin_count packer current ≤ k) ⊎ (k < current) ⊎ (¬ MeetsConstraints packer k))
  unfolding base
  target_bin_count_least h =
      let (low, whole, least) =
        least_multiple (Option.get_or packer.bin_count_multiple 1) base
          (target_bin_count packer current) h target_bin_count-base in
      (
        omega arith,
        record { enough = omega arith; multiple = whole },
        λ k. elim (dec_le (target_bin_count packer current) k) [
          | yes le ↦ inl le
          | no over ↦ elim (dec_le current k) [
            | no few ↦ inr (inl (omega arith))
            | yes low ↦
                inr (inr (λ meets. over (least k (ground (arith, meets.enough)) meets.multiple)))
          ]
        ],
      )
