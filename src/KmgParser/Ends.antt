-- ===== src/KmgParser/Ends.antt =====
-- The loop over the units ends, at a number that needs no larger unit or that would lose too much.
use mm_mem.Base.{
  ℕ, zero, suc, ◌+◌, ◌-◌, ◌*◌, ◌/◌, ◌≤◌, ◌<◌, ◌≡◌, ap, ◌⊎◌, inl, inr, true, false, arith, ltb,
  ltb→lt, Bool-cases,
}
use native.Mathlib.Nat.{div-add-mod', mul-le-mul_right, mul_comm}
use native.Mathlib.Decide.{dec_lt}
use mm_mem.Base.Returns.{Returns, returns, mono}
use mm_mem.KmgParser.{IsNear, next_num, disp_loop}

-- A step makes the number smaller.
next_num-lt : (one_k n : ℕ) → 0 < one_k → one_k < n → next_num one_k n < n
unfolding next_num
next_num-lt one_k n pos h =
    let q = (n + one_k / 2 - 1) / one_k in
    let parts = div-add-mod' (n + one_k / 2 - 1) one_k in
    elim (dec_lt q n) [
      | yes less ↦ less
      | no not_less ↦
          let above : n * one_k ≤ q * one_k =
            mul-le-mul_right {m = n} {n = q} one_k (omega arith) in
          elim (dec_lt 1 one_k) [
            | yes two ↦
                let twice : 2 * n ≤ one_k * n = mul-le-mul_right {m = 2} {n = one_k} n two in
                let same : one_k * n ≡ n * one_k = mul_comm one_k n in
                absurd (omega (arith, parts, above, twice, same))
            | no one ↦
                let is_one : one_k ≡ 1 = omega arith in
                let same : n * one_k ≡ n * 1 = ap (λ t. n * t) is_one in
                absurd (omega (arith, parts, above, same, is_one))
          ]
    ]

-- `shown` at `level` comes from `num` at `start` by steps that are near.
pub data IsScaled (near : IsNear) (one_k : ℕ) : (num start shown level : ℕ) → Type 0 where
  itself : (num start : ℕ) → IsScaled near one_k num start num start
  larger :
      {num start shown level : ℕ}
      → near (next_num one_k num) one_k num ≡ true
      → IsScaled near one_k (next_num one_k num) (start + 1) shown level
      → IsScaled near one_k num start shown level

-- For a positive `one_k`, one more than the number is enough fuel for the loop over the units;
-- what is shown comes from the number by steps that are each near, and it is at most `one_k`, or
-- the next step would not be near.
pub disp_loop-IsScaled :
    (near : IsNear) (one_k fuel level num : ℕ)
    → 0 < one_k
    → num < fuel
    → Returns
        (λ (shown, last).
          IsScaled near one_k num level shown last
          × ((shown ≤ one_k) ⊎ (near (next_num one_k shown) one_k shown ≡ false)))
        (disp_loop near fuel one_k level num)
unfolding disp_loop
disp_loop-IsScaled near one_k zero level num pos h = absurd (omega arith)
disp_loop-IsScaled near one_k (suc fuel) level num pos h = elim (Bool-cases (ltb one_k num)) [
  | inr small ↦ rw small (returns (itself num level, inl (ground arith)))
  | inl large ↦ elim (Bool-cases (near (next_num one_k num) one_k num)) [
    | inr far ↦ rw (large, far) (returns (itself num level, inr far))
    | inl close ↦
        rw (large, close)
          (mono
            (disp_loop-IsScaled near one_k fuel (level + 1) (next_num one_k num) pos
              (omega (arith, next_num-lt one_k num pos (ltb→lt one_k num large))))
            λ (shown, last) (scaled, stop). (larger close scaled, stop))
  ]
]
