-- ===== src/MemRegion/Region/Alloc.antt =====
-- `allocNative_`: the rounded size.
use mm_mem.Base.{
  ℕ, ◌+◌, ◌*◌, ◌/◌, ◌%◌, ◌^◌, ◌≤◌, ◌<◌, ◌≡◌, arith, ltb, ltb→lt, inl, inr, Bool-cases,
  if◌then◌else◌,
}
use native.Mathlib.Nat.{mod-eq_of_lt, pow-le-pow_right, div-add-mod', mod-lt, mul-mod_left}
use mm_mem.Base.Int.{ℤ, pos, negsuc}
use mm_mem.MemRegion.Region.{hugepage_size_log2, round_up}

hugepage_size_log2-lt : (huge : ℤ) → hugepage_size_log2 huge < 35
unfolding hugepage_size_log2
hugepage_size_log2-lt (pos n) = ground arith
hugepage_size_log2-lt (negsuc n) = omega arith

pow_pos : (k : ℕ) → 0 < 2 ^ k
pow_pos k =
    let le : 2 ^ 0 ≤ 2 ^ k = pow-le-pow_right (omega arith) {i = 0} (omega arith) in omega arith

-- The multiples of `w` around `n`.
padding : (n w : ℕ) → ℕ
padding n w = if ltb 0 (n % w) then 1 else 0

padded : (n w : ℕ) → 0 < w → (n ≤ (n / w + padding n w) * w) × ((n / w + padding n w) * w < n + w)
unfolding padding
padded n w positive =
    let parts = div-add-mod' n w in
    let rest = mod-lt n positive in
    elim (Bool-cases (ltb 0 (n % w))) [
      | inl more ↦
          rw more (omega (arith, parts, rest), omega (arith, parts, rest, ltb→lt 0 (n % w) more))
      | inr exact ↦
          let none_left : n % w ≡ 0 = ground arith in
          rw exact (omega (arith, parts, none_left), omega (arith, parts, none_left))
    ]

-- If the size and a huge page together are at most 2^64 bytes, the rounded size is the least multiple
-- of the huge page that is at least the size.
pub round_up_lem :
    (size log2 : ℕ)
    → size + 2 ^ log2 ≤ 2 ^ 64
    → (size ≤ round_up size log2)
      × (round_up size log2 < size + 2 ^ log2)
      × (round_up size log2 % 2 ^ log2 ≡ 0)
unfolding round_up padding
round_up_lem size log2 fits =
    let w = 2 ^ log2 in
    let (above, below) = padded size w (pow_pos log2) in
    let exact : (size / w + padding size w) * w % 2 ^ 64 ≡ (size / w + padding size w) * w =
      mod-eq_of_lt (omega arith) in
    rw exact (above, below, mul-mod_left (size / w + padding size w) w)
