-- ===== src/Workers/Measure/Moved.antt =====
-- The copy of a part of the memory, in one piece or fragment by fragment.
use mm_mem.Base.{
  ℕ, suc, ◌+◌, ◌-◌, ◌*◌, ◌≤◌, ◌<◌, ◌≡◌, ◌⊎◌, ◌&&◌, inl, inr, arith, ltb, leb, if◌then◌else◌,
}
use mathlib.Core.Path.{fun_ext}
use native.Mathlib.Nat.{mul-le-mul_right}
use mm_mem.MemRegion.Memory.{Memory}

-- The memory `m` with `n` bytes from `src` copied to `dst`.
unfoldable pub moved : Memory → (dst src n : ℕ) → Memory
moved m dst src n b = if leb dst b && ltb b (dst + n) then m (src + (b - dst)) else m b

abbrev pub AreApart : (a b n : ℕ) → Type 0
AreApart a b n = (a + n ≤ b) ⊎ (b + n ≤ a)

-- What `memcpy` promises: between areas that do not overlap it copies so many bytes and leaves all
-- others alone.
abbrev pub IsMemcpy : ((dst src size : ℕ) → Memory → Memory) → Type 0
IsMemcpy f =
    (dst src n : ℕ) (m : Memory) (b : ℕ)
    → AreApart dst src n
    → f dst src n m b ≡ moved m dst src n b

-- With the first `n` bytes copied, `k` more that start at most there.
pub moved_on :
    (m : Memory) (dst src all n d k b : ℕ)
    → AreApart dst src all
    → d ≤ n
    → n ≤ all
    → d + k ≤ all
    → moved (moved m dst src n) (dst + d) (src + d) k b
      ≡ moved m dst src (if leb n (d + k) then d + k else n) b
unfolding moved
moved_on m dst src all n d k b apart h bound bound' = ground arith

abbrev pub least : ℕ → ℕ → ℕ
least a b = if leb a b then a else b

pub least_left : (a b : ℕ) → a ≤ b → least a b ≡ a
least_left a b h = ground arith

pub least_right : (a b : ℕ) → b ≤ a → least a b ≡ b
least_right a b h = ground arith

-- What a fragment adds to what is copied.
pub more_copied :
    (calls count i size : ℕ)
    → (calls ≡ i) ⊎ (count ≤ calls)
    → i < count
    → let n = least calls count * size in
      (i * size ≤ n)
      × (n ≤ count * size)
      × (i * size + size ≤ count * size)
      × ((if leb n (i * size + size) then i * size + size else n) ≡ least (suc calls) count * size)
more_copied calls count i size (inl same) early =
    let below : suc i * size ≤ count * size = mul-le-mul_right {m = suc i} {n = count} size early in
    rw (least_left calls count (omega arith), least_left (suc calls) count (omega arith), same)
      (ground (arith, below))
more_copied calls count i size (inr full) early =
    let below : suc i * size ≤ count * size = mul-le-mul_right {m = suc i} {n = count} size early in
    rw (least_right calls count full, least_right (suc calls) count (omega arith))
      (ground (arith, below))

pub moved-zero : (m : Memory) (dst src n : ℕ) → n ≡ 0 → m ≡ moved m dst src n
unfolding moved
moved-zero m dst src n e = fun_ext λ b. ground arith
