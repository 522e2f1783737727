-- ===== src/Base/Words.antt =====
-- Unsigned 64-bit arithmetic with its wrap-around.
use Prim.Native.Nat.{ℕ, ◌/◌, ◌+◌, ◌-◌, ◌*◌, ◌%◌, ◌^◌, ◌≤◌, ◌<◌}
use mathlib.Core.Path.{◌≡◌}
use mathlib.Core.Path.{ap, ◌∙◌}
use native.Mathlib.Decide.{ℕ_discrete}
use native.Mathlib.Nat.{mod-eq_of_lt, div-add-mod', mod-lt}
use native.Mathlib.Omega.{arith}

unfoldable pub add64 : ℕ → ℕ → ℕ
add64 a b = (a + b) % 2 ^ 64

-- For `b` below 2^64.
unfoldable pub sub64 : ℕ → ℕ → ℕ
sub64 a b = (a + 2 ^ 64 - b) % 2 ^ 64

unfoldable pub mul64 : ℕ → ℕ → ℕ
mul64 a b = a * b % 2 ^ 64

pub add64-lt : (a b : ℕ) → a + b < 2 ^ 64 → add64 a b ≡ a + b
unfolding add64
add64-lt a b h = mod-eq_of_lt h

pub sub64-le : (a b : ℕ) → b ≤ a → a < 2 ^ 64 → sub64 a b ≡ a - b
unfolding sub64
sub64-le a b h k = omega arith

pub mul64-lt : (a b : ℕ) → a * b < 2 ^ 64 → mul64 a b ≡ a * b
unfolding mul64
mul64-lt a b h = mod-eq_of_lt h

pub div-pos : (n w : ℕ) → 0 < w → w ≤ n → 0 < n / w
div-pos n w pos h = elim (ℕ_discrete (n / w) 0) [
  | yes none_left ↦
      let e : n / w * w ≡ 0 = ap (λ t. t * w) none_left ∙ omega arith in
      absurd (omega (arith, div-add-mod' n w, mod-lt n pos, e))
  | no some_left ↦ omega arith
]
