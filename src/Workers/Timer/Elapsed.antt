-- ===== src/Workers/Timer/Elapsed.antt =====
-- What a timer has counted, on a clock that does not go back.
use mm_mem.Base.{
  ℕ, zero, suc, ◌-◌, ◌^◌, ◌≤◌, ◌<◌, ◌≡◌, ◌∙◌, arith, add64, sub64, add64-lt, sub64-le,
}
use mm_mem.Workers.Timer.{Clock}

-- A clock that does not go back and stays below 2^63.
pub record IsClock (clock : Clock) : Type 0 where
  pub onward : (k : ℕ) → clock k ≤ clock (suc k)
  pub bounded : (k : ℕ) → clock k < 2 ^ 63

module _ (clock : Clock) (ok : IsClock clock) where
  pub from_zero : (k : ℕ) → clock 0 ≤ clock k
  from_zero zero = omega arith
  from_zero (suc k) = omega (arith, from_zero k, ok.onward k)

  -- The time from the first reading, with another reading.
  pub elapsed_then :
      (k : ℕ)
      → add64 (clock k - clock 0) (sub64 (clock (suc k)) (clock k)) ≡ clock (suc k) - clock 0
  elapsed_then k =
      let e : sub64 (clock (suc k)) (clock k) ≡ clock (suc k) - clock k =
        sub64-le (clock (suc k)) (clock k) (ok.onward k) (omega (arith, ok.bounded (suc k))) in
      rw e (
        add64-lt (clock k - clock 0) (clock (suc k) - clock k)
          (omega (arith, ok.bounded (suc k), ok.bounded k, ok.onward k, from_zero k))
        ∙ omega (arith, ok.onward k, from_zero k))
