-- ===== src/Workers/Timer.antt =====
-- The class `Timer` of common/timing.h. Time points and durations are the 64-bit words of their
-- nanoseconds.
pub mod Elapsed
pub mod Named
use mm_mem.Base.{ℕ, ◌+◌, ◌%◌, ◌^◌, Bool, leb, add64, sub64}

-- What the readings of the steady clock return, by their number.
abbrev pub Clock : Type 0
Clock = ℕ → ℕ

-- `reading` is the number of the next reading.
pub record Timer : Type 0 where
  pub reading : ℕ
  pub time_point_begin : ℕ
  pub time_point_end : ℕ
  pub elapsed_time_ns : ℕ

unfoldable pub new_timer : Timer
new_timer = record { reading = 0; time_point_begin = 0; time_point_end = 0; elapsed_time_ns = 0 }

unfoldable pub start_timer : Clock → Timer → Timer
start_timer clock t = record t { reading = t.reading + 1; time_point_begin = clock t.reading }

unfoldable pub end_timer : Clock → Timer → Timer
end_timer clock t = record t {
  reading = t.reading + 1;
  time_point_end = clock t.reading;
  elapsed_time_ns = add64 t.elapsed_time_ns (sub64 (clock t.reading) t.time_point_begin);
}

unfoldable pub resume_timer : Timer → Timer
resume_timer t = record t { time_point_begin = t.time_point_end }

-- `a >= b` for the words of two `int64_t`
unfoldable pub signed_ge : ℕ → ℕ → Bool
signed_ge a b = leb ((b + 2 ^ 63) % 2 ^ 64) ((a + 2 ^ 63) % 2 ^ 64)
