-- ===== src/Workers/Checkpoints.antt =====
-- The loop of the measuring workers: passes over a region that stop at a checkpoint when the time
-- is over.
pub mod Ends
pub mod Keeps
use mm_mem.Base.{
  ℕ, zero, suc, ◌+◌, ◌%◌, ◌^◌, Bool, true, false, Option, none, some, ltb, if◌then◌else◌, add64,
}
use mm_mem.Workers.Timer.{Clock, Timer, end_timer, resume_timer, signed_ge}

-- What the loop does not change: the target in nanoseconds, what a call of the kernel finishes, and
-- the distance of the checkpoints.
pub record Plan : Type 0 where
  pub target_duration_ns : ℕ
  pub call_size : ℕ
  pub chkpt_size : ℕ

pub record Progress : Type 0 where
  pub timer : Timer
  pub finished : ℕ
  pub next_chkpt : ℕ
  pub num_chkpts : ℕ

-- A checkpoint, and whether the time is over.
unfoldable pub checkpoint : Clock → Plan → Progress → Progress × Bool
checkpoint clock plan s =
    let timer = end_timer clock s.timer in
    let over = signed_ge timer.elapsed_time_ns plan.target_duration_ns in
    let s' : Progress = record s {
      timer = if over then timer else resume_timer timer;
      next_chkpt = add64 s.next_chkpt plan.chkpt_size;
      num_chkpts = (s.num_chkpts + 1) % 2 ^ 32;
    } in
    (s', over)

-- What follows a call of the kernel.
unfoldable pub count_call : Clock → Plan → Progress → Progress × Bool
count_call clock plan s =
    let s' : Progress = record s { finished = add64 s.finished plan.call_size } in
    if ltb s'.next_chkpt s'.finished then checkpoint clock plan s' else (s', false)

module _ {ℓ} {A : Type ℓ} (clock : Clock) (plan : Plan) (call : (i : ℕ) → A → A) where
  -- `for (i = 0; i < loop_count; ++i)` with `n` rounds left; whether it was left by `break`.
  unfoldable pub pass : (n i : ℕ) → A → Progress → A × Progress × Bool
  pass zero i a s = (a, s, false)
  pass (suc n) i a s =
      let counted = count_call clock plan s in
      let rest = pass n (i + 1) (call i a) counted.0 in
      if counted.1 then (call i a, counted.0, true) else rest

  -- `while (true)`: `begin` is what a pass starts with, `p = start`.
  unfoldable pub passes :
      (fuel loop_count : ℕ) → (begin : A → A) → A → Progress → Option (A × Progress)
  passes zero loop_count begin a s = none
  passes (suc fuel) loop_count begin a s =
      let after = pass loop_count 0 (begin a) s in
      let rest = passes fuel loop_count begin after.0 after.1 in
      if after.2 then some (after.0, after.1) else rest
