-- ===== src/Workers/Branch.antt =====
-- The worker `branch_tp` of cpu_micro/worker_branch_throughput.h. Whether an elapsed time, in
-- nanoseconds, is at least the duration of a sample is a parameter, as it is decided in `double`.
pub mod Batches
pub mod Samples
use mm_mem.Base.{
  ℕ, zero, suc, ◌+◌, ◌%◌, ◌^◌, Bool, Option, none, some, ◌>>=◌, if◌then◌else◌, add64, get_elem?,
}
use mm_mem.Text.{Text}
use mm_mem.Kernels.Branch.{branch_cases, taken_branches}
use mm_mem.Workers.Timer.{Clock, Timer, new_timer, start_timer, end_timer, resume_timer}
use mm_mem.Workers.CycleCounter.{Perf, CycleCounter, open_counter, start, stop}

abbrev pub batch_rounds : ℕ
batch_rounds = 65536

-- The timer and the `finished_branches` of the packet.
pub record Sample : Type 0 where
  pub timer : Timer
  pub finished_branches : ℕ

-- A round of the loop, up to the test.
unfoldable pub run_batch : Clock → (batch_branches : ℕ) → Sample → Sample
run_batch clock batch_branches s = record {
  timer = end_timer clock s.timer;
  finished_branches = add64 s.finished_branches batch_branches;
}

-- The `do` loop
unfoldable pub run_batches :
    Clock → (over : ℕ → Bool) → (batch_branches fuel : ℕ) → Sample → Option Sample
run_batches clock over batch_branches zero s = none
run_batches clock over batch_branches (suc fuel) s =
    let s' = run_batch clock batch_branches s in
    let rest =
      run_batches clock over batch_branches fuel (record s' { timer = resume_timer s'.timer }) in
    if over s'.timer.elapsed_time_ns then some s' else rest

-- What the worker writes into its packet.
pub record Outputs : Type 0 where
  pub finished_branches : ℕ
  pub exec_time_ns : ℕ
  pub cycles : ℕ
  pub counter_error : Text

unfoldable pub branch_tp : Perf → Clock → (over : ℕ → Bool) → (fuel case_index : ℕ) → Option Outputs
unfolding branch_cases taken_branches new_timer start_timer open_counter start stop
branch_tp perf clock over fuel case_index = do
  kernel ← get_elem? branch_cases case_index
  let batch_branches = taken_branches kernel.branches batch_rounds
  let (counter, counting) = start perf (open_counter perf)
  s ←
      run_batches clock over batch_branches fuel
        (record { timer = start_timer clock new_timer; finished_branches = 0 })
  let (counter', cycles) = if counting then stop perf counter else (counter, 0)
  some (record {
    finished_branches = s.finished_branches;
    exec_time_ns = s.timer.elapsed_time_ns;
    cycles = cycles;
    counter_error = counter'.error;
  })
