-- ===== src/Programs/Results.antt =====
-- The results that the workers of cpu_micro/worker_latency.h, cpu_micro/worker_bandwidth.h and
-- cpu_micro/worker_memcpy.h leave in their packets behind the loop, and what they tell on the
-- standard error when they are late.
use mm_mem.Base.{ℕ, Bool, ◌&&◌, ◌||◌, List, [], ◌∷◌, ltb, if◌then◌else◌, mul64}
use mm_mem.Text.{Text, codes, to_string}
use mm_mem.Kernels.Code.{State}
use mm_mem.Kernels.Bandwidth.{get_write_fraction}
use mm_mem.Workers.Packet.{Packet}
use mm_mem.Workers.Checkpoints.{Progress}
use mm_mem.Workers.Measure.{chkpt_calls}
use mm_mem.Programs.{Item, text, number}
use mm_mem.Programs

-- What the workers compute in floating point: `getElapsedTime` of the word of an `int64_t`, the bytes
-- with the share of the written ones in ten-thousandths, which is computed in `float`, and whether a
-- time is more than a percentage of the target.
pub record Rounding (F : Type 0) : Type 0 where
  pub seconds : (elapsed_time_ns : ℕ) → F
  pub with_written : (finished_bytes write_fraction : ℕ) → ℕ
  pub exceeds : F → (target_duration percent : ℕ) → Bool

-- `TIMER_THRESHOLD`
abbrev pub timer_threshold : ℕ
timer_threshold = 102

module _ {F : Type 0} (x : Rounding F) where
  abbrev pub elapsed : Progress → F
  elapsed s = x.seconds s.timer.elapsed_time_ns

  -- `elapsed time (s) exec=… target=… thread_id=…`, and the checkpoints
  unfoldable pub late_message : (worker : Text) → Packet → Progress → List (Item F) → List (Item F)
  late_message worker p s rest =
      text (codes "elapsed time (s) exec=")
      ∷ number 0 6 (elapsed s)
      ∷ text (codes " target=")
      ∷ text (to_string p.target_duration)
      ∷ text (codes " thread_id=")
      ∷ text (to_string p.thread_id)
      ∷ text worker
      ∷ text (to_string s.num_chkpts)
      ∷ rest

  unfoldable pub lat_done : Progress → Programs.Done F → Programs.Done F
  lat_done s d = record d { finished_chases = s.finished; exec_time = elapsed s }

  unfoldable pub lat_message : Packet → State → Progress → List (Item F)
  unfolding late_message
  lat_message p a s =
      if ltb 0 p.ref_latency_ps && x.exceeds (elapsed s) p.target_duration timer_threshold
      then late_message (codes " latency num_chkpts=") p s (
          text (codes " finished_chases=")
          ∷ text (to_string s.finished)
          ∷ text (codes " ret=")
          ∷ text (to_string a.ret)
          ∷ text (codes "\n")
          ∷ [])
      else []

  unfoldable pub bw_done : Packet → Progress → Programs.Done F → Programs.Done F
  unfolding get_write_fraction
  bw_done p s d = record d {
    finished_bytes = x.with_written s.finished (get_write_fraction p.read_write_mix);
    exec_time = elapsed s;
  }

  unfoldable pub bw_message : Packet → State → Progress → List (Item F)
  unfolding late_message get_write_fraction
  bw_message p a s =
      if ltb 0 p.ref_total_bw_gbps && x.exceeds (elapsed s) p.target_duration timer_threshold
      then late_message (codes " bandwidth num_chkpts=") p s (
          text (codes " finished_bytes=")
          ∷ text (to_string (x.with_written s.finished (get_write_fraction p.read_write_mix)))
          ∷ text (codes " ret=")
          ∷ text (to_string a.ret)
          ∷ text (codes "\n")
          ∷ [])
      else []

  unfoldable pub copy_done : Packet → Progress → Programs.Done F → Programs.Done F
  copy_done p s d = record d {
    finished_bytes = mul64 s.finished p.fragment_size;
    exec_time = elapsed s;
  }

  unfoldable pub copy_message : Packet → Progress → List (Item F)
  unfolding late_message chkpt_calls
  copy_message p s =
      if ltb 0 p.ref_one_exec_time_ns
        && (ltb 1 (chkpt_calls p) && x.exceeds (elapsed s) p.target_duration timer_threshold
            || x.exceeds (elapsed s) p.target_duration 105)
      then late_message (codes " memcpy num_chkpts=") p s (
          text (codes " finished_bytes=")
          ∷ text (to_string (mul64 s.finished p.fragment_size))
          ∷ text (codes "\n")
          ∷ [])
      else []
