-- ===== src/Programs/Copy.antt =====
-- The test of copying, cpu_micro/cpu_memcpy.cc, behind the parsing of its options. The only
-- kernel, `glibc_memcpy`, is left out.
pub mod Alone
pub mod SetUp
pub mod Measured
use mm_mem.Base.{ℕ, not, List, [], ◌∷◌, map, ltb, if◌then◌else◌, mul64}
use mm_mem.Base.Int.{negsuc}
use mm_mem.Text.{codes}
use mm_mem.Configuration.Settings.{Settings}
use mm_mem.NumaConfig.{NumaConfig}
use mm_mem.Workers.Measure.{select_fragment}
use mm_mem.Programs.{
  Floats, Item, text, number, Routine, Job, Team, Session, Program, ◌>>=◌, ◌>>◌, pure, lift, print,
  Run, run_team, make_team, new_team, setup_line, prepare_team, assign_routine, duration,
  total_bytes, total_time,
}
use mm_mem.Programs
use mm_mem.Programs.Matrix.{Step}

module _ (x : Floats) (W : Type 0) (run : Run x.F W) where
  unfoldable pub setup_memory_regions_memcpy : Settings → Team → Program (Session x.F W) Team
  unfolding prepare_team assign_routine
  setup_memory_regions_memcpy s team = do
    let team' = assign_routine Routine.mem_region_alloc_memcpy (prepare_team s (negsuc 0) team)
    run_team run team'
    pure team'

  unfoldable pub copy_job : Settings → (last_measured_exec_time_ns : ℕ) → Job → Job
  copy_job s last_measured_exec_time_ns j = record j {
    packet = record j.packet {
      fragment_size = s.fragment_size_b;
      ref_one_exec_time_ns = last_measured_exec_time_ns;
      target_duration = duration s last_measured_exec_time_ns;
    };
  }

  -- The bandwidth in MB/s
  unfoldable pub copy_mbps : Settings → List (Programs.Done x.F) → x.F
  unfolding total_bytes total_time
  copy_mbps s done =
      let copy_bw =
        x.mul (x.div (x.of_nat (total_bytes done 0)) (total_time x done (x.of_nat 0)))
          (x.of_nat s.num_threads) in
      x.div (x.div copy_bw (x.of_nat 1024)) (x.of_nat 1024)

  -- What a measurement prints, unless it is a calibration.
  unfoldable pub copy_line : (last_measured_exec_time_ns : ℕ) → (mbps gbps : x.F) → List (Item x.F)
  copy_line last_measured_exec_time_ns mbps gbps =
      if ltb 0 last_measured_exec_time_ns
      then text (codes "Memcpy Bandwidth: ")
        ∷ number 10 7 mbps
        ∷ text (codes " MB/s | ")
        ∷ number 7 4 gbps
        ∷ text (codes " GB/s")
        ∷ text (codes "\n")
        ∷ []
      else []

  -- The time of a copy in nanoseconds, and the team.
  unfoldable pub measure_mempcy_bandwidth :
      Settings → Team → (last_measured_exec_time_ns : ℕ) → Program (Session x.F W) (ℕ × Team)
  unfolding assign_routine copy_job copy_mbps copy_line
  measure_mempcy_bandwidth s team last_measured_exec_time_ns = do
    let team' =
        assign_routine Routine.copy_fragment
          (record team { jobs = map (copy_job s last_measured_exec_time_ns) team.jobs })
    done ← run_team run team'
    let mbps = copy_mbps s done
    let gbps = x.div mbps (x.of_nat 1024)
    print (copy_line last_measured_exec_time_ns mbps gbps)
    pure (x.to_uint64 (x.div (x.of_nat (mul64 s.fragment_size_b s.num_threads)) gbps), team')

  -- `main`, behind `parse_options`
  unfoldable pub run_memcpy : Settings → NumaConfig → Step x.F W
  unfolding select_fragment make_team setup_memory_regions_memcpy measure_mempcy_bandwidth
  run_memcpy config numa = do
    fragment ← lift (select_fragment config.region_size_kb config.fragment_size_b)
    let s = record config { fragment_size_b = fragment }
    manager ←
        new_team numa.num_cpus s.num_threads numa.all_allowed_cpus (not s.no_binding) s.verbose
    team ← setup_memory_regions_memcpy s manager
    print (setup_line x ∷ [])
    calibrated ← measure_mempcy_bandwidth s team 0
    measure_mempcy_bandwidth s calibrated.1 calibrated.0
    print (text (codes "\n") ∷ [])
