-- ===== src/Programs/Latency.antt =====
-- The test of the idle latency, cpu_micro/cpu_idle_latency.cc, behind the parsing of its options.
pub mod Pinned
pub mod Alone
pub mod SetUp
pub mod Measured
use mm_mem.Base.{
  ℕ, ◌^◌, Bool, true, not, Option, some, List, [], ◌∷◌, ◌++◌, map, ltb, leb, length, if◌then◌else◌,
}
use mm_mem.Base.Int.{ℤ, pos, negsuc}
use mm_mem.Text.{Text, codes}
use mm_mem.Kernels.Latency.{kernel_lat}
use mm_mem.Configuration.Settings.{Settings}
use mm_mem.Configuration.Strings.{get_str_access_pattern_short}
use mm_mem.NumaConfig.{NumaConfig}
use mm_mem.Programs.{
  Floats, Item, text, field, number, Routine, Job, Team, Session, Program, ◌>>=◌, ◌>>◌, pure, print,
  Run, run_team, make_team, new_team, prepare_team, assign_routine, duration, total_chases,
  total_time,
}
use mm_mem.Programs
use mm_mem.Programs.Matrix.{Step, matrix_header, matrix_rows}

module _ (x : Floats) (W : Type 0) (run : Run x.F W) (s : Settings) where
  unfoldable pub setup_memory_regions_idle_latency :
      Team → (node : ℤ) → Program (Session x.F W) Team
  unfolding prepare_team assign_routine
  setup_memory_regions_idle_latency team node = do
    let team' = assign_routine Routine.mem_region_alloc_lat (prepare_team s node team)
    run_team run team'
    pure team'

  unfoldable pub latency_job : (last_measured_lat_ps : ℕ) → Job → Job
  latency_job last_measured_lat_ps j = record j {
    kernel_lat = some kernel_lat;
    packet = record j.packet {
      ref_latency_ps = last_measured_lat_ps;
      target_duration = duration s last_measured_lat_ps;
    };
  }

  -- The latency in nanoseconds
  unfoldable pub latency_of : List (Programs.Done x.F) → x.F
  unfolding total_time total_chases
  latency_of done =
      x.div (x.mul (total_time x done (x.of_nat 0)) (x.of_nat (10 ^ 9)))
        (x.of_nat (total_chases done 0))

  -- The latency in picoseconds, and the team.
  unfoldable pub measure_idle_latency :
      Team → (last_measured_lat_ps : ℕ) → Program (Session x.F W) (ℕ × Team)
  unfolding assign_routine latency_job latency_of
  measure_idle_latency team last_measured_lat_ps = do
    let team' =
        assign_routine Routine.lat_ptr
          (record team { jobs = map (latency_job last_measured_lat_ps) team.jobs })
    done ← run_team run team'
    let latency = latency_of done
    print (if ltb 0 last_measured_lat_ps then number 10 4 latency ∷ [] else [])
    pure (x.to_uint32 (x.mul latency (x.of_nat 1000)), team')

  unfoldable pub run_latency : Team → Step x.F W
  unfolding measure_idle_latency
  run_latency team = do
    calibrated ← measure_idle_latency team 0
    measured ← measure_idle_latency calibrated.1 calibrated.0
    pure tt

  -- A cell of the matrix
  unfoldable pub latency_cell : NumaConfig → (cpus : List ℕ) → (node : ℕ) → Step x.F W
  unfolding make_team setup_memory_regions_idle_latency run_latency
  latency_cell numa cpus node = do
    let threads : ℕ = if leb s.num_threads (length cpus) then s.num_threads else length cpus
    manager ← new_team numa.num_cpus threads cpus true s.verbose
    team ← setup_memory_regions_idle_latency manager (pos node)
    run_latency team

  -- The two branches of `setup_and_run`
  unfoldable pub latency_matrix : NumaConfig → Step x.F W
  unfolding matrix_header matrix_rows latency_cell get_str_access_pattern_short
  latency_matrix numa = do
    print (
        field 40 (codes "Idle Latency (ns) - " ++ get_str_access_pattern_short s.access_pattern)
        ∷ matrix_header x.F W numa.num_numa_nodes 0)
    matrix_rows x.F W numa 40 (pos (2 ^ 30)) (latency_cell numa) numa.num_numa_nodes 0
    print (text (codes "\n") ∷ [])

  unfoldable pub single_latency : NumaConfig → Step x.F W
  unfolding make_team setup_memory_regions_idle_latency run_latency get_str_access_pattern_short
  single_latency numa = do
    manager ←
        new_team numa.num_cpus s.num_threads numa.all_allowed_cpus (not s.no_binding) s.verbose
    team ← setup_memory_regions_idle_latency manager (negsuc 0)
    print (
        text (codes "Idle Latency - ")
        ∷ text (get_str_access_pattern_short s.access_pattern)
        ∷ text (codes " : ")
        ∷ [])
    run_latency team
    print (text (codes " ns\n") ∷ [])

  -- `setup_and_run`
  unfoldable pub run_idle_latency : NumaConfig → Step x.F W
  unfolding latency_matrix single_latency
  run_idle_latency numa = do
    if s.latency_matrix then latency_matrix numa else single_latency numa
    print (text (codes "\n") ∷ [])
