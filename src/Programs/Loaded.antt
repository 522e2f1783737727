-- ===== src/Programs/Loaded.antt =====
-- The test of the latency under load, cpu_micro/cpu_loaded_latency.cc, behind the parsing of its
-- options.
pub mod Roles
pub mod Lines
use mm_mem.Base.{
  ℕ, zero, suc, ◌+◌, ◌^◌, Bool, true, false, not, ◌||◌, Option, none, some, List, [], ◌∷◌, ◌++◌,
  ltb, ◌==◌, if◌then◌else◌, add64, mul64, get_elem?,
}
use mm_mem.Base.Int.{ℤ, negsuc}
use mm_mem.Text.{Text, codes, to_string}
use mm_mem.Kernels.Code.{Code}
use mm_mem.Kernels.Latency.{kernel_lat}
use mm_mem.LoadedLatency.{build_delays_and_kernels}
use mm_mem.Configuration.Settings.{Settings}
use mm_mem.Configuration.Strings.{get_str_access_pattern_short}
use mm_mem.NumaConfig.{NumaConfig}
use mm_mem.Programs.{
  Floats, Item, text, field, number, Routine, Job, Team, Session, Program, ◌>>=◌, ◌>>◌, pure, lift,
  print, Run, run_team, make_team, new_team, setup_line, prepare_team, assign_routine_where,
  duration, total_bytes, total_time,
}
use mm_mem.Programs
use mm_mem.Programs.Matrix.{Step}

-- The first thread gets one routine, the others another.
unfoldable pub assign_roles : (first others : Routine) → Team → Team
unfolding assign_routine_where
assign_roles first others team =
    assign_routine_where others (λ i. ltb 0 i) (assign_routine_where first (λ i. i == 0) team)

module _ (x : Floats) (W : Type 0) (run : Run x.F W) (s : Settings) (numa : NumaConfig) where
  unfoldable pub setup_memory_regions_loaded_latency : Team → Program (Session x.F W) Team
  unfolding prepare_team assign_roles
  setup_memory_regions_loaded_latency team = do
    let team' =
        assign_roles Routine.mem_region_alloc_lat Routine.mem_region_alloc_bw
          (prepare_team s (negsuc 0) team)
    run_team run team'
    pure team'

  -- The packets from the thread `i` on.
  unfoldable pub loaded_jobs :
      Code → (last_measured_lat_ps last_measured_bw_gbps i : ℕ) → List Job → List Job
  loaded_jobs kernel lat bw i [] = []
  loaded_jobs kernel lat bw i (j ∷ rest) =
      record {
        kernel_lat = some kernel_lat;
        kernel_bw = some kernel;
        packet = record j.packet {
          ref_latency_ps = lat;
          read_write_mix = s.read_write_mix;
          ref_total_bw_gbps = bw;
          num_total_threads = numa.num_cpus;
          target_duration = if i == 0 then duration s lat else duration s bw;
        };
      }
      ∷ loaded_jobs kernel lat bw (i + 1) rest

  -- The latency in nanoseconds, from what the first thread has done
  unfoldable pub loaded_latency : Programs.Done x.F → x.F
  loaded_latency first =
      x.div (x.mul first.exec_time (x.of_nat (10 ^ 9))) (x.of_nat first.finished_chases)

  -- The bandwidth in GB/s, from what the first thread and the others have done
  unfoldable pub loaded_bandwidth : Programs.Done x.F → List (Programs.Done x.F) → x.F
  unfolding total_bytes total_time
  loaded_bandwidth first others =
      let bytes = total_bytes others (mul64 first.finished_chases s.stride_size_b) in
      let mem_bw =
        x.mul (x.div (x.of_nat bytes) (total_time x others first.exec_time))
          (x.of_nat s.num_threads) in
      x.div (x.div (x.div mem_bw (x.of_nat 1024)) (x.of_nat 1024)) (x.of_nat 1024)

  -- A line of the table, unless the measurement is a calibration.
  unfoldable pub loaded_line : (lat bw delay : ℕ) → (mem_bw_gbps latency : x.F) → List (Item x.F)
  loaded_line lat bw delay mem_bw_gbps latency =
      if ltb 0 lat || ltb 0 bw
      then field 12 (to_string delay)
        ∷ number 12 1 mem_bw_gbps
        ∷ number 12 1 latency
        ∷ text (codes "\n")
        ∷ []
      else []

  -- The results of a team without threads are out of range.
  unfoldable pub loaded_results :
      (lat bw delay : ℕ) → List (Programs.Done x.F) → Program (Session x.F W) (ℕ × ℕ)
  unfolding loaded_latency loaded_bandwidth loaded_line
  loaded_results lat bw delay [] = λ session. none
  loaded_results lat bw delay (first ∷ others) = do
    let latency = loaded_latency first
    let mem_bw_gbps = loaded_bandwidth first others
    print (loaded_line lat bw delay mem_bw_gbps latency)
    pure (x.to_uint32 (x.mul latency (x.of_nat 1000)), x.to_uint32 mem_bw_gbps)

  -- The latency in picoseconds, the bandwidth in GB/s, and the team.
  unfoldable pub measure_loaded_latency :
      Team → Code → (lat bw delay : ℕ) → Program (Session x.F W) ((ℕ × ℕ) × Team)
  unfolding assign_roles loaded_jobs loaded_results
  measure_loaded_latency team kernel lat bw delay = do
    let team' =
        assign_roles Routine.lat_ptr Routine.bw_sequential
          (record team { jobs = loaded_jobs kernel lat bw 0 team.jobs })
    done ← run_team run team'
    measured ← loaded_results lat bw delay done
    pure (measured, team')

  -- The loop over the delays
  unfoldable pub run_delays : List (ℕ × Code) → Team → (lat bw : ℕ) → Step x.F W
  unfolding measure_loaded_latency
  run_delays [] team lat bw = pure tt
  run_delays ((delay, kernel) ∷ rest) team lat bw =
      measure_loaded_latency team kernel lat bw delay >>= λ (measured, team').
      run_delays rest team' measured.0 measured.1

  -- `main`, behind `dump`
  unfoldable pub run_loaded_latency : Step x.F W
  unfolding make_team build_delays_and_kernels setup_memory_regions_loaded_latency run_delays
      get_str_access_pattern_short
  run_loaded_latency = do
    team ← new_team numa.num_cpus s.num_threads numa.all_allowed_cpus (not s.no_binding) s.verbose
    delays_and_kernels ← lift (build_delays_and_kernels s.read_write_mix s.load_gen_delay)
    team' ← setup_memory_regions_loaded_latency team
    print (setup_line x ∷ [])
    print (
        field 12 (codes "delay")
        ∷ field 12 (codes "bandwidth")
        ∷ field 12 (codes "latency")
        ∷ text (codes " - ")
        ∷ text (get_str_access_pattern_short s.access_pattern)
        ∷ text (codes "\n")
        ∷ [])
    run_delays delays_and_kernels team' 0 0
    print (text (codes "\n") ∷ [])
