-- ===== src/Programs/Bandwidth.antt =====
-- The test of the peak bandwidth, cpu_micro/cpu_peak_bandwidth.cc, behind the parsing of its options.
pub mod Kernels
pub mod Pinned
pub mod Lines
pub mod Silent
use mm_mem.Base.{
  ℕ, ◌+◌, ◌^◌, Bool, true, not, ◌&&◌, Option, none, some, List, [], ◌∷◌, ◌++◌, map, ltb, leb, ◌==◌,
  length, if◌then◌else◌,
}
use mm_mem.Base.Int.{ℤ, pos, negsuc}
use mm_mem.Text.{Text, codes}
use mm_mem.Kernels.Code.{Code}
use mm_mem.Kernels.Bandwidth.{get_kernels_with_wrmix}
use mm_mem.Configuration.Settings.{Settings}
use mm_mem.Configuration.Strings.{get_str_rw_mix}
use mm_mem.NumaConfig.{NumaConfig}
use mm_mem.Programs.{
  Floats, Item, text, field, number, Routine, Job, Team, Session, Program, ◌>>=◌, ◌>>◌, pure, lift,
  print, Run, run_team, make_team, new_team, setup_line, prepare_team, assign_routine, duration,
  total_bytes, total_time,
}
use mm_mem.Programs
use mm_mem.Programs.Matrix.{Step, matrix_header, matrix_rows}

-- The correction in `main`
unfoldable pub correct_mix : Settings → Settings
correct_mix s =
    if s.bandwidth_matrix && (s.read_write_mix == 100) then record s { read_write_mix = 0 } else s

-- `push_front(front())`, which is undefined on an empty list
unfoldable pub first_again {ℓ} : {A : Type ℓ} → List A → Option (List A)
first_again [] = none
first_again (a ∷ rest) = some (a ∷ a ∷ rest)

module _ (x : Floats) (W : Type 0) (run : Run x.F W) (s : Settings) (numa : NumaConfig) where
  unfoldable pub setup_memory_regions_peak_bandwidth :
      Team → (node : ℤ) → Program (Session x.F W) Team
  unfolding prepare_team assign_routine
  setup_memory_regions_peak_bandwidth team node = do
    let team' = assign_routine Routine.mem_region_alloc_bw (prepare_team s node team)
    run_team run team'
    pure team'

  unfoldable pub bandwidth_job : Code → (read_write_mix last_measured_bw_gbps : ℕ) → Job → Job
  bandwidth_job kernel read_write_mix last_measured_bw_gbps j = record j {
    kernel_bw = some kernel;
    packet = record j.packet {
      read_write_mix = read_write_mix;
      ref_total_bw_gbps = last_measured_bw_gbps;
      num_total_threads = numa.num_cpus;
      target_duration = duration s last_measured_bw_gbps;
    };
  }

  -- The bandwidth in MB/s
  unfoldable pub bandwidth_mbps : (threads : ℕ) → List (Programs.Done x.F) → x.F
  unfolding total_time total_bytes
  bandwidth_mbps threads done =
      let mem_bw =
        x.mul (x.div (x.of_nat (total_bytes done 0)) (total_time x done (x.of_nat 0)))
          (x.of_nat threads) in
      x.div (x.div mem_bw (x.of_nat 1024)) (x.of_nat 1024)

  -- What a measurement prints, unless it is a calibration.
  unfoldable pub bandwidth_line :
      (read_write_mix last_measured_bw_gbps : ℕ) → (mbps gbps : x.F) → List (Item x.F)
  unfolding get_str_rw_mix
  bandwidth_line read_write_mix last_measured_bw_gbps mbps gbps =
      if ltb 0 last_measured_bw_gbps
      then (if s.bandwidth_matrix
          then number 10 4 gbps ∷ []
          else field 20 (get_str_rw_mix read_write_mix)
            ∷ text (codes " :")
            ∷ number 10 7 mbps
            ∷ text (codes " MB/s | ")
            ∷ number 7 4 gbps
            ∷ text (codes " GB/s\n")
            ∷ [])
      else []

  -- The bandwidth in GB/s, and the team.
  unfoldable pub measure_peak_bandwidth :
      Team → Code → (read_write_mix last_measured_bw_gbps : ℕ) → Program (Session x.F W) (ℕ × Team)
  unfolding assign_routine bandwidth_job bandwidth_mbps bandwidth_line
  measure_peak_bandwidth team kernel read_write_mix last_measured_bw_gbps = do
    let team' = assign_routine Routine.bw_sequential (record team {
      jobs = map (bandwidth_job kernel read_write_mix last_measured_bw_gbps) team.jobs;
    })
    done ← run_team run team'
    let mbps = bandwidth_mbps team.manager.num_threads done
    let gbps = x.div mbps (x.of_nat 1024)
    print (bandwidth_line read_write_mix last_measured_bw_gbps mbps gbps)
    pure (x.to_uint32 gbps, team')

  -- The loop over the mixes
  unfoldable pub run_mixes : List (ℕ × Code) → Team → (last_bw_gbps : ℕ) → Step x.F W
  unfolding measure_peak_bandwidth
  run_mixes [] team last_bw_gbps = pure tt
  run_mixes ((read_write_mix, kernel) ∷ rest) team last_bw_gbps =
      measure_peak_bandwidth team kernel read_write_mix last_bw_gbps >>= λ (measured, team').
      run_mixes rest team' measured

  unfoldable pub run_bandwidth : Team → Step x.F W
  unfolding first_again run_mixes get_kernels_with_wrmix
  run_bandwidth team = do
    rwmix_and_kernels ← lift (first_again (get_kernels_with_wrmix s.read_write_mix))
    run_mixes rwmix_and_kernels team 0

  -- A cell of the matrix
  unfoldable pub bandwidth_cell : (cpus : List ℕ) → (node : ℕ) → Step x.F W
  unfolding make_team setup_memory_regions_peak_bandwidth run_bandwidth
  bandwidth_cell cpus node = do
    let threads : ℕ = if leb s.num_threads (length cpus) then s.num_threads else length cpus
    manager ← new_team numa.num_cpus threads cpus true s.verbose
    team ← setup_memory_regions_peak_bandwidth manager (pos node)
    run_bandwidth team

  -- The two branches of `setup_and_run`
  unfoldable pub bandwidth_matrix : Step x.F W
  unfolding matrix_header matrix_rows bandwidth_cell
  bandwidth_matrix = do
    print (field 25 (codes "Peak Bandwidth (GB/s)") ∷ matrix_header x.F W numa.num_numa_nodes 0)
    matrix_rows x.F W numa 25 (pos (2 ^ 31)) bandwidth_cell numa.num_numa_nodes 0
    print (text (codes "\n") ∷ [])

  unfoldable pub single_bandwidth : Step x.F W
  unfolding make_team setup_memory_regions_peak_bandwidth run_bandwidth
  single_bandwidth = do
    manager ←
        new_team numa.num_cpus s.num_threads numa.all_allowed_cpus (not s.no_binding) s.verbose
    team ← setup_memory_regions_peak_bandwidth manager (negsuc 0)
    print (setup_line x ∷ [])
    run_bandwidth team

  -- `setup_and_run`
  unfoldable pub run_peak_bandwidth : Step x.F W
  unfolding bandwidth_matrix single_bandwidth
  run_peak_bandwidth = do
    if s.bandwidth_matrix then bandwidth_matrix else single_bandwidth
    print (text (codes "\n") ∷ [])
