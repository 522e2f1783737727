-- ===== src/Programs/Main.antt =====
-- The `main` of each test program: cpu_micro/cpu_idle_latency.cc, cpu_micro/cpu_peak_bandwidth.cc,
-- cpu_micro/cpu_loaded_latency.cc, cpu_micro/cpu_memcpy.cc and cpu_micro/cpu_branch_throughput.cc. The
-- result is the exit status. What goes to the standard error, refusals and the usage, is left out.
pub mod Configured
pub mod Measured
pub mod Copied
use mm_mem.Base.{ℕ, none, some, List, [], ◌∷◌, length}
use mm_mem.Text.{Text}
use mm_mem.Kernels.Branch.{select_cases}
use mm_mem.Configuration.{
  TestingType, latency, bandwidth, latency_bandwidth, memcpy, branch_throughput, configure,
}
use mm_mem.Configuration.Settings.{Settings, refused, usage, configured, parse_options, dump}
use mm_mem.NumaConfig.{Numa, NumaConfig, query}
use mm_mem.Workers.Measure.{select_fragment}
use mm_mem.Programs.{Floats, text, Session, Program, ◌>>=◌, ◌>>◌, pure, print, Run}
use mm_mem.Programs.Matrix.{Step}
use mm_mem.Programs.Latency.{run_idle_latency}
use mm_mem.Programs.Bandwidth.{correct_mix, run_peak_bandwidth}
use mm_mem.Programs.Loaded.{run_loaded_latency}
use mm_mem.Programs.Copy.{run_memcpy}
use mm_mem.Programs.Branches.{BranchRun, run_branch_throughput}

module _ (x : Floats) (W : Type 0) (numa : Numa) where
  -- A program that ends with an exit status.
  abbrev pub Main : Type 0
  Main = Program (Session x.F W) ℕ

  -- `config.dump()`, the test, and `return 0`.
  unfoldable pub dump_and_run : TestingType → Settings → Step x.F W → Main
  unfolding dump
  dump_and_run type s test = do print (text (dump type s) ∷ []); test; pure 0

  -- The configuration, with `return 1` where there is none.
  unfoldable pub with_options : TestingType → (args : List Text) → (Settings → Main) → Main
  unfolding parse_options configure query
  with_options type args test =
      elim (parse_options (configure type (length (query numa).all_allowed_cpus)) args) [
        | refused e ↦ pure 1
        | usage t ↦ pure 1
        | configured s ↦ test s
      ]

  unfoldable pub main_idle_latency : Run x.F W → (args : List Text) → Main
  unfolding with_options dump_and_run run_idle_latency
  main_idle_latency run args =
      with_options latency args
        λ s. dump_and_run latency s (run_idle_latency x W run s (query numa))

  unfoldable pub main_peak_bandwidth : Run x.F W → (args : List Text) → Main
  unfolding with_options dump_and_run correct_mix run_peak_bandwidth
  main_peak_bandwidth run args = with_options bandwidth args λ s.
      let s' = correct_mix s in
      dump_and_run bandwidth s' (run_peak_bandwidth x W run s' (query numa))

  unfoldable pub main_loaded_latency : Run x.F W → (args : List Text) → Main
  unfolding with_options dump_and_run run_loaded_latency
  main_loaded_latency run args =
      with_options latency_bandwidth args
        λ s. dump_and_run latency_bandwidth s (run_loaded_latency x W run s (query numa))

  unfoldable pub main_memcpy : Run x.F W → (args : List Text) → Main
  unfolding with_options dump_and_run select_fragment run_memcpy
  main_memcpy run args = with_options memcpy args λ s.
      elim (select_fragment s.region_size_kb s.fragment_size_b) [
        | none ↦ pure 1
        | some fragment ↦
            let s' = record s { fragment_size_b = fragment } in
            dump_and_run memcpy s' (run_memcpy x W run s' (query numa))
      ]

  unfoldable pub main_branch_throughput : BranchRun x.F W → (args : List Text) → Main
  unfolding with_options dump_and_run select_cases run_branch_throughput
  main_branch_throughput run args = with_options branch_throughput args λ s.
      elim (select_cases s.num_threads s.target_duration_s s.branch_case) [
        | none ↦ pure 1
        | some range ↦
            dump_and_run branch_throughput s (run_branch_throughput x W run s (query numa))
      ]
