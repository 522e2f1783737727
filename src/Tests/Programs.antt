-- ===== src/Tests/Programs.antt =====
-- The programs on a machine of one node with two cpus, with numbers for floating-point numbers.
use mm_mem.Base.{
  ℕ, ◌+◌, ◌-◌, ◌*◌, ◌/◌, ◌^◌, ◌≤◌, ◌≡◌, ◌⊎◌, refl, true, false, ◌&&◌, none, some, List, [], ◌∷◌,
  ◌++◌, arith, ltb, if◌then◌else◌, ◌==◌, add64,
}
use mm_mem.Base.Int.{pos}
use mm_mem.Base.Returns.{Returns, returns}
use mm_mem.Text.{codes}
use mm_mem.Configuration.Settings.{Settings}
use mm_mem.NumaConfig.{Numa, at, query, dump_numa}
use mm_mem.NumaConfig.Dumped.{Printed, dump_numa-Printed}
use mm_mem.NumaConfig.Allowed.{has, is_of_node, query-allowed}
use mm_mem.KmgParser.{IsNear, disp_loop}
use mm_mem.KmgParser.Ends.{IsScaled, disp_loop-IsScaled}
use mm_mem.Programs.{Floats, text, Team, Session, Run, total_bytes, total_time}
use mm_mem.Programs.Matrix.Cells.{Ends}
use mm_mem.Programs.Threads.{Threads, run_threads, run_threads-RunsEnd}
use mm_mem.Kernels.Branch.{select_cases}
use mm_mem.Programs.Branches.{BranchRun, run_branch_throughput}
use mm_mem.Programs.Branches.Rows.{table_labels, Answers, run_branch_throughput-labels}
use mm_mem.Programs.Latency.{run_idle_latency}
use mm_mem.Programs.Latency.Pinned.{run_idle_latency-Ends}
use mm_mem.Programs.Bandwidth.{run_peak_bandwidth, bandwidth_mbps}
use mm_mem.Programs.Bandwidth.Pinned.{run_peak_bandwidth-Ends}
use mm_mem.Programs.Fields.{fields_of}
use mm_mem.Programs.Bandwidth.Lines.{Measures}
use mm_mem.Programs.Bandwidth.Silent.{Allocates, set_up_lines, run_peak_bandwidth-silent}

abbrev floats : Floats
floats = record {
  F = ℕ;
  of_nat = λ n. n;
  add = λ a b. a + b;
  mul = λ a b. a * b;
  div = λ a b. a / b;
  max = λ a b. if ltb a b then b else a;
  positive = ltb 0;
  to_uint32 = λ a. a;
  to_uint64 = λ a. a;
  setup_time_ns = 7;
  show = λ n unit. [];
}

abbrev numa : Numa
numa = record {
  num_nodes = 1;
  num_configured_nodes = 1;
  num_possible_nodes = 1;
  hardware_concurrency = 2;
  num_possible_cpus = 2;
  all_cpus_mask = λ cpu. true;
  node_size = λ node. pos (2 ^ 33);
  node_to_cpus = λ node. some (λ cpu. true);
}

abbrev config : Settings
config = record {
  branch_case = 0;
  num_threads = 1;
  region_size_kb = 131072;
  no_binding = false;
  verbose = false;
  access_pattern = 1;
  chunk_size_kb = 128;
  stride_size_b = 64;
  fragment_size_b = 4096;
  use_hugepage = 0;
  read_write_mix = 0;
  load_gen_delay = pos 1;
  target_duration_s = 10;
  latency_matrix = true;
  bandwidth_matrix = true;
  memcpy_matrix = false;
}

abbrev single : Settings
single = record config { bandwidth_matrix = false }

abbrev begin : Session ℕ ℕ
begin = record { out = []; world = 0 }

-- One thread that has made `chases` and moved `bytes` in a unit of time.
abbrev moves : (chases bytes : ℕ) → Run ℕ ℕ
moves chases bytes team w =
    some (record { finished_chases = chases; finished_bytes = bytes; exec_time = 1 } ∷ [], w + 1)

-- The same by the manager of the threads, which all can be created and join.
abbrev threads : Threads ℕ ℕ
threads = record {
  pthread_create = λ w i. 0;
  timedjoin = λ w i. 0;
  timeout_s = 300;
  work = λ team w. (record { finished_chases = 1; finished_bytes = 1; exec_time = 1 } ∷ [], w + 1);
}

run_idle_latency-Ends_example :
    Ends (run_idle_latency floats ℕ (run_threads threads) config (query numa) begin)
run_idle_latency-Ends_example =
    run_idle_latency-Ends floats ℕ (run_threads threads) config numa begin refl
      (run_threads-RunsEnd threads _ (λ w i. refl) (λ w i. refl))

run_peak_bandwidth-Ends_example :
    Ends (run_peak_bandwidth floats ℕ (run_threads threads) config (query numa) begin)
run_peak_bandwidth-Ends_example =
    run_peak_bandwidth-Ends floats ℕ (run_threads threads) config numa begin refl
      (run_threads-RunsEnd threads _ (λ w i. refl) (λ w i. refl))

abbrev team : Team
team = record {
  manager = record {
    num_threads = 1;
    num_cpus = 2;
    cpu_core_id = 0 ∷ 1 ∷ [];
    start_routines = none ∷ [];
    thread_ids = 0 ∷ [];
    bound_cpu = some 0 ∷ [];
    created = false ∷ [];
  };
  jobs = [];
}

slow : Measures floats ℕ (moves 1 (2 ^ 20)) single (query numa) 1 (λ n. n == 0)
unfolding Measures bandwidth_mbps total_bytes total_time add64
slow t w h assigned = returns refl

allocates : Allocates floats ℕ (moves 1 (2 ^ 20)) single (query numa) 1
unfolding Allocates
allocates t w h assigned = returns tt

run_peak_bandwidth-silent_example :
    Returns
      (λ (u, session').
        session'.out
        ≡ ([] ++ set_up_lines floats ℕ (moves 1 (2 ^ 20)) single (query numa))
          ++ text (codes "\n") ∷ [])
      (run_peak_bandwidth floats ℕ (moves 1 (2 ^ 20)) single (query numa) begin)
run_peak_bandwidth-silent_example =
    run_peak_bandwidth-silent floats ℕ (moves 1 (2 ^ 20)) single (query numa) begin refl allocates
      slow

query-allowed_example :
    (cpus : List ℕ) × (at 0 (query numa).node_to_allowed_cpus ≡ some cpus)
    × ((cpu : ℕ) → has cpu cpus ≡ (is_of_node numa 0 cpu && has cpu (query numa).all_allowed_cpus))
query-allowed_example = query-allowed numa 0 (omega arith)

abbrev near : IsNear
near new_num one_k curr_num = true

dump_numa-Printed_example : Printed (dump_numa near (query numa))
dump_numa-Printed_example = dump_numa-Printed near numa

disp_loop-IsScaled_example :
    Returns
      (λ (shown, last). IsScaled near 1024 5000000 0 shown last × ((shown ≤ 1024) ⊎ (true ≡ false)))
      (disp_loop near 6000000 1024 0 5000000)
disp_loop-IsScaled_example =
    disp_loop-IsScaled near 1024 6000000 0 5000000 (omega arith) (omega arith)

-- A thread that finishes 64 branches in a unit of time, without cycles.
abbrev branches : BranchRun ℕ ℕ
branches manager case_index sample_duration w = some (
  record {
    finished_branches = 64;
    exec_time = 1;
    cycles = 0;
    counter_error = codes "Permission denied";
  }
      ∷ [],
  w + 1,
)

answers : Answers floats ℕ branches 1
unfolding Answers
answers manager case_index sample_duration w = returns refl

all_cases : select_cases 1 10 0 ≡ some (0, 12)
unfolding select_cases
all_cases = refl

run_branch_throughput-labels_example :
    Returns
      (λ (u, session'). fields_of session'.out ≡ fields_of {F = ℕ} [] ++ table_labels 1 (12 - 0) 0)
      (run_branch_throughput floats ℕ branches config (query numa) begin)
run_branch_throughput-labels_example =
    run_branch_throughput-labels floats ℕ branches config (query numa) begin 0 12 all_cases answers
