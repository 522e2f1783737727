-- ===== src/Programs.antt =====
-- What the test programs of cpu_micro/ share: sessions, teams of workers and the sums over their
-- results. Floating-point numbers are a parameter. So is what the threads of a team do in a run, from
-- `create` to `join`, as they run at the same time; the routines are those of Workers.
pub mod Teams
pub mod Fields
pub mod Matrix
pub mod Latency
pub mod Bandwidth
pub mod Loaded
pub mod Copy
pub mod Branches
pub mod Threads
pub mod Results
pub mod Crew
pub mod Main
use mm_mem.Base.{
  ℕ, zero, suc, ◌+◌, ◌^◌, ◌%◌, Bool, Option, none, some, List, [], ◌∷◌, ◌++◌, map, ltb,
  if◌then◌else◌, add64,
}
use mm_mem.Base.Int.{ℤ}
use mm_mem.Text.{Text, codes}
use mm_mem.Kernels.Code.{Code, State}
use mm_mem.Configuration.Settings.{Settings}
use mm_mem.Workers.Packet.{Packet, copy_mem_region_config, node_mem_type}
use mm_mem.Workers.Timer.Named.{Show, elapsed_time_str, message}
use mm_mem.WorkerThreads.{Manager, make_manager, binding_lines, set_routine, set_routine_where}

-- `double`, with `std::max`, the test for a positive number, and its conversions to unsigned numbers
-- of 32 and 64 bits. Besides, the nanoseconds that the timer of the setup measures, and how a stream
-- prints their quotient.
pub record Floats : Type 1 where
  pub F : Type 0
  pub of_nat : ℕ → F
  pub add : F → F → F
  pub mul : F → F → F
  pub div : F → F → F
  pub max : F → F → F
  pub positive : F → Bool
  pub to_uint32 : F → ℕ
  pub to_uint64 : F → ℕ
  pub setup_time_ns : ℕ
  pub show : Show

-- What is inserted into the standard output: a text, a text in a field, or a number in a field with a
-- precision.
pub data Item (F : Type 0) : Type 0 where
  text : Text → Item F
  field : (width : ℕ) → Text → Item F
  number : (width precision : ℕ) → F → Item F

-- The routines that a program gives to its threads.
pub data Routine : Type 0 where
  mem_region_alloc_lat : Routine
  mem_region_alloc_bw : Routine
  mem_region_alloc_memcpy : Routine
  lat_ptr : Routine
  bw_sequential : Routine
  copy_fragment : Routine
  branch_tp : Routine

-- A packet with its kernels.
pub record Job : Type 0 where
  pub packet : Packet
  pub kernel_lat : Option (State → State)
  pub kernel_bw : Option Code

-- A manager with its packets.
pub record Team : Type 0 where
  pub manager : Manager Routine
  pub jobs : List Job

-- The outputs of a packet.
pub record Done (F : Type 0) : Type 0 where
  pub finished_chases : ℕ
  pub finished_bytes : ℕ
  pub exec_time : F

-- What has been printed, and the rest of the world.
pub record Session (F W : Type 0) : Type 0 where
  pub out : List (Item F)
  pub world : W

-- A step of a program; `none` is an exit or an exception.
abbrev pub Program : Type 0 → Type 0 → Type 0
Program S A = S → Option (A × S)

abbrev pub go_on : {S A B : Type 0} → Option (A × S) → (A → Program S B) → Option (B × S)
go_on none next = none
go_on (some (a, s)) next = next a s

infixl 5 ◌>>=◌
abbrev pub ◌>>=◌ : {S A B : Type 0} → Program S A → (A → Program S B) → Program S B
step >>= next = λ s. go_on (step s) next

infixl 5 ◌>>◌
abbrev pub ◌>>◌ : {S A B : Type 0} → Program S A → Program S B → Program S B
step >> next = step >>= λ a. next

abbrev pub pure : {S A : Type 0} → A → Program S A
pure a = λ s. some (a, s)

abbrev pub lift : {S A : Type 0} → Option A → Program S A
lift none = λ s. none
lift (some a) = λ s. some (a, s)

abbrev pub print : {F W : Type 0} → List (Item F) → Program (Session F W) Unit
print items = λ s. some (tt, record s { out = s.out ++ items })

-- What the threads of a team do in a run.
abbrev pub Run : Type 0 → Type 0 → Type 0
Run F W = Team → W → Option (List (Done F) × W)

abbrev pub run_team : {F W : Type 0} → Run F W → Team → Program (Session F W) (List (Done F))
run_team run team = λ s. elim (run team s.world) [
  | none ↦ none
  | some (done, world) ↦ some (done, record s { world = world })
]

-- The packet of a thread, from its initialisers and `setThreadId`
unfoldable pub new_packet : (num_threads thread_id : ℕ) → Packet
new_packet num_threads thread_id = record {
  num_threads = num_threads;
  thread_id = thread_id;
  target_duration = 0;
  region_size_kb = 0;
  access_pattern = 0;
  chunk_size_kb = 0;
  stride_size_b = 0;
  use_hugepage = 0;
  mem_type = 0;
  ref_latency_ps = 0;
  read_write_mix = 0;
  ref_total_bw_gbps = 0;
  num_total_threads = 0;
  fragment_size = 0;
  ref_one_exec_time_ns = 0;
}

unfoldable pub new_jobs : (num_threads n i : ℕ) → List Job
new_jobs num_threads zero i = []
new_jobs num_threads (suc n) i =
    record { packet = new_packet num_threads i; kernel_lat = none; kernel_bw = none }
    ∷ new_jobs num_threads n (i + 1)

unfoldable pub make_team :
    (hardware_concurrency num_threads : ℕ) → (cpus : List ℕ) → (do_binding : Bool) → Team
unfolding new_jobs make_manager
make_team hardware_concurrency num_threads cpus do_binding = record {
  manager = make_manager hardware_concurrency num_threads cpus do_binding;
  jobs = new_jobs num_threads num_threads 0;
}

-- A manager is constructed, with what its constructor prints.
abbrev pub new_team :
    {F W : Type 0} (hardware_concurrency num_threads : ℕ)
    → (cpus : List ℕ) → (do_binding verbose : Bool) → Program (Session F W) Team
new_team hardware_concurrency num_threads cpus do_binding verbose =
    print (text (binding_lines hardware_concurrency num_threads cpus do_binding verbose) ∷ [])
    >> pure (make_team hardware_concurrency num_threads cpus do_binding)

-- `end_timer("setup", std::cout)`, behind its `start_timer`
abbrev pub setup_line : (x : Floats) → Item x.F
setup_line x = text (message (codes "setup") (elapsed_time_str x.show x.setup_time_ns))

-- `prepare_mem_lat_bw_thread_packet`, on one packet
unfoldable pub prepare_job : Settings → (node : ℤ) → Job → Job
unfolding copy_mem_region_config node_mem_type
prepare_job s node j = record j {
  packet = record (copy_mem_region_config s j.packet) { mem_type = node_mem_type node };
}

unfoldable pub prepare_team : Settings → (node : ℤ) → Team → Team
unfolding prepare_job
prepare_team s node t = record t { jobs = map (prepare_job s node) t.jobs }

-- All threads get the routine.
unfoldable pub assign_routine : Routine → Team → Team
unfolding set_routine
assign_routine routine t = record t { manager = set_routine routine t.manager }

unfoldable pub assign_routine_where : Routine → (pred : ℕ → Bool) → Team → Team
unfolding set_routine_where
assign_routine_where routine pred t = record t {
  manager = set_routine_where routine pred t.manager;
}

-- The configured time, or a second for a calibration.
abbrev pub duration : Settings → (last : ℕ) → ℕ
duration s last = if ltb 0 last then s.target_duration_s else 1

unfoldable pub total_chases : {F : Type 0} → List (Done F) → (sum : ℕ) → ℕ
total_chases [] sum = sum
total_chases (d ∷ rest) sum = total_chases rest (add64 sum d.finished_chases)

unfoldable pub total_bytes : {F : Type 0} → List (Done F) → (sum : ℕ) → ℕ
total_bytes [] sum = sum
total_bytes (d ∷ rest) sum = total_bytes rest (add64 sum d.finished_bytes)

unfoldable pub total_time : (x : Floats) → List (Done x.F) → (sum : x.F) → x.F
total_time x [] sum = sum
total_time x (d ∷ rest) sum = total_time x rest (x.add sum d.exec_time)
