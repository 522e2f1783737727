-- ===== src/WorkerThreads.antt =====
-- The class `WorkerThreadManager` of common/worker_thread_manager.h. What `pthread_create` and the
-- joins return for each thread is a parameter; an exit of the program is `none`.
pub mod Bound
pub mod Runs
use mm_mem.Base.{
  ℕ, zero, suc, ◌+◌, ◌/◌, ◌%◌, Bool, true, false, not, ◌&&◌, ◌||◌, Option, none, some, ◌>>=◌, List,
  [], ◌∷◌, ◌++◌, ltb, leb, ◌==◌, if◌then◌else◌, length, get_elem?, replicate,
}
use mm_mem.Text.{Text, codes, to_string}

-- `R` is the type of the routines; a null pointer is `none`, as is `kNotBound`. The packets are the
-- thread numbers in them.
pub record Manager {ℓ} (R : Type ℓ) : Type ℓ where
  pub num_threads : ℕ
  pub num_cpus : ℕ
  pub cpu_core_id : List ℕ
  pub start_routines : List (Option R)
  pub thread_ids : List ℕ
  pub bound_cpu : List (Option ℕ)
  pub created : List Bool

-- The cpu of the thread `i`; a single thread takes one a quarter into the list.
unfoldable pub cpu_of : (num_threads : ℕ) → List ℕ → (i : ℕ) → Option ℕ
cpu_of num_threads cpus i =
    let idx : ℕ = if num_threads == 1 then length cpus / 4 else i in
    get_elem? cpus (idx % length cpus)

-- The loop of the constructor, from the thread `i` with `n` left.
unfoldable pub bind_loop : Bool → (num_threads : ℕ) → List ℕ → (n i : ℕ) → List (Option ℕ)
bind_loop do_binding num_threads cpus zero i = []
bind_loop do_binding num_threads cpus (suc n) i =
    (if do_binding then cpu_of num_threads cpus i else none)
    ∷ bind_loop do_binding num_threads cpus n (i + 1)

unfoldable pub ids_from : (n i : ℕ) → List ℕ
ids_from zero i = []
ids_from (suc n) i = i ∷ ids_from n (i + 1)

-- The number of cpus is `std::thread::hardware_concurrency()`. What the constructor prints is
-- `binding_lines`.
unfoldable pub make_manager {ℓ} :
    {R : Type ℓ} (hardware_concurrency num_threads : ℕ) → List ℕ → (do_binding : Bool) → Manager R
make_manager hardware_concurrency num_threads cpus do_binding = record {
  num_threads = num_threads;
  num_cpus = hardware_concurrency;
  cpu_core_id = cpus;
  start_routines = replicate num_threads none;
  thread_ids = ids_from num_threads 0;
  bound_cpu = bind_loop (do_binding && not (length cpus == 0)) num_threads cpus num_threads 0;
  created = replicate num_threads false;
}

unfoldable pub set_loop {ℓ} :
    {R : Type ℓ} → R → (pred : ℕ → Bool) → (i : ℕ) → List (Option R) → List (Option R)
set_loop routine pred i [] = []
set_loop routine pred i (old ∷ rest) =
    (if pred i then some routine else old) ∷ set_loop routine pred (i + 1) rest

-- `setRoutine` with a predicate
unfoldable pub set_routine_where {ℓ} : {R : Type ℓ} → R → (pred : ℕ → Bool) → Manager R → Manager R
set_routine_where routine pred w = record w {
  start_routines = set_loop routine pred 0 w.start_routines;
}

-- `setRoutine` without one
unfoldable pub set_routine {ℓ} : {R : Type ℓ} → R → Manager R → Manager R
set_routine routine w = record w {
  start_routines = set_loop routine (λ i. true) 0 w.start_routines;
}

-- The loop of `create` from the thread `i`: which threads are created, and how many failed. What
-- `pthread_create` returns is zero for success.
unfoldable pub create_loop {ℓ} :
    {R : Type ℓ} → (pthread_create : ℕ → ℕ) → (i : ℕ) → List (Option R) → List Bool × ℕ
create_loop pthread_create i [] = ([], 0)
create_loop pthread_create i (none ∷ rest) =
    let (created, failed) = create_loop pthread_create (i + 1) rest in (false ∷ created, failed)
create_loop pthread_create i (some routine ∷ rest) =
    let (created, failed) = create_loop pthread_create (i + 1) rest in
    if pthread_create i == 0 then (true ∷ created, failed) else (false ∷ created, failed + 1)

unfoldable pub create {ℓ} : {R : Type ℓ} → (pthread_create : ℕ → ℕ) → Manager R → Option (Manager R)
create pthread_create w =
    let (created, failed) = create_loop pthread_create 0 w.start_routines in
    if ltb 0 failed then none else some (record w { created = created })

-- How many of the created threads, from the thread `i`, do not join: what `pthread_timedjoin_np`
-- returns for them is not zero.
unfoldable pub stuck_loop : (timedjoin : ℕ → ℕ) → (i : ℕ) → List Bool → ℕ
stuck_loop timedjoin i [] = 0
stuck_loop timedjoin i (created ∷ rest) =
    let stuck = stuck_loop timedjoin (i + 1) rest in
    if created && not (timedjoin i == 0) then stuck + 1 else stuck

-- `join`, with its watchdog if there is a timeout; without one the threads are waited for, and what
-- `pthread_join` returns is ignored.
unfoldable pub join {ℓ} :
    {R : Type ℓ} (timeout_s : ℕ) (timedjoin : ℕ → ℕ) → Manager R → Option (Manager R)
join timeout_s timedjoin w =
    if ltb 0 timeout_s
    then (if ltb 0 (stuck_loop timedjoin 0 w.created) then none else some w)
    else some w

unfoldable pub run_workers {ℓ} :
    {R : Type ℓ} (timeout_s : ℕ) (pthread_create timedjoin : ℕ → ℕ) → Manager R → Option (Manager R)
run_workers timeout_s pthread_create timedjoin w =
    create pthread_create w >>= join timeout_s timedjoin

-- `setRoutineAndRun`
unfoldable pub set_routine_and_run {ℓ} :
    {R : Type ℓ} (timeout_s : ℕ) (pthread_create timedjoin : ℕ → ℕ)
    → R
    → Manager R
    → Option (Manager R)
unfolding set_routine run_workers
set_routine_and_run timeout_s pthread_create timedjoin routine w =
    run_workers timeout_s pthread_create timedjoin (set_routine routine w)

-- `joinTimeoutSec_`, by the variable MM_MEM_JOIN_TIMEOUT_S and what `strtoull` reads
unfoldable pub join_timeout_sec : (strtoull : Text → ℕ) → (env : Option Text) → ℕ
join_timeout_sec strtoull none = 300
join_timeout_sec strtoull (some []) = 300
join_timeout_sec strtoull (some (c ∷ s)) = strtoull (c ∷ s)

unfoldable pub get_aligned_index : (num_threads num_cpus idx : ℕ) → Text
get_aligned_index num_threads num_cpus idx =
    to_string idx
    ++ (if ltb idx 100 && (ltb 100 num_threads || ltb 100 num_cpus) then codes " " else [])
    ++ (if ltb idx 10 then codes " " else [])
    ++ codes " "

unfoldable pub describe_thread {ℓ} : {R : Type ℓ} → Manager R → (i : ℕ) → Text
describe_thread w i = codes "thread " ++ to_string i ++ (elim (get_elem? w.bound_cpu i) [
  | some (some cpu) ↦ codes " (pinned to cpu " ++ to_string cpu ++ codes ")"
  | some none ↦ codes " (unpinned)"
  | none ↦ codes " (unpinned)"
])

unfoldable pub aligned_list : (num_threads num_cpus : ℕ) → List ℕ → Text
unfolding get_aligned_index
aligned_list num_threads num_cpus [] = []
aligned_list num_threads num_cpus (idx ∷ rest) =
    get_aligned_index num_threads num_cpus idx ++ aligned_list num_threads num_cpus rest

unfoldable pub aligned_cpus : (num_threads num_cpus : ℕ) → List (Option ℕ) → Text
unfolding get_aligned_index
aligned_cpus num_threads num_cpus [] = []
aligned_cpus num_threads num_cpus (none ∷ rest) = aligned_cpus num_threads num_cpus rest
aligned_cpus num_threads num_cpus (some cpu ∷ rest) =
    get_aligned_index num_threads num_cpus cpu ++ aligned_cpus num_threads num_cpus rest

-- What the constructor prints: its threads and their cpus, if it is verbose and binds them.
unfoldable pub binding_lines :
    (hardware_concurrency num_threads : ℕ) → List ℕ → (do_binding verbose : Bool) → Text
unfolding aligned_list aligned_cpus ids_from bind_loop
binding_lines hardware_concurrency num_threads cpus do_binding verbose =
    if do_binding && not (length cpus == 0) && verbose
    then codes "\nthread ID: [ "
      ++ aligned_list num_threads hardware_concurrency (ids_from num_threads 0)
      ++ codes "]\n core  ID: [ "
      ++ aligned_cpus num_threads hardware_concurrency
          (bind_loop true num_threads cpus num_threads 0)
      ++ codes "]\n"
    else []
