-- ===== src/Tests/Threads.antt =====
-- A manager of two threads, one of them with a routine.
use mm_mem.Base.{ℕ, ◌≡◌, refl, true, false, none, some, [], ◌∷◌, arith}
use mm_mem.Base.Returns.{Returns}
use mm_mem.WorkerThreads.{Manager, create_loop, create, stuck_loop, join, run_workers}
use mm_mem.WorkerThreads.Runs.{AllRun, run_workers-Returns, run_workers-AllRun}

abbrev crew : Manager ℕ
crew = record {
  num_threads = 2;
  num_cpus = 4;
  cpu_core_id = 2 ∷ 3 ∷ [];
  start_routines = some 7 ∷ none ∷ [];
  thread_ids = 0 ∷ 1 ∷ [];
  bound_cpu = some 2 ∷ some 3 ∷ [];
  created = false ∷ false ∷ [];
}

run_workers-Returns_example :
    Returns (λ w. w.created ≡ true ∷ false ∷ []) (run_workers 300 (λ i. 0) (λ i. 0) crew)
run_workers-Returns_example = run_workers-Returns (λ i. 0) (λ i. 0) 300 crew (refl, refl, tt)

ran : run_workers 300 (λ i. 0) (λ i. 0) crew ≡ some (record crew { created = true ∷ false ∷ [] })
unfolding run_workers create create_loop join stuck_loop
ran = refl

run_workers-AllRun_example : AllRun {R = ℕ} (λ i. 0) (λ i. 0) 0 (some 7 ∷ none ∷ [])
run_workers-AllRun_example = run_workers-AllRun (λ i. 0) (λ i. 0) 300 crew (omega arith) ran
