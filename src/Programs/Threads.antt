-- ===== src/Programs/Threads.antt =====
-- A run of a team by the manager of its threads.
use mm_mem.Base.{ℕ, ◌+◌, ◌≡◌, Option, none, some, List, [], ◌∷◌, ◌>>=◌}
use mm_mem.Base.Returns.{returns, bind}
use mm_mem.WorkerThreads.{run_workers}
use mm_mem.WorkerThreads.Runs.{AllRun, run_workers-Returns}
use mm_mem.Programs.{Routine, Team, Run, Done}
use mm_mem.Programs.Matrix.Pinned.{RunsEnd}

-- What the thread library returns for each thread, and what the threads that it runs do together.
pub record Threads (F W : Type 0) : Type 0 where
  pub pthread_create : W → ℕ → ℕ
  pub timedjoin : W → ℕ → ℕ
  pub timeout_s : ℕ
  pub work : Team → W → List (Done F) × W

unfoldable pub run_threads : {F W : Type 0} → Threads F W → Run F W
unfolding run_workers
run_threads threads team w = do
  manager ←
      run_workers threads.timeout_s (threads.pthread_create w) (threads.timedjoin w) team.manager
  some (threads.work (record team { manager = manager }) w)

all_run :
    (pthread_create timedjoin : ℕ → ℕ) (i : ℕ) (routines : List (Option Routine))
    → ((k : ℕ) → pthread_create k ≡ 0)
    → ((k : ℕ) → timedjoin k ≡ 0)
    → AllRun pthread_create timedjoin i routines
all_run pthread_create timedjoin i [] created joined = tt
all_run pthread_create timedjoin i (none ∷ rest) created joined =
    all_run pthread_create timedjoin (i + 1) rest created joined
all_run pthread_create timedjoin i (some routine ∷ rest) created joined =
    (created i, joined i, all_run pthread_create timedjoin (i + 1) rest created joined)

-- Where every thread can be created and joins, every run ends.
pub run_threads-RunsEnd :
    {F W : Type 0} (threads : Threads F W) (good : Team → Type 0)
    → ((w : W) (i : ℕ) → threads.pthread_create w i ≡ 0)
    → ((w : W) (i : ℕ) → threads.timedjoin w i ≡ 0)
    → RunsEnd (run_threads threads) good
unfolding run_threads RunsEnd
run_threads-RunsEnd threads good created joined t w h =
    bind
      (run_workers-Returns (threads.pthread_create w) (threads.timedjoin w) threads.timeout_s
        t.manager
        (all_run (threads.pthread_create w) (threads.timedjoin w) 0 t.manager.start_routines
          (created w) (joined w)))
      λ m e. returns tt
