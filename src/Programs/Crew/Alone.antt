-- ===== src/Programs/Crew/Alone.antt =====
-- A run of a team of one thread.
use mm_mem.Base.{
  ℕ, ◌+◌, ◌≡◌, refl, sym, ap, Option, none, some, List, [], ◌∷◌, ◌++◌, map, true, Bool,
}
use mathlib.Core.Path.{subst}
use mm_mem.Base.Returns.{value_of}
use mm_mem.Base.Int.{ℤ}
use mm_mem.Configuration.Settings.{Settings}
use mm_mem.MemRegion.Memory.{Memory}
use mm_mem.WorkerThreads.{set_routine, set_loop, make_manager}
use mm_mem.WorkerThreads.Runs.{AllRun, run_workers-Returns}
use mm_mem.Programs.{
  Item, Routine, Job, Team, assign_routine, make_team, prepare_team, prepare_job, new_jobs,
  new_packet,
}
use mm_mem.Programs.Crew.{
  Held, Machine, Surroundings, next_held, crew_loop, run_routine, outputs_of, run_crew,
}

pub record IsAlone (r : Option Routine) (j : Job) (t : Team) : Type 0 where
  pub routines : t.manager.start_routines ≡ r ∷ []
  pub jobs : t.jobs ≡ j ∷ []

pub assign_routine-IsAlone :
    (r : Option Routine) (r' : Routine) (f : Job → Job) (j : Job) (t : Team)
    → IsAlone r j t
    → IsAlone (some r') (f j) (assign_routine r' (record t { jobs = map f t.jobs }))
unfolding assign_routine set_routine set_loop
assign_routine-IsAlone r r' f j t h = record {
  routines = ap (set_loop r' (λ i. true) 0) h.routines;
  jobs = ap (map f) h.jobs;
}

-- A new job, as `prepare_mem_lat_bw_thread_packet` leaves it.
abbrev pub first_job : Settings → (node : ℤ) → Job
first_job s node =
    prepare_job s node (record { packet = new_packet 1 0; kernel_lat = none; kernel_bw = none })

pub make_team-IsAlone :
    (s : Settings) (node : ℤ) (r : Routine) (num_cpus : ℕ) (cpus : List ℕ) (do_binding : Bool)
    → s.num_threads ≡ 1
    → IsAlone
        (some r)
        (first_job s node)
        (assign_routine r (prepare_team s node (make_team num_cpus s.num_threads cpus do_binding)))
unfolding assign_routine set_routine set_loop make_team make_manager prepare_team new_jobs
make_team-IsAlone s node r num_cpus cpus do_binding one =
    subst
      (λ n.
        IsAlone (some r) (first_job s node)
          (assign_routine r (prepare_team s node (make_team num_cpus n cpus do_binding))))
      (sym one) (record { routines = refl; jobs = refl })

module _ {F : Type 0} (env : Surroundings F) (r : Routine) (j : Job) (t : Team) (w : Machine F)
    (h' : Held F) (m' : Memory) (told : List (Item F)) where
  -- The state after the run.
  abbrev pub after_run : Machine F
  after_run = record { memory = m'; held = h' ∷ []; runs = w.runs + 1; err = w.err ++ (told ++ []) }

  crew_loop-alone :
      (routines : List (Option Routine)) (jobs : List Job)
      → routines ≡ some r ∷ []
      → jobs ≡ j ∷ []
      → run_routine env w.runs 0 r j (next_held env w.held).0 w.memory ≡ some (h', m', told)
      → crew_loop env w.runs 0 routines jobs w.held w.memory ≡ some (h' ∷ [], m', told ++ [])
  unfolding crew_loop
  crew_loop-alone routines jobs all_routines all_jobs done = rw (all_routines, all_jobs, done) refl

  -- What a run of one thread returns.
  pub run_crew-alone :
      env.pthread_create w.runs 0 ≡ 0
      → env.timedjoin w.runs 0 ≡ 0
      → IsAlone (some r) j t
      → run_routine env w.runs 0 r j (next_held env w.held).0 w.memory ≡ some (h', m', told)
      → run_crew env t w ≡ some (h'.outputs ∷ [], after_run)
  unfolding run_crew outputs_of
  run_crew-alone created joined alone done =
      let all_run : AllRun (env.pthread_create w.runs) (env.timedjoin w.runs) 0
          t.manager.start_routines =
        subst (AllRun (env.pthread_create w.runs) (env.timedjoin w.runs) 0) (sym alone.routines)
          (created, joined, tt) in
      let (manager, ran, ok) = value_of (
        run_workers-Returns (env.pthread_create w.runs) (env.timedjoin w.runs) env.timeout_s
          t.manager all_run) in
      let looped = crew_loop-alone t.manager.start_routines t.jobs alone.routines alone.jobs done in
      rw (ran, looped) refl
