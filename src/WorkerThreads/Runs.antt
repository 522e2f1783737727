-- ===== src/WorkerThreads/Runs.antt =====
-- When a run of the workers returns.
use mm_mem.Base.{
  ℕ, ◌+◌, ◌<◌, ◌≡◌, refl, inl, inr, Bool, true, false, Option, none, some, List, [], ◌∷◌, arith,
  ltb, lt→ltb, ◌==◌, ==_iff, Bool-cases,
}
use mm_mem.Base.Returns.{Returns, returns}
use mm_mem.WorkerThreads.{Manager, create_loop, create, stuck_loop, join, run_workers}

module _ {ℓ} {R : Type ℓ} (pthread_create timedjoin : ℕ → ℕ) where
  -- From the thread `i` on, each thread with a routine is created and joins.
  abbrev pub AllRun : (i : ℕ) → List (Option R) → Type 0
  AllRun i [] = Unit
  AllRun i (none ∷ rest) = AllRun (i + 1) rest
  AllRun i (some routine ∷ rest) = (pthread_create i ≡ 0) × (timedjoin i ≡ 0) × AllRun (i + 1) rest

  -- The threads with a routine.
  abbrev pub with_routine : List (Option R) → List Bool
  with_routine [] = []
  with_routine (none ∷ rest) = false ∷ with_routine rest
  with_routine (some routine ∷ rest) = true ∷ with_routine rest

  loops-AllRun :
      (i : ℕ) (routines : List (Option R))
      → AllRun i routines
      → (create_loop pthread_create i routines ≡ (with_routine routines, 0))
        × (stuck_loop timedjoin i (with_routine routines) ≡ 0)
  unfolding create_loop stuck_loop
  loops-AllRun i [] h = (refl, refl)
  loops-AllRun i (none ∷ rest) h = let (e, e') = loops-AllRun (i + 1) rest h in (rw e refl, e')
  loops-AllRun i (some routine ∷ rest) (c, j, h) =
      let (e, e') = loops-AllRun (i + 1) rest h in (rw (e, c) refl, rw (e', j) refl)

  -- If every thread with a routine can be created and joins, a run of the workers returns, with
  -- the watchdog or without, and exactly those threads were created.
  pub run_workers-Returns :
      (timeout_s : ℕ) (w : Manager R)
      → AllRun 0 w.start_routines
      → Returns
          (λ w'. w'.created ≡ with_routine w.start_routines)
          (run_workers timeout_s pthread_create timedjoin w)
  unfolding run_workers create join
  run_workers-Returns timeout_s w h =
      let (e, e') = loops-AllRun 0 w.start_routines h in
      elim (Bool-cases (ltb 0 timeout_s)) [
        | inl watched ↦ rw (e, watched, e') (returns refl)
        | inr plain ↦ rw (e, plain) (returns refl)
      ]

  all_run :
      (i : ℕ) (routines : List (Option R))
      → (create_loop pthread_create i routines).1 ≡ 0
      → stuck_loop timedjoin i (create_loop pthread_create i routines).0 ≡ 0
      → AllRun i routines
  unfolding create_loop stuck_loop
  all_run i [] = λ c j. tt
  all_run i (none ∷ rest) = λ c j. all_run (i + 1) rest c j
  all_run i (some routine ∷ rest) = elim (Bool-cases (pthread_create i == 0)) [
    | inl created ↦ elim (Bool-cases (timedjoin i == 0)) [
      | inl joined ↦
          rw (created, joined)
            λ c j. (
              (==_iff (pthread_create i) 0).0 created,
              (==_iff (timedjoin i) 0).0 joined,
              all_run (i + 1) rest c j,
            )
      | inr stuck ↦ rw (created, stuck) λ c j. absurd (omega (arith, j))
    ]
    | inr failed ↦ rw failed λ c j. absurd (omega (arith, c))
  ]

  -- If a run of the workers with the watchdog returns, every thread with a routine was created and
  -- joined.
  pub run_workers-AllRun :
      (timeout_s : ℕ) (w : Manager R) {w' : Manager R}
      → 0 < timeout_s
      → run_workers timeout_s pthread_create timedjoin w ≡ some w'
      → AllRun 0 w.start_routines
  unfolding run_workers create join
  run_workers-AllRun timeout_s w {w'} watched =
      let made = create_loop pthread_create 0 w.start_routines in
      elim (Bool-cases (ltb 0 made.1)) [
        | inl failed ↦ rw failed λ h. absurd (none-some h)
        | inr all ↦ elim (Bool-cases (ltb 0 (stuck_loop timedjoin 0 made.0))) [
          | inl stuck ↦ rw (all, lt→ltb 0 timeout_s watched, stuck) λ h. absurd (none-some h)
          | inr joined ↦ λ h. all_run 0 w.start_routines (zero_of all) (zero_of joined)
        ]
      ]
    where
      none-some : ◌≡◌ {A = Option (Manager R)} none (some w') → ⊥
      none-some h = cc

      zero_of : {n : ℕ} → ltb 0 n ≡ false → n ≡ 0
      zero_of e = ground arith
