-- ===== src/Programs/Main/Copied.antt =====
-- The program of copying from its command line to its exit status.
use mm_mem.Base.{ℕ, ◌≡◌, some, List, [], ◌∷◌, ◌++◌, length}
use mm_mem.Base.Returns.{Returns, via}
use mm_mem.Text.{Text, codes}
use mm_mem.Configuration.{memcpy, configure}
use mm_mem.Configuration.Settings.{Settings, configured, parse_options, dump}
use mm_mem.NumaConfig.{Numa, query}
use mm_mem.Workers.Measure.{select_fragment}
use mm_mem.Workers.Measure.Moved.{IsMemcpy}
use mm_mem.Programs.{Floats, text, Session}
use mm_mem.Programs.Crew.{Machine, Surroundings, run_crew}
use mm_mem.Programs.Latency.Alone.{IsSteady}
use mm_mem.Programs.Latency.SetUp.{only_packet}
use mm_mem.Programs.Copy.{run_memcpy}
use mm_mem.Programs.Copy.SetUp.{AreServed}
use mm_mem.Programs.Copy.Measured.{set_up_lines, HasRun, select_again, run_memcpy-HasRun}
use mm_mem.Programs.Main.{main_memcpy}
use mm_mem.Programs.Main.Configured.{with_options-configured, dump_and_run-Returns}

-- The configuration with the fragment that is copied.
abbrev pub with_fragment : Settings → (fragment : ℕ) → Settings
with_fragment config fragment = record config { fragment_size_b = fragment }

module _ (x : Floats) (env : Surroundings x.F) (config : Settings) (fragment last : ℕ)
    (steady : IsSteady env (with_fragment config fragment) last)
    (copies : IsMemcpy env.kernel_memcpy) where
  abbrev s : Settings
  s = with_fragment config fragment

  -- For a command line that configures one thread and a fragment that passes the checks, if the
  -- system gives the two regions of the worker, both below 2^64 and with no byte in common, memcpy
  -- copies between areas that do not overlap and leaves all other bytes alone, every run can
  -- create its thread and joins it, and has a clock that does not go back, stays below 2^63 and
  -- has passed a second more than the configured time at its reading `last`, between 1 and 2^31 -
  -- 1, and the fuel is at least 2^32 times `last`, then the program of copying returns 0; its
  -- first run allocates these regions, its second measures for a second, its third for the
  -- configured time, or for a second again if the first copy takes 0 nanoseconds, each by
  -- copy_fragment, which ends with the time over and leaves the memory as before but for the
  -- fragments of its calls, as many as fit, which are copied from the source; the results are its
  -- time and the size of the fragment, modulo 2^64, for each call; and it prints the
  -- configuration, the manager's threads and cpus if it is verbose and binds them, the time of the
  -- setup, the bandwidth of the second measurement unless the first copy takes 0 nanoseconds, and
  -- the end of the line.
  pub main_memcpy-HasRun :
      (numa : Numa) (args : List Text) (session : Session x.F (Machine x.F)) (a b : ℕ)
      → parse_options (configure memcpy (length (query numa).all_allowed_cpus)) args
        ≡ configured config
      → select_fragment config.region_size_kb config.fragment_size_b ≡ some fragment
      → config.num_threads ≡ 1
      → AreServed
          (env.os session.world.runs 0)
          (env.src_os session.world.runs 0)
          (only_packet s)
          a
          b
      → Returns
          (λ (status, session').
            (status ≡ 0)
            × HasRun x env s last steady copies a b session.world
                ((session.out ++ text (dump memcpy s) ∷ [])
                  ++ set_up_lines x env s last steady copies (query numa))
                (text (codes "\n") ∷ [])
                session')
          (main_memcpy x (Machine x.F) numa (run_crew env) args session)
  unfolding main_memcpy
  main_memcpy-HasRun numa args session a b parsed chosen one served =
      let (again, pos, small) =
        select_again config.region_size_kb config.fragment_size_b fragment chosen in
      via (with_options-configured x (Machine x.F) numa memcpy args config _ session parsed) (
        rw chosen (
          dump_and_run-Returns x (Machine x.F)
            (HasRun x env s last steady copies a b session.world
              ((session.out ++ text (dump memcpy s) ∷ [])
                ++ set_up_lines x env s last steady copies (query numa))
              (text (codes "\n") ∷ []))
            numa memcpy s (run_memcpy x (Machine x.F) (run_crew env) s (query numa)) session
            (run_memcpy-HasRun x env s last steady copies (query numa)
              (record session { out = session.out ++ text (dump memcpy s) ∷ [] }) a b one again
              served)))
