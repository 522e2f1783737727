-- ===== src/Programs/Main/Measured.antt =====
-- The program of the idle latency from its command line to its exit status.
use mm_mem.Base.{ℕ, ◌+◌, ◌*◌, ◌^◌, ◌≤◌, ◌<◌, ◌≡◌, false, List, [], ◌∷◌, ◌++◌, length}
use mm_mem.Base.Returns.{Returns, via}
use mm_mem.Text.{Text, codes}
use mm_mem.Configuration.{latency, configure}
use mm_mem.Configuration.Settings.{Settings, configured, parse_options, dump}
use mm_mem.NumaConfig.{Numa, query}
use mm_mem.Workers.Alloc.{region_size}
use mm_mem.Workers.Alloc.Cycle.{IsAllocated, packet_lines}
use mm_mem.Programs.{Floats, text, Session}
use mm_mem.Programs.Crew.{Machine, Surroundings, run_crew}
use mm_mem.Programs.Latency.{run_idle_latency}
use mm_mem.Programs.Latency.Alone.{IsSteady}
use mm_mem.Programs.Latency.SetUp.{only_packet}
use mm_mem.Programs.Latency.Measured.{manager_lines, title, HasRun, run_idle_latency-HasRun}
use mm_mem.Programs.Main.Configured.{with_options-configured, dump_and_run-Returns}
use mm_mem.Programs.Main.{main_idle_latency}

module _ (x : Floats) (env : Surroundings x.F) (s : Settings) (last : ℕ)
    (steady : IsSteady env s last) (a : ℕ) where
  -- For a command line that configures one thread, full-random access and no matrix, on a packet
  -- whose lines fit into its chunks and its chunks into its region, with fewer than 2^32 lines,
  -- room for the 256 chases of a call and memory given by the system, if every run can create its
  -- thread and joins it, and has a clock that does not go back, stays below 2^63 and has passed a
  -- second more than the configured time at its reading `last`, between 1 and 2^31 - 1, and the
  -- fuel is at least 2^32 times `last`, then the program of the idle latency returns 0; its region
  -- has the sizes of the packet and a chase in the memory that meets each line exactly once and
  -- closes; its second run measures for a second, its third for the configured time, or for a
  -- second again if the first latency is 0 in picoseconds, each by lat_ptr on that region, which
  -- ends with the time over and its pointer where the chase is after the calls of its last pass,
  -- and the results are its time and 256 chases, modulo 2^64, for each call; and it prints the
  -- configuration, the manager's threads and cpus if it is verbose and binds them, a title, the
  -- latency of the second measurement unless the first latency is 0 in picoseconds, and the end of
  -- the line.
  pub main_idle_latency-HasRun :
      (numa : Numa) (args : List Text) (session : Session x.F (Machine x.F))
      → parse_options (configure latency (length (query numa).all_allowed_cpus)) args ≡ configured s
      → s.num_threads ≡ 1
      → s.latency_matrix ≡ false
      → s.access_pattern ≡ 2
      → IsAllocated (env.os session.world.runs 0) (only_packet s) a
      → packet_lines (only_packet s) < 2 ^ 32
      → 256 * s.stride_size_b ≤ region_size (only_packet s)
      → Returns
          (λ (status, session').
            (status ≡ 0)
            × HasRun x env s last steady a
                (session.world.runs + 1)
                (((session.out ++ text (dump latency s) ∷ [])
                    ++ manager_lines x env s last steady a (query numa))
                  ++ title x env s last steady a)
                (text (codes " ns\n") ∷ text (codes "\n") ∷ [])
                session')
          (main_idle_latency x (Machine x.F) numa (run_crew env) args session)
  unfolding main_idle_latency
  main_idle_latency-HasRun numa args session parsed one single pattern allocated few room =
      via (with_options-configured x (Machine x.F) numa latency args s _ session parsed) (
        dump_and_run-Returns x (Machine x.F)
          (HasRun x env s last steady a (session.world.runs + 1)
            (((session.out ++ text (dump latency s) ∷ [])
                ++ manager_lines x env s last steady a (query numa))
              ++ title x env s last steady a)
            (text (codes " ns\n") ∷ text (codes "\n") ∷ []))
          numa latency s (run_idle_latency x (Machine x.F) (run_crew env) s (query numa)) session
          (run_idle_latency-HasRun x env s last steady a (query numa)
            (record session { out = session.out ++ text (dump latency s) ∷ [] }) one single pattern
            allocated few room))
