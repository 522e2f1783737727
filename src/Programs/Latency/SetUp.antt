-- ===== src/Programs/Latency/SetUp.antt =====
-- The setup of the test of the idle latency with one thread: its region, as its chase finds it.
use mm_mem.Base.{ℕ, ◌+◌, ◌*◌, ◌^◌, ◌<◌, ◌≡◌, refl, Bool, some, List}
use mm_mem.Base.Returns.{Returns, returns, value_of}
use mm_mem.Base.Int.{negsuc}
use mm_mem.MemRegion.Memory.{Memory}
use mm_mem.MemRegion.Region.{MemRegion}
use mm_mem.MemRegion.Tour.{IsCycle}
use mm_mem.Configuration.Settings.{Settings}
use mm_mem.Workers.Packet.{Packet}
use mm_mem.Workers.Alloc.Cycle.{IsAllocated, IsMade, packet_lines, mem_region_alloc_lat-IsCycle}
use mm_mem.Programs.{Floats, Routine, Team, Session}
use mm_mem.Programs
use mm_mem.Programs.Teams.{go_on-some, run_team-some}
use mm_mem.Programs.Crew.{Held, Machine, Surroundings, next_held, run_routine, run_crew}
use mm_mem.Programs.Crew.Alone.{IsAlone, first_job, make_team-IsAlone, run_crew-alone}
use mm_mem.Programs.Latency.{setup_memory_regions_idle_latency}
use mm_mem.Programs.Latency.Alone.{IsSteady}

-- The packet of the only thread
abbrev pub only_packet : Settings → Packet
only_packet s = (first_job s (negsuc 0)).packet

module _ (x : Floats) (env : Surroundings x.F) (s : Settings) (last : ℕ)
    (steady : IsSteady env s last) (a : ℕ) where
  abbrev run : Programs.Run x.F (Machine x.F)
  run = run_crew env

  -- The region of the worker, with the memory of the session.
  pub record IsSetUp (t : Team) (w : Machine x.F) : Type 0 where
    pub r : MemRegion
    pub made : IsMade (only_packet s) a r
    pub alone : IsAlone (some Routine.mem_region_alloc_lat) (first_job s (negsuc 0)) t
    pub region : (next_held env w.held).0.mem_region ≡ some r
    pub cycle :
        IsCycle a (packet_lines (only_packet s)) (λ i. i * (only_packet s).stride_size_b) w.memory

  run_alloc :
      (k : ℕ) (h : Held x.F) (m : Memory)
      → IsAllocated (env.os k 0) (only_packet s) a
      → packet_lines (only_packet s) < 2 ^ 32
      → (only_packet s).access_pattern ≡ 2
      → Returns
          (λ (h', m', told).
            (r : MemRegion) × (h'.mem_region ≡ some r)
            × IsMade (only_packet s) a r
            × IsCycle a (packet_lines (only_packet s)) (λ i. i * (only_packet s).stride_size_b) m')
          (run_routine env k 0 Routine.mem_region_alloc_lat (first_job s (negsuc 0)) h m)
  unfolding run_routine
  run_alloc k h m allocated few pattern =
      let ((r, m'), e, (made, cycle)) = value_of (
        mem_region_alloc_lat-IsCycle (env.os k 0) (only_packet s) a allocated (env.rand k 0) m
          pattern few) in
      rw e (returns (r, refl, made, cycle))

  pub setup-IsSetUp :
      (num_cpus : ℕ) (cpus : List ℕ) (binding : Bool) (session : Session x.F (Machine x.F))
      → s.num_threads ≡ 1
      → IsAllocated (env.os session.world.runs 0) (only_packet s) a
      → packet_lines (only_packet s) < 2 ^ 32
      → (only_packet s).access_pattern ≡ 2
      → Returns
          (λ (t, session').
            IsSetUp t session'.world
            × (session'.out ≡ session.out)
            × (session'.world.runs ≡ session.world.runs + 1))
          (setup_memory_regions_idle_latency x
            (Machine x.F)
            run
            s
            (Programs.make_team num_cpus s.num_threads cpus binding)
            (negsuc 0)
            session)
  unfolding setup_memory_regions_idle_latency next_held
  setup-IsSetUp num_cpus cpus binding session one allocated few pattern =
      let w = session.world in
      let alone =
        make_team-IsAlone s (negsuc 0) Routine.mem_region_alloc_lat num_cpus cpus binding one in
      let ((h', m', told), done, (r, region, made, cycle)) =
        value_of (run_alloc w.runs (next_held env w.held).0 w.memory allocated few pattern) in
      let ran =
        run_crew-alone env Routine.mem_region_alloc_lat _ _ w h' m' told (steady.created w.runs)
          (steady.joined w.runs) alone done in
      go_on-some _ (run_team-some run _ session _ _ ran) (
        returns (
          record { r = r; made = made; alone = alone; region = region; cycle = cycle },
          refl,
          refl,
        ))
