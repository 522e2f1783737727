-- ===== src/Programs/Latency/Measured.antt =====
-- The whole test of the idle latency with one thread.
use mm_mem.Base.{
  if_false, ℕ, ◌+◌, ◌*◌, ◌^◌, ◌≤◌, ◌<◌, ◌≡◌, refl, sym, ap, ◌∙◌, false, not, List, [], ◌∷◌, ◌++◌,
  arith, ltb, if◌then◌else◌, mul64,
}
use mathlib.Core.Path.{subst}
use mathlib.Core.List.{append_assoc, append-nil}
use mm_mem.Base.Returns.{Returns, returns, via}
use mm_mem.Base.Int.{negsuc}
use mm_mem.Text.{codes}
use mm_mem.MemRegion.Region.{MemRegion}
use mm_mem.MemRegion.Tour.{IsCycle}
use mm_mem.Configuration.Settings.{Settings}
use mm_mem.Configuration.Strings.{get_str_access_pattern_short}
use mm_mem.NumaConfig.{NumaConfig}
use mm_mem.Workers.Packet.{Packet}
use mm_mem.Workers.Alloc.{region_size}
use mm_mem.Workers.Alloc.Cycle.{IsAllocated, IsMade, packet_lines}
use mm_mem.WorkerThreads.{binding_lines}
use mm_mem.Programs.{Floats, Item, text, number, Routine, Job, Team, Session, duration}
use mm_mem.Programs
use mm_mem.Programs.Teams.{go_on-Returns}
use mm_mem.Programs.Crew.{Machine, Surroundings, run_crew}
use mm_mem.Programs.Crew.Alone.{first_job}
use mm_mem.Programs.Latency.{latency_job, latency_of, run_latency, single_latency, run_idle_latency}
use mm_mem.Programs.Matrix.{Step}
use mm_mem.Programs.Latency.SetUp.{only_packet, IsSetUp, setup-IsSetUp}
use mm_mem.Programs.Latency.Alone.{IsSteady, IsMeasured, measure_idle_latency-alone}

region_size-lt : (p : Packet) → region_size p < 2 ^ 64
unfolding region_size mul64
region_size-lt p = omega arith

module _ (x : Floats) (env : Surroundings x.F) (s : Settings) (last : ℕ)
    (steady : IsSteady env s last) (a : ℕ) where
  abbrev run : Programs.Run x.F (Machine x.F)
  run = run_crew env

  -- What the test prints for a result, unless it is taken for a calibration.
  abbrev shown : (reference : ℕ) → Programs.Done x.F → List (Item x.F)
  shown reference d =
      if ltb 0 reference then number 10 4 (latency_of x (Machine x.F) run s (d ∷ [])) ∷ [] else []

  -- The packet of the only thread in a measurement.
  abbrev pub lat_packet : (reference : ℕ) → Packet
  lat_packet reference =
      (latency_job x (Machine x.F) run s reference (first_job s (negsuc 0))).packet

  -- The region, the calibration in the run with this number, the measurement in the next, and what
  -- has been printed between `before` and `after`.
  pub record HasRun (calibration : ℕ) (before after : List (Item x.F))
      (session : Session x.F (Machine x.F)) : Type 0 where
    pub r : MemRegion
    pub made : IsMade (only_packet s) a r
    pub cycle :
        IsCycle a
          (packet_lines (only_packet s))
          (λ i. i * (only_packet s).stride_size_b)
          session.world.memory
    pub first : Programs.Done x.F
    pub calibrated : IsMeasured env r session.world.memory calibration (lat_packet 0) 1 first
    pub reference : ℕ
    pub in_picoseconds :
        reference
        ≡ x.to_uint32 (x.mul (latency_of x (Machine x.F) run s (first ∷ [])) (x.of_nat 1000))
    pub second : Programs.Done x.F
    pub measured :
        IsMeasured env r session.world.memory
          (calibration + 1)
          (lat_packet reference)
          (duration s reference)
          second
    pub printed : session.out ≡ (before ++ shown reference second) ++ after

  -- The two measurements on the region
  run_latency-HasRun :
      (t : Team) (session : Session x.F (Machine x.F))
      → 0 < (only_packet s).stride_size_b
      → 256 * (only_packet s).stride_size_b ≤ region_size (only_packet s)
      → IsSetUp x env s last steady a t session.world
      → Returns
          (λ (u, session'). HasRun session.world.runs session.out [] session')
          (run_latency x (Machine x.F) run s t session)
  unfolding run_latency latency_job
  run_latency-HasRun t session pos room set_up =
      let m = session.world.memory in
      let r = set_up.r in
      let measure =
        measure_idle_latency-alone x env s last steady r (omega (arith, set_up.made.line, pos))
          (omega (arith, set_up.made.line, set_up.made.active, room))
          (omega (arith, set_up.made.active, region_size-lt (only_packet s))) m in
      go_on-Returns
        (measure Routine.mem_region_alloc_lat (first_job s (negsuc 0)) t 0 session
          (record { alone = set_up.alone; region = set_up.region; memory = refl }))
        λ (reference, t2) session2 h.
          go_on-Returns (measure Routine.lat_ptr _ t2 reference session2 h.ready)
            λ result session3 h'. returns (record {
              r = r;
              made = set_up.made;
              cycle =
                  subst
                    (IsCycle a (packet_lines (only_packet s))
                      (λ i. i * (only_packet s).stride_size_b))
                    (sym h'.ready.memory) set_up.cycle;
              first = h.result;
              calibrated =
                  subst (λ m'. IsMeasured env r m' session.world.runs (lat_packet 0) 1 h.result)
                    (sym h'.ready.memory) h.measured;
              reference = reference;
              in_picoseconds = h.next;
              second = h'.result;
              measured =
                  subst
                    (λ k.
                      IsMeasured env r session3.world.memory k (lat_packet reference)
                        (duration s reference) h'.result)
                    h.next_run
                    (subst
                      (λ m'.
                        IsMeasured env r m' session2.world.runs (lat_packet reference)
                          (duration s reference) h'.result)
                      (sym h'.ready.memory) h'.measured);
              printed =
                  h'.printed
                  ∙ ap (λ out. out ++ shown reference h'.result)
                      (h.printed ∙ append-nil session.out)
                  ∙ sym (append-nil (session.out ++ shown reference h'.result));
            })

  print-HasRun :
      (k : ℕ) (before after items : List (Item x.F)) (session : Session x.F (Machine x.F))
      → HasRun k before after session
      → HasRun k before (after ++ items) (record session { out = session.out ++ items })
  print-HasRun k before after items session h = record {
    r = h.r;
    made = h.made;
    cycle = h.cycle;
    first = h.first;
    calibrated = h.calibrated;
    reference = h.reference;
    in_picoseconds = h.in_picoseconds;
    second = h.second;
    measured = h.measured;
    printed =
        ap (λ out. out ++ items) h.printed
        ∙ append_assoc (before ++ shown h.reference h.second) after items;
  }

  -- What the constructor of the manager prints.
  abbrev pub manager_lines : NumaConfig → List (Item x.F)
  manager_lines numa =
      text (
        binding_lines numa.num_cpus s.num_threads numa.all_allowed_cpus (not s.no_binding)
          s.verbose)
      ∷ []

  -- What is printed in front of the result.
  abbrev pub title : List (Item x.F)
  title =
      text (codes "Idle Latency - ")
      ∷ text (get_str_access_pattern_short s.access_pattern)
      ∷ text (codes " : ")
      ∷ []

  single_latency-HasRun :
      (numa : NumaConfig) (session : Session x.F (Machine x.F))
      → s.num_threads ≡ 1
      → s.access_pattern ≡ 2
      → IsAllocated (env.os session.world.runs 0) (only_packet s) a
      → packet_lines (only_packet s) < 2 ^ 32
      → 256 * s.stride_size_b ≤ region_size (only_packet s)
      → Returns
          (λ (u, session').
            HasRun
              (session.world.runs + 1)
              ((session.out ++ manager_lines numa) ++ title)
              (text (codes " ns\n") ∷ [])
              session')
          (single_latency x (Machine x.F) run s numa session)
  unfolding single_latency
  single_latency-HasRun numa session one pattern allocated few room =
      let begun : Session x.F (Machine x.F) = record session {
        out = session.out ++ manager_lines numa;
      } in
      let ends : List (Item x.F) = text (codes " ns\n") ∷ [] in
      go_on-Returns
        (setup-IsSetUp x env s last steady a numa.num_cpus numa.all_allowed_cpus (not s.no_binding)
          begun one allocated few pattern)
        λ t session1 (set_up, out, runs).
          go_on-Returns
            (run_latency-HasRun t (record session1 { out = session1.out ++ title })
              (omega (arith, allocated.wide)) room set_up)
            λ u session2 h. returns (
              subst
                (λ k.
                  HasRun k (begun.out ++ title) ends
                    (record session2 { out = session2.out ++ ends }))
                runs
                (subst
                  (λ out'.
                    HasRun session1.world.runs (out' ++ title) ends
                      (record session2 { out = session2.out ++ ends }))
                  out (print-HasRun _ _ [] ends session2 h)))

  -- The same without the matrix, for the whole test.
  pub run_idle_latency-HasRun :
      (numa : NumaConfig) (session : Session x.F (Machine x.F))
      → s.num_threads ≡ 1
      → s.latency_matrix ≡ false
      → s.access_pattern ≡ 2
      → IsAllocated (env.os session.world.runs 0) (only_packet s) a
      → packet_lines (only_packet s) < 2 ^ 32
      → 256 * s.stride_size_b ≤ region_size (only_packet s)
      → Returns
          (λ (u, session').
            HasRun
              (session.world.runs + 1)
              ((session.out ++ manager_lines numa) ++ title)
              (text (codes " ns\n") ∷ text (codes "\n") ∷ [])
              session')
          (run_idle_latency x (Machine x.F) run s numa session)
  unfolding run_idle_latency
  run_idle_latency-HasRun numa session one single pattern allocated few room =
      go_on-Returns
        (via (ap (λ (test : Step x.F (Machine x.F)). test session) (if_false _ single))
          (single_latency-HasRun numa session one pattern allocated few room))
        λ u session3 h. returns (
          print-HasRun _ ((session.out ++ manager_lines numa) ++ title) (text (codes " ns\n") ∷ [])
            (text (codes "\n") ∷ []) session3 h)
