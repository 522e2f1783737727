-- ===== src/Programs/Copy/Measured.antt =====
-- The whole test of copying with one thread.
use mm_mem.Base.{ℕ, ◌+◌, ◌≤◌, ◌<◌, ◌≡◌, refl, ap, ◌∙◌, not, some, List, [], ◌∷◌, ◌++◌, arith, mul64}
use mathlib.Core.List.{append-nil, append_assoc}
use mathlib.Core.Path.{subst}
use mm_mem.Base.Returns.{Returns, returns}
use mm_mem.Base.Int.{negsuc}
use mm_mem.Text.{codes}
use mm_mem.Configuration.Settings.{Settings}
use mm_mem.NumaConfig.{NumaConfig}
use mm_mem.Workers.Alloc.{region_size, mem_region_alloc_memcpy}
use mm_mem.Workers.Measure.{select_fragment}
use mm_mem.Workers.Measure.Moved.{IsMemcpy}
use mm_mem.MemRegion.Memory.{Memory}
use mm_mem.MemRegion.Region.{MemRegion, get_start_point}
use mm_mem.WorkerThreads.{binding_lines}
use mm_mem.Workers.Packet.{Packet, copy_mem_region_config}
use mm_mem.Programs.{
  prepare_job, lift, setup_line, Floats, Item, text, Routine, Team, Session, duration,
}
use mm_mem.Programs
use mm_mem.Programs.Teams.{go_on-Returns, go_on-some}
use mm_mem.Programs.Crew.{Machine, Surroundings, run_crew}
use mm_mem.Programs.Crew.Alone.{first_job}
use mm_mem.Programs.Latency.Alone.{IsSteady}
use mm_mem.Programs.Latency.SetUp.{only_packet}
use mm_mem.Programs.Copy.{copy_job, copy_line, run_memcpy}
use mm_mem.Programs.Copy.SetUp.{AreServed, setup-IsSetUp}
use mm_mem.Programs.Copy.Alone.{IsTransferred, mbps_of, gbps_of, measure_mempcy_bandwidth-alone}

pub select_again :
    (region_size_kb wanted fragment : ℕ)
    → select_fragment region_size_kb wanted ≡ some fragment
    → (select_fragment region_size_kb fragment ≡ some fragment)
      × (0 < fragment)
      × (fragment ≤ mul64 region_size_kb 1024)
unfolding select_fragment
select_again region_size_kb wanted fragment chosen = ground arith

region_size_lem :
    (s : Settings)
    → s.fragment_size_b ≤ mul64 s.region_size_kb 1024
    → s.fragment_size_b ≤ region_size (only_packet s)
unfolding region_size prepare_job copy_mem_region_config
region_size_lem s h = h

module _ (x : Floats) (env : Surroundings x.F) (s : Settings) (last : ℕ)
    (steady : IsSteady env s last) (memcpy : IsMemcpy env.kernel_memcpy) where
  abbrev run : Programs.Run x.F (Machine x.F)
  run = run_crew env

  -- The packet of the only thread in a measurement.
  abbrev pub copy_packet : (reference : ℕ) → Packet
  copy_packet reference = (copy_job x (Machine x.F) run s reference (first_job s (negsuc 0))).packet

  -- The two regions, at `a` and `b`, as the first run has allocated them, the calibration in the
  -- second, the measurement in the third, and what has been printed between `before` and `after`.
  pub record HasRun (a b : ℕ) (begin : Machine x.F) (before after : List (Item x.F))
      (session : Session x.F (Machine x.F)) : Type 0 where
    pub dst : MemRegion
    pub src : MemRegion
    pub filled : Memory
    pub allocated :
        mem_region_alloc_memcpy
          (env.os begin.runs 0)
          (env.src_os begin.runs 0)
          (only_packet s)
          begin.memory
        ≡ some (dst, src, filled)
    pub at : get_start_point dst ≡ a
    pub from : get_start_point src ≡ b
    pub size : dst.active_size ≡ region_size (only_packet s)
    pub first : Programs.Done x.F
    pub between : Memory
    pub calibrated :
        IsTransferred env dst src (begin.runs + 1) (copy_packet 0) 1 filled between first
    pub reference : ℕ
    pub in_nanoseconds :
        reference
        ≡ x.to_uint64
            (x.div (x.of_nat (mul64 s.fragment_size_b s.num_threads)) (gbps_of x env s first))
    pub second : Programs.Done x.F
    pub measured :
        IsTransferred env dst src
          (begin.runs + 1 + 1)
          (copy_packet reference)
          (duration s reference)
          between
          session.world.memory
          second
    pub printed :
        session.out
        ≡ (before
            ++ copy_line x
                (Machine x.F)
                run
                reference
                (mbps_of x env s second)
                (gbps_of x env s second))
          ++ after

  abbrev line : (reference : ℕ) → Programs.Done x.F → List (Item x.F)
  line reference d = copy_line x (Machine x.F) run reference (mbps_of x env s d) (gbps_of x env s d)

  -- The calibration prints nothing.
  line_zero : (d : Programs.Done x.F) → line 0 d ≡ []
  unfolding copy_line
  line_zero d = refl

  -- What is printed in front of the measurements.
  abbrev pub set_up_lines : NumaConfig → List (Item x.F)
  set_up_lines numa =
      text (
        binding_lines numa.num_cpus s.num_threads numa.all_allowed_cpus (not s.no_binding)
          s.verbose)
      ∷ setup_line x
      ∷ []

  pub run_memcpy-HasRun :
      (numa : NumaConfig) (session : Session x.F (Machine x.F)) (a b : ℕ)
      → s.num_threads ≡ 1
      → select_fragment s.region_size_kb s.fragment_size_b ≡ some s.fragment_size_b
      → AreServed
          (env.os session.world.runs 0)
          (env.src_os session.world.runs 0)
          (only_packet s)
          a
          b
      → Returns
          (λ (u, session').
            HasRun a b session.world
              (session.out ++ set_up_lines numa)
              (text (codes "\n") ∷ [])
              session')
          (run_memcpy x (Machine x.F) run s numa session)
  unfolding run_memcpy copy_job
  run_memcpy-HasRun numa session a b one chosen served =
      let lines : List (Item x.F) =
        text (
          binding_lines numa.num_cpus s.num_threads numa.all_allowed_cpus (not s.no_binding)
            s.verbose)
        ∷ [] in
      let begun : Session x.F (Machine x.F) = record session { out = session.out ++ lines } in
      let (again, pos, small) =
        select_again s.region_size_kb s.fragment_size_b s.fragment_size_b chosen in
      go_on-some _ (ap (λ o. lift o session) chosen) (
        go_on-Returns
          (setup-IsSetUp x env s last steady memcpy numa.num_cpus numa.all_allowed_cpus
            (not s.no_binding) begun a b one served pos (region_size_lem s small))
          λ t session1 (set_up, out).
            let measure =
              measure_mempcy_bandwidth-alone x env s last steady memcpy set_up.dst set_up.src
                set_up.buffers in
            go_on-Returns
              (measure Routine.mem_region_alloc_memcpy (first_job s (negsuc 0)) t 0 (timed session1)
                set_up.ready)
              λ (reference, t2) session2 h.
                go_on-Returns (measure Routine.copy_fragment _ t2 reference session2 h.ready)
                  λ result session3 h'. returns (record {
                    first = h.result;
                    dst = set_up.dst;
                    src = set_up.src;
                    filled = session1.world.memory;
                    allocated = set_up.allocated;
                    at = set_up.at;
                    from = set_up.from;
                    size = set_up.size;
                    between = session2.world.memory;
                    calibrated =
                        subst
                          (λ k.
                            IsTransferred env set_up.dst set_up.src k (copy_packet 0) 1
                              session1.world.memory session2.world.memory h.result)
                          set_up.next_run h.transferred;
                    reference = reference;
                    in_nanoseconds = h.next;
                    second = h'.result;
                    measured =
                        subst
                          (λ k.
                            IsTransferred env set_up.dst set_up.src k (copy_packet reference)
                              (duration s reference) session2.world.memory session3.world.memory
                              h'.result)
                          (h.next_run ∙ ap (λ k. k + 1) set_up.next_run) h'.transferred;
                    printed =
                        ap (λ o. o ++ text (codes "\n") ∷ [])
                          (h'.printed
                            ∙ ap (λ o. o ++ line reference h'.result)
                                (h.printed
                                  ∙ ap (λ o. (timed session1).out ++ o) (line_zero h.result)
                                  ∙ append-nil (timed session1).out
                                  ∙ ap (λ o. o ++ setup_line x ∷ []) out
                                  ∙ append_assoc session.out lines (setup_line x ∷ [])));
                  }))
    where
      timed : Session x.F (Machine x.F) → Session x.F (Machine x.F)
      timed session1 = record session1 { out = session1.out ++ setup_line x ∷ [] }
