-- ===== src/Programs/Copy/SetUp.antt =====
-- The setup of the test of copying with one thread.
use mm_mem.Base.{ℕ, ◌+◌, ◌^◌, ◌≤◌, ◌<◌, ◌≡◌, refl, Bool, some, List, [], arith}
use mm_mem.Base.Returns.{Returns, returns, value_of, via}
use mm_mem.Base.Int.{negsuc}
use mm_mem.MemRegion.Memory.{Memory}
use mm_mem.MemRegion.Region.{
  Os, MemRegion, native, no_hugepage, alloc_native, construct, get_start_point,
}
use mm_mem.MemRegion.Region.Construct.{construct-IsRegion}
use mm_mem.Configuration.Settings.{Settings}
use mm_mem.Workers.Packet.{Packet}
use mm_mem.Workers.Alloc.{region_size, mem_region_alloc_memcpy}
use mm_mem.Workers.Measure.Moved.{IsMemcpy, AreApart}
use mm_mem.Programs.{Floats, Item, text, Routine, Team, Session, duration}
use mm_mem.Programs
use mm_mem.Programs.Teams.{go_on-some, run_team-some}
use mm_mem.Programs.Crew.{Machine, Surroundings, next_held, run_routine, run_crew}
use mm_mem.Programs.Crew.Alone.{first_job, make_team-IsAlone, run_crew-alone}
use mm_mem.Programs.Latency.Alone.{IsSteady}
use mm_mem.Programs.Latency.SetUp.{only_packet}
use mm_mem.Programs.Copy.{setup_memory_regions_memcpy}
use mm_mem.Programs.Copy.Alone.{AreBuffers, IsReady}

-- The system gives the two regions of a worker, at `a` and at `b`.
pub record AreServed (os os' : Os) (p : Packet) (a b : ℕ) : Type 0 where
  pub positive : 0 < region_size p
  pub given : (real : ℕ) × (alloc_native os native no_hugepage (region_size p) ≡ some (a, real))
  pub given' : (real : ℕ) × (alloc_native os' native no_hugepage (region_size p) ≡ some (b, real))
  pub fits : a + region_size p < 2 ^ 64
  pub fits' : b + region_size p < 2 ^ 64
  pub apart : AreApart a b (region_size p)

start_lem : (r : MemRegion) (a : ℕ) → r.addr ≡ some a → get_start_point r ≡ a
unfolding get_start_point
start_lem r a located = rw located (omega arith)

-- One region
region_made :
    (os : Os) (size a real : ℕ)
    → 0 < size
    → a + size < 2 ^ 64
    → alloc_native os native no_hugepage size ≡ some (a, real)
    → Returns
        (λ r. (get_start_point r ≡ a) × (r.active_size ≡ size))
        (construct os size size 4096 64 native no_hugepage)
region_made os size a real pos fits given =
    let (r, e, (is_region, whole, active, line, page, pages, in_page, real_size)) = value_of (
      construct-IsRegion os size size 4096 64 native no_hugepage a real pos (omega arith)
        (omega arith) (omega arith) fits given) in
    via e (returns (start_lem r a is_region.located, active))

-- The regions of the worker, between which a fragment that fits can be copied.
mem_region_alloc_memcpy-AreBuffers :
    (os os' : Os) (p : Packet) (m : Memory) (a b fragment : ℕ)
    → AreServed os os' p a b
    → 0 < fragment
    → fragment ≤ region_size p
    → Returns
        (λ (dst, src, m').
          AreBuffers dst src fragment
          × (get_start_point dst ≡ a)
          × (get_start_point src ≡ b)
          × (dst.active_size ≡ region_size p))
        (mem_region_alloc_memcpy os os' p m)
unfolding mem_region_alloc_memcpy
mem_region_alloc_memcpy-AreBuffers os os' p m a b fragment served pos small =
    let (real, given) = served.given in
    let (real', given') = served.given' in
    let (dst, e, (at, active)) =
      value_of (region_made os (region_size p) a real served.positive served.fits given) in
    let (src, e', (at', active')) =
      value_of (region_made os' (region_size p) b real' served.positive served.fits' given') in
    rw (e, e')
      (returns (
        record {
          positive = pos;
          room = omega (arith, active, small);
          apart = omega (arith, at, at', active, served.apart);
          dst_fits = omega (arith, at, active, served.fits);
          src_fits = omega (arith, at', active, served.fits');
        },
        at,
        at',
        active,
      ))

module _ (x : Floats) (env : Surroundings x.F) (s : Settings) (last : ℕ)
    (steady : IsSteady env s last) (memcpy : IsMemcpy env.kernel_memcpy) where
  abbrev run : Programs.Run x.F (Machine x.F)
  run = run_crew env

  -- The regions of the worker, at `a` and `b`, as it has allocated them in the first run.
  pub record IsSetUp (a b : ℕ) (begin : Machine x.F) (t : Team) (w : Machine x.F) : Type 0 where
    pub dst : MemRegion
    pub src : MemRegion
    pub allocated :
        mem_region_alloc_memcpy
          (env.os begin.runs 0)
          (env.src_os begin.runs 0)
          (only_packet s)
          begin.memory
        ≡ some (dst, src, w.memory)
    pub at : get_start_point dst ≡ a
    pub from : get_start_point src ≡ b
    pub size : dst.active_size ≡ region_size (only_packet s)
    pub next_run : w.runs ≡ begin.runs + 1
    pub buffers : AreBuffers dst src s.fragment_size_b
    pub ready :
        IsReady x env s last steady memcpy dst src buffers Routine.mem_region_alloc_memcpy
          (first_job s (negsuc 0))
          t
          w

  pub setup-IsSetUp :
      (num_cpus : ℕ) (cpus : List ℕ) (binding : Bool) (session : Session x.F (Machine x.F))
      (a b : ℕ)
      → s.num_threads ≡ 1
      → AreServed
          (env.os session.world.runs 0)
          (env.src_os session.world.runs 0)
          (only_packet s)
          a
          b
      → 0 < s.fragment_size_b
      → s.fragment_size_b ≤ region_size (only_packet s)
      → Returns
          (λ (t, session').
            IsSetUp a b session.world t session'.world × (session'.out ≡ session.out))
          (setup_memory_regions_memcpy x
            (Machine x.F)
            run
            s
            (Programs.make_team num_cpus s.num_threads cpus binding)
            session)
  unfolding setup_memory_regions_memcpy run_routine next_held
  setup-IsSetUp num_cpus cpus binding session a b one served pos small =
      let w = session.world in
      let h = (next_held env w.held).0 in
      let alone =
        make_team-IsAlone s (negsuc 0) Routine.mem_region_alloc_memcpy num_cpus cpus binding one in
      let ((dst, src, m'), made, (buffers, at, from, size)) = value_of (
        mem_region_alloc_memcpy-AreBuffers (env.os w.runs 0) (env.src_os w.runs 0) (only_packet s)
          w.memory a b s.fragment_size_b served pos small) in
      let done : run_routine env w.runs 0 Routine.mem_region_alloc_memcpy (first_job s (negsuc 0)) h
            w.memory
          ≡ some (record h { mem_region = some dst; src_mem_region = some src }, m', []) =
        rw made refl in
      let ran =
        run_crew-alone env Routine.mem_region_alloc_memcpy _ _ w _ m' [] (steady.created w.runs)
          (steady.joined w.runs) alone done in
      go_on-some _ (run_team-some run _ session _ _ ran) (
        returns (
          record {
            dst = dst;
            src = src;
            allocated = made;
            at = at;
            from = from;
            size = size;
            next_run = refl;
            buffers = buffers;
            ready = record { alone = alone; region = refl; source = refl };
          },
          refl,
        ))
