-- ===== src/Programs/Copy/Alone.antt =====
-- The measurements of the test of copying with one thread: Workers does the routine.
use mm_mem.Base.{ℕ, ◌+◌, ◌*◌, ◌/◌, ◌%◌, ◌^◌, ◌≤◌, ◌<◌, ◌≡◌, refl, some, [], ◌∷◌, ◌++◌, arith, mul64}
use native.Mathlib.Nat.{div-le_self, mul-le-mul_left}
use mm_mem.Base.Returns.{Returns, returns, value_of}
use mm_mem.MemRegion.Memory.{Memory}
use mm_mem.MemRegion.Region.{MemRegion, get_start_point}
use mm_mem.Configuration.Settings.{Settings}
use mm_mem.Workers.Timer.{Clock}
use mm_mem.Workers.Timer.Elapsed.{IsClock}
use mm_mem.Workers.Packet.{Packet}
use mm_mem.Workers.Checkpoints.{Progress}
use mm_mem.Workers.Checkpoints.Ends.{IsTimely}
use mm_mem.Workers.Measure.{target_ns, chkpt_calls, copy_plan, copy_fragment}
use mm_mem.Workers.Measure.Timely.{passes_until}
use mm_mem.Workers.Measure.Moved.{IsMemcpy, AreApart, moved, least}
use mm_mem.Workers.Measure.Copied.{copy_fragment-Copies}
use mm_mem.Programs.{Floats, Routine, Job, Team, Session, duration}
use mm_mem.Programs
use mm_mem.Programs.Results.{copy_done}
use mm_mem.Programs.Teams.{go_on-some, run_team-some}
use mm_mem.Programs.Crew.{Held, Machine, Surroundings, next_held, run_routine, run_crew}
use mm_mem.Programs.Crew.Alone.{IsAlone, assign_routine-IsAlone, run_crew-alone}
use mm_mem.Programs.Latency.Alone.{IsSteady}
use mm_mem.Programs.Copy.{copy_job, copy_mbps, copy_line, measure_mempcy_bandwidth}

chkpt_calls-le : (p : Packet) → chkpt_calls p ≤ 5 * 1000000
unfolding chkpt_calls
chkpt_calls-le p = ground (arith, div-le_self (5 * 1000000) p.ref_one_exec_time_ns)

pub copy_plan-IsTimely :
    (clock : Clock) (p : Packet) (last : ℕ)
    → IsClock clock
    → clock 0 + target_ns p ≤ clock last
    → 0 < last
    → last < 2 ^ 31
    → IsTimely clock (copy_plan p) last
      × (last + last * (copy_plan p).chkpt_size ≤ passes_until last)
copy_plan-IsTimely clock p last a_clock late some_reading few =
    let below : chkpt_calls p + 1 ≤ 2 ^ 32 = omega (arith, chkpt_calls-le p) in
    (
      record {
        a_clock = a_clock;
        late = late;
        some_reading = some_reading;
        some_size = omega arith;
        room = omega (arith, mul-le-mul_left (last + 1) below);
      },
      omega (arith, mul-le-mul_left last below),
    )

-- What the worker has done in the run `k` with its packet, and left in it: how `copy_fragment` ended,
-- with the time over, what it has copied between the regions, and the results.
pub record IsTransferred {F : Type 0} (env : Surroundings F) (dst src : MemRegion) (k : ℕ)
    (p : Packet) (target_duration : ℕ) (m m' : Memory) (d : Programs.Done F) : Type 0 where
  pub progress : Progress
  pub ran :
      copy_fragment env.fuel (env.clock k 0) env.kernel_memcpy p dst src m ≡ some (m', progress)
  pub over : target_duration * 1000000000 ≤ progress.timer.elapsed_time_ns
  pub calls : ℕ
  pub some_call : 0 < calls
  pub reported : progress.finished ≡ calls % 2 ^ 64
  pub copied :
      m'
      ≡ moved m
          (get_start_point dst)
          (get_start_point src)
          (least calls (dst.active_size / p.fragment_size) * p.fragment_size)
  pub time : d.exec_time ≡ env.rounding.seconds progress.timer.elapsed_time_ns
  pub bytes : d.finished_bytes ≡ mul64 progress.finished p.fragment_size

-- Two regions between which fragments can be copied.
pub record AreBuffers (dst src : MemRegion) (fragment : ℕ) : Type 0 where
  pub positive : 0 < fragment
  pub room : fragment ≤ dst.active_size
  pub apart : AreApart (get_start_point dst) (get_start_point src) dst.active_size
  pub dst_fits : get_start_point dst + dst.active_size < 2 ^ 64
  pub src_fits : get_start_point src + dst.active_size < 2 ^ 64

module _ (x : Floats) (env : Surroundings x.F) (s : Settings) where
  -- The bandwidth of a result, in MB/s and in GB/s.
  abbrev pub mbps_of : Programs.Done x.F → x.F
  mbps_of d = copy_mbps x (Machine x.F) (run_crew env) s (d ∷ [])

  abbrev pub gbps_of : Programs.Done x.F → x.F
  gbps_of d = x.div (mbps_of d) (x.of_nat 1024)

module _ (x : Floats) (env : Surroundings x.F) (s : Settings) (last : ℕ)
    (steady : IsSteady env s last) (memcpy : IsMemcpy env.kernel_memcpy) (dst src : MemRegion)
    (buffers : AreBuffers dst src s.fragment_size_b) where
  abbrev run : Programs.Run x.F (Machine x.F)
  run = run_crew env

  -- The worker's regions are these.
  pub record IsReady (routine : Routine) (j : Job) (t : Team) (w : Machine x.F) : Type 0 where
    pub alone : IsAlone (some routine) j t
    pub region : (next_held env w.held).0.mem_region ≡ some dst
    pub source : (next_held env w.held).0.src_mem_region ≡ some src

  -- `copy_fragment` on such a packet
  run_copy_fragment :
      (k : ℕ) (j : Job) (h : Held x.F) (m : Memory)
      → h.mem_region ≡ some dst
      → h.src_mem_region ≡ some src
      → j.packet.fragment_size ≡ s.fragment_size_b
      → j.packet.target_duration ≤ s.target_duration_s + 1
      → Returns
          (λ (h', m', told).
            (h'.mem_region ≡ some dst)
            × (h'.src_mem_region ≡ some src)
            × IsTransferred env dst src k j.packet j.packet.target_duration m m' h'.outputs)
          (run_routine env k 0 Routine.copy_fragment j h m)
  unfolding run_routine copy_done
  run_copy_fragment k j h m region source size short =
      let (timely, passes) =
        copy_plan-IsTimely (env.clock k 0) j.packet last (steady.clocks k)
          (omega (arith, steady.late k, short)) steady.some_reading steady.few_readings in
      let (result, e, (over, (calls, some_call, reported, copied))) = value_of (
        copy_fragment-Copies env.fuel last (env.clock k 0) j.packet m env.kernel_memcpy dst src
          memcpy (omega (arith, size, buffers.positive)) (omega (arith, size, buffers.room))
          buffers.apart buffers.dst_fits buffers.src_fits timely
          (omega (arith, passes, steady.fuel))) in
      rw (region, source, e)
        (returns (
          refl,
          refl,
          record {
            progress = result.1;
            ran = e;
            over = over;
            calls = calls;
            some_call = some_call;
            reported = reported;
            copied = copied;
            time = refl;
            bytes = refl;
          },
        ))

  duration_le : (reference : ℕ) → duration s reference ≤ s.target_duration_s + 1
  duration_le reference = ground arith

  -- What a measurement leaves: a result, what it prints, and the same regions.
  pub record HasMeasured (reference : ℕ) (j : Job) (before : Session x.F (Machine x.F))
      (nanoseconds : ℕ) (t : Team) (session : Session x.F (Machine x.F)) : Type 0 where
    pub result : Programs.Done x.F
    pub transferred :
        IsTransferred env dst src before.world.runs
          (copy_job x _ run s reference j).packet
          (duration s reference)
          before.world.memory
          session.world.memory
          result
    pub next_run : session.world.runs ≡ before.world.runs + 1
    pub next :
        nanoseconds
        ≡ x.to_uint64
            (x.div (x.of_nat (mul64 s.fragment_size_b s.num_threads)) (gbps_of x env s result))
    pub ready : IsReady Routine.copy_fragment (copy_job x _ run s reference j) t session.world
    pub printed :
        session.out
        ≡ before.out
          ++ copy_line x _ run reference (mbps_of x env s result) (gbps_of x env s result)

  pub measure_mempcy_bandwidth-alone :
      (routine : Routine) (j : Job) (t : Team) (reference : ℕ) (session : Session x.F (Machine x.F))
      → IsReady routine j t session.world
      → Returns
          (λ ((nanoseconds, t'), session'). HasMeasured reference j session nanoseconds t' session')
          (measure_mempcy_bandwidth x (Machine x.F) run s t reference session)
  unfolding measure_mempcy_bandwidth copy_job next_held
  measure_mempcy_bandwidth-alone routine j t reference session ready =
      let w = session.world in
      let job = copy_job x (Machine x.F) run s reference j in
      let alone =
        assign_routine-IsAlone (some routine) Routine.copy_fragment
          (copy_job x (Machine x.F) run s reference) j t ready.alone in
      let ((h', m', told), done, (region, source, transferred)) = value_of (
        run_copy_fragment w.runs job (next_held env w.held).0 w.memory ready.region ready.source
          refl (duration_le reference)) in
      let ran =
        run_crew-alone env Routine.copy_fragment job _ w h' m' told (steady.created w.runs)
          (steady.joined w.runs) alone done in
      go_on-some _ (run_team-some run _ session _ _ ran) (
        returns (record {
          result = h'.outputs;
          transferred = transferred;
          next_run = refl;
          next = refl;
          ready = record { alone = alone; region = region; source = source };
          printed = refl;
        }))
