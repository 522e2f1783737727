-- ===== src/Programs/Latency/Alone.antt =====
-- The test of the idle latency with one thread, from its packet to what it prints: Workers does the
-- routines on the memory of MemRegion.
use mm_mem.Base.{
  ℕ, ◌+◌, ◌*◌, ◌^◌, ◌≤◌, ◌<◌, ◌≡◌, refl, ap, ◌∙◌, some, [], ◌∷◌, ◌++◌, arith, ltb, if◌then◌else◌,
}
use mm_mem.Base.Returns.{Returns, returns, value_of}
use mm_mem.MemRegion.Memory.{Memory}
use mm_mem.MemRegion.Region.{MemRegion, get_start_point}
use mm_mem.Kernels.Code.{State}
use mm_mem.Kernels.Latency.{kernel_lat}
use mm_mem.Configuration.Settings.{Settings}
use mm_mem.Workers.Timer.Elapsed.{IsClock}
use mm_mem.Workers.Packet.{Packet}
use mm_mem.Workers.Checkpoints.{Progress}
use mm_mem.Workers.Measure.{lat_ptr}
use mm_mem.Workers.Measure.Timely.{passes_until, lat_plan-IsTimely}
use mm_mem.Workers.Measure.Chases.{HasChased, lat_calls, lat_ptr-Chases}
use mm_mem.Programs.{Floats, Item, number, Routine, Job, Team, Session, run_team, duration}
use mm_mem.Programs
use mm_mem.Programs.Results.{lat_done}
use mm_mem.Programs.Teams.{go_on-some, run_team-some}
use mm_mem.Programs.Crew.{Held, Machine, Surroundings, next_held, run_routine, run_crew}
use mm_mem.Programs.Crew.Alone.{IsAlone, assign_routine-IsAlone, run_crew-alone}
use mm_mem.Programs.Latency.{latency_job, latency_of, measure_idle_latency}

-- Every run can create its thread and joins it, and has a clock that does not go back, stays below
-- 2^63, and has passed a second more than the configured time at its reading `last`.
pub record IsSteady {F : Type 0} (env : Surroundings F) (s : Settings) (last : ℕ) : Type 0 where
  pub created : (k : ℕ) → env.pthread_create k 0 ≡ 0
  pub joined : (k : ℕ) → env.timedjoin k 0 ≡ 0
  pub clocks : (k : ℕ) → IsClock (env.clock k 0)
  pub late : (k : ℕ) → env.clock k 0 0 + (s.target_duration_s + 1) * 1000000000 ≤ env.clock k 0 last
  pub some_reading : 0 < last
  pub few_readings : last < 2 ^ 31
  pub fuel : passes_until last ≤ env.fuel

-- What the worker has done in the run `k` with its packet, and left in it: how `lat_ptr` ended, with
-- the time over and its chases from the start of the region, and the results.
pub record IsMeasured {F : Type 0} (env : Surroundings F) (r : MemRegion) (m : Memory) (k : ℕ)
    (p : Packet) (target_duration : ℕ) (d : Programs.Done F) : Type 0 where
  pub worker : State
  pub progress : Progress
  pub ran : lat_ptr env.fuel (env.clock k 0) kernel_lat p r m ≡ some (worker, progress)
  pub over : target_duration * 1000000000 ≤ progress.timer.elapsed_time_ns
  pub calls : ℕ
  pub some_call : 0 < calls
  pub in_pass : calls ≤ lat_calls r
  pub chased : HasChased m (get_start_point r) (lat_calls r) progress.finished worker calls
  pub time : d.exec_time ≡ env.rounding.seconds progress.timer.elapsed_time_ns
  pub chases : d.finished_chases ≡ progress.finished

module _ (x : Floats) (env : Surroundings x.F) (s : Settings) (last : ℕ)
    (steady : IsSteady env s last) (r : MemRegion) (pos : 0 < r.line_size)
    (room : 256 * r.line_size ≤ r.active_size) (small : r.active_size < 2 ^ 64) (m : Memory) where
  abbrev run : Programs.Run x.F (Machine x.F)
  run = run_crew env

  -- The worker's region is `r`, and the memory is `m`.
  pub record IsReady (routine : Routine) (j : Job) (t : Team) (w : Machine x.F) : Type 0 where
    pub alone : IsAlone (some routine) j t
    pub region : (next_held env w.held).0.mem_region ≡ some r
    pub memory : w.memory ≡ m

  -- `lat_ptr` on such a packet
  run_lat_ptr :
      (k : ℕ) (j : Job) (h : Held x.F)
      → h.mem_region ≡ some r
      → j.kernel_lat ≡ some kernel_lat
      → j.packet.target_duration ≤ s.target_duration_s + 1
      → Returns
          (λ (h', m', told).
            (h'.mem_region ≡ some r)
            × (m' ≡ m)
            × IsMeasured env r m k j.packet j.packet.target_duration h'.outputs)
          (run_routine env k 0 Routine.lat_ptr j h m)
  unfolding run_routine lat_done
  run_lat_ptr k j h region kernel short =
      let (timely, passes) =
        lat_plan-IsTimely (env.clock k 0) j.packet r last (steady.clocks k)
          (omega (arith, steady.late k, short)) steady.some_reading steady.few_readings in
      let (result, e, (over, (calls, some_call, in_pass, chased))) = value_of (
        lat_ptr-Chases env.fuel last (env.clock k 0) j.packet r m pos room small timely
          (omega (arith, passes, steady.fuel))) in
      rw (region, kernel, e)
        (returns (
          refl,
          chased.same,
          record {
            worker = result.0;
            progress = result.1;
            ran = e;
            over = over;
            calls = calls;
            some_call = some_call;
            in_pass = in_pass;
            chased = chased;
            time = refl;
            chases = refl;
          },
        ))

  -- The latency job has the configured time, or a second.
  duration_le : (reference : ℕ) → duration s reference ≤ s.target_duration_s + 1
  duration_le reference = ground arith

  -- What a measurement leaves: a result, what it prints, and the same region and memory.
  pub record HasMeasured (reference : ℕ) (j : Job) (before : Session x.F (Machine x.F))
      (picoseconds : ℕ) (t : Team) (session : Session x.F (Machine x.F)) : Type 0 where
    pub result : Programs.Done x.F
    pub measured :
        IsMeasured env r m before.world.runs
          (latency_job x _ run s reference j).packet
          (duration s reference)
          result
    pub next_run : session.world.runs ≡ before.world.runs + 1
    pub next :
        picoseconds ≡ x.to_uint32 (x.mul (latency_of x _ run s (result ∷ [])) (x.of_nat 1000))
    pub ready : IsReady Routine.lat_ptr (latency_job x _ run s reference j) t session.world
    pub printed :
        session.out
        ≡ before.out
          ++ (if ltb 0 reference then number 10 4 (latency_of x _ run s (result ∷ [])) ∷ [] else [])

  pub measure_idle_latency-alone :
      (routine : Routine) (j : Job) (t : Team) (reference : ℕ) (session : Session x.F (Machine x.F))
      → IsReady routine j t session.world
      → Returns
          (λ ((picoseconds, t'), session'). HasMeasured reference j session picoseconds t' session')
          (measure_idle_latency x (Machine x.F) run s t reference session)
  unfolding measure_idle_latency latency_job next_held
  measure_idle_latency-alone routine j t reference session ready =
      let w = session.world in
      let job = latency_job x (Machine x.F) run s reference j in
      let alone =
        assign_routine-IsAlone (some routine) Routine.lat_ptr
          (latency_job x (Machine x.F) run s reference) j t ready.alone in
      let ((h', m', told), done, (region, same, measured)) = value_of (
        run_lat_ptr w.runs job (next_held env w.held).0 ready.region refl
          (duration_le reference)) in
      let ran =
        run_crew-alone env Routine.lat_ptr job _ w h' m' told (steady.created w.runs)
          (steady.joined w.runs) alone
          (ap (run_routine env w.runs 0 Routine.lat_ptr job _) ready.memory ∙ done) in
      go_on-some _ (run_team-some run _ session _ _ ran) (
        returns (record {
          result = h'.outputs;
          measured = measured;
          next_run = refl;
          next = refl;
          ready = record { alone = alone; region = region; memory = same };
          printed = refl;
        }))
