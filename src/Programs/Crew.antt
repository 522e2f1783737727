-- ===== src/Programs/Crew.antt =====
-- A run of a team whose threads do the routines of Workers on one memory, one thread after another.
pub mod Alone
use mm_mem.Base.{ℕ, ◌+◌, Option, none, some, List, [], ◌∷◌, ◌++◌, ◌>>=◌}
use mm_mem.MemRegion.Memory.{Memory}
use mm_mem.MemRegion.Sequence.{Rand}
use mm_mem.MemRegion.Region.{Os, MemRegion}
use mm_mem.Kernels.Code.{run}
use mm_mem.Workers.Timer.{Clock}
use mm_mem.Workers.Alloc.{mem_region_alloc_lat, mem_region_alloc_bw, mem_region_alloc_memcpy}
use mm_mem.Workers.Measure.{lat_ptr, bw_sequential, copy_fragment}
use mm_mem.WorkerThreads.{run_workers}
use mm_mem.Programs.{Floats, Item, Routine, Job, Team, Run}
use mm_mem.Programs
use mm_mem.Programs.Results.{
  Rounding, lat_done, lat_message, bw_done, bw_message, copy_done, copy_message,
}

-- What a packet has besides the settings: its regions and its outputs.
pub record Held (F : Type 0) : Type 0 where
  pub mem_region : Option MemRegion
  pub src_mem_region : Option MemRegion
  pub outputs : Programs.Done F

-- The memory, what the packets hold by the number of their thread, the number of runs up to now, and
-- what has been told on the standard error.
pub record Machine (F : Type 0) : Type 0 where
  pub memory : Memory
  pub held : List (Held F)
  pub runs : ℕ
  pub err : List (Item F)

-- What the threads ask of the system, by the number of the run and of the thread. A packet that copies
-- asks for two regions.
pub record Surroundings (F : Type 0) : Type 0 where
  pub rounding : Rounding F
  pub zero_time : F
  pub fuel : ℕ
  pub os : (run thread : ℕ) → Os
  pub src_os : (run thread : ℕ) → Os
  pub rand : (run thread : ℕ) → Rand
  pub clock : (run thread : ℕ) → Clock
  pub kernel_memcpy : (dst src size : ℕ) → Memory → Memory
  pub pthread_create : (run thread : ℕ) → ℕ
  pub timedjoin : (run thread : ℕ) → ℕ
  pub timeout_s : ℕ

-- What a thread changes: its packet, the memory, and what it tells.
abbrev pub Effect : Type 0 → Type 0
Effect F = Option (Held F × Memory × List (Item F))

module _ {F : Type 0} (env : Surroundings F) where
  -- A packet as it is made
  unfoldable pub no_results : Held F
  no_results = record {
    mem_region = none;
    src_mem_region = none;
    outputs = record { finished_chases = 0; finished_bytes = 0; exec_time = env.zero_time };
  }

  -- A routine on the packet of a thread. Without its region or its kernel it faults; `branch_tp` takes
  -- packets of another type.
  unfoldable pub run_routine : (run thread : ℕ) → Routine → Job → Held F → Memory → Effect F
  unfolding lat_done lat_message bw_done bw_message copy_done copy_message
  run_routine k i Routine.mem_region_alloc_lat j h m =
      mem_region_alloc_lat (env.os k i) (env.rand k i) j.packet m >>= λ (r, m').
      some (record h { mem_region = some r }, m', [])
  run_routine k i Routine.mem_region_alloc_bw j h m =
      mem_region_alloc_bw (env.os k i) j.packet m >>= λ (r, m').
      some (record h { mem_region = some r }, m', [])
  run_routine k i Routine.mem_region_alloc_memcpy j h m =
      mem_region_alloc_memcpy (env.os k i) (env.src_os k i) j.packet m >>= λ (dst, src, m').
      some (record h { mem_region = some dst; src_mem_region = some src }, m', [])
  run_routine k i Routine.lat_ptr j h m = h.mem_region >>= λ r.
      (j.kernel_lat >>= λ kernel.
      (lat_ptr env.fuel (env.clock k i) kernel j.packet r m >>= λ (a, s). some (
        record h { outputs = lat_done env.rounding s h.outputs },
        a.mem,
        lat_message env.rounding j.packet a s,
      )))
  run_routine k i Routine.bw_sequential j h m = h.mem_region >>= λ r.
      (j.kernel_bw >>= λ kernel.
      (bw_sequential env.fuel (env.clock k i) (run kernel) j.packet r m >>= λ (a, s). some (
        record h { outputs = bw_done env.rounding j.packet s h.outputs },
        a.mem,
        bw_message env.rounding j.packet a s,
      )))
  run_routine k i Routine.copy_fragment j h m = h.mem_region >>= λ dst.
      (h.src_mem_region >>= λ src.
      (copy_fragment env.fuel (env.clock k i) env.kernel_memcpy j.packet dst src m >>= λ (m', s).
      some (
        record h { outputs = copy_done env.rounding j.packet s h.outputs },
        m',
        copy_message env.rounding j.packet s,
      )))
  run_routine k i Routine.branch_tp j h m = none

  -- The packet of a thread, and those of the threads behind it.
  unfoldable pub next_held : List (Held F) → Held F × List (Held F)
  unfolding no_results
  next_held [] = (no_results, [])
  next_held (h ∷ rest) = (h, rest)

  -- The threads from the number `i`.
  unfoldable pub crew_loop :
      (run i : ℕ)
      → List (Option Routine)
      → List Job
      → List (Held F)
      → Memory
      → Option (List (Held F) × Memory × List (Item F))
  unfolding run_routine next_held
  crew_loop k i [] jobs held m = some ([], m, [])
  crew_loop k i (r ∷ routines) [] held m = some ([], m, [])
  crew_loop k i (none ∷ routines) (j ∷ jobs) held m =
      let (h, rest) = next_held held in
      crew_loop k (i + 1) routines jobs rest m >>= λ (others, m', err). some (h ∷ others, m', err)
  crew_loop k i (some r ∷ routines) (j ∷ jobs) held m =
      let (h, rest) = next_held held in
      run_routine k i r j h m >>= λ (h', m', told).
      (crew_loop k (i + 1) routines jobs rest m' >>= λ (others, m'', err).
      some (h' ∷ others, m'', told ++ err))

  outputs_of : List (Held F) → List (Programs.Done F)
  outputs_of [] = []
  outputs_of (h ∷ rest) = h.outputs ∷ outputs_of rest

  -- A run of a team, by the manager of its threads.
  unfoldable pub run_crew : Run F (Machine F)
  unfolding run_workers crew_loop outputs_of
  run_crew team w =
      run_workers env.timeout_s (env.pthread_create w.runs) (env.timedjoin w.runs) team.manager
      >>= λ manager.
          (crew_loop w.runs 0 team.manager.start_routines team.jobs w.held w.memory
            >>= λ (held, m, err). some (
              outputs_of held,
              record { memory = m; held = held; runs = w.runs + 1; err = w.err ++ err },
            ))
