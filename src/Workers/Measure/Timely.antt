-- ===== src/Workers/Measure/Timely.antt =====
-- A clock that is timely for every reference of the latency worker.
use mm_mem.Base.{ℕ, ◌+◌, ◌*◌, ◌^◌, ◌≤◌, ◌<◌, arith, mul64}
use native.Mathlib.Nat.{mul-le-mul_left, div-le_self}
use mm_mem.MemRegion.Region.{MemRegion}
use mm_mem.Workers.Timer.{Clock}
use mm_mem.Workers.Timer.Elapsed.{IsClock}
use mm_mem.Workers.Packet.{Packet}
use mm_mem.Workers.Checkpoints.Ends.{IsTimely}
use mm_mem.Workers.Measure.{target_ns, chkpt_chases, lat_plan}

-- The checkpoints are less than 2^32 chases apart.
chkpt_chases-lt : (p : Packet) (r : MemRegion) → chkpt_chases p r < 2 ^ 32
unfolding chkpt_chases mul64
chkpt_chases-lt p r = ground (arith, div-le_self (4 * 2 ^ 20) p.ref_latency_ps)

-- More passes than the latency worker needs, if a reading before the number `last` is late enough.
abbrev pub passes_until : (last : ℕ) → ℕ
passes_until last = last * 2 ^ 32

pub lat_plan-IsTimely :
    (clock : Clock) (p : Packet) (r : MemRegion) (last : ℕ)
    → IsClock clock
    → clock 0 + target_ns p ≤ clock last
    → 0 < last
    → last < 2 ^ 31
    → IsTimely clock (lat_plan p r) last
      × (last + last * (lat_plan p r).chkpt_size ≤ passes_until last)
lat_plan-IsTimely clock p r last a_clock late some_reading few =
    let below : chkpt_chases p r + 256 ≤ 2 ^ 32 + 255 = omega (arith, chkpt_chases-lt p r) in
    let chkpts : chkpt_chases p r + 1 ≤ 2 ^ 32 = omega (arith, chkpt_chases-lt p r) in
    (
      record {
        a_clock = a_clock;
        late = late;
        some_reading = some_reading;
        some_size = omega arith;
        room = omega (arith, mul-le-mul_left (last + 1) below);
      },
      omega (arith, mul-le-mul_left last chkpts),
    )
