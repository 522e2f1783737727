-- ===== src/Workers/Measure.antt =====
-- The measuring workers `lat_ptr`, `bw_sequential` and `copy_fragment`. A result has the progress,
-- with the time and what is finished; the times as `double` and the share of written bytes that
-- `bw_sequential` adds in `float` are left out, as is the message on a late end.
pub mod Ended
pub mod Timely
pub mod Chases
pub mod Moved
pub mod Copied
use mm_mem.Base.{
  ℕ, ◌+◌, ◌*◌, ◌/◌, ◌%◌, ◌^◌, Option, none, some, ◌>>=◌, ltb, leb, if◌then◌else◌, add64, mul64,
}
use mm_mem.MemRegion.Memory.{Memory}
use mm_mem.MemRegion.Region.{MemRegion, div_or_trap, get_start_point}
use mm_mem.Kernels.Code.{State}
use mm_mem.Workers.Timer.{Clock, new_timer, start_timer}
use mm_mem.Workers.Packet.{Packet}
use mm_mem.Workers.Checkpoints.{Plan, Progress, passes}

-- `static_cast<int64_t>(target_duration) * 1000000000`, which fits
abbrev pub target_ns : Packet → ℕ
target_ns p = p.target_duration * 1000000000

-- The state in front of the loop, with the timer started.
unfoldable pub started : Clock → Plan → Progress
unfolding new_timer start_timer
started clock plan = record {
  timer = start_timer clock new_timer;
  finished = 0;
  next_chkpt = plan.chkpt_size;
  num_chkpts = 0;
}

-- The chases between two checkpoints of `lat_ptr`.
unfoldable pub chkpt_chases : Packet → MemRegion → ℕ
chkpt_chases p r =
    let chases : ℕ = 4 * 2 ^ 20 in
    if ltb 0 p.ref_latency_ps
    then (mul64 (chases / p.ref_latency_ps) 1000)
    else if ltb (32768 * 1024) r.active_size
    then (chases / 128)
    else if ltb (2048 * 1024) r.active_size
    then (chases / 32)
    else if ltb (32 * 1024) r.active_size
    then (chases / 8)
    else (chases / 2)

-- `p = start;`
abbrev pub at_start : MemRegion → State → State
at_start r s = record s { p = get_start_point r }

abbrev pub registers : Memory → State
registers m = record { ret = 0; p = 0; mem = m }

abbrev pub lat_plan : Packet → MemRegion → Plan
lat_plan p r = record {
  target_duration_ns = target_ns p;
  call_size = 256;
  chkpt_size = chkpt_chases p r;
}

unfoldable pub lat_ptr :
    (fuel : ℕ)
    → Clock
    → (kernel : State → State) → Packet
    → MemRegion
    → Memory
    → Option (State × Progress)
lat_ptr fuel clock kernel p r m = do
  loop_count ← div_or_trap r.active_size (mul64 256 r.line_size)
  let plan = lat_plan p r
  passes clock plan (λ i. kernel) fuel loop_count (at_start r) (registers m) (started clock plan)

-- `per_core_bw_mbps`, in 32 bits
unfoldable pub per_core_bw_mbps : Packet → Option ℕ
unfolding div_or_trap
per_core_bw_mbps p =
    if ltb 0 p.ref_total_bw_gbps
    then div_or_trap (p.ref_total_bw_gbps * 1024 % 2 ^ 32) p.num_threads
    else div_or_trap (2 * 1024 * p.num_total_threads % 2 ^ 32) p.num_threads

-- The bytes of 4 milliseconds at this rate.
unfoldable pub chkpt_bytes : (per_core_bw_mbps : ℕ) → ℕ
chkpt_bytes mbps = mul64 (mul64 (mul64 mbps 1024) 1024) 4 / 1000

abbrev pub bw_loop_bytes : ℕ
bw_loop_bytes = 256 * 32

abbrev pub bw_plan : Packet → (per_core_bw_mbps : ℕ) → Plan
bw_plan p mbps = record {
  target_duration_ns = target_ns p;
  call_size = bw_loop_bytes;
  chkpt_size = chkpt_bytes mbps;
}

unfoldable pub bw_sequential :
    (fuel : ℕ)
    → Clock
    → (kernel : State → State) → Packet
    → MemRegion
    → Memory
    → Option (State × Progress)
bw_sequential fuel clock kernel p r m = do
  mbps ← per_core_bw_mbps p
  let loop_count = r.active_size / bw_loop_bytes
  let plan = bw_plan p mbps
  passes clock plan (λ i. kernel) fuel loop_count (at_start r) (registers m) (started clock plan)

-- `std::max(5 * 1000000 / ref_one_exec_time_ns, 1)`, and 1 without a reference
unfoldable pub chkpt_calls : Packet → ℕ
chkpt_calls p =
    if ltb 0 p.ref_one_exec_time_ns
    then (let calls = 5 * 1000000 / p.ref_one_exec_time_ns in if leb calls 1 then 1 else calls)
    else 1

abbrev pub copy_plan : Packet → Plan
copy_plan p = record { target_duration_ns = target_ns p; call_size = 1; chkpt_size = chkpt_calls p }

-- The copy of the fragment with the number `i`, by `memcpy` or what is given in its place.
unfoldable pub copy_call :
    (kernel_memcpy : (dst src size : ℕ) → Memory → Memory)
    → Packet
    → (dst src : MemRegion) → (i : ℕ) → Memory
    → Memory
unfolding get_start_point
copy_call kernel_memcpy p dst src i =
    let offset = mul64 p.fragment_size i in
    kernel_memcpy (add64 (get_start_point dst) offset) (add64 (get_start_point src) offset)
      p.fragment_size

-- The result counts calls; `finished_bytes` is their number times the size of a fragment.
unfoldable pub copy_fragment :
    (fuel : ℕ)
    → Clock
    → (kernel_memcpy : (dst src size : ℕ) → Memory → Memory) → Packet
    → (dst src : MemRegion) → Memory
    → Option (Memory × Progress)
copy_fragment fuel clock kernel_memcpy p dst src m = do
  loop_count ← div_or_trap dst.active_size p.fragment_size
  let plan = copy_plan p
  passes clock plan (copy_call kernel_memcpy p dst src) fuel loop_count (λ m'. m') m
      (started clock plan)

-- What `main` of cpu_micro/cpu_memcpy.cc takes as the size of a fragment; `none` is the exit with an
-- error.
unfoldable pub select_fragment : (region_size_kb fragment_size_b : ℕ) → Option ℕ
select_fragment region_size_kb fragment_size_b =
    let size = mul64 region_size_kb 1024 in
    let fragment : ℕ = if leb fragment_size_b 0 then size else fragment_size_b in
    if leb fragment 0 then none else if ltb size fragment then none else some fragment
