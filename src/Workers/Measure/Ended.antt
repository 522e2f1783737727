-- ===== src/Workers/Measure/Ended.antt =====
-- Which measurements end, and that the time is over then.
use mm_mem.Base.{
  div-pos, Bool-cases, ltb, ◌/◌, ◌%◌, ℕ, ◌+◌, ◌*◌, ◌^◌, ◌≤◌, ◌<◌, ◌≡◌, refl, inl, inr, none, some,
  arith, mul64-lt,
}
use native.Mathlib.Nat.{div-eq_of_lt}
use mm_mem.Base.Returns.{Returns}
use mm_mem.MemRegion.Memory.{Memory}
use mm_mem.MemRegion.Region.{MemRegion}
use mm_mem.MemRegion.Region.Construct.{div_or_trap-pos}
use mm_mem.Kernels.Code.{State}
use mm_mem.Workers.Timer.{Clock, new_timer, start_timer}
use mm_mem.Workers.Packet.{Packet}
use mm_mem.Workers.Checkpoints.{Plan, passes}
use mm_mem.Workers.Checkpoints.Ends.{IsTimely, passes-zero}
use mm_mem.Workers.Checkpoints.Ends.Passes.{passes-Returns}
use mm_mem.Workers.Measure.{
  target_ns, started, lat_plan, lat_ptr, per_core_bw_mbps, bw_loop_bytes, bw_plan, bw_sequential,
  copy_plan, copy_fragment, at_start, registers,
}

-- The loop from the state that the workers start in.
from_start {ℓ} :
    {A : Type ℓ} (clock : Clock) (plan : Plan) (last : ℕ)
    → IsTimely clock plan last
    → (call : (i : ℕ) → A → A) (fuel loop_count : ℕ) (begin : A → A) (a : A) → 0 < loop_count
    → last + last * plan.chkpt_size ≤ fuel
    → Returns
        (λ (a', s). plan.target_duration_ns ≤ s.timer.elapsed_time_ns)
        (passes clock plan call fuel loop_count begin a (started clock plan))
unfolding started start_timer new_timer
from_start clock plan last ok call fuel loop_count begin a pos enough =
    passes-Returns clock plan last ok call fuel loop_count begin a (started clock plan) pos enough
      refl refl refl refl refl

module _ (fuel last : ℕ) (clock : Clock) (p : Packet) (m : Memory) where
  -- If the region is below 2^64 bytes and has room for the 256 chases of a call with a positive
  -- line size, and the clock, which does not go back, stays below 2^63, is past the target at its
  -- reading `last` > 0, before a count wraps around, lat_ptr returns for every fuel of at least
  -- `last` times one more than the distance of the checkpoints, and the time is over then.
  pub lat_ptr-Returns :
      (kernel : State → State) (r : MemRegion)
      → 0 < r.line_size
      → 256 * r.line_size ≤ r.active_size
      → r.active_size < 2 ^ 64
      → IsTimely clock (lat_plan p r) last
      → last + last * (lat_plan p r).chkpt_size ≤ fuel
      → Returns (λ (a, s). target_ns p ≤ s.timer.elapsed_time_ns) (lat_ptr fuel clock kernel p r m)
  unfolding lat_ptr
  lat_ptr-Returns kernel r pos room small ok enough =
      rw
        (
          mul64-lt 256 r.line_size (omega arith),
          div_or_trap-pos r.active_size (256 * r.line_size) (omega arith),
        )
        (from_start clock (lat_plan p r) last ok _ fuel _ (at_start r) (registers m)
          (div-pos _ _ (omega arith) room) enough)

  -- If the region has the 8192 bytes of a call, the rate of the checkpoints is defined, and the
  -- clock, which does not go back and stays below 2^63, is past the target at its reading `last` >
  -- 0, before a count wraps around, bw_sequential returns for every fuel of at least `last` times
  -- one more than the distance of the checkpoints, and the time is over then.
  pub bw_sequential-Returns :
      (kernel : State → State) (r : MemRegion) (mbps : ℕ)
      → bw_loop_bytes ≤ r.active_size
      → per_core_bw_mbps p ≡ some mbps
      → IsTimely clock (bw_plan p mbps) last
      → last + last * (bw_plan p mbps).chkpt_size ≤ fuel
      → Returns
          (λ (a, s). target_ns p ≤ s.timer.elapsed_time_ns)
          (bw_sequential fuel clock kernel p r m)
  unfolding bw_sequential
  bw_sequential-Returns kernel r mbps room rate ok enough = rw rate (
      from_start clock (bw_plan p mbps) last ok _ fuel _ (at_start r) (registers m)
        (div-pos _ _ (omega arith) room) enough)

  -- If the fragment is positive and fits into the region, and the clock, which does not go back
  -- and stays below 2^63, is past the target at its reading `last` > 0, before a count wraps
  -- around, copy_fragment returns for every fuel of at least `last` times one more than the
  -- distance of the checkpoints, and the time is over then.
  pub copy_fragment-Returns :
      (kernel_memcpy : (dst src size : ℕ) → Memory → Memory) (dst src : MemRegion)
      → 0 < p.fragment_size
      → p.fragment_size ≤ dst.active_size
      → IsTimely clock (copy_plan p) last
      → last + last * (copy_plan p).chkpt_size ≤ fuel
      → Returns
          (λ (a, s). target_ns p ≤ s.timer.elapsed_time_ns)
          (copy_fragment fuel clock kernel_memcpy p dst src m)
  unfolding copy_fragment
  copy_fragment-Returns kernel_memcpy dst src pos room ok enough =
      rw (div_or_trap-pos dst.active_size p.fragment_size pos)
        (from_start clock (copy_plan p) last ok _ fuel _ _ m (div-pos _ _ pos room) enough)

-- With one thread or more, the rate of the checkpoints is defined.
per_core_bw_mbps-some :
    (p : Packet) → 0 < p.num_threads → (mbps : ℕ) × (per_core_bw_mbps p ≡ some mbps)
unfolding per_core_bw_mbps
per_core_bw_mbps-some p pos =
    let bytes = p.ref_total_bw_gbps * 1024 % 2 ^ 32 in
    let bytes' = 2 * 1024 * p.num_total_threads % 2 ^ 32 in
    elim (Bool-cases (ltb 0 p.ref_total_bw_gbps)) [
      | inl warm ↦ (bytes / p.num_threads, rw warm (div_or_trap-pos bytes p.num_threads pos))
      | inr cold ↦ (bytes' / p.num_threads, rw cold (div_or_trap-pos bytes' p.num_threads pos))
    ]

-- On a region of less than 8192 bytes and with one thread or more, so that nothing traps, the
-- bandwidth worker never ends, whatever the clock says.
pub bw_sequential_small :
    (fuel : ℕ) (clock : Clock) (kernel : State → State) (p : Packet) (r : MemRegion) (m : Memory)
    → 0 < p.num_threads
    → r.active_size < bw_loop_bytes
    → bw_sequential fuel clock kernel p r m ≡ none
unfolding bw_sequential
bw_sequential_small fuel clock kernel p r m pos small =
    let (mbps, rate) = per_core_bw_mbps-some p pos in
    rw (rate, div-eq_of_lt small)
      (passes-zero clock (bw_plan p mbps) _ fuel (at_start r) (registers m) _)

-- On a region that has no room for the 256 chases of a call, the latency worker never ends,
-- whatever the clock says, if the bytes of a call do not wrap around.
pub lat_ptr_small :
    (fuel : ℕ) (clock : Clock) (kernel : State → State) (p : Packet) (r : MemRegion) (m : Memory)
    → 256 * r.line_size < 2 ^ 64
    → r.active_size < 256 * r.line_size
    → lat_ptr fuel clock kernel p r m ≡ none
unfolding lat_ptr
lat_ptr_small fuel clock kernel p r m fits small =
    rw
      (
        mul64-lt 256 r.line_size fits,
        div_or_trap-pos r.active_size (256 * r.line_size) (omega arith),
        div-eq_of_lt small,
      )
      (passes-zero clock (lat_plan p r) _ fuel (at_start r) (registers m) _)
