-- ===== src/Workers/Measure/Chases.antt =====
-- What the latency worker has done when it returns.
use mm_mem.Base.{
  ℕ, suc, ◌+◌, ◌*◌, ◌/◌, ◌%◌, ◌^◌, ◌≤◌, ◌<◌, ◌≡◌, refl, sym, ap, ◌∙◌, some, arith, mul64-lt, add64,
}
use mm_mem.Base.Returns.{Returns, returns, value_of, via}
use mm_mem.MemRegion.Memory.{Memory}
use mm_mem.MemRegion.Region.{MemRegion, get_start_point}
use mm_mem.MemRegion.Region.Construct.{div_or_trap-pos}
use mm_mem.MemRegion.Tour.{chase}
use mm_mem.Kernels.Code.{State}
use mm_mem.Kernels.Latency.{kernel_lat}
use mm_mem.Workers.Timer.{Clock}
use mm_mem.Workers.Packet.{Packet}
use mm_mem.Workers.Checkpoints.{Progress, passes}
use mm_mem.Workers.Checkpoints.Ends.{IsTimely}
use mm_mem.Workers.Checkpoints.Keeps.{passes-keeps}
use mm_mem.Workers.Measure.{target_ns, lat_plan, lat_ptr, at_start, registers, started}
use mm_mem.Workers.Measure.Ended.{lat_ptr-Returns}
use mm_mem.Workers.Sharing.{chase-add}

-- `rounds` whole passes of `count` calls and `calls` calls of another one: what is reported, the
-- memory, and where the pointer is.
pub record HasChased (m : Memory) (start count finished : ℕ) (s : State) (calls : ℕ) : Type 0 where
  pub rounds : ℕ
  pub reported : finished ≡ 256 * (rounds * count + calls) % 2 ^ 64
  pub same : s.mem ≡ m
  pub at : s.p ≡ chase m (256 * calls) start

module _ (m : Memory) (start count : ℕ) where
  call-HasChased :
      (calls finished : ℕ) (s : State)
      → HasChased m start count finished s calls
      → HasChased m start count (add64 finished 256) (kernel_lat s) (suc calls)
  unfolding kernel_lat add64
  call-HasChased calls finished s h =
      let e : 256 * calls + 256 ≡ 256 * suc calls = omega arith in
      record {
        rounds = h.rounds;
        reported = omega (arith, h.reported);
        same = h.same;
        at =
            ap (λ t. chase t 256 s.p) h.same
            ∙ ap (chase m 256) h.at
            ∙ chase-add m (256 * calls) 256 start
            ∙ ap (λ n. chase m n start) e;
      }

-- The calls of `kernel_lat` in a pass.
abbrev pub lat_calls : MemRegion → ℕ
lat_calls r = r.active_size / (256 * r.line_size)

lat_ptr-passes :
    (fuel : ℕ) (clock : Clock) (p : Packet) (r : MemRegion) (m : Memory)
    → 0 < r.line_size
    → 256 * r.line_size < 2 ^ 64
    → lat_ptr fuel clock kernel_lat p r m
      ≡ passes clock
          (lat_plan p r)
          (λ i. kernel_lat)
          fuel
          (lat_calls r)
          (at_start r)
          (registers m)
          (started clock (lat_plan p r))
unfolding lat_ptr
lat_ptr-passes fuel clock p r m pos fits =
    rw
      (
        mul64-lt 256 r.line_size fits,
        div_or_trap-pos r.active_size (256 * r.line_size) (omega arith),
        lat_ptr,
      )
      refl

chase-zero : (m : Memory) (p : ℕ) → p ≡ chase m (256 * 0) p
unfolding chase
chase-zero m p = refl

-- Whenever the latency worker returns.
pub lat_ptr-HasChased :
    (fuel : ℕ) (clock : Clock) (p : Packet) (r : MemRegion) (m : Memory) (last : State)
    (s : Progress)
    → 0 < r.line_size
    → 256 * r.line_size < 2 ^ 64
    → lat_ptr fuel clock kernel_lat p r m ≡ some (last, s)
    → (calls : ℕ) × (0 < calls)
      × (calls ≤ lat_calls r)
      × HasChased m (get_start_point r) (lat_calls r) s.finished last calls
unfolding started
lat_ptr-HasChased fuel clock p r m last s pos fits e =
    let plan = lat_plan p r in
    let start = get_start_point r in
    let count = lat_calls r in
    passes-keeps clock plan (λ i. kernel_lat) count (λ i f b. HasChased m start count f b i)
      (λ i f b early h. call-HasChased m start count i f b h)
      (λ f b. (b.mem ≡ m) × (rounds : ℕ) × (f ≡ 256 * (rounds * count) % 2 ^ 64)) fuel (at_start r)
      (registers m) (started clock plan) (last, s)
      (λ f b (same, rounds, reported). record {
        rounds = rounds;
        reported = reported ∙ ap (λ n. 256 * n % 2 ^ 64) (omega arith);
        same = same;
        at = chase-zero m (get_start_point r);
      })
      (λ f b h. (
        h.same,
        suc h.rounds,
        h.reported
            ∙ ap (λ n. 256 * n % 2 ^ 64)
                (let e : h.rounds * count + count ≡ suc h.rounds * count = omega arith in e),
      ))
      (refl, 0, omega arith) (sym (lat_ptr-passes fuel clock p r m pos fits) ∙ e)

-- If the region is below 2^64 bytes and has room for the 256 chases of a call with a positive line
-- size, then on a clock that does not go back and stays below 2^63, whose reading `last` > 0 is
-- past the target before a count wraps around, for every fuel of at least `last` times one more
-- than the distance of the checkpoints, lat_ptr returns with the time over; it reports 256 chases,
-- modulo 2^64, for each call of some whole passes and a last one of at least one call, the memory
-- is as before, and its pointer is where the chase from the start is after the calls of the last
-- pass.
pub lat_ptr-Chases :
    (fuel last : ℕ) (clock : Clock) (p : Packet) (r : MemRegion) (m : Memory)
    → 0 < r.line_size
    → 256 * r.line_size ≤ r.active_size
    → r.active_size < 2 ^ 64
    → IsTimely clock (lat_plan p r) last
    → last + last * (lat_plan p r).chkpt_size ≤ fuel
    → Returns
        (λ (a, s).
          (target_ns p ≤ s.timer.elapsed_time_ns)
          × ((calls : ℕ) × (0 < calls)
              × (calls ≤ lat_calls r)
              × HasChased m (get_start_point r) (lat_calls r) s.finished a calls))
        (lat_ptr fuel clock kernel_lat p r m)
lat_ptr-Chases fuel last clock p r m pos room small ok enough =
    let (result, e, late) =
      value_of (lat_ptr-Returns fuel last clock p m kernel_lat r pos room small ok enough) in
    via e (
      returns (
        late,
        lat_ptr-HasChased fuel clock p r m result.0 result.1 pos (omega (arith, room, small)) e,
      ))
