-- ===== src/Workers/Sharing/Traffic.antt =====
-- A worker of the bandwidth writes only into its own region.
use mm_mem.Base.{
  ℕ, zero, suc, ap, ◌+◌, ◌*◌, ◌/◌, ◌^◌, ◌≤◌, ◌<◌, ◌≡◌, refl, sym, ◌∙◌, inl, inr, none, some, List,
  [], ◌∷◌, arith, length, length-append, get_elem?, add64, add64-lt, ◌%◌,
}
use mm_mem.Base.Returns.{Returns, returns, value_of, via, Option-cases}
use mm_mem.MemRegion.Memory.{Memory}
use mm_mem.MemRegion.Region.{MemRegion, get_start_point}
use mm_mem.Kernels.Code.{Code, rd, wr, nop, ◌▹◌, State, run, accesses}
use mm_mem.Workers.Timer.{Clock}
use mm_mem.Workers.Packet.{Packet}
use mm_mem.Workers.Checkpoints.{Progress, passes}
use mm_mem.Workers.Checkpoints.Keeps.{passes-keeps}
use mm_mem.Workers.Measure.{
  target_ns, bw_sequential, per_core_bw_mbps, bw_plan, bw_loop_bytes, at_start, registers, started,
}
use mm_mem.Workers.Checkpoints.Ends.{IsTimely}
use mm_mem.Workers.Measure.Ended.{bw_sequential-Returns}
use mm_mem.Workers.Sharing.{Extent, Reach, still, write, Reach-trans}

-- A kernel writes into the bytes that it goes over.
run-Reach :
    (regions : List Extent) (owner : ℕ) (r : Extent) (c : Code) (s : State)
    → get_elem? regions owner ≡ some r
    → r.start + r.size < 2 ^ 64
    → r.start ≤ s.p
    → s.p + 32 * length (accesses c) ≤ r.start + r.size
    → Reach regions s.mem (run c s).mem × ((run c s).p ≡ s.p + 32 * length (accesses c))
unfolding run accesses
run-Reach regions owner r rd s there fits low high = (still s.mem, add64-lt s.p 32 (omega arith))
run-Reach regions owner r wr s there fits low high =
    (write owner r s.p s.ret there low (omega arith) (still _), add64-lt s.p 32 (omega arith))
run-Reach regions owner r nop s there fits low high = (still s.mem, omega arith)
run-Reach regions owner r (c ▹ d) s there fits low high =
    let both = length-append (accesses c) (accesses d) in
    let (first, p) = run-Reach regions owner r c s there fits low (omega (arith, both)) in
    let (second, p') =
      run-Reach regions owner r d (run c s) there fits (omega (arith, p))
        (omega (arith, p, both)) in
    (Reach-trans first second, omega (arith, p, p', both))

-- `n` calls of the kernel
unfoldable pub sweep : Code → (n : ℕ) → State → State
sweep c zero s = s
sweep c (suc n) s = run c (sweep c n s)

-- `rounds` passes of `count` calls, each from the start of the region.
unfoldable pub sweeps : Code → MemRegion → (count rounds : ℕ) → State → State
unfolding sweep
sweeps c r count zero s = s
sweeps c r count (suc rounds) s = sweep c count (at_start r (sweeps c r count rounds s))

-- The active part of a region
pub own_extent : MemRegion → Extent
own_extent r = record { start = get_start_point r; size = r.active_size }

-- The calls of the kernel in a pass.
abbrev pub bw_calls : MemRegion → ℕ
bw_calls r = r.active_size / bw_loop_bytes

-- `rounds` whole passes and `calls` calls of another one: what is reported, the registers and the
-- memory, where the pointer is, and where has been written.
pub record HasSwept (c : Code) (r : MemRegion) (m : Memory) (calls finished : ℕ) (s : State)
    : Type 0 where
  pub rounds : ℕ
  pub reported : finished ≡ (rounds * bw_calls r + calls) * bw_loop_bytes % 2 ^ 64
  pub swept : s ≡ sweep c calls (at_start r (sweeps c r (bw_calls r) rounds (registers m)))
  pub at : s.p ≡ get_start_point r + calls * bw_loop_bytes
  pub reach : Reach (own_extent r ∷ []) m s.mem

call-HasSwept :
    (r : MemRegion) (m : Memory) (c : Code) (i f : ℕ) (s : State)
    → get_start_point r + r.active_size < 2 ^ 64
    → length (accesses c) ≡ 256
    → i < bw_calls r
    → HasSwept c r m i f s
    → HasSwept c r m (suc i) (add64 f bw_loop_bytes) (run c s)
unfolding add64 sweep own_extent
call-HasSwept r m c i f s fits size early h =
    let (written, p) =
      run-Reach (own_extent r ∷ []) 0 (own_extent r) c s refl fits (omega (arith, h.at))
        (omega (arith, h.at, size, early)) in
    record {
      rounds = h.rounds;
      reported = omega (arith, h.reported);
      swept = ap (run c) h.swept;
      at = omega (arith, p, h.at, size);
      reach = Reach-trans h.reach written;
    }

bw_sequential-passes :
    (fuel : ℕ) (clock : Clock) (kernel : State → State) (p : Packet) (r : MemRegion) (m : Memory)
    (mbps : ℕ)
    → per_core_bw_mbps p ≡ some mbps
    → bw_sequential fuel clock kernel p r m
      ≡ passes clock
          (bw_plan p mbps)
          (λ i. kernel)
          fuel
          (r.active_size / bw_loop_bytes)
          (at_start r)
          (registers m)
          (started clock (bw_plan p mbps))
unfolding bw_sequential
bw_sequential-passes fuel clock kernel p r m mbps rate = rw (rate, bw_sequential) refl

bw_sequential-trap :
    (fuel : ℕ) (clock : Clock) (kernel : State → State) (p : Packet) (r : MemRegion) (m : Memory)
    → per_core_bw_mbps p ≡ none
    → bw_sequential fuel clock kernel p r m ≡ none
unfolding bw_sequential
bw_sequential-trap fuel clock kernel p r m trap = rw (trap, bw_sequential) refl

bw_sequential_swept :
    (fuel : ℕ) (clock : Clock) (c : Code) (p : Packet) (r : MemRegion) (m : Memory)
    (result : State × Progress)
    → get_start_point r + r.active_size < 2 ^ 64
    → length (accesses c) ≡ 256
    → bw_sequential fuel clock (run c) p r m ≡ some result
    → (calls : ℕ) × (0 < calls)
      × (calls ≤ bw_calls r)
      × HasSwept c r m calls result.1.finished result.0
unfolding started sweep sweeps
bw_sequential_swept fuel clock c p r m result fits size e =
    elim (Option-cases (per_core_bw_mbps p)) [
      | inl trap ↦ cc (e, bw_sequential-trap fuel clock (run c) p r m trap)
      | inr (mbps, rate) ↦
          passes-keeps clock (bw_plan p mbps) (λ i. run c) (bw_calls r) (HasSwept c r m)
            (λ i f b early h. call-HasSwept r m c i f b fits size early h)
            (λ f b.
              (rounds : ℕ) × (f ≡ rounds * bw_calls r * bw_loop_bytes % 2 ^ 64)
              × (b ≡ sweeps c r (bw_calls r) rounds (registers m))
              × Reach (own_extent r ∷ []) m b.mem)
            fuel (at_start r) (registers m) (started clock (bw_plan p mbps)) result
            (λ f b (rounds, reported, swept, reach). record {
              rounds = rounds;
              reported = reported ∙ ap (λ n. n * bw_loop_bytes % 2 ^ 64) (omega arith);
              swept = ap (at_start r) swept;
              at = omega arith;
              reach = reach;
            })
            (λ f b h. (
              suc h.rounds,
              h.reported
                  ∙ ap (λ n. n * bw_loop_bytes % 2 ^ 64)
                      (let e : h.rounds * bw_calls r + bw_calls r ≡ suc h.rounds * bw_calls r =
                          omega arith in
                        e),
              h.swept,
              h.reach,
            ))
            (0, omega arith, refl, still m)
            (sym (bw_sequential-passes fuel clock (run c) p r m mbps rate) ∙ e)
    ]

-- For a kernel of 256 accesses on an active part of at least 8192 bytes below 2^64, if the rate of
-- the checkpoints is defined, then on a clock that does not go back and stays below 2^63, whose
-- reading `last` > 0 is past the target before a count wraps around, for every fuel of at least
-- `last` times one more than the distance of the checkpoints, bw_sequential returns with the time
-- over; what it leaves in registers and memory is what some whole passes over the active part and
-- a last one of at least one call do by the kernel's code, its pointer is behind the calls of the
-- last pass, what it has finished is 8192 bytes, modulo 2^64, for each of these calls, and all that
-- it has done to the memory is to write words into the active part of its region.
pub bw_sequential-Reach :
    (fuel last : ℕ) (clock : Clock) (p : Packet) (m : Memory) (c : Code) (r : MemRegion) (mbps : ℕ)
    → bw_loop_bytes ≤ r.active_size
    → per_core_bw_mbps p ≡ some mbps
    → IsTimely clock (bw_plan p mbps) last
    → last + last * (bw_plan p mbps).chkpt_size ≤ fuel
    → length (accesses c) ≡ 256
    → get_start_point r + r.active_size < 2 ^ 64
    → Returns
        (λ (a, s).
          (target_ns p ≤ s.timer.elapsed_time_ns)
          × ((calls : ℕ) × (0 < calls) × (calls ≤ bw_calls r) × HasSwept c r m calls s.finished a))
        (bw_sequential fuel clock (run c) p r m)
bw_sequential-Reach fuel last clock p m c r mbps room rate ok enough size fits =
    let (result, e, late) =
      value_of (bw_sequential-Returns fuel last clock p m (run c) r mbps room rate ok enough) in
    via e (returns (late, bw_sequential_swept fuel clock c p r m result fits size e))
