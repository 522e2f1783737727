-- ===== src/Workers/Checkpoints/Ends.antt =====
-- When the loop of the workers ends.
pub mod Passes
use mm_mem.Base.{
  ℕ, zero, suc, ◌+◌, ◌-◌, ◌*◌, ◌%◌, ◌^◌, ◌≤◌, ◌<◌, ◌≡◌, refl, ap, ◌∙◌, inl, inr, Bool, true, false,
  Option, none, some, arith, ltb, leb, if◌then◌else◌, Bool-cases, add64, sub64, add64-lt, sub64-le,
}
use native.Mathlib.Decide.{dec_lt}
use native.Mathlib.Nat.{mul-le-mul_right}
use mm_mem.Base.Returns.{Returns, returns}
use mm_mem.Workers.Timer.Elapsed.{IsClock, from_zero, elapsed_then}
use mm_mem.Workers.Timer.{Clock, end_timer, resume_timer, signed_ge}
use mm_mem.Workers.Checkpoints.{Plan, Progress, checkpoint, count_call, pass, passes}

signed_ge_small : (a b : ℕ) → a < 2 ^ 63 → b < 2 ^ 63 → signed_ge a b ≡ leb b a
unfolding signed_ge
signed_ge_small a b ha hb = ground arith

-- Without a call in a pass the loop does not end.
pub passes-zero {ℓ} :
    {A : Type ℓ} (clock : Clock) (plan : Plan) (call : (i : ℕ) → A → A) (fuel : ℕ) (begin : A → A)
    (a : A) (s : Progress)
    → passes clock plan call fuel 0 begin a s ≡ none
unfolding passes pass
passes-zero clock plan call zero begin a s = refl
passes-zero clock plan call (suc fuel) begin a s =
    passes-zero clock plan call fuel begin (begin a) s

-- A clock that does not go back, that stays below 2^63, and whose reading `last` is late enough for
-- the plan; and no count wraps around until then.
pub record IsTimely (clock : Clock) (plan : Plan) (last : ℕ) : Type 0 where
  pub a_clock : IsClock clock
  pub late : clock 0 + plan.target_duration_ns ≤ clock last
  pub some_reading : 0 < last
  pub some_size : 0 < plan.call_size
  pub room : (last + 1) * (plan.chkpt_size + plan.call_size) < 2 ^ 64

module _ (clock : Clock) (plan : Plan) (last : ℕ) (ok : IsTimely clock plan last) where
  abbrev target : ℕ
  target = plan.target_duration_ns

  abbrev chkpt : ℕ
  chkpt = plan.chkpt_size

  abbrev size : ℕ
  size = plan.call_size

  -- The state after `k` checkpoints, with the time not over. What is finished is at most what leads
  -- to the last checkpoint, and `m` calls.
  pub record IsLive (k m : ℕ) (s : Progress) : Type 0 where
    pub early : k < last
    pub reading : s.timer.reading ≡ suc k
    pub began : s.timer.time_point_begin ≡ clock k
    pub elapsed : s.timer.elapsed_time_ns ≡ clock k - clock 0
    pub next : s.next_chkpt ≡ suc k * chkpt
    pub enough : s.finished ≤ last * chkpt + m * size

  -- How many calls are left at most.
  abbrev pub left : ℕ → Progress → ℕ
  left k s = last - k + (last * chkpt - s.finished)

  pub data After (bound : ℕ) (s : Progress) : Bool → Type 0 where
    over : target ≤ s.timer.elapsed_time_ns → After bound s true
    live : (k : ℕ) → IsLive k k s → left k s ≤ bound → After bound s false

  step_next : (k : ℕ) → k < last → add64 (suc k * chkpt) chkpt ≡ suc (suc k) * chkpt
  step_next k h =
      add64-lt (suc k * chkpt) chkpt
        (omega (arith, ok.room, mul-le-mul_right {m = suc k} {n = last} chkpt h))
      ∙ omega arith

  -- The time that a checkpoint finds.
  abbrev found : Progress → ℕ
  found s = (end_timer clock s.timer).elapsed_time_ns

  found_lem : (k m : ℕ) (s : Progress) → IsLive k m s → found s ≡ clock (suc k) - clock 0
  unfolding end_timer
  found_lem k m s h = rw (h.reading, h.began, h.elapsed) (elapsed_then clock ok.a_clock k)

  found_over :
      (k m : ℕ) (s : Progress) → IsLive k m s → signed_ge (found s) target ≡ leb target (found s)
  found_over k m s h =
      signed_ge_small (found s) target
        (omega (arith, found_lem k m s h, ok.a_clock.bounded (suc k)))
        (omega (arith, ok.late, ok.a_clock.bounded last))

  -- After a checkpoint that is too early.
  resumed : Progress → Progress
  resumed s = record s {
    timer = resume_timer (end_timer clock s.timer);
    next_chkpt = add64 s.next_chkpt chkpt;
    num_chkpts = (s.num_chkpts + 1) % 2 ^ 32;
  }

  still_early : (k : ℕ) (s : Progress) → IsLive k (suc k) s → found s < target → suc k < last
  still_early k s h soon = elim (dec_lt (suc k) last) [
    | yes more ↦ more
    | no past ↦
        let at_last : suc k ≡ last = omega (arith, h.early) in
        let then_found : clock (suc k) ≡ clock last = ap clock at_last in
        absurd (omega (arith, found_lem k (suc k) s h, then_found, ok.late))
  ]

  resumed-IsLive :
      (k : ℕ) (s : Progress)
      → IsLive k (suc k) s
      → found s < target
      → IsLive (suc k) (suc k) (resumed s)
  unfolding resumed resume_timer end_timer
  resumed-IsLive k s h soon = record {
    early = still_early k s h soon;
    reading = omega (arith, h.reading);
    began = ap clock h.reading;
    elapsed = found_lem k (suc k) s h;
    next = rw h.next (step_next k h.early);
    enough = h.enough;
  }

  checkpoint-After :
      (bound k : ℕ) (s : Progress)
      → IsLive k (suc k) s
      → left (suc k) s ≤ bound
      → After bound (checkpoint clock plan s).0 (checkpoint clock plan s).1
  unfolding checkpoint resumed
  checkpoint-After bound k s h fuel = elim (Bool-cases (signed_ge (found s) target)) [
    | inl late ↦ rw late (over (ground (arith, late, found_over k (suc k) s h)))
    | inr soon ↦
        rw soon (
          live (suc k) (resumed-IsLive k s h (ground (arith, soon, found_over k (suc k) s h))) fuel)
  ]

  -- The state with a call counted.
  counted : Progress → Progress
  counted s = record s { finished = add64 s.finished size }

  counted-IsLive :
      (k : ℕ) (s : Progress)
      → IsLive k k s
      → IsLive k (suc k) (counted s) × ((counted s).finished ≡ s.finished + size)
  unfolding counted
  counted-IsLive k s h =
      let sum : add64 s.finished size ≡ s.finished + size =
        add64-lt s.finished size (
          omega (arith, h.enough, ok.room, mul-le-mul_right {m = suc k} {n = last} size h.early)) in
      (
        record {
          early = h.early;
          reading = h.reading;
          began = h.began;
          elapsed = h.elapsed;
          next = h.next;
          enough = omega (arith, h.enough, sum);
        },
        sum,
      )

  -- A call brings the end nearer: it is a checkpoint, or what is finished is not yet what leads to
  -- the last one.
  pub count_call-After :
      (bound k : ℕ) (s : Progress)
      → IsLive k k s
      → left k s ≤ suc bound
      → After bound (count_call clock plan s).0 (count_call clock plan s).1
  unfolding count_call counted
  count_call-After bound k s h fuel =
      let (live', sum) = counted-IsLive k s h in
      elim (Bool-cases (ltb s.next_chkpt (add64 s.finished size))) [
        | inl reached ↦
            rw reached
              (checkpoint-After bound k (counted s) live' (omega (arith, sum, fuel, h.early)))
        | inr not_yet ↦
            let below : s.finished + size ≤ last * chkpt = omega (
              arith,
              sum,
              ltb→ge not_yet,
              h.next,
              mul-le-mul_right {m = suc k} {n = last} chkpt h.early,
            ) in
            rw not_yet (
              live k
                (record {
                  early = h.early;
                  reading = h.reading;
                  began = h.began;
                  elapsed = h.elapsed;
                  next = h.next;
                  enough = omega (arith, below, sum);
                })
                (omega (arith, sum, fuel, below, ok.some_size)))
      ]
    where
      ltb→ge : {a b : ℕ} → ltb a b ≡ false → b ≤ a
      ltb→ge e = ground arith

  pub weaken : {n m : ℕ} {s : Progress} {b : Bool} → n ≤ m → After n s b → After m s b
  weaken h (over late) = over late
  weaken h (live k l fuel) = live k l (omega arith)
