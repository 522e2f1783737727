-- ===== src/Workers/Checkpoints/Ends/Passes.antt =====
-- The passes of the workers' loop as a whole.
use mm_mem.Base.{
  ℕ, zero, suc, ◌+◌, ◌*◌, ◌≤◌, ◌<◌, ◌≡◌, Bool, true, Option, some, arith, if◌then◌else◌,
}
use mm_mem.Base.Returns.{Returns, returns}
use mm_mem.Workers.Timer.{Clock}
use mm_mem.Workers.Checkpoints.{Plan, Progress, pass, passes}
use mm_mem.Workers.Checkpoints.Ends.{
  IsTimely, IsLive, left, After, over, live, weaken, count_call-After,
}

module _ {ℓ} {A : Type ℓ} (clock : Clock) (plan : Plan) (last : ℕ) (ok : IsTimely clock plan last)
    (call : (i : ℕ) → A → A) where
  -- What the rest of a pass makes of the state, if there is a rest.
  continue :
      {bound : ℕ} {s : Progress} {b : Bool} (a : A) (rest : A × Progress × Bool)
      → After clock plan last ok bound s b
      → ((k : ℕ)
          → IsLive clock plan last ok k k s
          → left clock plan last ok k s ≤ bound
          → After clock plan last ok bound rest.1 rest.2)
      → After clock plan last ok bound
          (if b then (a, s, true) else rest).1
          (if b then (a, s, true) else rest).2
  continue a rest (over late) onwards = over late
  continue a rest (live k h fuel) onwards = onwards k h fuel

  pass-After :
      (n i bound k : ℕ) (a : A) (s : Progress)
      → IsLive clock plan last ok k k s
      → left clock plan last ok k s ≤ bound
      → After clock plan last ok bound
          (pass clock plan call n i a s).1
          (pass clock plan call n i a s).2
  unfolding pass
  pass-After zero i bound k a s h fuel = live k h fuel
  pass-After (suc n) i zero k a s h fuel = absurd (omega (arith, fuel, h.early))
  pass-After (suc n) i (suc bound) k a s h fuel = weaken clock plan last ok (omega arith) (
      continue (call i a) _ (count_call-After clock plan last ok bound k s h fuel)
        λ k' h' fuel'. pass-After n (i + 1) bound k' (call i a) _ h' fuel')

  -- A pass with a call leaves fewer calls, unless the time is over.
  pass-suc-After :
      (n bound k : ℕ) (a : A) (s : Progress)
      → IsLive clock plan last ok k k s
      → left clock plan last ok k s ≤ suc bound
      → After clock plan last ok bound
          (pass clock plan call (suc n) 0 a s).1
          (pass clock plan call (suc n) 0 a s).2
  unfolding pass
  pass-suc-After n bound k a s h fuel =
      continue (call 0 a) _ (count_call-After clock plan last ok bound k s h fuel)
        λ k' h' fuel'. pass-After n (0 + 1) bound k' (call 0 a) _ h' fuel'

  abbrev IsOver : A × Progress → Type 0
  IsOver (a, s) = plan.target_duration_ns ≤ s.timer.elapsed_time_ns

  again :
      {bound : ℕ} {s : Progress} {b : Bool} (a : A) (rest : Option (A × Progress))
      → After clock plan last ok bound s b
      → ((k : ℕ)
          → IsLive clock plan last ok k k s
          → left clock plan last ok k s ≤ bound
          → Returns IsOver rest)
      → Returns IsOver (if b then some (a, s) else rest)
  again a rest (over late) onwards = returns late
  again a rest (live k h fuel) onwards = onwards k h fuel

  passes-live :
      (fuel n : ℕ) (begin : A → A) (k : ℕ) (a : A) (s : Progress)
      → IsLive clock plan last ok k k s
      → left clock plan last ok k s ≤ fuel
      → Returns IsOver (passes clock plan call fuel (suc n) begin a s)
  unfolding passes
  passes-live zero n begin k a s h enough = absurd (omega (arith, enough, h.early))
  passes-live (suc fuel) n begin k a s h enough =
      again _ _ (pass-suc-After n fuel k (begin a) s h enough)
        λ k' h' enough'. passes-live fuel n begin k' _ _ h' enough'

  -- From a state in which the timer is started and nothing is finished, the loop ends if a pass has
  -- a call, and then the time is over. So many passes are enough.
  pub passes-Returns :
      (fuel loop_count : ℕ) (begin : A → A) (a : A) (s : Progress)
      → 0 < loop_count
      → last + last * plan.chkpt_size ≤ fuel
      → s.timer.reading ≡ 1
      → s.timer.time_point_begin ≡ clock 0
      → s.timer.elapsed_time_ns ≡ 0
      → s.next_chkpt ≡ plan.chkpt_size
      → s.finished ≡ 0
      → Returns
          (λ (a', s'). plan.target_duration_ns ≤ s'.timer.elapsed_time_ns)
          (passes clock plan call fuel loop_count begin a s)
  passes-Returns fuel zero begin a s pos enough reading began elapsed next finished =
      absurd (omega arith)
  passes-Returns fuel (suc n) begin a s pos enough reading began elapsed next finished =
      passes-live fuel n begin 0 a s
        (record {
          early = ok.some_reading;
          reading = reading;
          began = began;
          elapsed = omega (arith, elapsed);
          next = omega (arith, next);
          enough = omega (arith, finished);
        })
        (omega (arith, enough, finished))
