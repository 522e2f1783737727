-- ===== src/Workers/Branch/Batches.antt =====
-- When the loop of the worker for the branches ends.
use mm_mem.Base.{
  ℕ, zero, suc, ◌+◌, ◌-◌, ◌*◌, ◌^◌, ◌≤◌, ◌<◌, ◌≡◌, ap, ◌∙◌, sym, inl, inr, Bool, true, false, arith,
  Bool-cases, add64-lt,
}
use native.Mathlib.Decide.{dec_lt}
use native.Mathlib.Nat.{mul-le-mul_right}
use mm_mem.Base.Returns.{Returns, returns}
use mm_mem.Workers.Timer.{Clock, end_timer, resume_timer}
use mm_mem.Workers.Timer.Elapsed.{IsClock, elapsed_then}
use mm_mem.Workers.Branch.{Sample, run_batch, run_batches}

module _ (clock : Clock) (over : ℕ → Bool) (batch last : ℕ) (ok : IsClock clock)
    (late : over (clock last - clock 0) ≡ true) (room : last * batch < 2 ^ 64) where
  -- In front of the batch with the number `k`.
  pub record IsBefore (k : ℕ) (s : Sample) : Type 0 where
    pub early : k < last
    pub reading : s.timer.reading ≡ suc k
    pub began : s.timer.time_point_begin ≡ clock k
    pub elapsed : s.timer.elapsed_time_ns ≡ clock k - clock 0
    pub finished : s.finished_branches ≡ k * batch
    pub not_over : (m : ℕ) → 0 < m → m ≤ k → over (clock m - clock 0) ≡ false

  -- At the end, behind `n` batches: the first time that the sample is over.
  pub record IsEnd (n time counted : ℕ) : Type 0 where
    pub some_batch : 0 < n
    pub in_time : n ≤ last
    pub elapsed : time ≡ clock n - clock 0
    pub finished : counted ≡ n * batch
    pub over_then : over (clock n - clock 0) ≡ true
    pub not_before : (m : ℕ) → 0 < m → m < n → over (clock m - clock 0) ≡ false

  batch_elapsed :
      (k : ℕ) (s : Sample)
      → IsBefore k s
      → (run_batch clock batch s).timer.elapsed_time_ns ≡ clock (suc k) - clock 0
  unfolding run_batch end_timer
  batch_elapsed k s h = rw (h.reading, h.began, h.elapsed) (elapsed_then clock ok k)

  over_then_lem :
      (k : ℕ) (s : Sample)
      → IsBefore k s
      → over (run_batch clock batch s).timer.elapsed_time_ns ≡ over (clock (suc k) - clock 0)
  over_then_lem k s h = ap over (batch_elapsed k s h)

  batch_finished :
      (k : ℕ) (s : Sample)
      → IsBefore k s
      → (run_batch clock batch s).finished_branches ≡ suc k * batch
  unfolding run_batch
  batch_finished k s h = rw h.finished (
      add64-lt (k * batch) batch
        (omega (arith, room, mul-le-mul_right {m = suc k} {n = last} batch h.early))
      ∙ omega arith)

  next_early : (k : ℕ) → k < last → over (clock (suc k) - clock 0) ≡ false → suc k < last
  next_early k early h = elim (dec_lt (suc k) last) [
    | yes more ↦ more
    | no past ↦
        let at_last : suc k ≡ last = omega (arith, early) in
        let e : over (clock (suc k) - clock 0) ≡ over (clock last - clock 0) =
          ap (λ t. over (clock t - clock 0)) at_last in
        cc (h, e, late)
  ]

  resumed : Sample → Sample
  resumed s = let s' = run_batch clock batch s in record s' { timer = resume_timer s'.timer }

  up_to_here :
      (k : ℕ) (s : Sample)
      → IsBefore k s
      → over (clock (suc k) - clock 0) ≡ false
      → (m : ℕ) → 0 < m
      → m ≤ suc k
      → over (clock m - clock 0) ≡ false
  up_to_here k s h more m pos below = elim (dec_lt m (suc k)) [
    | yes earlier ↦ h.not_over m pos (omega (arith, earlier))
    | no here ↦
        let e : m ≡ suc k = omega (arith, here) in ap (λ t. over (clock t - clock 0)) e ∙ more
  ]

  resumed-IsBefore :
      (k : ℕ) (s : Sample)
      → IsBefore k s
      → over (clock (suc k) - clock 0) ≡ false
      → IsBefore (suc k) (resumed s)
  unfolding resumed run_batch resume_timer end_timer
  resumed-IsBefore k s h more = record {
    early = next_early k h.early more;
    reading = omega (arith, h.reading);
    began = ap clock h.reading;
    elapsed = batch_elapsed k s h;
    finished = batch_finished k s h;
    not_over = up_to_here k s h more;
  }

  pub run_batches-IsEnd :
      (fuel k : ℕ) (s : Sample)
      → IsBefore k s
      → last ≤ k + fuel
      → Returns
          (λ s'. (n : ℕ) × IsEnd n s'.timer.elapsed_time_ns s'.finished_branches)
          (run_batches clock over batch fuel s)
  unfolding run_batches resumed
  run_batches-IsEnd zero k s h enough = absurd (omega (arith, h.early))
  run_batches-IsEnd (suc fuel) k s h enough =
      elim (Bool-cases (over (run_batch clock batch s).timer.elapsed_time_ns)) [
        | inl stop ↦ rw stop (
            returns (
              suc k,
              record {
                some_batch = omega arith;
                in_time = h.early;
                elapsed = batch_elapsed k s h;
                finished = batch_finished k s h;
                over_then = sym (over_then_lem k s h) ∙ stop;
                not_before = λ m pos below. h.not_over m pos (omega arith);
              },
            ))
        | inr more ↦ rw more (
            run_batches-IsEnd fuel (suc k) (resumed s)
              (resumed-IsBefore k s h (sym (over_then_lem k s h) ∙ more)) (omega arith))
      ]
