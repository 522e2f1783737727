-- ===== src/Workers/Branch/Samples.antt =====
-- The worker for the branches as a whole.
use mm_mem.Base.{
  ℕ, ◌-◌, ◌*◌, ◌^◌, ◌≤◌, ◌<◌, ◌≡◌, refl, ap, ◌∙◌, Bool, true, false, some, arith, get_elem?,
  get_elem?-All, mul64, sub64,
}
use native.Mathlib.Nat.{mul-le-mul_left}
use mm_mem.Base.Returns.{Returns, returns, bind}
use mm_mem.Kernels.Branch.{BranchCase, branch_cases, branch_chain, taken_branches}
use mm_mem.Kernels.Branch.Taken.{taken_branches-branch_chain}
use mm_mem.Workers.Timer.{Clock, new_timer, start_timer}
use mm_mem.Workers.Timer.Elapsed.{IsClock}
use mm_mem.Workers.CycleCounter.{Perf}
use mm_mem.Workers.CycleCounter.Sound.{count_cycles}
use mm_mem.Workers.Branch.{Outputs, branch_tp, batch_rounds}
use mm_mem.Workers.Branch.Batches.{run_batches-IsEnd}

-- What the worker has written when it has run `n` batches of the case.
pub record IsSampled (clock : Clock) (over : ℕ → Bool) (last : ℕ) (kernel : BranchCase)
    (o : Outputs) : Type 0 where
  pub batches : ℕ
  pub some_batch : 0 < batches
  pub in_time : batches ≤ last
  pub all_counted :
      o.finished_branches ≡ batches * branch_chain kernel.branches kernel.conditional batch_rounds
  pub elapsed : o.exec_time_ns ≡ clock batches - clock 0
  pub over_then : over o.exec_time_ns ≡ true
  pub not_before : (m : ℕ) → 0 < m → m < batches → over (clock m - clock 0) ≡ false

-- No case of the table has more branches.
branch_cases_small :
    (i : ℕ) (kernel : BranchCase) → get_elem? branch_cases i ≡ some kernel → kernel.branches ≤ 128
unfolding branch_cases
branch_cases_small i kernel e =
    get_elem?-All (λ c. c.branches ≤ 128) branch_cases i kernel (ground arith) e

batch_small : (branches : ℕ) → branches ≤ 128 → taken_branches branches batch_rounds ≤ 2 ^ 24
unfolding taken_branches mul64 sub64
batch_small branches h = omega arith

-- For a case of the table, on a clock that does not go back and stays below 2^63, whose reading
-- `last`, between 1 and 2^40, is late enough, branch_tp returns for every fuel of at least `last`;
-- it ends with the first batch at whose end the sample is over, has counted the taken branches
-- that its batches execute, and reports what the cycle counter says.
pub branch_tp-Returns :
    (perf : Perf) (clock : Clock) (over : ℕ → Bool) (fuel case_index last : ℕ) (kernel : BranchCase)
    → get_elem? branch_cases case_index ≡ some kernel
    → IsClock clock
    → over (clock last - clock 0) ≡ true
    → 0 < last
    → last ≤ fuel
    → last < 2 ^ 40
    → Returns
        (λ o.
          IsSampled clock over last kernel o
          × (o.cycles ≡ (count_cycles perf).1)
          × (o.counter_error ≡ (count_cycles perf).0.error))
        (branch_tp perf clock over fuel case_index)
unfolding branch_tp count_cycles new_timer start_timer
branch_tp-Returns perf clock over fuel case_index last kernel found ok late pos enough small =
    let batch = taken_branches kernel.branches batch_rounds in
    let few = branch_cases_small case_index kernel found in
    let room : last * batch < 2 ^ 64 =
      omega
        (arith, mul-le-mul_left {m = batch} {n = 2 ^ 24} last (batch_small kernel.branches few)) in
    rw found (
      bind
        (run_batches-IsEnd clock over batch last ok late room fuel 0 _
          (record {
            early = pos;
            reading = refl;
            began = refl;
            elapsed = omega arith;
            finished = omega arith;
            not_over = λ m more none. absurd (omega (arith, more, none));
          })
          (omega arith))
        λ s (n, e). returns (
          record {
            batches = n;
            some_batch = e.some_batch;
            in_time = e.in_time;
            all_counted =
                e.finished
                ∙ ap (λ b. n * b)
                    (taken_branches-branch_chain kernel.branches batch_rounds kernel.conditional
                      (omega (arith, few)) (omega (arith, few)));
            elapsed = e.elapsed;
            over_then = ap over e.elapsed ∙ e.over_then;
            not_before = e.not_before;
          },
          refl,
          refl,
        ))
