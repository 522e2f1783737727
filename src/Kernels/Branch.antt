-- ===== src/Kernels/Branch.antt =====
-- The branch kernels: cpu_micro/kernels_branch.h, and the choice of cases in
-- cpu_micro/cpu_branch_throughput.cc.
pub mod Taken
use mm_mem.Base.{
  ℕ, zero, suc, ◌+◌, ◌-◌, ◌*◌, ◌%◌, ◌^◌, Bool, true, false, ◌||◌, Option, none, some, List, [], ◌∷◌,
  ltb, ◌==◌, if◌then◌else◌, add64, sub64, mul64,
}

-- The taken branches of `count` forward branches, one after the other. An unconditional one is
-- always taken, a conditional one where the counter is not zero.
unfoldable pub forward_taken : (count : ℕ) → (conditional : Bool) → (rounds : ℕ) → ℕ
forward_taken zero conditional rounds = 0
forward_taken (suc count) conditional rounds =
    (if conditional then (if rounds == 0 then 0 else 1) else 1)
    + forward_taken count conditional rounds

-- The loop of the inline assembly: the forward branches, `sub $1`, and `jnz 1b`, which is taken
-- while the counter is not zero. The result is the number of taken branches.
unfoldable pub branch_loop : (branches : ℕ) → (conditional : Bool) → (rounds : ℕ) → ℕ
unfolding forward_taken
branch_loop branches conditional zero = 0
branch_loop branches conditional (suc rounds) =
    forward_taken branches conditional (suc rounds)
    + (if rounds == 0 then 0 else 1)
    + branch_loop branches conditional rounds

unfoldable pub branch_chain : (branches : ℕ) → (conditional : Bool) → (rounds : ℕ) → ℕ
unfolding branch_loop
branch_chain branches conditional rounds =
    if rounds == 0 then 0 else branch_loop branches conditional rounds

pub record BranchCase : Type 0 where
  pub conditional : Bool
  pub branches : ℕ
  pub spacing : ℕ

-- `BRANCH_CASE(N, A, C)`
abbrev branch_case : (n a : ℕ) → Bool → BranchCase
branch_case n a c = record { conditional = c; branches = n; spacing = 2 ^ a }

unfoldable pub branch_cases : List BranchCase
branch_cases =
    branch_case 8 4 false
    ∷ branch_case 32 4 false
    ∷ branch_case 128 4 false
    ∷ branch_case 8 6 false
    ∷ branch_case 32 6 false
    ∷ branch_case 128 6 false
    ∷ branch_case 8 4 true
    ∷ branch_case 32 4 true
    ∷ branch_case 128 4 true
    ∷ branch_case 8 6 true
    ∷ branch_case 32 6 true
    ∷ branch_case 128 6 true
    ∷ []

abbrev pub branch_case_count : ℕ
branch_case_count = 12

-- `branches + 1` is of the type `unsigned`.
unfoldable pub taken_branches : (branches rounds : ℕ) → ℕ
taken_branches branches rounds =
    if rounds == 0 then 0 else sub64 (mul64 rounds ((branches + 1) % 2 ^ 32)) 1

-- The checks of `main` and the range `[first, end)` of the cases that it runs; `none` is the exit
-- with an error.
unfoldable pub select_cases : (num_threads target_duration branch_case : ℕ) → Option (ℕ × ℕ)
select_cases num_threads target_duration chosen =
    if num_threads == 0 || target_duration == 0 || ltb branch_case_count chosen
    then none
    else if chosen == 0
    then some (0, branch_case_count)
    else some (chosen - 1, chosen)
