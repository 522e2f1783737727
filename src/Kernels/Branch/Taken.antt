-- ===== src/Kernels/Branch/Taken.antt =====
-- The closed formula for the taken branches, and the range of the cases.
use mm_mem.Base.{
  ℕ, zero, suc, ◌+◌, ◌*◌, ◌^◌, ◌≤◌, ◌<◌, ◌≡◌, refl, ◌⊎◌, Bool, true, false, some, arith, length,
  sub64, mul64,
}
use mm_mem.Kernels.Branch.{
  forward_taken, branch_loop, branch_chain, branch_cases, taken_branches, select_cases,
}

-- In the loop the counter is not zero, so every forward branch is taken.
forward_taken-suc :
    (count : ℕ) (conditional : Bool) (rounds : ℕ)
    → forward_taken count conditional (suc rounds) ≡ count
unfolding forward_taken
forward_taken-suc zero conditional rounds = refl
forward_taken-suc (suc count) true rounds = ground (arith, forward_taken-suc count true rounds)
forward_taken-suc (suc count) false rounds = ground (arith, forward_taken-suc count false rounds)

branch_loop-suc :
    (branches : ℕ) (conditional : Bool) (rounds : ℕ)
    → branch_loop branches conditional (suc rounds) + 1 ≡ suc rounds * (branches + 1)
unfolding branch_loop
branch_loop-suc branches conditional zero =
    omega (arith, forward_taken-suc branches conditional zero)
branch_loop-suc branches conditional (suc rounds) = grind (
  arith,
  forward_taken-suc branches conditional (suc rounds),
  branch_loop-suc branches conditional rounds,
)

-- Unless the product wraps around and if one more than the branches has 32 bits, taken_branches is
-- the number of taken branches that a run of branch_chain executes.
pub taken_branches-branch_chain :
    (branches rounds : ℕ) (conditional : Bool)
    → branches + 1 < 2 ^ 32
    → rounds * (branches + 1) < 2 ^ 64
    → taken_branches branches rounds ≡ branch_chain branches conditional rounds
unfolding taken_branches branch_chain sub64 mul64
taken_branches-branch_chain branches zero conditional small fits = ground arith
taken_branches-branch_chain branches (suc rounds) conditional small fits =
    ground (arith, branch_loop-suc branches conditional rounds)

-- A selection that passes the checks has at least one case and only cases of the table: all, or
-- the chosen one; and there is a thread.
pub select_cases_bounds :
    (num_threads target_duration chosen first end : ℕ)
    → select_cases num_threads target_duration chosen ≡ some (first, end)
    → (first < end)
      × (end ≤ length branch_cases)
      × (0 < num_threads)
      × ((chosen ≡ 0) ⊎ ((first + 1 ≡ chosen) × (end ≡ chosen)))
unfolding select_cases branch_cases
select_cases_bounds num_threads target_duration chosen first end h = ground arith
