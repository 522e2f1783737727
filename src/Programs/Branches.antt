-- ===== src/Programs/Branches.antt =====
-- The test of the branches, cpu_micro/cpu_branch_throughput.cc, behind the parsing of its options.
pub mod Rows
use mm_mem.Base.{
  ℕ, zero, suc, ◌+◌, ◌-◌, ◌^◌, Bool, true, false, not, Option, none, some, List, [], ◌∷◌, ◌++◌,
  if◌then◌else◌, get_elem?, get_or, set, replicate,
}
use mm_mem.Text.{Text, codes, to_string}
use mm_mem.Kernels.Branch.{BranchCase, branch_cases, select_cases}
use mm_mem.Configuration.Settings.{Settings}
use mm_mem.NumaConfig.{NumaConfig}
use mm_mem.WorkerThreads.{Manager, make_manager, binding_lines, set_routine}
use mm_mem.Programs.{
  Floats, Item, text, field, number, Routine, Session, Program, ◌>>=◌, ◌>>◌, pure, lift, print,
}
use mm_mem.Programs.Matrix.{Step}

-- The outputs of a packet.
pub record BranchDone (F : Type 0) : Type 0 where
  pub finished_branches : ℕ
  pub exec_time : F
  pub cycles : F
  pub counter_error : Text

-- What the threads do in a run, with this case and this duration in their packets.
abbrev pub BranchRun : Type 0 → Type 0 → Type 0
BranchRun F W =
    Manager Routine
    → (case_index : ℕ) → (sample_duration : F) → W
    → Option (List (BranchDone F) × W)

-- What `main` has found so far; the warning is the error of the counter that it told of.
pub record Tally (F : Type 0) : Type 0 where
  pub peak_rate : List F
  pub peak_per_cycle : List F
  pub counter_warning : Option Text

-- The type of a case
unfoldable pub case_type : BranchCase → Text
case_type kernel = if kernel.conditional then codes "conditional" else codes "unconditional"

abbrev pub first_warning : Option Text → Text → Option Text
first_warning none error = some error
first_warning (some told) error = some told

module _ (x : Floats) (W : Type 0) (run : BranchRun x.F W) where
  -- `finished_branches / exec_time / 1e9`
  unfoldable pub rate_of : BranchDone x.F → x.F
  rate_of d = x.div (x.div (x.of_nat d.finished_branches) d.exec_time) (x.of_nat (10 ^ 9))

  unfoldable pub per_cycle_of : BranchDone x.F → x.F
  per_cycle_of d = x.div (x.of_nat d.finished_branches) d.cycles

  abbrev pub raise : List x.F → (tid : ℕ) → x.F → List x.F
  raise peaks tid v = set peaks tid (x.max (get_or peaks tid v) v)

  unfoldable pub tally_sample : (tid : ℕ) → BranchDone x.F → Tally x.F → Tally x.F
  unfolding rate_of per_cycle_of
  tally_sample tid d t =
      if x.positive d.cycles
      then record t {
        peak_rate = raise t.peak_rate tid (rate_of d);
        peak_per_cycle = raise t.peak_per_cycle tid (per_cycle_of d);
      }
      else record t {
        peak_rate = raise t.peak_rate tid (rate_of d);
        counter_warning = first_warning t.counter_warning d.counter_error;
      }

  -- A row of the table
  unfoldable pub sample_row : (index tid : ℕ) → BranchCase → BranchDone x.F → List (Item x.F)
  unfolding rate_of per_cycle_of case_type
  sample_row index tid kernel d =
      let per_cycle = per_cycle_of d in
      (field 4 (to_string (index + 1))
        ∷ field 7 (to_string tid)
        ∷ text (codes " ")
        ∷ field 13 (case_type kernel)
        ∷ field 6 (to_string kernel.branches)
        ∷ field 8 (to_string kernel.spacing)
        ∷ number 8 3 (rate_of d)
        ∷ [])
      ++ (if x.positive d.cycles
          then number 11 3 per_cycle ∷ number 10 3 (x.div (x.of_nat 1) per_cycle) ∷ []
          else text (codes "        n/a       n/a") ∷ [])
      ++ (text (codes "\n") ∷ [])

  -- The loop over the threads, from `tid` on
  unfoldable pub sample_rows :
      (index tid : ℕ) → BranchCase → List (BranchDone x.F) → Tally x.F → List (Item x.F) × Tally x.F
  unfolding tally_sample sample_row
  sample_rows index tid kernel [] t = ([], t)
  sample_rows index tid kernel (d ∷ rest) t =
      let (rows, t') = sample_rows index (tid + 1) kernel rest (tally_sample tid d t) in
      (sample_row index tid kernel d ++ rows, t')

  abbrev pub run_branch_team :
      Manager Routine → (case_index : ℕ) → x.F → Program (Session x.F W) (List (BranchDone x.F))
  run_branch_team manager case_index sample_duration session =
      elim (run manager case_index sample_duration session.world) [
        | none ↦ none
        | some (done, world) ↦ some (done, record session { world = world })
      ]

  -- The loop over the cases, `n` of them from `index` on
  unfoldable pub run_cases :
      Manager Routine
      → (sample_duration : x.F) → (n index : ℕ) → Tally x.F
      → Program (Session x.F W) (Tally x.F)
  unfolding branch_cases sample_rows
  run_cases manager sample_duration zero index t = pure t
  run_cases manager sample_duration (suc n) index t = do
    kernel ← lift (get_elem? branch_cases index)
    done ← run_branch_team manager index sample_duration
    let (rows, t') = sample_rows index 0 kernel done t
    print rows
    run_cases manager sample_duration n (index + 1) t'

  -- The best of each thread, from `tid` on
  unfoldable pub best_lines : (tid : ℕ) → (peak_rate peak_per_cycle : List x.F) → List (Item x.F)
  best_lines tid (rate ∷ rates) (per_cycle ∷ per_cycles) =
      (text (codes "Best observed thread ")
        ∷ text (to_string tid)
        ∷ text (codes ": ")
        ∷ number 0 3 rate
        ∷ text (codes " GBr/s")
        ∷ [])
      ++ (if x.positive per_cycle
          then text (codes "; ") ∷ number 0 3 per_cycle ∷ text (codes " Br/cycle") ∷ []
          else [])
      ++ (text (codes " (independent maxima across tested cases)\n") ∷ [])
      ++ best_lines (tid + 1) rates per_cycles
  best_lines tid rates per_cycles = []

  -- `main`, behind `dump` but for its checks, which stand in front of it
  unfoldable pub run_branch_throughput : Settings → NumaConfig → Step x.F W
  unfolding select_cases run_cases best_lines make_manager binding_lines set_routine
  run_branch_throughput s numa = do
    range ← lift (select_cases s.num_threads s.target_duration_s s.branch_case)
    let manager =
        set_routine Routine.branch_tp
          (make_manager numa.num_cpus s.num_threads numa.all_allowed_cpus (not s.no_binding))
    print (
        text (
          binding_lines numa.num_cpus s.num_threads numa.all_allowed_cpus (not s.no_binding)
            s.verbose)
        ∷ [])
    let blank = replicate s.num_threads (x.of_nat 0)
    print (
        text (codes "Predictable taken branches; duration split across cases; rates per worker.\n")
        ∷ text (codes "case thread type          chain spacing   GBr/s   Br/cycle cycles/Br\n")
        ∷ [])
    t ←
        run_cases manager (x.div (x.of_nat s.target_duration_s) (x.of_nat (range.1 - range.0)))
          (range.1 - range.0) range.0
          (record { peak_rate = blank; peak_per_cycle = blank; counter_warning = none })
    print (best_lines 0 t.peak_rate t.peak_per_cycle)
