-- ===== src/Programs/Branches/Rows.antt =====
-- The rows that the test of the branches prints.
use mm_mem.Base.{
  not, ℕ, zero, suc, ◌+◌, ◌-◌, ◌≤◌, ◌≡◌, refl, sym, ap, ◌∙◌, inl, inr, false, some, List, [], ◌∷◌,
  ◌++◌, arith, length, Bool-cases, get_or, get_elem?-get_or,
}
use mathlib.Core.List.{append-nil, append_assoc}
use mm_mem.Base.Returns.{Returns, returns, mono, value_of}
use mm_mem.Text.{Text, to_string}
use mm_mem.Kernels.Branch.{BranchCase, branch_cases, select_cases}
use mm_mem.Kernels.Branch.Taken.{select_cases_bounds}
use mm_mem.Configuration.Settings.{Settings}
use mm_mem.NumaConfig.{NumaConfig}
use mm_mem.WorkerThreads.{Manager, binding_lines}
use mm_mem.Programs.{Floats, Item, text, Routine, Session}
use mm_mem.Programs.Teams.{go_on-Returns}
use mm_mem.Programs.Fields.{fields_of, fields_of-append}
use mm_mem.Programs.Branches.{
  BranchDone, BranchRun, Tally, case_type, tally_sample, sample_row, sample_rows, run_branch_team,
  run_cases, best_lines, run_branch_throughput,
}

-- The fields of a row: the case, the thread, and what the case is.
abbrev pub row_labels : (index tid : ℕ) → BranchCase → List Text
row_labels index tid kernel =
    to_string (index + 1)
    ∷ to_string tid
    ∷ case_type kernel
    ∷ to_string kernel.branches
    ∷ to_string kernel.spacing
    ∷ []

-- The rows of a case: a row for each thread, from `tid` on.
abbrev pub case_labels : (threads index tid : ℕ) → BranchCase → List Text
case_labels zero index tid kernel = []
case_labels (suc threads) index tid kernel =
    row_labels index tid kernel ++ case_labels threads index (tid + 1) kernel

abbrev blank_case : BranchCase
blank_case = record { conditional = false; branches = 0; spacing = 0 }

-- The table: the rows of `n` cases, from `index` on.
pub table_labels : (threads n index : ℕ) → List Text
table_labels threads zero index = []
table_labels threads (suc n) index =
    case_labels threads index 0 (get_or branch_cases index blank_case)
    ++ table_labels threads n (index + 1)

module _ (x : Floats) (W : Type 0) (run : BranchRun x.F W) where
  sample_row-labels :
      (index tid : ℕ) (kernel : BranchCase) (d : BranchDone x.F)
      → fields_of (sample_row x W run index tid kernel d) ≡ row_labels index tid kernel
  unfolding sample_row
  sample_row-labels index tid kernel d = elim (Bool-cases (x.positive d.cycles)) [
    | inl counted ↦ rw counted refl
    | inr failed ↦ rw failed refl
  ]

  sample_rows-labels :
      (index tid : ℕ) (kernel : BranchCase) (done : List (BranchDone x.F)) (t : Tally x.F)
      → fields_of (sample_rows x W run index tid kernel done t).0
        ≡ case_labels (length done) index tid kernel
  unfolding sample_rows
  sample_rows-labels index tid kernel [] t = refl
  sample_rows-labels index tid kernel (d ∷ rest) t =
      fields_of-append (sample_row x W run index tid kernel d) _
      ∙ ap
          (λ l.
            l
            ++ fields_of
                (sample_rows x W run index (tid + 1) kernel rest (tally_sample x W run tid d t)).0)
          (sample_row-labels index tid kernel d)
      ∙ ap (λ l. row_labels index tid kernel ++ l)
          (sample_rows-labels index (tid + 1) kernel rest (tally_sample x W run tid d t))

  best_lines-labels :
      (tid : ℕ) (rates per_cycles : List x.F)
      → fields_of (best_lines x W run tid rates per_cycles) ≡ []
  unfolding best_lines
  best_lines-labels tid [] per_cycles = refl
  best_lines-labels tid (rate ∷ rates) [] = refl
  best_lines-labels tid (rate ∷ rates) (per_cycle ∷ per_cycles) =
      elim (Bool-cases (x.positive per_cycle)) [
        | inl counted ↦ rw counted (best_lines-labels (tid + 1) rates per_cycles)
        | inr failed ↦ rw failed (best_lines-labels (tid + 1) rates per_cycles)
      ]

  -- Every run returns the outputs of all threads.
  unfoldable pub Answers : (threads : ℕ) → Type 0
  Answers threads =
      (manager : Manager Routine) (case_index : ℕ) (sample_duration : x.F) (w : W)
      → Returns (λ (done, w'). length done ≡ threads) (run manager case_index sample_duration w)

  run_branch_team-Returns :
      (threads : ℕ) (manager : Manager Routine) (index : ℕ) (d : x.F) (session : Session x.F W)
      → Answers threads
      → Returns
          (λ (done, session'). (length done ≡ threads) × (session'.out ≡ session.out))
          (run_branch_team x W run manager index d session)
  unfolding Answers
  run_branch_team-Returns threads manager index d session answers =
      let (r, e, size) = value_of (answers manager index d session.world) in
      rw (e, run_branch_team) (returns (size, refl))

  run_cases-labels :
      (threads : ℕ) (manager : Manager Routine) (d : x.F) (n index : ℕ) (t : Tally x.F)
      (session : Session x.F W)
      → Answers threads
      → index + n ≤ length branch_cases
      → Returns
          (λ (t', session').
            fields_of session'.out ≡ fields_of session.out ++ table_labels threads n index)
          (run_cases x W run manager d n index t session)
  unfolding run_cases table_labels
  run_cases-labels threads manager d zero index t session answers h =
      returns (sym (append-nil (fields_of session.out)))
  run_cases-labels threads manager d (suc n) index t session answers h =
      let kernel = get_or branch_cases index blank_case in
      rw (get_elem?-get_or branch_cases index blank_case (omega arith)) (
        go_on-Returns (run_branch_team-Returns threads manager index d session answers)
          λ done s2 (size, same).
            let rows = sample_rows x W run index 0 kernel done t in
            mono (run_cases-labels threads manager d n (index + 1) rows.1 _ answers (omega arith))
              λ r e.
                e
                ∙ ap (λ l. l ++ table_labels threads n (index + 1))
                    (fields_of-append s2.out rows.0
                      ∙ ap (λ out. fields_of out ++ fields_of rows.0) same
                      ∙ ap (λ l. fields_of session.out ++ l)
                          (sample_rows-labels index 0 kernel done t
                            ∙ ap (λ k. case_labels k index 0 kernel) size))
                ∙ append_assoc (fields_of session.out) _ (table_labels threads n (index + 1)))

  -- For a selection of cases that passes the checks, if every run returns the outputs of all
  -- threads, the test of the branches returns and prints a row for each case of the selection and
  -- each thread, in order, with what the table of cases says of it.
  pub run_branch_throughput-labels :
      (s : Settings) (numa : NumaConfig) (session : Session x.F W) (first end : ℕ)
      → select_cases s.num_threads s.target_duration_s s.branch_case ≡ some (first, end)
      → Answers s.num_threads
      → Returns
          (λ (u, session').
            fields_of session'.out
            ≡ fields_of session.out ++ table_labels s.num_threads (end - first) first)
          (run_branch_throughput x W run s numa session)
  unfolding run_branch_throughput
  run_branch_throughput-labels s numa session first end chosen answers =
      let (some_case, of_table, some_thread, which) =
        select_cases_bounds s.num_threads s.target_duration_s s.branch_case first end chosen in
      let lines : List (Item x.F) =
        text (
          binding_lines numa.num_cpus s.num_threads numa.all_allowed_cpus (not s.no_binding)
            s.verbose)
        ∷ [] in
      rw chosen (
        go_on-Returns
          (run_cases-labels s.num_threads _ _ (end - first) first _ _ answers
            (omega (arith, some_case, of_table)))
          λ t s2 e. returns (
            fields_of-append s2.out _
            ∙ ap (λ l. fields_of s2.out ++ l) (best_lines-labels 0 t.peak_rate t.peak_per_cycle)
            ∙ append-nil (fields_of s2.out)
            ∙ e
            ∙ ap (λ l. l ++ table_labels s.num_threads (end - first) first)
                (fields_of-append (session.out ++ lines) _
                  ∙ append-nil (fields_of (session.out ++ lines))
                  ∙ fields_of-append session.out lines
                  ∙ append-nil (fields_of session.out))))
