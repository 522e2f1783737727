-- ===== src/Programs/Matrix.antt =====
-- The matrices of cpu_micro/cpu_idle_latency.cc and cpu_micro/cpu_peak_bandwidth.cc: a row for each
-- node that has cpus to run on, and a cell for each node with enough memory. The loops of the two
-- programs are the same but for the widths, the least memory and what is done in a cell.
pub mod Cells
pub mod Pinned
use mm_mem.Base.{ℕ, zero, suc, ◌+◌, Bool, List, [], ◌∷◌, ◌++◌, length, ◌==◌, if◌then◌else◌}
use mm_mem.Base.Int.{ℤ, pos, ltb_ℤ}
use mm_mem.Text.{Text, codes, to_string}
use mm_mem.NumaConfig.{NumaConfig, at}
use mm_mem.Programs.{Item, text, field, Session, Program, ◌>>=◌, ◌>>◌, pure, lift, print}

abbrev pub node_label : ℕ → Text
node_label j = codes "Node-" ++ to_string j

module _ (F W : Type 0) where
  abbrev pub Step : Type 0
  Step = Program (Session F W) Unit

  -- The labels of the columns from `j` on.
  unfoldable pub matrix_header : (n j : ℕ) → List (Item F)
  matrix_header zero j = []
  matrix_header (suc n) j = field 10 (node_label j) ∷ matrix_header n (j + 1)

  -- A cell for each node from `j` on that has enough memory.
  unfoldable pub matrix_row :
      NumaConfig
      → (least : ℤ) → (cell : (cpus : List ℕ) → (node : ℕ) → Step) → (cpus : List ℕ) → (n j : ℕ)
      → Step
  matrix_row numa least cell cpus zero j = pure tt
  matrix_row numa least cell cpus (suc n) j = do
    memory ← lift (at j numa.node_to_mem)
    let rest = matrix_row numa least cell cpus n (j + 1)
    if ltb_ℤ memory least then rest else (cell cpus j >> rest)

  -- A row for each node from `i` on that has cpus to run on.
  unfoldable pub matrix_rows :
      NumaConfig
      → (width : ℕ) → (least : ℤ) → (cell : (cpus : List ℕ) → (node : ℕ) → Step) → (n i : ℕ) → Step
  unfolding matrix_row
  matrix_rows numa width least cell zero i = pure tt
  matrix_rows numa width least cell (suc n) i = do
    cpus ← lift (at i numa.node_to_allowed_cpus)
    let rest = matrix_rows numa width least cell n (i + 1)
    let row = do
      print (text (codes "\n") ∷ field width (node_label i) ∷ [])
      matrix_row numa least cell cpus numa.num_numa_nodes 0
      rest
    if length cpus == 0 then rest else row
