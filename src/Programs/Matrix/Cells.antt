-- ===== src/Programs/Matrix/Cells.antt =====
-- A matrix is done if its cells are.
use mm_mem.Base.{
  ℕ, zero, suc, ◌+◌, ◌≤◌, ◌<◌, ◌≡◌, refl, inl, inr, false, Option, some, List, arith, length, ◌==◌,
  Bool-cases,
}
use mm_mem.Base.Returns.{Returns, returns}
use mm_mem.Base.Int.{ℤ, ltb_ℤ}
use mm_mem.NumaConfig.{Numa, at, query}
use mm_mem.NumaConfig.Allowed.{at-fill_map, query-allowed}
use mm_mem.Programs.{Session, Program, go_on}
use mm_mem.Programs.Teams.{go_on-Returns}
use mm_mem.Programs.Matrix.{Step, matrix_row, matrix_rows}

-- A step of a program returns.
abbrev pub Ends : {S A : Type 0} → Option (A × S) → Type 0
Ends done = Returns (λ r. Unit {0}) done

pub then-Ends :
    {S A B : Type 0} {done : Option (A × S)} {next : A → Program S B}
    → Ends done
    → ((a : A) (s : S) → Ends (next a s))
    → Ends (go_on done next)
then-Ends ends h = go_on-Returns ends λ a s p. h a s

module _ (F W : Type 0) (numa : Numa) (least : ℤ)
    (cell : (cpus : List ℕ) → (node : ℕ) → Step F W) where
  -- The cells of a row.
  abbrev pub RowDone : List ℕ → Type 0
  RowDone cpus =
      (j : ℕ) (s : Session F W)
      → j < numa.num_nodes
      → ltb_ℤ (numa.node_size j) least ≡ false
      → Ends (cell cpus j s)

  node_to_mem_lem :
      (j : ℕ) → j < numa.num_nodes → at j (query numa).node_to_mem ≡ some (numa.node_size j)
  unfolding query
  node_to_mem_lem j h = at-fill_map numa.node_size numa.num_nodes 0 j (omega arith) (omega arith)

  pub nodes_lem : (query numa).num_numa_nodes ≡ numa.num_nodes
  unfolding query
  nodes_lem = refl

  matrix_row-Returns :
      (cpus : List ℕ) (n j : ℕ) (s : Session F W)
      → RowDone cpus
      → j + n ≤ numa.num_nodes
      → Ends (matrix_row F W (query numa) least cell cpus n j s)
  unfolding matrix_row
  matrix_row-Returns cpus zero j s done h = returns tt
  matrix_row-Returns cpus (suc n) j s done h = elim (Bool-cases (ltb_ℤ (numa.node_size j) least)) [
    | inl small ↦
        rw (node_to_mem_lem j (omega arith), small)
          (matrix_row-Returns cpus n (j + 1) s done (omega arith))
    | inr large ↦
        rw (node_to_mem_lem j (omega arith), large)
          (go_on-Returns (done j s (omega arith) large)
            (λ u s' p. matrix_row-Returns cpus n (j + 1) s' done (omega arith)))
  ]

  pub matrix_rows-Returns :
      (width n i : ℕ) (s : Session F W)
      → ((k : ℕ) (cpus : List ℕ)
          → k < numa.num_nodes
          → at k (query numa).node_to_allowed_cpus ≡ some cpus
          → 0 < length cpus
          → RowDone cpus)
      → i + n ≤ numa.num_nodes
      → Ends (matrix_rows F W (query numa) width least cell n i s)
  unfolding matrix_rows
  matrix_rows-Returns width zero i s done h = returns tt
  matrix_rows-Returns width (suc n) i s done h =
      let (cpus, found, allowed) = query-allowed numa i (omega arith) in
      elim (Bool-cases (length cpus == 0)) [
        | inl no_cpu ↦ rw (found, no_cpu) (matrix_rows-Returns width n (i + 1) s done (omega arith))
        | inr any ↦
            rw (found, any)
              (go_on-Returns
                (matrix_row-Returns cpus (query numa).num_numa_nodes 0 _
                  (done i cpus (omega arith) found (ground arith)) (omega (arith, nodes_lem)))
                (λ u s' p. matrix_rows-Returns width n (i + 1) s' done (omega arith)))
      ]
