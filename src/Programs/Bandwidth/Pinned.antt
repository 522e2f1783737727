-- ===== src/Programs/Bandwidth/Pinned.antt =====
-- The runs that the bandwidth matrix asks for.
use mm_mem.Base.{
  ℕ, ◌^◌, ◌<◌, ◌≡◌, true, false, some, List, [], ◌∷◌, arith, length, leb, if◌then◌else◌,
}
use mm_mem.Base.Returns.{Returns, returns}
use mm_mem.Base.Int.{ℤ, pos, ltb_ℤ}
use mm_mem.Configuration.Settings.{Settings}
use mm_mem.NumaConfig.{Numa, at, query}
use mm_mem.Programs.{Floats, Routine, Team, Session, Run, make_team}
use mm_mem.Programs.Teams.{go_on-Returns}
use mm_mem.Programs.Matrix.Cells.{Ends, RowDone, then-Ends, matrix_rows-Returns, nodes_lem}
use mm_mem.Programs.Matrix.Pinned.{
  IsMatrixTeam, RunsEnd, run_team-Ends, changed-IsMatrixTeam, cell-IsMatrixTeam,
}
use mm_mem.Kernels.Code.{Code}
use mm_mem.Kernels.Bandwidth.{get_kernels_with_wrmix}
use mm_mem.Programs.Bandwidth.Kernels.{first_again-some, some_kernel}
use mm_mem.Programs.Bandwidth.{
  setup_memory_regions_peak_bandwidth, bandwidth_job, measure_peak_bandwidth, run_mixes,
  run_bandwidth, bandwidth_cell, bandwidth_matrix, run_peak_bandwidth,
}

module _ (x : Floats) (W : Type 0) (run : Run x.F W) (s : Settings) (numa : Numa) where
  -- The least memory of a node in the matrix, 2 GiB
  abbrev pub least : ℤ
  least = pos (2 ^ 31)

  measure_peak_bandwidth-Ends :
      (t : Team) (kernel : Code) (mix last : ℕ) (session : Session x.F W)
      → RunsEnd run (IsMatrixTeam s numa least)
      → IsMatrixTeam s numa least t
      → Returns
          (λ (r, session'). IsMatrixTeam s numa least r.1)
          (measure_peak_bandwidth x W run s (query numa) t kernel mix last session)
  unfolding measure_peak_bandwidth bandwidth_job
  measure_peak_bandwidth-Ends t kernel mix last session ends h =
      let next =
        changed-IsMatrixTeam s numa least Routine.bw_sequential
          (bandwidth_job x W run s (query numa) kernel mix last) t
          (λ node j p. record { size = p.size; pattern = p.pattern; memory = p.memory }) h in
      go_on-Returns (run_team-Ends run _ _ session ends next) λ done session' p. returns next

  setup-Ends :
      (i j : ℕ) (cpus : List ℕ) (session : Session x.F W)
      → RunsEnd run (IsMatrixTeam s numa least)
      → i < numa.num_nodes
      → at i (query numa).node_to_allowed_cpus ≡ some cpus
      → 0 < length cpus
      → j < numa.num_nodes
      → ltb_ℤ (numa.node_size j) least ≡ false
      → let threads = if leb s.num_threads (length cpus) then s.num_threads else length cpus in
        Returns
          (λ (t, session'). IsMatrixTeam s numa least t)
          (setup_memory_regions_peak_bandwidth x W run s
            (query numa)
            (make_team (query numa).num_cpus threads cpus true)
            (pos j)
            session)
  unfolding setup_memory_regions_peak_bandwidth
  setup-Ends i j cpus session ends a_node allowed some_cpu a_memory_node large =
      let team =
        cell-IsMatrixTeam s numa least Routine.mem_region_alloc_bw (query numa).num_cpus i j cpus
          a_node allowed some_cpu a_memory_node large in
      go_on-Returns (run_team-Ends run _ _ session ends team) λ done session' p. returns team

  run_mixes-Ends :
      (items : List (ℕ × Code)) (t : Team) (last : ℕ) (session : Session x.F W)
      → RunsEnd run (IsMatrixTeam s numa least)
      → IsMatrixTeam s numa least t
      → Ends (run_mixes x W run s (query numa) items t last session)
  unfolding run_mixes
  run_mixes-Ends [] t last session ends h = returns tt
  run_mixes-Ends ((mix, kernel) ∷ rest) t last session ends h =
      go_on-Returns (measure_peak_bandwidth-Ends t kernel mix last session ends h)
        λ r s2 h2. run_mixes-Ends rest r.1 r.0 s2 ends h2

  bandwidth_cell-RowDone :
      (i : ℕ) (cpus : List ℕ)
      → RunsEnd run (IsMatrixTeam s numa least)
      → i < numa.num_nodes
      → at i (query numa).node_to_allowed_cpus ≡ some cpus
      → 0 < length cpus
      → RowDone x.F W numa least (bandwidth_cell x W run s (query numa)) cpus
  unfolding bandwidth_cell run_bandwidth
  bandwidth_cell-RowDone i cpus ends a_node allowed some_cpu j session a_memory_node large =
      let (items, found) =
        first_again-some (get_kernels_with_wrmix s.read_write_mix) (some_kernel s.read_write_mix) in
      go_on-Returns (setup-Ends i j cpus _ ends a_node allowed some_cpu a_memory_node large)
        λ t s2 h. rw found (run_mixes-Ends items t 0 s2 ends h)

  bandwidth_matrix-Ends :
      (session : Session x.F W)
      → RunsEnd run (IsMatrixTeam s numa least)
      → Ends (bandwidth_matrix x W run s (query numa) session)
  unfolding bandwidth_matrix
  bandwidth_matrix-Ends session ends =
      let cell = bandwidth_cell x W run s (query numa) in
      then-Ends
        (matrix_rows-Returns x.F W numa least cell 25 (query numa).num_numa_nodes 0 _
          (λ i cpus. bandwidth_cell-RowDone i cpus ends)
          (omega (arith, nodes_lem x.F W numa least cell)))
        λ u s2. returns tt

  -- On the topology that query gives, the bandwidth matrix ends if every run ends of a team with
  -- no more threads than wanted or than cpus, each with a packet and a routine and bound to a cpu
  -- of one node that the process may use, its regions configured on a node of at least 2 GiB: it
  -- asks for no other run, looks up no node that is missing, and has a kernel for every mix.
  pub run_peak_bandwidth-Ends :
      (session : Session x.F W)
      → s.bandwidth_matrix ≡ true
      → RunsEnd run (IsMatrixTeam s numa least)
      → Ends (run_peak_bandwidth x W run s (query numa) session)
  unfolding run_peak_bandwidth
  run_peak_bandwidth-Ends session matrix ends =
      simp matrix (then-Ends (bandwidth_matrix-Ends session ends) λ u s2. returns tt)
