-- ===== src/Programs/Latency/Pinned.antt =====
-- The runs that the latency matrix asks for.
use mm_mem.Base.{ℕ, ◌^◌, ◌<◌, ◌≡◌, true, false, some, List, arith, length, leb, if◌then◌else◌}
use mm_mem.Base.Returns.{Returns, returns}
use mm_mem.Base.Int.{ℤ, pos, ltb_ℤ}
use mm_mem.Configuration.Settings.{Settings}
use mm_mem.NumaConfig.{Numa, at, query}
use mm_mem.Programs.{Floats, Routine, Team, Session, Run, make_team}
use mm_mem.Programs.Teams.{go_on-Returns}
use mm_mem.Programs.Matrix.Cells.{Ends, RowDone, then-Ends, matrix_rows-Returns, nodes_lem}
use mm_mem.Programs.Matrix.Pinned.{
  IsMatrixTeam, RunsEnd, run_team-Ends, changed-IsMatrixTeam, cell-IsMatrixTeam,
}
use mm_mem.Programs.Latency.{
  setup_memory_regions_idle_latency, latency_job, measure_idle_latency, run_latency, latency_cell,
  latency_matrix, run_idle_latency,
}

module _ (x : Floats) (W : Type 0) (run : Run x.F W) (s : Settings) (numa : Numa) where
  -- The least memory of a node in the matrix, 1 GiB
  abbrev pub least : ℤ
  least = pos (2 ^ 30)

  measure_idle_latency-Ends :
      (t : Team) (last : ℕ) (session : Session x.F W)
      → RunsEnd run (IsMatrixTeam s numa least)
      → IsMatrixTeam s numa least t
      → Returns
          (λ (r, session'). IsMatrixTeam s numa least r.1)
          (measure_idle_latency x W run s t last session)
  unfolding measure_idle_latency latency_job
  measure_idle_latency-Ends t last session ends h =
      let next =
        changed-IsMatrixTeam s numa least Routine.lat_ptr (latency_job x W run s last) t
          (λ node j p. record { size = p.size; pattern = p.pattern; memory = p.memory }) h in
      go_on-Returns (run_team-Ends run _ _ session ends next) λ done session' p. returns next

  setup-Ends :
      (i j : ℕ) (cpus : List ℕ) (session : Session x.F W)
      → RunsEnd run (IsMatrixTeam s numa least)
      → i < numa.num_nodes
      → at i (query numa).node_to_allowed_cpus ≡ some cpus
      → 0 < length cpus
      → j < numa.num_nodes
      → ltb_ℤ (numa.node_size j) least ≡ false
      → let threads = if leb s.num_threads (length cpus) then s.num_threads else length cpus in
        Returns
          (λ (t, session'). IsMatrixTeam s numa least t)
          (setup_memory_regions_idle_latency x W run s
            (make_team (query numa).num_cpus threads cpus true)
            (pos j)
            session)
  unfolding setup_memory_regions_idle_latency
  setup-Ends i j cpus session ends a_node allowed some_cpu a_memory_node large =
      let team =
        cell-IsMatrixTeam s numa least Routine.mem_region_alloc_lat (query numa).num_cpus i j cpus
          a_node allowed some_cpu a_memory_node large in
      go_on-Returns (run_team-Ends run _ _ session ends team) λ done session' p. returns team

  run_latency-Ends :
      (t : Team) (session : Session x.F W)
      → RunsEnd run (IsMatrixTeam s numa least)
      → IsMatrixTeam s numa least t
      → Ends (run_latency x W run s t session)
  unfolding run_latency
  run_latency-Ends t session ends h =
      go_on-Returns (measure_idle_latency-Ends t 0 session ends h) λ calibrated s2 h2.
        go_on-Returns (measure_idle_latency-Ends _ _ s2 ends h2) λ measured s3 h3. returns tt

  -- A cell of the matrix ends.
  latency_cell-RowDone :
      (i : ℕ) (cpus : List ℕ)
      → RunsEnd run (IsMatrixTeam s numa least)
      → i < numa.num_nodes
      → at i (query numa).node_to_allowed_cpus ≡ some cpus
      → 0 < length cpus
      → RowDone x.F W numa least (latency_cell x W run s (query numa)) cpus
  unfolding latency_cell
  latency_cell-RowDone i cpus ends a_node allowed some_cpu j session a_memory_node large =
      go_on-Returns (setup-Ends i j cpus _ ends a_node allowed some_cpu a_memory_node large)
        λ t s2 h. run_latency-Ends t s2 ends h

  -- On the topology that query gives, the latency matrix ends if every run ends of a team with no
  -- more threads than wanted or than cpus, each with a packet and a routine and bound to a cpu of
  -- one node that the process may use, its regions configured on a node of at least 1 GiB: it asks
  -- for no other run, and looks up no node that is missing.
  pub run_idle_latency-Ends :
      (session : Session x.F W)
      → s.latency_matrix ≡ true
      → RunsEnd run (IsMatrixTeam s numa least)
      → Ends (run_idle_latency x W run s (query numa) session)
  unfolding run_idle_latency latency_matrix
  run_idle_latency-Ends session matrix ends =
      let cell = latency_cell x W run s (query numa) in
      rw matrix (
        then-Ends
          (then-Ends
            (matrix_rows-Returns x.F W numa least cell 40 (query numa).num_numa_nodes 0 _
              (λ i cpus. latency_cell-RowDone i cpus ends)
              (omega (arith, nodes_lem x.F W numa least cell)))
            λ u s2. returns tt)
          λ u s3. returns tt)
