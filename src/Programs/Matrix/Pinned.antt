-- ===== src/Programs/Matrix/Pinned.antt =====
-- The teams that the cells of a matrix run.
use mm_mem.Base.{
  ℕ, ◌≤◌, ◌<◌, ◌≡◌, refl, true, false, some, List, map, arith, length, leb, if◌then◌else◌,
}
use mm_mem.Base.Returns.{Returns, returns, value_of}
use mm_mem.Base.Int.{ℤ, pos, ltb_ℤ}
use mm_mem.Configuration.Settings.{Settings}
use mm_mem.NumaConfig.{Numa, at, query}
use mm_mem.Programs.{
  Routine, Job, Team, Session, run_team, Run, make_team, prepare_team, assign_routine,
}
use mm_mem.WorkerThreads.{set_routine, make_manager}
use mm_mem.Programs.Teams.{
  IsPlaced, IsTeam, IsAssigned, assign_routine-IsTeam, change_jobs-IsTeam, make_team-IsTeam,
}
use mm_mem.Programs.Matrix.Cells.{Ends}

-- A team that a cell of a matrix may run: its threads stand on distinct places of the cpus of a node
-- that the process may use, and its memory on a node with at least `least` bytes.
pub record IsMatrixTeam (s : Settings) (numa : Numa) (least : ℤ) (t : Team) : Type 0 where
  pub cpu_node : ℕ
  pub cpus : List ℕ
  pub a_node : cpu_node < numa.num_nodes
  pub allowed : at cpu_node (query numa).node_to_allowed_cpus ≡ some cpus
  pub memory_node : ℕ
  pub a_memory_node : memory_node < numa.num_nodes
  pub large : ltb_ℤ (numa.node_size memory_node) least ≡ false
  pub team : IsTeam s cpus (pos memory_node) t
  pub as_wanted : t.manager.num_threads ≤ s.num_threads
  pub routine : Routine
  pub assigned : IsAssigned routine t

-- Every run of such a team returns.
unfoldable pub RunsEnd : {F W : Type 0} → Run F W → (good : Team → Type 0) → Type 0
RunsEnd run good = (t : Team) (w : _) → good t → Returns (λ r. Unit {0}) (run t w)

pub run_team-Ends :
    {F W : Type 0} (run : Run F W) (good : Team → Type 0) (t : Team) (session : Session F W)
    → RunsEnd run good
    → good t
    → Ends (run_team run t session)
unfolding RunsEnd
run_team-Ends run good t session ends h =
    let (r, e, p) = value_of (ends t session.world h) in rw (e, run_team) (returns tt)

module _ (s : Settings) (numa : Numa) (least : ℤ) where
  -- What a measurement does to the team.
  pub changed-IsMatrixTeam :
      (routine : Routine) (f : Job → Job) (t : Team)
      → ((node : ℤ) (j : Job) → IsPlaced s node j → IsPlaced s node (f j))
      → IsMatrixTeam s numa least t
      → IsMatrixTeam s numa least (assign_routine routine (record t { jobs = map f t.jobs }))
  unfolding assign_routine set_routine
  changed-IsMatrixTeam routine f t keeps h =
      let node = pos h.memory_node in
      let (team, assigned) =
        assign_routine-IsTeam s h.cpus node routine (record t { jobs = map f t.jobs })
          (change_jobs-IsTeam s h.cpus node f t (keeps node) h.team) in
      record {
        cpu_node = h.cpu_node;
        cpus = h.cpus;
        a_node = h.a_node;
        allowed = h.allowed;
        memory_node = h.memory_node;
        a_memory_node = h.a_memory_node;
        large = h.large;
        team = team;
        as_wanted = h.as_wanted;
        routine = routine;
        assigned = assigned;
      }

  -- `std::min(config.num_threads, node_cpu_count)`
  threads_le :
      (wanted cpus : ℕ)
      → ((if leb wanted cpus then wanted else cpus) ≤ wanted)
        × ((if leb wanted cpus then wanted else cpus) ≤ cpus)
  threads_le wanted cpus = ground arith

  crew_size :
      (routine : Routine) (node : ℤ) (hardware_concurrency threads : ℕ) (cpus : List ℕ)
      → (assign_routine routine (
          prepare_team s node
            (make_team hardware_concurrency threads cpus true))).manager.num_threads
        ≡ threads
  unfolding assign_routine set_routine prepare_team make_team make_manager
  crew_size routine node hardware_concurrency threads cpus = refl

  -- The team of a cell
  pub cell-IsMatrixTeam :
      (routine : Routine) (hardware_concurrency i j : ℕ) (cpus : List ℕ)
      → i < numa.num_nodes
      → at i (query numa).node_to_allowed_cpus ≡ some cpus
      → 0 < length cpus
      → j < numa.num_nodes
      → ltb_ℤ (numa.node_size j) least ≡ false
      → let threads = if leb s.num_threads (length cpus) then s.num_threads else length cpus in
        IsMatrixTeam s numa least (
          assign_routine routine
            (prepare_team s (pos j) (make_team hardware_concurrency threads cpus true)))
  cell-IsMatrixTeam routine hardware_concurrency i j cpus a_node allowed some_cpu a_memory_node
        large =
      let threads = if leb s.num_threads (length cpus) then s.num_threads else length cpus in
      let (as_wanted, enough) = threads_le s.num_threads (length cpus) in
      let made = make_team-IsTeam s cpus (pos j) hardware_concurrency threads enough some_cpu in
      let (team, assigned) = assign_routine-IsTeam s cpus (pos j) routine _ made in
      record {
        cpu_node = i;
        cpus = cpus;
        a_node = a_node;
        allowed = allowed;
        memory_node = j;
        a_memory_node = a_memory_node;
        large = large;
        team = team;
        as_wanted =
            omega (arith, as_wanted, crew_size routine (pos j) hardware_concurrency threads cpus);
        routine = routine;
        assigned = assigned;
      }
