-- ===== src/Programs/Teams.antt =====
-- The teams that the programs run, and what keeps them as they are.
use mm_mem.Base.{
  ℕ, zero, suc, ◌+◌, ◌≤◌, ◌<◌, ◌≡◌, refl, ap, ◌∙◌, true, Option, none, some, List, length-replicate,
  [], ◌∷◌, map, length, get_elem?, All,
}
use mathlib.Core.List.{Mem}
use mm_mem.Base.Returns.{Returns, returns, via}
use mm_mem.Base.Int.{ℤ}
use mm_mem.Configuration.Settings.{Settings}
use mm_mem.Workers.Packet.{copy_mem_region_config, node_mem_type}
use mm_mem.WorkerThreads.{set_loop, set_routine, make_manager}
use mm_mem.WorkerThreads.Bound.{make_manager-bound}
use mm_mem.Programs.{
  Routine, Job, Team, Done, Session, Run, run_team, Program, go_on, new_jobs, make_team,
  prepare_job, prepare_team, assign_routine,
}

-- What returns goes on.
pub go_on-Returns :
    {S A B : Type 0} {P : A × S → Type 0} {Q : B × S → Type 0} {done : Option (A × S)}
    {next : A → Program S B}
    → Returns P done
    → ((a : A) (s : S) → P (a, s) → Returns Q (next a s))
    → Returns Q (go_on done next)
go_on-Returns (returns p) h = h _ _ p

-- A step with a known result goes on.
pub go_on-some :
    {S A B : Type 0} {Q : B × S → Type 0} {done : Option (A × S)} {a : A} {s : S}
    (next : A → Program S B)
    → done ≡ some (a, s)
    → Returns Q (next a s)
    → Returns Q (go_on done next)
go_on-some next e h = via (ap (λ o. go_on o next) e) h

pub run_team-some :
    {F W : Type 0} (run : Run F W) (t : Team) (session : Session F W) (done : List (Done F)) (w : W)
    → run t session.world ≡ some (done, w)
    → run_team run t session ≡ some (done, record session { world = w })
run_team-some run t session done w e = rw (e, run_team) refl

-- The region of the packet is configured, on this node.
pub record IsPlaced (s : Settings) (node : ℤ) (j : Job) : Type 0 where
  pub size : j.packet.region_size_kb ≡ s.region_size_kb
  pub pattern : j.packet.access_pattern ≡ s.access_pattern
  pub memory : j.packet.mem_type ≡ node_mem_type node

-- A routine and a packet for each thread, no more threads than cpus, each bound to one of them, with its memory on the node.
pub record IsTeam (s : Settings) (cpus : List ℕ) (node : ℤ) (t : Team) : Type 0 where
  pub crew : length t.manager.start_routines ≡ t.manager.num_threads
  pub packets : length t.jobs ≡ t.manager.num_threads
  pub enough_cpus : t.manager.num_threads ≤ length cpus
  pub bound :
      (i : ℕ)
      → i < t.manager.num_threads
      → (cpu : ℕ) × (get_elem? t.manager.bound_cpu i ≡ some (some cpu)) × Mem cpu cpus
  pub placed : All (IsPlaced s node) t.jobs

-- Every thread has the routine.
pub IsAssigned : Routine → Team → Type 0
IsAssigned r t = All (λ o. o ≡ some r) t.manager.start_routines

set_loop-All :
    (r : Routine) (i : ℕ) (routines : List (Option Routine))
    → All (λ o. o ≡ some r) (set_loop r (λ k. true) i routines)
unfolding set_loop
set_loop-All r i [] = tt
set_loop-All r i (o ∷ rest) = (refl, set_loop-All r (i + 1) rest)

pub assign_routine-IsAssigned : (r : Routine) (t : Team) → IsAssigned r (assign_routine r t)
unfolding assign_routine set_routine IsAssigned
assign_routine-IsAssigned r t = set_loop-All r 0 t.manager.start_routines

length-set_loop :
    (r : Routine) (i : ℕ) (routines : List (Option Routine))
    → length (set_loop r (λ k. true) i routines) ≡ length routines
unfolding set_loop
length-set_loop r i [] = refl
length-set_loop r i (o ∷ rest) = ap suc (length-set_loop r (i + 1) rest)

length-map : {A B : Type 0} (f : A → B) (xs : List A) → length (map f xs) ≡ length xs
length-map f [] = refl
length-map f (a ∷ xs) = ap suc (length-map f xs)

length-new_jobs : (threads n i : ℕ) → length (new_jobs threads n i) ≡ n
unfolding new_jobs
length-new_jobs threads zero i = refl
length-new_jobs threads (suc n) i = ap suc (length-new_jobs threads n (i + 1))

pub assign_routine-IsTeam :
    (s : Settings) (cpus : List ℕ) (node : ℤ) (r : Routine) (t : Team)
    → IsTeam s cpus node t
    → IsTeam s cpus node (assign_routine r t) × IsAssigned r (assign_routine r t)
unfolding assign_routine set_routine IsAssigned
assign_routine-IsTeam s cpus node r t h = (
  record {
    crew = length-set_loop r 0 t.manager.start_routines ∙ h.crew;
    packets = h.packets;
    enough_cpus = h.enough_cpus;
    bound = h.bound;
    placed = h.placed;
  },
  set_loop-All r 0 t.manager.start_routines,
)

pub All-map :
    {A B : Type 0} (P : A → Type 0) (Q : B → Type 0) (f : A → B) (xs : List A)
    → ((a : A) → P a → Q (f a))
    → All P xs
    → All Q (map f xs)
All-map P Q f [] h all = tt
All-map P Q f (a ∷ xs) h all = (h a all.0, All-map P Q f xs h all.1)

all_any : {A : Type 0} (xs : List A) → All {0, 0} (λ a. Unit) xs
all_any [] = tt
all_any (a ∷ xs) = (tt, all_any xs)

-- A change of the jobs that leaves their regions alone.
pub change_jobs-IsTeam :
    (s : Settings) (cpus : List ℕ) (node : ℤ) (f : Job → Job) (t : Team)
    → ((j : Job) → IsPlaced s node j → IsPlaced s node (f j))
    → IsTeam s cpus node t
    → IsTeam s cpus node (record t { jobs = map f t.jobs })
change_jobs-IsTeam s cpus node f t keeps h = record {
  crew = h.crew;
  packets = length-map f t.jobs ∙ h.packets;
  enough_cpus = h.enough_cpus;
  bound = h.bound;
  placed = All-map (IsPlaced s node) (IsPlaced s node) f t.jobs keeps h.placed;
}

prepare_job-IsPlaced : (s : Settings) (node : ℤ) (j : Job) → IsPlaced s node (prepare_job s node j)
unfolding prepare_job copy_mem_region_config
prepare_job-IsPlaced s node j = record { size = refl; pattern = refl; memory = refl }

-- A new team on cpus that are at least as many as its threads.
pub make_team-IsTeam :
    (s : Settings) (cpus : List ℕ) (node : ℤ) (hardware_concurrency threads : ℕ)
    → threads ≤ length cpus
    → 0 < length cpus
    → IsTeam s cpus node (prepare_team s node (make_team hardware_concurrency threads cpus true))
unfolding prepare_team make_team make_manager
make_team-IsTeam s cpus node hardware_concurrency threads h pos = record {
  crew = length-replicate threads none;
  packets =
      length-map (prepare_job s node) (new_jobs threads threads 0)
      ∙ length-new_jobs threads threads 0;
  enough_cpus = h;
  bound = λ i below. make_manager-bound Routine hardware_concurrency threads cpus i pos below;
  placed =
      All-map (λ j. Unit) (IsPlaced s node) (prepare_job s node) (new_jobs threads threads 0)
        (λ j u. prepare_job-IsPlaced s node j) (all_any (new_jobs threads threads 0));
}
