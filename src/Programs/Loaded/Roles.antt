-- ===== src/Programs/Loaded/Roles.antt =====
-- Which thread does what in the test of the latency under load.
use mm_mem.Base.{
  ℕ, suc, ◌+◌, ◌<◌, ◌≡◌, refl, ap, ◌∙◌, false, Option, some, List, [], ◌∷◌, arith, length,
  replicate, ltb, lt→ltb, ◌==◌,
}
use mm_mem.WorkerThreads.{set_loop, set_routine_where}
use mm_mem.Programs.{Routine, Team, assign_routine_where}
use mm_mem.Programs.Loaded.{assign_roles}

-- The routines of a team: the first thread allocates or measures the latency, all others the
-- bandwidth.
pub data HasRoles (n : ℕ) : List (Option Routine) → Type 0 where
  allocating :
      HasRoles n
        (some Routine.mem_region_alloc_lat ∷ replicate n (some Routine.mem_region_alloc_bw))
  measuring : HasRoles n (some Routine.lat_ptr ∷ replicate n (some Routine.bw_sequential))

not_first :
    (r : Routine) (i : ℕ) (routines : List (Option Routine))
    → 0 < i
    → set_loop r (λ k. k == 0) i routines ≡ routines
unfolding set_loop
not_first r i [] pos = refl
not_first r i (o ∷ rest) pos =
    let later : (i == 0) ≡ false = ground arith in
    rw later (ap (λ l. o ∷ l) (not_first r (i + 1) rest (omega arith)))

all_others :
    (r : Routine) (i : ℕ) (routines : List (Option Routine))
    → 0 < i
    → set_loop r (λ k. ltb 0 k) i routines ≡ replicate (length routines) (some r)
unfolding set_loop
all_others r i [] pos = refl
all_others r i (o ∷ rest) pos =
    rw (lt→ltb 0 i pos) (ap (λ l. some r ∷ l) (all_others r (i + 1) rest (omega arith)))

roles_of :
    (a b : Routine) (n : ℕ) (routines : List (Option Routine))
    → length routines ≡ suc n
    → set_loop b (λ k. ltb 0 k) 0 (set_loop a (λ k. k == 0) 0 routines)
      ≡ some a ∷ replicate n (some b)
unfolding set_loop
roles_of a b n [] h = absurd (omega (arith, h))
roles_of a b n (o ∷ rest) h =
    ap (λ l. some a ∷ l)
      (ap (set_loop b (λ k. ltb 0 k) 1) (not_first a 1 rest (omega arith))
        ∙ all_others b 1 rest (omega arith)
        ∙ ap (λ k. replicate k (some b)) (omega (arith, h)))

pub assign_roles-start_routines :
    (a b : Routine) (n : ℕ) (t : Team)
    → length t.manager.start_routines ≡ suc n
    → (assign_roles a b t).manager.start_routines ≡ some a ∷ replicate n (some b)
unfolding assign_roles assign_routine_where set_routine_where
assign_roles-start_routines a b n t h = roles_of a b n t.manager.start_routines h
