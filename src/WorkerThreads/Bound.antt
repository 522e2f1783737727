-- ===== src/WorkerThreads/Bound.antt =====
-- Where the workers run.
use mm_mem.Base.{
  ℕ, zero, suc, ◌+◌, ◌/◌, ◌%◌, ◌<◌, ◌≡◌, ◌∙◌, ap, true, not, ◌&&◌, some, List, [], ◌∷◌, arith, ◌==◌,
  if◌then◌else◌, length, get_elem?, get_or, get_elem?-get_or,
}
use mathlib.Core.List.{Mem, mem-cons_self, mem-cons_of_mem}
use native.Mathlib.Nat.{mod-lt}
use mm_mem.WorkerThreads.{cpu_of, bind_loop, make_manager}

get_or-Mem : (s : List ℕ) (i d : ℕ) → i < length s → Mem (get_or s i d) s
get_or-Mem [] i d h = elim h [ ]
get_or-Mem (x ∷ s) zero d h = mem-cons_self
get_or-Mem (x ∷ s) (suc i) d h = mem-cons_of_mem x (get_or-Mem s i d (omega arith))

cpu_of-Mem :
    (n : ℕ) (cpus : List ℕ) (i : ℕ)
    → 0 < length cpus
    → (cpu : ℕ) × (cpu_of n cpus i ≡ some cpu) × Mem cpu cpus
unfolding cpu_of
cpu_of-Mem n cpus i pos =
    let idx : ℕ = if n == 1 then length cpus / 4 else i in
    let below = mod-lt idx pos in
    (
      get_or cpus (idx % length cpus) 0,
      get_elem?-get_or cpus (idx % length cpus) 0 below,
      get_or-Mem cpus _ 0 below,
    )

bind_loop-cpu_of :
    (num_threads : ℕ) (cpus : List ℕ) (n i j : ℕ)
    → j < n
    → get_elem? (bind_loop true num_threads cpus n i) j ≡ some (cpu_of num_threads cpus (i + j))
unfolding bind_loop
bind_loop-cpu_of num_threads cpus zero i j h = absurd (omega arith)
bind_loop-cpu_of num_threads cpus (suc n) i zero h =
    ap (λ k. some (cpu_of num_threads cpus k)) (omega arith)
bind_loop-cpu_of num_threads cpus (suc n) i (suc j) h =
    bind_loop-cpu_of num_threads cpus n (i + 1) j (omega arith)
    ∙ ap (λ k. some (cpu_of num_threads cpus k)) (omega arith)

-- With binding and a list of cpus that is not empty, each thread is bound to a cpu of the list.
pub make_manager-bound {ℓ} :
    (R : Type ℓ) (hardware_concurrency num_threads : ℕ) (cpus : List ℕ) (i : ℕ)
    → 0 < length cpus
    → i < num_threads
    → (cpu : ℕ) × (get_elem?
          (make_manager {R = R} hardware_concurrency num_threads cpus true).bound_cpu
          i
        ≡ some (some cpu))
      × Mem cpu cpus
unfolding make_manager
make_manager-bound R hardware_concurrency num_threads cpus i pos h =
    let (cpu, e, there) = cpu_of-Mem num_threads cpus i pos in
    (
      cpu,
      rw binds (
          bind_loop-cpu_of num_threads cpus num_threads 0 i h
          ∙ ap some (ap (cpu_of num_threads cpus) (omega arith) ∙ e)),
      there,
    )
  where
    binds : (true && not (length cpus == 0)) ≡ true
    binds = ground arith
