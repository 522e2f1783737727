-- ===== src/NumaConfig/Allowed.antt =====
-- The cpus that a worker may be pinned to.
use mm_mem.Base.{
  ℕ, zero, suc, ◌+◌, ◌≤◌, ◌<◌, ◌≡◌, refl, ◌∙◌, ap, inl, inr, Bool, false, ◌&&◌, ◌||◌, none, some,
  List, [], ◌∷◌, arith, ltb, leb, ◌==◌, ==_iff, Bool-cases,
}
use native.Mathlib.Decide.{ℕ_discrete}
use mm_mem.Base.Returns.{Option-cases}
use mm_mem.NumaConfig.{Numa, at, select_from, node_loop, node_cpus, fill_map, query}

-- Whether the cpu is in the list.
abbrev pub has : ℕ → List ℕ → Bool
has cpu [] = false
has cpu (c ∷ rest) = c == cpu || has cpu rest

has-select_from :
    (test : ℕ → Bool) (n j cpu : ℕ)
    → has cpu (select_from test n j) ≡ (leb j cpu && ltb cpu (j + n) && test cpu)
unfolding select_from
has-select_from test zero j cpu = ground arith
has-select_from test (suc n) j cpu = ground (arith, has-select_from test n (j + 1) cpu)

node_loop-select_from :
    (mask allowed : ℕ → Bool) (n j : ℕ)
    → node_loop mask allowed n j
      ≡ (select_from mask n j, select_from (λ k. mask k && allowed k) n j)
unfolding node_loop select_from
node_loop-select_from mask allowed zero j = refl
node_loop-select_from mask allowed (suc n) j =
    rw (node_loop-select_from mask allowed n (j + 1))
      (elim (Bool-cases (mask j)) [ inl set ↦ rw set refl | inr clear ↦ rw clear refl ])

pub at-fill_map {ℓ} :
    {V : Type ℓ} (value : ℕ → V) (n i key : ℕ)
    → i ≤ key
    → key < i + n
    → at key (fill_map value n i) ≡ some (value key)
unfolding at fill_map
at-fill_map value zero i key low high = absurd (omega arith)
at-fill_map value (suc n) i key low high = elim (ℕ_discrete i key) [
  | yes here ↦ rw ((==_iff i key).1 here) (ap (λ k. some (value k)) here)
  | no later ↦
      let differ : (i == key) ≡ false = ground (arith, later) in
      rw differ (at-fill_map value n (i + 1) key (omega (arith, later)) (omega arith))
]

-- Whether libnuma says that the cpu is of the node.
abbrev pub is_of_node : Numa → (node cpu : ℕ) → Bool
is_of_node numa node cpu = elim (numa.node_to_cpus node) [ none ↦ false | some mask ↦ mask cpu ]

node_cpus-error :
    (numa : Numa) (node : ℕ) → numa.node_to_cpus node ≡ none → node_cpus numa node ≡ ([], [])
unfolding node_cpus
node_cpus-error numa node e = rw (e, node_cpus) refl

node_cpus-mask :
    (numa : Numa) (node : ℕ) (mask : ℕ → Bool)
    → numa.node_to_cpus node ≡ some mask
    → node_cpus numa node ≡ (
      select_from mask numa.num_possible_cpus 0,
      select_from (λ k. mask k && numa.all_cpus_mask k) numa.num_possible_cpus 0,
    )
unfolding node_cpus
node_cpus-mask numa node mask e =
    rw (e, node_cpus) (node_loop-select_from mask numa.all_cpus_mask numa.num_possible_cpus 0)

has_usable :
    (numa : Numa) (node cpu : ℕ)
    → has cpu (node_cpus numa node).1
      ≡ (ltb cpu numa.num_possible_cpus && is_of_node numa node cpu && numa.all_cpus_mask cpu)
has_usable numa node cpu = elim (Option-cases (numa.node_to_cpus node)) [
  | inl failed ↦
      ap (λ p. has cpu p.1) (node_cpus-error numa node failed)
      ∙ rw (failed, is_of_node) (ground arith)
  | inr (mask, got) ↦
      ap (λ p. has cpu p.1) (node_cpus-mask numa node mask got)
      ∙ has-select_from (λ k. mask k && numa.all_cpus_mask k) numa.num_possible_cpus 0 cpu
      ∙ rw (got, is_of_node) (ground arith)
]

-- Each node has a list of the cpus that a worker may be pinned to: those that libnuma says are of
-- the node and that are among the cpus that the process may run on, and none where the query of
-- the node failed.
pub query-allowed :
    (numa : Numa) (node : ℕ)
    → node < numa.num_nodes
    → (cpus : List ℕ) × (at node (query numa).node_to_allowed_cpus ≡ some cpus)
      × ((cpu : ℕ)
          → has cpu cpus ≡ (is_of_node numa node cpu && has cpu (query numa).all_allowed_cpus))
unfolding query
query-allowed numa node h = (
  (node_cpus numa node).1,
  at-fill_map (λ i. (node_cpus numa i).1) numa.num_nodes 0 node (omega arith) (omega arith),
  λ cpu.
      has_usable numa node cpu
      ∙ (rw (has-select_from numa.all_cpus_mask numa.num_possible_cpus 0 cpu) (ground arith)),
)
