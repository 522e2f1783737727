-- ===== src/NumaConfig.antt =====
-- The class `NumaConfig` of common/numa_config.h and common/numa_config.cc. The answers of libnuma are
-- a parameter; a `std::map` from the nodes is a list in ascending order.
pub mod Allowed
pub mod Dumped
use mm_mem.Base.{
  ℕ, zero, suc, ◌+◌, Bool, true, false, not, ◌&&◌, Option, none, some, ◌>>=◌, List, [], ◌∷◌, ◌++◌,
  ◌==◌, if◌then◌else◌, length,
}
use mm_mem.Base.Int.{ℤ}
use mm_mem.Text.{Text, codes, to_string}
use mm_mem.CommandLine.{to_string_ℤ}
use mm_mem.KmgParser.{IsNear, get_byte_str}

pub record Numa : Type 0 where
  -- `numa_max_node() + 1`, `numa_num_configured_nodes()`, `numa_num_possible_nodes()`
  pub num_nodes : ℕ
  pub num_configured_nodes : ℕ
  pub num_possible_nodes : ℕ
  -- `std::thread::hardware_concurrency()`, `numa_num_possible_cpus()`
  pub hardware_concurrency : ℕ
  pub num_possible_cpus : ℕ
  -- the bits of `numa_all_cpus_ptr`
  pub all_cpus_mask : ℕ → Bool
  -- `numa_node_size64(i, nullptr)`
  pub node_size : ℕ → ℤ
  -- the mask that `numa_node_to_cpus` gives for a node; `none` is an error
  pub node_to_cpus : ℕ → Option (ℕ → Bool)

pub record NumaConfig : Type 0 where
  pub num_numa_nodes : ℕ
  pub num_numa_nodes_configured : ℕ
  pub num_numa_nodes_possible : ℕ
  pub num_cpus : ℕ
  pub num_cpus_possible : ℕ
  pub all_cpus : List ℕ
  pub all_allowed_cpus : List ℕ
  pub node_to_mem : List (ℕ × ℤ)
  pub node_to_cpus : List (ℕ × List ℕ)
  pub node_to_allowed_cpus : List (ℕ × List ℕ)

-- `map.at(key)`, which throws where there is no key
unfoldable pub at {ℓ} : {V : Type ℓ} → ℕ → List (ℕ × V) → Option V
at key [] = none
at key ((k, v) ∷ rest) = if k == key then some v else at key rest

-- The numbers from `j` on, `n` of them, for which the test holds.
unfoldable pub select_from : (test : ℕ → Bool) → (n j : ℕ) → List ℕ
select_from test zero j = []
select_from test (suc n) j =
    let rest = select_from test n (j + 1) in if test j then j ∷ rest else rest

-- The loop over the bits of a node's mask: its cpus, and those that are allowed.
unfoldable pub node_loop : (mask allowed : ℕ → Bool) → (n j : ℕ) → List ℕ × List ℕ
node_loop mask allowed zero j = ([], [])
node_loop mask allowed (suc n) j =
    let (cpus, usable) = node_loop mask allowed n (j + 1) in
    if mask j then (j ∷ cpus, if allowed j then j ∷ usable else usable) else (cpus, usable)

-- What a node adds: nothing where the query fails.
unfoldable pub node_cpus : Numa → (node : ℕ) → List ℕ × List ℕ
unfolding node_loop
node_cpus numa node = elim (numa.node_to_cpus node) [
  | none ↦ ([], [])
  | some mask ↦ node_loop mask numa.all_cpus_mask numa.num_possible_cpus 0
]

-- `for (i = 0; i < num_numa_nodes; ++i) map[i] = value(i);`
unfoldable pub fill_map {ℓ} : {V : Type ℓ} → (value : ℕ → V) → (n i : ℕ) → List (ℕ × V)
fill_map value zero i = []
fill_map value (suc n) i = (i, value i) ∷ fill_map value n (i + 1)

-- The constructor
unfoldable pub query : Numa → NumaConfig
unfolding select_from node_cpus fill_map
query numa = record {
  num_numa_nodes = numa.num_nodes;
  num_numa_nodes_configured = numa.num_configured_nodes;
  num_numa_nodes_possible = numa.num_possible_nodes;
  num_cpus = numa.hardware_concurrency;
  num_cpus_possible = numa.num_possible_cpus;
  all_cpus = select_from (λ j. true) numa.hardware_concurrency 0;
  all_allowed_cpus = select_from numa.all_cpus_mask numa.num_possible_cpus 0;
  node_to_mem = fill_map numa.node_size numa.num_nodes 0;
  node_to_cpus = fill_map (λ i. (node_cpus numa i).0) numa.num_nodes 0;
  node_to_allowed_cpus = fill_map (λ i. (node_cpus numa i).1) numa.num_nodes 0;
}

-- Each number behind a space.
unfoldable pub print_cpus : List ℕ → Text
print_cpus [] = []
print_cpus (cpu ∷ rest) = codes " " ++ to_string cpu ++ print_cpus rest

unfoldable pub dump_nodes : NumaConfig → List (ℕ × List ℕ) → Option Text
unfolding at print_cpus
dump_nodes c [] = some []
dump_nodes c ((node, cpus) ∷ rest) = do
  usable ← at node c.node_to_allowed_cpus
  others ← dump_nodes c rest
  let all : Text = codes "\tNode " ++ to_string node ++ codes ":" ++ print_cpus cpus ++ codes "\n"
  let some_usable : Text =
      if not (length usable == length cpus)
      then codes "\tNode " ++ to_string node ++ codes " usable:" ++ print_cpus usable ++ codes "\n"
      else []
  some (all ++ some_usable ++ others)

unfoldable pub dump_mem : IsNear → List (ℕ × ℤ) → Option Text
dump_mem near [] = some []
dump_mem near ((node, size) ∷ rest) = do
  shown ← get_byte_str near size
  others ← dump_mem near rest
  some (
      codes "\tNode "
      ++ to_string node
      ++ codes ": "
      ++ to_string_ℤ size
      ++ codes " B / "
      ++ shown
      ++ codes "B\n"
      ++ others)

-- What `dump` prints, and the whole of cpu_micro/cpu_numa_info.cc; `none` is an exception.
unfoldable pub dump_numa : IsNear → NumaConfig → Option Text
unfolding dump_nodes dump_mem print_cpus
dump_numa near c = do
  nodes ← dump_nodes c c.node_to_cpus
  memory ← dump_mem near c.node_to_mem
  some (
      codes "# NUMA nodes: "
      ++ to_string c.num_numa_nodes
      ++ codes " / "
      ++ to_string c.num_numa_nodes_configured
      ++ codes " / "
      ++ to_string c.num_numa_nodes_possible
      ++ codes "\n"
      ++ codes "# CPUs: "
      ++ to_string c.num_cpus
      ++ codes " / "
      ++ to_string c.num_cpus_possible
      ++ codes "\n"
      ++ codes "CPUs\n\tAll CPUs:"
      ++ print_cpus c.all_cpus
      ++ codes "\n"
      ++ codes "\t My CPUs:"
      ++ print_cpus c.all_allowed_cpus
      ++ codes "\n"
      ++ nodes
      ++ codes "Memory\n"
      ++ memory)
