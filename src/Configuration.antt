-- ===== src/Configuration.antt =====
-- The class `Configuration` of cpu_micro/lib_configuration.h and cpu_micro/lib_configuration.cc: the
-- options of each test, and the fields that they are bound to.
pub mod Strings
pub mod Defaults
pub mod Settings
use mm_mem.Base.{
  ℕ, zero, suc, ◌+◌, ◌*◌, ◌%◌, ◌^◌, Bool, true, false, not, ◌||◌, List, [], ◌∷◌, ◌++◌, ltb, ◌==◌,
  if◌then◌else◌, length,
}
use mm_mem.Base.Int.{ℤ, pos}
use mm_mem.Text.{Text, codes, to_string}
use mm_mem.CommandLine.{IntType, signed, unsigned, CommandLine, empty, group, value, flag_option}
use mm_mem.Configuration.Strings.{get_str_access_pattern, get_str_huge_page, get_str_rw_mix}

-- `enum class Testing_Type`
pub data TestingType : Type 0 where
  latency bandwidth latency_bandwidth memcpy branch_throughput : TestingType

unfoldable pub is_latency : TestingType → Bool
is_latency latency = true
is_latency t = false

unfoldable pub is_bandwidth : TestingType → Bool
is_bandwidth bandwidth = true
is_bandwidth t = false

unfoldable pub is_latency_bandwidth : TestingType → Bool
is_latency_bandwidth latency_bandwidth = true
is_latency_bandwidth t = false

unfoldable pub is_memcpy : TestingType → Bool
is_memcpy memcpy = true
is_memcpy t = false

unfoldable pub is_branch_throughput : TestingType → Bool
is_branch_throughput branch_throughput = true
is_branch_throughput t = false

-- The members that options are bound to, in the order of the class.
pub data Field : Type 0 where
  branch_case num_threads region_size_kb no_binding verbose access_pattern chunk_size_kb
        stride_size_b :
      Field
  fragment_size_b use_hugepage read_write_mix load_gen_delay target_duration_s latency_matrix :
      Field
  bandwidth_matrix memcpy_matrix help_ : Field

-- `options_`, with the member that each option is bound to.
pub record Options : Type 0 where
  pub line : CommandLine
  pub targets : List Field

abbrev uint32 : IntType
uint32 = unsigned 32

abbrev uint64 : IntType
uint64 = unsigned 64

-- `options_.value(names, &target, default, description)`
unfoldable pub bind_value :
    (names : Text) → Field → IntType → ℤ → (description : Text) → Options → Options
unfolding value
bind_value names target type default description o = record {
  line = value names type default description o.line;
  targets = o.targets ++ target ∷ [];
}

-- `options_.flag(names, &target, description)`
unfoldable pub bind_flag : (names : Text) → Field → (description : Text) → Options → Options
unfolding flag_option
bind_flag names target description o = record {
  line = flag_option names description o.line;
  targets = o.targets ++ target ∷ [];
}

-- `options_.group(name)`
unfoldable pub bind_group : Text → Options → Options
unfolding group
bind_group name o = record o { line = group name o.line }

abbrev pub read_write_mix_sweep : ℕ
read_write_mix_sweep = 100

-- The number of allowed cpus is `numa_config.all_allowed_cpus.size()`.
unfoldable pub add_generic_options : TestingType → (allowed_cpus : ℕ) → Options → Options
unfolding bind_value bind_flag bind_group is_latency is_branch_throughput
add_generic_options type allowed_cpus o =
    let single = is_latency type || is_branch_throughput type in
    let default_num_threads : ℕ = if single then 1 else allowed_cpus % 2 ^ 32 in
    let default_region_size_kb : ℕ = if is_latency type then 512 * 1024 else 128 * 1024 in
    let o1 = bind_group (codes "Generic options") o in
    let o2 = bind_flag (codes "help,h") help_ (codes "print usage message") o1 in
    let o3 =
      bind_value (codes "target_duration,t") target_duration_s uint32 (pos 10) (codes "duration")
        o2 in
    let o4 =
      bind_value (codes "num_threads,n") num_threads uint32 (pos default_num_threads)
        (codes "total number of threads") o3 in
    let o5 =
      if not (is_branch_throughput type)
      then bind_value (codes "region_size,b") region_size_kb uint64 (pos default_region_size_kb)
          (codes "region size in KB") o4
      else o4 in
    let o6 =
      bind_flag (codes "no_binding") no_binding (codes "NOT to do thread-to-core binding") o5 in
    bind_flag (codes "verbose,v") verbose (codes "enable verbose output") o6

unfoldable pub add_latency_options : TestingType → Options → Options
unfolding bind_value bind_flag bind_group is_latency is_latency_bandwidth get_str_access_pattern
    get_str_huge_page
add_latency_options type o =
    let default_chunk_size_kb : ℕ = if is_latency_bandwidth type then 64 else 128 in
    let o1 = bind_group (codes "Latency thread options") o in
    let o2 =
      bind_value (codes "access_pattern,p") access_pattern uint32 (pos 1)
        (codes "access pattern\n  0 - "
          ++ get_str_access_pattern 0
          ++ codes "\n  1 - "
          ++ get_str_access_pattern 1
          ++ codes "\n  2 - "
          ++ get_str_access_pattern 2)
        o1 in
    let o3 =
      bind_value (codes "chunk_size,c") chunk_size_kb uint32 (pos default_chunk_size_kb)
        (codes "chunk size in KB - target L1TLB can cover") o2 in
    let o4 =
      bind_value (codes "stride_size,s") stride_size_b uint32 (pos 128)
        (codes "stride size in byte") o3 in
    let o5 =
      bind_value (codes "use_hugepage,H") use_hugepage uint32 (pos 0)
        (codes "use huge pages\n  0 - "
          ++ get_str_huge_page 0
          ++ codes "\n  1 - "
          ++ get_str_huge_page 1
          ++ codes "\n  2 - "
          ++ get_str_huge_page 2
          ++ codes "\n  3 - "
          ++ get_str_huge_page 3
          ++ codes "\n  4 - "
          ++ get_str_huge_page 4)
        o4 in
    if is_latency type
    then bind_flag (codes "latency_matrix") latency_matrix
        (codes "Measure local and cross-socket latencies") o5
    else o5

unfoldable pub add_bandwidth_options : TestingType → Options → Options
unfolding bind_value bind_flag bind_group is_bandwidth is_latency_bandwidth get_str_rw_mix
add_bandwidth_options type o =
    let default_read_write_mix : ℕ = if is_bandwidth type then read_write_mix_sweep else 2 in
    let additional_msg : Text =
      if is_bandwidth type
      then codes "\n"
        ++ to_string read_write_mix_sweep
        ++ codes " - "
        ++ get_str_rw_mix read_write_mix_sweep
      else [] in
    let o1 = bind_group (codes "Bandwidth threads options") o in
    let o2 =
      bind_value (codes "read_write_mix,m") read_write_mix uint32 (pos default_read_write_mix)
        (codes "read/write mix\n  0 - "
          ++ get_str_rw_mix 0
          ++ codes "\n  1 - "
          ++ get_str_rw_mix 1
          ++ codes "\n  2 - "
          ++ get_str_rw_mix 2
          ++ codes "\n  3 - "
          ++ get_str_rw_mix 3
          ++ additional_msg)
        o1 in
    let o3 =
      if is_latency_bandwidth type
      then bind_value (codes "load_gen_delay,d") load_gen_delay (signed 32) (pos 0)
          (codes "delay slots b/w memory requests for load generation threads") o2
      else o2 in
    if is_bandwidth type
    then bind_flag (codes "bandwidth_matrix") bandwidth_matrix
        (codes "Measure local and cross-socket bandwidth") o3
    else o3

unfoldable pub add_memcpy_options : Options → Options
unfolding bind_value bind_flag bind_group
add_memcpy_options o =
    let o1 = bind_group (codes "Memcpy options") o in
    let o2 =
      bind_value (codes "fragment_size,f") fragment_size_b uint64 (pos 0)
        (codes "fragment size in byte of each memcpy invocation"
          ++ codes "\n  0 - same as region size\n  e.g. 4096 - copy each 4KB fragment one by one")
        o1 in
    bind_flag (codes "memcpy_matrix") memcpy_matrix
      (codes "Measure local and cross-socket memcpy bandwidth") o2

unfoldable pub test_name : TestingType → Text
test_name latency = codes "Idle latency"
test_name bandwidth = codes "Peak bandwidth"
test_name latency_bandwidth = codes "Loaded latency; 1 latency thread + n-1 load generation threads"
test_name memcpy = codes "Memcpy (glibc)"
test_name branch_throughput = codes "Branch taken throughput"

-- The constructor: the options of a test.
unfoldable pub configure : TestingType → (allowed_cpus : ℕ) → Options
unfolding add_generic_options add_latency_options add_bandwidth_options add_memcpy_options test_name
    empty bind_value bind_group is_latency is_bandwidth is_latency_bandwidth is_memcpy
    is_branch_throughput
configure type allowed_cpus =
    let o : Options = record { line = empty (test_name type); targets = [] } in
    let o1 = add_generic_options type allowed_cpus o in
    let o2 =
      if is_branch_throughput type
      then bind_value (codes "branch_case") branch_case uint32 (pos 0)
          (codes "0: sweep all cases; 1-12: select one case (see README)")
          (bind_group (codes "Branch throughput options") o1)
      else o1 in
    let o3 =
      if is_latency type || is_latency_bandwidth type then add_latency_options type o2 else o2 in
    let o4 =
      if is_bandwidth type || is_latency_bandwidth type
      then add_bandwidth_options type o3
      else o3 in
    if is_memcpy type then add_memcpy_options o4 else o4
