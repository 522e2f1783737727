-- ===== src/Configuration/Defaults.antt =====
-- The options that the constructor of `Configuration` registers: their defaults and their names.
use mm_mem.Base.{
  ℕ, ◌-◌, ◌%◌, ◌^◌, ◌≤◌, ◌≡◌, refl, Bool, true, false, not, ◌&&◌, ◌||◌, List, [], ◌∷◌, arith,
  length,
}
use mm_mem.Text.{text_eq, split_at}
use mm_mem.CommandLine.{OptionSpec, empty, group, add, value, flag_option, max_value, min_value}
use mm_mem.CommandLine.Parse.Fits.{Fits}
use mm_mem.Configuration.{
  TestingType, latency, bandwidth, latency_bandwidth, memcpy, branch_throughput, configure,
  bind_value, bind_flag, bind_group, add_generic_options, add_latency_options,
  add_bandwidth_options, add_memcpy_options, is_latency, is_bandwidth, is_latency_bandwidth,
  is_memcpy, is_branch_throughput,
}

-- A name, or an alias that is not empty, of another option.
abbrev clashes : OptionSpec → OptionSpec → Bool
clashes a b = text_eq a.name b.name || (not (text_eq a.alias []) && text_eq a.alias b.alias)

abbrev clashes_with : OptionSpec → List OptionSpec → Bool
clashes_with a [] = false
clashes_with a (b ∷ rest) = clashes a b || clashes_with a rest

-- Every option can be chosen, by its name and by its alias.
abbrev pub distinct : List OptionSpec → Bool
distinct [] = true
distinct (a ∷ rest) = not (clashes_with a rest) && distinct rest

below_32 : (n : ℕ) → n % 2 ^ 32 ≤ 2 ^ 32 - 1
below_32 n = omega arith

-- In each test every variable starts with a value of its type, no two options share a name or an
-- alias, and there is one bound member for each option.
pub configure_lem :
    (type : TestingType) (allowed_cpus : ℕ)
    → Fits (configure type allowed_cpus).line.options (configure type allowed_cpus).line.values
      × (distinct (configure type allowed_cpus).line.options ≡ true)
      × (length (configure type allowed_cpus).targets
          ≡ length (configure type allowed_cpus).line.options)
unfolding configure bind_value bind_flag bind_group add_generic_options add_latency_options
    add_bandwidth_options add_memcpy_options is_latency is_bandwidth is_latency_bandwidth is_memcpy
    is_branch_throughput empty group add value flag_option max_value min_value text_eq split_at
configure_lem latency n = (ground arith, refl, refl)
configure_lem bandwidth n = (ground arith, refl, refl)
configure_lem latency_bandwidth n = (ground arith, refl, refl)
configure_lem memcpy n = (ground arith, refl, refl)
configure_lem branch_throughput n = (ground arith, refl, refl)
