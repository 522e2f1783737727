-- ===== src/Configuration/Settings.antt =====
-- The members of `Configuration` after `parse_options`, and what `dump` prints of them, in
-- cpu_micro/lib_configuration.cc.
pub mod Ranges
use mm_mem.Base.{
  ℕ, ◌/◌, ◌%◌, ◌^◌, Bool, false, not, ◌||◌, List, [], ◌∷◌, ◌++◌, ltb, ◌==◌, if◌then◌else◌,
}
use mm_mem.Base.Int.{ℤ, pos, pos_part}
use mm_mem.Text.{Text, codes, to_string}
use mm_mem.CommandLine.{Value, bool, int}
use mm_mem.CommandLine.Help.{help}
use mm_mem.CommandLine.Parse.{Error, ok, err, parse}
use mm_mem.Configuration.{
  TestingType, is_latency, is_bandwidth, is_latency_bandwidth, is_memcpy, is_branch_throughput,
  Field, Options,
}
use mm_mem.Configuration.Strings.{get_str_access_pattern, get_str_huge_page, get_str_rw_mix}

-- The public members of the class that options are bound to.
pub record Settings : Type 0 where
  pub branch_case : ℕ
  pub num_threads : ℕ
  pub region_size_kb : ℕ
  pub no_binding : Bool
  pub verbose : Bool
  pub access_pattern : ℕ
  pub chunk_size_kb : ℕ
  pub stride_size_b : ℕ
  pub fragment_size_b : ℕ
  pub use_hugepage : ℕ
  pub read_write_mix : ℕ
  pub load_gen_delay : ℤ
  pub target_duration_s : ℕ
  pub latency_matrix : Bool
  pub bandwidth_matrix : Bool
  pub memcpy_matrix : Bool

abbrev pub field_number : Field → ℕ
field_number Field.branch_case = 0
field_number Field.num_threads = 1
field_number Field.region_size_kb = 2
field_number Field.no_binding = 3
field_number Field.verbose = 4
field_number Field.access_pattern = 5
field_number Field.chunk_size_kb = 6
field_number Field.stride_size_b = 7
field_number Field.fragment_size_b = 8
field_number Field.use_hugepage = 9
field_number Field.read_write_mix = 10
field_number Field.load_gen_delay = 11
field_number Field.target_duration_s = 12
field_number Field.latency_matrix = 13
field_number Field.bandwidth_matrix = 14
field_number Field.memcpy_matrix = 15
field_number Field.help_ = 16

-- The value of the member, given the members that are bound and their values, and what the class
-- initialises it with.
unfoldable pub member : Field → List Field → List Value → (initial : Value) → Value
member f (t ∷ targets) (v ∷ values) initial =
    let rest = member f targets values initial in
    if field_number f == field_number t then v else rest
member f targets values initial = initial

unfoldable pub number : Value → ℤ
number (int n) = n
number (bool b) = pos 0

unfoldable pub truth : Value → Bool
truth (bool b) = b
truth (int n) = false

unfoldable pub settings : List Field → List Value → Settings
unfolding member number truth
settings targets values =
    let unsigned_member : Field → ℕ → ℕ =
      λ f initial. pos_part (number (member f targets values (int (pos initial)))) in
    let flag_member : Field → Bool = λ f. truth (member f targets values (bool false)) in
    record {
      branch_case = unsigned_member Field.branch_case 0;
      num_threads = unsigned_member Field.num_threads 1;
      region_size_kb = unsigned_member Field.region_size_kb 131072;
      no_binding = flag_member Field.no_binding;
      verbose = flag_member Field.verbose;
      access_pattern = unsigned_member Field.access_pattern 1;
      chunk_size_kb = unsigned_member Field.chunk_size_kb 128;
      stride_size_b = unsigned_member Field.stride_size_b 64;
      fragment_size_b = unsigned_member Field.fragment_size_b 4096;
      use_hugepage = unsigned_member Field.use_hugepage 0;
      read_write_mix = unsigned_member Field.read_write_mix 0;
      load_gen_delay = number (member Field.load_gen_delay targets values (int (pos 0)));
      target_duration_s = unsigned_member Field.target_duration_s 10;
      latency_matrix = flag_member Field.latency_matrix;
      bandwidth_matrix = flag_member Field.bandwidth_matrix;
      memcpy_matrix = flag_member Field.memcpy_matrix;
    }

-- `if (use_hugepage > 0) chunk_size_kb = region_size_kb;`, to 32 bits from 64
unfoldable pub auto_correct : Settings → Settings
auto_correct s =
    if ltb 0 s.use_hugepage then record s { chunk_size_kb = s.region_size_kb % 2 ^ 32 } else s

-- What `parse_options` does: it refuses the arguments or prints the usage, and returns 1, or it
-- returns 0 with the members set.
pub data Outcome : Type 0 where
  refused : Error → Outcome
  usage : Text → Outcome
  configured : Settings → Outcome

unfoldable pub parse_options : Options → List Text → Outcome
unfolding parse member truth help settings auto_correct
parse_options o args = elim (parse o.line args) [
  | err e ↦ refused e
  | ok values ↦
      if truth (member Field.help_ o.targets values (bool false))
      then usage (help o.line)
      else configured (auto_correct (settings o.targets values))
]

-- A line that `dump` prints.
unfoldable pub dump_line : Text → Text → Text
dump_line title text = title ++ text ++ codes "\n"

unfoldable pub dump : TestingType → Settings → Text
unfolding dump_line is_latency is_bandwidth is_latency_bandwidth is_memcpy is_branch_throughput
    get_str_access_pattern get_str_huge_page get_str_rw_mix
dump type s =
    dump_line (codes "threads:           ") (to_string s.num_threads)
    ++ (if not (is_branch_throughput type)
        then dump_line (codes "region size in KB: ") (to_string s.region_size_kb)
        else [])
    ++ (if is_latency type || is_latency_bandwidth type
        then dump_line (codes "chunk size in KB:  ") (to_string s.chunk_size_kb)
          ++ dump_line (codes "stride size in B:  ") (to_string s.stride_size_b)
          ++ dump_line (codes "access pattern:    ")
              (to_string s.access_pattern ++ codes " - " ++ get_str_access_pattern s.access_pattern)
          ++ dump_line (codes "use hugepage:      ")
              (to_string s.use_hugepage ++ codes " - " ++ get_str_huge_page s.use_hugepage)
        else [])
    ++ (if is_bandwidth type || is_latency_bandwidth type
        then dump_line (codes "read/write mix:    ")
            (to_string s.read_write_mix ++ codes " - " ++ get_str_rw_mix s.read_write_mix)
        else [])
    ++ (if is_memcpy type
        then (if s.fragment_size_b % 1024 == 0
            then dump_line (codes "copy size in KB:   ") (to_string (s.fragment_size_b / 1024))
            else dump_line (codes "copy size in B:    ") (to_string s.fragment_size_b))
        else [])
    ++ dump_line (codes "target duration:   ") (to_string s.target_duration_s)
