-- ===== src/Configuration/Settings/Ranges.antt =====
-- The ranges of the members after `parse_options`.
use mm_mem.Base.{
  ℕ, ◌^◌, ◌<◌, ◌≡◌, refl, sym, false, inl, inr, List, [], ◌∷◌, arith, ltb, ◌==◌, ==_iff,
  if◌then◌else◌, Bool-cases,
}
use mathlib.Core.Path.{subst}
use mm_mem.Base.Int.{pos, pos_part}
use mm_mem.Text.{Text}
use mm_mem.CommandLine.{
  signed, unsigned, Kind, flag, integer, OptionSpec, Value, bool, int, min_value, max_value, empty,
  group, add, value, flag_option,
}
use mm_mem.CommandLine.Integer.{InRange}
use mm_mem.CommandLine.Help.{help}
use mm_mem.CommandLine.Parse.{Error, Result, ok, err, parse}
use mm_mem.CommandLine.Parse.Fits.{IsOf, Fits, OnOk, on_ok, on_err, parse-Fits}
use mm_mem.Configuration.{
  TestingType, latency, bandwidth, latency_bandwidth, memcpy, branch_throughput, Field, Options,
  configure, bind_value, bind_flag, bind_group, add_generic_options, add_latency_options,
  add_bandwidth_options, add_memcpy_options, is_latency, is_bandwidth, is_latency_bandwidth,
  is_memcpy, is_branch_throughput,
}
use mm_mem.Configuration.Defaults.{configure_lem}
use mm_mem.Configuration.Settings.{
  Settings, field_number, member, number, truth, settings, auto_correct, Outcome, configured,
  refused, usage, parse_options,
}

-- The types of the members, by their number.
abbrev kind_number : ℕ → Kind
kind_number n =
    if n == 2
    then integer (unsigned 64)
    else if n == 8
    then integer (unsigned 64)
    else if n == 11
    then integer (signed 32)
    else if n == 3
    then flag
    else if n == 4
    then flag
    else if ltb 12 n
    then flag
    else integer (unsigned 32)

abbrev kind_of : Field → Kind
kind_of f = kind_number (field_number f)

-- Each option is of the type of the member that it is bound to.
abbrev Typed : List Field → List OptionSpec → Type 0
Typed [] [] = Unit
Typed (t ∷ targets) (o ∷ options) = (o.kind ≡ kind_of t) × Typed targets options
Typed targets options = ⊥

configure-Typed :
    (type : TestingType) (n : ℕ) → Typed (configure type n).targets (configure type n).line.options
unfolding configure bind_value bind_flag bind_group add_generic_options add_latency_options
    add_bandwidth_options add_memcpy_options is_latency is_bandwidth is_latency_bandwidth is_memcpy
    is_branch_throughput empty group add value flag_option
configure-Typed latency n = ground arith
configure-Typed bandwidth n = ground arith
configure-Typed latency_bandwidth n = ground arith
configure-Typed memcpy n = ground arith
configure-Typed branch_throughput n = ground arith

-- A member has a value of its type, whether it is bound or not.
member-IsOf :
    (f : Field) (targets : List Field) (options : List OptionSpec) (values : List Value)
    (initial : Value)
    → Typed targets options
    → Fits options values
    → IsOf (kind_of f) initial
    → IsOf (kind_of f) (member f targets values initial)
unfolding member
member-IsOf f [] options [] initial typed fits first = first
member-IsOf f [] options (v ∷ values) initial typed fits first = first
member-IsOf f (t ∷ targets) options [] initial typed fits first = first
member-IsOf f (t ∷ targets) [] (v ∷ values) initial typed fits first = elim typed [ ]
member-IsOf f (t ∷ targets) (o ∷ options) (v ∷ values) initial (kind, typed) (is_of, fits) first =
    let rest = member-IsOf f targets options values initial typed fits first in
    elim (Bool-cases (field_number f == field_number t)) [
      | inl same ↦ rw same (
          subst (λ k. IsOf (kind_number k) v) (sym ((==_iff _ _).0 same))
            (subst (λ k. IsOf k v) kind is_of))
      | inr other ↦ rw other rest
    ]

unsigned_lem :
    (bits : ℕ) (v : Value)
    → 0 < 2 ^ bits
    → IsOf (integer (unsigned bits)) v
    → pos_part (number v) < 2 ^ bits
unfolding number max_value min_value
unsigned_lem bits (int n) some (low, high) = ground arith
unsigned_lem bits (bool b) some is_of = elim is_of [ ]

-- What the types of the members promise.
pub record HasRanges (s : Settings) : Type 0 where
  pub branch_case : s.branch_case < 2 ^ 32
  pub num_threads : s.num_threads < 2 ^ 32
  pub region_size_kb : s.region_size_kb < 2 ^ 64
  pub access_pattern : s.access_pattern < 2 ^ 32
  pub chunk_size_kb : s.chunk_size_kb < 2 ^ 32
  pub stride_size_b : s.stride_size_b < 2 ^ 32
  pub fragment_size_b : s.fragment_size_b < 2 ^ 64
  pub use_hugepage : s.use_hugepage < 2 ^ 32
  pub read_write_mix : s.read_write_mix < 2 ^ 32
  pub load_gen_delay : InRange (signed 32) s.load_gen_delay
  pub target_duration_s : s.target_duration_s < 2 ^ 32

signed_lem : (v : Value) → IsOf (integer (signed 32)) v → InRange (signed 32) (number v)
unfolding number
signed_lem (int n) is_of = is_of
signed_lem (bool b) is_of = elim is_of [ ]

module _ (targets : List Field) (options : List OptionSpec) (values : List Value)
    (typed : Typed targets options) (fits : Fits options values) where
  in_range :
      (bits : ℕ) (f : Field) (initial : ℕ)
      → kind_of f ≡ integer (unsigned bits)
      → initial < 2 ^ bits
      → pos_part (number (member f targets values (int (pos initial)))) < 2 ^ bits
  unfolding max_value min_value
  in_range bits f initial kind below =
      unsigned_lem bits (member f targets values (int (pos initial))) (omega arith) (
        subst (λ k. IsOf k (member f targets values (int (pos initial)))) kind
          (member-IsOf f targets options values (int (pos initial)) typed fits
            (subst (λ k. IsOf k (int (pos initial))) (sym kind) (ground arith))))

  settings-HasRanges : HasRanges (settings targets values)
  unfolding settings max_value min_value
  settings-HasRanges = record {
    branch_case = in_range 32 Field.branch_case 0 refl (omega arith);
    num_threads = in_range 32 Field.num_threads 1 refl (omega arith);
    region_size_kb = in_range 64 Field.region_size_kb 131072 refl (omega arith);
    access_pattern = in_range 32 Field.access_pattern 1 refl (omega arith);
    chunk_size_kb = in_range 32 Field.chunk_size_kb 128 refl (omega arith);
    stride_size_b = in_range 32 Field.stride_size_b 64 refl (omega arith);
    fragment_size_b = in_range 64 Field.fragment_size_b 4096 refl (omega arith);
    use_hugepage = in_range 32 Field.use_hugepage 0 refl (omega arith);
    read_write_mix = in_range 32 Field.read_write_mix 0 refl (omega arith);
    load_gen_delay = signed_lem (member Field.load_gen_delay targets values (int (pos 0))) (
        member-IsOf Field.load_gen_delay targets options values (int (pos 0)) typed fits
          (ground arith));
    target_duration_s = in_range 32 Field.target_duration_s 10 refl (omega arith);
  }

auto_correct-HasRanges : (s : Settings) → HasRanges s → HasRanges (auto_correct s)
unfolding auto_correct
auto_correct-HasRanges s h = elim (Bool-cases (ltb 0 s.use_hugepage)) [
  | inl huge ↦ rw huge (record {
    branch_case = h.branch_case;
    num_threads = h.num_threads;
    region_size_kb = h.region_size_kb;
    access_pattern = h.access_pattern;
    chunk_size_kb = omega arith;
    stride_size_b = h.stride_size_b;
    fragment_size_b = h.fragment_size_b;
    use_hugepage = h.use_hugepage;
    read_write_mix = h.read_write_mix;
    load_gen_delay = h.load_gen_delay;
    target_duration_s = h.target_duration_s;
  })
  | inr plain ↦ rw plain h
]

-- What holds of the settings, where there are some.
pub data OnConfigured (P : Settings → Type 0) : Outcome → Type 0 where
  on_configured : {s : Settings} → P s → OnConfigured P (configured s)
  on_refused : {e : Error} → OnConfigured P (refused e)
  on_usage : {text : Text} → OnConfigured P (usage text)

configured_of :
    (o : Options) (r : Result (List Value))
    → Typed o.targets o.line.options
    → OnOk (Fits o.line.options) r
    → OnConfigured HasRanges (elim r [
      | err e ↦ refused e
      | ok values ↦
          if truth (member Field.help_ o.targets values (bool false))
          then usage (help o.line)
          else configured (auto_correct (settings o.targets values))
    ])
configured_of o r typed (on_ok {a = values} fits) =
    elim (Bool-cases (truth (member Field.help_ o.targets values (bool false)))) [
      | inl wanted ↦ rw wanted on_usage
      | inr go ↦ rw go (
          on_configured (
            auto_correct-HasRanges (settings o.targets values)
              (settings-HasRanges o.targets o.line.options values typed fits)))
    ]
configured_of o r typed on_err = on_refused

-- In each test, for every number of allowed cpus and every command line, if parse_options gives a
-- configuration, then each number in it is in the range of the type of its member, the corrected
-- chunk size included.
pub parse_options-HasRanges :
    (type : TestingType) (allowed_cpus : ℕ) (args : List Text)
    → OnConfigured HasRanges (parse_options (configure type allowed_cpus) args)
unfolding parse_options
parse_options-HasRanges type allowed_cpus args =
    let o = configure type allowed_cpus in
    configured_of o (parse o.line args) (configure-Typed type allowed_cpus)
      (parse-Fits o.line args (configure_lem type allowed_cpus).0)
