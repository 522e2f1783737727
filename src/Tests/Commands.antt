-- ===== src/Tests/Commands.antt =====
-- Options of common/command_line.h, with the fixture and inputs of tests/command_line_test.cc.
use mm_mem.CommandLine.{min_value, max_value}
use mm_mem.Base.{
  Bool, List, All, replicate, arith, ◌≡◌, refl, true, false, none, some, [], ◌∷◌, map,
}
use mm_mem.Base.Int.{pos, negsuc}
use mm_mem.Text.{Text, codes, to_string, text_eq, split_at, is_digit, all_digits, value_from}
use mm_mem.CommandLine.{
  CommandLine, OptionSpec, Value, flag, integer, bool, int, empty, group, add, value, flag_option,
  signed, unsigned, signs, is_negative, convert, parse_integer,
}
use mm_mem.CommandLine.Parse.{Result, ok, err, duplicate_option, missing_value, parse}
use mm_mem.CommandLine.Parse.Render.{Distinct, Choice, IsChoice}
use mm_mem.CommandLine.Parse.RoundTrip.{parse-render}
use mm_mem.CommandLine.Integer.{Decimal, InRange, parse_integer_sound}

parsed : parse_integer (signed 32) (codes "-17") ≡ some (negsuc 16)
unfolding parse_integer signs is_negative convert is_digit all_digits value_from
parsed = refl

too_large : parse_integer (unsigned 32) (codes "4294967296") ≡ none
unfolding parse_integer signs is_negative convert is_digit all_digits value_from
too_large = refl

parse_integer_sound_example : Decimal (codes "-17") (negsuc 16) × InRange (signed 32) (negsuc 16)
parse_integer_sound_example = parse_integer_sound (signed 32) (codes "-17") parsed

minus_range : InRange (signed 32) (negsuc 16)
unfolding min_value max_value
minus_range = (omega arith, omega arith)

abbrev fixture : CommandLine
unfolding group value flag_option add empty split_at
fixture = flag_option (codes "verbose,v") (codes "verbose output") (
    value (codes "delay,d") (signed 32) (pos 0) (codes "delay") (
      value (codes "size,b") (unsigned 64) (pos 1024) (codes "region size") (
        value (codes "count,n") (unsigned 32) (pos 4) (codes "thread count")
          (group (codes "Generic options") (empty (codes "Test benchmark"))))))

short_options :
    parse fixture (
      codes "-n2" ∷ codes "-b" ∷ codes "4096" ∷ codes "-d2147483647" ∷ codes "-v" ∷ codes "--" ∷ [])
    ≡ ok (int (pos 2) ∷ int (pos 4096) ∷ int (pos 2147483647) ∷ bool true ∷ [])
unfolding fixture group value flag_option add empty split_at parse parse_integer all_digits
    value_from
short_options = refl

twice :
    parse fixture (codes "--count=1" ∷ codes "-n2" ∷ []) ≡ err (duplicate_option (codes "count"))
unfolding fixture group value flag_option add empty split_at parse parse_integer all_digits
    value_from
twice = refl

no_value :
    parse fixture (codes "--count" ∷ codes "--verbose" ∷ []) ≡ err (missing_value (codes "count"))
unfolding fixture group value flag_option add empty split_at parse
no_value = refl

abbrev is_err : Result (List Value) → Bool
is_err (ok values) = false
is_err (err e) = true

abbrev invalid : List (List Text)
invalid =
    (codes "--unknown" ∷ [])
    ∷ (codes "positional" ∷ [])
    ∷ (codes "--" ∷ codes "positional" ∷ [])
    ∷ (codes "--count" ∷ [])
    ∷ (codes "--count" ∷ codes "--verbose" ∷ [])
    ∷ (codes "--count=" ∷ [])
    ∷ (codes "--count" ∷ codes "-1" ∷ [])
    ∷ (codes "--count=4294967296" ∷ [])
    ∷ (codes "--size=18446744073709551616" ∷ [])
    ∷ (codes "--delay=2147483648" ∷ [])
    ∷ (codes "--delay=-2147483649" ∷ [])
    ∷ (codes "--count=2junk" ∷ [])
    ∷ (codes "--count=1.5" ∷ [])
    ∷ (codes "--count= 2" ∷ [])
    ∷ (codes "--count=++2" ∷ [])
    ∷ (codes "--count=+-2" ∷ [])
    ∷ (codes "--count=+" ∷ [])
    ∷ (codes "--count=1" ∷ codes "-n2" ∷ [])
    ∷ (codes "--verbose=true" ∷ [])
    ∷ (codes "-v1" ∷ [])
    ∷ (codes "--verbose" ∷ codes "-v" ∷ [])
    ∷ []

all_invalid : map (λ args. is_err (parse fixture args)) invalid ≡ replicate 21 true
unfolding fixture group value flag_option add empty split_at parse parse_integer all_digits
    value_from
all_invalid = refl

abbrev delay_spec : OptionSpec
delay_spec = record {
  name = codes "delay";
  alias = codes "d";
  description = codes "delay (default: 0)";
  group = codes "Generic options";
  kind = integer (signed 32);
}

abbrev verbose_spec : OptionSpec
verbose_spec = record {
  name = codes "verbose";
  alias = codes "v";
  description = codes "verbose output";
  group = codes "Generic options";
  kind = flag;
}

abbrev choices : List Choice
choices =
    record { index = 3; spec = verbose_spec; value = bool true }
    ∷ record { index = 2; spec = delay_spec; value = int (negsuc 2147483647) }
    ∷ []

fixture-Distinct : Distinct fixture.options
unfolding fixture group value flag_option add empty split_at text_eq
fixture-Distinct = ground arith

choices-IsChoice : All (IsChoice fixture.options) choices
unfolding fixture group value flag_option add empty split_at min_value max_value to_string
choices-IsChoice = (
  record { there = refl; takes = tt; some_name = λ e. cc; plain = ground arith },
  (
    record {
      there = refl;
      takes = (omega arith, (omega arith, omega arith));
      some_name = λ e. cc;
      plain = ground arith;
    },
    tt,
  ),
)

parse-render_example :
    parse fixture (codes "--verbose" ∷ codes "--delay=-2147483648" ∷ [])
    ≡ ok (int (pos 4) ∷ int (pos 1024) ∷ int (negsuc 2147483647) ∷ bool true ∷ [])
unfolding fixture group value flag_option add empty split_at to_string
parse-render_example =
    parse-render fixture choices fixture-Distinct choices-IsChoice ((omega arith, tt), (tt, tt))
