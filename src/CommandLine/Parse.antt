-- ===== src/CommandLine/Parse.antt =====
-- `CommandLine::parse` of common/command_line.h. The exceptions are values; the assignments that
-- an exception leaves behind are not kept, since the callers stop.
pub mod Fits
pub mod Render
pub mod RoundTrip
use mm_mem.Base.{
  ℕ, suc, Bool, true, false, not, ◌&&◌, ◌||◌, Option, none, some, List, [], ◌∷◌, leb, ◌==◌,
  if◌then◌else◌, length, get_or, set,
}
use mm_mem.Text.{Text, text_eq, starts_with_dashes, split_at}
use mm_mem.CommandLine.{parse_integer, flag, integer, OptionSpec, Value, bool, int, CommandLine}

-- What `std::invalid_argument` says, with the argument or the option's name.
pub data Error : Type 0 where
  unexpected_argument : Text → Error
  unknown_option : Text → Error
  duplicate_option : Text → Error
  takes_no_value : Text → Error
  missing_value : Text → Error
  invalid_value : (name text : Text) → Error

pub data Result {ℓ} (A : Type ℓ) : Type ℓ where
  ok : A → Result A
  err : Error → Result A

-- `seen`, and the bound variables.
pub record State : Type 0 where
  pub seen : List Bool
  pub values : List Value

-- `arg == "--"`
unfoldable pub is_dashes : Text → Bool
is_dashes (a ∷ b ∷ []) = (a == b'-') && (b == b'-')
is_dashes arg = false

-- `arg.size() < 2 || arg[0] != '-' || arg == "--"`
unfoldable pub is_unexpected : Text → Bool
unfolding is_dashes
is_unexpected (a ∷ b ∷ s) = not (a == b'-') || is_dashes (a ∷ b ∷ s)
is_unexpected arg = true

-- The name of an option as it is spelled, and the value that is attached to it, if there is one.
pub record Spelled : Type 0 where
  pub long_option : Bool
  pub name : Text
  pub attached : Option Text

-- A long option is `--name` or `--name=value`, a short one `-n` or `-nvalue`. It is asked for only
-- where there are two bytes.
unfoldable pub spelled : Text → Spelled
unfolding starts_with_dashes split_at
spelled (a ∷ b ∷ s) =
    let (name, attached) = split_at b'=' s in
    if starts_with_dashes (a ∷ b ∷ s)
    then record { long_option = true; name = name; attached = attached }
    else (record {
      long_option = false;
      name = b ∷ [];
      attached = if leb (length s) 0 then none else some s;
    })
spelled arg = record { long_option = false; name = []; attached = none }

unfoldable pub matches : Spelled → OptionSpec → Bool
unfolding text_eq
matches s spec = if s.long_option then text_eq spec.name s.name else text_eq spec.alias s.name

-- The first option that matches, with its index.
unfoldable pub find_option : Spelled → (index : ℕ) → List OptionSpec → Option (ℕ × OptionSpec)
unfolding matches
find_option s index [] = none
find_option s index (spec ∷ rest) =
    if matches s spec then some (index, spec) else find_option s (suc index) rest

-- `option.assign(text)`; the outcome is the new value of the variable.
unfoldable pub assign : OptionSpec → Text → Result Value
assign spec text = elim spec.kind [
  | flag ↦ ok (bool true)
  | integer type ↦ elim (parse_integer type text) [
    | none ↦ err (invalid_value spec.name text)
    | some n ↦ ok (int n)
  ]
]

-- The end of a round: the option is seen, and its variable has the value.
unfoldable pub record_value : ℕ → Result Value → State → Result State
record_value index (err e) s = err e
record_value index (ok v) s =
    ok (record { seen = set s.seen index true; values = set s.values index v })

-- The text of an option: attached, from the next argument, or none for a flag; and whether the
-- next argument is used up.
unfoldable pub option_text : OptionSpec → Option Text → (rest : List Text) → Result (Text × Bool)
unfolding starts_with_dashes
option_text spec attached rest = elim spec.kind [
  | flag ↦ elim attached [ none ↦ ok ([], false) | some text ↦ err (takes_no_value spec.name) ]
  | integer type ↦ elim attached [
    | some text ↦ ok (text, false)
    | none ↦ elim rest [
      | [] ↦ err (missing_value spec.name)
      | next ∷ _ ↦
          if starts_with_dashes next then err (missing_value spec.name) else ok (next, true)
    ]
  ]
]

-- One round on the argument `arg`: the new state, and whether the next argument is used up.
unfoldable pub round :
    List OptionSpec → (arg : Text) → (rest : List Text) → State → Result (State × Bool)
unfolding is_unexpected spelled find_option option_text assign record_value
round options arg rest s =
    if is_unexpected arg
    then err (unexpected_argument arg)
    else (elim (find_option (spelled arg) 0 options) [
      | none ↦ err (unknown_option arg)
      | some (index, spec) ↦
          if get_or s.seen index false
          then err (duplicate_option spec.name)
          else (elim (option_text spec (spelled arg).attached rest) [
            | err e ↦ err e
            | ok (text, used) ↦ elim (record_value index (assign spec text) s) [
              | err e ↦ err e
              | ok s' ↦ ok (s', used)
            ]
          ])
    ])

-- The loop over the arguments. A last `--` is passed over.
unfoldable pub parse_loop : List OptionSpec → List Text → State → Result State
parse_loop options [] s = ok s
parse_loop options (arg ∷ []) s =
    if is_dashes arg
    then ok s
    else (elim (round options arg [] s) [ err e ↦ err e | ok (s', used) ↦ ok s' ])
parse_loop options (arg ∷ next ∷ rest) s = elim (round options arg (next ∷ rest) s) [
  | err e ↦ err e
  | ok (s', used) ↦ elim used [
    | true ↦ parse_loop options rest s'
    | false ↦ parse_loop options (next ∷ rest) s'
  ]
]

unfoldable pub none_seen : List OptionSpec → List Bool
none_seen [] = []
none_seen (spec ∷ rest) = false ∷ none_seen rest

-- The arguments are those behind the program's name; the result has the new values.
unfoldable pub parse : CommandLine → List Text → Result (List Value)
unfolding parse_loop none_seen round is_dashes
parse c args =
    elim (parse_loop c.options args (record { seen = none_seen c.options; values = c.values })) [
      | err e ↦ err e
      | ok s ↦ ok s.values
    ]
