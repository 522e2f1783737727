-- ===== src/CommandLine/Parse/Render.antt =====
-- A command line as it is written for given values, and what `parse` reads in it.
use mathlib.Core.Path.{subst}
use mathlib.Core.Option.{some-injective}
use mm_mem.Base.Int.{ℤ}
use mm_mem.Base.{
  ◌⊎◌, inl, inr, if_true, if_false, get_elem?-All, ℕ, zero, suc, ◌+◌, ◌≤◌, ◌≡◌, ◌≢◌, refl, sym, ap,
  ◌∙◌, true, false, Option, none, some, List, [], ◌∷◌, ◌++◌, arith, get_elem?, get_or, set, All,
}
use mm_mem.Text.{Text, text_eq, split_at, starts_with_dashes}
use mm_mem.Text.Equal.{text_eq_refl}
use mm_mem.CommandLine.{
  IntType, Kind, flag, integer, OptionSpec, Value, bool, int, to_string_ℤ, parse_integer,
}
use mm_mem.CommandLine.Integer.{InRange}
use mm_mem.CommandLine.Integer.RoundTrip.{width, parse_integer-to_string_ℤ}
use mm_mem.CommandLine.Parse.{
  ok, State, is_dashes, is_unexpected, Spelled, spelled, matches, find_option, assign, record_value,
  option_text, round,
}

-- No byte is `=`.
abbrev pub Plain : Text → Type 0
Plain t = All (λ c. c ≢ b'=') t

-- The value of an option, as it is written behind its name.
abbrev pub attachment : Value → Option Text
attachment (bool b) = none
attachment (int n) = some (to_string_ℤ n)

-- `--name` or `--name=value`
abbrev pub long_arg : (name : Text) → Option Text → Text
long_arg name none = b'-' ∷ b'-' ∷ name
long_arg name (some text) = b'-' ∷ b'-' ∷ (name ++ b'=' ∷ text)

split_at-Plain : (name : Text) → Plain name → split_at b'=' name ≡ (name, none)
unfolding split_at
split_at-Plain [] plain = refl
split_at-Plain (c ∷ name) (other, plain) = rw (split_at-Plain name plain) (ground arith)

split_value :
    (name text : Text) → Plain name → split_at b'=' (name ++ b'=' ∷ text) ≡ (name, some text)
unfolding split_at
split_value [] text plain = refl
split_value (c ∷ name) text (other, plain) = rw (split_value name text plain) (ground arith)

-- The argument is read as it was written.
spelled-long_arg :
    (name : Text) (attached : Option Text)
    → Plain name
    → spelled (long_arg name attached)
      ≡ record { long_option = true; name = name; attached = attached }
unfolding spelled starts_with_dashes
spelled-long_arg name none plain = rw (split_at-Plain name plain) refl
spelled-long_arg name (some text) plain = rw (split_value name text plain) refl

pub long_arg_expected :
    (name : Text) (attached : Option Text)
    → name ≢ []
    → (is_unexpected (long_arg name attached) ≡ false)
      × (is_dashes (long_arg name attached) ≡ false)
unfolding is_unexpected is_dashes
long_arg_expected [] attached some_name = absurd (some_name refl)
long_arg_expected (c ∷ name) none some_name = (refl, refl)
long_arg_expected (c ∷ name) (some text) some_name = (refl, refl)

-- No two options share a name.
abbrev pub Distinct : List OptionSpec → Type 0
Distinct [] = Unit
Distinct (a ∷ rest) = All (λ b. text_eq a.name b.name ≡ false) rest × Distinct rest

-- The name of an option finds it.
find_option-name :
    (attached : Option Text) (index i : ℕ) (options : List OptionSpec) (spec : OptionSpec)
    → Distinct options
    → get_elem? options i ≡ some spec
    → find_option
        (record { long_option = true; name = spec.name; attached = attached })
        index
        options
      ≡ some (index + i, spec)
unfolding find_option matches
find_option-name attached index i [] spec distinct at = cc at
find_option-name attached index zero (a ∷ rest) spec distinct at =
    let same = some-injective a spec at in
    if_true _ (ap (λ b. text_eq b.name spec.name) same ∙ text_eq_refl spec.name)
    ∙ ap (λ b. some (index, b)) same
    ∙ ap (λ n. some (n, spec)) (let e : index ≡ index + 0 = omega arith in e)
find_option-name attached index (suc i) (a ∷ rest) spec (others, distinct) at =
    if_false _ (get_elem?-All (λ b. text_eq a.name b.name ≡ false) rest i spec others at)
    ∙ find_option-name attached (suc index) i rest spec distinct at
    ∙ ap (λ n. some (n, spec)) (let e : suc index + i ≡ index + suc i = omega arith in e)

-- A value that an option takes, if it is written: a flag is set, a number is in its range.
abbrev pub Takes : Kind → Value → Type 0
Takes flag (bool true) = Unit
Takes (integer type) (int n) = (width type ≤ 64) × InRange type n
Takes kind value = ⊥

-- What is chosen for an option, with the number of the option.
pub record Choice : Type 0 where
  pub index : ℕ
  pub spec : OptionSpec
  pub value : Value

pub record IsChoice (options : List OptionSpec) (c : Choice) : Type 0 where
  pub there : get_elem? options c.index ≡ some c.spec
  pub takes : Takes c.spec.kind c.value
  pub some_name : c.spec.name ≢ []
  pub plain : Plain c.spec.name

-- The argument of a choice.
abbrev pub render : Choice → Text
render c = long_arg c.spec.name (attachment c.value)

text_of : Option Text → Text
text_of none = []
text_of (some text) = text

Takes-cases :
    (k : Kind) (v : Value)
    → Takes k v
    → ((k ≡ flag) × (v ≡ bool true))
      ⊎ ((type : IntType) × (n : ℤ) × (k ≡ integer type)
          × (v ≡ int n)
          × (parse_integer type (to_string_ℤ n) ≡ some n))
Takes-cases flag (bool true) takes = inl (refl, refl)
Takes-cases flag (bool false) takes = elim takes [ ]
Takes-cases flag (int n) takes = elim takes [ ]
Takes-cases (integer type) (bool b) takes = elim takes [ ]
Takes-cases (integer type) (int n) (narrow, range) =
    inr (type, n, refl, refl, parse_integer-to_string_ℤ type n narrow range)

option_text-Takes :
    (spec : OptionSpec) (v : Value) (rest : List Text)
    → Takes spec.kind v
    → option_text spec (attachment v) rest ≡ ok (text_of (attachment v), false)
unfolding option_text text_of
option_text-Takes spec (bool b) rest takes = elim (Takes-cases spec.kind (bool b) takes) [
  | inl (kind, value) ↦ rw (kind, option_text) refl
  | inr (type, n, kind, value, read) ↦ cc value
]
option_text-Takes spec (int n) rest takes = elim (Takes-cases spec.kind (int n) takes) [
  | inl (kind, value) ↦ cc value
  | inr (type, k, kind, value, read) ↦ rw (kind, option_text) refl
]

assign-Takes :
    (spec : OptionSpec) (v : Value)
    → Takes spec.kind v
    → assign spec (text_of (attachment v)) ≡ ok v
unfolding assign text_of
assign-Takes spec (bool b) takes = elim (Takes-cases spec.kind (bool b) takes) [
  | inl (kind, value) ↦ rw (kind, assign) (ap ok (sym value))
  | inr (type, n, kind, value, read) ↦ cc value
]
assign-Takes spec (int n) takes = elim (Takes-cases spec.kind (int n) takes) [
  | inl (kind, value) ↦ cc value
  | inr (type, k, kind, value, read) ↦
      let same : k ≡ n = cc in
      let read' : parse_integer type (to_string_ℤ n) ≡ some n =
        subst (λ j. parse_integer type (to_string_ℤ j) ≡ some j) same read in
      rw (kind, assign) (rw read' refl)
]

-- The state after a choice.
abbrev pub chosen : Choice → State → State
chosen c s = record { seen = set s.seen c.index true; values = set s.values c.index c.value }

pub round-render :
    (options : List OptionSpec) (c : Choice) (rest : List Text) (s : State)
    → Distinct options
    → IsChoice options c
    → get_or s.seen c.index false ≡ false
    → round options (render c) rest s ≡ ok (chosen c s, false)
unfolding round record_value
round-render options c rest s distinct choice new =
    let written = spelled-long_arg c.spec.name (attachment c.value) choice.plain in
    let expected = (long_arg_expected c.spec.name (attachment c.value) choice.some_name).0 in
    let found : find_option (spelled (render c)) 0 options ≡ some (c.index, c.spec) =
      ap (λ sp. find_option sp 0 options) written
      ∙ find_option-name (attachment c.value) 0 c.index options c.spec distinct choice.there
      ∙ ap (λ n. some (n, c.spec)) (let e : 0 + c.index ≡ c.index = omega arith in e) in
    let text : option_text c.spec (spelled (render c)).attached rest
        ≡ ok (text_of (attachment c.value), false) =
      ap (λ (sp : Spelled). option_text c.spec sp.attached rest) written
      ∙ option_text-Takes c.spec c.value rest choice.takes in
    rw (expected, found, new, text, assign-Takes c.spec c.value choice.takes) refl
