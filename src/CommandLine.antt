-- ===== src/CommandLine.antt =====
-- The parser of common/command_line.h. A bound variable is a place in the list of values; the
-- closure that assigns to it is the option's kind.
pub mod Integer
pub mod Parse
pub mod Help
use mm_mem.Base.{
  ℕ, zero, suc, ◌+◌, ◌-◌, ◌^◌, Bool, true, false, not, ◌&&◌, ◌||◌, Option, none, some, ◌>>=◌, List,
  [], ◌∷◌, ◌++◌, ltb, leb, ◌==◌, if◌then◌else◌, length, get_or, set,
}
use mm_mem.Base.Int.{ℤ, pos, negsuc, leb_ℤ}
use mm_mem.Text.{
  Text, codes, to_string, text_eq, starts_with_dashes, split_at, all_digits, value_from,
}

-- An integer type by its width in bits.
pub data IntType : Type 0 where
  signed : ℕ → IntType
  unsigned : ℕ → IntType

-- `std::numeric_limits<T>::max()`
unfoldable pub max_value : IntType → ℤ
max_value (signed bits) = pos (2 ^ (bits - 1) - 1)
max_value (unsigned bits) = pos (2 ^ bits - 1)

-- `std::numeric_limits<T>::min()`
unfoldable pub min_value : IntType → ℤ
min_value (signed bits) = negsuc (2 ^ (bits - 1) - 1)
min_value (unsigned bits) = pos 0

-- How many `+` and `-` stand first, and what follows: `find_first_not_of("+-")`.
unfoldable pub signs : Text → ℕ × Text
signs [] = (0, [])
signs (c ∷ s) =
    let (n, rest) = signs s in if c == b'+' || c == b'-' then (suc n, rest) else (0, c ∷ s)

unfoldable pub is_negative : Text → Bool
is_negative [] = false
is_negative (c ∷ s) = c == b'-'

-- The negative of a number.
unfoldable pub negated : ℕ → ℤ
negated zero = pos 0
negated (suc n) = negsuc n

-- `std::stoll` or `std::stoull` and the check of the range, given the text behind the signs. `none`
-- is an exception: both library functions throw where the number does not fit into 64 bits.
unfoldable pub convert : IntType → (negative : Bool) → Text → Option ℤ
unfolding max_value min_value negated
convert type negative rest =
    let n = value_from 0 rest in
    elim type [
      | signed bits ↦
          let parsed = if negative then negated n else pos n in
          let fits_64 = leb_ℤ (negsuc (2 ^ 63 - 1)) parsed && leb_ℤ parsed (pos (2 ^ 63 - 1)) in
          if fits_64
            && leb_ℤ (min_value (signed bits)) parsed
            && leb_ℤ parsed (max_value (signed bits))
          then some parsed
          else none
      | unsigned bits ↦
          if negative
          then none
          else if leb n (2 ^ 64 - 1) && leb_ℤ (pos n) (max_value (unsigned bits))
          then some (pos n)
          else none
    ]

-- The closure of `value`: the checks of the text, then the conversion.
unfoldable pub parse_integer : IntType → Text → Option ℤ
unfolding signs is_negative convert
parse_integer type text =
    let (sign_count, rest) = signs text in
    if leb (length rest) 0 || ltb 1 sign_count || not (all_digits rest)
    then none
    else convert type (is_negative text) rest

pub data Kind : Type 0 where
  flag : Kind
  integer : IntType → Kind

-- `struct Option`
pub record OptionSpec : Type 0 where
  pub name : Text
  pub alias : Text
  pub description : Text
  pub group : Text
  pub kind : Kind

pub data Value : Type 0 where
  bool : Bool → Value
  int : ℤ → Value

-- The parser, with the variables that its options are bound to.
pub record CommandLine : Type 0 where
  pub title : Text
  pub group_name : Text
  pub options : List OptionSpec
  pub values : List Value

unfoldable pub empty : Text → CommandLine
empty title = record { title = title; group_name = []; options = []; values = [] }

unfoldable pub group : Text → CommandLine → CommandLine
group name c = record c { group_name = name }

-- `add`, with the value that the variable starts with
unfoldable pub add : (names description : Text) → Kind → Value → CommandLine → CommandLine
add names description kind start c =
    let (name, behind) = split_at b',' names in
    let alias : Text = elim behind [ none ↦ [] | some a ↦ a ] in
    let spec : OptionSpec = record {
      name = name;
      alias = alias;
      description = description;
      group = c.group_name;
      kind = kind;
    } in
    record c { options = c.options ++ spec ∷ []; values = c.values ++ start ∷ [] }

-- `std::to_string` of a signed number
unfoldable pub to_string_ℤ : ℤ → Text
to_string_ℤ (pos n) = to_string n
to_string_ℤ (negsuc n) = b'-' ∷ to_string (suc n)

-- The default is given as it is after the cast to the variable's type.
unfoldable pub value :
    (names : Text) → IntType → ℤ → (description : Text) → CommandLine → CommandLine
unfolding add to_string_ℤ
value names type default description =
    add names (description ++ codes " (default: " ++ to_string_ℤ default ++ codes ")")
      (integer type) (int default)

unfoldable pub flag_option : (names description : Text) → CommandLine → CommandLine
unfolding add
flag_option names description = add names description flag (bool false)
