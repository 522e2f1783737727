-- ===== src/Text.antt =====
-- Texts as lists of bytes: what the program uses of `std::string`, and decimal numbers.
pub mod Decimal
pub mod Equal
use Prim.Native.Char.{code}
use Prim.Native.String.{String}
use mm_mem.Base.{
  ℕ, zero, suc, ◌+◌, ◌-◌, ◌*◌, ◌/◌, ◌%◌, ◌<◌, ◌≡◌, refl, ◌∙◌, ap, Bool, true, false, ◌&&◌, Option,
  none, some, List, [], ◌∷◌, ◌++◌, arith, leb, ◌==◌, if◌then◌else◌,
}

abbrev pub Text : Type 0
Text = List ℕ

-- The bytes of a literal, which is ASCII.
abbrev pub codes : String → Text
codes String.[] = []
codes (String.◌∷◌ c s) = code c ∷ codes s

unfoldable pub text_eq : Text → Text → Bool
text_eq [] [] = true
text_eq (a ∷ s) (b ∷ t) = (a == b) && text_eq s t
text_eq s t = false

-- `s.compare(0, 2, "--") == 0`
unfoldable pub starts_with_dashes : Text → Bool
starts_with_dashes (a ∷ b ∷ s) = (a == b'-') && (b == b'-')
starts_with_dashes s = false

-- What stands before the first `c`, and behind it, if there is one.
unfoldable pub split_at : ℕ → Text → Text × Option Text
split_at c [] = ([], none)
split_at c (a ∷ s) =
    let (before, behind) = split_at c s in if a == c then ([], some s) else (a ∷ before, behind)

unfoldable pub is_digit : ℕ → Bool
is_digit c = leb b'0' c && leb c b'9'

unfoldable pub all_digits : Text → Bool
unfolding is_digit
all_digits [] = true
all_digits (c ∷ s) = is_digit c && all_digits s

-- The number that decimal digits spell behind `n`.
unfoldable pub value_from : ℕ → Text → ℕ
value_from n [] = n
value_from n (c ∷ s) = value_from (n * 10 + (c - b'0')) s

-- `std::to_string` of an unsigned number: the digits of `n` in front of `out`, in at most `fuel`
-- rounds.
unfoldable pub digits : (fuel n : ℕ) → Text → Text
digits zero n out = out
digits (suc fuel) n out =
    let out' = (b'0' + n % 10) ∷ out in
    let more = digits fuel (n / 10) out' in if n / 10 == 0 then out' else more

unfoldable pub to_string : ℕ → Text
unfolding digits
to_string n = digits (suc n) n []
