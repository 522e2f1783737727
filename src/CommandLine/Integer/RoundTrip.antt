-- ===== src/CommandLine/Integer/RoundTrip.antt =====
-- The integer options read a printed number back.
use mm_mem.Base.{ℕ, suc, ◌-◌, ◌^◌, ◌≤◌, ◌≡◌, ◌≢◌, refl, ◌∙◌, ap, true, false, some, [], ◌∷◌, arith}
use native.Mathlib.Nat.{pow-le-pow_right}
use mm_mem.Base.Int.{ℤ, pos, negsuc}
use mm_mem.Text.{Text, is_digit, all_digits, value_from, to_string}
use mm_mem.Text.Decimal.{to_string-digits, to_string-value, to_string-ne-nil}
use mm_mem.CommandLine.{
  IntType, signed, unsigned, max_value, min_value, signs, is_negative, negated, convert,
  parse_integer, to_string_ℤ,
}
use mm_mem.CommandLine.Integer.{InRange, rejected, parse_integer-convert}

-- The bits of a type.
abbrev pub width : IntType → ℕ
width (signed bits) = bits
width (unsigned bits) = bits

pow_64 : (bits : ℕ) → bits ≤ 64 → 2 ^ bits ≤ 2 ^ 64
pow_64 bits h = pow-le-pow_right (omega arith) {j = 64} h

pow_63 : (bits : ℕ) → bits ≤ 64 → 2 ^ (bits - 1) ≤ 2 ^ 63
pow_63 bits h = pow-le-pow_right (omega arith) {j = 63} (omega arith)

signs_digits : (t : Text) → all_digits t ≡ true → signs t ≡ (0, t)
unfolding signs all_digits is_digit
signs_digits [] h = refl
signs_digits (c ∷ s) h = ground arith

positive_digits : (t : Text) → all_digits t ≡ true → is_negative t ≡ false
unfolding is_negative all_digits is_digit
positive_digits [] h = refl
positive_digits (c ∷ s) h = ground arith

accepted_digits : (t : Text) → t ≢ [] → all_digits t ≡ true → rejected (0, t) ≡ false
accepted_digits [] some_digit h = absurd (some_digit refl)
accepted_digits (c ∷ s) some_digit h = rw h (ground arith)

convert_pos :
    (type : IntType) (rest : Text)
    → width type ≤ 64
    → InRange type (pos (value_from 0 rest))
    → convert type false rest ≡ some (pos (value_from 0 rest))
unfolding convert min_value max_value
convert_pos (signed bits) rest h (low, high) = ground (arith, pow_63 bits h)
convert_pos (unsigned bits) rest h (low, high) = ground (arith, pow_64 bits h)

convert_neg :
    (bits : ℕ) (rest : Text) (k : ℕ)
    → bits ≤ 64
    → value_from 0 rest ≡ suc k
    → InRange (signed bits) (negsuc k)
    → convert (signed bits) true rest ≡ some (negsuc k)
unfolding convert min_value max_value negated
convert_neg bits rest k h value (low, high) = rw value (ground (arith, pow_63 bits h))

pos-to_string :
    (type : IntType) (n : ℕ)
    → width type ≤ 64
    → InRange type (pos n)
    → parse_integer type (to_string n) ≡ some (pos n)
pos-to_string type n h range =
    let t = to_string n in
    let digits = to_string-digits n in
    let value = to_string-value n in
    parse_integer-convert type t
    ∙ rw
        (
          signs_digits t digits,
          positive_digits t digits,
          accepted_digits t (to_string-ne-nil n) digits,
        )
        (convert_pos type t h (rw value range) ∙ ap (λ k. some (pos k)) value)

signs_minus : (t : Text) → all_digits t ≡ true → signs (b'-' ∷ t) ≡ (1, t)
unfolding signs
signs_minus t digits = rw (signs_digits t digits) refl

accepted_minus : (t : Text) → t ≢ [] → all_digits t ≡ true → rejected (1, t) ≡ false
accepted_minus [] some_digit h = absurd (some_digit refl)
accepted_minus (c ∷ s) some_digit h = rw h (ground arith)

minus_negative : (t : Text) → is_negative (b'-' ∷ t) ≡ true
unfolding is_negative
minus_negative t = refl

neg-to_string :
    (bits k : ℕ)
    → bits ≤ 64
    → InRange (signed bits) (negsuc k)
    → parse_integer (signed bits) (b'-' ∷ to_string (suc k)) ≡ some (negsuc k)
neg-to_string bits k h range =
    let t = to_string (suc k) in
    let digits = to_string-digits (suc k) in
    parse_integer-convert (signed bits) (b'-' ∷ t)
    ∙ rw
        (signs_minus t digits, minus_negative t, accepted_minus t (to_string-ne-nil (suc k)) digits)
        (convert_neg bits t k h (to_string-value (suc k)) range)

-- An option of at most 64 bits reads back every number of its range as it is printed.
pub parse_integer-to_string_ℤ :
    (type : IntType) (n : ℤ)
    → width type ≤ 64
    → InRange type n
    → parse_integer type (to_string_ℤ n) ≡ some n
unfolding to_string_ℤ min_value
parse_integer-to_string_ℤ type (pos n) h range = pos-to_string type n h range
parse_integer-to_string_ℤ (signed bits) (negsuc k) h range = neg-to_string bits k h range
parse_integer-to_string_ℤ (unsigned bits) (negsuc k) h (low, high) = absurd (omega arith)
