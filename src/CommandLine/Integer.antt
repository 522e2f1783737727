-- ===== src/CommandLine/Integer.antt =====
-- What the integer options of common/command_line.h accept.
pub mod RoundTrip
use mm_mem.Base.{
  ℕ, suc, ◌≤◌, ◌≡◌, ◌≢◌, refl, sym, inl, inr, Bool, true, false, not, ◌||◌, none, some, [], ◌∷◌,
  arith, ltb, leb, ◌==◌, if◌then◌else◌, length, Bool-cases, ==_iff,
}
use mathlib.Core.Path.{subst}
use mathlib.Core.List.{cons-ne-nil}
use mm_mem.Base.Int.{ℤ, pos, ◌≤ℤ◌}
use mm_mem.Text.{Text, all_digits, value_from}
use mm_mem.CommandLine.{
  IntType, signed, unsigned, max_value, min_value, signs, is_negative, negated, convert,
  parse_integer,
}

-- `text` is a decimal integer: at least one digit, behind at most one sign.
pub data Decimal : Text → ℤ → Type 0 where
  plain : {t : Text} → t ≢ [] → all_digits t ≡ true → Decimal t (pos (value_from 0 t))
  plus : {t : Text} → t ≢ [] → all_digits t ≡ true → Decimal (b'+' ∷ t) (pos (value_from 0 t))
  minus : {t : Text} → t ≢ [] → all_digits t ≡ true → Decimal (b'-' ∷ t) (negated (value_from 0 t))

-- The range of the type.
abbrev pub InRange : IntType → ℤ → Type 0
InRange type n = (min_value type ≤ℤ n) × (n ≤ℤ max_value type)

signs_zero : (s : Text) → (signs s).0 ≡ 0 → (signs s).1 ≡ s
unfolding signs
signs_zero [] h = refl
signs_zero (c ∷ s) h = ground arith

-- The checks before the conversion.
abbrev pub rejected : ℕ × Text → Bool
rejected (sign_count, rest) = leb (length rest) 0 || ltb 1 sign_count || not (all_digits rest)

pub parse_integer-convert :
    (type : IntType) (text : Text)
    → parse_integer type text
      ≡ (if rejected (signs text) then none else convert type (is_negative text) (signs text).1)
unfolding parse_integer
parse_integer-convert type text = refl

-- The number that the sign and the digits stand for.
abbrev pub signed_value : Bool → Text → ℤ
signed_value negative rest =
    if negative then negated (value_from 0 rest) else pos (value_from 0 rest)

convert_sound :
    (type : IntType) (negative : Bool) (rest : Text) {n : ℤ}
    → convert type negative rest ≡ some n
    → (n ≡ signed_value negative rest) × InRange type n
unfolding convert min_value
convert_sound (signed bits) true rest h = ground arith
convert_sound (signed bits) false rest h = ground arith
convert_sound (unsigned bits) true rest h = cc
convert_sound (unsigned bits) false rest h = ground arith

rejected-nil :
    (n : ℕ) (rest : Text)
    → rejected (n, rest) ≡ false
    → (rest ≢ []) × (all_digits rest ≡ true) × (n ≤ 1)
rejected-nil n [] h = ground arith
rejected-nil n (c ∷ rest) h = (cons-ne-nil c rest, ground arith, ground arith)

-- Behind one sign, the digits are all of the text.
after_sign : (s : Text) → rejected (suc (signs s).0, (signs s).1) ≡ false → (signs s).1 ≡ s
after_sign s h = signs_zero s (omega (arith, (rejected-nil _ (signs s).1 h).2))

abbrev IsShaped : Text → Type 0
IsShaped text = Decimal text (signed_value (is_negative text) (signs text).1)

plus_shape : (s : Text) → rejected (signs (b'+' ∷ s)) ≡ false → IsShaped (b'+' ∷ s)
unfolding signs is_negative
plus_shape s h =
    let (some_digit, digits, one) = rejected-nil (suc (signs s).0) (signs s).1 h in
    let e = after_sign s h in
    rw e (plus (subst (λ t. t ≢ []) e some_digit) (subst (λ t. all_digits t ≡ true) e digits))

minus_shape : (s : Text) → rejected (signs (b'-' ∷ s)) ≡ false → IsShaped (b'-' ∷ s)
unfolding signs is_negative
minus_shape s h =
    let (some_digit, digits, one) = rejected-nil (suc (signs s).0) (signs s).1 h in
    let e = after_sign s h in
    rw e (minus (subst (λ t. t ≢ []) e some_digit) (subst (λ t. all_digits t ≡ true) e digits))

plain_shape :
    (c : ℕ) (s : Text)
    → (c == b'+') ≡ false
    → (c == b'-') ≡ false
    → rejected (signs (c ∷ s)) ≡ false
    → IsShaped (c ∷ s)
unfolding signs is_negative
plain_shape c s not_plus not_minus =
    rw (not_plus, not_minus)
      λ h. let (some_digit, digits, one) = rejected-nil 0 (c ∷ s) h in plain some_digit digits

shape : (text : Text) → rejected (signs text) ≡ false → IsShaped text
shape [] h = ground (arith, signs_nil)
  where
    signs_nil : signs [] ≡ (0, [])
    signs_nil = unfold signs in refl
shape (c ∷ s) h = elim (Bool-cases (c == b'+')) [
  | inl is_plus ↦
      subst (λ x. rejected (signs (x ∷ s)) ≡ false → IsShaped (x ∷ s))
        (sym ((==_iff c b'+').0 is_plus)) (plus_shape s) h
  | inr not_plus ↦ elim (Bool-cases (c == b'-')) [
    | inl is_minus ↦
        subst (λ x. rejected (signs (x ∷ s)) ≡ false → IsShaped (x ∷ s))
          (sym ((==_iff c b'-').0 is_minus)) (minus_shape s) h
    | inr not_minus ↦ plain_shape c s not_plus not_minus h
  ]
]

-- An integer option accepts only a decimal integer with at most one sign that lies in the range of
-- its type, and its result is the value of the digits with that sign.
pub parse_integer_sound :
    (type : IntType) (text : Text) {n : ℤ}
    → parse_integer type text ≡ some n
    → Decimal text n × InRange type n
parse_integer_sound type text {n} h = elim (Bool-cases (rejected (signs text))) [
  | inl bad ↦ absurd (cc (h, parse_integer-convert type text, bad))
  | inr good ↦
      let got : convert type (is_negative text) (signs text).1 ≡ some n =
        ground (arith, h, parse_integer-convert type text, good) in
      let (same, range) = convert_sound type (is_negative text) (signs text).1 got in
      (subst (Decimal text) (sym same) (shape text good), range)
]
