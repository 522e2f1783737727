-- ===== src/Text/Decimal.antt =====
-- Decimal numbers are read back.
use mm_mem.Base.{
  ℕ, zero, suc, ◌+◌, ◌/◌, ◌%◌, ◌<◌, ◌≡◌, ◌≢◌, refl, ◌∙◌, ap, true, inl, inr, [], ◌∷◌, arith, ◌==◌,
  Bool-cases,
}
use mathlib.Core.List.{cons-ne-nil}
use mm_mem.Text.{Text, all_digits, value_from, digits, to_string}

-- The printed digits are digits, with the value of the number, and there is at least one.
record Prints (n : ℕ) (out t : Text) : Type 0 where
  digit : all_digits t ≡ all_digits out
  value : value_from 0 t ≡ value_from n out
  some_digit : t ≢ []

digit_step : (n : ℕ) (out : Text) → all_digits ((b'0' + n % 10) ∷ out) ≡ all_digits out
unfolding all_digits
digit_step n out = ground arith

value_step :
    (n m : ℕ) (out : Text) → m ≡ n / 10 → value_from m ((b'0' + n % 10) ∷ out) ≡ value_from n out
unfolding value_from
value_step n m out e = ap (λ k. value_from k out) (omega arith)

digits-Prints : (fuel n : ℕ) (out : Text) → n < fuel → Prints n out (digits fuel n out)
unfolding digits
digits-Prints zero n out h = absurd (omega arith)
digits-Prints (suc fuel) n out h =
    let out' = (b'0' + n % 10) ∷ out in
    elim (Bool-cases (n / 10 == 0)) [
      | inl last ↦
          let none_left : 0 ≡ n / 10 = ground arith in
          rw last (record {
            digit = digit_step n out;
            value = value_step n 0 out none_left;
            some_digit = cons-ne-nil (b'0' + n % 10) out;
          })
      | inr more ↦
          let some_left : n / 10 ≢ 0 = ground arith in
          let next = digits-Prints fuel (n / 10) out' (omega arith) in
          rw more (record {
            digit = next.digit ∙ digit_step n out;
            value = next.value ∙ value_step n (n / 10) out refl;
            some_digit = next.some_digit;
          })
    ]

pub to_string-digits : (n : ℕ) → all_digits (to_string n) ≡ true
unfolding to_string all_digits
to_string-digits n = (digits-Prints (suc n) n [] (omega arith)).digit

pub to_string-value : (n : ℕ) → value_from 0 (to_string n) ≡ n
unfolding to_string value_from
to_string-value n = (digits-Prints (suc n) n [] (omega arith)).value

pub to_string-ne-nil : (n : ℕ) → to_string n ≢ []
unfolding to_string
to_string-ne-nil n = (digits-Prints (suc n) n [] (omega arith)).some_digit
