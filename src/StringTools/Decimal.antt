-- ===== src/StringTools/Decimal.antt =====
-- Numbers that are printed and read back.
use homecontrol_server.Common.{
  ℕ, zero, suc, ◌+◌, ◌/◌, ◌%◌, ◌^◌, ◌<◌, ◌≡◌, refl, ap, sym, ◌∙◌, pos, true, false, Text, [], ◌∷◌,
  ltb, lt→ltb, ◌==◌, arith, All, Bool-cases, inl, inr,
}
use homecontrol_server.StringTools.{
  is_digit, span_digits, digits_value, is_space, skip_spaces, string_to_int, signed_number,
  int_of_digits, decimal_digits, to_decimal,
}

digits_value-decimal_digits :
    (fuel n : ℕ) (out : Text)
    → n < fuel
    → digits_value 0 (decimal_digits fuel n out) ≡ digits_value n out
unfolding decimal_digits
digits_value-decimal_digits zero n out h = elim h [ ]
digits_value-decimal_digits (suc fuel) n out h = elim (Bool-cases (ltb n 10)) [
  | inl small ↦ rw small (ap (λ k. digits_value k out) (omega arith))
  | inr large ↦ rw large (
      digits_value-decimal_digits fuel (n / 10) ((b'0' + n % 10) ∷ out) (ground arith)
      ∙ ap (λ k. digits_value k out) (omega arith))
]

pub digits_value-to_decimal : (n : ℕ) → digits_value 0 (to_decimal n) ≡ n
unfolding to_decimal
digits_value-to_decimal n = digits_value-decimal_digits (suc n) n [] (omega arith)

-- Different numbers have different texts.
pub to_decimal-injective : (n k : ℕ) → to_decimal n ≡ to_decimal k → n ≡ k
to_decimal-injective n k e =
    sym (digits_value-to_decimal n) ∙ ap (digits_value 0) e ∙ digits_value-to_decimal k

abbrev IsDigit : ℕ → Type 0
IsDigit c = is_digit c ≡ true

-- One or more digits.
abbrev IsNumeral : Text → Type 0
IsNumeral [] = ⊥
IsNumeral (c ∷ s) = All IsDigit (c ∷ s)

decimal_digits-IsNumeral :
    (fuel n : ℕ) (out : Text) → IsNumeral out → IsNumeral (decimal_digits fuel n out)
unfolding decimal_digits is_digit
decimal_digits-IsNumeral zero n out h = h
decimal_digits-IsNumeral (suc fuel) n [] h = elim h [ ]
decimal_digits-IsNumeral (suc fuel) n (c ∷ out) h = elim (Bool-cases (ltb n 10)) [
  | inl small ↦ rw small (ground arith, h)
  | inr large ↦
      rw large
        (decimal_digits-IsNumeral fuel (n / 10) ((b'0' + n % 10) ∷ c ∷ out) (ground arith, h))
]

pub to_decimal-IsNumeral : (n : ℕ) → IsNumeral (to_decimal n)
unfolding to_decimal decimal_digits is_digit
to_decimal-IsNumeral n = elim (Bool-cases (ltb n 10)) [
  | inl small ↦ rw small (ground arith, tt)
  | inr large ↦
      rw large (decimal_digits-IsNumeral n (n / 10) ((b'0' + n % 10) ∷ []) (ground arith, tt))
]

span_digits-numeral : (s : Text) → All IsDigit s → span_digits s ≡ (s, [])
unfolding span_digits
span_digits-numeral [] h = refl
span_digits-numeral (c ∷ s) h = rw (span_digits-numeral s h.1) (rw h.0 refl)

-- A digit is neither a space nor a sign.
digit_first :
    (c : ℕ) → IsDigit c → (is_space c ≡ false) × ((c == b'-') ≡ false) × ((c == b'+') ≡ false)
unfolding is_digit is_space
digit_first c h = (ground arith, ground arith, ground arith)

pub skip_spaces-numeral : (s : Text) → IsNumeral s → skip_spaces s ≡ s
unfolding skip_spaces
skip_spaces-numeral [] h = elim h [ ]
skip_spaces-numeral (c ∷ s) h = rw ((digit_first c h.0).0) refl

string_to_int-numeral :
    (s : Text) → IsNumeral s → digits_value 0 s < 2 ^ 31 → string_to_int s ≡ pos (digits_value 0 s)
unfolding string_to_int signed_number int_of_digits
string_to_int-numeral [] h small = elim h [ ]
string_to_int-numeral (c ∷ s) h small =
    let (space, minus, plus) = digit_first c h.0 in
    rw (skip_spaces-numeral (c ∷ s) h) (
      rw (minus, plus)
        (rw (span_digits-numeral (c ∷ s) h)
          (rw (lt→ltb (digits_value 0 (c ∷ s)) (2 ^ 31) small) refl)))

-- A number that an `int` holds, printed by `std::to_string`, is read back by `StringToNumber<int>`.
pub string_to_int-to_decimal : (n : ℕ) → n < 2 ^ 31 → string_to_int (to_decimal n) ≡ pos n
string_to_int-to_decimal n h =
    string_to_int-numeral (to_decimal n) (to_decimal-IsNumeral n) (rw (digits_value-to_decimal n) h)
    ∙ ap pos (digits_value-to_decimal n)
