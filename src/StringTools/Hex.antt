-- ===== src/StringTools/Hex.antt =====
-- homecontrol/StringTools.cpp: numbers in hexadecimal. `<<` and `>>` of a stream are those of the
-- standard library under `std::hex`.
use homecontrol_server.Common.{
  ℕ, zero, suc, ◌+◌, ◌-◌, ◌*◌, ◌/◌, ◌%◌, ◌^◌, ◌<◌, ◌≡◌, refl, ap, ◌∙◌, Bool, true, false, ◌&&◌,
  ◌||◌, Text, List, [], ◌∷◌, Option, none, some, ltb, leb, lt→ltb, ◌==◌, if◌then◌else◌, arith, All,
  Bool-cases, inl, inr,
}
use homecontrol_server.StringTools.{is_space, skip_spaces}

-- The character of a digit below 16.
pub hex_digit : ℕ → ℕ
hex_digit d = if ltb d 10 then b'0' + d else b'a' + (d - 10)

-- The digits, on fuel for each of them.
pub hex_digits : ℕ → ℕ → Text → Text
unfolding hex_digit
hex_digits zero n out = out
hex_digits (suc fuel) n out =
    let rest = hex_digits fuel (n / 16) (hex_digit (n % 16) ∷ out) in
    if ltb n 16 then hex_digit n ∷ out else rest

-- `GetHexStringFromValue`.
pub get_hex_string_from_value : ℕ → Text
unfolding hex_digits
get_hex_string_from_value n = hex_digits (suc n) n []

pub hex_value_of : ℕ → Option ℕ
hex_value_of c =
    if leb b'0' c && leb c b'9'
    then some (c - b'0')
    else if leb b'a' c && leb c b'f'
    then some (c - b'a' + 10)
    else if leb b'A' c && leb c b'F'
    then some (c - b'A' + 10)
    else none

-- The digits at the front.
pub hex_prefix : Text → List ℕ
unfolding hex_value_of
hex_prefix [] = []
hex_prefix (c ∷ s) =
    let rest = hex_prefix s in elim (hex_value_of c) [ none ↦ [] | some d ↦ d ∷ rest ]

pub value_of_digits : ℕ → List ℕ → ℕ
value_of_digits n [] = n
value_of_digits n (d ∷ ds) = value_of_digits (n * 16 + d) ds

-- A `0x` in front of the digits is skipped.
skip_base : Text → Text
skip_base (c ∷ x ∷ s) = if (c == b'0') && ((x == b'x') || (x == b'X')) then s else c ∷ x ∷ s
skip_base s = s

-- A number that an `unsigned int` cannot hold gives the largest one, a text without a digit 0, and a
-- sign is taken modulo 2^32.
unsigned_of : Bool → ℕ → ℕ
unsigned_of negative n =
    if ltb n (2 ^ 32) then (if negative then (2 ^ 32 - n) % 2 ^ 32 else n) else 2 ^ 32 - 1

hex_number : Text → ℕ
unfolding unsigned_of hex_prefix value_of_digits skip_base
hex_number [] = 0
hex_number (c ∷ s) =
    if c == b'-'
    then unsigned_of true (value_of_digits 0 (hex_prefix (skip_base s)))
    else if c == b'+'
    then unsigned_of false (value_of_digits 0 (hex_prefix (skip_base s)))
    else unsigned_of false (value_of_digits 0 (hex_prefix (skip_base (c ∷ s))))

-- `GetHexValueFromString`.
pub get_hex_value_from_string : Text → ℕ
unfolding hex_number
get_hex_value_from_string s = hex_number (skip_spaces s)

hex_value_of-hex_digit : (d : ℕ) → d < 16 → hex_value_of (hex_digit d) ≡ some d
unfolding hex_value_of hex_digit
hex_value_of-hex_digit d h = ground arith

hex_prefix_cons : (d : ℕ) (s : Text) → d < 16 → hex_prefix (hex_digit d ∷ s) ≡ d ∷ hex_prefix s
unfolding hex_prefix
hex_prefix_cons d s h =
    ap (λ o. elim o as (λ x. List ℕ) [ none ↦ [] | some v ↦ v ∷ hex_prefix s ])
      (hex_value_of-hex_digit d h)

value-hex_digits :
    (fuel n : ℕ) (out : Text)
    → n < fuel
    → value_of_digits 0 (hex_prefix (hex_digits fuel n out)) ≡ value_of_digits n (hex_prefix out)
unfolding hex_digits value_of_digits
value-hex_digits zero n out h = elim h [ ]
value-hex_digits (suc fuel) n out h = elim (Bool-cases (ltb n 16)) [
  | inl small ↦ rw small (
      rw (hex_prefix_cons n out (ground arith))
        (ap (λ k. value_of_digits k (hex_prefix out)) (omega arith)))
  | inr large ↦ rw large (
      value-hex_digits fuel (n / 16) (hex_digit (n % 16) ∷ out) (ground arith)
      ∙ rw (hex_prefix_cons (n % 16) out (omega arith))
          (ap (λ k. value_of_digits k (hex_prefix out)) (omega arith)))
]

-- No space, no sign, and no letter of `0x` but the zero.
abbrev IsPlain : ℕ → Type 0
IsPlain c =
    (is_space c ≡ false)
    × ((c == b'-') ≡ false)
    × ((c == b'+') ≡ false)
    × ((c == b'x') ≡ false)
    × ((c == b'X') ≡ false)

hex_digit-IsPlain : (d : ℕ) → d < 16 → IsPlain (hex_digit d)
unfolding hex_digit is_space
hex_digit-IsPlain d h = (ground arith, ground arith, ground arith, ground arith, ground arith)

abbrev IsHex : Text → Type 0
IsHex [] = ⊥
IsHex (c ∷ s) = All IsPlain (c ∷ s)

hex_digits-IsHex :
    (fuel n : ℕ) (c : ℕ) (out : Text) → IsHex (c ∷ out) → IsHex (hex_digits fuel n (c ∷ out))
unfolding hex_digits
hex_digits-IsHex zero n c out h = h
hex_digits-IsHex (suc fuel) n c out h = elim (Bool-cases (ltb n 16)) [
  | inl small ↦ rw small (hex_digit-IsPlain n (ground arith), h)
  | inr large ↦ rw large (
      hex_digits-IsHex fuel (n / 16) (hex_digit (n % 16)) (c ∷ out)
        (hex_digit-IsPlain (n % 16) (omega arith), h))
]

get_hex_string_from_value-IsHex : (n : ℕ) → IsHex (get_hex_string_from_value n)
unfolding get_hex_string_from_value hex_digits
get_hex_string_from_value-IsHex n = elim (Bool-cases (ltb n 16)) [
  | inl small ↦ rw small (hex_digit-IsPlain n (ground arith), tt)
  | inr large ↦ rw large (
      hex_digits-IsHex n (n / 16) (hex_digit (n % 16)) []
        (hex_digit-IsPlain (n % 16) (omega arith), tt))
]

skip_base-IsHex : (s : Text) → IsHex s → skip_base s ≡ s
unfolding skip_base
skip_base-IsHex [] h = refl
skip_base-IsHex (c ∷ []) h = refl
skip_base-IsHex (c ∷ x ∷ s) h = ground (arith, h.1.0)

get_hex-IsHex :
    (s : Text)
    → IsHex s
    → value_of_digits 0 (hex_prefix s) < 2 ^ 32
    → get_hex_value_from_string s ≡ value_of_digits 0 (hex_prefix s)
unfolding get_hex_value_from_string hex_number unsigned_of skip_spaces
get_hex-IsHex [] h small = elim h [ ]
get_hex-IsHex (c ∷ s) h small =
    let (space, minus, plus, x, upper_x) = h.0 in
    rw space (rw (minus, plus) (rw (skip_base-IsHex (c ∷ s) h) (rw (lt→ltb _ (2 ^ 32) small) refl)))

-- A value of 32 bits that is written in hexadecimal is read back.
pub get_hex_value-get_hex_string :
    (n : ℕ) → n < 2 ^ 32 → get_hex_value_from_string (get_hex_string_from_value n) ≡ n
get_hex_value-get_hex_string n h =
    let value : value_of_digits 0 (hex_prefix (get_hex_string_from_value n)) ≡ n =
      unfold get_hex_string_from_value value_of_digits hex_prefix in
      value-hex_digits (suc n) n [] (omega arith) in
    get_hex-IsHex (get_hex_string_from_value n) (get_hex_string_from_value-IsHex n) (rw value h)
    ∙ value
