-- ===== src/StringTools.antt =====
-- homecontrol/StringTools.h and StringTools.cpp: splitting, searching and numbers in text. A
-- `std::string` is the list of its characters.
pub mod Lines
pub mod Chunks
pub mod Tokens
pub mod Decimal
pub mod Hex
use homecontrol_server.Common.{
  ℕ, zero, suc, ◌+◌, ◌-◌, ◌*◌, ◌/◌, ◌%◌, ◌^◌, ℤ, pos, negsuc, Bool, true, false, ◌&&◌, ◌||◌, Text,
  List, [], ◌∷◌, ◌++◌, Option, none, some, ltb, leb, ◌==◌, if◌then◌else◌, length, take, drop,
}

-- `std::getline`: a line is the text up to the delimiter, which is taken off the stream; at the end
-- of the stream there is none.
cut_line : ℕ → Text → Text × Text
cut_line delim [] = ([], [])
cut_line delim (c ∷ s) =
    let (line, rest) = cut_line delim s in if c == delim then ([], s) else (c ∷ line, rest)

pub getline : ℕ → Text → Option (Text × Text)
unfolding cut_line
getline delim [] = none
getline delim (c ∷ s) = some (cut_line delim (c ∷ s))

-- `while (std::getline(ss, item, delim))`, on fuel.
pub split_string_in_strings : ℕ → ℕ → Text → List Text → List Text
split_string_in_strings zero delim s elems = elems
split_string_in_strings (suc n) delim s elems = elim (getline delim s) [
  | none ↦ elems
  | some (item, rest) ↦ split_string_in_strings n delim rest (elems ++ item ∷ [])
]

-- `SplitString(s, delim)`. Each round takes at least one character.
unfoldable pub split_string : Text → ℕ → List Text
unfolding split_string_in_strings getline
split_string s delim = split_string_in_strings (length s) delim s []

abbrev pub substr : Text → ℕ → ℕ → Text
substr s offset n = take n (drop offset s)

-- `SplitString(s, uSizeOfParts)`: the loop over an `unsigned int` offset, on fuel; `none` means that
-- the fuel has run out.
pub split_parts : ℕ → Text → ℕ → ℕ → List Text → Option (List Text)
split_parts zero s size_of_parts offset parts = none
split_parts (suc n) s size_of_parts offset parts =
    let rest =
      split_parts n s size_of_parts ((offset + size_of_parts) % 2 ^ 32)
        (parts ++ substr s offset size_of_parts ∷ []) in
    if ltb offset (length s) then rest else some parts

-- `s.find(token, pos)`; `none` is `npos`.
unfoldable pub is_prefix : Text → Text → Bool
is_prefix [] s = true
is_prefix (c ∷ t) [] = false
is_prefix (c ∷ t) (d ∷ s) = (c == d) && is_prefix t s

find_here : Text → Text → Option ℕ
unfolding is_prefix
find_here token [] = if is_prefix token [] then some 0 else none
find_here token (c ∷ s) =
    if is_prefix token (c ∷ s)
    then some 0
    else elim (find_here token s) [ none ↦ none | some i ↦ some (suc i) ]

unfoldable pub find : Text → Text → ℕ → Option ℕ
unfolding find_here
find s token start =
    if leb start (length s)
    then elim (find_here token (drop start s)) [ none ↦ none | some i ↦ some (start + i) ]
    else none

unfoldable pub get_string_by_token : Text → Text → Text → Text
get_string_by_token s token endmarker = elim (find s token 0) [
  | none ↦ []
  | some found ↦
      let start = found + length token in
      if ltb start (length s)
      then elim (find s endmarker start) [
        | none ↦ []
        | some e ↦ if ltb e (length s) && ltb start e then substr s start (e - start) else []
      ]
      else []
]

unfoldable pub is_digit : ℕ → Bool
is_digit c = leb b'0' c && leb c b'9'

-- The longest run of digits at the front, and the rest.
unfoldable pub span_digits : Text → Text × Text
span_digits [] = ([], [])
span_digits (c ∷ s) =
    let (ds, rest) = span_digits s in if is_digit c then (c ∷ ds, rest) else ([], c ∷ s)

abbrev pub digits_value : ℕ → Text → ℕ
digits_value n [] = n
digits_value n (c ∷ ds) = digits_value (n * 10 + (c - b'0')) ds

pub is_space : ℕ → Bool
is_space c = (c == 32) || leb 9 c && leb c 13

unfoldable pub skip_spaces : Text → Text
unfolding is_space
skip_spaces [] = []
skip_spaces (c ∷ s) = let rest = skip_spaces s in if is_space c then rest else c ∷ s

-- A number that an `int` cannot hold makes the extraction fail, and so does a text with no digit:
-- the result is then `int {}`.
int_of_digits : Bool → Text → ℤ
int_of_digits negative [] = pos 0
int_of_digits negative (c ∷ ds) =
    let n = digits_value 0 (c ∷ ds) in
    if negative
    then if leb n (2 ^ 31) then (if n == 0 then pos 0 else negsuc (n - 1)) else pos 0
    else if ltb n (2 ^ 31)
    then pos n
    else pos 0

signed_number : Text → ℤ
unfolding int_of_digits span_digits
signed_number [] = pos 0
signed_number (c ∷ s) =
    if c == b'-'
    then int_of_digits true (span_digits s).0
    else if c == b'+'
    then int_of_digits false (span_digits s).0
    else int_of_digits false (span_digits (c ∷ s)).0

-- `StringToNumber<int>`: `operator>>` of a stream skips white space first.
unfoldable pub string_to_int : Text → ℤ
unfolding skip_spaces signed_number
string_to_int s = signed_number (skip_spaces s)

-- `GetNumberByToken<int>`.
unfoldable pub get_int_by_token : Text → Text → ℤ
unfolding find string_to_int
get_int_by_token s token = elim (find s token 0) [
  | none ↦ pos 0
  | some found ↦
      let start = found + length token in
      if ltb start (length s) then string_to_int (substr s start (length s)) else pos 0
]

-- Decimal digits, on fuel for each of them; `std::to_string` of an `unsigned int`.
decimal_digits : ℕ → ℕ → Text → Text
decimal_digits zero n out = out
decimal_digits (suc fuel) n out =
    let rest = decimal_digits fuel (n / 10) ((b'0' + n % 10) ∷ out) in
    if ltb n 10 then (b'0' + n) ∷ out else rest

unfoldable pub to_decimal : ℕ → Text
unfolding decimal_digits
to_decimal n = decimal_digits (suc n) n []
