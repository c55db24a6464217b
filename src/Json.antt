-- ===== src/Json.antt =====
-- `web::json` of the C++ REST SDK, which is not part of the repository: what the parsers and writers
-- ask of it. A call that throws gives `none`.
pub mod Objects
pub mod Helper
use homecontrol_server.Common.{
  ℕ, ℤ, ◌/◌, ◌%◌, ◌^◌, ◌≡◌, ◌==◌, Bool, true, false, not, Text, text_eq, List, Option, some,
}

pub record JsonLib : Type 1 where
  pub Json : Type 0
  pub parse : Text → Option Json
  -- `value[name]`, read.
  pub field : Json → Text → Option Json
  pub has_field : Json → Text → Bool
  pub is_null : Json → Bool
  pub is_boolean : Json → Bool
  pub is_array : Json → Bool
  pub is_integer : Json → Bool
  pub as_integer : Json → Option ℤ
  pub as_double : Json → Option ℕ
  pub as_string : Json → Option Text
  pub as_bool : Json → Option Bool
  pub as_array : Json → Option (List Json)
  -- `value()`, and `value[name] = member` on an object or a null value.
  pub null : Json
  pub with_field : Json → Text → Json → Json
  pub number : ℤ → Json
  pub double_number : ℕ → Json
  pub string : Text → Json
  pub boolean : Bool → Json
  pub array : List Json → Json
  pub serialize : Json → Text

-- A `double` that is neither infinite nor a NaN: JSON has no text for the others.
abbrev pub is_finite : ℕ → Bool
is_finite d = not ((d / 2 ^ 52) % 2 ^ 11 == 2047)

-- What the round trips rely on: an object has the members that were assigned to it, the last one
-- under each name, and a value that has a text is read back from it.
pub record JsonLaws (j : JsonLib) : Type 0 where
  pub is_object : j.Json → Bool
  pub is_object-null : is_object j.null ≡ true
  pub is_object-with_field :
      (v : j.Json) (n : Text) (x : j.Json)
      → is_object v ≡ true
      → is_object (j.with_field v n x) ≡ true
  pub field-same :
      (v : j.Json) (n : Text) (x : j.Json)
      → is_object v ≡ true
      → j.field (j.with_field v n x) n ≡ some x
  pub field-other :
      (v : j.Json) (n k : Text) (x : j.Json)
      → is_object v ≡ true
      → text_eq n k ≡ false
      → j.field (j.with_field v n x) k ≡ j.field v k
  pub is_integer-number : (n : ℤ) → j.is_integer (j.number n) ≡ true
  pub as_integer-number : (n : ℤ) → j.as_integer (j.number n) ≡ some n
  pub as_double-double_number :
      (d : ℕ) → is_finite d ≡ true → j.as_double (j.double_number d) ≡ some d
  pub has_text : j.Json → Bool
  pub has_text-null : has_text j.null ≡ true
  pub has_text-number : (n : ℤ) → has_text (j.number n) ≡ true
  pub has_text-double_number : (d : ℕ) → is_finite d ≡ true → has_text (j.double_number d) ≡ true
  pub has_text-string : (s : Text) → has_text (j.string s) ≡ true
  pub has_text-with_field :
      (v : j.Json) (n : Text) (x : j.Json)
      → has_text v ≡ true
      → has_text x ≡ true
      → has_text (j.with_field v n x) ≡ true
  pub parse-serialize : (v : j.Json) → has_text v ≡ true → j.parse (j.serialize v) ≡ some v

-- What readers of a written document rely on besides: which kind a written value has, and that texts
-- and arrays are read back as they were written.
pub record ReadLaws (j : JsonLib) : Type 0 where
  pub is_null-with_field :
      (v : j.Json) (n : Text) (x : j.Json) → j.is_null (j.with_field v n x) ≡ false
  pub as_string-string : (s : Text) → j.as_string (j.string s) ≡ some s
  pub is_array-array : (vs : List j.Json) → j.is_array (j.array vs) ≡ true
  pub as_array-array : (vs : List j.Json) → j.as_array (j.array vs) ≡ some vs
  pub is_boolean-boolean : (b : Bool) → j.is_boolean (j.boolean b) ≡ true
  pub as_bool-boolean : (b : Bool) → j.as_bool (j.boolean b) ≡ some b
