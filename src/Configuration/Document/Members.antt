-- ===== src/Configuration/Document/Members.antt =====
-- The readers on the members of a document.
use homecontrol_server.Common.{
  ℕ, ℤ, pos, to_unsigned, ◌^◌, ◌<◌, ◌≡◌, refl, Text, List, [], ◌∷◌, map, Option, some, arith, All,
  ap, ◌∙◌,
}
use homecontrol_server.Json.{JsonLib, JsonLaws, ReadLaws}
use homecontrol_server.Json.Objects.{object, last_member, field-object}
use homecontrol_server.Configuration.{string_in, unsigned_in, read_each, read_array}

module _ (j : JsonLib) (laws : JsonLaws j) (reads : ReadLaws j) where
  -- The last assignment under a name.
  abbrev pub Holds : List (Text × j.Json) → Text → j.Json → Type 0
  Holds ms k x = last_member j laws k ms (j.field j.null k) ≡ some x

  pub string_in-object :
      (ms : List (Text × j.Json)) (k s : Text)
      → Holds ms k (j.string s)
      → string_in j (object j ms) k ≡ some s
  unfolding string_in
  string_in-object ms k s h = rw (field-object j laws k ms) (rw h (reads.as_string-string s))

  pub unsigned_in-number :
      (ms : List (Text × j.Json)) (k : Text) (n : ℤ)
      → Holds ms k (j.number n)
      → unsigned_in j (object j ms) k ≡ some (to_unsigned n)
  unfolding unsigned_in
  unsigned_in-number ms k n h =
      rw (field-object j laws k ms) (rw h (rw (laws.as_integer-number n) refl))

  pub unsigned_in-object :
      (ms : List (Text × j.Json)) (k : Text) (n : ℕ)
      → Holds ms k (j.number (pos n))
      → n < 2 ^ 31
      → unsigned_in j (object j ms) k ≡ some n
  unsigned_in-object ms k n h fits = unsigned_in-number ms k (pos n) h ∙ ap some (omega arith)

  pub read_each-map :
      {A : Type 0} (read : j.Json → Option A) (members : A → List (Text × j.Json)) (xs : List A)
      → All (λ a. read (object j (members a)) ≡ some a) xs
      → read_each j read (map (λ a. object j (members a)) xs) ≡ some xs
  unfolding read_each
  read_each-map read members [] h = refl
  read_each-map read members (a ∷ xs) h = rw h.0 (rw (read_each-map read members xs h.1) refl)

  pub read_array-object :
      {A : Type 0} (ms : List (Text × j.Json)) (k : Text) (read : j.Json → Option A)
      (members : A → List (Text × j.Json)) (xs : List A)
      → Holds ms k (j.array (map (λ a. object j (members a)) xs))
      → All (λ a. read (object j (members a)) ≡ some a) xs
      → read_array j k read (object j ms) ≡ some xs
  unfolding read_array
  read_array-object ms k read members xs h each =
      let vs = map (λ a. object j (members a)) xs in
      rw (field-object j laws k ms) (
        rw h (
          rw (reads.is_array-array vs)
            (rw (reads.as_array-array vs) (read_each-map read members xs each))))
