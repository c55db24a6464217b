-- ===== src/Json/Objects.antt =====
-- JSON objects that are built by a sequence of assignments, and what they hold.
use homecontrol_server.Common.{
  ◌≡◌, refl, sym, ◌∙◌, ap, true, Text, text_eq, List, [], ◌∷◌, Option, some, if◌then◌else◌,
  Bool-cases, inl, inr,
}
use homecontrol_server.Common.Strings.{text_eq→eq}
use homecontrol_server.Json.{JsonLib, JsonLaws}

module _ (j : JsonLib) where
  -- A sequence of `json[name] = member`.
  unfoldable pub set_all : j.Json → List (Text × j.Json) → j.Json
  set_all v [] = v
  set_all v ((n, x) ∷ ms) = set_all (j.with_field v n x) ms

  abbrev pub object : List (Text × j.Json) → j.Json
  object ms = set_all j.null ms

module _ (j : JsonLib) (laws : JsonLaws j) where
  unfoldable pub last_member : Text → List (Text × j.Json) → Option j.Json → Option j.Json
  last_member k [] found = found
  last_member k ((n, x) ∷ ms) found = last_member k ms (if text_eq n k then some x else found)

  pub field-with_field :
      (v : j.Json) (n k : Text) (x : j.Json)
      → laws.is_object v ≡ true
      → j.field (j.with_field v n x) k ≡ (if text_eq n k then some x else j.field v k)
  field-with_field v n k x o = elim (Bool-cases (text_eq n k)) [
    | inl e ↦ rw e (
        ap (λ t. j.field (j.with_field v n x) t) (sym (text_eq→eq n k e)) ∙ laws.field-same v n x o)
    | inr e ↦ rw e (laws.field-other v n k x o e)
  ]

  pub field-set_all :
      (k : Text) (ms : List (Text × j.Json)) (v : j.Json)
      → laws.is_object v ≡ true
      → j.field (set_all j v ms) k ≡ last_member k ms (j.field v k)
  unfolding set_all last_member
  field-set_all k [] v o = refl
  field-set_all k ((n, x) ∷ ms) v o =
      field-set_all k ms (j.with_field v n x) (laws.is_object-with_field v n x o)
      ∙ ap (last_member k ms) (field-with_field v n k x o)

  pub field-object :
      (k : Text) (ms : List (Text × j.Json))
      → j.field (object j ms) k ≡ last_member k ms (j.field j.null k)
  field-object k ms = field-set_all k ms j.null laws.is_object-null
