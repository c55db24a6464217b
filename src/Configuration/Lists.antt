-- ===== src/Configuration/Lists.antt =====
-- One entry that cannot be read costs the whole list that it stands in.
use homecontrol_server.Common.{
  ◌⊎◌, inl, inr, true, ◌≡◌, refl, ap, ◌∙◌, codes, List, [], ◌∷◌, Option, none, some, ◌>>=◌,
  Option-cases, Bool-cases,
}
use homecontrol_server.Json.{JsonLib}
use homecontrol_server.Lights.{ConfigurationLights}
use homecontrol_server.Configuration.{
  read_each, read_array, read_optional_array, light_in, read_configured_lights, read_telldus,
  read_philips_hue, hue_in, not_null, or_empty, no_hue, string_in,
}

-- Each entry is read as the element at its place.
abbrev pub Each : {A B : Type 0} → (A → Option B) → List A → List B → Type 0
Each read [] [] = Unit
Each read (v ∷ vs) (a ∷ l) = (read v ≡ some a) × Each read vs l
Each read _ _ = ⊥

-- Some entry cannot be read.
abbrev pub AnyFails : {A B : Type 0} → (A → Option B) → List A → Type 0
AnyFails read [] = ⊥
AnyFails read (v ∷ vs) = (read v ≡ none) ⊎ AnyFails read vs

-- A chain that ends with an exception in every case.
>>=-none :
    {A B : Type 0} (o : Option A) (f : A → Option B) → ((a : A) → f a ≡ none) → (o >>= f) ≡ none
>>=-none none f h = refl
>>=-none (some a) f h = h a

module _ (j : JsonLib) where
  read_each-cases :
      {A : Type 0} (read : j.Json → Option A) (vs : List j.Json)
      → ((l : List A) × (read_each j read vs ≡ some l) × Each read vs l)
        ⊎ ((read_each j read vs ≡ none) × AnyFails read vs)
  unfolding read_each
  read_each-cases read [] = inl ([], refl, tt)
  read_each-cases read (v ∷ vs) = elim (Option-cases (read v)) [
    | inl e ↦ inr (rw e refl, inl e)
    | inr (a, e) ↦ elim (read_each-cases read vs) [
      | inl (l, q, h) ↦ inl (a ∷ l, rw e (rw q refl), (e, h))
      | inr (q, h) ↦ inr (rw e (rw q refl), inr h)
    ]
  ]

  module _ (v a : j.Json) (vs : List j.Json) (member : j.field v (codes "Lights") ≡ some a)
      (is_list : j.is_array a ≡ true) (elements : j.as_array a ≡ some vs) where
    read_configured_lights_lem : read_configured_lights j (some v) ≡ read_each j (light_in j) vs
    unfolding read_configured_lights read_optional_array read_array
    read_configured_lights_lem = rw member (rw is_list (rw elements refl))

    read_telldus_lem : read_telldus j (some v) ≡ or_empty [] (read_each j (light_in j) vs)
    unfolding read_telldus
    read_telldus_lem = rw read_configured_lights_lem refl

    hue_in-bad : read_each j (light_in j) vs ≡ none → hue_in j v ≡ none
    unfolding hue_in
    hue_in-bad e = >>=-none (string_in j v (codes "ip")) _ λ ip.
        >>=-none (string_in j v (codes "key")) _ λ key. rw read_configured_lights_lem (rw e refl)

    read_philips_hue-bad : read_each j (light_in j) vs ≡ none → read_philips_hue j (some v) ≡ no_hue
    unfolding read_philips_hue not_null
    read_philips_hue-bad e = elim (Bool-cases (j.is_null v)) [
      | inl n ↦ rw n refl
      | inr n ↦ rw n (rw (hue_in-bad e) refl)
    ]

    -- For a section whose member `Lights` is a list: either every entry is read, in the order of the
    -- list, or some entry cannot be read, and then no lamp of Telldus is configured, and for the lamps
    -- of the Hue neither a lamp nor the address and the key of the bridge.
    pub read_lights_lem :
        ((l : List ConfigurationLights) × Each (light_in j) vs l × (read_telldus j (some v) ≡ l))
        ⊎ (AnyFails (light_in j) vs
            × (read_telldus j (some v) ≡ [])
            × (read_philips_hue j (some v) ≡ no_hue))
    read_lights_lem = elim (read_each-cases (light_in j) vs) [
      | inl (l, q, h) ↦ inl (l, h, read_telldus_lem ∙ ap (or_empty []) q)
      | inr (q, h) ↦ inr (h, read_telldus_lem ∙ ap (or_empty []) q, read_philips_hue-bad q)
    ]
