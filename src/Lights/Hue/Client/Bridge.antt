-- ===== src/Lights/Hue/Client/Bridge.antt =====
-- What the client reads from a bridge after it has written.
use mathlib.Core.List.{append_cancel_left}
use homecontrol_server.Common.{
  ℕ, to_int, ◌^◌, ◌<◌, ◌≡◌, ◌≢◌, refl, ap, sym, ◌∙◌, Bool, true, Text, codes, [], Option, none,
  some, ◌==◌, ==_iff, if◌then◌else◌, arith, Bool-cases, inl, inr, lt→ltb, false, List, ◌∷◌, ◌&&◌,
  ◌>>=◌,
}
use homecontrol_server.Data.Devices.{LightState, on, off, light_state_eq_on}
use homecontrol_server.Json.{JsonLib, JsonLaws, ReadLaws}
use homecontrol_server.Lights.{state_of}
use homecontrol_server.StringTools.{to_decimal}
use homecontrol_server.StringTools.Decimal.{to_decimal-injective}
use homecontrol_server.Tesla.Connection.{method_get}
use homecontrol_server.Lights.Hue.Client.{
  HueClient, Response, method_put, int_text, base_url, build_url, json_of, on_member, state_of_json,
  read_light_state, parameters, set_light_state,
}

int_text-to_int : (n : ℕ) → n < 2 ^ 31 → int_text (to_int n) ≡ to_decimal n
int_text-to_int n h = rw (lt→ltb n (2 ^ 31) h) refl

-- Different lamps have different addresses.
build_url-injective :
    (url : Text) (c : HueClient) (n k : ℕ)
    → n < 2 ^ 31
    → k < 2 ^ 31
    → build_url url c n ≡ build_url url c k
    → n ≡ k
unfolding build_url
build_url-injective url c n k hn hk e =
    to_decimal-injective n k (
      sym (int_text-to_int n hn) ∙ append_cancel_left (base_url url c) _ _ e ∙ int_text-to_int k hk)

module _ (j : JsonLib) where
  all_succeed : List j.Json → Bool
  all_succeed [] = true
  all_succeed (v ∷ vs) = j.has_field v (codes "success") && all_succeed vs

  -- Whether an answer of the bridge reports that all has been changed.
  unfoldable pub reports_success : Response j.Json → Bool
  unfolding all_succeed
  reports_success r = elim (r.extract_json >>= j.as_array) [
    | none ↦ false
    | some vs ↦ all_succeed vs
  ]

module _ {W : Type 0} (j : JsonLib) (valid_uri : Text → Bool)
    (request : W → Text → Text → Text → Option j.Json → Option (Response j.Json) × W) where
  -- A lamp at an address reports that it is on or off.
  pub record Reports (w : W) (url : Text) (is_on : Bool) : Type 0 where
    pub response : Response j.Json
    pub whole : j.Json
    pub state : j.Json
    pub answered : (request w method_get url [] none).0 ≡ some response
    pub status : response.status_code ≡ 200
    pub extracted : response.extract_json ≡ some whole
    pub has_state : j.has_field whole (codes "state") ≡ true
    pub state_field : j.field whole (codes "state") ≡ some state
    pub has_on : j.has_field state (codes "on") ≡ true
    pub on_field : j.field state (codes "on") ≡ some (j.boolean is_on)

  -- What the bridge documents: the status of an answer is 200 also when it reports an error. The answer
  -- is an array with one object for each change, which has the member `success` or the member `error`.
  -- A change that it reports with success has been made, one that it does not is not made, and the lamps
  -- at other addresses stay as they are.
  pub record IsBridge : Type 0 where
    pub takes_over :
        (w : W) (url : Text) (p : j.Json) (r : Response j.Json) (is_on : Bool)
        → (request w method_put url (codes "state") (some p)).0 ≡ some r
        → reports_success j r ≡ true
        → j.field p (codes "on") ≡ some (j.boolean is_on)
        → Reports (request w method_put url (codes "state") (some p)).1 url is_on
    pub refuses :
        (w : W) (url : Text) (p : j.Json) (r : Response j.Json)
        → (request w method_put url (codes "state") (some p)).0 ≡ some r
        → reports_success j r ≡ false
        → (request (request w method_put url (codes "state") (some p)).1 method_get url [] none).0
          ≡ (request w method_get url [] none).0
    pub leaves :
        (w : W) (url other : Text) (p : j.Json)
        → url ≢ other
        → (request (request w method_put url (codes "state") (some p)).1 method_get other [] none).0
          ≡ (request w method_get other [] none).0

  module _ (laws : JsonLaws j) (reads : ReadLaws j) (c : HueClient) where
    abbrev lamp_url : ℕ → Text
    lamp_url n = build_url (codes "lights") c n

    read_reported :
        (w : W) (n : ℕ) (is_on : Bool)
        → valid_uri (lamp_url n) ≡ true
        → Reports w (lamp_url n) is_on
        → (read_light_state j valid_uri request c w n).0 ≡ some (state_of is_on)
    unfolding read_light_state json_of state_of_json on_member
    read_reported w n is_on v r = rw v (
        rw r.answered (
          rw (r.status, r.extracted)
            (rw (r.has_state, r.state_field)
              (rw (r.has_on, r.on_field)
                (rw (reads.is_boolean-boolean is_on) (rw (reads.as_bool-boolean is_on) refl))))))

    set_light_state_answered :
        (w : W) (n : ℕ) (s : LightState) (r : Response j.Json)
        → valid_uri (lamp_url n) ≡ true
        → (request w method_put (lamp_url n) (codes "state") (some (parameters j s))).0 ≡ some r
        → r.status_code ≡ 200
        → (set_light_state j valid_uri request c w n s).0 ≡ true
    unfolding set_light_state
    set_light_state_answered w n s r v e ok = rw v (rw e ((==_iff r.status_code 200).1 ok))

    set_light_state-world :
        (w : W) (n : ℕ) (s : LightState)
        → valid_uri (lamp_url n) ≡ true
        → (set_light_state j valid_uri request c w n s).1
          ≡ (request w method_put (lamp_url n) (codes "state") (some (parameters j s))).1
    unfolding set_light_state
    set_light_state-world w n s v = rw v refl

    parameters_on :
        (s : LightState)
        → j.field (parameters j s) (codes "on") ≡ some (j.boolean (light_state_eq_on s))
    unfolding parameters
    parameters_on s = laws.field-same j.null (codes "on") _ laws.is_object-null

    state_of-eq_on : (s : LightState) → state_of (light_state_eq_on s) ≡ s
    state_of-eq_on on = refl
    state_of-eq_on off = refl

    -- A read sees nothing of a write that leaves the answer for the lamp as it was.
    read_left :
        (w w' : W) (k : ℕ)
        → (request w' method_get (lamp_url k) [] none).0
          ≡ (request w method_get (lamp_url k) [] none).0
        → (read_light_state j valid_uri request c w' k).0
          ≡ (read_light_state j valid_uri request c w k).0
    unfolding read_light_state json_of state_of_json on_member
    read_left w w' k e = elim (Bool-cases (valid_uri (lamp_url k))) [
      | inl v ↦ rw v (rw e refl)
      | inr v ↦ rw v refl
    ]

    -- The lamp that was set, behind an answer of the bridge.
    read_set :
        (w : W) (n : ℕ) (s : LightState) (r : Response j.Json)
        → IsBridge
        → valid_uri (lamp_url n) ≡ true
        → (request w method_put (lamp_url n) (codes "state") (some (parameters j s))).0 ≡ some r
        → (read_light_state j valid_uri request c
            (request w method_put (lamp_url n) (codes "state") (some (parameters j s))).1
            n).0
          ≡ (if reports_success j r then some s else (read_light_state j valid_uri request c w n).0)
    read_set w n s r b v e = elim (Bool-cases (reports_success j r)) [
      | inl success ↦ rw success (
          read_reported _ n (light_state_eq_on s) v (
            b.takes_over w (lamp_url n) (parameters j s) r (light_state_eq_on s) e success
              (parameters_on s))
          ∙ ap some (state_of-eq_on s))
      | inr failed ↦
          rw failed (read_left w _ n (b.refuses w (lamp_url n) (parameters j s) r e failed))
    ]

    -- Whenever the bridge answers a change of a lamp with the status OK, the client reports success. The
    -- lamp is then read in the wanted state if the body of the answer reports success too, and as
    -- before if the body reports an error, which the client does not look at. Every other lamp is
    -- read as before.
    pub set-read_light_state :
        (w : W) (n k : ℕ) (s : LightState) (r : Response j.Json)
        → IsBridge
        → n < 2 ^ 31
        → k < 2 ^ 31
        → valid_uri (lamp_url n) ≡ true
        → (request w method_put (lamp_url n) (codes "state") (some (parameters j s))).0 ≡ some r
        → r.status_code ≡ 200
        → let (success, w') = set_light_state j valid_uri request c w n s in
          (success ≡ true)
          × ((read_light_state j valid_uri request c w' k).0 ≡ (
              if (n == k) && reports_success j r
              then some s
              else (read_light_state j valid_uri request c w k).0))
    set-read_light_state w n k s r b hn hk v e ok = (
      set_light_state_answered w n s r v e ok,
      rw (set_light_state-world w n s v) (elim (Bool-cases (n == k)) [
        | inl same ↦ rw same (rw (← ((==_iff n k).0 same)) (read_set w n s r b v e))
        | inr other ↦ rw other (
            read_left w _ k (
              b.leaves w (lamp_url n) (lamp_url k) (parameters j s)
                (λ q. ground (arith, build_url-injective (codes "lights") c n k hn hk q))))
      ]),
    )
