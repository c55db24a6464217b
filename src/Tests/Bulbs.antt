-- ===== src/Tests/Bulbs.antt =====
-- The client of the Hue against a bridge that keeps a state for each address.
use homecontrol_server.Common.{
  ◌≡◌, ◌≢◌, refl, ap, Bool, true, false, not, Text, codes, text_eq, Option, none, some,
  if◌then◌else◌, arith, ◌==◌, ◌&&◌, Bool-cases, inl, inr, sym,
}
use homecontrol_server.Common.Strings.{text_eq→eq, text_eq_refl}
use homecontrol_server.Data.Devices.{on}
use homecontrol_server.Lights.Hue.Client.{
  build_url, HueClient, Response, read_light_state, set_light_state,
}
use homecontrol_server.Lights.Hue.Client.Bridge.{IsBridge, reports_success, set-read_light_state}
use homecontrol_server.StringTools.{to_decimal}
use homecontrol_server.Tests.JsonTree.{
  Tree, tree_json, tree_laws, tree_read_laws, member, null_value, truth, member_of, element,
  no_elements, elements_of,
}

abbrev bool_or : Option Tree → Bool
bool_or (some (truth b)) = b
bool_or _ = false

abbrev state_of_lamp : Bool → Tree
state_of_lamp b = member null_value (codes "state") (member null_value (codes "on") (truth b))

abbrev answer : Tree → Response Tree
answer v = record { status_code = 200; extract_json = some v }

-- The address of a lamp that the bridge does not have.
abbrev missing : Text
missing = codes "http://127.0.0.1/api/key/lights/9"

abbrev success_report : Tree
success_report = element (member no_elements (codes "success") null_value) no_elements

abbrev error_report : Tree
error_report = element (member no_elements (codes "error") null_value) no_elements

abbrev changed : (Text → Bool) → Text → Tree → Text → Bool
changed w url p u = if text_eq u url then bool_or (member_of p (codes "on")) else w u

abbrev request :
    (Text → Bool) → Text → Text → Text → Option Tree → Option (Response Tree) × (Text → Bool)
request w mtd url path none = (some (answer (state_of_lamp (w url))), w)
request w mtd url path (some p) =
    if text_eq url missing
    then (some (answer error_report), w)
    else (some (answer success_report), changed w url p)

-- What the answer to a change reports.
reported : Option (Response Tree) → Bool
reported none = false
reported (some r) = reports_success tree_json r

reported-request :
    (w : Text → Bool) (url : Text) (p : Tree)
    → reported (request w (codes "PUT") url (codes "state") (some p)).0 ≡ not (text_eq url missing)
unfolding reported reports_success elements_of member_of
reported-request w url p = elim (Bool-cases (text_eq url missing)) [
  | inl m ↦ rw m refl
  | inr m ↦ rw m refl
]

after_put :
    (w : Text → Bool) (url : Text) (p : Tree) (r : Response Tree) (is_on : Bool)
    → (request w (codes "PUT") url (codes "state") (some p)).0 ≡ some r
    → reports_success tree_json r ≡ true
    → member_of p (codes "on") ≡ some (truth is_on)
    → (request w (codes "PUT") url (codes "state") (some p)).1 url ≡ is_on
unfolding reported
after_put w url p r is_on e ok h = elim (Bool-cases (text_eq url missing)) [
  | inl m ↦ absurd (ground (arith, reported-request w url p, ap reported e))
  | inr m ↦ rw m (rw (text_eq_refl url) (rw h refl))
]

after_refusal :
    (w : Text → Bool) (url : Text) (p : Tree) (r : Response Tree)
    → (request w (codes "PUT") url (codes "state") (some p)).0 ≡ some r
    → reports_success tree_json r ≡ false
    → (request w (codes "PUT") url (codes "state") (some p)).1 url ≡ w url
unfolding reported
after_refusal w url p r e failed = elim (Bool-cases (text_eq url missing)) [
  | inl m ↦ rw m refl
  | inr m ↦ absurd (ground (arith, reported-request w url p, ap reported e))
]

other_address :
    (w : Text → Bool) (url other : Text) (p : Tree)
    → url ≢ other
    → (request w (codes "PUT") url (codes "state") (some p)).1 other ≡ w other
other_address w url other p d = elim (Bool-cases (text_eq url missing)) [
  | inl m ↦ rw m refl
  | inr m ↦ elim (Bool-cases (text_eq other url)) [
    | inl e ↦ absurd (d (sym (text_eq→eq other url e)))
    | inr e ↦ rw m (rw e refl)
  ]
]

request-IsBridge : IsBridge tree_json (λ url. true) request
unfolding member_of
request-IsBridge = record {
  takes_over = λ w url p r is_on sent ok h. record {
    response = answer (state_of_lamp is_on);
    whole = state_of_lamp is_on;
    state = member null_value (codes "on") (truth is_on);
    answered = ap (λ b. some (answer (state_of_lamp b))) (after_put w url p r is_on sent ok h);
    status = refl;
    extracted = refl;
    has_state = refl;
    state_field = refl;
    has_on = refl;
    on_field = refl;
  };
  refuses = λ w url p r sent failed.
      ap (λ b. some (answer (state_of_lamp b))) (after_refusal w url p r sent failed);
  leaves =
      λ w url other p d. ap (λ b. some (answer (state_of_lamp b))) (other_address w url other p d);
}

abbrev client : HueClient
client = record { ip = codes "127.0.0.1"; key = codes "key" }

abbrev all_off : Text → Bool
all_off url = false

-- A lamp that the bridge does not have is set, and stays as it was.
set-read_light_state_example :
    let (success, w) = set_light_state tree_json (λ url. true) request client all_off 9 on in
    (success ≡ true)
    × ((read_light_state tree_json (λ url. true) request client w 9).0 ≡ (
        if (9 == 9) && reports_success tree_json (answer error_report)
        then some on
        else (read_light_state tree_json (λ url. true) request client all_off 9).0))
unfolding build_url to_decimal
set-read_light_state_example =
    set-read_light_state tree_json (λ url. true) request tree_laws tree_read_laws client all_off 9 9
      on (answer error_report) request-IsBridge (omega arith) (omega arith) refl refl refl
