-- ===== src/Lights/Hue/Client.antt =====
-- homecontrol/HueClient.cpp: the lamps of a bridge over HTTP. The exchange is an argument: from the
-- world, the method, the address, the path behind it and the body, the response, or nothing if the
-- request fails, and the world afterwards. `valid_uri` tells whether a client can be made for an
-- address. `none` as the state that is read means that an exception leaves the function.
pub mod Bridge
use homecontrol_server.Common.{
  ℕ, ℤ, pos, negsuc, suc, to_int, Bool, true, false, Text, codes, [], ◌∷◌, ◌++◌, Option, none, some,
  ◌==◌, ◌>>=◌, if◌then◌else◌,
}
use homecontrol_server.Data.Devices.{LightState, on, off, light_state_eq_on}
use homecontrol_server.Json.{JsonLib}
use homecontrol_server.Lights.{LightControl, state_of}
use homecontrol_server.StringTools.{to_decimal}
use homecontrol_server.Tesla.Connection.{method_get}

abbrev pub method_put : Text
method_put = codes "PUT"

pub record HueClient : Type 0 where
  pub ip : Text
  pub key : Text

-- `<<` of an `int`.
abbrev pub int_text : ℤ → Text
int_text (pos n) = to_decimal n
int_text (negsuc n) = b'-' ∷ to_decimal (suc n)

-- `BuildUrl`, whose `int lamp` is given an `unsigned int`.
abbrev base_url : Text → HueClient → Text
base_url url c =
    codes "http://" ++ (c.ip ++ (codes "/api/" ++ (c.key ++ (codes "/" ++ (url ++ codes "/")))))

unfoldable pub build_url : Text → HueClient → ℕ → Text
build_url url c lamp = base_url url c ++ int_text (to_int lamp)

-- A response, and what `extract_json` gives of it: `none` if it throws.
pub record Response (Json : Type 0) : Type 0 where
  pub status_code : ℕ
  pub extract_json : Option Json

module _ (j : JsonLib) where
  -- The first continuation: any status but OK gives the null value.
  json_of : Option (Response j.Json) → Option j.Json
  json_of none = none
  json_of (some r) = if r.status_code == 200 then r.extract_json else some j.null

  on_member : j.Json → Option Bool
  on_member state =
      if j.has_field state (codes "on")
      then j.field state (codes "on") >>= (λ v. if j.is_boolean v then j.as_bool v else none)
      else none

  -- The second continuation: whatever is missing, of another type or thrown, the lamp counts as off.
  state_of_json : Option j.Json → LightState
  unfolding on_member
  state_of_json none = off
  state_of_json (some l) =
      let found = j.field l (codes "state") >>= on_member in
      if j.has_field l (codes "state") then elim found [ none ↦ off | some b ↦ state_of b ] else off

  pub parameters : LightState → j.Json
  parameters s = j.with_field j.null (codes "on") (j.boolean (light_state_eq_on s))

module _ {W : Type 0} (j : JsonLib) (valid_uri : Text → Bool)
    (request : W → Text → Text → Text → Option j.Json → Option (Response j.Json) × W) where
  pub read_light_state : HueClient → W → ℕ → Option LightState × W
  unfolding build_url json_of state_of_json
  read_light_state c w lamp =
      let url = build_url (codes "lights") c lamp in
      let (r, w') = request w method_get url [] none in
      if valid_uri url then (some (state_of_json j (json_of j r)), w') else (none, w)

  -- The outcome is false on every failure, also of making the client.
  unfoldable pub set_light_state : HueClient → W → ℕ → LightState → Bool × W
  unfolding build_url parameters
  set_light_state c w lamp s =
      let url = build_url (codes "lights") c lamp in
      let (r, w') = request w method_put url (codes "state") (some (parameters j s)) in
      let success : Bool = elim r [ none ↦ false | some response ↦ response.status_code == 200 ] in
      if valid_uri url then (success, w') else (false, w)

  pub hue_client : HueClient → LightControl W
  unfolding read_light_state set_light_state
  hue_client c = record {
    read_light_state = read_light_state c;
    set_light_state = set_light_state c;
  }
