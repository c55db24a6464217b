-- ===== src/Rest.antt =====
-- homecontrol/RESTApi.cpp: the table of commands of the REST API, and what a query asks for. A
-- callback is the lambda with the JSON manager that it captures; the messages that answer the manager in
-- time are an argument, as in JsonManager.
pub mod Selection
use homecontrol_server.Common.{
  ℕ, ℤ, to_unsigned, Bool, true, false, Text, codes, text_eq, List, [], ◌∷◌, ◌++◌, Option, none,
  some, if◌then◌else◌,
}
use homecontrol_server.Common.OrdMap.{find, assign, text_key}
use homecontrol_server.Data.Meta.{read, sensor}
use homecontrol_server.Data.Message.{Message, Effect, plain_message}
use homecontrol_server.Http.{stoi}
use homecontrol_server.Json.{JsonLib}
use homecontrol_server.JsonManager.{
  get_sensor, get_all_sensors, get_light_state, set_light_state, get_presence, set_bt_dev_present,
  get_all_lights, get_vehicle_state,
}

-- The lambdas of the table.
pub data Callback : Type 0 where
  all_sensors one_sensor all_lights one_light : Callback
  switch_light device_present : Bool → Callback
  presence_of_someone vehicle_state : Callback

-- `RESTAPI::command`.
pub record Command : Type 0 where
  pub command : Text
  pub value : Text
  pub callback : Callback
  pub message_to_request : Message

abbrev pub CommandList : Type 0
CommandList = List (Text × List Command)

pub add_command : CommandList → Text → Text → Callback → Message → CommandList
unfolding find assign
add_command commands command value callback m =
    let c : Command = record {
      command = command;
      value = value;
      callback = callback;
      message_to_request = m;
    } in
    elim (find command commands) [
      | some list ↦ assign command (list ++ c ∷ []) commands
      | none ↦ assign command (c ∷ []) commands
    ]

-- All commands carry the same message.
abbrev pub read_sensor : Message
read_sensor = plain_message read sensor

add_all : CommandList → List (Text × Text × Callback) → CommandList
unfolding add_command
add_all commands [] = commands
add_all commands ((c, v, f) ∷ rest) = add_all (add_command commands c v f read_sensor) rest

pub generate_command_list : CommandList
unfolding add_all
generate_command_list = add_all [] (
    (codes "sensor", codes "all", all_sensors)
    ∷ (codes "sensor", codes "*", one_sensor)
    ∷ (codes "light", codes "all", all_lights)
    ∷ (codes "light", codes "*", one_light)
    ∷ (codes "setLightOn", codes "*", switch_light true)
    ∷ (codes "setLightOff", codes "*", switch_light false)
    ∷ (codes "setBTDevPresent", codes "*", device_present true)
    ∷ (codes "setBTDevNotPresent", codes "*", device_present false)
    ∷ (codes "presence", codes "*", presence_of_someone)
    ∷ (codes "vehicleInformation", codes "*", vehicle_state)
    ∷ [])

-- The outcome of `parseGetReqeust`: `std::nullopt`, an exception, or a value after what was sent.
pub data Outcome (Json : Type 0) : Type 0 where
  nothing : Outcome Json
  thrown : Outcome Json
  shown : List Effect → Json → Outcome Json

module _ (j : JsonLib) (n : ℕ) (answered : List Message) where
  abbrev show : List Effect × j.Json → Outcome j.Json
  show (es, v) = shown es v

  -- `stoi(value)`, whose `int` becomes an `unsigned int`.
  with_number : Text → (ℕ → List Effect × j.Json) → Outcome j.Json
  with_number value f = elim (stoi value) [ none ↦ thrown | some id ↦ show (f (to_unsigned id)) ]

  pub call : Callback → Text → Outcome j.Json
  unfolding with_number
  call all_sensors value = show (get_all_sensors j n answered)
  call one_sensor value = with_number value (λ id. get_sensor j n id answered)
  call all_lights value = show (get_all_lights j n answered)
  call one_light value = with_number value (λ id. get_light_state j n id answered)
  call (switch_light state) value = with_number value (λ id. set_light_state j n id state answered)
  call (device_present state) value =
      with_number value (λ id. set_bt_dev_present j n id state answered)
  call presence_of_someone value = show (get_presence j n answered)
  call vehicle_state value = show (get_vehicle_state j n answered)

  -- The inner loop of `parseGetReqeust`; `none` means that it ends without a return.
  call_first : List Command → Text → Option (Outcome j.Json)
  unfolding call
  call_first [] value = none
  call_first (c ∷ cs) value =
      if text_eq c.value value
      then some (call c.callback value)
      else if text_eq c.value (codes "*")
      then some (call c.callback value)
      else call_first cs value

  pub parse_get_request : CommandList → List (Text × Text) → Outcome j.Json
  unfolding call_first find
  parse_get_request commands [] = nothing
  parse_get_request commands ((command, value) ∷ values) =
      let rest = parse_get_request commands values in
      elim (find command commands) [
        | none ↦ rest
        | some list ↦ elim (call_first list value) [ none ↦ rest | some outcome ↦ outcome ]
      ]

-- The inner loop of `parseGetRequestAndGenerateMessage`.
message_of_first : List Command → Text → Option Message
message_of_first [] value = none
message_of_first (c ∷ cs) value =
    if text_eq c.value value
    then some c.message_to_request
    else if text_eq c.value (codes "*")
    then some c.message_to_request
    else message_of_first cs value

pub parse_get_request_and_generate_message : CommandList → List (Text × Text) → Option Message
unfolding message_of_first find
parse_get_request_and_generate_message commands [] = none
parse_get_request_and_generate_message commands ((command, value) ∷ values) =
    let rest = parse_get_request_and_generate_message commands values in
    elim (find command commands) [
      | none ↦ rest
      | some list ↦ elim (message_of_first list value) [ none ↦ rest | some m ↦ some m ]
    ]
