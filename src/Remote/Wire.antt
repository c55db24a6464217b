-- ===== src/Remote/Wire.antt =====
-- homecontrol/Message.cpp: `Init`, the constructor from JSON, and `AsJson`. `none` means that an
-- exception leaves the function. The conversion of a `double` to a `float` and back is an argument.
pub mod RoundTrip
use homecontrol_server.Common.{
  ℤ, pos, eq_ℤ, to_unsigned, Bool, not, Text, codes, [], Option, none, some, ◌>>=◌, if◌then◌else◌,
}
use homecontrol_server.Data.Meta.{
  MessageId, any, alive, id_eq, id_code, cmd_code, id_of_code, cmd_of_code, arctech_switch,
  mandolyn_sensor, blootooth_device, subscribe, light_state, telldus_device_set_state,
}
use homecontrol_server.Data.Devices.{Double, MandolynSensor, MessageLightState}
use homecontrol_server.Data.Message.{
  Message, Value, light, switch, mandolyn, bluetooth, number, as_light, as_mandolyn,
}
use homecontrol_server.Json.{JsonLib}

module _ (j : JsonLib) where
  -- A member that is no integer leaves the start value.
  integer_or : ℤ → j.Json → Option ℤ
  integer_or start v = if j.is_integer v then j.as_integer v else some start

  integer_in : j.Json → Text → Option ℤ
  integer_in v name = do f ← j.field v name; j.as_integer f

  bool_in : j.Json → Text → Option Bool
  bool_in v name = do f ← j.field v name; j.as_bool f

  arctech_value : j.Json → Option Value
  unfolding integer_in bool_in
  arctech_value v = do
    g ← integer_in v (codes "GroupId")
    h ← integer_in v (codes "HouseId")
    on_off ← bool_in v (codes "State")
    u ← integer_in v (codes "UnitId")
    some (switch (record { house = h; unit = u; group = g; is_on = on_off }))

  mandolyn_value : j.Json → Option Value
  unfolding integer_in
  mandolyn_value v = do
    n ← integer_in v (codes "Id")
    t ← j.field v (codes "Temp")
    t' ← j.as_double t
    h ← integer_in v (codes "Humidity")
    some (mandolyn (record { id = n; temp = t'; humidity = h }))

  bluetooth_value : j.Json → Option Value
  unfolding integer_in bool_in
  bluetooth_value v = do
    near ← bool_in v (codes "InRange")
    mac ← j.field v (codes "BTMacAddr")
    mac' ← j.as_string mac
    n ← integer_in v (codes "DeviceId")
    some (bluetooth (record { device_id = n; address = mac'; in_range = near }))

  light_value : j.Json → Option Value
  unfolding integer_in
  light_value v = do
    n ← integer_in v (codes "ID")
    s ← integer_in v (codes "LightState")
    some (light (record { id = to_unsigned n; is_on = not (eq_ℤ s (pos 0)); name = [] }))

  -- The value of a kind; other kinds have none.
  value_of : MessageId → j.Json → Option (Option Value)
  unfolding arctech_value mandolyn_value bluetooth_value light_value
  value_of i v =
      if id_eq i arctech_switch
      then arctech_value v >>= (λ x. some (some x))
      else if id_eq i mandolyn_sensor
      then mandolyn_value v >>= (λ x. some (some x))
      else if id_eq i blootooth_device
      then bluetooth_value v >>= (λ x. some (some x))
      else if id_eq i subscribe
      then j.as_integer v >>= (λ n. some (some (number n)))
      else if id_eq i light_state
      then light_value v >>= (λ x. some (some x))
      else some none

  -- `Message(fromJson)`.
  unfoldable pub message_of_json : Text → Option Message
  unfolding integer_or value_of
  message_of_json from_json = do
    msg ← j.parse from_json
    command ← j.field msg (codes "Command")
    c ← integer_or (cmd_code any) command
    command_type ← j.field msg (codes "CommandType")
    i ← integer_or (id_code alive) command_type
    v ← j.field msg (codes "Value")
    x ← value_of (id_of_code i) v
    some (record { cmd = cmd_of_code c; id = id_of_code i; value = x; answerer = none })

  header : Message → j.Json
  header m =
      j.with_field (j.with_field j.null (codes "Command") (j.number (cmd_code m.cmd)))
        (codes "CommandType") (j.number (id_code m.id))

  light_json : MessageLightState → j.Json
  light_json l =
      j.with_field
        (j.with_field
          (j.with_field j.null (codes "$type")
            (j.string (codes "Messanger.LightMessage, Messanger")))
          (codes "ID") (j.number (pos l.id)))
        (codes "LightState") (j.number (if l.is_on then pos 1 else pos 0))

  mandolyn_json : (Double → Double) → MandolynSensor → j.Json
  mandolyn_json as_float s =
      j.with_field
        (j.with_field
          (j.with_field
            (j.with_field j.null (codes "$type")
              (j.string (codes "Messanger.MandolynSensor, Messanger")))
            (codes "Id") (j.number s.id))
          (codes "Temp") (j.double_number (as_float s.temp)))
        (codes "Humidity") (j.number s.humidity)

  -- `AsJson`: a value of another type than the kind has makes `any_cast` throw, and the kinds that
  -- have no JSON form give the empty text.
  unfoldable pub as_json : (Double → Double) → Message → Option Text
  unfolding header light_json mandolyn_json
  as_json as_float m =
      if id_eq m.id telldus_device_set_state
      then as_light m.value
        >>= (λ l. some (j.serialize (j.with_field (header m) (codes "Value") (light_json l))))
      else if id_eq m.id mandolyn_sensor
      then as_mandolyn m.value >>= (λ s.
        some (j.serialize (j.with_field (header m) (codes "Value") (mandolyn_json as_float s))))
      else some []
