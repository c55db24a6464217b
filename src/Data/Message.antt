-- ===== src/Data/Message.antt =====
-- homecontrol/Message.h and Message.cpp: a message, the values that its `std::any` holds, and the
-- callbacks that messages carry. A `std::function` is the record of what it captures, with a
-- constructor for each lambda that the program makes.
use homecontrol_server.Common.{ℕ, ℤ, Bool, Text, List, [], ◌∷◌, Option, none, some}
use homecontrol_server.Data.Meta.{MessageId, Cmd}
use homecontrol_server.Data.Devices.{
  MessageLightState, ArctechSwitch, MandolynSensor, BluetoothDevice, Sensor,
}
use homecontrol_server.Data.Vehicle.{VehicleInformation}

-- A `web::http::http_request`: which one it is, and the query of its address.
pub record HttpRequest : Type 0 where
  pub ticket : ℕ
  pub query : Text

-- The functions that `Cmd::Run` messages carry.
pub data Closure : Type 0 where
  stop_running : Closure
  owner_callback : Closure
  handle_incoming : HttpRequest → Closure
  send_back : ℤ → Sensor → Closure

-- The answer callbacks: a promise of `SendAndRead`, or an HTTP request under its number.
pub data Answerer : Type 0 where
  promise : ℕ → Answerer
  http_reply : ℤ → Answerer

pub data Value : Type 0 where
  light : MessageLightState → Value
  light_list : List MessageLightState → Value
  switch : ArctechSwitch → Value
  mandolyn : MandolynSensor → Value
  bluetooth : BluetoothDevice → Value
  room_sensor : Sensor → Value
  sensor_list : List Sensor → Value
  vehicle : VehicleInformation → Value
  number : ℤ → Value
  flag : Bool → Value
  string : Text → Value
  lines : List Text → Value
  function : Closure → Value

pub record Message : Type 0 where
  pub cmd : Cmd
  pub id : MessageId
  pub value : Option Value
  pub answerer : Option Answerer

-- The constructors with and without a value, and with an answer callback.
abbrev pub plain_message : Cmd → MessageId → Message
plain_message c i = record { cmd = c; id = i; value = none; answerer = none }

abbrev pub message : Cmd → MessageId → Value → Message
message c i v = record { cmd = c; id = i; value = some v; answerer = none }

abbrev pub asking_message : Cmd → MessageId → Value → Answerer → Message
asking_message c i v a = record { cmd = c; id = i; value = some v; answerer = some a }

-- `GetValue<T>`: the held value if it has exactly this type.
abbrev pub as_light : Option Value → Option MessageLightState
as_light (some (light v)) = some v
as_light _ = none

abbrev pub as_mandolyn : Option Value → Option MandolynSensor
as_mandolyn (some (mandolyn v)) = some v
as_mandolyn _ = none

abbrev pub as_bluetooth : Option Value → Option BluetoothDevice
as_bluetooth (some (bluetooth v)) = some v
as_bluetooth _ = none

abbrev pub as_sensor : Option Value → Option Sensor
as_sensor (some (room_sensor v)) = some v
as_sensor _ = none

abbrev pub as_number : Option Value → Option ℤ
as_number (some (number v)) = some v
as_number _ = none

abbrev pub as_flag : Option Value → Option Bool
as_flag (some (flag v)) = some v
as_flag _ = none

abbrev pub as_string : Option Value → Option Text
as_string (some (string v)) = some v
as_string _ = none

abbrev pub as_lines : Option Value → Option (List Text)
as_lines (some (lines v)) = some v
as_lines _ = none

abbrev pub as_function : Option Value → Option Closure
as_function (some (function f)) = some f
as_function _ = none

-- What a manager does besides changing its own state, in the order in which it does it.
pub data Effect : Type 0 where
  send : Message → Effect
  answers : Answerer → Message → Effect

-- `msg.Answer(reply)`: nothing happens without a callback.
abbrev pub answer_with : Message → Message → List Effect
answer_with m reply = elim m.answerer [ none ↦ [] | some a ↦ answers a reply ∷ [] ]
