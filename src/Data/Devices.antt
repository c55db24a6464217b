-- ===== src/Data/Devices.antt =====
-- The values that managers exchange: homecontrol/LightState.h, MessageLightState.h, ArctechSwitch.h,
-- MandloynSensor.h, BluetoothDevice.h, Sensor.h. A `double` is its 64-bit IEEE 754 pattern.
use homecontrol_server.Common.{ℕ, ◌^◌, ◌%◌, ℤ, pos, Bool, false, Text, [], ◌==◌}

abbrev pub Double : Type 0
Double = ℕ

-- `d == 0.0`: both zeros, and no other value, are equal to 0.
abbrev pub is_zero : Double → Bool
is_zero d = (d % 2 ^ 63) == 0

pub data LightState : Type 0 where
  on off : LightState

abbrev pub light_state_eq_on : LightState → Bool
light_state_eq_on on = Bool.true
light_state_eq_on off = false

pub record MessageLightState : Type 0 where
  pub id : ℕ
  pub is_on : Bool
  pub name : Text

pub record ArctechSwitch : Type 0 where
  pub house : ℤ
  pub unit : ℤ
  pub group : ℤ
  pub is_on : Bool

pub record MandolynSensor : Type 0 where
  pub id : ℤ
  pub temp : Double
  pub humidity : ℤ

pub record BluetoothDevice : Type 0 where
  pub device_id : ℤ
  pub address : Text
  pub in_range : Bool

pub record Sensor : Type 0 where
  pub internal_id : ℕ
  pub id : ℤ
  pub temperature : Double
  pub humidity : ℤ
  pub name : Text

-- `Sensor()` and `Sensor(internalId)`.
abbrev pub blank_sensor : Sensor
blank_sensor = record { internal_id = 0; id = pos 0; temperature = 0; humidity = pos 0; name = [] }

abbrev pub sensor_request : ℕ → Sensor
sensor_request n = record blank_sensor { internal_id = n }
