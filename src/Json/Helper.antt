-- ===== src/Json/Helper.antt =====
-- homecontrol/JsonHelper.cpp: the members of an object by the type of their value, and the JSON of a
-- sensor in Sensor.h. A `float` is held as the `double` of the same value.
use homecontrol_server.Common.{ℕ, ℤ, pos, to_int, Bool, Text, codes, Option, none, some}
use homecontrol_server.Data.Devices.{Double, Sensor}
use homecontrol_server.Json.{JsonLib}

module _ (j : JsonLib) where
  pub set_uint64 : j.Json → Text → ℕ → j.Json
  set_uint64 json value n = j.with_field json value (j.number (pos n))

  pub set_integer : j.Json → Text → ℤ → j.Json
  set_integer json value n = j.with_field json value (j.number n)

  pub set_float : j.Json → Text → Double → j.Json
  set_float json value d = j.with_field json value (j.double_number d)

  pub set_double : j.Json → Text → Double → j.Json
  set_double json value d = j.with_field json value (j.double_number d)

  pub set_bool : j.Json → Text → Bool → j.Json
  set_bool json value b = j.with_field json value (j.boolean b)

  pub set_string : j.Json → Text → Text → j.Json
  set_string json value s = j.with_field json value (j.string s)

  -- Without a text nothing is assigned.
  pub set_optional_string : j.Json → Text → Option Text → j.Json
  set_optional_string json value none = json
  set_optional_string json value (some s) = j.with_field json value (j.string s)

  -- `Sensor::asJson`.
  pub sensor_as_json : Sensor → j.Json
  unfolding set_integer set_double set_string
  sensor_as_json s =
      set_string
        (set_integer
          (set_double (set_integer j.null (codes "id") (to_int s.internal_id)) (codes "temperature")
            s.temperature)
          (codes "humidity") s.humidity)
        (codes "name") s.name
