-- ===== src/Sensors.antt =====
-- homecontrol/SensorManager.cpp: the last reading of each configured sensor. `m_Sensors` is a
-- `std::map<int, Sensor>`, whose keys are the internal ids converted to `int`.
pub mod Readings
use homecontrol_server.Common.{
  ℕ, ℤ, pos, eq_ℤ, to_int, Bool, true, false, ◌&&◌, Text, List, [], ◌∷◌, Option, none, some, map,
  if◌then◌else◌,
}
use homecontrol_server.Common.OrdMap.{find, assign, values, ℤ_key}
use homecontrol_server.Subscription.{SubscriptionData}
use homecontrol_server.Subscription
use homecontrol_server.Data.Meta.{
  cmd_eq, id_eq, write, read, answer, read_with_direct_answer, mandolyn_sensor, sensor, sensors,
}
use homecontrol_server.Data.Devices.{MandolynSensor, Sensor, blank_sensor}
use homecontrol_server.Data.Message.{
  Message, Effect, send, message, room_sensor, sensor_list, as_mandolyn, as_sensor, answer_with,
}

-- IGetConfiguration.h.
pub record TempHumidity : Type 0 where
  pub internal_id : ℕ
  pub id : ℤ
  pub name : Text

pub record SensorManager : Type 0 where
  pub cached : List (ℤ × Sensor)

abbrev pub configured : TempHumidity → Sensor
configured c = record {
  internal_id = c.internal_id;
  id = c.id;
  temperature = 0;
  humidity = pos 0;
  name = c.name;
}

-- The loop of the constructor.
pub add_sensors : List TempHumidity → SensorManager → SensorManager
unfolding assign
add_sensors [] s = s
add_sensors (c ∷ cs) s =
    add_sensors cs (record { cached = assign (to_int c.internal_id) (configured c) s.cached })

pub new_sensor_manager : List TempHumidity → SensorManager
unfolding add_sensors
new_sensor_manager cs = add_sensors cs (record { cached = [] })

-- A reading is taken over by the sensor that it comes from; its identity and name stay.
abbrev pub take_reading : MandolynSensor → Sensor → Sensor
take_reading r s =
    if eq_ℤ s.id r.id then record s { temperature = r.temp; humidity = r.humidity } else s

pub update_cache : MandolynSensor → List (ℤ × Sensor) → List (ℤ × Sensor)
update_cache r [] = []
update_cache r ((k, s) ∷ m) = (k, take_reading r s) ∷ update_cache r m

pub get_sensor : SensorManager → ℤ → Sensor
unfolding find
get_sensor s k = elim (find k s.cached) [ none ↦ blank_sensor | some v ↦ v ]

pub handle_message : SensorManager → Message → SensorManager × List Effect
unfolding update_cache get_sensor
handle_message s m =
    if id_eq m.id mandolyn_sensor
    then if cmd_eq m.cmd write
      then elim (as_mandolyn m.value) [
        | none ↦ (s, [])
        | some r ↦ (record { cached = update_cache r s.cached }, [])
      ]
      else (s, [])
    else if id_eq m.id sensor
    then if cmd_eq m.cmd read_with_direct_answer
      then elim (as_sensor m.value) [
        | none ↦ (s, [])
        | some asked ↦ (
          s,
          answer_with m
              (message answer sensor (room_sensor (get_sensor s (to_int asked.internal_id)))),
        )
      ]
      else if cmd_eq m.cmd read
      then elim (as_sensor m.value) [
        | none ↦ (s, [])
        | some asked ↦ (
          s,
          send (message answer sensor (room_sensor (get_sensor s (to_int asked.internal_id)))) ∷ [],
        )
      ]
      else (s, [])
    else if id_eq m.id sensors
    then if cmd_eq m.cmd read_with_direct_answer
      then (s, answer_with m (message answer sensor (sensor_list (values s.cached))))
      else (s, [])
    else (s, [])

unfoldable pub run : SensorManager → List Message → SensorManager
unfolding handle_message
run s [] = s
run s (m ∷ ms) = run (handle_message s m).0 ms

-- The subscriptions of the constructor.
unfoldable pub subscriptions : ℕ → List SubscriptionData → List SubscriptionData
subscriptions me subscribers =
    Subscription.subscribe
      (Subscription.subscribe
        (Subscription.subscribe subscribers (record { id = mandolyn_sensor; runtime = me }))
        (record { id = sensor; runtime = me }))
      (record { id = sensors; runtime = me })
