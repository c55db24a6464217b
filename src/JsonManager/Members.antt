-- ===== src/JsonManager/Members.antt =====
-- What the JSON objects hold.
use homecontrol_server.Common.{ℕ, to_int, ◌≡◌, refl, ◌∙◌, ap, codes, List, [], ◌∷◌, some}
use homecontrol_server.Data.Meta.{answer, sensor}
use homecontrol_server.Data.Devices.{Sensor, sensor_request}
use homecontrol_server.Data.Vehicle.{VehicleState}
use homecontrol_server.Data.Message.{Message, Effect, answers, message, promise, room_sensor}
use homecontrol_server.Json.{JsonLib, JsonLaws}
use homecontrol_server.Sensors.{SensorManager}
use homecontrol_server.Sensors
use homecontrol_server.Sensors.Readings.{sensor_answer}
use homecontrol_server.Json.Objects.{object, last_member, field-object}
use homecontrol_server.JsonManager.{
  sensor_members, vehicle_state_members, question, send_and_read, get_sensor,
}

-- The answers among what a manager does.
pub answers_of : List Effect → List Message
answers_of [] = []
answers_of (answers a m ∷ es) = m ∷ answers_of es
answers_of (e ∷ es) = answers_of es

module _ (j : JsonLib) where
  pub get_sensor-one_answer :
      (n id : ℕ) (s : Sensor)
      → (get_sensor j n id (message answer sensor (room_sensor s) ∷ [])).1
        ≡ object j ((codes "sensor", object j (sensor_members j s)) ∷ [])
  unfolding get_sensor send_and_read
  get_sensor-one_answer n id s = refl

module _ (j : JsonLib) (laws : JsonLaws j) where
  get_sensor-answered :
      (n id : ℕ) (s : SensorManager)
      → (get_sensor j n id (
          answers_of
            (Sensors.handle_message s (question n sensor (room_sensor (sensor_request id)))).1)).1
        ≡ object j
            ((codes "sensor", object j (sensor_members j (Sensors.get_sensor s (to_int id)))) ∷ [])
  unfolding get_sensor send_and_read answers_of
  get_sensor-answered n id s = rw (sensor_answer s (sensor_request id) (promise n)) refl

  -- If the sensor manager answers in time, the JSON of a sensor holds the values that the manager has
  -- for it.
  pub get_sensor_shows :
      (n id : ℕ) (s : SensorManager)
      → let shown =
          (get_sensor j n id (
            answers_of
              (Sensors.handle_message s
                (question n sensor (room_sensor (sensor_request id)))).1)).1 in
        let known = Sensors.get_sensor s (to_int id) in
        (o : j.Json) × (j.field shown (codes "sensor") ≡ some o)
        × (j.field o (codes "id") ≡ some (j.number (to_int known.internal_id)))
        × (j.field o (codes "temperature") ≡ some (j.double_number known.temperature))
        × (j.field o (codes "humidity") ≡ some (j.number known.humidity))
        × (j.field o (codes "name") ≡ some (j.string known.name))
  unfolding last_member
  get_sensor_shows n id s =
      let known = Sensors.get_sensor s (to_int id) in
      let o = object j (sensor_members j known) in
      (
        o,
        ap (λ v. j.field v (codes "sensor")) (get_sensor-answered n id s)
            ∙ field-object j laws (codes "sensor") ((codes "sensor", o) ∷ []),
        field-object j laws (codes "id") (sensor_members j known),
        field-object j laws (codes "temperature") (sensor_members j known),
        field-object j laws (codes "humidity") (sensor_members j known),
        field-object j laws (codes "name") (sensor_members j known),
      )

  -- The member for the window of the driver shows the window of the passenger instead, and the front
  -- trunk has no member of its own.
  pub driver_window_shows_passenger :
      (v : VehicleState)
      → (j.field (object j (vehicle_state_members j v)) (codes "fd_window")
          ≡ some (j.boolean v.fp_window))
        × (j.field (object j (vehicle_state_members j v)) (codes "ft")
            ≡ j.field j.null (codes "ft"))
  unfolding last_member
  driver_window_shows_passenger v = (
    field-object j laws (codes "fd_window") (vehicle_state_members j v),
    field-object j laws (codes "ft") (vehicle_state_members j v),
  )
