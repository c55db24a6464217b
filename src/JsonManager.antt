-- ===== src/JsonManager.antt =====
-- homecontrol/JSONManager.cpp with MessageWithDirectAnswer.h: what the REST API shows of the program.
-- A question is sent with a promise, and the messages that answer it within the second of the wait are an
-- argument. `promise n` is the promise of the call.
pub mod Members
use homecontrol_server.Common.{
  ℕ, ℤ, pos, to_int, Bool, true, false, Text, codes, List, [], ◌∷◌, Option, none, some, map,
}
use homecontrol_server.Data.Meta.{
  MessageId, write, read_with_direct_answer, sensor, sensors, light_state, lights, blootooth_device,
  presence, vehicle_information,
}
use homecontrol_server.Data.Devices.{
  Sensor, MessageLightState, BluetoothDevice, blank_sensor, sensor_request,
}
use homecontrol_server.Data.Vehicle.{
  VehicleState, DriveState, ChargeState, ClimateState, VehicleInformation, unknown_vehicle,
}
use homecontrol_server.Data.Message.{
  Message, Value, Effect, send, message, asking_message, promise, room_sensor, sensor_list, light,
  light_list, bluetooth, flag, vehicle, as_sensor, as_light, as_flag,
}
use homecontrol_server.Json.{JsonLib}
use homecontrol_server.Json.Objects.{set_all, object}

abbrev pub as_sensor_list : Option Value → Option (List Sensor)
as_sensor_list (some (sensor_list v)) = some v
as_sensor_list _ = none

abbrev pub as_light_list : Option Value → Option (List MessageLightState)
as_light_list (some (light_list v)) = some v
as_light_list _ = none

abbrev pub as_vehicle : Option Value → Option VehicleInformation
as_vehicle (some (vehicle v)) = some v
as_vehicle _ = none

-- `SendAndRead`: a promise takes the first value of the type, and refuses further ones; without any
-- the wait ends with the default value.
pub send_and_read : {A : Type 0} → (Option Value → Option A) → A → List Message → A
send_and_read as_type default [] = default
send_and_read as_type default (m ∷ ms) =
    let later = send_and_read as_type default ms in
    elim (as_type m.value) [ none ↦ later | some a ↦ a ]

-- `MessageLightState()`.
abbrev pub no_light : MessageLightState
no_light = record { id = 0; is_on = false; name = [] }

abbrev pub question : ℕ → MessageId → Value → Message
question n id v = asking_message read_with_direct_answer id v (promise n)

module _ (j : JsonLib) where
  abbrev pub sensor_members : Sensor → List (Text × j.Json)
  sensor_members s =
      (codes "id", j.number (to_int s.internal_id))
      ∷ (codes "temperature", j.double_number s.temperature)
      ∷ (codes "humidity", j.number s.humidity)
      ∷ (codes "name", j.string s.name)
      ∷ []

  abbrev pub light_members : MessageLightState → List (Text × j.Json)
  light_members l =
      (codes "id", j.number (to_int l.id))
      ∷ (codes "on", j.boolean l.is_on)
      ∷ (codes "name", j.string l.name)
      ∷ []

  abbrev pub vehicle_state_members : VehicleState → List (Text × j.Json)
  vehicle_state_members v =
      (codes "locked", j.boolean v.locked)
      ∷ (codes "odometer", j.double_number v.odometer_in_km)
      ∷ (codes "fd_window", j.boolean v.fp_window)
      ∷ (codes "fp_window", j.boolean v.fp_window)
      ∷ (codes "rd_window", j.boolean v.rd_window)
      ∷ (codes "rp_window", j.boolean v.rp_window)
      ∷ (codes "df", j.boolean v.df)
      ∷ (codes "dr", j.boolean v.dr)
      ∷ (codes "pf", j.boolean v.pf)
      ∷ (codes "pr", j.boolean v.pr)
      ∷ (codes "pr", j.boolean v.pr)
      ∷ (codes "rt", j.boolean v.rt)
      ∷ []

  abbrev pub drive_state_members : DriveState → List (Text × j.Json)
  drive_state_members d =
      (codes "heading", j.number (pos d.heading))
      ∷ (codes "latitude", j.double_number d.latitude)
      ∷ (codes "longitude", j.double_number d.longitude)
      ∷ (codes "power", j.double_number d.power)
      ∷ (codes "speed", j.double_number d.speed)
      ∷ []

  abbrev pub charge_state_members : ChargeState → List (Text × j.Json)
  charge_state_members c =
      (codes "usable_battery_level", j.number (pos c.usable_battery_level))
      ∷ (codes "battery_rangeInKM", j.double_number c.estimated_range_in_km)
      ∷ (codes "charger_actual_current", j.double_number c.charger_actual_current)
      ∷ (codes "charger_voltage", j.number (pos c.charger_actual_voltage))
      ∷ (codes "charging_state", j.string c.charging_state)
      ∷ (codes "time_to_full_charge", j.double_number c.time_to_full_charge)
      ∷ []

  abbrev pub climate_state_members : ClimateState → List (Text × j.Json)
  climate_state_members c =
      (codes "insideTemp", j.double_number c.inside_temp)
      ∷ (codes "outisde_temp", j.double_number c.outisde_temp)
      ∷ (codes "driver_temp_setting", j.double_number c.driver_temp_setting)
      ∷ (codes "passenger_temp_setting", j.double_number c.passenger_temp_setting)
      ∷ (codes "seat_heater_left", j.boolean c.seat_heater_left)
      ∷ (codes "seat_heater_right", j.boolean c.seat_heater_right)
      ∷ []

  abbrev one_member : Text → j.Json → j.Json
  one_member n x = object j ((n, x) ∷ [])

  pub get_sensor : ℕ → ℕ → List Message → List Effect × j.Json
  unfolding send_and_read set_all
  get_sensor n id answered = (
    send (question n sensor (room_sensor (sensor_request id))) ∷ [],
    one_member (codes "sensor")
        (object j (sensor_members (send_and_read as_sensor blank_sensor answered))),
  )

  pub get_all_sensors : ℕ → List Message → List Effect × j.Json
  unfolding send_and_read set_all
  get_all_sensors n answered = (
    send (question n sensors (sensor_list [])) ∷ [],
    one_member (codes "sensor") (
        j.array
          (map (λ s. object j (sensor_members s)) (send_and_read as_sensor_list [] answered))),
  )

  pub get_light_state : ℕ → ℕ → List Message → List Effect × j.Json
  unfolding send_and_read set_all
  get_light_state n id answered = (
    send (question n light_state (light (record { id = id; is_on = false; name = [] }))) ∷ [],
    one_member (codes "light")
        (object j (light_members (send_and_read as_light no_light answered))),
  )

  pub set_light_state : ℕ → ℕ → Bool → List Message → List Effect × j.Json
  unfolding get_light_state
  set_light_state n id state answered =
      let (es, v) = get_light_state n id answered in
      (
        send (message write light_state (light (record { id = id; is_on = state; name = [] })))
            ∷ es,
        v,
      )

  pub get_presence : ℕ → List Message → List Effect × j.Json
  unfolding send_and_read set_all
  get_presence n answered = (
    send (question n presence (flag true)) ∷ [],
    one_member (codes "presence") (j.boolean (send_and_read as_flag false answered)),
  )

  pub set_bt_dev_present : ℕ → ℕ → Bool → List Message → List Effect × j.Json
  unfolding get_presence
  set_bt_dev_present n id state answered =
      let (es, v) = get_presence n answered in
      (
        send (
              message write blootooth_device
                (bluetooth (record { device_id = to_int id; address = []; in_range = state })))
            ∷ es,
        v,
      )

  pub get_all_lights : ℕ → List Message → List Effect × j.Json
  unfolding send_and_read set_all
  get_all_lights n answered = (
    send (question n lights (light_list [])) ∷ [],
    one_member (codes "light")
        (j.array (map (λ l. object j (light_members l)) (send_and_read as_light_list [] answered))),
  )

  pub get_vehicle_state : ℕ → List Message → List Effect × j.Json
  unfolding send_and_read set_all
  get_vehicle_state n answered =
      let v = send_and_read as_vehicle unknown_vehicle answered in
      (
        send (question n vehicle_information (vehicle unknown_vehicle)) ∷ [],
        one_member (codes "respsonse") (
            object j (
              (codes "vehicleState", object j (vehicle_state_members v.vehicle_state))
              ∷ (codes "driveState", object j (drive_state_members v.drive_state))
              ∷ (codes "chargeState", object j (charge_state_members v.charge_state))
              ∷ (codes "climateState", object j (climate_state_members v.climate_state))
              ∷ [])),
      )
