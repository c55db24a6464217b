-- ===== src/Tests/Managers.antt =====
-- Presence, sensors, schedules and lamps at concrete inputs.
use homecontrol_server.Common.{
  ℕ, ℤ, pos, negsuc, ◌≡◌, ◌↔◌, refl, true, false, List, [], ◌∷◌, some, none, codes, map, to_int,
  ◌==◌,
}
use homecontrol_server.Common.OrdMap.{find, ℤ_key}
use homecontrol_server.Data.Meta.{
  write, answer, read_with_direct_answer, blootooth_device, mandolyn_sensor, sensor, light_state,
}
use homecontrol_server.Data.Devices.{
  BluetoothDevice, blank_sensor, sensor_request, MessageLightState, on, off,
}
use homecontrol_server.Data.Message.{
  Message, message, asking_message, bluetooth, mandolyn, room_sensor, light, answers, promise,
}
use homecontrol_server.Presence.{new_presence_manager}
use homecontrol_server.Presence
use homecontrol_server.Presence.History.{last_report, at_least_one_iff}
use homecontrol_server.Sensors.{SensorManager}
use homecontrol_server.Sensors
use homecontrol_server.Sensors.Readings.{shown, sensor_reply}
use homecontrol_server.Schedule.{
  Schedule, TimeOfDay, lightswitch_on, lightswitch_off, switch_lights, convert_hours_to_my_timezone,
}
use homecontrol_server.Schedule
use homecontrol_server.Schedule.Firing.{one_schedule, repeat, beginnings, run_fires_on_beginnings}
use homecontrol_server.Lights.{Light, LightControl, told}
use homecontrol_server.Lights.Hue.{HueManager, get_lamp}
use homecontrol_server.Lights.Hue
use homecontrol_server.Lights.Hue.Lamps.{written, write-read}
use homecontrol_server.Lights.Telldus.{telldus_handle_message, handle_light, command_line_control}
use homecontrol_server.Lights.Telldus.Remote.{set_state, remote_messages, telldus_write}
use homecontrol_server.Lights.Telldus.Stuck.{off_commands, off_is_not_stored}

abbrev phone : BluetoothDevice
phone = record { device_id = pos 4; address = codes "00:11"; in_range = true }

abbrev reports : List Message
reports =
    message write blootooth_device (bluetooth phone)
    ∷ message write blootooth_device
        (bluetooth (record phone { device_id = pos 2; in_range = false }))
    ∷ []

at_least_one_iff_example :
    ((Presence.run new_presence_manager reports).at_least_one_at_home ≡ true) ↔ (
      (d : ℤ) × (dev : BluetoothDevice) × (last_report d none reports ≡ some dev)
      × (dev.in_range ≡ true))
at_least_one_iff_example = at_least_one_iff reports

abbrev kitchen : SensorManager
kitchen = record {
  cached =
      (
        pos 1030,
        record {
          internal_id = 1030;
          id = pos 11;
          temperature = 0;
          humidity = pos 0;
          name = codes "kitchen";
        },
      )
      ∷ [];
}

abbrev readings : List Message
readings =
    message write mandolyn_sensor
      (mandolyn (record { id = pos 11; temp = 4626322717216342016; humidity = pos 40 }))
    ∷ message write mandolyn_sensor (mandolyn (record { id = pos 12; temp = 0; humidity = pos 50 }))
    ∷ []

sensor_reply_example :
    (Sensors.handle_message (Sensors.run kitchen readings) (
      asking_message read_with_direct_answer sensor
        (room_sensor (sensor_request 1030))
        (promise 7))).1
    ≡ answers (promise 7) (
        message answer sensor (
          room_sensor (elim (find (to_int 1030) kitchen.cached) [
            | none ↦ blank_sensor
            | some known ↦ shown known readings
          ])))
      ∷ []
sensor_reply_example = sensor_reply kitchen readings (sensor_request 1030) (promise 7)

abbrev evening : Schedule
evening = record {
  start_hours = 20;
  start_minutes = 15;
  schedule_action = lightswitch_on;
  internal_ids = 3 ∷ 5 ∷ [];
  handled = false;
}

abbrev clock : List TimeOfDay
clock =
    record { hours = 19; minutes = 14 }
    ∷ record { hours = 19; minutes = 15 }
    ∷ record { hours = 19; minutes = 15 }
    ∷ record { hours = 19; minutes = 16 }
    ∷ []

run_fires_on_beginnings_example :
    (Schedule.run clock (one_schedule evening (negsuc 0))).1
    ≡ repeat (beginnings (negsuc 0) evening false clock) (switch_lights lightswitch_on (3 ∷ 5 ∷ []))
run_fires_on_beginnings_example = run_fires_on_beginnings clock (negsuc 0) evening

abbrev both : List Schedule
both = evening ∷ record evening { start_minutes = 16; schedule_action = lightswitch_off } ∷ []

abbrev lamps : List Light
lamps =
    record { id = 3; lamp_id = 1; name = codes "hall"; state = on }
    ∷ record { id = 5; lamp_id = 2; name = codes "desk"; state = off }
    ∷ []

-- A bridge that remembers the last lamp that was set, and refuses the lamp 2.
abbrev bridge : LightControl ℕ
bridge = record {
  read_light_state = λ w n. (some off, w);
  set_light_state = λ w n s. ((n == 1), n);
}

abbrev hall_off : MessageLightState
hall_off = record { id = 3; is_on = false; name = [] }

abbrev hue : HueManager ℕ
hue = record { lamps = lamps; bridge = 0 }

write-read_example :
    let after = (Hue.handle_message bridge hue (message write light_state (light hall_off))).0 in
    Hue.handle_message bridge after
      (asking_message read_with_direct_answer light_state (light hall_off) (promise 7))
    ≡ (
      after,
      elim (written bridge off 0 (get_lamp 3 lamps)) [
        | none ↦ []
        | some l ↦ answers (promise 7) (message answer light_state (light (told l l.name))) ∷ []
      ],
    )
write-read_example = write-read bridge hue hall_off hall_off (promise 7)

telldus_write_example :
    telldus_handle_message lamps (message write light_state (light hall_off))
    ≡ (map (set_state 3 off) lamps, remote_messages 3 off lamps)
telldus_write_example = telldus_write lamps hall_off

off_is_not_stored_example :
    handle_light command_line_control lamps (message write light_state (light hall_off))
    ≡ (lamps, off_commands 3 lamps)
off_is_not_stored_example = off_is_not_stored lamps hall_off refl
