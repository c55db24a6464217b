-- ===== src/Tests/Started.antt =====
-- The program at a concrete configuration.
use homecontrol_server.Common.{
  append-nil, map, length, Text, ℕ, codes, ◌+ℤ◌, none, if◌then◌else◌, true, false, pos, ◌≡◌, refl,
  List, [], ◌∷◌, ◌++◌, get_elem?, some,
}
use homecontrol_server.Data.Devices.{LightState, on, off}
use homecontrol_server.Data.Message.{
  promise, room_sensor, Message, message, plain_message, mandolyn,
}
use homecontrol_server.Data.Meta.{answer, sensor, id_eq, write, read, mandolyn_sensor, command_line}
use homecontrol_server.Program.{start_threads}
use homecontrol_server.Program.Wiring.{asked_for, program_delivers}
use homecontrol_server.Json.Objects.{object}
use homecontrol_server.JsonManager.{sensor_members, get_sensor}
use homecontrol_server.Lights.{LightControl}
use homecontrol_server.Lights.Hue.{HueManager, get_lamp}
use homecontrol_server.Lights.Hue.Lamps.{switched}
use homecontrol_server.Program.Measured.{sensors_owner, asking, measured, json_shows_measured}
use homecontrol_server.Sensors
use homecontrol_server.Telldus.{send_readings}
use homecontrol_server.Tests.JsonTree.{tree_json}
use homecontrol_server.Program.Scheduled.{
  hue_owner, is_named, sent_messages, switch_messages, schedule_switches_lamps,
}
use homecontrol_server.Runtime.Dispatch.{with_rx}
use homecontrol_server.Schedule.{Schedule, lightswitch_on, is_time, callback}
use homecontrol_server.Queue.{empty}
use homecontrol_server.Runtime.{
  Mailbox, Thread, new_thread, hue_manager, sensor_manager, handle_new_message,
}
use homecontrol_server.Runtime.Routing.{process_messages}
use homecontrol_server.Runtime.Routing.Delivery.{all_sent}

abbrev reading : Message
reading =
    message write mandolyn_sensor
      (mandolyn (record { id = pos 11; temp = 4622945017495814144; humidity = pos 55 }))

abbrev poll : Message
poll = plain_message read command_line

abbrev quiet : Mailbox
quiet = record { rx = empty; tx = empty }

abbrev waiting : Mailbox
waiting = record { rx = record { items = poll ∷ [] }; tx = empty }

abbrev boxes : List Mailbox
boxes =
    quiet
    ∷ quiet
    ∷ quiet
    ∷ waiting
    ∷ quiet
    ∷ quiet
    ∷ quiet
    ∷ quiet
    ∷ record { rx = empty; tx = record { items = poll ∷ reading ∷ [] } }
    ∷ quiet
    ∷ []

-- The remote peers get the readings, 17 by its number, and the sensor manager gets them too.
asked_for-reading : asked_for (17 ∷ []) 3 (poll ∷ reading ∷ []) ≡ reading ∷ []
unfolding asked_for id_eq
asked_for-reading = refl

program_delivers_example :
    get_elem? (process_messages (start_threads (17 ∷ [])).subscribers boxes) 3
    ≡ some (record {
      rx = record {
        items =
            poll ∷ []
            ++ asked_for (17 ∷ []) 3 (all_sent (start_threads (17 ∷ [])).subscribers boxes);
      };
      tx = empty;
    })
program_delivers_example = program_delivers (17 ∷ []) boxes 3 waiting refl

-- A bridge that keeps what it was told.
abbrev bridge : LightControl (List (ℕ × LightState))
bridge = record {
  read_light_state = λ w lamp. (none, w);
  set_light_state = λ w lamp s. (true, w ++ (lamp, s) ∷ []);
}

abbrev evening : Schedule
evening = record {
  start_hours = 18;
  start_minutes = 30;
  schedule_action = lightswitch_on;
  internal_ids = 100 ∷ 102 ∷ [];
  handled = false;
}

abbrev hue_thread : Thread (HueManager (List (ℕ × LightState)))
hue_thread =
    new_thread (record { name = codes "HueManager"; runtime_id = hue_manager; run_time = 100 })
      (record {
        lamps =
            record { id = 100; lamp_id = 1; name = codes "hall"; state = off }
            ∷ record { id = 101; lamp_id = 2; name = codes "door"; state = off }
            ∷ [];
        bridge = [];
      })

abbrev evening_boxes : List Mailbox
evening_boxes =
    quiet
    ∷ quiet
    ∷ quiet
    ∷ quiet
    ∷ quiet
    ∷ quiet
    ∷ quiet
    ∷ quiet
    ∷ quiet
    ∷ record { rx = empty; tx = record { items = switch_messages true (100 ∷ 102 ∷ []) } }
    ∷ []

schedule_switches_lamps_example :
    let ms = switch_messages true (100 ∷ 102 ∷ []) in
    let lamps =
      (handle_new_message (hue_owner bridge) (with_rx empty hue_thread) (ms ∷ [])).0.owner.lamps in
    (get_elem? (process_messages (start_threads (17 ∷ [])).subscribers evening_boxes) 1
      ≡ some (record { rx = record { items = ms }; tx = empty }))
    × (get_lamp 100 lamps ≡ (
        if is_named 100 (100 ∷ 102 ∷ [])
        then switched bridge on (get_lamp 100 hue_thread.owner.lamps)
        else get_lamp 100 hue_thread.owner.lamps))
unfolding sent_messages switch_messages is_time callback ◌+ℤ◌ new_thread
schedule_switches_lamps_example =
    schedule_switches_lamps bridge (λ w lamp s. refl) (17 ∷ []) evening_boxes hue_thread
      (record { hours = 19; minutes = 30 }) (pos 1) evening true 100 refl refl refl refl refl refl

abbrev tdtool_lines : List Text
tdtool_lines = codes "mandolyn temperaturehumidity 11 21.5 40" ∷ codes "other" ∷ []

abbrev sensor_thread : Thread Sensors.SensorManager
sensor_thread =
    new_thread
      (record { name = codes "SensorManager"; runtime_id = sensor_manager; run_time = 100 })
      (record {
        cached =
            (
              pos 1,
              record {
                id = pos 11;
                internal_id = 1;
                name = codes "garden";
                temperature = 0;
                humidity = pos 0;
              },
            )
            ∷ [];
      })

abbrev polled_boxes : List Mailbox
polled_boxes =
    quiet
    ∷ quiet
    ∷ quiet
    ∷ quiet
    ∷ quiet
    ∷ quiet
    ∷ quiet
    ∷ quiet
    ∷ record {
      rx = empty;
      tx = record { items = sent_messages (send_readings length tdtool_lines) };
    }
    ∷ quiet
    ∷ []

abbrev asking_boxes : List Mailbox
asking_boxes =
    quiet
    ∷ quiet
    ∷ quiet
    ∷ quiet
    ∷ record { rx = empty; tx = record { items = asking 7 1 ∷ [] } }
    ∷ quiet
    ∷ []

json_shows_measured_example :
    let ms = sent_messages (send_readings length tdtool_lines) in
    let known = (handle_new_message sensors_owner (with_rx empty sensor_thread) (ms ∷ [])).0 in
    let replies =
      (handle_new_message sensors_owner (with_rx empty known) ((asking 7 1 ∷ []) ∷ [])).1 in
    let value = measured sensor_thread.owner ms 1 in
    (get_elem? (process_messages (start_threads (17 ∷ [])).subscribers polled_boxes) 3
      ≡ some (record { rx = record { items = ms }; tx = empty }))
    × (get_elem? (process_messages (start_threads (17 ∷ [])).subscribers asking_boxes) 3
        ≡ some (record { rx = record { items = asking 7 1 ∷ [] }; tx = empty }))
    × (replies ≡ (promise 7, message answer sensor (room_sensor value)) ∷ [])
    × ((get_sensor tree_json 7 1 (map (λ r. r.1) replies)).1
        ≡ object tree_json
            ((codes "sensor", object tree_json (sensor_members tree_json value)) ∷ []))
unfolding new_thread
json_shows_measured_example =
    json_shows_measured tree_json length (17 ∷ []) tdtool_lines polled_boxes asking_boxes
      sensor_thread 7 1 refl refl refl
      (append-nil (sent_messages (send_readings length tdtool_lines))) refl
