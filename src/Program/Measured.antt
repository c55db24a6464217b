-- ===== src/Program/Measured.antt =====
-- From the output of `tdtool` over the main loop to the JSON of a sensor.
use homecontrol_server.Common.{
  ℕ, ℤ, ◌≡◌, refl, ap, ◌∙◌, true, to_int, Text, codes, List, [], ◌∷◌, ◌++◌, map, Option, none, some,
  get_elem?, All,
}
use homecontrol_server.Common.OrdMap.{find, ℤ_key}
use homecontrol_server.Data.Devices.{MandolynSensor, Sensor, blank_sensor, sensor_request}
use homecontrol_server.Data.Message.{Message, Effect, message, mandolyn, promise, room_sensor}
use homecontrol_server.Data.Meta.{id_eq, cmd_eq, write, answer, mandolyn_sensor, sensor}
use homecontrol_server.Json.{JsonLib}
use homecontrol_server.Json.Objects.{object}
use homecontrol_server.JsonManager.{question, sensor_members, get_sensor}
use homecontrol_server.JsonManager.Members.{get_sensor-one_answer}
use homecontrol_server.Program.{start_threads}
use homecontrol_server.Program.Scheduled.{sent_messages}
use homecontrol_server.Program.Wiring.{asked_for, program_delivers}
use homecontrol_server.Queue.{empty}
use homecontrol_server.Runtime.{Owner, Mailbox, Thread, handle_new_message}
use homecontrol_server.Runtime.Dispatch.{KeepsRunning, with_rx}
use homecontrol_server.Runtime.Dispatch.Owners.{
  IsValue, replies_of, owner_after, handle_new_message-owner, handle_new_message-replies,
}
use homecontrol_server.Runtime.Routing.{process_messages}
use homecontrol_server.Runtime.Routing.Delivery.{all_sent}
use homecontrol_server.Sensors.{SensorManager, handle_message, run}
use homecontrol_server.Sensors.Readings.{shown, sensor_reply}
use homecontrol_server.Telldus.{reading_of, parse_line, send_readings}

abbrev IsReading : Message → Type 0
IsReading m = (r : MandolynSensor) × (m ≡ message write mandolyn_sensor (mandolyn r))

-- The sensor manager puts no functions into messages.
abbrev pub sensors_owner : Owner SensorManager
sensors_owner = record {
  handle_message = handle_message;
  callback = λ s. (s, [], true);
  call = λ s f. (s, [], true);
}

reading_of-IsReading :
    (to_double : Text → ℕ) (o : Option (ℤ × ℕ × ℤ)) (es : List Effect)
    → All IsReading (sent_messages es)
    → All IsReading (sent_messages (reading_of to_double o ++ es))
unfolding sent_messages
reading_of-IsReading to_double none es h = h
reading_of-IsReading to_double (some (id, temp, humidity)) es h = ((_, refl), h)

send_readings-IsReading :
    (to_double : Text → ℕ) (ls : List Text)
    → All IsReading (sent_messages (send_readings to_double ls))
unfolding send_readings sent_messages
send_readings-IsReading to_double [] = tt
send_readings-IsReading to_double (l ∷ ls) =
    reading_of-IsReading to_double (parse_line to_double l) (send_readings to_double ls)
      (send_readings-IsReading to_double ls)

asked_for-readings : (ids : List ℕ) (ms : List Message) → All IsReading ms → asked_for ids 3 ms ≡ ms
unfolding asked_for id_eq
asked_for-readings ids [] h = refl
asked_for-readings ids (m ∷ ms) ((r, e), h) =
    rw e (ap (λ l. message write mandolyn_sensor (mandolyn r) ∷ l) (asked_for-readings ids ms h))

readings_keep_running : (ms : List Message) → All IsReading ms → All KeepsRunning ms
readings_keep_running [] h = tt
readings_keep_running (m ∷ ms) ((r, e), h) = (rw e (λ q. cc), readings_keep_running ms h)

readings_are_values : (ms : List Message) → All IsReading ms → All IsValue ms
unfolding cmd_eq
readings_are_values [] h = tt
readings_are_values (m ∷ ms) ((r, e), h) = (rw e refl, readings_are_values ms h)

owner_after-run :
    (s : SensorManager) (ms : List Message) → owner_after sensors_owner s ms ≡ run s ms
unfolding owner_after run
owner_after-run s [] = refl
owner_after-run s (m ∷ ms) = owner_after-run (handle_message s m).0 ms

abbrev pub quiet : Mailbox
quiet = record { rx = empty; tx = empty }

-- What the sensor manager answers, asked after some messages: the sensor with its last reading.
abbrev pub measured : SensorManager → List Message → ℕ → Sensor
measured s ms id = elim (find (to_int id) s.cached) [
  | none ↦ blank_sensor
  | some known ↦ shown known ms
]

abbrev pub asking : ℕ → ℕ → Message
asking n id = question n sensor (room_sensor (sensor_request id))

module _ (j : JsonLib) (to_double : Text → ℕ) (ids : List ℕ) where
  -- Two rounds of the main loop between the threads: in the first one only the readings of some lines of
  -- `tdtool` are to be sent, and in the second one only the question of `getSensor` for a sensor. The
  -- thread of the sensor manager runs, and has nothing else to handle. Both reach it, and when it has
  -- handled them, it has given one answer to the question, from which `getSensor` makes the JSON of the
  -- sensor with the last reading of its id, or of a blank sensor if none has the internal id.
  pub json_shows_measured :
      (ls : List Text) (boxes later : List Mailbox) (t : Thread SensorManager) (n id : ℕ)
      → t.running ≡ true
      → get_elem? boxes 3 ≡ some quiet
      → get_elem? later 3 ≡ some quiet
      → all_sent (start_threads ids).subscribers boxes ≡ sent_messages (send_readings to_double ls)
      → all_sent (start_threads ids).subscribers later ≡ asking n id ∷ []
      → let ms = sent_messages (send_readings to_double ls) in
        let known = (handle_new_message sensors_owner (with_rx empty t) (ms ∷ [])).0 in
        let replies =
          (handle_new_message sensors_owner (with_rx empty known) ((asking n id ∷ []) ∷ [])).1 in
        let value = measured t.owner ms id in
        (get_elem? (process_messages (start_threads ids).subscribers boxes) 3
          ≡ some (record { rx = record { items = ms }; tx = empty }))
        × (get_elem? (process_messages (start_threads ids).subscribers later) 3
            ≡ some (record { rx = record { items = asking n id ∷ [] }; tx = empty }))
        × (replies ≡ (promise n, message answer sensor (room_sensor value)) ∷ [])
        × ((get_sensor j n id (map (λ r. r.1) replies)).1
            ≡ object j ((codes "sensor", object j (sensor_members j value)) ∷ []))
  unfolding asked_for id_eq cmd_eq replies_of
  json_shows_measured ls boxes later t n id r place place' sent sent' =
      let ms = sent_messages (send_readings to_double ls) in
      let are = send_readings-IsReading to_double ls in
      let (owner, running) =
        handle_new_message-owner sensors_owner t ms r (readings_keep_running ms are)
          (readings_are_values ms are) in
      let known = (handle_new_message sensors_owner (with_rx empty t) (ms ∷ [])).0 in
      let value = measured t.owner ms id in
      let replies : (handle_new_message sensors_owner (with_rx empty known)
            ((asking n id ∷ []) ∷ [])).1
          ≡ (promise n, message answer sensor (room_sensor value)) ∷ [] =
        handle_new_message-replies sensors_owner known (asking n id) running (λ e. cc) refl
        ∙ ap (λ s. replies_of (handle_message s (asking n id)).1)
            (owner ∙ owner_after-run t.owner ms)
        ∙ ap replies_of (sensor_reply t.owner ms (sensor_request id) (promise n)) in
      (
        program_delivers ids boxes 3 quiet place ∙ rw (sent, asked_for-readings ids ms are) refl,
        program_delivers ids later 3 quiet place' ∙ rw sent' refl,
        replies,
        ap (λ rs. (get_sensor j n id (map (λ r. r.1) rs)).1) replies
            ∙ get_sensor-one_answer j n id value,
      )
