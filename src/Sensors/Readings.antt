-- ===== src/Sensors/Readings.antt =====
-- A sensor that is asked for shows its last reading.
use homecontrol_server.Common.{
  eq_ℤ, Bool-cases, Option-cases, inl, inr, ℤ, to_int, ◌&&◌, List, [], ◌∷◌, Option, none, some,
  if◌then◌else◌, ◌≡◌, refl, ap, sym, ◌∙◌, arith,
}
use homecontrol_server.Common.OrdMap.{find, ℤ_key}
use homecontrol_server.Data.Meta.{
  cmd_eq, id_eq, write, answer, read_with_direct_answer, mandolyn_sensor, sensor,
}
use homecontrol_server.Data.Devices.{Double, MandolynSensor, Sensor, blank_sensor}
use homecontrol_server.Data.Message.{
  Message, answers, asking_message, message, room_sensor, as_mandolyn, Answerer,
}
use homecontrol_server.Sensors.{
  SensorManager, take_reading, update_cache, get_sensor, handle_message, run,
}

-- The reading that a message brings, if it brings one.
abbrev reading : Message → Option MandolynSensor
reading m = if id_eq m.id mandolyn_sensor && cmd_eq m.cmd write then as_mandolyn m.value else none

abbrev take_reading? : Option MandolynSensor → Sensor → Sensor
take_reading? none s = s
take_reading? (some r) s = take_reading r s

-- One sensor through a history.
follow : Sensor → List Message → Sensor
follow s [] = s
follow s (m ∷ ms) = follow (take_reading? (reading m) s) ms

take_all : Option MandolynSensor → SensorManager → SensorManager
take_all none s = s
take_all (some r) s = record { cached = update_cache r s.cached }

handle_message-take_all :
    (s : SensorManager) (m : Message) → (handle_message s m).0 ≡ take_all (reading m) s
unfolding handle_message take_all
handle_message-take_all s m = ground arith

abbrev map? {ℓ κ} : {A : Type ℓ} {B : Type κ} → (A → B) → Option A → Option B
map? f none = none
map? f (some a) = some (f a)

find-update_cache :
    (k : ℤ) (r : MandolynSensor) (m : List (ℤ × Sensor))
    → find k (update_cache r m) ≡ map? (take_reading r) (find k m)
unfolding find update_cache
find-update_cache k r [] = refl
find-update_cache k r ((j, s) ∷ m) = ground (arith, find-update_cache k r m)

find-take_all :
    (k : ℤ) (o : Option MandolynSensor) (s : SensorManager)
    → find k (take_all o s).cached ≡ map? (take_reading? o) (find k s.cached)
unfolding take_all
find-take_all k none s = ground arith
find-take_all k (some r) s = find-update_cache k r s.cached

map?-follow :
    (m : Message) (ms : List Message) (o : Option Sensor)
    → map? (λ s. follow s ms) (map? (take_reading? (reading m)) o) ≡ map? (λ s. follow s (m ∷ ms)) o
unfolding follow
map?-follow m ms none = refl
map?-follow m ms (some s) = refl

map?-id : {A : Type 0} (f : A → A) → ((a : A) → f a ≡ a) → (o : Option A) → o ≡ map? f o
map?-id f h none = refl
map?-id f h (some a) = ap some (sym (h a))

find-run :
    (k : ℤ) (s : SensorManager) (ms : List Message)
    → find k (run s ms).cached ≡ map? (λ t. follow t ms) (find k s.cached)
unfolding run
find-run k s [] = map?-id (λ t. follow t []) (λ a. unfold follow in refl) (find k s.cached)
find-run k s (m ∷ ms) =
    find-run k (handle_message s m).0 ms
    ∙ ap (map? (λ t. follow t ms))
        (ap (λ t. find k t.cached) (handle_message-take_all s m) ∙ find-take_all k (reading m) s)
    ∙ map?-follow m ms (find k s.cached)

-- What a history says about the sensor with an id: the values of its last reading.
abbrev newer : ℤ → Double × ℤ → Option MandolynSensor → Double × ℤ
newer id old none = old
newer id old (some r) = if eq_ℤ id r.id then (r.temp, r.humidity) else old

pub last_values : ℤ → Double × ℤ → List Message → Double × ℤ
last_values id old [] = old
last_values id old (m ∷ ms) = last_values id (newer id old (reading m)) ms

pub shown : Sensor → List Message → Sensor
unfolding last_values
shown s ms =
    let last = last_values s.id (s.temperature, s.humidity) ms in
    record s { temperature = last.0; humidity = last.1 }

shown-take_reading :
    (s : Sensor) (o : Option MandolynSensor) (ms : List Message)
    → shown (take_reading? o s) ms ≡ record s {
      temperature = (last_values s.id (newer s.id (s.temperature, s.humidity) o) ms).0;
      humidity = (last_values s.id (newer s.id (s.temperature, s.humidity) o) ms).1;
    }
unfolding shown
shown-take_reading s none ms = refl
shown-take_reading s (some r) ms = elim (Bool-cases (eq_ℤ s.id r.id)) [
  | inl e ↦ rw e
  | inr e ↦ rw e
]

follow-shown : (s : Sensor) (ms : List Message) → follow s ms ≡ shown s ms
unfolding follow shown last_values
follow-shown s [] = refl
follow-shown s (m ∷ ms) =
    follow-shown (take_reading? (reading m) s) ms ∙ shown-take_reading s (reading m) ms

-- Whoever asks for a sensor with a direct answer after any history is answered once: with the
-- identity and the name of the sensor, and the temperature and humidity of the last reading of its
-- id in the history, or the values that it had before if there is none. Readings of other ids and
-- other messages change nothing, and an unknown internal id is answered with a blank sensor.
pub sensor_reply :
    (s : SensorManager) (ms : List Message) (asked : Sensor) (a : Answerer)
    → (handle_message
        (run s ms)
        (asking_message read_with_direct_answer sensor (room_sensor asked) a)).1
      ≡ answers a (
          message answer sensor (
            room_sensor (elim (find (to_int asked.internal_id) s.cached) [
              | none ↦ blank_sensor
              | some known ↦ shown known ms
            ])))
        ∷ []
unfolding handle_message get_sensor id_eq cmd_eq
sensor_reply s ms asked a = elim (Option-cases (find (to_int asked.internal_id) s.cached)) [
  | inl e ↦ ground (arith, find-run (to_int asked.internal_id) s ms)
  | inr (known, e) ↦ ground (arith, find-run (to_int asked.internal_id) s ms, follow-shown known ms)
]

pub sensor_answer :
    (s : SensorManager) (asked : Sensor) (a : Answerer)
    → (handle_message s (asking_message read_with_direct_answer sensor (room_sensor asked) a)).1
      ≡ answers a (message answer sensor (room_sensor (get_sensor s (to_int asked.internal_id))))
        ∷ []
unfolding handle_message id_eq cmd_eq
sensor_answer s asked a = ground arith
