-- ===== src/Telldus.antt =====
-- homecontrol/TelldusCommandLineManager.cpp: reads the sensors from the output of `tdtool` and
-- switches lamps by it. The conversion of a text to a `double` is an argument.
pub mod Reading
pub mod Poll
use homecontrol_server.Common.{
  ℕ, ◌+◌, ℤ, pos, eq_ℤ, Bool, true, false, ◌||◌, Text, codes, List, [], ◌∷◌, ◌++◌, Option, none,
  some, ◌==◌, ◌&&◌, if◌then◌else◌, length, drop,
}
use homecontrol_server.Subscription.{SubscriptionData}
use homecontrol_server.Subscription
use homecontrol_server.Data.Meta.{
  cmd_eq, id_eq, write, read, answer, light_state, command_line, mandolyn_sensor,
}
use homecontrol_server.Data.Devices.{Double, MandolynSensor}
use homecontrol_server.Data.Message.{Message, Effect, send, message, string, mandolyn, as_lines}
use homecontrol_server.StringTools.{is_digit, span_digits, string_to_int, find}
use homecontrol_server.Lights.{Light}
use homecontrol_server.Lights.Telldus.{handle_light, command_line_control}

unfoldable pub filter_ids : ℤ → Bool
filter_ids n = eq_ℤ n (pos 11) || eq_ℤ n (pos 12) || eq_ℤ n (pos 21) || eq_ℤ n (pos 24)

-- `regex_search` for `[0-9]+` starts at the first digit.
pub skip_to_digit : Text → Text
skip_to_digit [] = []
skip_to_digit (c ∷ s) = let rest = skip_to_digit s in if is_digit c then c ∷ s else rest

abbrev int_match : Text × Text → Option (ℤ × Text)
int_match ([], rest) = none
int_match (c ∷ ds, rest) = some (string_to_int (c ∷ ds), rest)

-- `readInt`: the first number, and what stands behind it.
pub read_int : Text → Option (ℤ × Text)
unfolding skip_to_digit span_digits
read_int s = int_match (span_digits (skip_to_digit s))

-- The optional group `(\.[0-9]+)?` behind the digits `ds`.
abbrev with_fraction : Text → Text → Text × Text → Text × Text
with_fraction ds after ([], rest) = (ds, after)
with_fraction ds after (c ∷ fs, rest) = (ds ++ b'.' ∷ c ∷ fs, rest)

fraction : Text → Text → Text × Text
unfolding span_digits
fraction ds [] = (ds, [])
fraction ds (c ∷ s) = if c == b'.' then with_fraction ds (c ∷ s) (span_digits s) else (ds, c ∷ s)

module _ (to_double : Text → Double) where
  abbrev double_match : Text × Text → Option (Double × Text)
  double_match ([], rest) = none
  double_match (c ∷ ds, rest) =
      let (number, behind) = fraction (c ∷ ds) rest in some (to_double number, behind)

  pub read_double : Text → Option (Double × Text)
  unfolding skip_to_digit span_digits fraction
  read_double s = double_match (span_digits (skip_to_digit s))

  pub read_sensor_data : Text → Option (ℤ × Double × ℤ)
  unfolding read_int read_double filter_ids
  read_sensor_data line = elim (read_int line) [
    | none ↦ none
    | some (id, behind) ↦
        if filter_ids id
        then elim (read_double behind) [
          | none ↦ none
          | some (temp, behind') ↦ elim (read_int behind') [
            | none ↦ none
            | some (humi, _) ↦ some (id, temp, humi)
          ]
        ]
        else none
  ]

  -- `regex_search` for the word, which has no special characters.
  pub parse_line : Text → Option (ℤ × Double × ℤ)
  unfolding read_sensor_data find
  parse_line line = elim (find line (codes "temperaturehumidity") 0) [
    | none ↦ none
    | some i ↦ read_sensor_data (drop (i + length (codes "temperaturehumidity")) line)
  ]

  abbrev pub reading_of : Option (ℤ × Double × ℤ) → List Effect
  reading_of none = []
  reading_of (some (id, temp, humidity)) =
      send (
        message write mandolyn_sensor
          (mandolyn (record { id = id; temp = temp; humidity = humidity })))
      ∷ []

  unfoldable pub send_readings : List Text → List Effect
  unfolding parse_line
  send_readings [] = []
  send_readings (line ∷ ls) = reading_of (parse_line line) ++ send_readings ls

  pub handle_message : List Light → Message → List Light × List Effect
  unfolding send_readings
  handle_message lamps m =
      if id_eq m.id command_line && cmd_eq m.cmd answer
      then elim (as_lines m.value) [ none ↦ (lamps, []) | some ls ↦ (lamps, send_readings ls) ]
      else if id_eq m.id light_state
      then handle_light command_line_control lamps m
      else (lamps, [])

-- `Callback`, every five minutes.
pub callback : List Effect
callback = send (message read command_line (string (codes "tdtool --list"))) ∷ []

-- The subscriptions of the constructor.
unfoldable pub subscriptions : ℕ → List SubscriptionData → List SubscriptionData
subscriptions me subscribers =
    Subscription.subscribe
      (Subscription.subscribe subscribers (record { id = command_line; runtime = me }))
      (record { id = light_state; runtime = me })
