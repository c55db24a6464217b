-- ===== src/Rest/Selection.antt =====
-- Which command of a query counts.
use homecontrol_server.Common.{
  ℕ, ◌≡◌, refl, true, false, Text, codes, text_eq, List, [], ◌∷◌, Option, none, some, Bool,
  Bool-cases, inl, inr, if◌then◌else◌,
}
use homecontrol_server.Common.OrdMap.{find, assign, text_key}
use homecontrol_server.Data.Message.{Message}
use homecontrol_server.Json.{JsonLib}
use homecontrol_server.Rest.{
  Callback, all_sensors, one_sensor, all_lights, one_light, switch_light, device_present,
  presence_of_someone, vehicle_state, Command, read_sensor, add_all, add_command,
  generate_command_list, Outcome, nothing, call, call_first, parse_get_request, message_of_first,
  parse_get_request_and_generate_message,
}

-- What a command with its value means.
unfoldable pub meaning : Text → Text → Option Callback
meaning command value =
    if text_eq (codes "light") command
    then some (if text_eq (codes "all") value then all_lights else one_light)
    else if text_eq (codes "presence") command
    then some presence_of_someone
    else if text_eq (codes "sensor") command
    then some (if text_eq (codes "all") value then all_sensors else one_sensor)
    else if text_eq (codes "setBTDevNotPresent") command
    then some (device_present false)
    else if text_eq (codes "setBTDevPresent") command
    then some (device_present true)
    else if text_eq (codes "setLightOff") command
    then some (switch_light false)
    else if text_eq (codes "setLightOn") command
    then some (switch_light true)
    else if text_eq (codes "vehicleInformation") command
    then some vehicle_state
    else none

-- The first entry of a query whose command means something.
abbrev pub first_meaning : List (Text × Text) → Option (Callback × Text)
first_meaning [] = none
first_meaning ((command, value) ∷ values) =
    let rest = first_meaning values in
    elim (meaning command value) [ none ↦ rest | some f ↦ some (f, value) ]

same_value : {A : Type 0} (b : Bool) (x : A) → (if b then x else x) ≡ x
same_value true x = refl
same_value false x = refl

abbrev entry : Text → Text → Callback → Command
entry command value f = record {
  command = command;
  value = value;
  callback = f;
  message_to_request = read_sensor;
}

-- The loops over the list of a command, on the two kinds of lists in the table.
module _ {C : Type 0} (first : List Command → Text → Option C) (chosen : Callback → Text → C) where
  abbrev pub from_list : Text → Option (List Command) → Option C
  from_list value none = none
  from_list value (some list) = first list value

  abbrev pub from_meaning : Text → Option Callback → Option C
  from_meaning value none = none
  from_meaning value (some f) = some (chosen f value)

  module _ {R : Type 0} (result : C → R) (value : Text) (rest end_of : R) where
    -- The outcome for the first meaning of a query.
    abbrev pub of_first : Option (Callback × Text) → R
    of_first none = end_of
    of_first (some (f, v)) = result (chosen f v)

    -- One round of a loop over a query.
    settle :
        (found : Option (List Command)) (m : Option Callback) (o : Option (Callback × Text))
        → from_list value found ≡ from_meaning value m
        → rest ≡ of_first o
        → elim found as (λ x. R) [
          | none ↦ rest
          | some list ↦ elim (first list value) as (λ x. R) [ none ↦ rest | some c ↦ result c ]
        ]
          ≡ of_first
              (elim m as (λ x. Option (Callback × Text)) [ none ↦ o | some f ↦ some (f, value) ])
    settle none none o e h = h
    settle none (some f) o e h = cc
    settle (some list) none o e h = rw e h
    settle (some list) (some f) o e h = rw e refl

  module _
      (star : (c value : Text) (f : Callback)
        → first (entry c (codes "*") f ∷ []) value ≡ some (chosen f value))
      (all : (c value : Text) (f g : Callback)
        → first (entry c (codes "all") f ∷ entry c (codes "*") g ∷ []) value
          ≡ some (chosen (if text_eq (codes "all") value then f else g) value)) where
    one_step :
        (command value : Text)
        → from_list value (find command generate_command_list)
          ≡ from_meaning value (meaning command value)
    unfolding generate_command_list add_all add_command find assign meaning
    one_step command value = (elim (Bool-cases (text_eq (codes "light") command)) [
      | inl e ↦ rw e (all (codes "light") value all_lights one_light)
      | inr e ↦ rw e (elim (Bool-cases (text_eq (codes "presence") command)) [
        | inl e ↦ rw e (star (codes "presence") value presence_of_someone)
        | inr e ↦ rw e (elim (Bool-cases (text_eq (codes "sensor") command)) [
          | inl e ↦ rw e (all (codes "sensor") value all_sensors one_sensor)
          | inr e ↦ rw e (elim (Bool-cases (text_eq (codes "setBTDevNotPresent") command)) [
            | inl e ↦ rw e (star (codes "setBTDevNotPresent") value (device_present false))
            | inr e ↦ rw e (elim (Bool-cases (text_eq (codes "setBTDevPresent") command)) [
              | inl e ↦ rw e (star (codes "setBTDevPresent") value (device_present true))
              | inr e ↦ rw e (elim (Bool-cases (text_eq (codes "setLightOff") command)) [
                | inl e ↦ rw e (star (codes "setLightOff") value (switch_light false))
                | inr e ↦ rw e (elim (Bool-cases (text_eq (codes "setLightOn") command)) [
                  | inl e ↦ rw e (star (codes "setLightOn") value (switch_light true))
                  | inr e ↦ rw e (elim (Bool-cases (text_eq (codes "vehicleInformation") command)) [
                    | inl e ↦ rw e (star (codes "vehicleInformation") value vehicle_state)
                    | inr e ↦ rw e refl
                  ])
                ])
              ])
            ])
          ])
        ])
      ])
    ])

module _ (j : JsonLib) (n : ℕ) (answered : List Message) where
  call_first-star :
      (c value : Text) (f : Callback)
      → call_first j n answered (entry c (codes "*") f ∷ []) value
        ≡ some (call j n answered f value)
  unfolding call_first
  call_first-star c value f = same_value (text_eq (codes "*") value) _

  call_first-all :
      (c value : Text) (f g : Callback)
      → call_first j n answered (entry c (codes "all") f ∷ entry c (codes "*") g ∷ []) value
        ≡ some (call j n answered (if text_eq (codes "all") value then f else g) value)
  unfolding call_first
  call_first-all c value f g = elim (Bool-cases (text_eq (codes "all") value)) [
    | inl e ↦ rw e refl
    | inr e ↦ rw e (same_value (text_eq (codes "*") value) _)
  ]

  -- A query is answered by the first of its entries, in the order of the map, whose command means
  -- something, whatever its value is; without one there is no answer.
  pub parse_get_request_lem :
      (values : List (Text × Text))
      → parse_get_request j n answered generate_command_list values
        ≡ elim (first_meaning values) as (λ x. Outcome j.Json) [
          | none ↦ nothing
          | some (f, value) ↦ call j n answered f value
        ]
  unfolding parse_get_request
  parse_get_request_lem [] = refl
  parse_get_request_lem ((command, value) ∷ values) =
      settle (call_first j n answered) (call j n answered) (λ c. c) value
        (parse_get_request j n answered generate_command_list values) nothing
        (find command generate_command_list) (meaning command value) (first_meaning values)
        (one_step (call_first j n answered) (call j n answered) call_first-star call_first-all
          command value)
        (parse_get_request_lem values)

message_of_first-star :
    (c value : Text) (f : Callback)
    → message_of_first (entry c (codes "*") f ∷ []) value ≡ some read_sensor
unfolding message_of_first
message_of_first-star c value f = same_value (text_eq (codes "*") value) _

message_of_first-all :
    (c value : Text) (f g : Callback)
    → message_of_first (entry c (codes "all") f ∷ entry c (codes "*") g ∷ []) value
      ≡ some read_sensor
unfolding message_of_first
message_of_first-all c value f g = elim (Bool-cases (text_eq (codes "all") value)) [
  | inl e ↦ rw e refl
  | inr e ↦ rw e (same_value (text_eq (codes "*") value) _)
]

-- The same entries give a message: it is the question for a sensor, whatever they ask for.
pub generate_message_lem :
    (values : List (Text × Text))
    → parse_get_request_and_generate_message generate_command_list values
      ≡ elim (first_meaning values) as (λ x. Option Message) [
        | none ↦ none
        | some e ↦ some read_sensor
      ]
unfolding parse_get_request_and_generate_message
generate_message_lem [] = refl
generate_message_lem ((command, value) ∷ values) =
    settle message_of_first (λ f v. read_sensor) some value
      (parse_get_request_and_generate_message generate_command_list values) none
      (find command generate_command_list) (meaning command value) (first_meaning values)
      (one_step message_of_first (λ f v. read_sensor) message_of_first-star message_of_first-all
        command value)
      (generate_message_lem values)
