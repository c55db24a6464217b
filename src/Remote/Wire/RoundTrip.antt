-- ===== src/Remote/Wire/RoundTrip.antt =====
-- A sensor's message over the wire.
use homecontrol_server.Common.{ℤ, ◌≡◌, refl, ◌∙◌, true, false, Text, codes, text_eq, some}
use homecontrol_server.Data.Meta.{
  id_eq, id_code, cmd_code, id_of_code, cmd_of_code, mandolyn_sensor, write,
}
use homecontrol_server.Data.Devices.{Double, MandolynSensor}
use homecontrol_server.Data.Message.{Message, message, mandolyn}
use homecontrol_server.Json.{JsonLib, JsonLaws, is_finite}
use homecontrol_server.Remote.Wire.{
  message_of_json, as_json, value_of, mandolyn_value, integer_in, integer_or, header, mandolyn_json,
}

module _ (j : JsonLib) (laws : JsonLaws j) where
  -- The member under a name that stands before others.
  under_one :
      (v : j.Json) (n k : Text) (x y : j.Json)
      → laws.is_object v ≡ true
      → text_eq n k ≡ false
      → j.field (j.with_field (j.with_field v k x) n y) k ≡ some x
  under_one v n k x y o d =
      laws.field-other (j.with_field v k x) n k y (laws.is_object-with_field v k x o) d
      ∙ laws.field-same v k x o

  under_two :
      (v : j.Json) (n m k : Text) (x y z : j.Json)
      → laws.is_object v ≡ true
      → text_eq n k ≡ false
      → text_eq m k ≡ false
      → j.field (j.with_field (j.with_field (j.with_field v k x) n y) m z) k ≡ some x
  under_two v n m k x y z o d e =
      laws.field-other (j.with_field (j.with_field v k x) n y) m k z
        (laws.is_object-with_field (j.with_field v k x) n y (laws.is_object-with_field v k x o)) e
      ∙ under_one v n k x y o d

  abbrev typed : j.Json
  typed =
      j.with_field j.null (codes "$type") (j.string (codes "Messanger.MandolynSensor, Messanger"))

  typed-is_object : laws.is_object typed ≡ true
  typed-is_object = laws.is_object-with_field j.null _ _ laws.is_object-null

  with_id-is_object : (n : ℤ) → laws.is_object (j.with_field typed (codes "Id") (j.number n)) ≡ true
  with_id-is_object n = laws.is_object-with_field typed _ _ typed-is_object

  mandolyn_value-mandolyn_json :
      (as_float : Double → Double) (s : MandolynSensor)
      → is_finite (as_float s.temp) ≡ true
      → mandolyn_value j (mandolyn_json j as_float s)
        ≡ some (mandolyn (record s { temp = as_float s.temp }))
  unfolding mandolyn_value mandolyn_json integer_in
  mandolyn_value-mandolyn_json as_float s f =
      let with_id = j.with_field typed (codes "Id") (j.number s.id) in
      let with_temp = j.with_field with_id (codes "Temp") (j.double_number (as_float s.temp)) in
      rw
        (under_two typed (codes "Temp") (codes "Humidity") (codes "Id") (j.number s.id)
          (j.double_number (as_float s.temp)) (j.number s.humidity) typed-is_object refl refl)
        (rw (laws.as_integer-number s.id) (
          rw
            (under_one with_id (codes "Humidity") (codes "Temp") (j.double_number (as_float s.temp))
              (j.number s.humidity) (with_id-is_object s.id) refl)
            (rw (laws.as_double-double_number (as_float s.temp) f) (
              rw
                (laws.field-same with_temp (codes "Humidity") (j.number s.humidity)
                  (laws.is_object-with_field with_id _ _ (with_id-is_object s.id)))
                (rw (laws.as_integer-number s.humidity) refl)))))

  abbrev reading : MandolynSensor → Message
  reading s = message write mandolyn_sensor (mandolyn s)

  wire_value : (Double → Double) → MandolynSensor → j.Json
  wire_value as_float s =
      j.with_field (header j (reading s)) (codes "Value") (mandolyn_json j as_float s)

  wire_value-has_text :
      (as_float : Double → Double) (s : MandolynSensor)
      → is_finite (as_float s.temp) ≡ true
      → laws.has_text (wire_value as_float s) ≡ true
  unfolding wire_value header mandolyn_json
  wire_value-has_text as_float s f =
      laws.has_text-with_field _ _ _
        (laws.has_text-with_field _ _ _
          (laws.has_text-with_field _ _ _ laws.has_text-null (laws.has_text-number _))
          (laws.has_text-number _))
        (laws.has_text-with_field _ _ _
          (laws.has_text-with_field _ _ _
            (laws.has_text-with_field _ _ _
              (laws.has_text-with_field _ _ _ laws.has_text-null (laws.has_text-string _))
              (laws.has_text-number _))
            (laws.has_text-double_number _ f))
          (laws.has_text-number _))

  read_wire_value :
      (as_float : Double → Double) (s : MandolynSensor)
      → is_finite (as_float s.temp) ≡ true
      → message_of_json j (j.serialize (wire_value as_float s))
        ≡ some (reading (record s { temp = as_float s.temp }))
  unfolding message_of_json wire_value integer_or header id_of_code cmd_of_code value_of id_eq
  read_wire_value as_float s f =
      let numbered = j.with_field j.null (codes "Command") (j.number (cmd_code write)) in
      let kind = j.number (id_code mandolyn_sensor) in
      rw (laws.parse-serialize (wire_value as_float s) (wire_value-has_text as_float s f)) (
        rw
          (under_two j.null (codes "CommandType") (codes "Value") (codes "Command")
            (j.number (cmd_code write)) kind (mandolyn_json j as_float s) laws.is_object-null refl
            refl)
          (rw (laws.is_integer-number (cmd_code write)) (
            rw (laws.as_integer-number (cmd_code write)) (
              rw
                (under_one numbered (codes "Value") (codes "CommandType") kind
                  (mandolyn_json j as_float s)
                  (laws.is_object-with_field j.null _ _ laws.is_object-null) refl)
                (rw (laws.is_integer-number (id_code mandolyn_sensor)) (
                  rw (laws.as_integer-number (id_code mandolyn_sensor)) (
                    rw
                      (laws.field-same (j.with_field numbered (codes "CommandType") kind)
                        (codes "Value") (mandolyn_json j as_float s)
                        (laws.is_object-with_field numbered _ _
                          (laws.is_object-with_field j.null _ _ laws.is_object-null)))
                      (rw (mandolyn_value-mandolyn_json as_float s f) refl))))))))

  -- The JSON form of a sensor's reading is read back as the same message, with the temperature
  -- rounded to a `float`, if this is finite.
  pub message_of_json-as_json :
      (as_float : Double → Double) (s : MandolynSensor)
      → is_finite (as_float s.temp) ≡ true
      → (text : Text) × (as_json j as_float (message write mandolyn_sensor (mandolyn s))
          ≡ some text)
        × (message_of_json j text
            ≡ some (message write mandolyn_sensor (mandolyn (record s { temp = as_float s.temp }))))
  unfolding as_json wire_value id_eq
  message_of_json-as_json as_float s f =
      (j.serialize (wire_value as_float s), refl, read_wire_value as_float s f)
