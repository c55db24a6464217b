-- ===== src/Configuration/Document/Entries.antt =====
-- The entries of a document are read back.
use homecontrol_server.Common.{
  ℕ, ℤ, pos, negsuc, to_int, to_unsigned, ◌^◌, ◌<◌, ◌≡◌, refl, false, Text, codes, List, [], ◌∷◌,
  if_true, some, arith, All,
}
use homecontrol_server.Common.Strings.{text_eq_refl}
use homecontrol_server.Json.{JsonLib, JsonLaws, ReadLaws}
use homecontrol_server.Json.Objects.{object, last_member, field-object}
use homecontrol_server.Lights.{ConfigurationLights}
use homecontrol_server.Sensors.{TempHumidity}
use homecontrol_server.Schedule.{Schedule}
use homecontrol_server.Oauth2.{ConfigToken}
use homecontrol_server.Tesla.Reader.{ConfigurationTeslaManager}
use homecontrol_server.Configuration.{
  Configuration, ConfigurationSonos, action_of_code, unsigned_in, light_in, temp_humidity_in,
  schedule_in, token_in, sonos_in, internal_id_in, read_array,
}
use homecontrol_server.Configuration.Document.{
  action_code, token_members, sonos_members, light_members, sensor_members, id_members, list_of,
  schedule_members,
}
use homecontrol_server.Configuration.Document.Members.{
  Holds, string_in-object, unsigned_in-object, unsigned_in-number, read_array-object,
}

-- What a document spells out: numbers that are an `int`, named or foreign actions, and schedules that
-- have not been handled.
abbrev pub IsSmall : ℕ → Type 0
IsSmall n = n < 2 ^ 31

abbrev pub LightSpelled : ConfigurationLights → Type 0
LightSpelled l = IsSmall l.internal_id × IsSmall l.id

abbrev pub IsInt : ℤ → Type 0
IsInt (pos n) = n < 2 ^ 31
IsInt (negsuc n) = n < 2 ^ 31

abbrev pub SensorSpelled : TempHumidity → Type 0
SensorSpelled s = IsSmall s.internal_id × IsInt s.id

abbrev pub ScheduleSpelled : Schedule → Type 0
ScheduleSpelled s =
    IsSmall s.start_hours
    × IsSmall s.start_minutes
    × (action_of_code (action_code s.schedule_action) ≡ s.schedule_action)
    × All IsSmall s.internal_ids
    × (s.handled ≡ false)

abbrev pub TeslaSpelled : ConfigurationTeslaManager → Type 0
TeslaSpelled t =
    IsSmall t.retry_wake_ups
    × IsSmall t.retry_sleep_in_seconds
    × IsSmall t.fast_read_time_in_seconds
    × IsSmall t.very_slow_read_time_in_seconds
    × IsSmall t.max_slowing_rate_for_very_slow_reads

pub record Spelled (c : Configuration) : Type 0 where
  pub hue_spelled : All LightSpelled c.philips_hue.lights
  pub telldus_spelled : All LightSpelled c.telldus
  pub remote_spelled : All IsSmall c.remote_manager
  pub sensors_spelled : All SensorSpelled c.sensor_manager
  pub schedules_spelled : All ScheduleSpelled c.schedule_manager.schedules
  pub tesla_spelled : TeslaSpelled c.tesla_manager

to_int-to_unsigned : (n : ℤ) → IsInt n → to_int (to_unsigned n) ≡ n
to_int-to_unsigned (pos n) h = ground arith
to_int-to_unsigned (negsuc n) h = ground arith

pub All-map {ℓ κ ι} :
    {A : Type ℓ} (P : A → Type κ) (Q : A → Type ι) (xs : List A)
    → ((x : A) → P x → Q x)
    → All P xs
    → All Q xs
All-map P Q [] f h = tt
All-map P Q (x ∷ xs) f h = (f x h.0, All-map P Q xs f h.1)

module _ (j : JsonLib) (laws : JsonLaws j) (reads : ReadLaws j) where
  pub light_in-members :
      (l : ConfigurationLights)
      → LightSpelled l
      → light_in j (object j (light_members j l)) ≡ some l
  unfolding light_in last_member
  light_in-members l h =
      let ms = light_members j l in
      rw (unsigned_in-object j laws reads ms (codes "InternalId") l.internal_id refl h.0) (
        rw (unsigned_in-object j laws reads ms (codes "id") l.id refl h.1)
          (rw (string_in-object j laws reads ms (codes "name") l.name refl) refl))

  pub sensor_in-members :
      (s : TempHumidity)
      → SensorSpelled s
      → temp_humidity_in j (object j (sensor_members j s)) ≡ some s
  unfolding temp_humidity_in last_member
  sensor_in-members s h =
      let ms = sensor_members j s in
      rw (unsigned_in-object j laws reads ms (codes "InternalId") s.internal_id refl h.0) (
        rw (unsigned_in-number j laws reads ms (codes "id") s.id refl) (
          rw (string_in-object j laws reads ms (codes "name") s.name refl)
            (rw (to_int-to_unsigned s.id h.1) refl)))

  pub id_in-members :
      (k : Text) (n : ℕ) → IsSmall n → unsigned_in j (object j (id_members j k n)) k ≡ some n
  unfolding last_member
  id_in-members k n h =
      unsigned_in-object j laws reads (id_members j k n) k n (if_true _ _ (text_eq_refl k)) h

  pub ids_in :
      (ms : List (Text × j.Json)) (k name : Text) (ids : List ℕ)
      → Holds j laws reads ms k (list_of j (id_members j name) ids)
      → All IsSmall ids
      → read_array j k (λ v. unsigned_in j v name) (object j ms) ≡ some ids
  ids_in ms k name ids h small =
      read_array-object j laws reads ms k (λ v. unsigned_in j v name) (id_members j name) ids h
        (All-map IsSmall _ ids (id_in-members name) small)

  pub schedule_in-members :
      (s : Schedule) → ScheduleSpelled s → schedule_in j (object j (schedule_members j s)) ≡ some s
  unfolding schedule_in internal_id_in last_member
  schedule_in-members s (hours, minutes, action, ids, fresh) =
      let ms = schedule_members j s in
      let code = action_code s.schedule_action in
      rw (unsigned_in-object j laws reads ms (codes "StartHour") s.start_hours refl hours) (
        rw (unsigned_in-object j laws reads ms (codes "StartMinute") s.start_minutes refl minutes) (
          rw (field-object j laws (codes "ScheduleAction") ms) (
            rw (laws.as_integer-number code) (
              rw (ids_in ms (codes "InternalIds") (codes "InternalId") s.internal_ids refl ids)
                (rw action (rw fresh refl))))))

  pub token_in-members :
      (v : j.Json) (t : ConfigToken)
      → j.field v (codes "configToken") ≡ some (object j (token_members j t))
      → token_in j v ≡ some t
  unfolding token_in last_member
  token_in-members v t h =
      let ms = token_members j t in
      rw h (
        rw (string_in-object j laws reads ms (codes "access_token") t.access_token refl) (
          rw (string_in-object j laws reads ms (codes "refresh_token") t.refresh_token refl) (
            rw (string_in-object j laws reads ms (codes "token_type") t.token_type refl)
              (rw (string_in-object j laws reads ms (codes "scope") t.scope refl) refl))))

  pub sonos_in-members :
      (s : ConfigurationSonos) → sonos_in j (object j (sonos_members j s)) ≡ some s
  unfolding sonos_in last_member
  sonos_in-members s =
      let ms = sonos_members j s in
      rw (string_in-object j laws reads ms (codes "secret") s.secret refl) (
        rw (string_in-object j laws reads ms (codes "key") s.key refl) (
          rw (string_in-object j laws reads ms (codes "authUrl") s.auth_url refl) (
            rw (string_in-object j laws reads ms (codes "tokenUrl") s.token_url refl) (
              rw (string_in-object j laws reads ms (codes "scope") s.scope refl) (
                rw (string_in-object j laws reads ms (codes "redirectUrl") s.redirect_url refl) (
                  rw (string_in-object j laws reads ms (codes "controlUrl") s.control_url refl) (
                    rw
                      (token_in-members (object j ms) s.config_token
                        (field-object j laws (codes "configToken") ms))
                      refl)))))))
