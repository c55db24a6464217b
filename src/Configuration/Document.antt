-- ===== src/Configuration/Document.antt =====
-- The layout of a configuration file: the document that spells a configuration out.
pub mod Members
pub mod Entries
pub mod RoundTrip
use homecontrol_server.Common.{ℕ, ℤ, pos, to_int, Text, codes, List, [], ◌∷◌, map}
use homecontrol_server.Json.{JsonLib}
use homecontrol_server.Json.Objects.{object}
use homecontrol_server.Lights.{ConfigurationLights}
use homecontrol_server.Sensors.{TempHumidity}
use homecontrol_server.Schedule.{
  Schedule, ScheduleAction, lightswitch_off, lightswitch_on, unnamed_action, ScheduleManager,
}
use homecontrol_server.Oauth2.{ConfigToken}
use homecontrol_server.Tesla.Reader.{ConfigurationTeslaManager}
use homecontrol_server.Configuration.{Configuration, ConfigurationSonos, ConfigurationPhilipsHue}

abbrev pub action_code : ScheduleAction → ℤ
action_code lightswitch_off = pos 0
action_code lightswitch_on = pos 1
action_code (unnamed_action n) = n

module _ (j : JsonLib) where
  abbrev number_of : ℕ → j.Json
  number_of n = j.number (pos n)

  abbrev pub token_members : ConfigToken → List (Text × j.Json)
  token_members t =
      (codes "access_token", j.string t.access_token)
      ∷ (codes "refresh_token", j.string t.refresh_token)
      ∷ (codes "token_type", j.string t.token_type)
      ∷ (codes "scope", j.string t.scope)
      ∷ []

  abbrev pub sonos_members : ConfigurationSonos → List (Text × j.Json)
  sonos_members s =
      (codes "secret", j.string s.secret)
      ∷ (codes "key", j.string s.key)
      ∷ (codes "authUrl", j.string s.auth_url)
      ∷ (codes "tokenUrl", j.string s.token_url)
      ∷ (codes "scope", j.string s.scope)
      ∷ (codes "redirectUrl", j.string s.redirect_url)
      ∷ (codes "controlUrl", j.string s.control_url)
      ∷ (codes "configToken", object j (token_members s.config_token))
      ∷ []

  abbrev pub tesla_members : ConfigurationTeslaManager → List (Text × j.Json)
  tesla_members t =
      (codes "configToken", object j (token_members t.config_token))
      ∷ (codes "controlUrl", j.string t.control_url)
      ∷ (codes "vehicleId", j.string t.vehicle_id)
      ∷ (codes "retryWakeUps", number_of t.retry_wake_ups)
      ∷ (codes "retrySleepInSeconds", number_of t.retry_sleep_in_seconds)
      ∷ (codes "fastReadTimeInSeconds", number_of t.fast_read_time_in_seconds)
      ∷ (codes "verySlowReadTimeInSeconds", number_of t.very_slow_read_time_in_seconds)
      ∷ (codes "maxSlowingRateForVerySlowReads", number_of t.max_slowing_rate_for_very_slow_reads)
      ∷ []

  abbrev pub light_members : ConfigurationLights → List (Text × j.Json)
  light_members l =
      (codes "InternalId", number_of l.internal_id)
      ∷ (codes "id", number_of l.id)
      ∷ (codes "name", j.string l.name)
      ∷ []

  abbrev pub sensor_members : TempHumidity → List (Text × j.Json)
  sensor_members s =
      (codes "InternalId", number_of s.internal_id)
      ∷ (codes "id", j.number s.id)
      ∷ (codes "name", j.string s.name)
      ∷ []

  abbrev pub id_members : Text → ℕ → List (Text × j.Json)
  id_members name n = (name, number_of n) ∷ []

  abbrev pub list_of : {A : Type 0} → (A → List (Text × j.Json)) → List A → j.Json
  list_of members xs = j.array (map (λ a. object j (members a)) xs)

  abbrev pub lights_member : List ConfigurationLights → Text × j.Json
  lights_member ls = (codes "Lights", list_of light_members ls)

  abbrev pub hue_members : ConfigurationPhilipsHue → List (Text × j.Json)
  hue_members h =
      (codes "ip", j.string h.ip) ∷ (codes "key", j.string h.key) ∷ lights_member h.lights ∷ []

  abbrev pub telldus_members : List ConfigurationLights → List (Text × j.Json)
  telldus_members ls = lights_member ls ∷ []

  abbrev pub remote_members : List ℕ → List (Text × j.Json)
  remote_members ids = (codes "ForwardIds", list_of (id_members (codes "id")) ids) ∷ []

  abbrev pub sensors_members : List TempHumidity → List (Text × j.Json)
  sensors_members ss = (codes "TempHumidity", list_of sensor_members ss) ∷ []

  abbrev pub schedule_members : Schedule → List (Text × j.Json)
  schedule_members s =
      (codes "StartHour", number_of s.start_hours)
      ∷ (codes "StartMinute", number_of s.start_minutes)
      ∷ (codes "ScheduleAction", j.number (action_code s.schedule_action))
      ∷ (codes "InternalIds", list_of (id_members (codes "InternalId")) s.internal_ids)
      ∷ []

  abbrev pub scheduler_members : ScheduleManager → List (Text × j.Json)
  scheduler_members m =
      (codes "Schedules", list_of schedule_members m.schedules)
      ∷ (codes "UTCOffset", j.number m.utc_offset)
      ∷ []

  abbrev pub sections : Configuration → List (Text × j.Json)
  sections c =
      (codes "Sonos", object j (sonos_members c.sonos))
      ∷ (codes "PhilipsHue", object j (hue_members c.philips_hue))
      ∷ (codes "Telldus", object j (telldus_members c.telldus))
      ∷ (codes "RemoteManager", object j (remote_members c.remote_manager))
      ∷ (codes "Sensors", object j (sensors_members c.sensor_manager))
      ∷ (codes "Scheduler", object j (scheduler_members c.schedule_manager))
      ∷ (codes "Tesla", object j (tesla_members c.tesla_manager))
      ∷ []

  pub document : Configuration → j.Json
  document c = object j ((codes "Configuration", object j (sections c)) ∷ [])
