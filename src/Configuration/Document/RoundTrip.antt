-- ===== src/Configuration/Document/RoundTrip.antt =====
-- A configuration is read back from its document.
use homecontrol_server.Common.{ℕ, ◌≡◌, refl, ap, ◌∙◌, false, Text, codes, List, [], ◌∷◌, some, All}
use homecontrol_server.Json.{JsonLib, JsonLaws, ReadLaws}
use homecontrol_server.Json.Objects.{object, last_member, field-object, set_all}
use homecontrol_server.Lights.{ConfigurationLights}
use homecontrol_server.Sensors.{TempHumidity}
use homecontrol_server.Schedule.{ScheduleManager}
use homecontrol_server.Tesla.Reader.{ConfigurationTeslaManager}
use homecontrol_server.Configuration.{
  Configuration, ConfigurationSonos, ConfigurationPhilipsHue, light_in, temp_humidity_in,
  schedule_in, tesla_in, hue_in, read_configured_lights, read_optional_array, id_in, not_null,
  read_sonos, read_tesla, read_philips_hue, read_telldus, read_remote_manager, read_sensor_manager,
  read_schedule_manager, utc_offset_in, initialised, new_configuration, get_config_section,
}
use homecontrol_server.Configuration.Document.{
  sonos_members, tesla_members, light_members, sensor_members, list_of, hue_members,
  telldus_members, remote_members, sensors_members, schedule_members, scheduler_members, sections,
  document,
}
use homecontrol_server.Configuration.Document.Members.{
  string_in-object, unsigned_in-object, read_array-object, Holds,
}
use homecontrol_server.Configuration.Document.Entries.{
  IsSmall, LightSpelled, SensorSpelled, ScheduleSpelled, TeslaSpelled, Spelled, All-map,
  light_in-members, sensor_in-members, schedule_in-members, token_in-members, sonos_in-members,
  ids_in,
}

module _ (j : JsonLib) (laws : JsonLaws j) (reads : ReadLaws j) where
  tesla_in-members :
      (t : ConfigurationTeslaManager)
      → TeslaSpelled t
      → tesla_in j (object j (tesla_members j t)) ≡ some t
  unfolding tesla_in last_member
  tesla_in-members t (a, b, c, d, e) =
      let ms = tesla_members j t in
      let number = unsigned_in-object j laws reads ms in
      rw
        (token_in-members j laws reads (object j ms) t.config_token
          (field-object j laws (codes "configToken") ms))
        (rw (string_in-object j laws reads ms (codes "controlUrl") t.control_url refl) (
          rw (string_in-object j laws reads ms (codes "vehicleId") t.vehicle_id refl) (
            rw (number (codes "retryWakeUps") t.retry_wake_ups refl a) (
              rw (number (codes "retrySleepInSeconds") t.retry_sleep_in_seconds refl b) (
                rw (number (codes "fastReadTimeInSeconds") t.fast_read_time_in_seconds refl c) (
                  rw
                    (number (codes "verySlowReadTimeInSeconds") t.very_slow_read_time_in_seconds
                      refl d)
                    (rw
                      (number (codes "maxSlowingRateForVerySlowReads")
                        t.max_slowing_rate_for_very_slow_reads refl e)
                      refl)))))))

  -- An object with a member is not null.
  is_null-set_all :
      (v : j.Json) (n : Text) (x : j.Json) (ms : List (Text × j.Json))
      → j.is_null (set_all j v ((n, x) ∷ ms)) ≡ false
  unfolding set_all
  is_null-set_all v n x [] = reads.is_null-with_field v n x
  is_null-set_all v n x ((k, y) ∷ ms) = is_null-set_all (j.with_field v n x) k y ms

  not_null-object :
      (n : Text) (x : j.Json) (ms : List (Text × j.Json))
      → not_null j (some (object j ((n, x) ∷ ms))) ≡ some (object j ((n, x) ∷ ms))
  unfolding not_null
  not_null-object n x ms = rw (is_null-set_all j.null n x ms) refl

  lights_read :
      (ms : List (Text × j.Json)) (ls : List ConfigurationLights)
      → Holds j laws reads ms (codes "Lights") (list_of j (light_members j) ls)
      → All LightSpelled ls
      → read_configured_lights j (some (object j ms)) ≡ some ls
  unfolding read_configured_lights read_optional_array
  lights_read ms ls h spelled =
      read_array-object j laws reads ms (codes "Lights") (light_in j) (light_members j) ls h
        (All-map LightSpelled _ ls (light_in-members j laws reads) spelled)

  hue_in-members :
      (h : ConfigurationPhilipsHue)
      → All LightSpelled h.lights
      → hue_in j (object j (hue_members j h)) ≡ some h
  unfolding hue_in last_member
  hue_in-members h spelled =
      let ms = hue_members j h in
      rw (string_in-object j laws reads ms (codes "ip") h.ip refl) (
        rw (string_in-object j laws reads ms (codes "key") h.key refl)
          (rw (lights_read ms h.lights refl spelled) refl))

  -- The sections.
  read_sonos-members :
      (s : ConfigurationSonos) → read_sonos j (some (object j (sonos_members j s))) ≡ s
  unfolding read_sonos
  read_sonos-members s = rw (not_null-object _ _ _) (rw (sonos_in-members j laws reads s) refl)

  read_tesla-members :
      (t : ConfigurationTeslaManager)
      → TeslaSpelled t
      → read_tesla j (some (object j (tesla_members j t))) ≡ t
  unfolding read_tesla
  read_tesla-members t h = rw (not_null-object _ _ _) (rw (tesla_in-members t h) refl)

  read_philips_hue-members :
      (c : ConfigurationPhilipsHue)
      → All LightSpelled c.lights
      → read_philips_hue j (some (object j (hue_members j c))) ≡ c
  unfolding read_philips_hue
  read_philips_hue-members c h = rw (not_null-object _ _ _) (rw (hue_in-members c h) refl)

  read_telldus-members :
      (ls : List ConfigurationLights)
      → All LightSpelled ls
      → read_telldus j (some (object j (telldus_members j ls))) ≡ ls
  unfolding read_telldus last_member
  read_telldus-members ls h = rw (lights_read (telldus_members j ls) ls refl h) refl

  read_remote_manager-members :
      (ids : List ℕ)
      → All IsSmall ids
      → read_remote_manager j (some (object j (remote_members j ids))) ≡ some ids
  unfolding read_remote_manager id_in last_member
  read_remote_manager-members ids h =
      rw (ids_in j laws reads (remote_members j ids) (codes "ForwardIds") (codes "id") ids refl h)
        refl

  read_sensor_manager-members :
      (ss : List TempHumidity)
      → All SensorSpelled ss
      → read_sensor_manager j (some (object j (sensors_members j ss))) ≡ ss
  unfolding read_sensor_manager read_optional_array last_member
  read_sensor_manager-members ss h =
      let ms = sensors_members j ss in
      rw (not_null-object _ _ _) (
        rw
          (read_array-object j laws reads ms (codes "TempHumidity") (temp_humidity_in j)
            (sensor_members j) ss refl
            (All-map SensorSpelled _ ss (sensor_in-members j laws reads) h))
          refl)

  read_schedule_manager-members :
      (m : ScheduleManager)
      → All ScheduleSpelled m.schedules
      → read_schedule_manager j (some (object j (scheduler_members j m))) ≡ m
  unfolding read_schedule_manager read_optional_array utc_offset_in last_member
  read_schedule_manager-members m h =
      let ms = scheduler_members j m in
      rw (not_null-object _ _ _) (
        rw
          (read_array-object j laws reads ms (codes "Schedules") (schedule_in j)
            (schedule_members j) m.schedules refl
            (All-map ScheduleSpelled _ m.schedules (schedule_in-members j laws reads) h))
          (rw (field-object j laws (codes "UTCOffset") ms)
            (rw (laws.as_integer-number m.utc_offset) refl)))

  module _ (c : Configuration) (content : Text)
      (parsed : j.parse content ≡ some (document j c)) where
    section_read :
        (name n : Text) (x : j.Json) (ms : List (Text × j.Json))
        → Holds j laws reads (sections j c) name (object j ((n, x) ∷ ms))
        → get_config_section j name content ≡ some (object j ((n, x) ∷ ms))
    unfolding get_config_section document last_member
    section_read name n x ms h = rw parsed (
        rw
          (field-object j laws (codes "Configuration")
            ((codes "Configuration", object j (sections j c)) ∷ []))
          (rw (field-object j laws name (sections j c))
            (rw h (rw (is_null-set_all j.null n x ms) refl))))

    initialised-document : Spelled c → initialised j content c.remote_manager ≡ c
    unfolding initialised last_member
    initialised-document s =
        rw
          (ap (read_sonos j) (section_read (codes "Sonos") _ _ _ refl) ∙ read_sonos-members c.sonos)
          (rw
            (ap (read_philips_hue j) (section_read (codes "PhilipsHue") _ _ _ refl)
              ∙ read_philips_hue-members c.philips_hue s.hue_spelled)
            (rw
              (ap (read_telldus j) (section_read (codes "Telldus") _ _ _ refl)
                ∙ read_telldus-members c.telldus s.telldus_spelled)
              (rw
                (ap (read_sensor_manager j) (section_read (codes "Sensors") _ _ _ refl)
                  ∙ read_sensor_manager-members c.sensor_manager s.sensors_spelled)
                (rw
                  (ap (read_schedule_manager j) (section_read (codes "Scheduler") _ _ _ refl)
                    ∙ read_schedule_manager-members c.schedule_manager s.schedules_spelled)
                  (rw
                    (ap (read_tesla j) (section_read (codes "Tesla") _ _ _ refl)
                      ∙ read_tesla-members c.tesla_manager s.tesla_spelled)
                    refl)))))

    -- A configuration is read back from every text that the library parses as its document, if its
    -- numbers are in the range of `int`, its actions are as the cast gives them, and no schedule of it
    -- has been handled.
    pub new_configuration-document : Spelled c → new_configuration j content ≡ some c
    unfolding new_configuration last_member
    new_configuration-document s =
        rw
          (ap (read_remote_manager j) (section_read (codes "RemoteManager") _ _ _ refl)
            ∙ read_remote_manager-members c.remote_manager s.remote_spelled)
          (ap some (initialised-document s))
