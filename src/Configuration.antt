-- ===== src/Configuration.antt =====
-- homecontrol/Configuration.cpp, as it is built on Linux, with the records of IGetConfiguration.h.
-- `none` as the result of a reader that may throw means that it throws.
mod Records
pub mod Lists
pub mod Sections
pub mod Document
use homecontrol_server.Common.{
  ℕ, ℤ, pos, eq_ℤ, to_int, to_unsigned, Bool, true, false, Text, codes, List, [], ◌∷◌, ◌++◌, Option,
  none, some, ◌>>=◌, if◌then◌else◌,
}
use homecontrol_server.Json.{JsonLib}
use homecontrol_server.Lights.{ConfigurationLights}
use homecontrol_server.Sensors.{TempHumidity}
use homecontrol_server.Schedule.{
  Schedule, ScheduleAction, lightswitch_off, lightswitch_on, unnamed_action, ScheduleManager,
}
use homecontrol_server.Oauth2.{ConfigToken}
use homecontrol_server.StringTools.{split_string}
use homecontrol_server.Tesla.Reader.{ConfigurationTeslaManager}
pub use homecontrol_server.Configuration.Records.{
  ConfigurationSonos, ConfigurationPhilipsHue, Configuration, no_token, no_sonos, no_tesla, no_hue,
  no_schedules, action_of_code, or_empty,
}

-- `while (getline(configfile, line)) config.append(line)`.
append_lines : Text → List Text → Text
append_lines config [] = config
append_lines config (line ∷ rest) = append_lines (config ++ line) rest

-- The content of the file, if it can be opened.
pub read_config_file : Option Text → Text
unfolding append_lines
read_config_file none = []
read_config_file (some content) = append_lines [] (split_string content b'\n')

module _ (j : JsonLib) where
  pub string_in : j.Json → Text → Option Text
  string_in v name = do f ← j.field v name; j.as_string f

  pub unsigned_in : j.Json → Text → Option ℕ
  unsigned_in v name = do f ← j.field v name; n ← j.as_integer f; some (to_unsigned n)

  pub get_config_section : Text → Text → Option j.Json
  get_config_section section content = do
    config ← j.parse content
    configuration ← j.field config (codes "Configuration")
    s ← j.field configuration section
    if j.is_null s then none else some s

  -- A section that is not null, as the readers test it once more.
  pub not_null : Option j.Json → Option j.Json
  not_null configuration = configuration >>= (λ v. if j.is_null v then none else some v)

  pub token_in : j.Json → Option ConfigToken
  unfolding string_in
  token_in v = do
    t ← j.field v (codes "configToken")
    access_token ← string_in t (codes "access_token")
    refresh_token ← string_in t (codes "refresh_token")
    token_type ← string_in t (codes "token_type")
    scope ← string_in t (codes "scope")
    some (record {
      access_token = access_token;
      refresh_token = refresh_token;
      token_type = token_type;
      scope = scope;
    })

  pub sonos_in : j.Json → Option ConfigurationSonos
  unfolding string_in token_in
  sonos_in v = do
    secret ← string_in v (codes "secret")
    key ← string_in v (codes "key")
    auth_url ← string_in v (codes "authUrl")
    token_url ← string_in v (codes "tokenUrl")
    scope ← string_in v (codes "scope")
    redirect_url ← string_in v (codes "redirectUrl")
    control_url ← string_in v (codes "controlUrl")
    t ← token_in v
    some (record {
      secret = secret;
      key = key;
      auth_url = auth_url;
      token_url = token_url;
      scope = scope;
      redirect_url = redirect_url;
      control_url = control_url;
      config_token = t;
    })

  pub read_sonos : Option j.Json → ConfigurationSonos
  unfolding not_null sonos_in
  read_sonos configuration = or_empty no_sonos (not_null configuration >>= sonos_in)

  pub tesla_in : j.Json → Option ConfigurationTeslaManager
  unfolding string_in unsigned_in token_in
  tesla_in v = do
    t ← token_in v
    control_url ← string_in v (codes "controlUrl")
    vehicle_id ← string_in v (codes "vehicleId")
    retry_wake_ups ← unsigned_in v (codes "retryWakeUps")
    retry_sleep ← unsigned_in v (codes "retrySleepInSeconds")
    fast_read_time ← unsigned_in v (codes "fastReadTimeInSeconds")
    very_slow_read_time ← unsigned_in v (codes "verySlowReadTimeInSeconds")
    max_slowing_rate ← unsigned_in v (codes "maxSlowingRateForVerySlowReads")
    some (record {
      config_token = t;
      control_url = control_url;
      vehicle_id = vehicle_id;
      retry_wake_ups = retry_wake_ups;
      retry_sleep_in_seconds = retry_sleep;
      fast_read_time_in_seconds = fast_read_time;
      very_slow_read_time_in_seconds = very_slow_read_time;
      max_slowing_rate_for_very_slow_reads = max_slowing_rate;
    })

  pub read_tesla : Option j.Json → ConfigurationTeslaManager
  unfolding not_null tesla_in
  read_tesla configuration = or_empty no_tesla (not_null configuration >>= tesla_in)

  -- A loop over an array: an element that throws ends it with the exception.
  pub read_each : {A : Type 0} → (j.Json → Option A) → List j.Json → Option (List A)
  read_each read [] = some []
  read_each read (v ∷ vs) = read v >>= (λ a. read_each read vs >>= (λ l. some (a ∷ l)))

  -- The member under a name, element by element; one that is no array counts as an empty one.
  pub read_array : {A : Type 0} → Text → (j.Json → Option A) → j.Json → Option (List A)
  unfolding read_each
  read_array name read v = do
    a ← j.field v name
    let all = j.as_array a >>= read_each read
    if j.is_array a then all else some []

  -- A missing section has no elements.
  pub read_optional_array :
      {A : Type 0} → Text → (j.Json → Option A) → Option j.Json → Option (List A)
  unfolding read_array
  read_optional_array name read none = some []
  read_optional_array name read (some v) = read_array name read v

  pub light_in : j.Json → Option ConfigurationLights
  unfolding string_in unsigned_in
  light_in v = do
    internal_id ← unsigned_in v (codes "InternalId")
    id ← unsigned_in v (codes "id")
    name ← string_in v (codes "name")
    some (record { internal_id = internal_id; id = id; name = name })

  pub read_configured_lights : Option j.Json → Option (List ConfigurationLights)
  unfolding read_optional_array light_in
  read_configured_lights = read_optional_array (codes "Lights") light_in

  pub hue_in : j.Json → Option ConfigurationPhilipsHue
  unfolding string_in read_configured_lights
  hue_in v = do
    ip ← string_in v (codes "ip")
    key ← string_in v (codes "key")
    lights ← read_configured_lights (some v)
    some (record { ip = ip; key = key; lights = lights })

  pub read_philips_hue : Option j.Json → ConfigurationPhilipsHue
  unfolding not_null hue_in
  read_philips_hue configuration = or_empty no_hue (not_null configuration >>= hue_in)

  pub read_telldus : Option j.Json → List ConfigurationLights
  unfolding read_configured_lights
  read_telldus configuration = or_empty [] (read_configured_lights configuration)

  pub id_in : j.Json → Option ℕ
  unfolding unsigned_in
  id_in v = unsigned_in v (codes "id")

  -- `*configuration` of an optional without a value has no defined behaviour: `none`.
  pub read_remote_manager : Option j.Json → Option (List ℕ)
  unfolding read_array id_in
  read_remote_manager none = none
  read_remote_manager (some v) = some (or_empty [] (read_array (codes "ForwardIds") id_in v))

  -- `m_Id` is an `int`, which an `unsigned int` is converted to.
  pub temp_humidity_in : j.Json → Option TempHumidity
  unfolding string_in unsigned_in
  temp_humidity_in v = do
    internal_id ← unsigned_in v (codes "InternalId")
    id ← unsigned_in v (codes "id")
    name ← string_in v (codes "name")
    some (record { internal_id = internal_id; id = to_int id; name = name })

  pub read_sensor_manager : Option j.Json → List TempHumidity
  unfolding not_null read_optional_array temp_humidity_in
  read_sensor_manager configuration =
      or_empty []
        (read_optional_array (codes "TempHumidity") temp_humidity_in (not_null configuration))

  internal_id_in : j.Json → Option ℕ
  unfolding unsigned_in
  internal_id_in v = unsigned_in v (codes "InternalId")

  pub schedule_in : j.Json → Option Schedule
  unfolding unsigned_in read_array internal_id_in
  schedule_in v = do
    start_hours ← unsigned_in v (codes "StartHour")
    start_minutes ← unsigned_in v (codes "StartMinute")
    f ← j.field v (codes "ScheduleAction")
    action ← j.as_integer f
    ids ← read_array (codes "InternalIds") internal_id_in v
    some (record {
      start_hours = start_hours;
      start_minutes = start_minutes;
      schedule_action = action_of_code action;
      internal_ids = ids;
      handled = false;
    })

  -- `configuration.value()["UTCOffset"].as_integer()`.
  pub utc_offset_in : Option j.Json → Option ℤ
  utc_offset_in configuration = do
    v ← configuration
    f ← j.field v (codes "UTCOffset")
    j.as_integer f

  pub read_schedule_manager : Option j.Json → ScheduleManager
  unfolding not_null read_optional_array schedule_in utc_offset_in
  read_schedule_manager configuration = or_empty no_schedules do
    schedules ← read_optional_array (codes "Schedules") schedule_in (not_null configuration)
    utc_offset ← utc_offset_in configuration
    some (record { schedules = schedules; utc_offset = utc_offset })

  -- The constructor of `ImplConfiguration`, on the content of the file; `none` as above.
  initialised : Text → List ℕ → Configuration
  unfolding get_config_section read_sonos read_philips_hue read_telldus read_sensor_manager
      read_schedule_manager read_tesla
  initialised content ids = record {
    sonos = read_sonos (get_config_section (codes "Sonos") content);
    philips_hue = read_philips_hue (get_config_section (codes "PhilipsHue") content);
    telldus = read_telldus (get_config_section (codes "Telldus") content);
    remote_manager = ids;
    sensor_manager = read_sensor_manager (get_config_section (codes "Sensors") content);
    schedule_manager = read_schedule_manager (get_config_section (codes "Scheduler") content);
    tesla_manager = read_tesla (get_config_section (codes "Tesla") content);
  }

  pub new_configuration : Text → Option Configuration
  unfolding read_remote_manager initialised
  new_configuration content = do
    ids ← read_remote_manager (get_config_section (codes "RemoteManager") content)
    some (initialised content ids)

  pub load_configuration : Option Text → Option Configuration
  unfolding new_configuration read_config_file
  load_configuration file = new_configuration (read_config_file file)
