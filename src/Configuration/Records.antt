-- ===== src/Configuration/Records.antt =====
-- The configurations of the managers of IGetConfiguration.h, and the empty ones of Configuration.cpp.
use homecontrol_server.Common.{ℕ, ℤ, pos, eq_ℤ, Text, List, [], Option, none, some, if◌then◌else◌}
use homecontrol_server.Lights.{ConfigurationLights}
use homecontrol_server.Sensors.{TempHumidity}
use homecontrol_server.Schedule.{
  ScheduleAction, lightswitch_off, lightswitch_on, unnamed_action, ScheduleManager,
}
use homecontrol_server.Oauth2.{ConfigToken}
use homecontrol_server.Tesla.Reader.{ConfigurationTeslaManager}

pub record ConfigurationSonos : Type 0 where
  pub secret : Text
  pub key : Text
  pub auth_url : Text
  pub token_url : Text
  pub scope : Text
  pub redirect_url : Text
  pub control_url : Text
  pub config_token : ConfigToken

pub record ConfigurationPhilipsHue : Type 0 where
  pub ip : Text
  pub key : Text
  pub lights : List ConfigurationLights

-- `ImplConfiguration`. The manager of the schedules starts with the configured ones.
pub record Configuration : Type 0 where
  pub sonos : ConfigurationSonos
  pub philips_hue : ConfigurationPhilipsHue
  pub telldus : List ConfigurationLights
  pub remote_manager : List ℕ
  pub sensor_manager : List TempHumidity
  pub schedule_manager : ScheduleManager
  pub tesla_manager : ConfigurationTeslaManager

abbrev pub no_token : ConfigToken
no_token = record { access_token = []; refresh_token = []; token_type = []; scope = [] }

-- The empty configurations that the readers proceed with.
abbrev pub no_sonos : ConfigurationSonos
no_sonos = record {
  secret = [];
  key = [];
  auth_url = [];
  token_url = [];
  scope = [];
  redirect_url = [];
  control_url = [];
  config_token = no_token;
}

abbrev pub no_tesla : ConfigurationTeslaManager
no_tesla = record {
  config_token = no_token;
  control_url = [];
  vehicle_id = [];
  retry_wake_ups = 3;
  retry_sleep_in_seconds = 30;
  fast_read_time_in_seconds = 60;
  very_slow_read_time_in_seconds = 1800;
  max_slowing_rate_for_very_slow_reads = 3;
}

abbrev pub no_hue : ConfigurationPhilipsHue
no_hue = record { ip = []; key = []; lights = [] }

abbrev pub no_schedules : ScheduleManager
no_schedules = record { schedules = []; utc_offset = pos 0 }

-- `static_cast<ScheduleAction>`.
abbrev pub action_of_code : ℤ → ScheduleAction
action_of_code n =
    if eq_ℤ n (pos 0)
    then lightswitch_off
    else if eq_ℤ n (pos 1)
    then lightswitch_on
    else unnamed_action n

-- `try { return …; } catch (...) {}`, and the empty configuration behind it.
abbrev pub or_empty {ℓ} : {A : Type ℓ} → A → Option A → A
or_empty empty none = empty
or_empty empty (some a) = a
