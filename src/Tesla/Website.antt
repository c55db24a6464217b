-- ===== src/Tesla/Website.antt =====
-- homecontrol/TeslaManager.cpp: the parsers of the four responses, and the read of all of them.
pub mod Failing
use homecontrol_server.Common.{
  ℤ, pos, eq_ℤ, to_unsigned, Bool, not, Text, codes, Option, none, some, ◌>>=◌, if◌then◌else◌,
}
use homecontrol_server.Data.Devices.{Double}
use homecontrol_server.Data.Vehicle.{
  VehicleState, DriveState, ChargeState, ClimateState, VehicleInformation, get_km_from_miles,
}
use homecontrol_server.Json.{JsonLib}
use homecontrol_server.Tesla.Connection.{TeslaConnection, get}

module _ (j : JsonLib) where
  pub get_response_as_object : Text → Option j.Json
  get_response_as_object response = do v ← j.parse response; j.field v (codes "response")

  pub valid_response : Text → Option Bool
  unfolding get_response_as_object
  valid_response response = do v ← get_response_as_object response; some (not (j.is_null v))

  pub integer_of : j.Json → Text → Option ℤ
  integer_of v name = do f ← j.field v name; j.as_integer f

  pub double_of : j.Json → Text → Option Double
  double_of v name = do f ← j.field v name; j.as_double f

  pub bool_of : j.Json → Text → Option Bool
  bool_of v name = do f ← j.field v name; j.as_bool f

  pub string_of : j.Json → Text → Option Text
  string_of v name = do f ← j.field v name; j.as_string f

  -- `as_integer() == 0`: a window or a door that is closed.
  pub closed_of : j.Json → Text → Option Bool
  unfolding integer_of
  closed_of v name = do n ← integer_of v name; some (eq_ℤ n (pos 0))

  pub parse_climate_state : Text → Option ClimateState
  unfolding get_response_as_object double_of integer_of
  parse_climate_state text = do
    response ← get_response_as_object text
    inside ← double_of response (codes "inside_temp")
    outside ← double_of response (codes "outside_temp")
    driver ← double_of response (codes "driver_temp_setting")
    passenger ← double_of response (codes "passenger_temp_setting")
    left ← integer_of response (codes "seat_heater_left")
    right ← integer_of response (codes "seat_heater_right")
    some (record {
      inside_temp = inside;
      outisde_temp = outside;
      driver_temp_setting = driver;
      passenger_temp_setting = passenger;
      seat_heater_left = not (eq_ℤ left (pos 0));
      seat_heater_right = not (eq_ℤ right (pos 0));
    })

  pub parse_charge_state : (Double → Double → Double) → Text → Option ChargeState
  unfolding get_response_as_object double_of integer_of string_of
  parse_charge_state times text = do
    response ← get_response_as_object text
    level ← integer_of response (codes "usable_battery_level")
    range ← double_of response (codes "battery_range")
    current ← double_of response (codes "charger_actual_current")
    voltage ← integer_of response (codes "charger_voltage")
    charging ← string_of response (codes "charging_state")
    time ← double_of response (codes "time_to_full_charge")
    some (record {
      usable_battery_level = to_unsigned level;
      estimated_range_in_km = get_km_from_miles times range;
      charger_actual_current = current;
      charger_actual_voltage = to_unsigned voltage;
      charging_state = charging;
      time_to_full_charge = time;
    })

  pub parse_vehicle_state : (Double → Double → Double) → Text → Option VehicleState
  unfolding get_response_as_object double_of bool_of closed_of
  parse_vehicle_state times text = do
    response ← get_response_as_object text
    is_locked ← bool_of response (codes "locked")
    odometer ← double_of response (codes "odometer")
    fd_w ← closed_of response (codes "fd_window")
    fp_w ← closed_of response (codes "fp_window")
    rd_w ← closed_of response (codes "rd_window")
    rp_w ← closed_of response (codes "rp_window")
    df_c ← closed_of response (codes "df")
    dr_c ← closed_of response (codes "dr")
    pf_c ← closed_of response (codes "pf")
    pr_c ← closed_of response (codes "pr")
    ft_c ← closed_of response (codes "ft")
    rt_c ← closed_of response (codes "rt")
    some (record {
      locked = is_locked;
      odometer_in_km = get_km_from_miles times odometer;
      fd_window = fd_w;
      fp_window = fp_w;
      rd_window = rd_w;
      rp_window = rp_w;
      df = df_c;
      dr = dr_c;
      pf = pf_c;
      pr = pr_c;
      ft = ft_c;
      rt = rt_c;
    })

  -- A speed of null is 0.
  pub speed_of : j.Json → Option Double
  unfolding double_of
  speed_of response = do
    f ← j.field response (codes "speed")
    if j.is_null f then some 0 else double_of response (codes "speed")

  pub parse_drive_state : Text → Option DriveState
  unfolding get_response_as_object double_of integer_of speed_of
  parse_drive_state text = do
    response ← get_response_as_object text
    heading_value ← integer_of response (codes "heading")
    latitude_value ← double_of response (codes "latitude")
    longitude_value ← double_of response (codes "longitude")
    power_value ← double_of response (codes "power")
    speed_value ← speed_of response
    some (record {
      heading = to_unsigned heading_value;
      latitude = latitude_value;
      longitude = longitude_value;
      power = power_value;
      speed = speed_value;
    })

  -- One response: `none` if a call throws, `some none` if the response is null.
  pub parsed_if_valid {ℓ} : {A : Type ℓ} → (Text → Option A) → Text → Option (Option A)
  unfolding valid_response
  parsed_if_valid parse_it response = do
    valid ← valid_response response
    if valid then parse_it response >>= (λ v. some (some v)) else some none

module _ {W : Type 0} where
  -- The next request is made only after a response that is valid.
  pub and_then {ℓ κ} :
      {A : Type ℓ} {B : Type κ}
      → Option (Option A) × W
      → (A → W → Option (Option B) × W)
      → Option (Option B) × W
  and_then (none, w) k = (none, w)
  and_then (some none, w) k = (some none, w)
  and_then (some (some a), w) k = k a w

module _ (j : JsonLib) (times : Double → Double → Double) {W : Type 0}
    (exchange : W → Text → Text → Text → Option Text × W) where
  pub read_part {ℓ} :
      {A : Type ℓ} → TeslaConnection → Text → (Text → Option A) → W → Option (Option A) × W
  unfolding parsed_if_valid
  read_part c cmd parse_it w =
      let (response, w') = get exchange c cmd w in (parsed_if_valid j parse_it response, w')

  pub read_data_from_tesla_website : TeslaConnection → W → Option (Option VehicleInformation) × W
  unfolding read_part parse_climate_state parse_charge_state parse_vehicle_state parse_drive_state
      and_then
  read_data_from_tesla_website c w =
      and_then (read_part c (codes "climate_state") (parse_climate_state j) w) (λ climate w₁.
        and_then (read_part c (codes "charge_state") (parse_charge_state j times) w₁) (λ charge w₂.
          and_then (read_part c (codes "vehicle_state") (parse_vehicle_state j times) w₂)
            (λ vehicle w₃.
              and_then (read_part c (codes "drive_state") (parse_drive_state j) w₃) (λ drive w₄. (
                some (
                    some (record {
                      vehicle_state = vehicle;
                      drive_state = drive;
                      charge_state = charge;
                      climate_state = climate;
                    })),
                w₄,
              )))))
