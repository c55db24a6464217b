-- ===== src/Data/Vehicle.antt =====
-- homecontrol/TeslaDataStructs.h. The product of two `double`s is a parameter.
use homecontrol_server.Common.{ℕ, Bool, true, false, Text, codes}
use homecontrol_server.Data.Devices.{Double}

pub record VehicleState : Type 0 where
  pub locked : Bool
  pub odometer_in_km : Double
  pub fd_window : Bool
  pub fp_window : Bool
  pub rd_window : Bool
  pub rp_window : Bool
  pub df : Bool
  pub dr : Bool
  pub pf : Bool
  pub pr : Bool
  pub ft : Bool
  pub rt : Bool

pub record DriveState : Type 0 where
  pub heading : ℕ
  pub latitude : Double
  pub longitude : Double
  pub power : Double
  pub speed : Double

pub record ChargeState : Type 0 where
  pub usable_battery_level : ℕ
  pub estimated_range_in_km : Double
  pub charger_actual_current : Double
  pub charger_actual_voltage : ℕ
  pub charging_state : Text
  pub time_to_full_charge : Double

pub record ClimateState : Type 0 where
  pub inside_temp : Double
  pub outisde_temp : Double
  pub driver_temp_setting : Double
  pub passenger_temp_setting : Double
  pub seat_heater_left : Bool
  pub seat_heater_right : Bool

pub record VehicleInformation : Type 0 where
  pub vehicle_state : VehicleState
  pub drive_state : DriveState
  pub charge_state : ChargeState
  pub climate_state : ClimateState

-- The default constructors.
abbrev pub unknown_vehicle : VehicleInformation
unknown_vehicle = record {
  vehicle_state = record {
    locked = false;
    odometer_in_km = 0;
    fd_window = true;
    fp_window = true;
    rd_window = true;
    rp_window = true;
    df = true;
    dr = true;
    pf = true;
    pr = true;
    ft = true;
    rt = true;
  };
  drive_state = record { heading = 0; latitude = 0; longitude = 0; power = 0; speed = 0 };
  charge_state = record {
    usable_battery_level = 0;
    estimated_range_in_km = 0;
    charger_actual_current = 0;
    charger_actual_voltage = 0;
    charging_state = codes "Disconnected";
    time_to_full_charge = 0;
  };
  climate_state = record {
    inside_temp = 0;
    outisde_temp = 0;
    driver_temp_setting = 0;
    passenger_temp_setting = 0;
    seat_heater_left = false;
    seat_heater_right = false;
  };
}

-- `1.609344f`, widened to a `double`.
abbrev pub km_per_mile : Double
km_per_mile = 4609926660236509184

pub get_km_from_miles : (Double → Double → Double) → Double → Double
get_km_from_miles times miles = times miles km_per_mile
