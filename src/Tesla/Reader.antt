-- ===== src/Tesla/Reader.antt =====
-- homecontrol/TeslaManager.cpp: the state machine that reads the car, its timer and its messages. A
-- time of `system_clock` is a number of nanoseconds, which `clock` reads from the world.
pub mod Timers
pub mod Waiting
pub mod Stopped
pub mod Driving
use homecontrol_server.Common.{
  ℕ, zero, suc, ◌+◌, ◌-◌, ◌*◌, ◌/◌, ◌%◌, ◌^◌, ◌≡◌, Bool, true, false, ◌&&◌, not, Text, codes,
  text_eq, List, [], ◌∷◌, Option, none, some, ltb, leb, if◌then◌else◌, ◌>>=◌,
}
use homecontrol_server.Data.Meta.{
  cmd_eq, id_eq, read, answer, read_with_direct_answer, vehicle_information,
}
use homecontrol_server.Data.Devices.{Double, is_zero}
use homecontrol_server.Data.Vehicle.{DriveState, ChargeState, VehicleInformation, unknown_vehicle}
use homecontrol_server.Data.Message.{Message, Effect, send, message, vehicle, answer_with}
use homecontrol_server.Json.{JsonLib}
use homecontrol_server.Oauth2.{ConfigToken}
use homecontrol_server.Tesla.Connection.{TeslaConnection, post}
use homecontrol_server.Tesla.Website.{
  get_response_as_object, string_of, read_data_from_tesla_website,
}

pub data ReaderStates : Type 0 where
  check_state car_is_awake car_is_awake_and_driving car_is_awake_and_charging : ReaderStates
  enter_car_is_sleeping_mode car_is_sleeping wait_for_state_change : ReaderStates

-- The two functions that a timer is started with.
pub data TimerCallback : Type 0 where
  to_check_state wake_car : TimerCallback

pub record OneShotTimer : Type 0 where
  pub seconds : ℕ
  pub on_time : TimerCallback

-- IGetConfiguration.h.
pub record ConfigurationTeslaManager : Type 0 where
  pub config_token : ConfigToken
  pub control_url : Text
  pub vehicle_id : Text
  pub retry_wake_ups : ℕ
  pub retry_sleep_in_seconds : ℕ
  pub fast_read_time_in_seconds : ℕ
  pub very_slow_read_time_in_seconds : ℕ
  pub max_slowing_rate_for_very_slow_reads : ℕ

-- The static variables of `isCarDriving`.
pub record Drive : Type 0 where
  pub driving : Bool
  pub last_time_drove : ℕ

-- `m_OneShotTimer` counts as long as its thread runs. `storing` tells that a call of `Callback` has
-- started it and has not yet stored the waiting state.
pub record TeslaManager (W : Type 0) : Type 0 where
  pub config : ConfigurationTeslaManager
  pub connection : TeslaConnection
  pub vehicle_info : VehicleInformation
  pub state : ReaderStates
  pub rate : ℕ
  pub timer : Option OneShotTimer
  pub storing : Bool
  pub drive : Drive
  pub world : W

abbrev pub driving_timeout : ℕ
driving_timeout = 5

-- `duration_cast<minutes>`, towards 0. A clock that was set back gives no positive number.
abbrev pub minutes_since : ℕ → ℕ → ℕ
minutes_since now last = (now - last) / (60 * 10 ^ 9)

pub is_car_driving : ℕ → Double → Drive → Drive
is_car_driving now speed d =
    if is_zero speed
    then if d.driving && ltb driving_timeout (minutes_since now d.last_time_drove)
      then record d { driving = false }
      else d
    else record { driving = true; last_time_drove = now }

pub is_car_charging : ChargeState → Bool
is_car_charging c = not (is_zero c.charger_actual_current)

unfoldable pub new_tesla_manager :
    {W : Type 0} → ConfigurationTeslaManager → TeslaConnection → W → TeslaManager W
new_tesla_manager c connection w = record {
  config = c;
  connection = connection;
  vehicle_info = unknown_vehicle;
  state = check_state;
  rate = 1;
  timer = none;
  storing = false;
  drive = record { driving = false; last_time_drove = 0 };
  world = w;
}

module _ {W : Type 0} where
  -- A timer is started. Its thread runs from here on, before the state has changed.
  abbrev pub set_timer : ℕ → TimerCallback → TeslaManager W → TeslaManager W
  set_timer s f t = record t { timer = some (record { seconds = s; on_time = f }); storing = true }

  -- The last assignment of a call that has started a timer.
  pub store_wait : TeslaManager W → TeslaManager W
  store_wait t =
      if t.storing then record t { storing = false; state = wait_for_state_change } else t

module _ (j : JsonLib) (times : Double → Double → Double) {W : Type 0}
    (exchange : W → Text → Text → Text → Option Text × W) (clock : W → ℕ) where
  pub awake_state : Drive → VehicleInformation → ReaderStates
  unfolding is_car_charging
  awake_state d v =
      if d.driving
      then car_is_awake_and_driving
      else if is_car_charging v.charge_state
      then car_is_awake_and_charging
      else car_is_awake

  -- What `CheckState` makes of a read. An exception leads to slow reading.
  pub checked : Option (Option VehicleInformation) × W → TeslaManager W → TeslaManager W
  unfolding is_car_driving awake_state
  checked (none, w) t =
      set_timer t.config.very_slow_read_time_in_seconds to_check_state (record t { world = w })
  checked (some none, w) t = record t { world = w; state = enter_car_is_sleeping_mode }
  checked (some (some v), w) t =
      let d = is_car_driving (clock w) v.drive_state.speed t.drive in
      record t { world = w; vehicle_info = v; drive = d; state = awake_state d v }

  pub callback_in : ReaderStates → TeslaManager W → TeslaManager W
  unfolding checked
  callback_in wait_for_state_change t = t
  callback_in check_state t =
      checked (read_data_from_tesla_website j times exchange t.connection t.world) t
  callback_in car_is_awake t = record t { state = enter_car_is_sleeping_mode }
  callback_in car_is_awake_and_driving t =
      set_timer t.config.fast_read_time_in_seconds to_check_state t
  callback_in car_is_awake_and_charging t =
      set_timer t.config.fast_read_time_in_seconds to_check_state t
  callback_in enter_car_is_sleeping_mode t = record t { rate = 1; state = car_is_sleeping }
  callback_in car_is_sleeping t =
      set_timer (t.config.very_slow_read_time_in_seconds * t.rate) wake_car t

  -- A call up to the start of a timer or, where it starts none, a whole one.
  pub callback : TeslaManager W → TeslaManager W
  unfolding callback_in
  callback t = callback_in t.state t

  -- `m_Rate++`, bounded by the configured rate.
  pub next_rate : ConfigurationTeslaManager → ℕ → ℕ
  next_rate c rate =
      let r = (rate + 1) % 2 ^ 32 in
      if leb c.max_slowing_rate_for_very_slow_reads r
      then c.max_slowing_rate_for_very_slow_reads
      else r

  state_of_car : Text → Option Text
  state_of_car response = do v ← get_response_as_object j response; string_of j v (codes "state")

  -- The loop of at most `n` attempts; `none` means that an exception ends the program.
  pub try_to_wake : ℕ → TeslaManager W → Option (TeslaManager W)
  unfolding state_of_car next_rate
  try_to_wake zero t = some t
  try_to_wake (suc n) t =
      let (response, w) = post exchange t.connection (codes "wake_up") t.world in
      let asleep = try_to_wake n (record t { world = w }) in
      elim (state_of_car response) [
        | none ↦ none
        | some s ↦
            if text_eq s (codes "online")
            then some (record t { world = w; rate = next_rate t.config t.rate })
            else asleep
      ]

  abbrev go_check_state : TeslaManager W → TeslaManager W
  go_check_state t = record t { state = check_state }

  -- A read before the attempts; its values are not kept.
  pub woken : Option (Option VehicleInformation) × W → TeslaManager W → Option (TeslaManager W)
  unfolding try_to_wake
  woken (none, w) t = none
  woken (some (some v), w) t = some (go_check_state (record t { world = w }))
  woken (some none, w) t = do
    t' ← try_to_wake t.config.retry_wake_ups (record t { world = w })
    some (go_check_state t')

  -- The function of the timer, in the timer's thread, which ends with it. Until it has run the
  -- manager waits, and `callback` does nothing.
  pub run_timer : TimerCallback → TeslaManager W → Option (TeslaManager W)
  unfolding woken
  run_timer to_check_state t = some (go_check_state (record t { timer = none }))
  run_timer wake_car t =
      woken (read_data_from_tesla_website j times exchange t.connection t.world)
        (record t { timer = none })

  pub timer_fires : OneShotTimer → TeslaManager W → Option (TeslaManager W)
  unfolding run_timer
  timer_fires o t = run_timer o.on_time t

-- The interleavings. `early` are the timers that may end before the call that has started them has stored
-- the waiting state.
module _ (j : JsonLib) (times : Double → Double → Double) {W : Type 0}
    (exchange : W → Text → Text → Text → Option Text × W) (clock : W → ℕ)
    (early : OneShotTimer → Type 0) where
  -- The cyclic callback in its two parts, and the end of the timer's time.
  pub data Step : TeslaManager W → TeslaManager W → Type 0 where
    calls_back :
        (t : TeslaManager W) → t.storing ≡ false → Step t (callback j times exchange clock t)
    stores : (t : TeslaManager W) → t.storing ≡ true → Step t (store_wait t)
    fires :
        (t t' : TeslaManager W) (o : OneShotTimer)
        → t.timer ≡ some o
        → (t.storing ≡ true → early o)
        → timer_fires j times exchange clock o t ≡ some t'
        → Step t t'

  pub data Reachable : TeslaManager W → Type 0 where
    started :
        (c : ConfigurationTeslaManager) (connection : TeslaConnection) (w : W)
        → Reachable (new_tesla_manager c connection w)
    stepped : (t t' : TeslaManager W) → Reachable t → Step t t' → Reachable t'

module _ {W : Type 0} where
  pub handle_message : TeslaManager W → Message → TeslaManager W × List Effect
  handle_message t m =
      if cmd_eq m.cmd read && id_eq m.id vehicle_information
      then (t, send (message answer vehicle_information (vehicle t.vehicle_info)) ∷ [])
      else if cmd_eq m.cmd read_with_direct_answer && id_eq m.id vehicle_information
      then (t, answer_with m (message answer vehicle_information (vehicle t.vehicle_info)))
      else (t, [])
