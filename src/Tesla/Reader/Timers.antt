-- ===== src/Tesla/Reader/Timers.antt =====
-- What a call and the end of a timer keep of the reader's state.
use homecontrol_server.Common.{
  ℕ, zero, suc, ◌≡◌, refl, inl, inr, Text, codes, Option, none, some, arith, Option-cases,
}
use homecontrol_server.Data.Devices.{Double}
use homecontrol_server.Data.Vehicle.{VehicleInformation}
use homecontrol_server.Json.{JsonLib}
use homecontrol_server.Tesla.Connection.{post}
use homecontrol_server.Tesla.Reader.{
  ReaderStates, check_state, OneShotTimer, TeslaManager, callback_in, callback, checked, woken,
  try_to_wake, run_timer, timer_fires, TimerCallback, to_check_state, wake_car,
}

module _ (j : JsonLib) (times : Double → Double → Double) {W : Type 0}
    (exchange : W → Text → Text → Text → Option Text × W) (clock : W → ℕ) where
  checked-config :
      (r : Option (Option VehicleInformation) × W) (t : TeslaManager W)
      → (checked j times exchange clock r t).config ≡ t.config
  unfolding checked
  checked-config (none, w) t = refl
  checked-config (some none, w) t = refl
  checked-config (some (some v), w) t = refl

  pub callback_in-config :
      (s : ReaderStates) (t : TeslaManager W)
      → (callback_in j times exchange clock s t).config ≡ t.config
  unfolding callback_in
  callback_in-config check_state t = checked-config _ t
  callback_in-config _ t = refl

  pub callback-config : (t : TeslaManager W) → (callback j times exchange clock t).config ≡ t.config
  unfolding callback
  callback-config t = callback_in-config t.state t

  try_to_wake_keeps :
      (n : ℕ) (t t' : TeslaManager W)
      → try_to_wake j times exchange clock n t ≡ some t'
      → (t'.config ≡ t.config) × (t'.timer ≡ t.timer) × (t'.storing ≡ t.storing)
  unfolding try_to_wake
  try_to_wake_keeps zero t t' h = ground arith
  try_to_wake_keeps (suc n) t t' h = ground (
    arith,
    try_to_wake_keeps n
        (record t { world = (post exchange t.connection (codes "wake_up") t.world).1 }) t',
  )

  woken_lem :
      (r : Option (Option VehicleInformation) × W) (t t' : TeslaManager W)
      → woken j times exchange clock r t ≡ some t'
      → (t'.config ≡ t.config)
        × (t'.timer ≡ t.timer)
        × (t'.state ≡ check_state)
        × (t'.storing ≡ t.storing)
  unfolding woken
  woken_lem (none, w) t t' h = ground arith
  woken_lem (some (some v), w) t t' h = ground arith
  woken_lem (some none, w) t t' h =
      elim (Option-cases
        (try_to_wake j times exchange clock t.config.retry_wake_ups (record t { world = w }))) [
          | inl e ↦ ground arith
          | inr (s, e) ↦
              ground (arith, try_to_wake_keeps t.config.retry_wake_ups (record t { world = w }) s e)
        ]

  run_timer_lem :
      (f : TimerCallback) (t t' : TeslaManager W)
      → run_timer j times exchange clock f t ≡ some t'
      → (t'.config ≡ t.config)
        × (t'.timer ≡ none)
        × (t'.state ≡ check_state)
        × (t'.storing ≡ t.storing)
  unfolding run_timer
  run_timer_lem to_check_state t t' h = ground arith
  run_timer_lem wake_car t t' h = woken_lem _ (record t { timer = none }) t' h

  pub timer_fires_lem :
      (o : OneShotTimer) (t t' : TeslaManager W)
      → timer_fires j times exchange clock o t ≡ some t'
      → (t'.config ≡ t.config)
        × (t'.timer ≡ none)
        × (t'.state ≡ check_state)
        × (t'.storing ≡ t.storing)
  unfolding timer_fires
  timer_fires_lem o t t' h = run_timer_lem o.on_time t t' h
