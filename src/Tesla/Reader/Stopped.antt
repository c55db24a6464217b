-- ===== src/Tesla/Reader/Stopped.antt =====
-- The reader with a reading time of 0.
use homecontrol_server.Common.{ℕ, sym, ◌≡◌, false, refl, subst, Text, Option, none, arith}
use homecontrol_server.Data.Devices.{Double}
use homecontrol_server.Json.{JsonLib}
use homecontrol_server.Tesla.Website.{read_data_from_tesla_website}
use homecontrol_server.Tesla.Reader.{
  check_state, checked, wait_for_state_change, OneShotTimer, TeslaManager, callback_in, callback,
  run_timer, timer_fires, store_wait, stores, to_check_state, calls_back, fires, Step, set_timer,
  Reachable, stepped,
}

module _ (j : JsonLib) (times : Double → Double → Double) {W : Type 0}
    (exchange : W → Text → Text → Text → Option Text × W) (clock : W → ℕ)
    (early : OneShotTimer → Type 0) where
  -- A manager that waits without a timer stays so.
  pub waits_forever :
      (t t' : TeslaManager W)
      → t.state ≡ wait_for_state_change
      → t.timer ≡ none
      → t.storing ≡ false
      → Step j times exchange clock early t t'
      → t' ≡ t
  unfolding callback callback_in
  waits_forever t _ e n q (calls_back _ _) = rw e refl
  waits_forever t _ e n q (stores _ k) = absurd (ground arith)
  waits_forever t t' e n q (fires _ _ o k _ _) = absurd (ground arith)

  callback-unread :
      (t : TeslaManager W) (w : W)
      → t.state ≡ check_state
      → read_data_from_tesla_website j times exchange t.connection t.world ≡ (none, w)
      → callback j times exchange clock t
        ≡ set_timer t.config.very_slow_read_time_in_seconds to_check_state (record t { world = w })
  unfolding callback callback_in checked
  callback-unread t w e h = rw e (rw h refl)

  -- With a slow reading time of 0, if a timer of this time may end before its call has stored the waiting
  -- state: after a read that throws, the store overwrites what the timer has stored, and the manager
  -- reaches a state in which it waits without a timer, and in which it stays.
  pub zero_time_stops :
      (t : TeslaManager W) (w : W)
      → Reachable j times exchange clock early t
      → t.state ≡ check_state
      → t.storing ≡ false
      → read_data_from_tesla_website j times exchange t.connection t.world ≡ (none, w)
      → t.config.very_slow_read_time_in_seconds ≡ 0
      → early (record { seconds = 0; on_time = to_check_state })
      → (s : TeslaManager W) × Reachable j times exchange clock early s
        × (s.state ≡ wait_for_state_change)
        × (s.timer ≡ none)
        × ((s' : TeslaManager W) → Step j times exchange clock early s s' → s' ≡ s)
  unfolding store_wait timer_fires run_timer
  zero_time_stops t w r e q h z y =
      let begun =
        set_timer t.config.very_slow_read_time_in_seconds to_check_state (record t { world = w }) in
      let fired : TeslaManager W = record begun { timer = none; state = check_state } in
      let stored : TeslaManager W = store_wait fired in
      let o : OneShotTimer = record {
        seconds = t.config.very_slow_read_time_in_seconds;
        on_time = to_check_state;
      } in
      (
        stored,
        stepped fired stored
            (stepped begun fired
              (stepped t begun r (
                subst (Step j times exchange clock early t) (callback-unread t w e h)
                  (calls_back t q)))
              (fires begun fired o refl
                (λ _.
                  subst (λ n. early (record { seconds = n; on_time = to_check_state })) (sym z) y)
                refl))
            (stores fired refl),
        refl,
        refl,
        λ s' step. waits_forever stored s' refl refl refl step,
      )
