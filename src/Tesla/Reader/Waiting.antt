-- ===== src/Tesla/Reader/Waiting.antt =====
-- The reader's states, its timer and its rate: it never stands still, and never reads more slowly.
use homecontrol_server.Common.{
  ℕ, zero, suc, ◌-◌, ◌<◌, ◌≤◌, ◌≡◌, Bool, true, false, refl, ◌∙◌, subst, ◌⊎◌, inl, inr, Text,
  Option, none, some, arith, Option-cases, Bool-cases,
}
use homecontrol_server.Data.Devices.{Double}
use homecontrol_server.Data.Vehicle.{VehicleInformation}
use homecontrol_server.Json.{JsonLib}
use homecontrol_server.Tesla.Website.{read_data_from_tesla_website}
use homecontrol_server.Tesla.Reader.{
  ReaderStates, check_state, car_is_awake, car_is_awake_and_driving, car_is_awake_and_charging,
  enter_car_is_sleeping_mode, car_is_sleeping, wait_for_state_change, OneShotTimer,
  ConfigurationTeslaManager, TeslaManager, callback_in, callback, checked, awake_state, timer_fires,
  store_wait, stores, calls_back, fires, Step, Reachable, started, stepped, new_tesla_manager,
}
use homecontrol_server.Tesla.Reader.Timers.{callback-config, callback_in-config, timer_fires_lem}

-- The timer's time is one of the two configured ones.
abbrev pub Configured : ConfigurationTeslaManager → OneShotTimer → Type 0
Configured c o =
    (o.seconds ≡ c.fast_read_time_in_seconds) ⊎ (o.seconds ≡ c.very_slow_read_time_in_seconds)

-- Neither of the two configured times is 0.
abbrev pub Positive : ConfigurationTeslaManager → Type 0
Positive c = (0 < c.fast_read_time_in_seconds) × (0 < c.very_slow_read_time_in_seconds)

-- A timer with a time does not end before the call that has started it has stored the waiting state,
-- which takes it far less than a second.
abbrev pub KeepsTime : (OneShotTimer → Type 0) → Type 0
KeepsTime early = (o : OneShotTimer) → 0 < o.seconds → early o → ⊥

-- A timer runs in the waiting state, or in a call that is about to store it, and in no other, and the
-- rate is 1 before the sleep.
abbrev pub Fits : ConfigurationTeslaManager → ReaderStates → ℕ → Option OneShotTimer → Bool → Type 0
Fits c state rate none true = ⊥
Fits c state rate (some o) true = Configured c o
Fits c wait_for_state_change rate none false = ⊥
Fits c wait_for_state_change rate (some o) false = Configured c o
Fits c car_is_sleeping rate none false = rate ≡ 1
Fits c _ rate none false = Unit
Fits c _ rate (some o) false = ⊥

module _ (j : JsonLib) (times : Double → Double → Double) {W : Type 0}
    (exchange : W → Text → Text → Text → Option Text × W) (clock : W → ℕ) where
  abbrev pub WellFormed : TeslaManager W → Type 0
  WellFormed t = Fits t.config t.state t.rate t.timer t.storing

  checked-WellFormed :
      (r : Option (Option VehicleInformation) × W) (t : TeslaManager W)
      → t.timer ≡ none
      → t.storing ≡ false
      → WellFormed (checked j times exchange clock r t)
  unfolding checked awake_state
  checked-WellFormed (none, w) t h e = inr refl
  checked-WellFormed (some none, w) t h e = ground arith
  checked-WellFormed (some (some v), w) t h e = ground arith

  callback_in-WellFormed :
      (s : ReaderStates) (t : TeslaManager W)
      → t.state ≡ s
      → t.storing ≡ false
      → WellFormed t
      → WellFormed (callback_in j times exchange clock s t)
  unfolding callback_in
  callback_in-WellFormed wait_for_state_change t e q h = h
  callback_in-WellFormed check_state t e q h = checked-WellFormed _ t (ground arith) q
  callback_in-WellFormed car_is_awake t e q h = ground arith
  callback_in-WellFormed car_is_awake_and_driving t e q h = inl refl
  callback_in-WellFormed car_is_awake_and_charging t e q h = inl refl
  callback_in-WellFormed enter_car_is_sleeping_mode t e q h = ground arith
  callback_in-WellFormed car_is_sleeping t e q h = ground arith

  callback-WellFormed :
      (t : TeslaManager W)
      → t.storing ≡ false
      → WellFormed t
      → WellFormed (callback j times exchange clock t)
  unfolding callback
  callback-WellFormed t q h = callback_in-WellFormed t.state t refl q h

  store_wait-WellFormed :
      (t : TeslaManager W)
      → WellFormed t
      → WellFormed (store_wait t)
        × ((store_wait t).storing ≡ false)
        × ((store_wait t).config ≡ t.config)
  unfolding store_wait
  store_wait-WellFormed t h = ground arith

  -- How many calls a state is away from the wait for the timer.
  abbrev calls_left : ReaderStates → ℕ
  calls_left wait_for_state_change = 0
  calls_left car_is_awake_and_driving = 1
  calls_left car_is_awake_and_charging = 1
  calls_left car_is_sleeping = 1
  calls_left enter_car_is_sleeping_mode = 2
  calls_left car_is_awake = 3
  calls_left check_state = 4

  checked-calls_left :
      (r : Option (Option VehicleInformation) × W) (t : TeslaManager W)
      → t.storing ≡ false
      → calls_left (store_wait (checked j times exchange clock r t)).state ≤ 3
  unfolding checked awake_state store_wait
  checked-calls_left (none, w) t q = omega arith
  checked-calls_left (some none, w) t q = rw q (omega arith)
  checked-calls_left (some (some v), w) t q = rw q (ground arith)

  callback_in-calls_left :
      (s : ReaderStates) (t : TeslaManager W)
      → t.state ≡ s
      → t.storing ≡ false
      → calls_left (store_wait (callback_in j times exchange clock s t)).state ≤ calls_left s - 1
  unfolding callback_in store_wait
  callback_in-calls_left check_state t e q =
      checked-calls_left (read_data_from_tesla_website j times exchange t.connection t.world) t q
  callback_in-calls_left wait_for_state_change t e q = ground arith
  callback_in-calls_left car_is_awake t e q = rw q (omega arith)
  callback_in-calls_left car_is_awake_and_driving t e q = omega arith
  callback_in-calls_left car_is_awake_and_charging t e q = omega arith
  callback_in-calls_left enter_car_is_sleeping_mode t e q = rw q (omega arith)
  callback_in-calls_left car_is_sleeping t e q = omega arith

  -- A whole call of `Callback`.
  pub whole_call : TeslaManager W → TeslaManager W
  whole_call t = store_wait (callback j times exchange clock t)

  whole_call_lem :
      (t : TeslaManager W)
      → t.storing ≡ false
      → WellFormed t
      → WellFormed (whole_call t)
        × ((whole_call t).storing ≡ false)
        × ((whole_call t).config ≡ t.config)
        × (calls_left (whole_call t).state ≤ calls_left t.state - 1)
  unfolding whole_call callback
  whole_call_lem t q h =
      let called = callback_in j times exchange clock t.state t in
      let (w, s, c) = store_wait-WellFormed called (callback_in-WellFormed t.state t refl q h) in
      (
        w,
        s,
        c ∙ callback_in-config j times exchange clock t.state t,
        callback_in-calls_left t.state t refl q,
      )

  pub callbacks : ℕ → TeslaManager W → TeslaManager W
  callbacks zero t = t
  callbacks (suc n) t = callbacks n (whole_call t)

  callbacks_lem :
      (n : ℕ) (t : TeslaManager W)
      → t.storing ≡ false
      → WellFormed t
      → WellFormed (callbacks n t)
        × ((callbacks n t).storing ≡ false)
        × ((callbacks n t).config ≡ t.config)
        × (calls_left (callbacks n t).state ≤ calls_left t.state - n)
  unfolding callbacks
  callbacks_lem zero t q h = (h, q, refl, omega arith)
  callbacks_lem (suc n) t q h =
      let (w, s, c, l) = whole_call_lem t q h in
      let (w', s', c', l') = callbacks_lem n (whole_call t) s w in (w', s', c' ∙ c, omega arith)

  at_most_four : (s : ReaderStates) → calls_left s ≤ 4
  at_most_four s = ground arith

  waiting_timer :
      (t : TeslaManager W)
      → WellFormed t
      → t.storing ≡ false
      → calls_left t.state ≤ 0
      → (o : OneShotTimer) × (t.timer ≡ some o) × Configured t.config o
  waiting_timer t h q l = elim (Option-cases t.timer) [
    | inl e ↦ absurd (ground arith)
    | inr (o, e) ↦ (o, e, ground arith)
  ]

module _ (j : JsonLib) (times : Double → Double → Double) {W : Type 0}
    (exchange : W → Text → Text → Text → Option Text × W) (clock : W → ℕ)
    (early : OneShotTimer → Type 0) where
  fires-WellFormed :
      (t t' : TeslaManager W) (o : OneShotTimer)
      → KeepsTime early
      → Positive t.config
      → WellFormed j times exchange clock t
      → t.timer ≡ some o
      → (t.storing ≡ true → early o)
      → timer_fires j times exchange clock o t ≡ some t'
      → WellFormed j times exchange clock t'
  fires-WellFormed t t' o k p h e q f =
      let (_, n, c, kept) = timer_fires_lem j times exchange clock o t t' f in
      elim (Bool-cases t.storing) [
        | inl s ↦ absurd (k o (ground arith) (q s))
        | inr s ↦ ground arith
      ]

  Step-config :
      (t t' : TeslaManager W) → Step j times exchange clock early t t' → t'.config ≡ t.config
  unfolding store_wait
  Step-config t _ (calls_back _ _) = callback-config j times exchange clock t
  Step-config t _ (stores _ _) = ground arith
  Step-config t t' (fires _ _ o e q f) = (timer_fires_lem j times exchange clock o t t' f).0

  Step-WellFormed :
      (t t' : TeslaManager W)
      → Step j times exchange clock early t t'
      → KeepsTime early
      → Positive t.config
      → WellFormed j times exchange clock t
      → WellFormed j times exchange clock t'
  Step-WellFormed t _ (calls_back _ q) k p h = callback-WellFormed j times exchange clock t q h
  Step-WellFormed t _ (stores _ q) k p h = (store_wait-WellFormed j times exchange clock t h).0
  Step-WellFormed t t' (fires _ _ o e q f) k p h = fires-WellFormed t t' o k p h e q f

  -- In every state that the reader reaches with configured times that are not 0, if no timer with such a
  -- time ends before its call has stored the waiting state: a timer runs exactly while the manager waits
  -- for it or is about to, its time is one of the two configured ones, and the rate is 1 whenever the
  -- sleep is about to begin: a wake-up never slows the reads that follow.
  pub Reachable-WellFormed :
      (t : TeslaManager W)
      → KeepsTime early
      → Positive t.config
      → Reachable j times exchange clock early t
      → WellFormed j times exchange clock t
  unfolding new_tesla_manager
  Reachable-WellFormed _ k p (started c connection w) = tt
  Reachable-WellFormed _ k p (stepped s t r step) =
      let p' : Positive s.config = subst Positive (Step-config s t step) p in
      Step-WellFormed s t step k p' (Reachable-WellFormed s k p' r)

  -- From every state that the reader reaches with configured times that are not 0, if no timer with such
  -- a time ends before its call has stored the waiting state: the end of a call that has started a timer
  -- and four whole calls of `Callback`, between which no timer ends, lead to the wait for a timer, which
  -- takes one of the two configured times: the manager never waits without a timer.
  pub waits_within_four :
      (t : TeslaManager W)
      → KeepsTime early
      → Positive t.config
      → Reachable j times exchange clock early t
      → let waiting = callbacks j times exchange clock 4 (store_wait t) in
        (o : OneShotTimer) × (waiting.state ≡ wait_for_state_change)
        × (waiting.timer ≡ some o)
        × Configured t.config o
  waits_within_four t k p r =
      let waiting = callbacks j times exchange clock 4 (store_wait t) in
      let (h, q, c) =
        store_wait-WellFormed j times exchange clock t (Reachable-WellFormed t k p r) in
      let (w, s, c', l) = callbacks_lem j times exchange clock 4 (store_wait t) q h in
      let left : calls_left j times exchange clock waiting.state ≤ 0 =
        omega (arith, at_most_four j times exchange clock (store_wait t).state) in
      let (o, e, d) = waiting_timer j times exchange clock waiting w s left in
      (o, ground arith, e, subst (λ k. Configured k o) (c' ∙ c) d)
