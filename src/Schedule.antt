-- ===== src/Schedule.antt =====
-- homecontrol/ScheduleManager.cpp and the schedule of IGetConfiguration.h. The time of day that
-- boost gives is an argument of `callback`.
pub mod Firing
use homecontrol_server.Common.{
  ℕ, ℤ, pos, ◌+ℤ◌, eq_ℤ, Bool, true, false, ◌&&◌, List, [], ◌∷◌, ◌++◌, if◌then◌else◌,
}
use homecontrol_server.Data.Meta.{write, light_state}
use homecontrol_server.Data.Message.{Message, Effect, send, message, light}

-- An integer of the configuration is cast to the enumeration, so other values occur too.
pub data ScheduleAction : Type 0 where
  lightswitch_off lightswitch_on : ScheduleAction
  unnamed_action : ℤ → ScheduleAction

pub record Schedule : Type 0 where
  pub start_hours : ℕ
  pub start_minutes : ℕ
  pub schedule_action : ScheduleAction
  pub internal_ids : List ℕ
  pub handled : Bool

pub record ScheduleManager : Type 0 where
  pub schedules : List Schedule
  pub utc_offset : ℤ

-- `time_of_day`: hours and minutes in UTC.
pub record TimeOfDay : Type 0 where
  pub hours : ℕ
  pub minutes : ℕ

abbrev pub convert_hours_to_my_timezone : ℕ → ℤ → ℤ
convert_hours_to_my_timezone hour offset = pos hour +ℤ offset

unfoldable pub handle_light_switches : List ℕ → Bool → List Effect
handle_light_switches [] is_on = []
handle_light_switches (n ∷ ns) is_on =
    send (message write light_state (light (record { id = n; is_on = is_on; name = [] })))
    ∷ handle_light_switches ns is_on

abbrev pub switch_lights : ScheduleAction → List ℕ → List Effect
switch_lights lightswitch_on ids = handle_light_switches ids true
switch_lights lightswitch_off ids = handle_light_switches ids false
switch_lights (unnamed_action n) ids = []

pub handle_scheduler_event : Schedule → Schedule × List Effect
unfolding handle_light_switches
handle_scheduler_event s =
    if s.handled
    then (s, [])
    else (record s { handled = true }, switch_lights s.schedule_action s.internal_ids)

unfoldable pub is_time : TimeOfDay → ℤ → Schedule → Bool
is_time now offset s =
    eq_ℤ (pos now.hours) (convert_hours_to_my_timezone s.start_hours offset)
    && eq_ℤ (pos now.minutes) (pos s.start_minutes)

pub check_schedule : TimeOfDay → ℤ → Schedule → Schedule × List Effect
unfolding handle_scheduler_event is_time
check_schedule now offset s =
    if is_time now offset s then handle_scheduler_event s else (record s { handled = false }, [])

-- The loop over the schedules.
pub check_all : TimeOfDay → ℤ → List Schedule → List Schedule × List Effect
unfolding check_schedule
check_all now offset [] = ([], [])
check_all now offset (s ∷ ss) =
    let (s', es) = check_schedule now offset s in
    let (ss', es') = check_all now offset ss in (s' ∷ ss', es ++ es')

unfoldable pub callback : TimeOfDay → ScheduleManager → ScheduleManager × List Effect
unfolding check_all
callback now m =
    let (ss, es) = check_all now m.utc_offset m.schedules in (record m { schedules = ss }, es)

-- The callbacks of a sequence of clock readings.
pub run : List TimeOfDay → ScheduleManager → ScheduleManager × List Effect
unfolding callback
run [] m = (m, [])
run (now ∷ later) m =
    let (m', es) = callback now m in let (m'', es') = run later m' in (m'', es ++ es')
