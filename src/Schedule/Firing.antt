-- ===== src/Schedule/Firing.antt =====
-- When schedules fire, and how often.
use homecontrol_server.Common.{
  ℕ, zero, suc, ◌+◌, ◌*◌, ◌<◌, ℤ, pos, negsuc, Bool, true, false, ◌&&◌, not, List, [], ◌∷◌, ◌++◌,
  if◌then◌else◌, ◌≡◌, refl, ap, sym, ◌∙◌, ◌⊎◌, arith, length, length-append, All, append-nil,
}
use homecontrol_server.Common.Int.{eq_ℤ_iff, ◌≤ℤ◌}
use homecontrol_server.Data.Message.{Effect}
use homecontrol_server.Schedule.{
  Schedule, ScheduleManager, TimeOfDay, switch_lights, is_time, check_schedule, check_all, callback,
  run, convert_hours_to_my_timezone,
}

abbrev pub one_schedule : Schedule → ℤ → ScheduleManager
one_schedule s offset = record { schedules = s ∷ []; utc_offset = offset }

-- The readings at which a schedule's minute begins: its time now, and not its time before.
pub beginnings : ℤ → Schedule → Bool → List TimeOfDay → ℕ
beginnings offset s was [] = 0
beginnings offset s was (now ∷ later) =
    let rest = beginnings offset s (is_time now offset s) later in
    if is_time now offset s && not was then suc rest else rest

abbrev pub repeat : ℕ → List Effect → List Effect
repeat zero es = []
repeat (suc n) es = es ++ repeat n es

check_schedule_lem :
    (now : TimeOfDay) (offset : ℤ) (s : Schedule) (was : Bool)
    → check_schedule now offset (record s { handled = was }) ≡ (
      record s { handled = is_time now offset s },
      if is_time now offset s && not was
          then switch_lights s.schedule_action s.internal_ids
          else [],
    )
unfolding check_schedule
check_schedule_lem now offset s was = ground arith

run_step :
    (now : TimeOfDay) (later : List TimeOfDay) (offset : ℤ) (s : Schedule)
    → (run (now ∷ later) (one_schedule s offset)).1
      ≡ (check_schedule now offset s).1
        ++ []
        ++ (run later (one_schedule (check_schedule now offset s).0 offset)).1
unfolding run callback check_all
run_step now later offset s = refl

after_step :
    (b : Bool) (n : ℕ) (es : List Effect)
    → (if b then es else []) ++ [] ++ repeat n es ≡ repeat (if b then suc n else n) es
after_step true n es = simp append-nil
after_step false n es = refl

run_one :
    (ts : List TimeOfDay) (offset : ℤ) (s : Schedule) (was : Bool)
    → (run ts (one_schedule (record s { handled = was }) offset)).1
      ≡ repeat (beginnings offset s was ts) (switch_lights s.schedule_action s.internal_ids)
unfolding beginnings
run_one [] offset s was = unfold run in refl
run_one (now ∷ later) offset s was =
    run_step now later offset (record s { handled = was })
    ∙ rw (check_schedule_lem now offset s was, run_one later offset s (is_time now offset s))
        (after_step (is_time now offset s && not was) _ _)

-- A schedule fires once each time that its minute begins, counted over any sequence of clock
-- readings: further readings in the same minute send nothing, and the next day it fires again. It
-- then sends one switch message for each of its lights, in their order.
pub run_fires_on_beginnings :
    (ts : List TimeOfDay) (offset : ℤ) (s : Schedule)
    → (run ts (one_schedule s offset)).1
      ≡ repeat (beginnings offset s s.handled ts) (switch_lights s.schedule_action s.internal_ids)
run_fires_on_beginnings ts offset s = run_one ts offset s s.handled

length-repeat : (n : ℕ) (es : List Effect) → length (repeat n es) ≡ n * length es
length-repeat zero es = omega arith
length-repeat (suc n) es = grind (arith, length-append es (repeat n es), length-repeat n es)

check_all_cons :
    (now : TimeOfDay) (offset : ℤ) (s : Schedule) (ss : List Schedule)
    → check_all now offset (s ∷ ss) ≡ (
      (check_schedule now offset s).0 ∷ (check_all now offset ss).0,
      (check_schedule now offset s).1 ++ (check_all now offset ss).1,
    )
unfolding check_all
check_all_cons now offset s ss = refl

-- What the schedules of a manager send over a sequence of readings, each by itself.
pub sent_by_each : ℤ → List TimeOfDay → List Schedule → ℕ
sent_by_each offset ts [] = 0
sent_by_each offset ts (s ∷ ss) =
    length (run ts (one_schedule s offset)).1 + sent_by_each offset ts ss

run_step-length :
    (now : TimeOfDay) (later : List TimeOfDay) (offset : ℤ) (s : Schedule)
    → length (run (now ∷ later) (one_schedule s offset)).1
      ≡ length (check_schedule now offset s).1
        + length (run later (one_schedule (check_schedule now offset s).0 offset)).1
run_step-length now later offset s = omega (
  arith,
  ap length (run_step now later offset s),
  length-append ((check_schedule now offset s).1 ++ [])
      (run later (one_schedule (check_schedule now offset s).0 offset)).1,
  ap length (append-nil (check_schedule now offset s).1),
)

sent_by_each_step :
    (now : TimeOfDay) (later : List TimeOfDay) (offset : ℤ) (ss : List Schedule)
    → sent_by_each offset (now ∷ later) ss
      ≡ length (check_all now offset ss).1 + sent_by_each offset later (check_all now offset ss).0
unfolding sent_by_each
sent_by_each_step now later offset [] = unfold check_all in omega arith
sent_by_each_step now later offset (s ∷ ss) =
    let (s', es) = check_schedule now offset s in
    let head : check_all now offset (s ∷ ss)
        ≡ (s' ∷ (check_all now offset ss).0, es ++ (check_all now offset ss).1) =
      check_all_cons now offset s ss in
    rw head (
      omega (
        arith,
        run_step-length now later offset s,
        sent_by_each_step now later offset ss,
        length-append es (check_all now offset ss).1,
      ))

none_sent : (offset : ℤ) (ss : List Schedule) → sent_by_each offset [] ss ≡ 0
unfolding sent_by_each run
none_sent offset [] = refl
none_sent offset (s ∷ ss) = omega (arith, none_sent offset ss)

run_all_step :
    (now : TimeOfDay) (later : List TimeOfDay) (offset : ℤ) (ss : List Schedule)
    → (run (now ∷ later) (record { schedules = ss; utc_offset = offset })).1
      ≡ (check_all now offset ss).1
        ++ (run later (record { schedules = (check_all now offset ss).0; utc_offset = offset })).1
unfolding run callback
run_all_step now later offset ss = refl

-- The schedules of a manager do not disturb one another: over any sequence of readings it sends as
-- many messages as its schedules would send if each were alone.
pub run-length :
    (ts : List TimeOfDay) (offset : ℤ) (ss : List Schedule)
    → length (run ts (record { schedules = ss; utc_offset = offset })).1 ≡ sent_by_each offset ts ss
run-length [] offset ss = unfold run in sym (none_sent offset ss)
run-length (now ∷ later) offset ss = omega (
  arith,
  ap length (run_all_step now later offset ss),
  length-append (check_all now offset ss).1
      (run later (record { schedules = (check_all now offset ss).0; utc_offset = offset })).1,
  run-length later offset (check_all now offset ss).0,
  sent_by_each_step now later offset ss,
)

not_time :
    (now : TimeOfDay) (offset : ℤ) (s : Schedule)
    → now.hours < 24
    → (convert_hours_to_my_timezone s.start_hours offset ≤ℤ negsuc 0)
      ⊎ (pos 24 ≤ℤ convert_hours_to_my_timezone s.start_hours offset)
    → is_time now offset s ≡ false
unfolding is_time
not_time now offset s h out =
    let due = convert_hours_to_my_timezone s.start_hours offset in
    ground (arith, eq_ℤ_iff (pos now.hours) due)

no_beginnings :
    (ts : List TimeOfDay) (offset : ℤ) (s : Schedule) (was : Bool)
    → All (λ t. t.hours < 24) ts
    → (convert_hours_to_my_timezone s.start_hours offset ≤ℤ negsuc 0)
      ⊎ (pos 24 ≤ℤ convert_hours_to_my_timezone s.start_hours offset)
    → beginnings offset s was ts ≡ 0
unfolding beginnings
no_beginnings [] offset s was h out = refl
no_beginnings (now ∷ later) offset s was h out =
    rw (not_time now offset s h.0 out) (no_beginnings later offset s false h.1 out)

-- A schedule whose start hour and the offset add up to an hour before 0 or from 24 on is never
-- fired by any clock, although the sum taken modulo 24 would be a time of the day.
pub never_fires :
    (ts : List TimeOfDay) (offset : ℤ) (s : Schedule)
    → All (λ t. t.hours < 24) ts
    → (convert_hours_to_my_timezone s.start_hours offset ≤ℤ negsuc 0)
      ⊎ (pos 24 ≤ℤ convert_hours_to_my_timezone s.start_hours offset)
    → (run ts (one_schedule s offset)).1 ≡ []
never_fires ts offset s h out =
    run_one ts offset s s.handled ∙ rw (no_beginnings ts offset s s.handled h out)

-- One call of the callback, for one schedule.
pub callback_fires :
    (now : TimeOfDay) (offset : ℤ) (s : Schedule)
    → (callback now (one_schedule s offset)).1 ≡ (
        if is_time now offset s && not s.handled
        then switch_lights s.schedule_action s.internal_ids
        else [])
unfolding callback check_all
callback_fires now offset s =
    append-nil (check_schedule now offset s).1
    ∙ ap (λ r. r.1) (check_schedule_lem now offset s s.handled)
