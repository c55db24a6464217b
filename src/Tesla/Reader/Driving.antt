-- ===== src/Tesla/Reader/Driving.antt =====
-- The delay of `isCarDriving`.
use homecontrol_server.Common.{
  ℕ, ◌≤◌, ◌≡◌, Bool, true, false, List, [], ◌∷◌, Option, none, some, arith, ltb, not, if◌then◌else◌,
}
use homecontrol_server.Data.Devices.{Double, is_zero}
use homecontrol_server.Tesla.Reader.{Drive, is_car_driving, driving_timeout, minutes_since}

-- The calls of `isCarDriving`, the latest first: the time and the speed.
pub observe : List (ℕ × Double) → Drive
observe [] = record { driving = false; last_time_drove = 0 }
observe ((now, speed) ∷ earlier) = is_car_driving now speed (observe earlier)

-- The time of the latest call that saw the car move.
pub last_move : List (ℕ × Double) → Option ℕ
last_move [] = none
last_move ((now, speed) ∷ earlier) = if is_zero speed then last_move earlier else some now

abbrev pub Ordered : List (ℕ × Double) → Type 0
Ordered [] = Unit
Ordered ((now, speed) ∷ []) = Unit
Ordered ((now, speed) ∷ (before, s) ∷ earlier) = (before ≤ now) × Ordered ((before, s) ∷ earlier)

abbrev pub moved_recently : ℕ → Option ℕ → Bool
moved_recently now none = false
moved_recently now (some t) = not (ltb driving_timeout (minutes_since now t))

minutes_since_mono : (a b t : ℕ) → a ≤ b → minutes_since a t ≤ minutes_since b t
minutes_since_mono a b t h = omega arith

minutes_since_self : (a : ℕ) → minutes_since a a ≡ 0
minutes_since_self a = omega arith

observed_move :
    (obs : List (ℕ × Double))
    → (observe obs).driving ≡ true
    → last_move obs ≡ some (observe obs).last_time_drove
unfolding observe last_move is_car_driving
observed_move [] h = ground arith
observed_move ((now, speed) ∷ earlier) h = ground (arith, observed_move earlier)

-- With a clock that does not go back, the car counts as driving exactly if it has moved, and the
-- latest call that saw it move is not more than five full minutes ago.
pub driving_iff_recent :
    (now : ℕ) (speed : Double) (earlier : List (ℕ × Double))
    → Ordered ((now, speed) ∷ earlier)
    → (observe ((now, speed) ∷ earlier)).driving
      ≡ moved_recently now (last_move ((now, speed) ∷ earlier))
unfolding observe last_move is_car_driving
driving_iff_recent now speed [] h = ground (arith, minutes_since_self now)
driving_iff_recent now speed ((before, s) ∷ earlier) h = ground (
  arith,
  minutes_since_self now,
  driving_iff_recent before s earlier,
  observed_move ((before, s) ∷ earlier),
  minutes_since_mono before now,
)
