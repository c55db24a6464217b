-- ===== src/Lights/Telldus/Stuck.antt =====
-- The lamps of the command line keep the state `On`: switching off sends the command, but
-- `SetLightState` then returns false, so `UpdateState` does not store the new state.
use homecontrol_server.Common.{
  ℕ, false, codes, List, [], ◌∷◌, ◌++◌, append_assoc, append-nil, ◌==◌, if◌then◌else◌, ◌≡◌, refl,
  sym, ap, arith, Bool-cases, inl, inr, Option, some, none,
}
use homecontrol_server.Data.Meta.{cmd_eq, write, light_state, command_line}
use homecontrol_server.Data.Devices.{LightState, on, off, light_state_eq_on, MessageLightState}
use homecontrol_server.Data.Message.{Message, Effect, send, message, light, string, as_light}
use homecontrol_server.StringTools.{to_decimal}
use homecontrol_server.Lights.{Light, update_lamps, state_of}
use homecontrol_server.Lights.Telldus.{
  command_line_control, command_line_set_light_state, light_command, handle_light,
}

-- The commands that switch the lamps with an id off.
pub off_commands : ℕ → List Light → List Effect
off_commands n [] = []
off_commands n (l ∷ ls) =
    let rest = off_commands n ls in
    if n == l.id
    then send (message write command_line (string (codes "tdtool --off " ++ to_decimal l.lamp_id)))
      ∷ rest
    else rest

update_lamps-off :
    (n : ℕ) (ls : List Light) (sent : List Effect)
    → update_lamps command_line_control n off ls sent ≡ (ls, sent ++ off_commands n ls)
unfolding update_lamps command_line_control off_commands
update_lamps-off n [] sent = ap (λ t. ([], t)) (sym (append-nil sent))
update_lamps-off n (l ∷ ls) sent = elim (Bool-cases (n == l.id)) [
  | inl e ↦ rw e (
      rw (update_lamps-off n ls (command_line_set_light_state sent l.lamp_id off).1)
        (simp append_assoc))
  | inr e ↦ rw e (rw (update_lamps-off n ls sent))
]

-- Switching lamps off sends the command for each lamp with the id, and leaves the stored state of
-- every lamp as it was: a lamp that was on is still reported as on.
pub off_is_not_stored :
    (lamps : List Light) (v : MessageLightState)
    → v.is_on ≡ false
    → handle_light command_line_control lamps (message write light_state (light v))
      ≡ (lamps, off_commands v.id lamps)
unfolding handle_light cmd_eq
off_is_not_stored lamps v h = rw h (update_lamps-off v.id lamps [])

-- Lamp by lamp: a lamp that was on is on.
abbrev pub StaysOn : List Light → List Light → Type 0
StaysOn [] [] = Unit {0}
StaysOn (l ∷ ls) (l' ∷ ls') = (l.state ≡ on → l'.state ≡ on) × StaysOn ls ls'
StaysOn _ _ = ⊥

StaysOn-refl : (ls : List Light) → StaysOn ls ls
StaysOn-refl [] = tt
StaysOn-refl (l ∷ ls) = (λ h. h, StaysOn-refl ls)

StaysOn-trans : (xs ys zs : List Light) → StaysOn xs ys → StaysOn ys zs → StaysOn xs zs
StaysOn-trans [] [] zs h k = k
StaysOn-trans [] (y ∷ ys) zs h k = absurd h
StaysOn-trans (x ∷ xs) [] zs h k = absurd h
StaysOn-trans (x ∷ xs) (y ∷ ys) [] h k = k
StaysOn-trans (x ∷ xs) (y ∷ ys) (z ∷ zs) h k = (λ e. k.0 (h.0 e), StaysOn-trans xs ys zs h.1 k.1)

update_lamps-StaysOn :
    (n : ℕ) (s : LightState) (ls : List Light) (sent : List Effect)
    → StaysOn ls (update_lamps command_line_control n s ls sent).0
unfolding update_lamps command_line_control
update_lamps-StaysOn n s [] sent = tt
update_lamps-StaysOn n s (l ∷ ls) sent = elim (Bool-cases (n == l.id)) [
  | inl e ↦ rw e (
    update_state-on s l,
    update_lamps-StaysOn n s ls (command_line_set_light_state sent l.lamp_id s).1,
  )
  | inr e ↦ rw e (λ h. h, update_lamps-StaysOn n s ls sent)
]
  where
    update_state-on :
        (s : LightState) (l : Light)
        → l.state ≡ on
        → (if light_state_eq_on s then record l { state = s } else l).state ≡ on
    update_state-on on l h = refl
    update_state-on off l h = h

light_command-StaysOn :
    (wanted : MessageLightState) (lamps : List Light) (m : Message)
    → StaysOn lamps (light_command command_line_control wanted lamps m).0
unfolding light_command
light_command-StaysOn wanted lamps m = elim (Bool-cases (cmd_eq m.cmd write)) [
  | inl e ↦ rw e (update_lamps-StaysOn wanted.id (state_of wanted.is_on) lamps [])
  | inr e ↦ ground (arith, StaysOn-refl lamps)
]

handle_light-StaysOn :
    (lamps : List Light) (m : Message) → StaysOn lamps (handle_light command_line_control lamps m).0
handle_light-StaysOn lamps m = by_value (as_light m.value) refl
  where
    by_value :
        (o : Option MessageLightState)
        → as_light m.value ≡ o
        → StaysOn lamps (handle_light command_line_control lamps m).0
    by_value none e = unfold handle_light in rw (e, handle_light) (StaysOn-refl lamps)
    by_value (some wanted) e =
        unfold handle_light in rw (e, handle_light) (light_command-StaysOn wanted lamps m)
