-- ===== src/Lights/Telldus/Remote.antt =====
-- The remote Telldus lamps take over what is written.
use homecontrol_server.Common.{
  ℕ, List, [], ◌∷◌, ◌++◌, map, append_assoc, append-nil, ◌==◌, if◌then◌else◌, ◌≡◌, sym, ap,
  Bool-cases, inl, inr,
}
use homecontrol_server.Data.Meta.{id_eq, cmd_eq, write, light_state, telldus_device_set_state}
use homecontrol_server.Data.Devices.{LightState, light_state_eq_on, MessageLightState}
use homecontrol_server.Data.Message.{Effect, send, message, light}
use homecontrol_server.Lights.{Light, update_lamps, state_of}
use homecontrol_server.Lights.Telldus.{
  remote_telldus, remote_set_light_state, telldus_handle_message,
}

abbrev pub set_state : ℕ → LightState → Light → Light
set_state n s l = if n == l.id then record l { state = s } else l

-- One message for each lamp with the id.
pub remote_messages : ℕ → LightState → List Light → List Effect
remote_messages n s [] = []
remote_messages n s (l ∷ ls) =
    let rest = remote_messages n s ls in
    if n == l.id
    then send (
        message write telldus_device_set_state
          (light (record { id = l.lamp_id; is_on = light_state_eq_on s; name = [] })))
      ∷ rest
    else rest

update_lamps-remote :
    (n : ℕ) (s : LightState) (ls : List Light) (sent : List Effect)
    → update_lamps remote_telldus n s ls sent
      ≡ (map (set_state n s) ls, sent ++ remote_messages n s ls)
unfolding update_lamps remote_telldus remote_messages
update_lamps-remote n s [] sent = ap (λ t. ([], t)) (sym (append-nil sent))
update_lamps-remote n s (l ∷ ls) sent = elim (Bool-cases (n == l.id)) [
  | inl e ↦ rw e (
      rw (update_lamps-remote n s ls (remote_set_light_state sent l.lamp_id s).1)
        (simp append_assoc))
  | inr e ↦ rw e (rw (update_lamps-remote n s ls sent))
]

-- A write sets the state of every lamp with the id, leaves the others, and sends one message for
-- each lamp that it sets, in their order, with the number of the lamp and its new state.
pub telldus_write :
    (lamps : List Light) (v : MessageLightState)
    → telldus_handle_message lamps (message write light_state (light v)) ≡ (
      map (set_state v.id (state_of v.is_on)) lamps,
      remote_messages v.id (state_of v.is_on) lamps,
    )
unfolding telldus_handle_message id_eq cmd_eq
telldus_write lamps v = update_lamps-remote v.id (state_of v.is_on) lamps []
