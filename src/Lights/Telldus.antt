-- ===== src/Lights/Telldus.antt =====
-- homecontrol/TelldusManager.cpp with RemoteTelldus.cpp, and the lamps of
-- homecontrol/TelldusCommandLineManager.cpp. Both have the same loops over their lamps and differ
-- in the control behind them, which sends messages; its state is what has been sent.
pub mod Remote
pub mod Stuck
use homecontrol_server.Common.{
  ℕ, Bool, true, false, Text, codes, List, [], ◌∷◌, ◌++◌, Option, none, some, ◌==◌, if◌then◌else◌,
}
use homecontrol_server.Data.Meta.{
  cmd_eq, id_eq, write, read, answer, read_with_direct_answer, light_state, command_line,
  telldus_device_set_state,
}
use homecontrol_server.Data.Devices.{LightState, on, off, light_state_eq_on, MessageLightState}
use homecontrol_server.Data.Message.{
  Message, Effect, send, message, light, string, as_light, answer_with,
}
use homecontrol_server.StringTools.{to_decimal}
use homecontrol_server.Lights.{Light, LightControl, update_lamps, state_of, told}

-- `RemoteTelldus`: the state cannot be read back, and a change is sent to the remote peer.
remote_set_light_state : List Effect → ℕ → LightState → Bool × List Effect
remote_set_light_state sent lamp s = (
  true,
  sent
      ++ send (
          message write telldus_device_set_state
            (light (record { id = lamp; is_on = light_state_eq_on s; name = [] })))
        ∷ [],
)

pub remote_telldus : LightControl (List Effect)
unfolding remote_set_light_state
remote_telldus = record {
  read_light_state = λ sent lamp. (some off, sent);
  set_light_state = remote_set_light_state;
}

-- `TelldusCommandLineManager::SetLightState`: the result is that the lamp is to be on.
command_line_set_light_state : List Effect → ℕ → LightState → Bool × List Effect
unfolding to_decimal
command_line_set_light_state sent lamp s =
    let start = if light_state_eq_on s then codes "tdtool --on " else codes "tdtool --off " in
    (
      light_state_eq_on s,
      sent ++ send (message write command_line (string (start ++ to_decimal lamp))) ∷ [],
    )

unfoldable pub command_line_control : LightControl (List Effect)
unfolding command_line_set_light_state
command_line_control = record {
  read_light_state = λ sent lamp. (some off, sent);
  set_light_state = command_line_set_light_state;
}

-- `for (auto& lamp : m_Lights) if (id == lamp.GetId()) …` of the two reading commands.
pub tell_lamps : (MessageLightState → List Effect) → ℕ → List Light → List Effect
tell_lamps tell n [] = []
tell_lamps tell n (l ∷ ls) =
    let rest = tell_lamps tell n ls in if n == l.id then tell (told l []) ++ rest else rest

module _ (control : LightControl (List Effect)) where
  light_command : MessageLightState → List Light → Message → List Light × List Effect
  unfolding update_lamps tell_lamps
  light_command wanted lamps m =
      if cmd_eq m.cmd write
      then update_lamps control wanted.id (state_of wanted.is_on) lamps []
      else if cmd_eq m.cmd read
      then (
        lamps,
        tell_lamps (λ t. send (message answer light_state (light t)) ∷ []) wanted.id lamps,
      )
      else if cmd_eq m.cmd read_with_direct_answer
      then (
        lamps,
        tell_lamps (λ t. answer_with m (message answer light_state (light t))) wanted.id lamps,
      )
      else (lamps, [])

  unfoldable pub handle_light : List Light → Message → List Light × List Effect
  unfolding light_command
  handle_light lamps m = elim (as_light m.value) [
    | none ↦ (lamps, [])
    | some wanted ↦ light_command wanted lamps m
  ]

-- `TelldusManager::HandleMessage`.
pub telldus_handle_message : List Light → Message → List Light × List Effect
unfolding handle_light remote_telldus
telldus_handle_message lamps m =
    if id_eq m.id light_state then handle_light remote_telldus lamps m else (lamps, [])
