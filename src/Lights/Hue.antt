-- ===== src/Lights/Hue.antt =====
-- homecontrol/HueManager.cpp. The bridge is behind `ILightControl`, which `HueClient` implements.
pub mod Lamps
pub mod Client
use homecontrol_server.Common.{
  ℕ, Bool, true, false, Text, List, [], ◌∷◌, ◌++◌, map, Option, none, some, ◌==◌, if◌then◌else◌,
}
use homecontrol_server.Subscription.{SubscriptionData}
use homecontrol_server.Subscription
use homecontrol_server.Data.Meta.{
  cmd_eq, id_eq, write, read, answer, read_with_direct_answer, light_state, lights,
}
use homecontrol_server.Data.Devices.{LightState, on, off, light_state_eq_on, MessageLightState}
use homecontrol_server.Data.Message.{
  Message, Effect, send, message, light, light_list, as_light, answer_with,
}
use homecontrol_server.Lights.{
  Light, LightControl, ConfigurationLights, add_lights, update_state, state_of, told,
}

-- The lamps, and the world of the bridge.
pub record HueManager (W : Type 0) : Type 0 where
  pub lamps : List Light
  pub bridge : W

-- `std::find_if` on the lamps.
unfoldable pub get_lamp : ℕ → List Light → Option Light
get_lamp n [] = none
get_lamp n (l ∷ ls) = if n == l.id then some l else get_lamp n ls

module _ {W : Type 0} where
  pub new_hue_manager : List ConfigurationLights → W → HueManager W
  unfolding add_lights
  new_hue_manager cs w = record { lamps = add_lights cs; bridge = w }

module _ {W : Type 0} (control : LightControl W) where
  -- `SetLamp`: the first lamp with the id is updated in place.
  pub set_lamp : ℕ → LightState → List Light → W → List Light × W
  unfolding update_state
  set_lamp n s [] w = ([], w)
  set_lamp n s (l ∷ ls) w =
      let (l', w') = update_state control l s w in
      let (ls', w'') = set_lamp n s ls w in if n == l.id then (l' ∷ ls, w') else (l ∷ ls', w'')

  pub handle_message : HueManager W → Message → HueManager W × List Effect
  unfolding set_lamp get_lamp
  handle_message s m =
      if id_eq m.id light_state
      then elim (as_light m.value) [
        | none ↦ (s, [])
        | some wanted ↦
            if cmd_eq m.cmd write
            then (let (ls, w) = set_lamp wanted.id (state_of wanted.is_on) s.lamps s.bridge in
                (record { lamps = ls; bridge = w }, []))
            else if cmd_eq m.cmd read
            then elim (get_lamp wanted.id s.lamps) [
              | none ↦ (s, [])
              | some l ↦ (s, send (message answer light_state (light (told l l.name))) ∷ [])
            ]
            else if cmd_eq m.cmd read_with_direct_answer
            then elim (get_lamp wanted.id s.lamps) [
              | none ↦ (s, [])
              | some l ↦ (s, answer_with m (message answer light_state (light (told l l.name))))
            ]
            else (s, [])
      ]
      else if id_eq m.id lights
      then if cmd_eq m.cmd read_with_direct_answer
        then (
          s,
          answer_with m (message answer lights (light_list (map (λ l. told l l.name) s.lamps))),
        )
        else (s, [])
      else (s, [])

-- The subscriptions of the constructor.
unfoldable pub subscriptions : ℕ → List SubscriptionData → List SubscriptionData
subscriptions me subscribers =
    Subscription.subscribe
      (Subscription.subscribe subscribers (record { id = light_state; runtime = me }))
      (record { id = lights; runtime = me })
