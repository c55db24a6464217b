-- ===== src/Lights.antt =====
-- homecontrol/Light.h: a configured lamp behind an `ILightControl`, and the loops over lamps that
-- the light managers share.
pub mod Hue
pub mod Telldus
use homecontrol_server.Common.{
  ℕ, Bool, true, false, Text, List, [], ◌∷◌, ◌++◌, Option, none, some, ◌==◌, if◌then◌else◌,
}
use homecontrol_server.Data.Devices.{LightState, on, off, light_state_eq_on, MessageLightState}

-- ILightControl.h. `W` is the state behind the interface: the world of a bridge, or the messages
-- sent so far. `none` means that the call throws.
pub record LightControl (W : Type 0) : Type 0 where
  pub read_light_state : W → ℕ → Option LightState × W
  pub set_light_state : W → ℕ → LightState → Bool × W

pub record Light : Type 0 where
  pub id : ℕ
  pub lamp_id : ℕ
  pub name : Text
  pub state : LightState

-- ConfigurationLights of IGetConfiguration.h.
pub record ConfigurationLights : Type 0 where
  pub internal_id : ℕ
  pub id : ℕ
  pub name : Text

-- The constructor: `m_State()` is the enumerator with the value 0.
abbrev pub new_light : ConfigurationLights → Light
new_light c = record { id = c.internal_id; lamp_id = c.id; name = c.name; state = off }

-- `AddLight` for each configured lamp.
pub add_lights : List ConfigurationLights → List Light
add_lights [] = []
add_lights (c ∷ cs) = new_light c ∷ add_lights cs

abbrev pub state_of : Bool → LightState
state_of true = on
state_of false = off

-- What the managers answer about a lamp, without and with its name.
abbrev pub told : Light → Text → MessageLightState
told l name = record { id = l.id; is_on = light_state_eq_on l.state; name = name }

module _ {W : Type 0} (control : LightControl W) where
  pub update_state : Light → LightState → W → Light × W
  update_state l s w =
      let (success, w') = control.set_light_state w l.lamp_id s in
      (if success then record l { state = s } else l, w')

  pub read_back_state : Light → W → Option Light × W
  read_back_state l w =
      let (found, w') = control.read_light_state w l.lamp_id in
      (elim found [ none ↦ none | some s ↦ some (record l { state = s }) ], w')

  -- `for (auto& lamp : m_Lights) if (id == lamp.GetId()) lamp.UpdateState(state)`.
  pub update_lamps : ℕ → LightState → List Light → W → List Light × W
  unfolding update_state
  update_lamps n s [] w = ([], w)
  update_lamps n s (l ∷ ls) w =
      let (l', w') = if n == l.id then update_state l s w else (l, w) in
      let (ls', w'') = update_lamps n s ls w' in (l' ∷ ls', w'')
