-- ===== src/Lights/Hue/Lamps.antt =====
-- What a write does to the lamps of a bridge.
use homecontrol_server.Common.{
  ℕ, true, refl, List, [], ◌∷◌, Option, none, some, ◌==◌, if◌then◌else◌, ◌≡◌, arith,
}
use homecontrol_server.Data.Meta.{
  cmd_eq, id_eq, write, answer, read_with_direct_answer, light_state,
}
use homecontrol_server.Data.Devices.{LightState, MessageLightState}
use homecontrol_server.Data.Message.{answers, message, asking_message, light, Answerer}
use homecontrol_server.Lights.{Light, LightControl, state_of, told}
use homecontrol_server.Lights.Hue.{HueManager, get_lamp, set_lamp, handle_message}

module _ {W : Type 0} (control : LightControl W) where
  abbrev pub written : LightState → W → Option Light → Option Light
  written s w none = none
  written s w (some l) =
      some (if (control.set_light_state w l.lamp_id s).0 then record l { state = s } else l)

  get-set_lamp :
      (n k : ℕ) (s : LightState) (ls : List Light) (w : W)
      → get_lamp k (set_lamp control n s ls w).0
        ≡ (if n == k then written s w (get_lamp k ls) else get_lamp k ls)
  unfolding get_lamp set_lamp
  get-set_lamp n k s [] w = ground arith
  get-set_lamp n k s (l ∷ ls) w = ground (arith, get-set_lamp n k s ls w)

  -- After a write, a direct question about any lamp is answered as follows, and changes nothing.
  -- The lamp that was written shows the wanted state if the bridge took it over, and its old state
  -- if the bridge refused; every other lamp shows its old state; an unknown lamp is not answered.
  pub write-read :
      (s : HueManager W) (v wanted : MessageLightState) (a : Answerer)
      → let after = (handle_message control s (message write light_state (light v))).0 in
        handle_message control after
          (asking_message read_with_direct_answer light_state (light wanted) a)
        ≡ (
          after,
          elim (if v.id == wanted.id
              then written (state_of v.is_on) s.bridge (get_lamp wanted.id s.lamps)
              else get_lamp wanted.id s.lamps) [
                | none ↦ []
                | some l ↦ answers a (message answer light_state (light (told l l.name))) ∷ []
              ],
        )
  unfolding handle_message id_eq cmd_eq
  write-read s v wanted a =
      ground (arith, get-set_lamp v.id wanted.id (state_of v.is_on) s.lamps s.bridge)

  pub handle_message-write :
      (s : HueManager W) (v : MessageLightState)
      → (handle_message control s (message write light_state (light v))).0 ≡ record {
        lamps = (set_lamp control v.id (state_of v.is_on) s.lamps s.bridge).0;
        bridge = (set_lamp control v.id (state_of v.is_on) s.lamps s.bridge).1;
      }
  unfolding handle_message id_eq cmd_eq
  handle_message-write s v = refl

  pub switched : LightState → Option Light → Option Light
  switched s none = none
  switched s (some l) = some (record l { state = s })

  pub switched_twice :
      (s : LightState) (l : Option Light) → switched s (switched s l) ≡ switched s l
  unfolding switched
  switched_twice s none = refl
  switched_twice s (some l) = refl

  -- A bridge that takes over every state.
  abbrev pub Accepts : Type 0
  Accepts = (w : W) (lamp : ℕ) (s : LightState) → (control.set_light_state w lamp s).0 ≡ true

  written-switched :
      Accepts → (s : LightState) (w : W) (l : Option Light) → written s w l ≡ switched s l
  unfolding switched
  written-switched h s w none = refl
  written-switched h s w (some l) = rw (h w l.lamp_id s) refl

  pub get-write :
      Accepts
      → (n k : ℕ) (s : LightState) (ls : List Light) (w : W)
      → get_lamp k (set_lamp control n s ls w).0
        ≡ (if n == k then switched s (get_lamp k ls) else get_lamp k ls)
  get-write h n k s ls w = rw (get-set_lamp n k s ls w, written-switched h s w (get_lamp k ls)) refl
