-- ===== src/Tests/Configured.antt =====
-- Configuration files at concrete inputs.
use homecontrol_server.Common.{
  ◌≡◌, ◌↔◌, ◌⊎◌, refl, pos, negsuc, false, codes, List, [], ◌∷◌, none, some, arith,
}
use homecontrol_server.Json.Objects.{object, set_all}
use homecontrol_server.Schedule.{lightswitch_on}
use homecontrol_server.Lights.{ConfigurationLights}
use homecontrol_server.Configuration.{
  Configuration, new_configuration, load_configuration, no_sonos, no_hue, no_tesla, light_in,
  read_telldus, read_philips_hue, read_config_file,
}
use homecontrol_server.Configuration.Lists.{Each, AnyFails, read_lights_lem}
use homecontrol_server.Configuration.Sections.{HasSection, load_configuration_defined_iff}
use homecontrol_server.Configuration.Document.{document, light_members}
use homecontrol_server.Configuration.Document.Entries.{Spelled}
use homecontrol_server.Configuration.Document.RoundTrip.{new_configuration-document}
use homecontrol_server.Tests.JsonTree.{
  Tree, tree_json, tree_laws, tree_read_laws, parse-encode, elements, member, null_value, text,
  member_of, elements_of,
}

abbrev one : ConfigurationLights
one = record { internal_id = 1001; id = 1; name = codes "one" }

abbrev home : Configuration
home = record {
  sonos = no_sonos;
  philips_hue = record { ip = codes "127.0.0.1"; key = codes "key"; lights = one ∷ [] };
  telldus = one ∷ [];
  remote_manager = 18 ∷ [];
  sensor_manager = record { internal_id = 1030; id = negsuc 0; name = codes "office" } ∷ [];
  schedule_manager = record {
    schedules =
        record {
          start_hours = 22;
          start_minutes = 15;
          schedule_action = lightswitch_on;
          internal_ids = 1001 ∷ [];
          handled = false;
        }
        ∷ [];
    utc_offset = pos 2;
  };
  tesla_manager = no_tesla;
}

home-Spelled : Spelled home
home-Spelled = record {
  hue_spelled = omega arith;
  telldus_spelled = omega arith;
  remote_spelled = omega arith;
  sensors_spelled = omega arith;
  schedules_spelled = ((omega arith, omega arith, refl, omega arith, refl), tt);
  tesla_spelled = omega arith;
}

new_configuration-document_example :
    new_configuration tree_json (tree_json.serialize (document tree_json home)) ≡ some home
new_configuration-document_example =
    new_configuration-document tree_json tree_laws tree_read_laws home
      (tree_json.serialize (document tree_json home)) (parse-encode (document tree_json home))
      home-Spelled

-- A lamp whose name is missing.
abbrev nameless : Tree
nameless =
    member (member null_value (codes "InternalId") (tree_json.number (pos 3))) (codes "id")
      (tree_json.number (pos 1))

abbrev two_lights : List Tree
two_lights = object tree_json (light_members tree_json one) ∷ nameless ∷ []

abbrev hue : Tree
hue =
    object tree_json
      ((codes "ip", text (codes "127.0.0.1")) ∷ (codes "Lights", elements two_lights) ∷ [])

read_lights_example :
    ((l : List ConfigurationLights) × Each (light_in tree_json) two_lights l
      × (read_telldus tree_json (some hue) ≡ l))
    ⊎ (AnyFails (light_in tree_json) two_lights
        × (read_telldus tree_json (some hue) ≡ [])
        × (read_philips_hue tree_json (some hue) ≡ no_hue))
unfolding set_all member_of elements elements_of
read_lights_example = read_lights_lem tree_json hue (elements two_lights) two_lights refl refl refl

load_configuration_defined_example :
    ((c : Configuration) × (load_configuration tree_json none ≡ some c))
    ↔ HasSection tree_json (codes "RemoteManager") (read_config_file none)
load_configuration_defined_example = load_configuration_defined_iff tree_json none
