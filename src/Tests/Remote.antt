-- ===== src/Tests/Remote.antt =====
-- Remote peers at concrete inputs.
use homecontrol_server.Common.{
  pos, ◌≡◌, refl, true, false, Text, codes, text_eq, List, [], ◌∷◌, ◌++◌, none, some, get_elem?,
  if◌then◌else◌,
}
use homecontrol_server.Common.OrdMap.{find, ℕ_key}
use homecontrol_server.Data.Meta.{
  write, subscribe, id_of_code, id_eq, cmd_eq, cmd_of_code, arctech_switch, mandolyn_sensor,
}
use homecontrol_server.Data.Message.{Message, message, number, mandolyn, plain_message}
use homecontrol_server.Subscription.{SubscriptionData}
use homecontrol_server.Subscription.Laws.{subscribe_all}
use homecontrol_server.Queue.{empty}
use homecontrol_server.Runtime.{Mailbox}
use homecontrol_server.Runtime.Routing.{process_messages}
use homecontrol_server.Runtime.Routing.Delivery.{all_sent, subscribed}
use homecontrol_server.Json.{JsonLib}
use homecontrol_server.Network.Sending.{new_connection}
use homecontrol_server.Network.Connections.{Handler}
use homecontrol_server.Network.Connections.Sends.{given_to_send}
use homecontrol_server.Remote.Wire.RoundTrip.{message_of_json-as_json}
use homecontrol_server.Tests.JsonTree.{tree_json, tree_laws}
use homecontrol_server.Remote.Wire.{message_of_json, as_json}
use homecontrol_server.Remote.Manager.{receive, relay}
use homecontrol_server.Remote.Manager.Peers.{peer_gets_messages, relay_lem}

-- Every text is an object whose members are their own names: the command 0, the kind 21 and the
-- value 16.
abbrev asks_for_16 : JsonLib
asks_for_16 = record {
  Json = Text;
  parse = λ s. some s;
  field = λ v name. some name;
  is_null = λ v. false;
  is_integer = λ v. true;
  as_integer = λ v. some (
      if text_eq v (codes "Command")
      then pos 0
      else if text_eq v (codes "CommandType")
      then pos 21
      else pos 16);
  as_double = λ v. some 0;
  as_string = λ v. some v;
  as_bool = λ v. some true;
  has_field = λ v n. true;
  is_boolean = λ v. true;
  is_array = λ v. false;
  as_array = λ v. none;
  null = [];
  with_field = λ v name x. v ++ name ++ x;
  number = λ n. codes "n";
  double_number = λ d. codes "d";
  string = λ s. s;
  boolean = λ b. [];
  array = λ vs. [];
  serialize = λ v. v;
}

abbrev asks : Message
asks = message write subscribe (number (pos 16))

abbrev switched : Message
switched = plain_message write arctech_switch

abbrev boxes : List Mailbox
boxes =
    record { rx = empty; tx = record { items = switched ∷ [] } }
    ∷ record { rx = empty; tx = empty }
    ∷ []

peer_gets_messages_example :
    (ts : List SubscriptionData) × (receive asks_for_16 1 (codes "{}") (subscribe_all [] [])
      ≡ some (ts, []))
    × (get_elem? (process_messages ts boxes) 1
        ≡ some (record {
          rx = record {
            items =
                subscribed
                  (record { id = id_of_code (pos 16); runtime = 1 } ∷ [])
                  1
                  (all_sent ts boxes);
          };
          tx = empty;
        }))
peer_gets_messages_example =
    peer_gets_messages asks_for_16 1 (codes "{}") [] asks (pos 16) boxes
      (record { rx = empty; tx = empty })
      (unfold message_of_json id_of_code cmd_of_code id_eq in refl) (unfold cmd_eq id_eq in refl)
      refl refl

abbrev connected : Handler
connected = record {
  connections = (1, new_connection 100) ∷ (2, new_connection 200) ∷ [];
  disconnected = empty;
  handle = 3;
}

abbrev measured : Message
measured =
    message write mandolyn_sensor (mandolyn (record { id = pos 11; temp = 0; humidity = pos 40 }))

relay_lem_example :
    (h' : Handler) × (relay asks_for_16 (λ d. d) measured connected ≡ some h')
    × (find 2 h'.connections
        ≡ given_to_send
            (codes
              "CommandnCommandTypenValue$typeMessanger.MandolynSensor, MessangerIdnTempdHumidityn")
            (find 2 connected.connections))
relay_lem_example =
    relay_lem asks_for_16 (λ d. d) measured connected
      (codes "CommandnCommandTypenValue$typeMessanger.MandolynSensor, MessangerIdnTempdHumidityn") 2
      (unfold as_json id_eq in refl)

message_of_json-as_json_example :
    (text : Text) × (as_json tree_json (λ d. d) measured ≡ some text)
    × (message_of_json tree_json text ≡ some measured)
message_of_json-as_json_example =
    message_of_json-as_json tree_json tree_laws (λ d. d)
      (record { id = pos 11; temp = 0; humidity = pos 40 }) refl
