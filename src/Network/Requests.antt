-- ===== src/Network/Requests.antt =====
-- homecontrol/networkMessageHandler.cpp: two requests over the network for the JSON of a sensor. The
-- world is what the JSON manager has sent; the messages that answer it in time are an argument.
use homecontrol_server.Common.{
  ℕ, Text, codes, text_eq, List, [], ◌∷◌, ◌++◌, Option, none, some, if◌then◌else◌,
}
use homecontrol_server.Data.Meta.{mandolyn_sensor}
use homecontrol_server.Data.Message.{Message, Effect}
use homecontrol_server.Json.{JsonLib}
use homecontrol_server.JsonManager.{get_sensor}
use homecontrol_server.Network.Receiving.{NetworkReceive}
use homecontrol_server.Network.Sending.{delimiter}
use homecontrol_server.Subscription.{SubscriptionData, subscribe}

-- The id of the sensor that a message asks for.
pub sensor_id : Text → Option ℕ
sensor_id message =
    if text_eq message (codes "Get1" ++ delimiter)
    then some 1030
    else if text_eq message (codes "Get2" ++ delimiter)
    then some 1031
    else none

module _ (j : JsonLib) (n : ℕ) (answered : List Message) where
  pub receive : NetworkReceive (List Effect)
  unfolding sensor_id
  receive sent message = elim (sensor_id message) [
    | none ↦ ([], sent)
    | some id ↦
        let (es, sensor) = get_sensor j n id answered in (j.serialize sensor ∷ [], sent ++ es)
  ]

-- The subscription of the constructor; the messages that come with it are not looked at.
unfoldable pub subscriptions : ℕ → List SubscriptionData → List SubscriptionData
unfolding subscribe
subscriptions me subscribers = subscribe subscribers (record { id = mandolyn_sensor; runtime = me })

pub handle_message : Message → List Effect
handle_message m = []
