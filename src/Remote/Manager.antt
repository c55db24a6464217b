-- ===== src/Remote/Manager.antt =====
-- homecontrol/RemoteManager.cpp. The subscriptions are the program's list, and `self` is the place of
-- the manager's thread.
pub mod Peers
use homecontrol_server.Common.{
  ℕ, ℤ, Bool, true, false, ◌&&◌, Text, List, [], ◌∷◌, ◌++◌, Option, none, some, ◌>>=◌,
  if◌then◌else◌,
}
use homecontrol_server.Data.Meta.{MessageId, id_eq, cmd_eq, id_of_code, write, subscribe}
use homecontrol_server.Data.Devices.{Double}
use homecontrol_server.Data.Message.{Message, Effect, send, as_number}
use homecontrol_server.Subscription.{SubscriptionData}
use homecontrol_server.Subscription
use homecontrol_server.Json.{JsonLib}
use homecontrol_server.Network.Connections.{Handler, send_to_all_connections}
use homecontrol_server.Remote.Wire.{message_of_json, as_json}

-- The loop of the constructor over the configured ids.
unfoldable pub subscribe_to : ℕ → List ℤ → List SubscriptionData → List SubscriptionData
subscribe_to self [] subscribers = subscribers
subscribe_to self (n ∷ ns) subscribers =
    subscribe_to self ns
      (Subscription.subscribe subscribers (record { id = id_of_code n; runtime = self }))

module _ (j : JsonLib) where
  -- `HandleMessage`: a message of the program goes to all peers.
  pub relay : (Double → Double) → Message → Handler → Option Handler
  relay as_float m h = do text ← as_json j as_float m; some (send_to_all_connections text h)

  -- A message of a peer: it asks for an id, or it goes to the program.
  pub handle_peer_message :
      ℕ → Message → List SubscriptionData → List SubscriptionData × List Effect
  handle_peer_message self m subscribers =
      if cmd_eq m.cmd write && id_eq m.id subscribe
      then elim (as_number m.value) [
        | none ↦ (subscribers, [])
        | some n ↦
            (Subscription.subscribe subscribers (record { id = id_of_code n; runtime = self }), [])
      ]
      else (subscribers, send m ∷ [])

  -- `receive`, in the thread of the connections; `none` means that an exception leaves it.
  pub receive : ℕ → Text → List SubscriptionData → Option (List SubscriptionData × List Effect)
  unfolding handle_peer_message
  receive self text subscribers = do
    m ← message_of_json j text
    some (handle_peer_message self m subscribers)
