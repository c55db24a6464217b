-- ===== src/Remote/Manager/Peers.antt =====
-- What a peer gets that has asked for an id, and what is sent to the peers.
use homecontrol_server.Common.{
  ℕ, ℤ, ◌≡◌, sym, ap, ◌∙◌, true, ◌&&◌, Text, List, [], ◌∷◌, ◌++◌, some, get_elem?,
}
use homecontrol_server.Common.OrdMap.{find, ℕ_key}
use homecontrol_server.Data.Meta.{id_eq, cmd_eq, id_of_code, write, subscribe}
use homecontrol_server.Data.Devices.{Double}
use homecontrol_server.Data.Message.{Message, as_number}
use homecontrol_server.Subscription.{SubscriptionData}
use homecontrol_server.Subscription
use homecontrol_server.Subscription.Laws.{subscribe_all, subscribe_all-append}
use homecontrol_server.Queue.{empty}
use homecontrol_server.Runtime.{Mailbox}
use homecontrol_server.Runtime.Routing.{process_messages}
use homecontrol_server.Runtime.Routing.Delivery.{all_sent, subscribed, delivers_to_subscribers}
use homecontrol_server.Json.{JsonLib}
use homecontrol_server.Network.Connections.{Handler, send_to_all_connections}
use homecontrol_server.Network.Connections.Sends.{given_to_send, find-send_to_all_connections}
use homecontrol_server.Remote.Wire.{message_of_json, as_json}
use homecontrol_server.Remote.Manager.{receive, handle_peer_message, relay}

module _ (j : JsonLib) where
  -- The manager's thread registers for the id that a peer asks for.
  receive-subscribe :
      (self : ℕ) (text : Text) (ts : List SubscriptionData) (m : Message) (n : ℤ)
      → message_of_json j text ≡ some m
      → (cmd_eq m.cmd write && id_eq m.id subscribe) ≡ true
      → as_number m.value ≡ some n
      → receive j self text ts
        ≡ some (Subscription.subscribe ts (record { id = id_of_code n; runtime = self }), [])
  unfolding receive handle_peer_message
  receive-subscribe self text ts m n h e v = rw (h, e, v)

  -- Once a peer has asked for an id, one run of `ProcessMessages` gives the remote manager, besides
  -- what it was registered for, every message with this id that any thread has sent: each once, in
  -- the order of the senders and of their messages.
  pub peer_gets_messages :
      (self : ℕ) (text : Text) (ss : List SubscriptionData) (m : Message) (n : ℤ)
      (boxes : List Mailbox) (c : Mailbox)
      → message_of_json j text ≡ some m
      → (cmd_eq m.cmd write && id_eq m.id subscribe) ≡ true
      → as_number m.value ≡ some n
      → get_elem? boxes self ≡ some c
      → (ts : List SubscriptionData) × (receive j self text (subscribe_all [] ss) ≡ some (ts, []))
        × (get_elem? (process_messages ts boxes) self
            ≡ some (record {
              rx = record {
                items =
                    c.rx.items
                    ++ subscribed
                        (ss ++ record { id = id_of_code n; runtime = self } ∷ [])
                        self
                        (all_sent ts boxes);
              };
              tx = empty;
            }))
  peer_gets_messages self text ss m n boxes c h e v g =
      let wanted : SubscriptionData = record { id = id_of_code n; runtime = self } in
      (
        subscribe_all [] (ss ++ wanted ∷ []),
        receive-subscribe self text (subscribe_all [] ss) m n h e v
            ∙ ap (λ ts. some (ts, [])) (sym (subscribe_all-append [] ss wanted)),
        delivers_to_subscribers (ss ++ wanted ∷ []) boxes self c g,
      )

  -- A message with a JSON form is given once to every connection to send, and to no other.
  pub relay_lem :
      (as_float : Double → Double) (m : Message) (h : Handler) (text : Text) (k : ℕ)
      → as_json j as_float m ≡ some text
      → (h' : Handler) × (relay j as_float m h ≡ some h')
        × (find k h'.connections ≡ given_to_send text (find k h.connections))
  unfolding relay
  relay_lem as_float m h text k e =
      (send_to_all_connections text h, rw e, find-send_to_all_connections k text h)
