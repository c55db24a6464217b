-- ===== src/Program/Wiring.antt =====
-- Who hears of what: the program's subscriptions, and what its main loop carries.
use homecontrol_server.Common.{
  ℕ, ◌≡◌, refl, sym, ap, ◌∙◌, Bool, false, ◌&&◌, ◌||◌, to_int, List, [], ◌∷◌, ◌++◌, map, some, ◌==◌,
  if◌then◌else◌, arith, get_elem?,
}
use homecontrol_server.CommandLine
use homecontrol_server.Data.Message.{Message}
use homecontrol_server.Data.Meta.{
  MessageId, id_eq, id_of_code, light_state, lights, blootooth_device, presence, mandolyn_sensor,
  sensor, sensors, command_line,
}
use homecontrol_server.Lights.Hue
use homecontrol_server.Network.Requests
use homecontrol_server.Presence
use homecontrol_server.Program.{add_runtime, start_threads}
use homecontrol_server.Queue.{empty}
use homecontrol_server.Remote.Manager.{subscribe_to}
use homecontrol_server.Runtime.{Mailbox}
use homecontrol_server.Runtime.Routing.{register_runtime, process_messages}
use homecontrol_server.Runtime.Routing.Delivery.{all_sent, subscribed, delivers_to_subscribers}
use homecontrol_server.Sensors
use homecontrol_server.Subscription.{SubscriptionData, is_subscribed}
use homecontrol_server.Subscription
use homecontrol_server.Subscription.Laws.{subscribe_all}
use homecontrol_server.Telldus

-- The messages that the remote peers get by the configuration.
unfoldable pub forwards : List ℕ → MessageId → Bool
forwards [] id = false
forwards (n ∷ ns) id = id_eq (id_of_code (to_int n)) id || forwards ns id

-- The messages that each runtime asks for, by its place: 0 remote, 1 Hue, 2 presence, 3 sensors, 4 JSON,
-- 5 HTTP, 6 network requests, 7 command line, 8 Telldus, 9 schedules.
abbrev pub asks : List ℕ → ℕ → MessageId → Bool
asks ids r id =
    (0 == r && forwards ids id)
    || ((1 == r && (id_eq light_state id || id_eq lights id))
        || ((2 == r && (id_eq blootooth_device id || id_eq presence id))
            || ((3 == r && (id_eq mandolyn_sensor id || (id_eq sensor id || id_eq sensors id)))
                || ((6 == r && id_eq mandolyn_sensor id)
                    || ((7 == r && id_eq command_line id)
                        || (8 == r && (id_eq command_line id || id_eq light_state id)))))))

relayed : List ℕ → List SubscriptionData
relayed [] = []
relayed (n ∷ ns) = record { id = id_of_code (to_int n); runtime = 0 } ∷ relayed ns

abbrev fixed : List SubscriptionData
fixed =
    record { id = light_state; runtime = 1 }
    ∷ record { id = lights; runtime = 1 }
    ∷ record { id = blootooth_device; runtime = 2 }
    ∷ record { id = presence; runtime = 2 }
    ∷ record { id = mandolyn_sensor; runtime = 3 }
    ∷ record { id = sensor; runtime = 3 }
    ∷ record { id = sensors; runtime = 3 }
    ∷ record { id = mandolyn_sensor; runtime = 6 }
    ∷ record { id = command_line; runtime = 7 }
    ∷ record { id = command_line; runtime = 8 }
    ∷ record { id = light_state; runtime = 8 }
    ∷ []

subscribe_to-all :
    (ids : List ℕ) (ts : List SubscriptionData)
    → subscribe_to 0 (map to_int ids) ts ≡ subscribe_all ts (relayed ids)
unfolding subscribe_to relayed subscribe_all
subscribe_to-all [] ts = refl
subscribe_to-all (n ∷ ns) ts = subscribe_to-all ns _

subscribe_all-join :
    (ts ss us : List SubscriptionData)
    → subscribe_all ts (ss ++ us) ≡ subscribe_all (subscribe_all ts ss) us
unfolding subscribe_all
subscribe_all-join ts [] us = refl
subscribe_all-join ts (s ∷ ss) us = subscribe_all-join (Subscription.subscribe ts s) ss us

subscribers_lem :
    (ids : List ℕ) → (start_threads ids).subscribers ≡ subscribe_all [] (relayed ids ++ fixed)
unfolding start_threads add_runtime register_runtime Hue.subscriptions Presence.subscriptions
    Sensors.subscriptions Requests.subscriptions CommandLine.subscriptions Telldus.subscriptions
    subscribe_all
subscribers_lem ids =
    ap (λ ts. subscribe_all ts fixed) (subscribe_to-all ids [])
    ∙ sym (subscribe_all-join [] (relayed ids) fixed)

is_subscribed-relayed :
    (ids : List ℕ) (ts : List SubscriptionData) (r : ℕ) (id : MessageId)
    → is_subscribed (relayed ids ++ ts) (record { id = id; runtime = r })
      ≡ ((0 == r && forwards ids id) || is_subscribed ts (record { id = id; runtime = r }))
unfolding is_subscribed relayed forwards
is_subscribed-relayed [] ts r id = ground arith
is_subscribed-relayed (n ∷ ns) ts r id = ground (arith, is_subscribed-relayed ns ts r id)

one : (a e x : Bool) → ((a && e) || x) ≡ ((e && a) || x)
one a e x = ground arith

two : (a b e x : Bool) → ((a && e) || ((b && e) || x)) ≡ ((e && (a || b)) || x)
two a b e x = ground arith

three :
    (a b c e x : Bool) → ((a && e) || ((b && e) || ((c && e) || x))) ≡ ((e && (a || (b || c))) || x)
three a b c e x = ground arith

last_two : (a b e : Bool) → ((a && e) || ((b && e) || false)) ≡ (e && (a || b))
last_two a b e = ground arith

is_subscribed-fixed :
    (ids : List ℕ) (r : ℕ) (id : MessageId)
    → ((0 == r && forwards ids id) || is_subscribed fixed (record { id = id; runtime = r }))
      ≡ asks ids r id
unfolding is_subscribed
is_subscribed-fixed ids r id =
    rw
      (
        last_two (id_eq command_line id) (id_eq light_state id) (8 == r),
        one (id_eq command_line id) (7 == r) _,
        one (id_eq mandolyn_sensor id) (6 == r) _,
        three (id_eq mandolyn_sensor id) (id_eq sensor id) (id_eq sensors id) (3 == r) _,
        two (id_eq blootooth_device id) (id_eq presence id) (2 == r) _,
        two (id_eq light_state id) (id_eq lights id) (1 == r) _,
      )
      refl

-- The messages that a runtime asks for.
unfoldable pub asked_for : List ℕ → ℕ → List Message → List Message
asked_for ids r [] = []
asked_for ids r (m ∷ ms) =
    let rest = asked_for ids r ms in if asks ids r m.id then m ∷ rest else rest

subscribed-asked_for :
    (ids : List ℕ) (r : ℕ) (ms : List Message)
    → subscribed (relayed ids ++ fixed) r ms ≡ asked_for ids r ms
unfolding subscribed asked_for
subscribed-asked_for ids r [] = refl
subscribed-asked_for ids r (m ∷ ms) =
    rw
      (
        is_subscribed-relayed ids fixed r m.id ∙ is_subscribed-fixed ids r m.id,
        subscribed-asked_for ids r ms,
      )
      refl

-- In the program of any configuration, one run of `ProcessMessages` gives to the runtime at each place,
-- behind what it had received, every message that some runtime has sent and that it asks for, once, in
-- the order of the senders and of their messages, and nothing is left to send.
pub program_delivers :
    (ids : List ℕ) (boxes : List Mailbox) (r : ℕ) (c : Mailbox)
    → get_elem? boxes r ≡ some c
    → get_elem? (process_messages (start_threads ids).subscribers boxes) r
      ≡ some (record {
        rx = record {
          items = c.rx.items ++ asked_for ids r (all_sent (start_threads ids).subscribers boxes);
        };
        tx = empty;
      })
program_delivers ids boxes r c g = rw (subscribers_lem ids) (
    delivers_to_subscribers (relayed ids ++ fixed) boxes r c g
    ∙ rw (subscribed-asked_for ids r (all_sent (subscribe_all [] (relayed ids ++ fixed)) boxes))
        refl)
