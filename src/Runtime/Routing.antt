-- ===== src/Runtime/Routing.antt =====
-- homecontrol/ThreadManager.cpp: the main thread carries each sent message to its subscribers.
pub mod Forward
pub mod Delivery
use homecontrol_server.Common.{
  ℕ, zero, suc, ◌+◌, List, [], ◌∷◌, ◌++◌, Option, none, some, get_elem?, modify, length,
}
use homecontrol_server.Data.Message.{Message}
use homecontrol_server.Queue.{Queue, push, pop, empty, size}
use homecontrol_server.Subscription.{SubscriptionData, find_subscribers}
use homecontrol_server.Runtime.{Mailbox}

-- `RegisterRuntime`: a new thread has empty queues, and its place in the list is its name.
unfoldable pub register_runtime : List Mailbox → List Mailbox × ℕ
register_runtime boxes = (boxes ++ record { rx = empty; tx = empty } ∷ [], length boxes)

abbrev pub push_rx : Message → Mailbox → Mailbox
push_rx m b = record b { rx = push b.rx m }

-- `for (auto& threadToPostTo : subscribersToThisMessage)`.
pub post_to : List ℕ → Message → List Mailbox → List Mailbox
post_to [] m boxes = boxes
post_to (r ∷ rs) m boxes = post_to rs m (modify boxes r (push_rx m))

-- `ReceiveMessageFromRuntimeHandler` of the thread at a place.
pub receive_at : ℕ → List Mailbox → Option (Message × List Mailbox)
receive_at i boxes = elim (get_elem? boxes i) [
  | none ↦ none
  | some b ↦ elim (pop b.tx) [
    | none ↦ none
    | some (m, rest) ↦ some (m, modify boxes i (λ c. record c { tx = rest }))
  ]
]

module _ (subscribers : List SubscriptionData) where
  -- `while (auto msg = thread.ReceiveMessageFromRuntimeHandler())`, on fuel.
  pub forward : ℕ → ℕ → List Mailbox → List Mailbox
  forward zero i boxes = boxes
  forward (suc n) i boxes = elim (receive_at i boxes) [
    | none ↦ boxes
    | some (m, boxes') ↦ forward n i (post_to (find_subscribers subscribers m.id) m boxes')
  ]

  tx_size : ℕ → List Mailbox → ℕ
  tx_size i boxes = elim (get_elem? boxes i) [ none ↦ 0 | some b ↦ size b.tx ]

  -- The threads from place `i` on, `k` of them. Each message takes one round.
  pub process_from : ℕ → ℕ → List Mailbox → List Mailbox
  unfolding forward tx_size post_to receive_at
  process_from i zero boxes = boxes
  process_from i (suc k) boxes = process_from (suc i) k (forward (tx_size i boxes) i boxes)

  pub process_messages : List Mailbox → List Mailbox
  unfolding process_from
  process_messages boxes = process_from 0 (length boxes) boxes
