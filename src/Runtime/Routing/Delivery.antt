-- ===== src/Runtime/Routing/Delivery.antt =====
-- What `ProcessMessages` delivers.
use homecontrol_server.Common.{
  Bool, true, false, ℕ, zero, suc, ◌+◌, ◌≤◌, ◌<◌, ◌≡◌, refl, sym, ap, ap₂, ◌∙◌, List, [], ◌∷◌, ◌++◌,
  none, some, arith, get_elem?, length, append-nil, append_assoc, ltb, if◌then◌else◌,
}
use homecontrol_server.Data.Message.{Message}
use homecontrol_server.Queue.{empty}
use homecontrol_server.Subscription.{SubscriptionData, is_subscribed}
use homecontrol_server.Subscription.Laws.{subscribe_all, find_subscribers_exact}
use homecontrol_server.Runtime.{Mailbox}
use homecontrol_server.Runtime.Routing.{forward, tx_size, process_from, process_messages}
use homecontrol_server.Runtime.Routing.Forward.{
  copies, share, share-append, after_forward, get-forward, length-forward,
}

module _ (subscribers : List SubscriptionData) where
  -- What each thread has to send, thread by thread.
  abbrev pub all_sent : List Mailbox → List Message
  all_sent [] = []
  all_sent (b ∷ bs) = b.tx.items ++ all_sent bs

  tx_of : ℕ → List Mailbox → List Message
  tx_of i boxes = elim (get_elem? boxes i) [ none ↦ [] | some b ↦ b.tx.items ]

  sent : ℕ → ℕ → List Mailbox → List Message
  unfolding tx_of
  sent i zero boxes = []
  sent i (suc k) boxes = tx_of i boxes ++ sent (suc i) k boxes

  sent_shift : (i k : ℕ) (b : Mailbox) (bs : List Mailbox) → sent (suc i) k (b ∷ bs) ≡ sent i k bs
  unfolding sent
  sent_shift i zero b bs = refl
  sent_shift i (suc k) b bs = rw (sent_shift (suc i) k b bs)

  sent-all_sent : (boxes : List Mailbox) → sent 0 (length boxes) boxes ≡ all_sent boxes
  unfolding sent
  sent-all_sent [] = refl
  sent-all_sent (b ∷ bs) = rw (sent_shift 0 (length bs) b bs, sent-all_sent bs)

  get_of_lt :
      {A : Type 0} (xs : List A) (i : ℕ) → i < length xs → (a : A) × (get_elem? xs i ≡ some a)
  get_of_lt [] i h = absurd (omega arith)
  get_of_lt (x ∷ xs) zero h = (x, refl)
  get_of_lt (x ∷ xs) (suc i) h = get_of_lt xs i (omega arith)

  -- The other senders are as they were.
  tx_of-forward :
      (i j : ℕ) (boxes : List Mailbox)
      → i < j
      → j < length boxes
      → tx_of j (forward subscribers (tx_size subscribers i boxes) i boxes) ≡ tx_of j boxes
  unfolding tx_of tx_size
  tx_of-forward i j boxes h l =
      let (b, e) = get_of_lt boxes i (omega arith) in
      let (c, g) = get_of_lt boxes j l in
      ground (
        arith,
        get-forward subscribers b.tx.items (length b.tx.items) i j boxes b c (omega arith) e refl g,
      )

  sent-forward :
      (i j k : ℕ) (boxes : List Mailbox)
      → i < j
      → j + k ≤ length boxes
      → sent j k (forward subscribers (tx_size subscribers i boxes) i boxes) ≡ sent j k boxes
  unfolding sent
  sent-forward i j zero boxes h l = refl
  sent-forward i j (suc k) boxes h l =
      ap₂ ◌++◌ (tx_of-forward i j boxes h (omega arith))
        (sent-forward i (suc j) k boxes (omega arith) (omega arith))

  -- A mailbox after the threads from place `i` on have sent `ms`.
  after_process : ℕ → ℕ → List Message → Mailbox → Mailbox
  after_process i r ms c = record {
    rx = record { items = c.rx.items ++ share subscribers r ms };
    tx = if ltb r i then c.tx else empty;
  }

  after_process_none : (i r : ℕ) (c : Mailbox) → r < i → some c ≡ some (after_process i r [] c)
  unfolding after_process share
  after_process_none i r c h = ground (arith, append-nil c.rx.items)

  after_process_step :
      (i r : ℕ) (ms later : List Message) (c : Mailbox)
      → after_process (suc i) r later (after_forward subscribers i r ms c)
        ≡ after_process i r (ms ++ later) c
  unfolding after_process
  after_process_step i r ms later c = ground (
    arith,
    share-append subscribers r ms later,
    append_assoc c.rx.items (share subscribers r ms) (share subscribers r later),
  )

  lt_of_get : {A : Type 0} (xs : List A) (i : ℕ) {a : A} → get_elem? xs i ≡ some a → i < length xs
  lt_of_get [] i h = absurd (ground arith)
  lt_of_get (x ∷ xs) zero h = omega arith
  lt_of_get (x ∷ xs) (suc i) {a} h = omega (arith, lt_of_get xs i {a = a} h)

  process_from_step :
      (i k : ℕ) (boxes : List Mailbox)
      → process_from subscribers i (suc k) boxes
        ≡ process_from subscribers
            (suc i)
            k
            (forward subscribers (tx_size subscribers i boxes) i boxes)
  unfolding process_from
  process_from_step i k boxes = refl

  sent_step :
      (i k : ℕ) (boxes : List Mailbox)
      → sent i (suc k) boxes ≡ tx_of i boxes ++ sent (suc i) k boxes
  unfolding sent
  sent_step i k boxes = refl

  after_process_all :
      (r : ℕ) (ms : List Message) (c : Mailbox)
      → after_process 0 r ms c
        ≡ record { rx = record { items = c.rx.items ++ share subscribers r ms }; tx = empty }
  unfolding after_process
  after_process_all r ms c = ground arith

  get-process_from :
      (k i r : ℕ) (boxes : List Mailbox) (c : Mailbox)
      → i + k ≡ length boxes
      → get_elem? boxes r ≡ some c
      → get_elem? (process_from subscribers i k boxes) r
        ≡ some (after_process i r (sent i k boxes) c)
  get-process_from zero i r boxes c l g =
      unfold process_from sent in
      g ∙ after_process_none i r c (omega (arith, lt_of_get boxes r {a = c} g))
  get-process_from (suc k) i r boxes c l g =
      let (b, e) = get_of_lt boxes i (omega arith) in
      let next = forward subscribers (tx_size subscribers i boxes) i boxes in
      let step : get_elem? next r ≡ some (after_forward subscribers i r b.tx.items c) =
        unfold tx_size in
        rw (e, tx_size)
          (get-forward subscribers b.tx.items (length b.tx.items) i r boxes b c (omega arith) e refl
            g) in
      let rest =
        get-process_from k (suc i) r next (after_forward subscribers i r b.tx.items c)
          (omega (arith, length-forward subscribers (tx_size subscribers i boxes) i boxes)) step in
      let of_sender : tx_of i boxes ≡ b.tx.items = unfold tx_of in rw (e, tx_of) in
      let others = sent-forward i (suc i) k boxes (omega arith) (omega arith) in
      ap (λ bs. get_elem? bs r) (process_from_step i k boxes)
      ∙ rest
      ∙ ap some (
          ap (λ ms. after_process (suc i) r ms (after_forward subscribers i r b.tx.items c)) others
          ∙ after_process_step i r b.tx.items (sent (suc i) k boxes) c
          ∙ ap (λ ms. after_process i r (ms ++ sent (suc i) k boxes) c) (sym of_sender)
          ∙ ap (λ ms. after_process i r ms c) (sym (sent_step i k boxes)))

  -- One run of `ProcessMessages` empties what every thread has to send, and appends to what each
  -- thread receives the messages that it is subscribed to, as often as `FindSubscribers` names it:
  -- sender by sender in the order of registration, and each sender's messages in their order.
  pub process_messages_lem :
      (boxes : List Mailbox) (r : ℕ) (c : Mailbox)
      → get_elem? boxes r ≡ some c
      → get_elem? (process_messages subscribers boxes) r
        ≡ some (record {
          rx = record { items = c.rx.items ++ share subscribers r (all_sent boxes) };
          tx = empty;
        })
  process_messages_lem boxes r c g =
      unfold process_messages in
      get-process_from (length boxes) 0 r boxes c (omega arith) g
      ∙ ap (λ ms. some (after_process 0 r ms c)) (sent-all_sent boxes)
      ∙ ap some (after_process_all r (all_sent boxes) c)

-- The messages whose id a runtime is registered for.
unfoldable pub subscribed : List SubscriptionData → ℕ → List Message → List Message
subscribed ss r [] = []
subscribed ss r (m ∷ ms) =
    let rest = subscribed ss r ms in
    if is_subscribed ss (record { id = m.id; runtime = r }) then m ∷ rest else rest

copies_if :
    (b : Bool) (n : ℕ) (m : Message) (rest : List Message)
    → n ≡ (if b then 1 else 0)
    → copies n m ++ rest ≡ (if b then m ∷ rest else rest)
copies_if true n m rest e = rw e
copies_if false n m rest e = rw e

share-subscribed :
    (ss : List SubscriptionData) (r : ℕ) (ms : List Message)
    → share (subscribe_all [] ss) r ms ≡ subscribed ss r ms
unfolding share subscribed
share-subscribed ss r [] = refl
share-subscribed ss r (m ∷ ms) = rw (share-subscribed ss r ms) (
    copies_if (is_subscribed ss (record { id = m.id; runtime = r })) _ m (subscribed ss r ms)
      (find_subscribers_exact ss m.id r))

-- Whatever calls of `Subscribe` came before, one run of `ProcessMessages` delivers to each runtime,
-- once, every message that any runtime has sent under an id for which it was registered, and no
-- other message, in the order of the senders and of their messages; nothing is left to send.
pub delivers_to_subscribers :
    (ss : List SubscriptionData) (boxes : List Mailbox) (r : ℕ) (c : Mailbox)
    → get_elem? boxes r ≡ some c
    → get_elem? (process_messages (subscribe_all [] ss) boxes) r
      ≡ some (record {
        rx = record {
          items = c.rx.items ++ subscribed ss r (all_sent (subscribe_all [] ss) boxes);
        };
        tx = empty;
      })
delivers_to_subscribers ss boxes r c g =
    process_messages_lem (subscribe_all [] ss) boxes r c g
    ∙ ap (λ ms. some (record { rx = record { items = c.rx.items ++ ms }; tx = empty }))
        (share-subscribed ss r (all_sent (subscribe_all [] ss) boxes))
