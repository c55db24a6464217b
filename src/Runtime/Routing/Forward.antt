-- ===== src/Runtime/Routing/Forward.antt =====
-- What the inner loop of `ProcessMessages` does with the messages of one sender.
use homecontrol_server.Common.{
  ℕ, zero, suc, ◌≤◌, ◌≡◌, refl, sym, ap, ◌∙◌, List, [], ◌∷◌, ◌++◌, none, some, arith, get_elem?,
  modify, length, append-nil, append_assoc, ◌==◌, if◌then◌else◌, Bool-cases, Option-cases, inl, inr,
  length-modify,
}
use homecontrol_server.Data.Message.{Message}
use homecontrol_server.Queue.{empty}
use homecontrol_server.Subscription.{SubscriptionData, find_subscribers}
use homecontrol_server.Subscription.Laws.{occurrences}
use homecontrol_server.Runtime.{Mailbox}
use homecontrol_server.Runtime.Routing.{push_rx, post_to, receive_at, forward}

abbrev pub copies : ℕ → Message → List Message
copies zero m = []
copies (suc n) m = m ∷ copies n m

get_elem?-modify {ℓ} :
    {A : Type ℓ} (xs : List A) (i j : ℕ) (f : A → A) {a : A}
    → get_elem? xs j ≡ some a
    → get_elem? (modify xs i f) j ≡ some (if i == j then f a else a)
get_elem?-modify [] i j f h = absurd (ground arith)
get_elem?-modify (x ∷ xs) zero zero f h = ground arith
get_elem?-modify (x ∷ xs) zero (suc j) f h = ground arith
get_elem?-modify (x ∷ xs) (suc i) zero f h = ground arith
get_elem?-modify (x ∷ xs) (suc i) (suc j) f {a} h =
    ground (arith, get_elem?-modify xs i j f {a = a})

-- A mailbox with more messages to receive.
abbrev with_more : List Message → Mailbox → Mailbox
with_more ms b = record b { rx = record { items = b.rx.items ++ ms } }

get-post_to :
    (rs : List ℕ) (m : Message) (boxes : List Mailbox) (r : ℕ) (b : Mailbox)
    → get_elem? boxes r ≡ some b
    → get_elem? (post_to rs m boxes) r ≡ some (with_more (copies (occurrences r rs) m) b)
unfolding post_to occurrences
get-post_to [] m boxes r b h = ground (arith, append-nil b.rx.items)
get-post_to (x ∷ rs) m boxes r b h = elim (Bool-cases (x == r)) [
  | inl e ↦ ground (
    arith,
    get_elem?-modify boxes x r (push_rx m) {a = b},
    get-post_to rs m (modify boxes x (push_rx m)) r (push_rx m b),
    append_assoc b.rx.items (m ∷ []) (copies (occurrences r rs) m),
  )
  | inr e ↦ ground (
    arith,
    get_elem?-modify boxes x r (push_rx m) {a = b},
    get-post_to rs m (modify boxes x (push_rx m)) r b,
  )
]

length-post_to :
    (rs : List ℕ) (m : Message) (boxes : List Mailbox) → length (post_to rs m boxes) ≡ length boxes
unfolding post_to
length-post_to [] m boxes = refl
length-post_to (x ∷ rs) m boxes =
    length-post_to rs m (modify boxes x (push_rx m)) ∙ length-modify boxes x (push_rx m)

module _ (subscribers : List SubscriptionData) where
  -- The share of one receiver in a list of sent messages.
  unfoldable pub share : ℕ → List Message → List Message
  share r [] = []
  share r (m ∷ ms) = copies (occurrences r (find_subscribers subscribers m.id)) m ++ share r ms

  pub share-append : (r : ℕ) (xs ys : List Message) → share r (xs ++ ys) ≡ share r xs ++ share r ys
  unfolding share
  share-append r [] ys = refl
  share-append r (m ∷ xs) ys = simp (share-append r xs ys, append_assoc)

  -- A mailbox after the thread at place `i` has sent `ms`.
  abbrev pub after_forward : ℕ → ℕ → List Message → Mailbox → Mailbox
  after_forward i r ms b = record {
    rx = record { items = b.rx.items ++ share r ms };
    tx = if i == r then empty else b.tx;
  }

  receive_at_lem :
      (i : ℕ) (boxes : List Mailbox) (b : Mailbox) (m : Message) (ms : List Message)
      → get_elem? boxes i ≡ some b
      → b.tx.items ≡ m ∷ ms
      → receive_at i boxes ≡ some (m, modify boxes i (λ c. record c { tx = record { items = ms } }))
  unfolding receive_at
  receive_at_lem i boxes b m ms h e = ground arith

  receive_at_empty :
      (i : ℕ) (boxes : List Mailbox) (b : Mailbox)
      → get_elem? boxes i ≡ some b
      → b.tx.items ≡ []
      → receive_at i boxes ≡ none
  unfolding receive_at
  receive_at_empty i boxes b h e = ground arith

  set_tx : List Message → Mailbox → Mailbox
  set_tx ms c = record c { tx = record { items = ms } }

  -- One message of thread `i`: it leaves the sender and reaches each subscriber.
  after_one : ℕ → ℕ → Message → List Message → Mailbox → Mailbox
  unfolding set_tx
  after_one i r m ms c =
      with_more (copies (occurrences r (find_subscribers subscribers m.id)) m)
        (if i == r then set_tx ms c else c)

  get-one :
      (i r : ℕ) (m : Message) (ms : List Message) (boxes : List Mailbox) (c : Mailbox)
      → get_elem? boxes r ≡ some c
      → get_elem? (post_to (find_subscribers subscribers m.id) m (modify boxes i (set_tx ms))) r
        ≡ some (after_one i r m ms c)
  unfolding after_one
  get-one i r m ms boxes c h =
      get-post_to (find_subscribers subscribers m.id) m (modify boxes i (set_tx ms)) r
        (if i == r then set_tx ms c else c) (get_elem?-modify boxes i r (set_tx ms) h)

  after_forward-one :
      (i r : ℕ) (m : Message) (ms : List Message) (c : Mailbox)
      → after_forward i r ms (after_one i r m ms c) ≡ after_forward i r (m ∷ ms) c
  unfolding share after_one
  after_forward-one i r m ms c = elim (Bool-cases (i == r)) [
    | inl e ↦ rw e (simp append_assoc)
    | inr e ↦ rw e (simp append_assoc)
  ]

  after_one-tx :
      (i : ℕ) (m : Message) (ms : List Message) (c : Mailbox) → (after_one i i m ms c).tx.items ≡ ms
  unfolding after_one
  after_one-tx i m ms c = ground arith

  forward_step :
      (n i : ℕ) (boxes boxes' : List Mailbox) (m : Message)
      → receive_at i boxes ≡ some (m, boxes')
      → forward subscribers (suc n) i boxes
        ≡ forward subscribers n i (post_to (find_subscribers subscribers m.id) m boxes')
  unfolding forward
  forward_step n i boxes boxes' m h = rw (h, forward)

  forward_stop :
      (n i : ℕ) (boxes : List Mailbox)
      → receive_at i boxes ≡ none
      → forward subscribers n i boxes ≡ boxes
  unfolding forward
  forward_stop zero i boxes h = refl
  forward_stop (suc n) i boxes h = rw (h, forward)

  empty_tx : (b : Mailbox) → b.tx.items ≡ [] → empty ≡ b.tx
  empty_tx b e = λ j. record { items = sym e j }

  after_forward_nil :
      (i r : ℕ) (boxes : List Mailbox) (b c : Mailbox)
      → get_elem? boxes i ≡ some b
      → b.tx.items ≡ []
      → get_elem? boxes r ≡ some c
      → c ≡ after_forward i r [] c
  unfolding share
  after_forward_nil i r boxes b c h e g = ground (arith, append-nil c.rx.items, empty_tx b e)

  pub get-forward :
      (ms : List Message) (n i r : ℕ) (boxes : List Mailbox) (b c : Mailbox)
      → length ms ≤ n
      → get_elem? boxes i ≡ some b
      → b.tx.items ≡ ms
      → get_elem? boxes r ≡ some c
      → get_elem? (forward subscribers n i boxes) r ≡ some (after_forward i r ms c)
  get-forward [] n i r boxes b c l h e g =
      ap (λ bs. get_elem? bs r) (forward_stop n i boxes (receive_at_empty i boxes b h e))
      ∙ g
      ∙ ap some (after_forward_nil i r boxes b c h e g)
  get-forward (m ∷ ms) zero i r boxes b c l h e g = absurd (omega arith)
  get-forward (m ∷ ms) (suc n) i r boxes b c l h e g =
      ap (λ bs. get_elem? bs r)
        (forward_step n i boxes (modify boxes i (set_tx ms)) m
          (unfold set_tx in receive_at_lem i boxes b m ms h e))
      ∙ get-forward ms n i r _ (after_one i i m ms b) (after_one i r m ms c) (omega arith)
          (get-one i i m ms boxes b h) (after_one-tx i m ms b) (get-one i r m ms boxes c g)
      ∙ ap some (after_forward-one i r m ms c)

  receive_at-length :
      (i : ℕ) (boxes : List Mailbox) (r : Message × List Mailbox)
      → receive_at i boxes ≡ some r
      → length r.1 ≡ length boxes
  receive_at-length i boxes r e = elim (Option-cases (get_elem? boxes i)) [
    | inl missing ↦ absurd (unfold receive_at in ground arith)
    | inr (b, h) ↦ by_items b h b.tx.items refl
  ]
    where
      by_items :
          (b : Mailbox)
          → get_elem? boxes i ≡ some b
          → (ms : List Message) → b.tx.items ≡ ms
          → length r.1 ≡ length boxes
      by_items b h [] t = absurd (ground (arith, receive_at_empty i boxes b h t))
      by_items b h (m ∷ ms) t = ground (
        arith,
        receive_at_lem i boxes b m ms h t,
        length-modify boxes i (λ (c : Mailbox). record c { tx = record { items = ms } }),
      )

  pub length-forward :
      (n i : ℕ) (boxes : List Mailbox) → length (forward subscribers n i boxes) ≡ length boxes
  length-forward zero i boxes = unfold forward in refl
  length-forward (suc n) i boxes = elim (Option-cases (receive_at i boxes)) [
    | inl e ↦ ap length (forward_stop (suc n) i boxes e)
    | inr (mb, e) ↦
        ap length (forward_step n i boxes mb.1 mb.0 e)
        ∙ length-forward n i _
        ∙ length-post_to _ mb.0 mb.1
        ∙ receive_at-length i boxes mb e
  ]
