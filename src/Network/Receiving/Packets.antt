-- ===== src/Network/Receiving/Packets.antt =====
-- How the bytes of a connection fall into packets does not matter.
use homecontrol_server.Common.{
  ℕ, zero, suc, ◌+◌, ◌≤◌, ◌≡◌, inl, inr, refl, ap, sym, subst, ◌∙◌, Bool, true, false, Text, List,
  [], ◌∷◌, ◌++◌, append_assoc, append-nil, Option, none, length, length-append, if◌then◌else◌,
  arith, All,
}
use homecontrol_server.Network.Sending.{Connection, delimiter, send_message}
use homecontrol_server.Network.Receiving.Stream.{
  end_of_first, NoReturn, stream, end_of_first-none, end_of_first-message, All-prefix, All-suffix,
  none-ne-some, joined, prefix_cases, take_message, drop_message,
}
use homecontrol_server.Network.Receiving.{
  NetworkReceive, Reader, success, reads_on, stops, disconnects, handle_received, read_handler,
  read_all, arrive, arrive_all, answer_all,
}

module _ {W : Type 0} (receive : NetworkReceive W) where
  abbrev pub with_buffer : Text → Reader W → Reader W
  with_buffer b r = record r { rx_buffer = b }

  -- The receiver is given the messages one after the other, each with its delimiter.
  pub given : List Text → Reader W → Reader W
  given [] r = r
  given (m ∷ ms) r = given ms (handle_received receive (m ++ delimiter) r)

  abbrev pub IsOpen : Reader W → Type 0
  IsOpen r = r.connection.is_open ≡ true

  answer_all-is_open :
      (answers : List Text) (c : Connection) → (answer_all answers c).is_open ≡ c.is_open
  unfolding answer_all send_message
  answer_all-is_open [] c = refl
  answer_all-is_open (a ∷ answers) c = answer_all-is_open answers (send_message a c)

  handle_received-IsOpen :
      (m : Text) (r : Reader W) → IsOpen r → IsOpen (handle_received receive m r)
  unfolding handle_received
  handle_received-IsOpen m r o = answer_all-is_open (receive r.world m).0 r.connection ∙ o

  given-append : (ms ns : List Text) (r : Reader W) → given (ms ++ ns) r ≡ given ns (given ms r)
  unfolding given
  given-append [] ns r = refl
  given-append (m ∷ ms) ns r = given-append ms ns (handle_received receive (m ++ delimiter) r)

  given-with_buffer :
      (b : Text) (ms : List Text) (r : Reader W)
      → given ms (with_buffer b r) ≡ with_buffer b (given ms r)
  unfolding given handle_received
  given-with_buffer b [] r = refl
  given-with_buffer b (m ∷ ms) r =
      given-with_buffer b ms (handle_received receive (m ++ delimiter) r)

  given-IsOpen : (ms : List Text) (r : Reader W) → IsOpen r → IsOpen (given ms r)
  unfolding given
  given-IsOpen [] r o = o
  given-IsOpen (m ∷ ms) r o =
      given-IsOpen ms (handle_received receive (m ++ delimiter) r) (handle_received-IsOpen _ r o)

  module _ (read_until : Text → Option ℕ)
      (documented : (b : Text) → read_until b ≡ end_of_first b) where
    -- What is left after some of the messages have been read.
    record Rest (ms : List Text) (tail p q : Text) (n : ℕ) (r : Reader W) : Type 0 where
      done : List Text
      left : List Text
      buffer : Text
      parts : ms ≡ done ++ left
      remains : buffer ++ q ≡ stream left tail
      settled : end_of_first buffer ≡ none
      state : read_all receive read_until n (with_buffer p r) ≡ with_buffer buffer (given done r)

    nothing_read :
        (ms : List Text) (tail p q : Text) (n : ℕ) (r : Reader W)
        → p ++ q ≡ stream ms tail
        → end_of_first p ≡ none
        → Rest ms tail p q n r
    unfolding read_all given
    nothing_read ms tail p q zero r e none_yet = record {
      done = [];
      left = ms;
      buffer = p;
      parts = refl;
      remains = e;
      settled = none_yet;
      state = refl;
    }
    nothing_read ms tail p q (suc n) r e none_yet = record {
      done = [];
      left = ms;
      buffer = p;
      parts = refl;
      remains = e;
      settled = none_yet;
      state = rw (documented p, read_all) (rw none_yet refl);
    }

    next_round :
        (b : Bool) (n : ℕ) (x : Reader W)
        → b ≡ true
        → elim (if b then reads_on else stops) as (λ a. Reader W) [
          | reads_on ↦ read_all receive read_until n x
          | stops ↦ x
          | disconnects ↦ x
        ]
          ≡ read_all receive read_until n x
    next_round true n x e = refl
    next_round false n x e = cc

    read_one :
        (m p' : Text) (n : ℕ) (r : Reader W)
        → NoReturn m
        → IsOpen r
        → read_all receive read_until (suc n) (with_buffer (m ++ (delimiter ++ p')) r)
          ≡ read_all receive read_until n
              (with_buffer p' (handle_received receive (m ++ delimiter) r))
    unfolding read_all read_handler handle_received
    read_one m p' n r h o =
        rw (documented (m ++ (delimiter ++ p')), read_all)
          (rw (end_of_first-message m p' h) (
            next_round r.connection.is_open n
              (read_handler receive success (length m + 2)
                (with_buffer (m ++ (delimiter ++ p')) r)).0
              o
            ∙ rw (take_message m p', drop_message m p') refl))

    read_prefix :
        (ms : List Text) (tail p q : Text) (n : ℕ) (r : Reader W)
        → All NoReturn ms
        → NoReturn tail
        → p ++ q ≡ stream ms tail
        → length p ≤ n
        → IsOpen r
        → Rest ms tail p q n r
    unfolding given stream end_of_first
    read_prefix [] tail p q n r h t e f o =
        nothing_read [] tail p q n r e
          (end_of_first-none p (All-prefix p q (subst NoReturn (sym e) t)))
    read_prefix (m ∷ ms) tail [] q zero r h t e f o = nothing_read (m ∷ ms) tail [] q zero r e refl
    read_prefix (m ∷ ms) tail (c ∷ p) q zero r h t e f o = absurd (omega arith)
    read_prefix (m ∷ ms) tail p q (suc n) r h t e f o =
        elim (prefix_cases m p q (stream ms tail) h.0 e) [
          | inl none_yet ↦ nothing_read (m ∷ ms) tail p q (suc n) r e none_yet
          | inr (p', ep, eq) ↦
              let rest =
                read_prefix ms tail p' q n (handle_received receive (m ++ delimiter) r) h.1 t eq
                  (omega (arith, ap length ep, length-append m (delimiter ++ p')))
                  (handle_received-IsOpen (m ++ delimiter) r o) in
              record {
                done = m ∷ rest.done;
                left = rest.left;
                buffer = rest.buffer;
                parts = ap (◌∷◌ m) rest.parts;
                remains = rest.remains;
                settled = rest.settled;
                state =
                    ap (λ (b : Text). read_all receive read_until (suc n) (with_buffer b r)) ep
                    ∙ read_one m p' n r h.0 o
                    ∙ rest.state;
              }
        ]

    every_byte_read :
        (ms : List Text) (tail b : Text) (r : Reader W)
        → All NoReturn ms
        → end_of_first b ≡ none
        → b ≡ stream ms tail
        → with_buffer b r ≡ with_buffer tail (given ms r)
    unfolding given stream
    every_byte_read [] tail b r h none_yet e = rw e refl
    every_byte_read (m ∷ ms) tail b r h none_yet e = absurd (
        none-ne-some
          (sym none_yet ∙ ap end_of_first e ∙ end_of_first-message m (stream ms tail) h.0))

    arrive_all-rest :
        (packets : List Text) (ms : List Text) (tail b : Text) (r : Reader W)
        → All NoReturn ms
        → NoReturn tail
        → end_of_first b ≡ none
        → b ++ joined packets ≡ stream ms tail
        → IsOpen r
        → arrive_all receive read_until packets (with_buffer b r) ≡ with_buffer tail (given ms r)
    unfolding arrive_all arrive joined
    arrive_all-rest [] ms tail b r h t none_yet e o =
        every_byte_read ms tail b r h none_yet (sym (append-nil b) ∙ e)
    arrive_all-rest (p ∷ packets) ms tail b r h t none_yet e o =
        let rest =
          read_prefix ms tail (b ++ p) (joined packets) (length (b ++ p)) r h t
            (append_assoc b p (joined packets) ∙ e) (omega arith) o in
        ap (arrive_all receive read_until packets) rest.state
        ∙ arrive_all-rest packets rest.left tail rest.buffer (given rest.done r)
            (All-suffix NoReturn rest.done rest.left (subst (All NoReturn) rest.parts h)) t
            rest.settled rest.remains (given-IsOpen rest.done r o)
        ∙ ap (with_buffer tail)
            (sym (given-append rest.done rest.left r) ∙ ap (λ l. given l r) (sym rest.parts))

    -- However the bytes of an open connection fall into packets, if they are those of messages without
    -- a carriage return, each ended by the delimiter, and of the start of another one: the receiver is
    -- given each message once, whole and in order, answers on this connection, and the start stays in
    -- the buffer.
    pub arrive_all-stream :
        (packets : List Text) (ms : List Text) (tail : Text) (r : Reader W)
        → All NoReturn ms
        → NoReturn tail
        → joined packets ≡ stream ms tail
        → IsOpen r
        → arrive_all receive read_until packets (with_buffer [] r) ≡ with_buffer tail (given ms r)
    unfolding end_of_first
    arrive_all-stream packets ms tail r h t e o = arrive_all-rest packets ms tail [] r h t refl e o
