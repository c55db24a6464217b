-- ===== src/Network/Sending/Order.antt =====
-- What reaches the socket: the bytes of every message in their order, as far as its write gets, in an
-- order of the messages that the code does not fix.
use homecontrol_server.Common.{ℕ, length, ◌≡◌, refl, Text, List, [], ◌∷◌, ◌++◌, map}
use homecontrol_server.Network.Sending.{
  Event, sends, starts, takes, delimiter, send_message, start_write, take_bytes, step, run,
  new_connection,
}
use homecontrol_server.Network.Sending.Bytes.{wire, wire-append, wire_of_numbered, take_all}

-- The messages of a sequence of events, as they go over the wire.
pub sent : List Event → List Text
sent [] = []
sent (sends m ∷ es) = (m ++ delimiter) ∷ sent es
sent (e ∷ es) = sent es

-- The writes of two messages that are sent one after the other may mix: the second message may go over
-- the wire whole behind the first byte of the first message.
pub writes_may_mix :
    (b : ℕ) (first second : Text) (client : ℕ)
    → let n = length (second ++ delimiter) in
      wire
        (run
          (sends (b ∷ first)
            ∷ sends second
            ∷ starts
            ∷ starts
            ∷ takes 0 1
            ∷ takes 1 n
            ∷ takes 0 (length (first ++ delimiter))
            ∷ [])
          (new_connection client)).written
      ≡ b ∷ ((second ++ delimiter) ++ (first ++ delimiter))
unfolding run step send_message start_write take_bytes new_connection
writes_may_mix b first second client =
    rw
      (
        take_all (second ++ delimiter),
        take_all (first ++ delimiter),
        wire-append (map (λ b. (1, b)) (second ++ delimiter)) _,
        wire_of_numbered 1 (second ++ delimiter),
        wire_of_numbered 0 (first ++ delimiter),
      )
      refl
