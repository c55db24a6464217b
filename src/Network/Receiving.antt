-- ===== src/Network/Receiving.antt =====
-- homecontrol/TCPHandler.cpp, `connection::readHandler`, with iNetworkReceive.h and
-- networkReceiveHandler.cpp: the bytes of a socket are collected in a buffer, and the receiver is given
-- each message with a function that answers on the same connection. `async_read_until` of boost is an
-- argument: how many bytes of the buffer end with the first delimiter, if it is there.
pub mod Stream
pub mod Packets
use homecontrol_server.Common.{
  ℕ, zero, suc, Bool, true, false, Text, codes, List, [], ◌∷◌, ◌++◌, Option, none, some, length,
  take, drop, if◌then◌else◌,
}
use homecontrol_server.Network.Sending.{Connection, send_message}
use homecontrol_server.Network.Connections.{Handler, disconnect}

-- `iNetworkReceive::receive`: the answers that it gives, and the world behind it.
abbrev pub NetworkReceive : Type 0 → Type 0
NetworkReceive W = W → Text → List Text × W

-- `netWorkReceiveHandler::receive`; the log is left out.
pub receive_handler : {W : Type 0} → NetworkReceive W
receive_handler w message = ((message ++ codes "thanks") ∷ [], w)

-- A connection with its buffer, and the world behind the receiver.
pub record Reader (W : Type 0) : Type 0 where
  pub rx_buffer : Text
  pub connection : Connection
  pub world : W

pub data ErrorCode : Type 0 where
  success eof connection_reset another_error : ErrorCode

-- The next read is started, nothing happens any more, or `m_DisconnectCallback` is called.
pub data AfterRead : Type 0 where
  reads_on stops disconnects : AfterRead

-- `m_Answer` is `sendMessage` of the connection.
pub answer_all : List Text → Connection → Connection
answer_all [] c = c
answer_all (a ∷ answers) c = answer_all answers (send_message a c)

module _ {W : Type 0} (receive : NetworkReceive W) where
  pub handle_received : Text → Reader W → Reader W
  unfolding answer_all
  handle_received message r =
      let (answers, w) = receive r.world message in
      record r { connection = answer_all answers r.connection; world = w }

  -- `readHandler`, and what follows.
  pub read_handler : ErrorCode → ℕ → Reader W → Reader W × AfterRead
  unfolding handle_received
  read_handler success bytes_transferred r =
      let handled = handle_received (take bytes_transferred r.rx_buffer) r in
      (
        record handled { rx_buffer = drop bytes_transferred r.rx_buffer },
        if r.connection.is_open then reads_on else stops,
      )
  read_handler eof n r = (r, disconnects)
  read_handler connection_reset n r = (r, disconnects)
  read_handler another_error n r = (r, stops)

  module _ (read_until : Text → Option ℕ) where
    -- As long as the buffer holds a delimiter, the next read ends at once; on fuel.
    pub read_all : ℕ → Reader W → Reader W
    unfolding read_handler
    read_all zero r = r
    read_all (suc n) r = elim (read_until r.rx_buffer) [
      | none ↦ r
      | some k ↦
          let (r', next) = read_handler success k r in
          elim next [ reads_on ↦ read_all n r' | stops ↦ r' | disconnects ↦ r' ]
    ]

    -- A packet comes in. Each round of the loop takes two bytes at least.
    pub arrive : Text → Reader W → Reader W
    unfolding read_all
    arrive packet r =
        read_all (length (r.rx_buffer ++ packet)) (record r { rx_buffer = r.rx_buffer ++ packet })

    pub arrive_all : List Text → Reader W → Reader W
    unfolding arrive
    arrive_all [] r = r
    arrive_all (p ∷ ps) r = arrive_all ps (arrive p r)

-- The disconnect callback of the connection with a handle.
pub after_read : AfterRead → ℕ → Handler → Handler
after_read disconnects n h = disconnect n h
after_read _ n h = h
