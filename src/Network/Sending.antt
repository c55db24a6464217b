-- ===== src/Network/Sending.antt =====
-- homecontrol/TCPHandler.cpp, `connection::sendMessage`: a message is handed to the connection's own
-- thread, which starts a write for it with `std::async` and does not wait for its end. Each write has
-- its thread and hands over its bytes in pieces, so the writes that run may mix. A write that fails ends
-- with an exception, which stays in its future and which nobody reads.
pub mod Bytes
pub mod Steps
pub mod Order
use homecontrol_server.Common.{
  ℕ, Bool, true, false, ◌&&◌, Text, List, [], ◌∷◌, ◌++◌, Option, none, some, map, modify, take,
  drop, get_elem?, if◌then◌else◌,
}
use homecontrol_server.Queue.{Queue, push, pop, empty}

abbrev pub delimiter : Text
delimiter = 13 ∷ 10 ∷ []

-- A call of `boost::asio::write` in its thread: its message, the part that the socket has not taken, and
-- whether it still runs.
pub record Write : Type 0 where
  pub message : Text
  pub rest : Text
  pub running : Bool

-- `posted` are the functions in the queue of `m_SendHandler`, `writes` all writes in the order in which
-- they were started, and `written` the bytes that the socket has taken, in order, each with the number
-- of its write.
pub record Connection : Type 0 where
  pub client : ℕ
  pub is_open : Bool
  pub posted : Queue Text
  pub writes : List Write
  pub written : List (ℕ × ℕ)

unfoldable pub new_connection : ℕ → Connection
new_connection client = record {
  client = client;
  is_open = true;
  posted = empty;
  writes = [];
  written = [];
}

unfoldable pub send_message : Text → Connection → Connection
send_message message c = record c { posted = push c.posted (message ++ delimiter) }

-- The function of the next message: the write is started.
pub start_write : Connection → Connection
start_write c = elim (pop c.posted) [
  | none ↦ c
  | some (m, rest) ↦ record c {
    posted = rest;
    writes = c.writes ++ record { message = m; rest = m; running = true } ∷ [];
  }
]

abbrev pub without_bytes : ℕ → Write → Write
without_bytes k w = record w { rest = drop k w.rest }

abbrev pub ended : Write → Write
ended w = record w { running = false }

-- The socket takes up to `k` bytes of a write that runs. A closed socket takes none.
pub take_bytes : ℕ → ℕ → Connection → Connection
take_bytes n k c = elim (get_elem? c.writes n) [
  | none ↦ c
  | some w ↦
      if c.is_open && w.running
      then record c {
        writes = modify c.writes n (without_bytes k);
        written = c.written ++ map (λ b. (n, b)) (take k w.rest);
      }
      else c
]

-- A write fails, which also happens on a socket that is still open.
pub fail_write : ℕ → Connection → Connection
fail_write n c = record c { writes = modify c.writes n ended }

-- The interleavings of the senders, the connection's thread and the threads of the writes.
pub data Event : Type 0 where
  sends : Text → Event
  starts : Event
  takes : ℕ → ℕ → Event
  fails : ℕ → Event

pub step : Event → Connection → Connection
unfolding send_message start_write take_bytes fail_write
step (sends m) c = send_message m c
step starts c = start_write c
step (takes n k) c = take_bytes n k c
step (fails n) c = fail_write n c

pub run : List Event → Connection → Connection
unfolding step
run [] c = c
run (e ∷ es) c = run es (step e c)
