-- ===== src/Network/Connections.antt =====
-- homecontrol/TCPHandler.cpp: the connections under their handles. Handlers and `accept` run in the one
-- thread of the `io_context`, so each is a whole step between two suspensions; `try_emplace` with a
-- handle that is free waits for the next client.
pub mod Handles
pub mod Cleanup
pub mod Sends
use homecontrol_server.Common.{
  ℕ, zero, suc, ◌+◌, ◌-◌, ◌^◌, Bool, true, false, Text, codes, List, [], ◌∷◌, ◌++◌, Option, none,
  some, leb, ltb, if◌then◌else◌, length,
}
use homecontrol_server.Common.OrdMap.{find, assign, erase, ℕ_key}
use homecontrol_server.Network.Sending.{Connection, new_connection, send_message}
use homecontrol_server.Queue.{Queue, push, pop, empty, size}

abbrev pub connection_handle_max_value : ℕ
connection_handle_max_value = 2 ^ 32 - 2

pub record Handler : Type 0 where
  pub connections : List (ℕ × Connection)
  pub disconnected : Queue ℕ
  pub handle : ℕ

pub new_handler : Handler
new_handler = record { connections = []; disconnected = empty; handle = 1 }

pub send_each : Text → List (ℕ × Connection) → List (ℕ × Connection)
send_each message [] = []
send_each message ((n, c) ∷ m) = (n, send_message message c) ∷ send_each message m

pub send_to_all_connections : Text → Handler → Handler
unfolding send_each
send_to_all_connections message h = record h { connections = send_each message h.connections }

pub disconnect : ℕ → Handler → Handler
disconnect n h = record h { disconnected = push h.disconnected n }

abbrev occupied : ℕ → List (ℕ × Connection) → Bool
occupied n m = elim (find n m) [ none ↦ false | some c ↦ true ]

-- `while (auto disconnectedSession = m_DisconnectedConnections.Pop())`, on fuel.
pub clean_up : ℕ → Handler → Handler
clean_up zero h = h
clean_up (suc n) h = elim (pop h.disconnected) [
  | none ↦ h
  | some (d, rest) ↦ clean_up n (record h {
    disconnected = rest;
    connections = if occupied d h.connections then erase d h.connections else h.connections;
  })
]

unfoldable pub cleanup_disconnected_sessions : Handler → Handler
unfolding clean_up
cleanup_disconnected_sessions h = clean_up (size h.disconnected) h

-- The next handle: behind the largest one the search starts again at 1.
pub next_handle : ℕ → ℕ
next_handle n = if leb connection_handle_max_value n then 1 else n + 1

-- `while (!inserted && m_Connections.size() < MAX)`, on fuel: `none` means that it has run out. A
-- client that connects gets the first free handle of the search.
pub insert_next : ℕ → ℕ → Handler → Option Handler
unfolding next_handle
insert_next zero client h = none
insert_next (suc n) client h =
    let skipped = insert_next n client (record h { handle = next_handle h.handle }) in
    if ltb (length h.connections) connection_handle_max_value
    then if occupied h.handle h.connections
      then skipped
      else some (record h {
        connections = assign h.handle (new_connection client) h.connections;
        handle = next_handle h.handle;
      })
    else some h

-- One round of `accept`. With no slot the round waits for one: `none` as long as there is none.
pub accept_round : ℕ → ℕ → Handler → Option Handler
unfolding cleanup_disconnected_sessions insert_next
accept_round fuel client h =
    let h' = cleanup_disconnected_sessions h in
    if leb connection_handle_max_value (length h'.connections)
    then none
    else insert_next fuel client h'
