-- ===== src/Network/Connections/Sends.antt =====
-- A message to all connections.
use homecontrol_server.Common.{
  ℕ, ◌≡◌, refl, Text, List, [], ◌∷◌, Option, none, some, ◌==◌, Bool-cases, inl, inr,
}
use homecontrol_server.Common.OrdMap.{find, ℕ_key}
use homecontrol_server.Network.Sending.{Connection, send_message}
use homecontrol_server.Network.Connections.{Handler, send_each, send_to_all_connections}

abbrev pub given_to_send : Text → Option Connection → Option Connection
given_to_send text none = none
given_to_send text (some c) = some (send_message text c)

find-send_each :
    (k : ℕ) (text : Text) (m : List (ℕ × Connection))
    → find k (send_each text m) ≡ given_to_send text (find k m)
unfolding find send_each
find-send_each k text [] = refl
find-send_each k text ((n, c) ∷ m) = elim (Bool-cases (n == k)) [
  | inl e ↦ rw e
  | inr e ↦ rw e (find-send_each k text m)
]

pub find-send_to_all_connections :
    (k : ℕ) (text : Text) (h : Handler)
    → find k (send_to_all_connections text h).connections
      ≡ given_to_send text (find k h.connections)
unfolding send_to_all_connections
find-send_to_all_connections k text h = find-send_each k text h.connections
