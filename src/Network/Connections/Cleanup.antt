-- ===== src/Network/Connections/Cleanup.antt =====
-- What `cleanupDisconnectedSessions` leaves, and one whole round of `accept`.
use homecontrol_server.Common.{
  ℕ, zero, suc, ◌≤◌, ◌<◌, ◌≡◌, refl, sym, subst, if_false, ◌∙◌, Bool, false, List, [], ◌∷◌, Option,
  none, some, arith, leb, ◌==◌, ◌||◌, if◌then◌else◌, length,
}
use homecontrol_server.Common.OrdMap.{find, erase, ℕ_key, find-erase_self, find-erase_ne}
use homecontrol_server.Queue.{size}
use homecontrol_server.Network.Sending.{Connection}
use homecontrol_server.Network.Connections.{
  Handler, connection_handle_max_value, clean_up, cleanup_disconnected_sessions, accept_round,
  occupied,
}
use homecontrol_server.Network.Connections.Handles.{InRange, with_client, insert_next_lem}

lt→leb : (a b : ℕ) → a < b → leb b a ≡ false
lt→leb a b h = ground arith

abbrev pub listed : ℕ → List ℕ → Bool
listed k [] = false
listed k (d ∷ ds) = (d == k) || listed k ds

-- The connections without those whose handles are listed.
abbrev pub kept : ℕ → List ℕ → List (ℕ × Connection) → Option Connection
kept k ds m = if listed k ds then none else find k m

abbrev without : ℕ → List (ℕ × Connection) → List (ℕ × Connection)
without d m = if occupied d m then erase d m else m

remove_one :
    (k d : ℕ) (m : List (ℕ × Connection))
    → find k (without d m) ≡ (if d == k then none else find k m)
remove_one k d m = ground (arith, find-erase_self d m, find-erase_ne d k m)

abbrev removed : ℕ → List ℕ → Handler → Handler
removed d ds h = record h {
  disconnected = record { items = ds };
  connections = without d h.connections;
}

kept-without :
    (k d : ℕ) (ds : List ℕ) (m : List (ℕ × Connection))
    → kept k ds (without d m) ≡ kept k (d ∷ ds) m
kept-without k d ds m = ground (arith, remove_one k d m)

clean_up_step :
    (d : ℕ) (ds : List ℕ) (n : ℕ) (h : Handler)
    → h.disconnected.items ≡ d ∷ ds
    → clean_up (suc n) h ≡ clean_up n (removed d ds h)
unfolding clean_up
clean_up_step d ds n h e = rw e

clean_up_stop : (n : ℕ) (h : Handler) → h.disconnected.items ≡ [] → clean_up n h ≡ h
unfolding clean_up
clean_up_stop zero h e = refl
clean_up_stop (suc n) h e = rw e

clean_up_lem :
    (ds : List ℕ) (n : ℕ) (h : Handler) (k : ℕ)
    → length ds ≤ n
    → h.disconnected.items ≡ ds
    → (find k (clean_up n h).connections ≡ kept k ds h.connections)
      × ((clean_up n h).disconnected.items ≡ [])
      × ((clean_up n h).handle ≡ h.handle)
clean_up_lem [] n h k l e = rw (clean_up_stop n h e) (refl, e, refl)
clean_up_lem (d ∷ ds) zero h k l e = absurd (omega arith)
clean_up_lem (d ∷ ds) (suc n) h k l e =
    let (f, q, c) = clean_up_lem ds n (removed d ds h) k (omega arith) refl in
    rw (clean_up_step d ds n h e) (f ∙ kept-without k d ds h.connections, q, c)

-- A clean-up takes off every connection that has left, however often it was reported, and no other
-- connection, and leaves no report behind.
pub cleanup_disconnected_sessions_lem :
    (h : Handler) (k : ℕ)
    → (find k (cleanup_disconnected_sessions h).connections
        ≡ kept k h.disconnected.items h.connections)
      × ((cleanup_disconnected_sessions h).disconnected.items ≡ [])
      × ((cleanup_disconnected_sessions h).handle ≡ h.handle)
unfolding cleanup_disconnected_sessions
cleanup_disconnected_sessions_lem h k =
    clean_up_lem h.disconnected.items (size h.disconnected) h k (omega arith) refl

-- One round of `accept`, with a slot free after the clean-up: the client of the round gets a handle
-- in range that no connection has which is still there.
pub accept_round_lem :
    (client : ℕ) (h : Handler)
    → InRange h.handle
    → length (cleanup_disconnected_sessions h).connections < connection_handle_max_value
    → (k : ℕ) × InRange k
      × (kept k h.disconnected.items h.connections ≡ none)
      × (accept_round (suc (length (cleanup_disconnected_sessions h).connections)) client h
          ≡ some (with_client k client (cleanup_disconnected_sessions h)))
unfolding accept_round
accept_round_lem client h r l =
    let (f, q, c) = cleanup_disconnected_sessions_lem h h.handle in
    let (k, s, e, i) =
      insert_next_lem client (cleanup_disconnected_sessions h) (subst InRange (sym c) r) l in
    (
      k,
      s,
      sym (cleanup_disconnected_sessions_lem h k).0 ∙ e,
      if_false _ _ (
            lt→leb (length (cleanup_disconnected_sessions h).connections)
              connection_handle_max_value l)
          ∙ i,
    )
