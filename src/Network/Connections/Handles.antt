-- ===== src/Network/Connections/Handles.antt =====
-- The handles of connections: a new client gets a free one, and those that have left are taken off.
use homecontrol_server.Common.{
  ℕ, zero, suc, ◌+◌, ◌-◌, ◌≤◌, ◌<◌, ◌≡◌, ◌≢◌, ◌⊎◌, refl, sym, ap, subst, ◌∙◌, true, false, List, [],
  ◌∷◌, none, some, arith, leb, ltb, ◌==◌, if◌then◌else◌, length, All, Option-cases, inl, inr,
  lt→ltb,
}
use homecontrol_server.Common.OrdMap.{find, assign, erase, ℕ_key, find-erase_ne}
use homecontrol_server.Network.Sending.{Connection, new_connection}
use homecontrol_server.Network.Connections.{
  Handler, connection_handle_max_value, next_handle, insert_next, occupied,
}

abbrev pub InRange : ℕ → Type 0
InRange n = (1 ≤ n) × (n ≤ connection_handle_max_value)

next_handle-InRange : (n : ℕ) → InRange n → InRange (next_handle n)
unfolding next_handle
next_handle-InRange n h = ground arith

map_All {ℓ κ} :
    {A : Type 0} {P : A → Type ℓ} {Q : A → Type κ} (f : (a : A) → P a → Q a) (xs : List A)
    → All P xs
    → All Q xs
map_All f [] h = tt
map_All f (x ∷ xs) h = (f x h.0, map_All f xs h.1)

-- The handles that a search from `h` on looks at.
visited : ℕ → ℕ → List ℕ
visited zero h = []
visited (suc n) h = h ∷ visited n (next_handle h)

-- How many steps of the search lead from one handle to another.
abbrev distance : ℕ → ℕ → ℕ
distance h x = if leb h x then x - h else x + connection_handle_max_value - h

distance_step : (h x : ℕ) → InRange h → InRange x → distance h x ≤ suc (distance (next_handle h) x)
unfolding next_handle
distance_step h x r s = ground arith

distance_around :
    (h : ℕ) → InRange h → connection_handle_max_value ≤ suc (distance (next_handle h) h)
unfolding next_handle
distance_around h r = ground arith

visited-distance :
    (n h : ℕ)
    → InRange h
    → n ≤ connection_handle_max_value
    → All (λ x. InRange x × (distance h x < n)) (visited n h)
unfolding visited
visited-distance zero h r l = tt
visited-distance (suc n) h r l = (
  (r, ground arith),
  map_All
      (λ x (p : InRange x × (distance (next_handle h) x < n)).
        (p.0, omega (arith, distance_step h x r p.0)))
      (visited n (next_handle h))
      (visited-distance n (next_handle h) (next_handle-InRange h r) (omega arith)),
)

length-visited : (n h : ℕ) → length (visited n h) ≡ n
unfolding visited
length-visited zero h = refl
length-visited (suc n) h = ap suc (length-visited n (next_handle h))

abbrev Distinct : List ℕ → Type 0
Distinct [] = Unit
Distinct (x ∷ xs) = All (λ y. x ≢ y) xs × Distinct xs

visited-Distinct : (n h : ℕ) → InRange h → n ≤ connection_handle_max_value → Distinct (visited n h)
unfolding visited
visited-Distinct zero h r l = tt
visited-Distinct (suc n) h r l = (
  map_All {Q = λ y. h ≢ y}
      (λ y (p : InRange y × (distance (next_handle h) y < n)) (e : h ≡ y).
        omega (arith, distance_around h r, subst (λ z. distance (next_handle h) z < n) (sym e) p.1))
      (visited n (next_handle h))
      (visited-distance n (next_handle h) (next_handle-InRange h r) (omega arith)),
  visited-Distinct n (next_handle h) (next_handle-InRange h r) (omega arith),
)

-- Distinct keys of a map are no more than its entries.
Occupied : List (ℕ × Connection) → ℕ → Type 0
Occupied m x = occupied x m ≡ true

length-erase_le : (x : ℕ) (m : List (ℕ × Connection)) → length (erase x m) ≤ length m
unfolding erase
length-erase_le x [] = omega arith
length-erase_le x ((k, c) ∷ m) = ground (arith, length-erase_le x m)

length-erase : (x : ℕ) (m : List (ℕ × Connection)) → Occupied m x → length (erase x m) < length m
unfolding erase Occupied find
length-erase x [] h = ground arith
length-erase x ((k, c) ∷ m) h = ground (arith, length-erase_le x m, length-erase x m)

differ : (x y : ℕ) → x ≢ y → (x == y) ≡ false
differ x y n = ground arith

Occupied-erase :
    (m : List (ℕ × Connection)) (x y : ℕ) → x ≢ y → Occupied m y → Occupied (erase x m) y
unfolding Occupied
Occupied-erase m x y n h = ground (arith, find-erase_ne x y m (differ x y n))

All-both :
    (m : List (ℕ × Connection)) (x : ℕ) (xs : List ℕ)
    → All (λ y. x ≢ y) xs
    → All (Occupied m) xs
    → All (Occupied (erase x m)) xs
All-both m x [] d o = tt
All-both m x (y ∷ xs) d o = (Occupied-erase m x y d.0 o.0, All-both m x xs d.1 o.1)

pigeonhole :
    (xs : List ℕ) (m : List (ℕ × Connection))
    → Distinct xs
    → All (Occupied m) xs
    → length xs ≤ length m
pigeonhole [] m d o = omega arith
pigeonhole (x ∷ xs) m d o =
    omega (arith, pigeonhole xs (erase x m) d.1 (All-both m x xs d.0 o.1), length-erase x m o.0)

-- A handler with a new client under a handle.
abbrev pub with_client : ℕ → ℕ → Handler → Handler
with_client k client h = record h {
  connections = assign k (new_connection client) h.connections;
  handle = next_handle k;
}

occupied-none : (x : ℕ) (m : List (ℕ × Connection)) → find x m ≡ none → occupied x m ≡ false
occupied-none x m e = ground arith

occupied-some :
    (x : ℕ) (m : List (ℕ × Connection)) {c : Connection} → find x m ≡ some c → occupied x m ≡ true
occupied-some x m e = ground arith

insert_here :
    (n client : ℕ) (h : Handler)
    → find h.handle h.connections ≡ none
    → ltb (length h.connections) connection_handle_max_value ≡ true
    → insert_next (suc n) client h ≡ some (with_client h.handle client h)
unfolding insert_next
insert_here n client h e l = rw (l, occupied-none h.handle h.connections e)

insert_later :
    (n client : ℕ) (h : Handler) (c : Connection)
    → find h.handle h.connections ≡ some c
    → ltb (length h.connections) connection_handle_max_value ≡ true
    → insert_next (suc n) client h
      ≡ insert_next n client (record h { handle = next_handle h.handle })
unfolding insert_next
insert_later n client h c e l = rw (l, occupied-some h.handle h.connections {c = c} e)

search :
    (n client : ℕ) (h : Handler)
    → InRange h.handle
    → length h.connections < connection_handle_max_value
    → All (Occupied h.connections) (visited n h.handle)
      ⊎ ((k : ℕ) × InRange k
          × (find k h.connections ≡ none)
          × (insert_next n client h ≡ some (with_client k client h)))
search zero client h r l = inl (unfold visited in tt)
search (suc n) client h r l = elim (Option-cases (find h.handle h.connections)) [
  | inl e ↦ inr (
    h.handle,
    r,
    e,
    insert_here n client h e (lt→ltb (length h.connections) connection_handle_max_value l),
  )
  | inr (c, e) ↦
      elim (search n client (record h { handle = next_handle h.handle })
        (next_handle-InRange h.handle r) l) [
          | inl o ↦ inl (unfold visited Occupied in (ground arith, o))
          | inr (k, q, f, i) ↦ inr (
            k,
            q,
            f,
            insert_later n client h c e
                  (lt→ltb (length h.connections) connection_handle_max_value l)
                ∙ i,
          )
        ]
]

-- As long as a handle is free, the search on one round more than there are connections ends: the new
-- client gets a handle in range that no other connection has.
pub insert_next_lem :
    (client : ℕ) (h : Handler)
    → InRange h.handle
    → length h.connections < connection_handle_max_value
    → (k : ℕ) × InRange k
      × (find k h.connections ≡ none)
      × (insert_next (suc (length h.connections)) client h ≡ some (with_client k client h))
insert_next_lem client h r l = elim (search (suc (length h.connections)) client h r l) [
  | inr found ↦ found
  | inl o ↦ absurd (
      omega (
        arith,
        pigeonhole (visited (suc (length h.connections)) h.handle) h.connections
            (visited-Distinct (suc (length h.connections)) h.handle r (omega arith)) o,
        length-visited (suc (length h.connections)) h.handle,
      ))
]
