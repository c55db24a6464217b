-- ===== src/Network/Sending/Bytes.antt =====
-- The bytes that a socket has taken, write by write, and the list of the writes.
use homecontrol_server.Common.{
  ℕ, zero, suc, length, ◌≡◌, ap, refl, Text, List, [], ◌∷◌, ◌++◌, Option, none, some, arith,
  get_elem?, if◌then◌else◌, Bool-cases, inl, inr, ◌⊎◌, map, modify, take, drop, ◌==◌, ==_iff, false,
}
use homecontrol_server.Network.Sending.{Connection, Write}

-- The bytes that the socket has taken of one write, in order.
pub bytes_of : ℕ → List (ℕ × ℕ) → Text
bytes_of i [] = []
bytes_of i ((n, b) ∷ bs) = if n == i then b ∷ bytes_of i bs else bytes_of i bs

abbrev pub messages : List Write → List Text
messages ws = map (λ w. w.message) ws

abbrev pub message_of : Option Write → Text
message_of none = []
message_of (some w) = w.message

abbrev pub rest_of : Option Write → Text
rest_of none = []
rest_of (some w) = w.rest

-- Of every write the socket has taken all but its rest. A write that was never started has nothing.
abbrev pub Intact : Connection → Type 0
Intact c =
    (i : ℕ)
    → bytes_of i c.written ++ rest_of (get_elem? c.writes i) ≡ message_of (get_elem? c.writes i)

pub bytes_of-append :
    (i : ℕ) (xs ys : List (ℕ × ℕ)) → bytes_of i (xs ++ ys) ≡ bytes_of i xs ++ bytes_of i ys
unfolding bytes_of
bytes_of-append i [] ys = refl
bytes_of-append i ((n, b) ∷ xs) ys = elim (Bool-cases (n == i)) [
  | inl e ↦ rw e (ap (◌∷◌ b) (bytes_of-append i xs ys))
  | inr e ↦ rw e (bytes_of-append i xs ys)
]

pub bytes_of_same : (n : ℕ) (bs : Text) → bytes_of n (map (λ b. (n, b)) bs) ≡ bs
unfolding bytes_of
bytes_of_same n [] = refl
bytes_of_same n (b ∷ bs) = rw ((==_iff n n).1 refl) (ap (◌∷◌ b) (bytes_of_same n bs))

pub bytes_of_other :
    (i n : ℕ) (bs : Text) → (n == i) ≡ false → bytes_of i (map (λ b. (n, b)) bs) ≡ []
unfolding bytes_of
bytes_of_other i n [] e = refl
bytes_of_other i n (b ∷ bs) e = rw e (bytes_of_other i n bs e)

pub no_bytes : (i : ℕ) → bytes_of i [] ≡ []
unfolding bytes_of
no_bytes i = refl

pub take-drop : (k : ℕ) (bs : Text) → take k bs ++ drop k bs ≡ bs
take-drop zero bs = refl
take-drop (suc k) [] = refl
take-drop (suc k) (b ∷ bs) = ap (◌∷◌ b) (take-drop k bs)

pub get_elem?-modify :
    (ws : List Write) (n i : ℕ) (f : Write → Write)
    → (n == i) ≡ false
    → get_elem? (modify ws n f) i ≡ get_elem? ws i
get_elem?-modify [] n i f e = refl
get_elem?-modify (w ∷ ws) zero zero f e = absurd (ground arith)
get_elem?-modify (w ∷ ws) zero (suc i) f e = refl
get_elem?-modify (w ∷ ws) (suc n) zero f e = refl
get_elem?-modify (w ∷ ws) (suc n) (suc i) f e = get_elem?-modify ws n i f (ground arith)

pub get_elem?-modify_same :
    (ws : List Write) (n : ℕ) (f : Write → Write) {w : Write}
    → get_elem? ws n ≡ some w
    → get_elem? (modify ws n f) n ≡ some (f w)
get_elem?-modify_same [] n f e = absurd (ground arith)
get_elem?-modify_same (w ∷ ws) zero f e = ground arith
get_elem?-modify_same (w ∷ ws) (suc n) f e = get_elem?-modify_same ws n f e

pub messages-modify :
    (ws : List Write) (n : ℕ) (f : Write → Write)
    → ((w : Write) → (f w).message ≡ w.message)
    → messages (modify ws n f) ≡ messages ws
messages-modify [] n f h = refl
messages-modify (w ∷ ws) zero f h = rw (h w) refl
messages-modify (w ∷ ws) (suc n) f h = ap (◌∷◌ w.message) (messages-modify ws n f h)

-- A write that is appended is the one at its place, where there was none.
pub get_elem?-append :
    (ws : List Write) (w : Write) (i : ℕ)
    → ((get_elem? ws i ≡ none) × (get_elem? (ws ++ w ∷ []) i ≡ some w))
      ⊎ (get_elem? (ws ++ w ∷ []) i ≡ get_elem? ws i)
get_elem?-append [] w zero = inl (refl, refl)
get_elem?-append [] w (suc i) = inr refl
get_elem?-append (v ∷ ws) w zero = inr refl
get_elem?-append (v ∷ ws) w (suc i) = get_elem?-append ws w i

pub messages-append : (ws vs : List Write) → messages (ws ++ vs) ≡ messages ws ++ messages vs
messages-append [] vs = refl
messages-append (w ∷ ws) vs = ap (◌∷◌ w.message) (messages-append ws vs)

pub take_all : (bs : Text) → take (length bs) bs ≡ bs
take_all [] = refl
take_all (b ∷ bs) = ap (◌∷◌ b) (take_all bs)

-- The bytes as they go over the wire.
abbrev pub wire : List (ℕ × ℕ) → Text
wire written = map (λ p. p.1) written

pub wire-append : (xs ys : List (ℕ × ℕ)) → wire (xs ++ ys) ≡ wire xs ++ wire ys
wire-append [] ys = refl
wire-append (x ∷ xs) ys = ap (◌∷◌ x.1) (wire-append xs ys)

pub wire_of_numbered : (n : ℕ) (bs : Text) → wire (map (λ b. (n, b)) bs) ≡ bs
wire_of_numbered n [] = refl
wire_of_numbered n (b ∷ bs) = ap (◌∷◌ b) (wire_of_numbered n bs)
