-- ===== src/Network/Sending/Steps.antt =====
-- What each step of a connection keeps: its messages, and the bytes that have been taken of them.
use homecontrol_server.Common.{
  ℕ, zero, suc, subst, ◌≡◌, sym, ◌∙◌, ap, refl, true, Text, List, [], ◌∷◌, ◌++◌, none, some,
  get_elem?, Option-cases, Bool-cases, inl, inr, ◌⊎◌, map, modify, take, ◌==◌, ==_iff, append-nil,
  append_assoc, ◌&&◌,
}
use homecontrol_server.Queue.{Queue}
use homecontrol_server.Network.Sending.{
  Connection, Write, start_write, take_bytes, fail_write, without_bytes, ended,
}
use homecontrol_server.Network.Sending.Bytes.{
  bytes_of, messages, message_of, rest_of, Intact, bytes_of-append, bytes_of_same, bytes_of_other,
  take-drop, get_elem?-modify, get_elem?-modify_same, messages-modify, get_elem?-append,
  messages-append,
}

start_write_none : (c : Connection) → c.posted.items ≡ [] → start_write c ≡ c
unfolding start_write
start_write_none c e = rw e

start_write_some :
    (c : Connection) (m : Text) (ms : List Text)
    → c.posted.items ≡ m ∷ ms
    → start_write c ≡ record c {
      posted = record { items = ms };
      writes = c.writes ++ record { message = m; rest = m; running = true } ∷ [];
    }
unfolding start_write
start_write_some c m ms e = rw e

-- The messages that have been started and those that wait for their start.
abbrev pub accepted : Connection → List Text
accepted c = messages c.writes ++ c.posted.items

pub accepted-start_write : (c : Connection) → accepted (start_write c) ≡ accepted c
accepted-start_write c = by_items c.posted.items refl
  where
    by_items : (ms : List Text) → c.posted.items ≡ ms → accepted (start_write c) ≡ accepted c
    by_items [] e = rw (start_write_none c e)
    by_items (m ∷ ms) e =
        rw (start_write_some c m ms e, messages-append c.writes _, e)
          (append_assoc (messages c.writes) (m ∷ []) ms)

started-Intact :
    (c : Connection) (m : Text) (posted : Queue Text)
    → Intact c
    → Intact (record c {
      posted = posted;
      writes = c.writes ++ record { message = m; rest = m; running = true } ∷ [];
    })
started-Intact c m posted h i =
    elim (get_elem?-append c.writes (record { message = m; rest = m; running = true }) i) [
      | inr e ↦ rw e (h i)
      | inl (none_before, e) ↦ rw e (ap (λ bs. bs ++ m) (nothing none_before))
    ]
  where
    nothing : get_elem? c.writes i ≡ none → bytes_of i c.written ≡ []
    nothing e =
        sym (append-nil (bytes_of i c.written))
        ∙ subst (λ w. bytes_of i c.written ++ rest_of w ≡ message_of w) e (h i)

pub start_write-Intact : (c : Connection) → Intact c → Intact (start_write c)
start_write-Intact c h = by_items c.posted.items refl
  where
    by_items : (ms : List Text) → c.posted.items ≡ ms → Intact (start_write c)
    by_items [] e = rw (start_write_none c e) h
    by_items (m ∷ ms) e =
        rw (start_write_some c m ms e) (started-Intact c m (record { items = ms }) h)

-- A connection whose socket has taken up to `k` bytes of the write `w`, which is the `n`-th one.
abbrev taken : ℕ → ℕ → Write → Connection → Connection
taken n k w c = record c {
  writes = modify c.writes n (without_bytes k);
  written = c.written ++ map (λ b. (n, b)) (take k w.rest);
}

take_bytes-cases :
    (n k : ℕ) (c : Connection)
    → (take_bytes n k c ≡ c)
      ⊎ ((w : Write) × (get_elem? c.writes n ≡ some w) × (take_bytes n k c ≡ taken n k w c))
unfolding take_bytes
take_bytes-cases n k c = elim (Option-cases (get_elem? c.writes n)) [
  | inl e ↦ inl (rw (take_bytes, e) refl)
  | inr (w, e) ↦ elim (Bool-cases (c.is_open && w.running)) [
    | inl r ↦ inr (w, e, rw (take_bytes, e) (rw r refl))
    | inr r ↦ inl (rw (take_bytes, e) (rw r refl))
  ]
]

pub accepted-take_bytes : (n k : ℕ) (c : Connection) → accepted (take_bytes n k c) ≡ accepted c
accepted-take_bytes n k c = elim (take_bytes-cases n k c) [
  | inl e ↦ rw e refl
  | inr (w, _, e) ↦
      rw e
        (ap (λ ms. ms ++ c.posted.items) (messages-modify c.writes n (without_bytes k) (λ v. refl)))
]

taken-Intact :
    (n k : ℕ) (c : Connection) (w : Write)
    → get_elem? c.writes n ≡ some w
    → Intact c
    → Intact (taken n k w c)
taken-Intact n k c w e h i = elim (Bool-cases (n == i)) [
  | inr other ↦
      rw
        (
          bytes_of-append i c.written _,
          bytes_of_other i n (take k w.rest) other,
          append-nil (bytes_of i c.written),
          get_elem?-modify c.writes n i (without_bytes k) other,
        )
        (h i)
  | inl same ↦
      subst
        (λ i.
          bytes_of i (c.written ++ map (λ b. (n, b)) (take k w.rest))
            ++ rest_of (get_elem? (modify c.writes n (without_bytes k)) i)
          ≡ message_of (get_elem? (modify c.writes n (without_bytes k)) i))
        ((==_iff n i).0 same)
        (rw
          (
            get_elem?-modify_same c.writes n (without_bytes k) e,
            bytes_of-append n c.written _,
            bytes_of_same n (take k w.rest),
            append_assoc (bytes_of n c.written) (take k w.rest) _,
            take-drop k w.rest,
          )
          (subst (λ v. bytes_of n c.written ++ rest_of v ≡ message_of v) e (h n)))
]

pub take_bytes-Intact : (n k : ℕ) (c : Connection) → Intact c → Intact (take_bytes n k c)
take_bytes-Intact n k c h = elim (take_bytes-cases n k c) [
  | inl e ↦ subst Intact (sym e) h
  | inr (w, at_n, e) ↦ subst Intact (sym e) (taken-Intact n k c w at_n h)
]

-- A write that ends keeps its message and its rest.
texts_of_ended :
    (ws : List Write) (n i : ℕ)
    → (rest_of (get_elem? (modify ws n ended) i) ≡ rest_of (get_elem? ws i))
      × (message_of (get_elem? (modify ws n ended) i) ≡ message_of (get_elem? ws i))
texts_of_ended [] n i = (refl, refl)
texts_of_ended (w ∷ ws) zero zero = (refl, refl)
texts_of_ended (w ∷ ws) zero (suc i) = (refl, refl)
texts_of_ended (w ∷ ws) (suc n) zero = (refl, refl)
texts_of_ended (w ∷ ws) (suc n) (suc i) = texts_of_ended ws n i

pub fail_write-Intact : (n : ℕ) (c : Connection) → Intact c → Intact (fail_write n c)
unfolding fail_write
fail_write-Intact n c h i =
    rw ((texts_of_ended c.writes n i).0, (texts_of_ended c.writes n i).1) (h i)

pub accepted-fail_write : (n : ℕ) (c : Connection) → accepted (fail_write n c) ≡ accepted c
unfolding fail_write
accepted-fail_write n c =
    ap (λ ms. ms ++ c.posted.items) (messages-modify c.writes n ended (λ v. refl))
