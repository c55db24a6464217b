-- ===== src/Network/Receiving/Stream.antt =====
-- The bytes of a connection as messages, each behind the other with its delimiter.
use homecontrol_server.Common.{
  ℕ, suc, ◌+◌, ◌≡◌, ◌≢◌, ◌⊎◌, inl, inr, refl, ap, ◌&&◌, Text, List, [], ◌∷◌, ◌++◌, Option, none,
  some, ◌==◌, length, take, drop, if◌then◌else◌, arith, All,
}
use homecontrol_server.Network.Sending.{delimiter}

-- How many bytes end with the first delimiter.
unfoldable pub end_of_first : Text → Option ℕ
end_of_first [] = none
end_of_first (c ∷ []) = none
end_of_first (c ∷ d ∷ s) =
    let later : Option ℕ = elim (end_of_first (d ∷ s)) [ none ↦ none | some n ↦ some (suc n) ] in
    if (c == 13) && (d == 10) then some 2 else later

abbrev pub NoReturn : Text → Type 0
NoReturn = All (λ c. c ≢ 13)

-- The bytes of messages, each ended by a delimiter, and of the start of another one.
unfoldable pub stream : List Text → Text → Text
stream [] tail = tail
stream (m ∷ ms) tail = m ++ (delimiter ++ stream ms tail)

pub end_of_first-none : (s : Text) → NoReturn s → end_of_first s ≡ none
unfolding end_of_first
end_of_first-none [] h = refl
end_of_first-none (c ∷ []) h = refl
end_of_first-none (c ∷ d ∷ s) h = ground (arith, end_of_first-none (d ∷ s) h.1, h.0)

pub end_of_first-message :
    (m rest : Text) → NoReturn m → end_of_first (m ++ (delimiter ++ rest)) ≡ some (length m + 2)
unfolding end_of_first
end_of_first-message [] rest h = refl
end_of_first-message (c ∷ []) rest h = ground (arith, h.0)
end_of_first-message (c ∷ d ∷ m) rest h = ground (arith, h.0, end_of_first-message (d ∷ m) rest h.1)

pub All-prefix : (p q : Text) → NoReturn (p ++ q) → NoReturn p
All-prefix [] q h = tt
All-prefix (c ∷ p) q h = (h.0, All-prefix p q h.1)

pub All-suffix {ℓ} : {A : Type ℓ} (P : A → Type 0) (xs ys : List A) → All P (xs ++ ys) → All P ys
All-suffix P [] ys h = h
All-suffix P (x ∷ xs) ys h = All-suffix P xs ys h.1

pub none-ne-some : {n : ℕ} → none ≢ some n
none-ne-some e = cc

-- The bytes of all packets.
unfoldable pub joined : List Text → Text
joined [] = []
joined (p ∷ packets) = p ++ joined packets

-- A prefix of a stream holds no whole message, or it starts with the first one.
pub prefix_cases :
    (m p q x : Text)
    → NoReturn m
    → p ++ q ≡ m ++ (delimiter ++ x)
    → (end_of_first p ≡ none) ⊎ ((p' : Text) × (p ≡ m ++ (delimiter ++ p')) × (p' ++ q ≡ x))
unfolding end_of_first
prefix_cases m [] q x h e = inl refl
prefix_cases m (c ∷ []) q x h e = inl refl
prefix_cases [] (c ∷ d ∷ p) q x h e = inr (p, cc, cc)
prefix_cases (b ∷ m) (c ∷ d ∷ p) q x h e = elim (prefix_cases m (d ∷ p) q x h.1 (cc)) [
  | inl n ↦ inl ground (arith, h.0)
  | inr (p', ep, eq) ↦ inr (p', cc, eq)
]

pub take_message : (m rest : Text) → take (length m + 2) (m ++ (delimiter ++ rest)) ≡ m ++ delimiter
take_message [] rest = refl
take_message (c ∷ m) rest =
    let e : suc (length m) + 2 ≡ suc (length m + 2) = omega arith in
    rw e (ap (◌∷◌ c) (take_message m rest))

pub drop_message : (m rest : Text) → drop (length m + 2) (m ++ (delimiter ++ rest)) ≡ rest
drop_message [] rest = refl
drop_message (c ∷ m) rest =
    let e : suc (length m) + 2 ≡ suc (length m + 2) = omega arith in rw e (drop_message m rest)
