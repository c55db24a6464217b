-- ===== src/Queue.antt =====
-- homecontrol/Queue.h: the queue that threads share. Every method holds the mutex for its whole
-- body, so a history of the queue is a sequence of whole calls.
use homecontrol_server.Common.{
  ℕ, zero, suc, ◌+◌, ◌≤◌, ◌≡◌, refl, List, [], ◌∷◌, ◌++◌, Option, none, some, arith, length,
  length-append, append-nil, append_assoc,
}

-- The front of the queue is the head of the list.
pub record Queue {ℓ} (A : Type ℓ) : Type ℓ where
  pub items : List A

module _ {ℓ} {A : Type ℓ} where
  abbrev pub empty : Queue A
  empty = record { items = [] }

  abbrev pub push : Queue A → A → Queue A
  push q a = record { items = q.items ++ a ∷ [] }

  abbrev pop_items : List A → Option (A × Queue A)
  pop_items [] = none
  pop_items (a ∷ rest) = some (a, record { items = rest })

  abbrev pub pop : Queue A → Option (A × Queue A)
  pop q = pop_items q.items

  abbrev pub size : Queue A → ℕ
  size q = length q.items

  -- `while (auto element = queue.Pop())`: the elements that the loop sees, and what is left.
  pub pop_all : ℕ → Queue A → List A × Queue A
  pop_all zero q = ([], q)
  pop_all (suc n) q = elim (pop q) [
    | none ↦ ([], q)
    | some (a, rest) ↦ let (seen, left) = pop_all n rest in (a ∷ seen, left)
  ]

  pub push_all : List A → Queue A → Queue A
  push_all [] q = q
  push_all (a ∷ xs) q = push_all xs (push q a)

  items-push_all : (xs : List A) (q : Queue A) → (push_all xs q).items ≡ q.items ++ xs
  unfolding push_all
  items-push_all [] q = simp append-nil
  items-push_all (a ∷ xs) q = simp (items-push_all xs, append_assoc)

  pop_all_items :
      (xs : List A) (n : ℕ) → length xs ≤ n → pop_all n (record { items = xs }) ≡ (xs, empty)
  unfolding pop_all
  pop_all_items [] zero h = refl
  pop_all_items [] (suc n) h = refl
  pop_all_items (a ∷ xs) zero h = absurd (omega arith)
  pop_all_items (a ∷ xs) (suc n) h = rw (pop_all_items xs n (omega arith))

  -- A consumer that pops until the queue is empty sees what the queue held and then every element
  -- that was pushed, each once and in the order of the pushes; as many rounds as the queue has
  -- elements are enough, and the queue is empty afterwards.
  pub pop_all-push_all :
      (xs : List A) (q : Queue A) (n : ℕ)
      → size q + length xs ≤ n
      → pop_all n (push_all xs q) ≡ (q.items ++ xs, empty)
  pop_all-push_all xs q n h =
      let e : push_all xs q ≡ record { items = q.items ++ xs } =
        λ i. record { items = items-push_all xs q i } in
      rw e (pop_all_items (q.items ++ xs) n (omega (arith, length-append q.items xs)))
