-- ===== src/Runtime/Dispatch.antt =====
-- The loop of `HandleNewMessage` handles every message once, in the order of arrival.
pub mod Owners
use homecontrol_server.Common.{
  ℕ, zero, suc, ◌≤◌, ◌≡◌, refl, sym, ap, ◌∙◌, ◌≢◌, true, false, List, [], ◌∷◌, ◌++◌, Option, none,
  some, arith, length, append-nil, append_assoc, All, Bool-cases, if_true, inl, inr,
}
use homecontrol_server.Data.Meta.{cmd_eq, run_function}
use homecontrol_server.Data.Message.{
  Message, Closure, stop_running, owner_callback, handle_incoming, send_back, Effect, send, answers,
  as_function,
}
use homecontrol_server.Queue.{Queue, empty, size}
use homecontrol_server.Runtime.{
  Owner, Thread, Replies, perform, PreParsed, handled, run_function_of, pre_parse_msg, to_owner,
  run_value, unless_handled, dispatch, clear_queue, push_all, push_message, handle_new_message,
}

-- A message that does not carry the function by which a thread ends itself.
abbrev pub KeepsRunning : Message → Type 0
KeepsRunning m = as_function m.value ≢ some stop_running

-- The messages of all waits, in order.
unfoldable pub concat : List (List Message) → List Message
concat [] = []
concat (ms ∷ rest) = ms ++ concat rest

module _ {S : Type 0} where
  abbrev pub with_rx : Queue Message → Thread S → Thread S
  with_rx q t = record t { mailbox = record (t.mailbox) { rx = q } }

  abbrev first_with_rx : Queue Message → Thread S × Replies → Thread S × Replies
  first_with_rx q r = (with_rx q r.0, r.1)

  perform-with_rx :
      (q : Queue Message) (es : List Effect) (t : Thread S)
      → perform es (with_rx q t) ≡ first_with_rx q (perform es t)
  unfolding perform
  perform-with_rx q [] t = refl
  perform-with_rx q (send m ∷ es) t = perform-with_rx q es _
  perform-with_rx q (answers a m ∷ es) t = rw (perform-with_rx q es t)

  perform-running : (es : List Effect) (t : Thread S) → (perform es t).0.running ≡ t.running
  unfolding perform
  perform-running [] t = refl
  perform-running (send m ∷ es) t = perform-running es _
  perform-running (answers a m ∷ es) t = perform-running es t

  perform-rx : (es : List Effect) (t : Thread S) → (perform es t).0.mailbox.rx ≡ t.mailbox.rx
  unfolding perform
  perform-rx [] t = refl
  perform-rx (send m ∷ es) t = perform-rx es _
  perform-rx (answers a m ∷ es) t = perform-rx es t

module _ {S : Type 0} (o : Owner S) where
  -- The messages one after the other, with no queue: what the loop is meant to do.
  unfoldable pub handle_all : Thread S → List Message → Thread S × Replies
  handle_all t [] = (t, [])
  handle_all t (m ∷ ms) =
      let (t', rs) = dispatch o t m in let (t'', rs') = handle_all t' ms in (t'', rs ++ rs')

  run_function_of-with_rx :
      (q : Queue Message) (t : Thread S) (f : Closure)
      → run_function_of o (with_rx q t) f
        ≡ (first_with_rx q (run_function_of o t f).0, (run_function_of o t f).1)
  unfolding run_function_of
  run_function_of-with_rx q t stop_running = refl
  run_function_of-with_rx q t owner_callback =
      ap (λ d. (d, (o.callback t.owner).2)) (perform-with_rx q (o.callback t.owner).1 _)
  run_function_of-with_rx q t (handle_incoming r) =
      ap (λ d. (d, (o.call t.owner (handle_incoming r)).2)) (perform-with_rx q _ _)
  run_function_of-with_rx q t (send_back n s) =
      ap (λ d. (d, (o.call t.owner (send_back n s)).2)) (perform-with_rx q _ _)

  to_owner-with_rx :
      (q : Queue Message) (t : Thread S) (m : Message)
      → to_owner o (with_rx q t) m ≡ first_with_rx q (to_owner o t m)
  unfolding to_owner
  to_owner-with_rx q t m = perform-with_rx q _ _

  run_value-with_rx :
      (q : Queue Message) (v : Option Closure) (t : Thread S)
      → run_value o v (with_rx q t) ≡ ((run_value o v t).0, first_with_rx q (run_value o v t).1)
  unfolding run_value
  run_value-with_rx q none t = refl
  run_value-with_rx q (some f) t = rw (run_function_of-with_rx q t f)

  pre_parse_msg-with_rx :
      (q : Queue Message) (t : Thread S) (m : Message)
      → pre_parse_msg o (with_rx q t) m
        ≡ ((pre_parse_msg o t m).0, first_with_rx q (pre_parse_msg o t m).1)
  unfolding pre_parse_msg
  pre_parse_msg-with_rx q t m = elim (Bool-cases (cmd_eq m.cmd run_function)) [
    | inl e ↦ rw e (run_value-with_rx q (as_function m.value) t)
    | inr e ↦ rw e
  ]

  unless_handled-with_rx :
      (q : Queue Message) (p : PreParsed) (m : Message) (done : Thread S × Replies)
      → unless_handled o p m (first_with_rx q done) ≡ first_with_rx q (unless_handled o p m done)
  unfolding unless_handled
  unless_handled-with_rx q handled m done = refl
  unless_handled-with_rx q _ m done = ap (λ r. (r.0, done.1 ++ r.1)) (to_owner-with_rx q done.0 m)

  dispatch-with_rx :
      (q : Queue Message) (t : Thread S) (m : Message)
      → dispatch o (with_rx q t) m ≡ first_with_rx q (dispatch o t m)
  unfolding dispatch
  dispatch-with_rx q t m =
      rw (pre_parse_msg-with_rx q t m)
        (unless_handled-with_rx q (pre_parse_msg o t m).0 m (pre_parse_msg o t m).1)

  -- On fuel for every queued message, the inner loop handles all of them in their order and leaves
  -- the queue empty.
  pub clear_queue-handle_all :
      (ms : List Message) (n : ℕ) (t : Thread S)
      → length ms ≤ n
      → clear_queue o n (with_rx (record { items = ms }) t) ≡ handle_all (with_rx empty t) ms
  unfolding clear_queue handle_all
  clear_queue-handle_all [] zero t h = refl
  clear_queue-handle_all [] (suc n) t h = refl
  clear_queue-handle_all (m ∷ ms) zero t h = absurd (omega arith)
  clear_queue-handle_all (m ∷ ms) (suc n) t h =
      rw (dispatch-with_rx (record { items = ms }) t m, dispatch-with_rx empty t m)
        (rw (clear_queue-handle_all ms n (dispatch o t m).0 (omega arith)))

  run_value-running :
      (v : Option Closure) (t : Thread S)
      → v ≢ some stop_running
      → (run_value o v t).1.0.running ≡ t.running
  unfolding run_value
  run_value-running none t h = refl
  run_value-running (some stop_running) t h = absurd (h refl)
  run_value-running (some owner_callback) t h = perform-running _ _
  run_value-running (some (handle_incoming r)) t h = perform-running _ _
  run_value-running (some (send_back n s)) t h = perform-running _ _

  pre_parse_msg-running :
      (t : Thread S) (m : Message) → KeepsRunning m → (pre_parse_msg o t m).1.0.running ≡ t.running
  unfolding pre_parse_msg
  pre_parse_msg-running t m h = elim (Bool-cases (cmd_eq m.cmd run_function)) [
    | inl e ↦ rw e (run_value-running (as_function m.value) t h)
    | inr e ↦ rw e
  ]

  unless_handled-running :
      (p : PreParsed) (m : Message) (done : Thread S × Replies)
      → (unless_handled o p m done).0.running ≡ done.0.running
  unfolding unless_handled to_owner
  unless_handled-running handled m done = refl
  unless_handled-running _ m done = perform-running _ _

  dispatch-running :
      (t : Thread S) (m : Message) → KeepsRunning m → (dispatch o t m).0.running ≡ t.running
  unfolding dispatch
  dispatch-running t m h =
      unless_handled-running (pre_parse_msg o t m).0 m (pre_parse_msg o t m).1
      ∙ pre_parse_msg-running t m h

  handle_all-running :
      (t : Thread S) (ms : List Message)
      → All KeepsRunning ms
      → (handle_all t ms).0.running ≡ t.running
  unfolding handle_all
  handle_all-running t [] h = refl
  handle_all-running t (m ∷ ms) h =
      handle_all-running (dispatch o t m).0 ms h.1 ∙ dispatch-running t m h.0

  pub handle_all-append :
      (t : Thread S) (xs ys : List Message)
      → handle_all t (xs ++ ys) ≡ (
        (handle_all (handle_all t xs).0 ys).0,
        (handle_all t xs).1 ++ (handle_all (handle_all t xs).0 ys).1,
      )
  unfolding handle_all
  handle_all-append t [] ys = refl
  handle_all-append t (m ∷ xs) ys =
      rw (handle_all-append (dispatch o t m).0 xs ys) (simp append_assoc)

  handle_all-with_rx :
      (q : Queue Message) (t : Thread S) (ms : List Message)
      → handle_all (with_rx q t) ms ≡ first_with_rx q (handle_all t ms)
  unfolding handle_all
  handle_all-with_rx q t [] = refl
  handle_all-with_rx q t (m ∷ ms) =
      rw (dispatch-with_rx q t m) (rw (handle_all-with_rx q (dispatch o t m).0 ms))

  push_all-with_rx :
      (t : Thread S) (ms : List Message)
      → push_all t ms ≡ with_rx (record { items = t.mailbox.rx.items ++ ms }) t
  unfolding push_all
  push_all-with_rx t [] = rw append-nil
  push_all-with_rx t (m ∷ ms) =
      push_all-with_rx (push_message t m) ms
      ∙ ap (λ q. with_rx (record { items = q }) t) (append_assoc t.mailbox.rx.items (m ∷ []) ms)

  then_replies : Replies → Thread S × Replies → Thread S × Replies
  then_replies rs r = (r.0, rs ++ r.1)

  then_rounds : List (List Message) → Thread S × Replies → Thread S × Replies
  unfolding then_replies
  then_rounds rest r = then_replies r.1 (handle_new_message o r.0 rest)

  then_all : List Message → Thread S × Replies → Thread S × Replies
  unfolding then_replies
  then_all ms r = then_replies r.1 (handle_all r.0 ms)

  -- A thread that is not told to stop handles the messages of all its waits as if they had come in
  -- one sequence: how the arrivals fall into waits changes neither its state nor its replies, and no
  -- message is lost, doubled or overtaken.
  pub handle_new_message-concat :
      (t : Thread S) (batches : List (List Message))
      → t.running ≡ true
      → All (All KeepsRunning) batches
      → handle_new_message o (with_rx empty t) batches
        ≡ handle_all (with_rx empty t) (concat batches)
  unfolding handle_new_message handle_all concat then_rounds then_all
  handle_new_message-concat t [] r h = refl
  handle_new_message-concat t (ms ∷ rest) r h =
      let done = handle_all t ms in
      let woken : clear_queue o (size (push_all (with_rx empty t) ms).mailbox.rx)
            (push_all (with_rx empty t) ms)
          ≡ first_with_rx empty done =
        rw (push_all-with_rx (with_rx empty t) ms)
          (clear_queue-handle_all ms (length ms) t (omega arith) ∙ handle_all-with_rx empty t ms) in
      let later : handle_new_message o (with_rx empty done.0) rest
          ≡ handle_all (with_rx empty done.0) (concat rest) =
        handle_new_message-concat done.0 rest (handle_all-running t ms h.0 ∙ r) h.1 in
      if_true _ _ r
      ∙ ap (then_rounds rest) woken
      ∙ ap (then_replies done.1) later
      ∙ sym (
          handle_all-append (with_rx empty t) ms (concat rest)
          ∙ ap (then_all (concat rest)) (handle_all-with_rx empty t ms))
