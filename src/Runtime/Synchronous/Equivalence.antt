-- ===== src/Runtime/Synchronous/Equivalence.antt =====
-- A runtime without a thread does what a thread does.
use homecontrol_server.Common.{
  ℕ, ◌≡◌, refl, ap, ◌∙◌, true, none, some, Bool-cases, inl, inr, List, [], ◌∷◌, ◌++◌, arith, length,
  append-nil, All, All-append, if◌then◌else◌,
}
use homecontrol_server.Data.Meta.{cmd_eq, run_function, run}
use homecontrol_server.Data.Message.{Message, message, function, owner_callback}
use homecontrol_server.Queue.{empty}
use homecontrol_server.Runtime.{
  Owner, Thread, dispatch, pre_parse_msg, run_value, run_function_of, unless_handled,
  handle_new_message,
}
use homecontrol_server.Runtime.Dispatch.{
  KeepsRunning, concat, with_rx, handle_all, handle_all-append, clear_queue-handle_all,
  handle_new_message-concat,
}
use homecontrol_server.Runtime.Synchronous.{SynchronosThread, callback, is_due, call_owner}

-- What `TimerCallback` of a thread posts.
abbrev pub timer_message : Message
timer_message = message run_function run (function owner_callback)

module _ {S : Type 0} (o : Owner S) where
  -- The function of the timer, behind the messages: what it does if it returns.
  call_owner-timer :
      (t : Thread S) (ms : List Message)
      → call_owner o (handle_all o t ms) ≡ (
          if (o.callback (handle_all o t ms).0.owner).2
          then some (handle_all o t (ms ++ timer_message ∷ []))
          else none)
  unfolding call_owner handle_all dispatch pre_parse_msg run_value run_function_of unless_handled
      cmd_eq
  call_owner-timer t ms = elim (Bool-cases (o.callback (handle_all o t ms).0.owner).2) [
    | inl e ↦ rw (handle_all-append o t ms (timer_message ∷ [])) (rw e (simp append-nil))
    | inr e ↦ rw e refl
  ]

  one_wait :
      (t : Thread S) (ms : List Message)
      → t.running ≡ true
      → All KeepsRunning ms
      → handle_new_message o (with_rx empty t) (ms ∷ []) ≡ handle_all o (with_rx empty t) ms
  unfolding concat
  one_wait t ms r h =
      handle_new_message-concat o t (ms ∷ []) r (h, tt)
      ∙ ap (handle_all o (with_rx empty t)) (append-nil ms)

  -- If the time has come, a runtime without a thread first handles its messages as a running thread does
  -- that wakes with them. Then its owner's callback decides: if it returns, the runtime ends up as that
  -- thread does with the message of its timer behind the others, and the time starts again; if it throws,
  -- the exception leaves the function, which nothing catches. Before the time has come nothing happens.
  -- No message stops the runtime.
  pub callback-handle_new_message :
      (now restart : ℕ) (s : SynchronosThread S)
      → s.thread.running ≡ true
      → All KeepsRunning s.thread.mailbox.rx.items
      → let ms = s.thread.mailbox.rx.items in
        let heard = handle_new_message o (with_rx empty s.thread) (ms ∷ []) in
        let woken =
          handle_new_message o (with_rx empty s.thread) ((ms ++ timer_message ∷ []) ∷ []) in
        callback o now restart s ≡ (
          if is_due now s
          then (if (o.callback heard.0.owner).2
              then some (record s { thread = woken.0; start_timer = restart }, woken.1)
              else none)
          else some (s, []))
  unfolding callback
  callback-handle_new_message now restart s r h =
      let ms = s.thread.mailbox.rx.items in
      let called = clear_queue-handle_all o ms (length ms) s.thread (omega arith) in
      let timed =
        one_wait s.thread (ms ++ timer_message ∷ []) r
          (All-append KeepsRunning ms (timer_message ∷ []) h (λ e. cc, tt)) in
      rw (one_wait s.thread ms r h, timed, called, call_owner-timer (with_rx empty s.thread) ms)
        (elim (Bool-cases (o.callback (handle_all o (with_rx empty s.thread) ms).0.owner).2) [
          | inl e ↦ rw e refl
          | inr e ↦ rw e refl
        ])
