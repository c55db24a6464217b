-- ===== src/Runtime/Synchronous.antt =====
-- homecontrol/SynchronosThread.cpp and SynchronosThreadManager.cpp: runtimes without a thread of their
-- own, which the main loop calls. The queues, the name and the owner are those of `Thread`, whose flag
-- `running` is not used; times of `steady_clock` are numbers, and each reading is an argument.
pub mod Equivalence
use homecontrol_server.Common.{
  ℕ, ◌+◌, Bool, true, false, List, [], ◌∷◌, ◌++◌, Option, none, some, ◌>>=◌, leb, if◌then◌else◌,
}
use homecontrol_server.Data.Message.{Message}
use homecontrol_server.Queue.{size}
use homecontrol_server.Subscription.{SubscriptionData}
use homecontrol_server.Runtime.{
  Owner, Mailbox, Thread, Replies, RuntimeConfigure, new_thread, perform, clear_queue, send_message,
  push_message, receive_message,
}
use homecontrol_server.Runtime.Routing

pub record SynchronosThread (S : Type 0) : Type 0 where
  pub thread : Thread S
  pub run_time : ℕ
  pub start_timer : ℕ

module _ {S : Type 0} where
  pub new_synchronos_thread : RuntimeConfigure → S → ℕ → SynchronosThread S
  unfolding new_thread
  new_synchronos_thread c s now = record {
    thread = new_thread c s;
    run_time = c.run_time;
    start_timer = now;
  }

  unfoldable pub is_due : ℕ → SynchronosThread S → Bool
  is_due now s = leb (s.start_timer + s.run_time) now

  -- `m_IRuntime.Callback()` behind the messages that have been handled; `none` if it throws, since nothing
  -- catches the exception here.
  call_owner : Owner S → Thread S × Replies → Option (Thread S × Replies)
  unfolding perform
  call_owner o (t, rs) =
      let (s, es, returned) = o.callback t.owner in
      let (t', rs') = perform es (record t { owner = s }) in
      if returned then some (t', rs ++ rs') else none

  -- `Callback`: the clock is read for the test, and again for the new start. `none` means that an
  -- exception leaves it.
  pub callback : Owner S → ℕ → ℕ → SynchronosThread S → Option (SynchronosThread S × Replies)
  unfolding call_owner clear_queue is_due
  callback o now restart s =
      let called = call_owner o (clear_queue o (size s.thread.mailbox.rx) s.thread) in
      if is_due now s
      then elim called [
        | none ↦ none
        | some (t, rs) ↦ some (record s { thread = t; start_timer = restart }, rs)
      ]
      else some (s, [])

  -- `RegisterRuntime` of the manager.
  pub register_runtime :
      List (Owner S × SynchronosThread S)
      → RuntimeConfigure
      → Owner S
      → S
      → ℕ
      → List (Owner S × SynchronosThread S)
  unfolding new_synchronos_thread
  register_runtime managers c o s now = managers ++ (o, new_synchronos_thread c s now) ∷ []

  -- `HandleCallbacks`, with the readings of the clock for each runtime. An exception ends the program.
  pub handle_callbacks :
      (ℕ → ℕ × ℕ)
      → ℕ
      → List (Owner S × SynchronosThread S)
      → Option (List (Owner S × SynchronosThread S) × Replies)
  unfolding callback
  handle_callbacks clock i [] = some ([], [])
  handle_callbacks clock i ((o, s) ∷ rest) = do
    (s', rs) ← callback o (clock i).0 (clock i).1 s
    (rest', rs') ← handle_callbacks clock (i + 1) rest
    some ((o, s') ∷ rest', rs ++ rs')

-- `ProcessMessages` of the manager has the loops of the one of `ThreadManager`.
pub process_messages : List SubscriptionData → List Mailbox → List Mailbox
process_messages subscribers boxes = Routing.process_messages subscribers boxes
