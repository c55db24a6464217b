-- ===== src/Runtime.antt =====
-- homecontrol/Thread.cpp, PreParseMessagecpp.cpp and the runtime interfaces: the message loop that
-- drives a manager. A manager is its state with the functions of `IRuntime`, and its calls of
-- `SendMessage` and `Answer` are effects that the loop carries out.
pub mod Dispatch
pub mod Routing
pub mod Synchronous
use homecontrol_server.Common.{
  ℕ, zero, suc, Bool, true, false, Text, List, [], ◌∷◌, ◌++◌, Option, none, some, if◌then◌else◌,
}
use homecontrol_server.Data.Meta.{cmd_eq, run_function, run}
use homecontrol_server.Data.Message.{
  Message, Closure, stop_running, owner_callback, Answerer, Effect, send, answers, as_function,
  message, function,
}
use homecontrol_server.Queue.{Queue, push, pop, empty, size}

-- RuntimeId.h.
pub data RuntimeId : Type 0 where
  telldus_manager hue_manager remote_manager sonos_manager mapping_manager : RuntimeId
  network_message_handler json_manager sensor_manager command_line_manager : RuntimeId
  telldus_command_line_manager schedule_manager presence_manager tesla_manager : RuntimeId
  http_manager : RuntimeId

-- What a thread asks of its owner. `call` runs a function that the owner put into a `Run` message. The
-- last result of `callback` and of `call` is false if the function throws.
pub record Owner (S : Type 0) : Type 0 where
  pub handle_message : S → Message → S × List Effect
  pub callback : S → S × List Effect × Bool
  pub call : S → Closure → S × List Effect × Bool

-- The two queues of a thread.
pub record Mailbox : Type 0 where
  pub rx : Queue Message
  pub tx : Queue Message

pub record Thread (S : Type 0) : Type 0 where
  pub running : Bool
  pub name : Text
  pub runtime_id : RuntimeId
  pub mailbox : Mailbox
  pub owner : S

abbrev pub Replies : Type 0
Replies = List (Answerer × Message)

-- IRuntimeConfigure.h.
pub record RuntimeConfigure : Type 0 where
  pub name : Text
  pub runtime_id : RuntimeId
  pub run_time : ℕ

module _ {S : Type 0} where
  unfoldable pub new_thread : RuntimeConfigure → S → Thread S
  new_thread c s = record {
    running = true;
    name = c.name;
    runtime_id = c.runtime_id;
    mailbox = record { rx = empty; tx = empty };
    owner = s;
  }

  abbrev pub send_message : Thread S → Message → Thread S
  send_message t m = record t { mailbox = record (t.mailbox) { tx = push t.mailbox.tx m } }

  abbrev pub push_message : Thread S → Message → Thread S
  push_message t m = record t { mailbox = record (t.mailbox) { rx = push t.mailbox.rx m } }

  pub receive_message : Thread S → Option (Message × Thread S)
  receive_message t = elim (pop t.mailbox.tx) [
    | none ↦ none
    | some (m, rest) ↦ some (m, record t { mailbox = record (t.mailbox) { tx = rest } })
  ]

  -- `TimerCallback` and the destructor hand a function over to the thread's own context.
  pub timer_callback : Thread S → Thread S
  timer_callback t = push_message t (message run_function run (function owner_callback))

  pub stop_thread : Thread S → Thread S
  stop_thread t = push_message t (message run_function run (function stop_running))

  -- The effects of a handler: messages go out through the queue, replies to whoever asked.
  pub perform : List Effect → Thread S → Thread S × Replies
  perform [] t = (t, [])
  perform (send m ∷ es) t = perform es (send_message t m)
  perform (answers a m ∷ es) t = let (t', rs) = perform es t in (t', (a, m) ∷ rs)

  push_all : Thread S → List Message → Thread S
  push_all t [] = t
  push_all t (m ∷ ms) = push_all (push_message t m) ms

pub data PreParsed : Type 0 where
  error handled unhandled : PreParsed

module _ {S : Type 0} (o : Owner S) where
  run_function_of : Thread S → Closure → (Thread S × Replies) × Bool
  run_function_of t stop_running = ((record t { running = false }, []), true)
  run_function_of t owner_callback =
      let (s, es, returned) = o.callback t.owner in (perform es (record t { owner = s }), returned)
  run_function_of t f =
      let (s, es, returned) = o.call t.owner f in (perform es (record t { owner = s }), returned)

  -- A missing or foreign value is an error, and so is a function that throws.
  run_value : Option Closure → Thread S → PreParsed × (Thread S × Replies)
  unfolding run_function_of
  run_value none t = (error, (t, []))
  run_value (some f) t =
      let (done, returned) = run_function_of t f in (if returned then handled else error, done)

  pub pre_parse_msg : Thread S → Message → PreParsed × (Thread S × Replies)
  unfolding run_value
  pre_parse_msg t m =
      if cmd_eq m.cmd run_function then run_value (as_function m.value) t else (unhandled, (t, []))

  to_owner : Thread S → Message → Thread S × Replies
  to_owner t m = let (s, es) = o.handle_message t.owner m in perform es (record t { owner = s })

  unless_handled : PreParsed → Message → Thread S × Replies → Thread S × Replies
  unfolding to_owner
  unless_handled handled m done = done
  unless_handled _ m done = let (t, rs) = to_owner done.0 m in (t, done.1 ++ rs)

  -- One message: the owner sees it unless it was a function that ran to its end.
  pub dispatch : Thread S → Message → Thread S × Replies
  unfolding pre_parse_msg unless_handled
  dispatch t m = let (parsed, done) = pre_parse_msg t m in unless_handled parsed m done

  -- `while (auto msg = m_RxQueue.Pop())`, on fuel.
  pub clear_queue : ℕ → Thread S → Thread S × Replies
  clear_queue zero t = (t, [])
  clear_queue (suc n) t = elim (pop t.mailbox.rx) [
    | none ↦ (t, [])
    | some (m, rest) ↦
        let (t', rs) = dispatch (record t { mailbox = record (t.mailbox) { rx = rest } }) m in
        let (t'', rs') = clear_queue n t' in (t'', rs ++ rs')
  ]

  -- `HandleNewMessage`: each wait ends with the messages that have arrived since the last one.
  -- After the end of the loop messages still arrive, and stay unread.
  pub handle_new_message : Thread S → List (List Message) → Thread S × Replies
  unfolding clear_queue push_all
  handle_new_message t [] = (t, [])
  handle_new_message t (arrived ∷ later) =
      let woken = push_all t arrived in
      let (t', rs) = clear_queue (size woken.mailbox.rx) woken in
      let rest = handle_new_message t' later in
      let unread = handle_new_message woken later in
      if t.running then (rest.0, rs ++ rest.1) else unread
