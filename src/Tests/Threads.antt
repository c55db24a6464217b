-- ===== src/Tests/Threads.antt =====
-- Threads, their queues and the routing of messages at concrete inputs.
use homecontrol_server.Serialize.{handler}
use homecontrol_server.Serialize.Sequence.{rounds, all_of, in_sequence, handler_runs_all}
use homecontrol_server.Common.{
  false, suc, ◌+◌, ◌*◌, pos, get_elem?, if◌then◌else◌, ◌≡◌, refl, true, List, [], ◌∷◌, ◌++◌, some,
  arith, codes, All,
}
use homecontrol_server.Data.Meta.{write, read, run_function, presence, run, blootooth_device}
use homecontrol_server.Data.Devices.{BluetoothDevice}
use homecontrol_server.Data.Message.{
  Message, plain_message, message, bluetooth, function, owner_callback,
}
use homecontrol_server.Queue.{empty}
use homecontrol_server.Subscription.{SubscriptionData, is_subscribed, find_subscribers}
use homecontrol_server.Subscription.Laws.{subscribe_all, occurrences, find_subscribers_exact}
use homecontrol_server.Presence
use homecontrol_server.Runtime.{
  Owner, Mailbox, Thread, presence_manager, new_thread, handle_new_message,
}
use homecontrol_server.Runtime.Dispatch.{
  with_rx, handle_all, concat, KeepsRunning, handle_new_message-concat,
}
use homecontrol_server.Runtime.Synchronous.{SynchronosThread, callback, is_due}
use homecontrol_server.Runtime.Synchronous.Equivalence.{timer_message, callback-handle_new_message}
use homecontrol_server.Runtime.Routing.{process_messages}
use homecontrol_server.Runtime.Routing.Delivery.{all_sent, subscribed, delivers_to_subscribers}

abbrev phone : BluetoothDevice
phone = record { device_id = pos 4; address = codes "00:11"; in_range = true }

abbrev seen : Message
seen = message write blootooth_device (bluetooth phone)

abbrev asked : Message
asked = plain_message read presence

abbrev cyclic : Message
cyclic = message run_function run (function owner_callback)

abbrev owner : Owner Presence.PresenceManager
owner = record {
  handle_message = Presence.handle_message;
  callback = λ s. (s, [], true);
  call = λ s f. (s, [], true);
}

abbrev thread : Thread Presence.PresenceManager
thread =
    new_thread
      (record { name = codes "PresenceManager"; runtime_id = presence_manager; run_time = 100 })
      Presence.new_presence_manager

abbrev subscriptions : List SubscriptionData
subscriptions =
    record { id = blootooth_device; runtime = 1 }
    ∷ record { id = presence; runtime = 1 }
    ∷ record { id = blootooth_device; runtime = 1 }
    ∷ []

abbrev boxes : List Mailbox
boxes =
    record { rx = empty; tx = record { items = seen ∷ asked ∷ [] } }
    ∷ record { rx = record { items = cyclic ∷ [] }; tx = empty }
    ∷ []

delivers_to_subscribers_example :
    get_elem? (process_messages (subscribe_all [] subscriptions) boxes) 1
    ≡ some (record {
      rx = record {
        items =
            cyclic ∷ []
            ++ subscribed subscriptions 1 (all_sent (subscribe_all [] subscriptions) boxes);
      };
      tx = empty;
    })
delivers_to_subscribers_example =
    delivers_to_subscribers subscriptions boxes 1
      (record { rx = record { items = cyclic ∷ [] }; tx = empty }) refl

find_subscribers_exact_example :
    occurrences 1 (find_subscribers (subscribe_all [] subscriptions) blootooth_device)
    ≡ (if is_subscribed subscriptions (record { id = blootooth_device; runtime = 1 }) then 1 else 0)
find_subscribers_exact_example = find_subscribers_exact subscriptions blootooth_device 1

abbrev batches : List (List Message)
batches = (seen ∷ cyclic ∷ []) ∷ (asked ∷ []) ∷ []

batches-KeepRunning : All (All KeepsRunning) batches
batches-KeepRunning = ground arith

handle_new_message-concat_example :
    handle_new_message owner (with_rx empty thread) batches
    ≡ handle_all owner (with_rx empty thread) (concat batches)
handle_new_message-concat_example =
    handle_new_message-concat owner thread batches (unfold new_thread in refl) batches-KeepRunning

handler_runs_all_example :
    handler
      (rounds ((suc ∷ []) ∷ (◌+◌ 3 ∷ []) ∷ []) (◌*◌ 2 ∷ []))
      (record { stop = false; queue = []; state = 4 })
    ≡ record {
      stop = true;
      queue = [];
      state = in_sequence (all_of ((suc ∷ []) ∷ (◌+◌ 3 ∷ []) ∷ []) ++ ◌*◌ 2 ∷ []) 4;
    }
handler_runs_all_example = handler_runs_all ((suc ∷ []) ∷ (◌+◌ 3 ∷ []) ∷ []) (◌*◌ 2 ∷ []) 4

-- A runtime that the main loop calls late, with two messages in its queue.
abbrev called : SynchronosThread Presence.PresenceManager
called = record {
  thread = with_rx (record { items = seen ∷ asked ∷ [] }) thread;
  run_time = 100;
  start_timer = 5;
}

callback-handle_new_message_example :
    callback owner 200 201 called
    ≡ some (
      record called {
        thread =
            (handle_new_message owner
              (with_rx empty called.thread)
              ((seen ∷ asked ∷ timer_message ∷ []) ∷ [])).0;
        start_timer = 201;
      },
      (handle_new_message owner
          (with_rx empty called.thread)
          ((seen ∷ asked ∷ timer_message ∷ []) ∷ [])).1,
    )
unfolding new_thread is_due
callback-handle_new_message_example =
    callback-handle_new_message owner 200 201 called refl (ground arith)
