-- ===== src/Program/Loop.antt =====
-- homecontrol/ProgramManager.cpp, the main loop, and homecontrol/Timer.cpp. What the other threads do
-- to the queues between two rounds is an argument of each round, and so is the flag that the loop reads.
use homecontrol_server.Common.{Bool, List, [], ◌∷◌, if◌then◌else◌}
use homecontrol_server.Runtime.{Mailbox, Thread, timer_callback}
use homecontrol_server.Runtime.Routing.{process_messages}
use homecontrol_server.Subscription.{SubscriptionData}

-- `ThreadManager::HandleCallbacks`: the threads call their owners themselves.
abbrev pub handle_callbacks : List Mailbox → List Mailbox
handle_callbacks boxes = boxes

pub record Round : Type 0 where
  pub running : Bool
  pub others : List Mailbox → List Mailbox

-- `Run`.
pub run : List SubscriptionData → List Round → List Mailbox → List Mailbox
run subscribers [] boxes = boxes
run subscribers (r ∷ rounds) boxes =
    let rest =
      run subscribers rounds (r.others (handle_callbacks (process_messages subscribers boxes))) in
    if r.running then rest else boxes

-- The thread of a `Timer`: a call before each sleep, until the flag is set. The list holds what the
-- tests of the flag read.
pub run_timer : {W : Type 0} → (W → W) → List Bool → W → W
run_timer callback [] w = w
run_timer callback (stopped ∷ tests) w =
    let rest = run_timer callback tests (callback w) in if stopped then w else rest

-- The timer of a thread.
pub thread_timer : {S : Type 0} → List Bool → Thread S → Thread S
unfolding run_timer
thread_timer tests t = run_timer timer_callback tests t
