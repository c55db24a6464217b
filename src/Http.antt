-- ===== src/Http.antt =====
-- homecontrol/HTTPManager.cpp: requests over HTTP wait in a map until the sensor has answered. The
-- split of a query is the C++ REST SDK's, and an argument. `request.reply` gives the response to
-- its request; the responses given so far are kept in order.
pub mod Replies
pub mod Answers
use homecontrol_server.Common.{
  ℕ, zero, suc, ◌+◌, ◌-◌, ◌^◌, ◌%◌, ℤ, pos, negsuc, to_int, to_unsigned, Bool, true, false, Text,
  codes, text_eq, List, [], ◌∷◌, ◌++◌, Option, none, some, ltb, leb, ◌==◌, if◌then◌else◌,
}
use homecontrol_server.Common.OrdMap.{find, assign, erase, ℤ_key}
use homecontrol_server.Data.Meta.{cmd_eq, read_with_direct_answer, run_function, run, sensor}
use homecontrol_server.Data.Devices.{Sensor, sensor_request}
use homecontrol_server.Data.Message.{
  Message, Effect, send, message, asking_message, function, HttpRequest, Closure, stop_running,
  owner_callback, handle_incoming, send_back, http_reply, room_sensor, as_sensor,
}
use homecontrol_server.StringTools.{span_digits, digits_value, skip_spaces}
use homecontrol_server.Json.{JsonLib}
use homecontrol_server.Json.Helper.{sensor_as_json}
use homecontrol_server.Queue.{Queue, push, pop, empty, size}
use homecontrol_server.Runtime.{Owner}

-- A response with the status OK.
pub record Reply : Type 0 where
  pub request : HttpRequest
  pub body : Text

pub record HttpManager : Type 0 where
  pub request_id : ℤ
  pub waiting : List (ℤ × HttpRequest)
  pub request_task_queue : Queue Reply
  pub given : List Reply

pub new_http_manager : HttpManager
new_http_manager = record {
  request_id = pos 1;
  waiting = [];
  request_task_queue = empty;
  given = [];
}

-- `std::stoi`; `none` means that it throws.
checked_int : Bool → Text → Option ℤ
checked_int negative [] = none
checked_int negative (c ∷ ds) =
    let n = digits_value 0 (c ∷ ds) in
    if negative
    then if leb n (2 ^ 31) then some (if n == 0 then pos 0 else negsuc (n - 1)) else none
    else if ltb n (2 ^ 31)
    then some (pos n)
    else none

signed_int : Text → Option ℤ
unfolding checked_int span_digits
signed_int [] = none
signed_int (c ∷ s) =
    if c == b'-'
    then checked_int true (span_digits s).0
    else if c == b'+'
    then checked_int false (span_digits s).0
    else checked_int false (span_digits (c ∷ s)).0

unfoldable pub stoi : Text → Option ℤ
unfolding signed_int skip_spaces
stoi s = signed_int (skip_spaces s)

-- The increment of an `int`, on two's complement.
abbrev pub next_id : ℤ → ℤ
next_id n = to_int ((to_unsigned n + 1) % 2 ^ 32)

pub register_new_request : HttpRequest → HttpManager → ℤ × HttpManager
register_new_request r h = (
  h.request_id,
  record h { request_id = next_id h.request_id; waiting = assign h.request_id r h.waiting },
)

-- `TriggerReadDataAndAnswerRequest`: the question, with the callback that knows the request's number.
abbrev pub question : ℤ → ℤ → Message
question n id =
    asking_message read_with_direct_answer sensor (room_sensor (sensor_request (to_unsigned id)))
      (http_reply n)

-- The loop of `HandleIncomingRequest`; false means that it ends with an exception.
pub handle_queries :
    HttpRequest → List (Text × Text) → HttpManager → HttpManager × List Effect × Bool
unfolding register_new_request
handle_queries r [] h = (h, [], true)
handle_queries r ((command, value) ∷ qs) h =
    if text_eq command (codes "sensor")
    then elim (stoi value) [
      | none ↦ (h, [], false)
      | some id ↦
          let (n, h') = register_new_request r h in
          let (h'', es, returned) = handle_queries r qs h' in
          (h'', send (question n id) ∷ es, returned)
    ]
    else handle_queries r qs h

-- The answer callback, in the thread of whoever answers: the message for the manager's own thread.
pub answer_callback : ℤ → Message → Option Message
answer_callback n m = elim (as_sensor m.value) [
  | none ↦ none
  | some s ↦ some (message run_function run (function (send_back n s)))
]

-- `while (auto requestToCleanup = m_RequestTaskQueue.Pop())`, on fuel: a reply is waited for if it is not
-- done, and if it has failed by then, the wait throws and ends the loop. `wait_throws` tells for which
-- replies this happens.
clean_up_tasks : (Reply → Bool) → ℕ → Queue Reply → Queue Reply × Bool
clean_up_tasks wait_throws zero q = (q, true)
clean_up_tasks wait_throws (suc n) q = elim (pop q) [
  | none ↦ (q, true)
  | some (r, rest) ↦
      let later = clean_up_tasks wait_throws n rest in
      if wait_throws r then (rest, false) else later
]

-- The last result is false if a wait throws.
pub callback : (Reply → Bool) → HttpManager → HttpManager × List Effect × Bool
unfolding clean_up_tasks
callback wait_throws h =
    let (q, returned) =
      clean_up_tasks wait_throws (size h.request_task_queue) h.request_task_queue in
    (record h { request_task_queue = q }, [], returned)

pub handle_message : HttpManager → Message → HttpManager × List Effect
handle_message h m = (h, [])

-- `get`, in the thread of the server. `put` and `post` do nothing.
pub get : HttpRequest → Message
get r = message run_function run (function (handle_incoming r))

module _ (split_query : Text → List (Text × Text)) (j : JsonLib) where
  pub handle_incoming_request : HttpRequest → HttpManager → HttpManager × List Effect × Bool
  unfolding handle_queries
  handle_incoming_request r h = handle_queries r (split_query r.query) h

  -- The request is taken off the map with its reply, so that a second answer finds nothing.
  pub send_back_to_own_context : ℤ → Sensor → HttpManager → HttpManager
  send_back_to_own_context n s h = elim (find n h.waiting) [
    | none ↦ h
    | some r ↦
        let reply : Reply = record { request = r; body = j.serialize (sensor_as_json j s) } in
        record h {
          request_task_queue = push h.request_task_queue reply;
          given = h.given ++ reply ∷ [];
          waiting = erase n h.waiting;
        }
  ]

  pub call : HttpManager → Closure → HttpManager × List Effect × Bool
  unfolding handle_incoming_request send_back_to_own_context
  call h (handle_incoming r) = handle_incoming_request r h
  call h (send_back n s) = (send_back_to_own_context n s h, [], true)
  call h _ = (h, [], true)

  pub http_owner : (Reply → Bool) → Owner HttpManager
  unfolding call callback handle_message
  http_owner wait_throws = record {
    handle_message = handle_message;
    callback = callback wait_throws;
    call = call;
  }
