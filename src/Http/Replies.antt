-- ===== src/Http/Replies.antt =====
-- How often an HTTP request is replied to.
use homecontrol_server.Common.{
  ℕ, ◌+◌, ◌≤◌, ◌≡◌, ℤ, Bool, true, false, Text, codes, text_eq, List, [], ◌∷◌, ◌++◌, none, some,
  arith, ◌==◌, if◌then◌else◌, Bool-cases, Option-cases, inl, inr,
}
use homecontrol_server.Common.OrdMap.{find, assign, erase, ℤ_key}
use homecontrol_server.Data.Devices.{Sensor}
use homecontrol_server.Data.Message.{
  HttpRequest, Closure, stop_running, owner_callback, handle_incoming, send_back,
}
use homecontrol_server.Http.{
  Reply, HttpManager, new_http_manager, register_new_request, handle_queries, callback, stoi,
  handle_incoming_request, send_back_to_own_context, call,
}
use homecontrol_server.Json.{JsonLib}
use homecontrol_server.Json.Helper.{sensor_as_json}

-- What happens in the manager's thread, the latest first. With a call of the callback comes which replies
-- have failed.
pub data Event : Type 0 where
  runs : Closure → Event
  calls_back : (Reply → Bool) → Event

abbrev one_if : Bool → ℕ
one_if true = 1
one_if false = 0

pub replied : ℕ → List Reply → ℕ
replied k [] = 0
replied k (r ∷ rs) = one_if (r.request.ticket == k) + replied k rs

pub pending : ℕ → List (ℤ × HttpRequest) → ℕ
pending k [] = 0
pending k ((n, r) ∷ m) = one_if (r.ticket == k) + pending k m

pub sensor_queries : List (Text × Text) → ℕ
sensor_queries [] = 0
sensor_queries ((command, value) ∷ qs) =
    one_if (text_eq command (codes "sensor")) + sensor_queries qs

replied-append :
    (k : ℕ) (rs : List Reply) (r : Reply)
    → replied k (rs ++ r ∷ []) ≡ replied k rs + one_if (r.request.ticket == k)
unfolding replied
replied-append k [] r = omega arith
replied-append k (x ∷ rs) r = omega (arith, replied-append k rs r)

pending-assign :
    (k : ℕ) (n : ℤ) (r : HttpRequest) (m : List (ℤ × HttpRequest))
    → pending k (assign n r m) ≤ pending k m + one_if (r.ticket == k)
unfolding pending assign
pending-assign k n r [] = omega arith
pending-assign k n r ((i, x) ∷ m) = ground (arith, pending-assign k n r m)

pending-erase_le :
    (k : ℕ) (n : ℤ) (m : List (ℤ × HttpRequest)) → pending k (erase n m) ≤ pending k m
unfolding pending erase
pending-erase_le k n [] = omega arith
pending-erase_le k n ((i, x) ∷ m) = ground (arith, pending-erase_le k n m)

pending-erase :
    (k : ℕ) (n : ℤ) (m : List (ℤ × HttpRequest)) {r : HttpRequest}
    → find n m ≡ some r
    → pending k (erase n m) + one_if (r.ticket == k) ≤ pending k m
unfolding pending erase find
pending-erase k n [] h = ground arith
pending-erase k n ((i, x) ∷ m) {r} h =
    ground (arith, pending-erase_le k n m, pending-erase k n m {r = r})

-- The replies to a request, and the entries that can still lead to one.
abbrev pub committed : ℕ → HttpManager → ℕ
committed k h = replied k h.given + pending k h.waiting

abbrev asked_by : ℕ → HttpRequest → List (Text × Text) → ℕ
asked_by k r qs = if r.ticket == k then sensor_queries qs else 0

asked_by_step :
    (k : ℕ) (r : HttpRequest) (command value : Text) (qs : List (Text × Text))
    → text_eq command (codes "sensor") ≡ true
    → asked_by k r ((command, value) ∷ qs) ≡ one_if (r.ticket == k) + asked_by k r qs
unfolding sensor_queries
asked_by_step k r command value qs e = elim (Bool-cases (r.ticket == k)) [
  | inl t ↦ rw (t, e)
  | inr t ↦ rw t
]

asked_by_le :
    (k : ℕ) (r : HttpRequest) (command value : Text) (qs : List (Text × Text))
    → asked_by k r qs ≤ asked_by k r ((command, value) ∷ qs)
unfolding sensor_queries
asked_by_le k r command value qs = elim (Bool-cases (r.ticket == k)) [
  | inl t ↦ rw t (omega arith)
  | inr t ↦ rw t (omega arith)
]

handle_queries_other :
    (r : HttpRequest) (command value : Text) (qs : List (Text × Text)) (h : HttpManager)
    → text_eq command (codes "sensor") ≡ false
    → handle_queries r ((command, value) ∷ qs) h ≡ handle_queries r qs h
handle_queries_other r command value qs h e = unfold handle_queries in rw e

handle_queries_thrown :
    (r : HttpRequest) (command value : Text) (qs : List (Text × Text)) (h : HttpManager)
    → text_eq command (codes "sensor") ≡ true
    → stoi value ≡ none
    → handle_queries r ((command, value) ∷ qs) h ≡ (h, [], false)
handle_queries_thrown r command value qs h e f = unfold handle_queries in rw (e, f)

handle_queries_sensor :
    (r : HttpRequest) (command value : Text) (qs : List (Text × Text)) (h : HttpManager) (id : ℤ)
    → text_eq command (codes "sensor") ≡ true
    → stoi value ≡ some id
    → (handle_queries r ((command, value) ∷ qs) h).0
      ≡ (handle_queries r qs (register_new_request r h).1).0
handle_queries_sensor r command value qs h id e f = unfold handle_queries in rw (e, f)

committed-register :
    (k : ℕ) (r : HttpRequest) (h : HttpManager)
    → committed k (register_new_request r h).1 ≤ committed k h + one_if (r.ticket == k)
unfolding register_new_request
committed-register k r h = omega (arith, pending-assign k h.request_id r h.waiting)

committed-handle_queries :
    (k : ℕ) (r : HttpRequest) (qs : List (Text × Text)) (h : HttpManager)
    → committed k (handle_queries r qs h).0 ≤ committed k h + asked_by k r qs
committed-handle_queries k r [] h = unfold handle_queries in omega arith
committed-handle_queries k r ((command, value) ∷ qs) h =
    elim (Bool-cases (text_eq command (codes "sensor"))) [
      | inr e ↦
          rw (handle_queries_other r command value qs h e)
            (omega (arith, committed-handle_queries k r qs h, asked_by_le k r command value qs))
      | inl e ↦ elim (Option-cases (stoi value)) [
        | inl f ↦ rw (handle_queries_thrown r command value qs h e f) (omega arith)
        | inr (id, f) ↦ rw (handle_queries_sensor r command value qs h id e f) (
            omega (
              arith,
              committed-handle_queries k r qs (register_new_request r h).1,
              committed-register k r h,
              asked_by_step k r command value qs e,
            ))
      ]
    ]

module _ (split_query : Text → List (Text × Text)) (j : JsonLib) where
  pub run_event : Event → HttpManager → HttpManager
  run_event (runs f) h = (call split_query j h f).0
  run_event (calls_back wait_throws) h = (callback wait_throws h).0

  pub history : List Event → HttpManager
  unfolding run_event
  history [] = new_http_manager
  history (e ∷ earlier) = run_event e (history earlier)

  -- How often the requests with a ticket ask for a sensor.
  pub asked : ℕ → List Event → ℕ
  asked k [] = 0
  asked k (runs (handle_incoming r) ∷ earlier) =
      (if r.ticket == k then sensor_queries (split_query r.query) else 0) + asked k earlier
  asked k (e ∷ earlier) = asked k earlier

  committed-send_back :
      (k : ℕ) (n : ℤ) (s : Sensor) (h : HttpManager)
      → committed k (send_back_to_own_context split_query j n s h) ≤ committed k h
  unfolding send_back_to_own_context
  committed-send_back k n s h = elim (Option-cases (find n h.waiting)) [
    | inl e ↦ ground arith
    | inr (r, e) ↦ ground (
      arith,
      pending-erase k n h.waiting {r = r},
      replied-append k h.given (record { request = r; body = j.serialize (sensor_as_json j s) }),
    )
  ]

  committed-call :
      (k : ℕ) (f : Closure) (earlier : List Event) (h : HttpManager)
      → committed k h ≤ asked k earlier
      → committed k (call split_query j h f).0 ≤ asked k (runs f ∷ earlier)
  unfolding call handle_incoming_request asked
  committed-call k stop_running earlier h l = l
  committed-call k owner_callback earlier h l = l
  committed-call k (handle_incoming r) earlier h l =
      omega (arith, committed-handle_queries k r (split_query r.query) h)
  committed-call k (send_back n s) earlier h l = omega (arith, committed-send_back k n s h)

  -- Whatever happens in whatever order, answers that come twice or for a number that was never
  -- given out included, a request gets no more replies than it asks for sensors.
  pub replied_at_most_asked :
      (k : ℕ) (events : List Event)
      → replied k (history events).given + pending k (history events).waiting ≤ asked k events
  unfolding history run_event asked new_http_manager callback replied pending
  replied_at_most_asked k [] = omega arith
  replied_at_most_asked k (runs f ∷ earlier) =
      committed-call k f earlier (history earlier) (replied_at_most_asked k earlier)
  replied_at_most_asked k (calls_back wait_throws ∷ earlier) = replied_at_most_asked k earlier
