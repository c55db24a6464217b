-- ===== src/Http/Answers.antt =====
-- One request over HTTP through the two managers: the question to the sensors, their answer, and the
-- reply.
use homecontrol_server.Common.{
  ◌≡◌, refl, ◌∙◌, ℤ, to_int, to_unsigned, true, false, Text, codes, text_eq, List, [], ◌∷◌, ◌++◌,
  Option, none, some, All,
}
use homecontrol_server.Common.OrdMap.{erase, ℤ_key, find-assign_self, find-erase_self}
use homecontrol_server.Data.Devices.{Sensor, sensor_request}
use homecontrol_server.Data.Message.{
  Message, Effect, send, answers, http_reply, HttpRequest, handle_incoming, as_function,
}
use homecontrol_server.Sensors.{SensorManager, get_sensor}
use homecontrol_server.Sensors
use homecontrol_server.Sensors.Readings.{sensor_answer}
use homecontrol_server.Json.{JsonLib}
use homecontrol_server.Json.Helper.{sensor_as_json}
use homecontrol_server.Queue.{push}
use homecontrol_server.Http.{
  Reply, HttpManager, register_new_request, handle_queries, handle_incoming_request,
  send_back_to_own_context, call, answer_callback, stoi, question,
}

abbrev pub NotSensor : Text × Text → Type 0
NotSensor q = text_eq q.0 (codes "sensor") ≡ false

others_none :
    (r : HttpRequest) (qs : List (Text × Text)) (h : HttpManager)
    → All NotSensor qs
    → handle_queries r qs h ≡ (h, [], true)
unfolding handle_queries
others_none r [] h a = refl
others_none r (q ∷ qs) h a = rw a.0 (others_none r qs h a.1)

one_sensor :
    (r : HttpRequest) (before after : List (Text × Text)) (value : Text) (id : ℤ) (h : HttpManager)
    → All NotSensor before
    → All NotSensor after
    → stoi value ≡ some id
    → handle_queries r (before ++ (codes "sensor", value) ∷ after) h
      ≡ ((register_new_request r h).1, send (question h.request_id id) ∷ [], true)
unfolding handle_queries register_new_request
one_sensor r [] after value id h b a e =
    rw e (rw (others_none r after (register_new_request r h).1 a))
one_sensor r (q ∷ before) after value id h b a e =
    rw b.0 (one_sensor r before after value id h b.1 a e)

module _ (split_query : Text → List (Text × Text)) (j : JsonLib) where
  -- The manager's own thread runs what the answer callback has put into its queue.
  after_answer : Option Message → HttpManager → HttpManager
  after_answer none h = h
  after_answer (some m) h = elim (as_function m.value) [
    | none ↦ h
    | some f ↦ (call split_query j h f).0
  ]

  after_answers : List Effect → HttpManager → HttpManager
  unfolding after_answer
  after_answers [] h = h
  after_answers (answers (http_reply n) m ∷ es) h =
      after_answers es (after_answer (answer_callback n m) h)
  after_answers (e ∷ es) h = after_answers es h

  -- Each message of the manager goes to the sensors.
  to_sensors : SensorManager → List Effect → HttpManager → HttpManager
  unfolding after_answers
  to_sensors s [] h = h
  to_sensors s (send m ∷ es) h = to_sensors s es (after_answers (Sensors.handle_message s m).1 h)
  to_sensors s (e ∷ es) h = to_sensors s es h

  pub ask_over_http : SensorManager → HttpRequest → HttpManager → HttpManager
  unfolding to_sensors
  ask_over_http s r h =
      let asked = call split_query j h (handle_incoming r) in to_sensors s asked.1 asked.0

  abbrev sensor_for : SensorManager → ℤ → Sensor
  sensor_for s id = get_sensor s (to_int (to_unsigned id))

  to_sensors-question :
      (s : SensorManager) (n id : ℤ) (h : HttpManager)
      → to_sensors s (send (question n id) ∷ []) h
        ≡ send_back_to_own_context split_query j n (sensor_for s id) h
  unfolding to_sensors after_answers after_answer answer_callback call
  to_sensors-question s n id h =
      rw (sensor_answer s (sensor_request (to_unsigned id)) (http_reply n))

  reply_to : SensorManager → HttpRequest → ℤ → Reply
  reply_to s r id = record { request = r; body = j.serialize (sensor_as_json j (sensor_for s id)) }

  -- The state after the reply: the entry of the request has come and gone.
  replied_state : SensorManager → HttpRequest → ℤ → HttpManager → HttpManager
  unfolding reply_to
  replied_state s r id h =
      let registered = (register_new_request r h).1 in
      record registered {
        request_task_queue = push h.request_task_queue (reply_to s r id);
        given = h.given ++ reply_to s r id ∷ [];
        waiting = erase h.request_id registered.waiting;
      }

  send_back-registered :
      (s : SensorManager) (r : HttpRequest) (id : ℤ) (h : HttpManager)
      → send_back_to_own_context split_query j h.request_id
          (sensor_for s id)
          (register_new_request r h).1
        ≡ replied_state s r id h
  unfolding send_back_to_own_context replied_state reply_to register_new_request
  send_back-registered s r id h =
      rw (find-assign_self h.request_id r h.waiting, send_back_to_own_context)

  ask_over_http_state :
      (s : SensorManager) (r : HttpRequest) (h : HttpManager) (before after : List (Text × Text))
      (value : Text) (id : ℤ)
      → split_query r.query ≡ before ++ (codes "sensor", value) ∷ after
      → All NotSensor before
      → All NotSensor after
      → stoi value ≡ some id
      → ask_over_http s r h ≡ replied_state s r id h
  unfolding ask_over_http call handle_incoming_request
  ask_over_http_state s r h before after value id q b a e = rw q (
      rw (one_sensor r before after value id h b a e) (
        to_sensors-question s h.request_id id (register_new_request r h).1
        ∙ send_back-registered s r id h))

  send_back_again :
      (s : SensorManager) (r : HttpRequest) (id : ℤ) (h : HttpManager) (again : Sensor)
      → send_back_to_own_context split_query j h.request_id again (replied_state s r id h)
        ≡ replied_state s r id h
  unfolding send_back_to_own_context replied_state reply_to
  send_back_again s r id h again =
      rw (
        find-erase_self h.request_id (register_new_request r h).1.waiting,
        send_back_to_own_context,
      )

  -- A request whose query asks for one sensor by a number is replied to with the JSON of this sensor
  -- as the sensor manager has it, and a further answer under the same number changes nothing.
  pub ask_over_http_lem :
      (s : SensorManager) (r : HttpRequest) (h : HttpManager) (before after : List (Text × Text))
      (value : Text) (id : ℤ) (again : Sensor)
      → split_query r.query ≡ before ++ (codes "sensor", value) ∷ after
      → All NotSensor before
      → All NotSensor after
      → stoi value ≡ some id
      → ((ask_over_http s r h).given
          ≡ h.given
            ++ record { request = r; body = j.serialize (sensor_as_json j (sensor_for s id)) } ∷ [])
        × (send_back_to_own_context split_query j h.request_id again (ask_over_http s r h)
            ≡ ask_over_http s r h)
  unfolding replied_state reply_to
  ask_over_http_lem s r h before after value id again q b a e =
      rw (ask_over_http_state s r h before after value id q b a e)
        (refl, send_back_again s r id h again)
