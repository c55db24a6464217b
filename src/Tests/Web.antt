-- ===== src/Tests/Web.antt =====
-- Requests over HTTP, the car's reader and the TCP connections at concrete inputs.
use homecontrol_server.Common.{
  ℕ, pos, suc, ◌+◌, ◌*◌, ◌^◌, ◌≤◌, ◌≡◌, refl, sym, subst, List, [], ◌∷◌, ◌++◌, some, none, Option,
  length, arith, codes, Text, true, false, to_int, to_unsigned,
}
use homecontrol_server.Common.OrdMap.{find, erase, ℕ_key}
use homecontrol_server.Data.Message.{HttpRequest, handle_incoming, send_back}
use homecontrol_server.StringTools.{is_digit, span_digits}
use homecontrol_server.Json.{JsonLib}
use homecontrol_server.Json.Helper.{sensor_as_json}
use homecontrol_server.Sensors.{SensorManager, get_sensor}
use homecontrol_server.Http.{stoi, new_http_manager, send_back_to_own_context}
use homecontrol_server.Http.Replies.{
  Event, runs, calls_back, replied, pending, history, asked, replied_at_most_asked,
}
use homecontrol_server.Http.Answers.{ask_over_http, ask_over_http_lem}
use homecontrol_server.Tesla.Connection.{TeslaConnection, get}
use homecontrol_server.Tesla.Website.Failing.{read_unparsed}
use homecontrol_server.Tesla.Reader.Timers.{callback-config}
use homecontrol_server.Tesla.Reader.{
  TeslaManager, ConfigurationTeslaManager, OneShotTimer, new_tesla_manager, callback, started,
  stepped, calls_back, wait_for_state_change, store_wait, Step, Reachable,
}
use homecontrol_server.Tesla.Reader.Waiting.{
  WellFormed, KeepsTime, Positive, Configured, callbacks, waits_within_four, Reachable-WellFormed,
}
use homecontrol_server.Tesla.Reader.Stopped.{zero_time_stops}
use homecontrol_server.Tesla.Reader.Driving.{observe, last_move, moved_recently, driving_iff_recent}
use homecontrol_server.Network.Sending.{
  Connection, new_connection, delimiter, sends, starts, takes, fails,
}
use homecontrol_server.Network.Sending
use homecontrol_server.Network.Sending.Bytes.{wire}
use homecontrol_server.Network.Sending.Order.{writes_may_mix}
use homecontrol_server.Network.Connections.{
  Handler, connection_handle_max_value, cleanup_disconnected_sessions, accept_round,
}
use homecontrol_server.Network.Connections.Handles.{InRange, with_client}
use homecontrol_server.Network.Connections.Cleanup.{kept, accept_round_lem}

-- A library for which every text is an object whose members are the text `online`, 0 and true.
abbrev plain_json : JsonLib
plain_json = record {
  Json = Text;
  parse = λ s. some s;
  field = λ v name. some v;
  is_null = λ v. false;
  is_integer = λ v. true;
  as_integer = λ v. some (pos 0);
  as_double = λ v. some 0;
  as_string = λ v. some (codes "online");
  as_bool = λ v. some true;
  has_field = λ v n. true;
  is_boolean = λ v. true;
  is_array = λ v. false;
  as_array = λ v. none;
  null = [];
  with_field = λ v name x. v;
  number = λ n. [];
  double_number = λ d. [];
  string = λ s. s;
  boolean = λ b. [];
  array = λ vs. [];
  serialize = λ v. v;
}

-- A query that is one value for the command `sensor`.
abbrev only_sensor : Text → List (Text × Text)
only_sensor query = (codes "sensor", query) ∷ []

abbrev request : HttpRequest
request = record { ticket = 9; query = codes "1030" }

abbrev kitchen : SensorManager
kitchen = record {
  cached =
      (
        pos 1030,
        record {
          internal_id = 1030;
          id = pos 11;
          temperature = 0;
          humidity = pos 40;
          name = codes "kitchen";
        },
      )
      ∷ [];
}

abbrev twice_answered : List Event
twice_answered =
    runs (send_back (pos 1) (get_sensor kitchen (pos 1030)))
    ∷ Event.calls_back (λ r. true)
    ∷ runs (send_back (pos 1) (get_sensor kitchen (pos 1030)))
    ∷ runs (handle_incoming request)
    ∷ []

replied_at_most_asked_example :
    replied 9 (history only_sensor plain_json twice_answered).given
      + pending 9 (history only_sensor plain_json twice_answered).waiting
    ≤ asked only_sensor plain_json 9 twice_answered
replied_at_most_asked_example = replied_at_most_asked only_sensor plain_json 9 twice_answered

ask_over_http_example :
    ((ask_over_http only_sensor plain_json kitchen request new_http_manager).given
      ≡ new_http_manager.given
        ++ record {
          request = request;
          body =
              plain_json.serialize
                (sensor_as_json plain_json (get_sensor kitchen (to_int (to_unsigned (pos 1030)))));
        }
          ∷ [])
    × (send_back_to_own_context only_sensor plain_json new_http_manager.request_id
          (get_sensor kitchen (pos 1))
          (ask_over_http only_sensor plain_json kitchen request new_http_manager)
        ≡ ask_over_http only_sensor plain_json kitchen request new_http_manager)
ask_over_http_example =
    ask_over_http_lem only_sensor plain_json kitchen request new_http_manager [] [] (codes "1030")
      (pos 1030) (get_sensor kitchen (pos 1)) refl tt tt (unfold stoi is_digit span_digits in refl)

-- A web site that counts its requests.
abbrev counting : ℕ → Text → Text → Text → Option Text × ℕ
counting w mtd url authorization = (some (codes "{}"), suc w)

abbrev config : ConfigurationTeslaManager
config = record {
  config_token = record {
    access_token = codes "token";
    refresh_token = [];
    token_type = codes "Bearer";
    scope = [];
  };
  control_url = codes "https://car";
  vehicle_id = codes "1";
  retry_wake_ups = 3;
  retry_sleep_in_seconds = 10;
  fast_read_time_in_seconds = 60;
  very_slow_read_time_in_seconds = 3600;
  max_slowing_rate_for_very_slow_reads = 4;
}

abbrev connection : TeslaConnection
connection = record {
  access_token = some (codes "token");
  vehicle_id = codes "1";
  control_url = codes "https://car";
  get_extension_url = codes "data_request";
}

abbrev fresh : TeslaManager ℕ
fresh = new_tesla_manager config connection 0

-- Only a timer without time may end early.
abbrev OnlyZero : OneShotTimer → Type 0
OnlyZero o = o.seconds ≡ 0

zero_is_early : KeepsTime OnlyZero
zero_is_early o h e = omega arith

waits_within_four_example :
    (o : OneShotTimer) × ((callbacks plain_json
        (λ a b. a)
        counting
        (λ w. w)
        4
        (store_wait fresh)).state
      ≡ wait_for_state_change)
    × ((callbacks plain_json (λ a b. a) counting (λ w. w) 4 (store_wait fresh)).timer ≡ some o)
    × Configured fresh.config o
unfolding new_tesla_manager
waits_within_four_example =
    waits_within_four plain_json (λ a b. a) counting (λ w. w) OnlyZero fresh zero_is_early
      (omega arith, omega arith) (started config connection 0)

Reachable-WellFormed_example :
    WellFormed plain_json
      (λ a b. a)
      counting
      (λ w. w)
      (callback plain_json (λ a b. a) counting (λ w. w) fresh)
unfolding new_tesla_manager
Reachable-WellFormed_example =
    Reachable-WellFormed plain_json (λ a b. a) counting (λ w. w) OnlyZero
      (callback plain_json (λ a b. a) counting (λ w. w) fresh) zero_is_early
      (subst Positive (sym (callback-config plain_json (λ a b. a) counting (λ w. w) fresh))
        (omega arith, omega arith))
      (stepped fresh (callback plain_json (λ a b. a) counting (λ w. w) fresh)
        (started config connection 0) (calls_back fresh refl))

-- A web site whose responses are no JSON, with a slow reading time of 0.
abbrev no_json : JsonLib
no_json = record plain_json { parse = λ s. none }

abbrev hasty : TeslaManager ℕ
hasty = new_tesla_manager (record config { very_slow_read_time_in_seconds = 0 }) connection 0

zero_time_stops_example :
    (s : TeslaManager ℕ) × Reachable no_json (λ a b. a) counting (λ w. w) OnlyZero s
    × (s.state ≡ wait_for_state_change)
    × (s.timer ≡ none)
    × ((s' : TeslaManager ℕ) → Step no_json (λ a b. a) counting (λ w. w) OnlyZero s s' → s' ≡ s)
unfolding new_tesla_manager
zero_time_stops_example =
    zero_time_stops no_json (λ a b. a) counting (λ w. w) OnlyZero hasty
      (get counting hasty.connection (codes "climate_state") hasty.world).1
      (started (record config { very_slow_read_time_in_seconds = 0 }) connection 0) refl refl
      (read_unparsed no_json (λ a b. a) counting hasty.connection hasty.world refl) refl refl

driving_iff_recent_example :
    (observe ((400 * 10 ^ 9, 0) ∷ (0, 4607182418800017408) ∷ [])).driving
    ≡ moved_recently (400 * 10 ^ 9) (last_move ((400 * 10 ^ 9, 0) ∷ (0, 4607182418800017408) ∷ []))
driving_iff_recent_example =
    driving_iff_recent (400 * 10 ^ 9) 0 ((0, 4607182418800017408) ∷ []) (ground arith)

abbrev someone : Connection
someone = new_connection 100

-- Two connections, of which one has left, with the search at the end of the handles.
abbrev crowded : Handler
crowded = record {
  connections = (1, someone) ∷ (connection_handle_max_value, someone) ∷ [];
  disconnected = record { items = 1 ∷ 1 ∷ [] };
  handle = connection_handle_max_value;
}

accept_round_example :
    (k : ℕ) × InRange k
    × (kept k (1 ∷ 1 ∷ []) crowded.connections ≡ none)
    × (accept_round (suc (length (cleanup_disconnected_sessions crowded).connections)) 200 crowded
        ≡ some (with_client k 200 (cleanup_disconnected_sessions crowded)))
accept_round_example =
    accept_round_lem 200 crowded (ground arith)
      (unfold cleanup_disconnected_sessions find erase in omega arith)

-- The write of the first message fails behind its first byte, and the second one is taken.
abbrev failing : List Sending.Event
failing =
    sends (codes "a")
    ∷ sends (codes "b")
    ∷ starts
    ∷ starts
    ∷ takes 0 1
    ∷ takes 1 2
    ∷ fails 0
    ∷ takes 0 2
    ∷ []

writes_may_mix_example :
    wire
      (Sending.run
        (sends (codes "ab")
          ∷ sends (codes "c")
          ∷ starts
          ∷ starts
          ∷ takes 0 1
          ∷ takes 1 3
          ∷ takes 0 3
          ∷ [])
        (new_connection 100)).written
    ≡ 97 ∷ ((codes "c" ++ delimiter) ++ (codes "b" ++ delimiter))
writes_may_mix_example = writes_may_mix 97 (codes "b") (codes "c") 100
