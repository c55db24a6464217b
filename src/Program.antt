-- ===== src/Program.antt =====
-- homecontrol/ProgramManager.cpp, the constructor, with what the constructors of the managers register
-- at the thread manager and subscribe to. The managers that are commented out there are left out. The
-- name of a runtime is the path of a source file, and left out too.
pub mod Loop
pub mod Wiring
pub mod Scheduled
pub mod Measured
use homecontrol_server.Common.{ℕ, ◌*◌, ℤ, to_int, List, [], ◌∷◌, ◌++◌, map}
use homecontrol_server.Configuration.{Configuration}
use homecontrol_server.Http.{HttpManager, new_http_manager}
use homecontrol_server.Lights.{Light, add_lights}
use homecontrol_server.Lights.Hue.{HueManager, new_hue_manager}
use homecontrol_server.Lights.Hue
use homecontrol_server.Network.Requests
use homecontrol_server.CommandLine
use homecontrol_server.Presence.{PresenceManager, new_presence_manager}
use homecontrol_server.Presence
use homecontrol_server.Remote.Manager.{subscribe_to}
use homecontrol_server.Runtime.{
  Mailbox, RuntimeId, remote_manager, hue_manager, presence_manager, sensor_manager, json_manager,
  http_manager, network_message_handler, command_line_manager, telldus_command_line_manager,
  schedule_manager,
}
use homecontrol_server.Runtime.Routing.{register_runtime}
use homecontrol_server.Schedule.{ScheduleManager}
use homecontrol_server.Sensors.{SensorManager, new_sensor_manager}
use homecontrol_server.Sensors
use homecontrol_server.Subscription.{SubscriptionData}
use homecontrol_server.Telldus

-- `m_ThreadManager` and `m_Subscription`. With each runtime stands the time between two calls of its
-- callback, in milliseconds.
pub record Threads : Type 0 where
  pub runtimes : List (RuntimeId × ℕ)
  pub boxes : List Mailbox
  pub subscribers : List SubscriptionData

-- A constructor that registers a runtime and then subscribes it.
pub add_runtime :
    RuntimeId × ℕ → (ℕ → List SubscriptionData → List SubscriptionData) → Threads → Threads
unfolding register_runtime
add_runtime runtime subscribe_to_all t =
    let (boxes, me) = register_runtime t.boxes in
    record {
      runtimes = t.runtimes ++ runtime ∷ [];
      boxes = boxes;
      subscribers = subscribe_to_all me t.subscribers;
    }

abbrev none_at_all : ℕ → List SubscriptionData → List SubscriptionData
none_at_all me subscribers = subscribers

-- The members of `ProgramManager` that register a runtime, in their order.
pub start_threads : List ℕ → Threads
unfolding add_runtime subscribe_to Hue.subscriptions Presence.subscriptions Sensors.subscriptions
    Requests.subscriptions CommandLine.subscriptions Telldus.subscriptions
start_threads ids =
    add_runtime (schedule_manager, 30 * 1000) none_at_all
      (add_runtime (telldus_command_line_manager, 5 * 60 * 1000) Telldus.subscriptions
        (add_runtime (command_line_manager, 100) CommandLine.subscriptions
          (add_runtime (network_message_handler, 100) Requests.subscriptions
            (add_runtime (http_manager, 100) none_at_all
              (add_runtime (json_manager, 100) none_at_all
                (add_runtime (sensor_manager, 100) Sensors.subscriptions
                  (add_runtime (presence_manager, 1000) Presence.subscriptions
                    (add_runtime (hue_manager, 100) Hue.subscriptions
                      (add_runtime (remote_manager, 100) (λ me. subscribe_to me (map to_int ids))
                        (record { runtimes = []; boxes = []; subscribers = [] }))))))))))

-- The managers with a state, and the world of the bridge.
pub record ProgramManager (W : Type 0) : Type 0 where
  pub threads : Threads
  pub hue : HueManager W
  pub presence : PresenceManager
  pub sensors : SensorManager
  pub http : HttpManager
  pub telldus_lights : List Light
  pub schedule : ScheduleManager

pub new_program_manager : {W : Type 0} → Configuration → W → ProgramManager W
new_program_manager c w = record {
  threads = start_threads c.remote_manager;
  hue = new_hue_manager c.philips_hue.lights w;
  presence = new_presence_manager;
  sensors = new_sensor_manager c.sensor_manager;
  http = new_http_manager;
  telldus_lights = add_lights c.telldus;
  schedule = c.schedule_manager;
}
