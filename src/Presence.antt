-- ===== src/Presence.antt =====
-- homecontrol/PresenceManager.cpp: who is at home, by the Bluetooth devices in range. What the
-- manager logs is left out.
pub mod History
use homecontrol_server.Common.{
  ℕ, ℤ, Bool, true, false, ◌&&◌, List, [], ◌∷◌, ◌++◌, Option, none, some, if◌then◌else◌,
}
use homecontrol_server.Common.OrdMap.{assign, ℤ_key}
use homecontrol_server.Common.OrdMap.Sorted.{any_value}
use homecontrol_server.Subscription.{SubscriptionData}
use homecontrol_server.Subscription
use homecontrol_server.Data.Meta.{
  cmd_eq, id_eq, write, read, answer, read_with_direct_answer, blootooth_device, presence,
}
use homecontrol_server.Data.Devices.{BluetoothDevice}
use homecontrol_server.Data.Message.{
  Message, Effect, send, message, flag, as_bluetooth, answer_with,
}

pub record PresenceManager : Type 0 where
  pub some_one_at_home : List (ℤ × BluetoothDevice)
  pub at_least_one_at_home : Bool

abbrev pub new_presence_manager : PresenceManager
new_presence_manager = record { some_one_at_home = []; at_least_one_at_home = false }

-- The map after the update, and whether a device of it is in range.
pub is_at_least_someone_at_home :
    List (ℤ × BluetoothDevice) → BluetoothDevice → List (ℤ × BluetoothDevice) × Bool
unfolding any_value assign
is_at_least_someone_at_home devices dev =
    let devices' = assign dev.device_id dev devices in
    (devices', any_value (λ d. d.in_range) devices')

report : PresenceManager → Option BluetoothDevice → PresenceManager
unfolding is_at_least_someone_at_home
report s none = s
report s (some dev) =
    let (devices, at_home) = is_at_least_someone_at_home s.some_one_at_home dev in
    record { some_one_at_home = devices; at_least_one_at_home = at_home }

pub handle_message : PresenceManager → Message → PresenceManager × List Effect
unfolding report
handle_message s m =
    let reply = message answer presence (flag s.at_least_one_at_home) in
    if cmd_eq m.cmd write && id_eq m.id blootooth_device
    then (report s (as_bluetooth m.value), [])
    else if cmd_eq m.cmd read && id_eq m.id presence
    then (s, send reply ∷ [])
    else if cmd_eq m.cmd read_with_direct_answer && id_eq m.id presence
    then (s, answer_with m reply)
    else (s, [])

pub run : PresenceManager → List Message → PresenceManager
unfolding handle_message
run s [] = s
run s (m ∷ ms) = run (handle_message s m).0 ms

-- The subscriptions of the constructor.
unfoldable pub subscriptions : ℕ → List SubscriptionData → List SubscriptionData
subscriptions me subscribers =
    Subscription.subscribe
      (Subscription.subscribe subscribers (record { id = blootooth_device; runtime = me }))
      (record { id = presence; runtime = me })
