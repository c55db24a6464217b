-- ===== src/Presence/History.antt =====
-- The manager's answer against the history of reports.
use homecontrol_server.Common.{
  ℤ, true, ◌&&◌, List, [], ◌∷◌, Option, none, some, if◌then◌else◌, ◌≡◌, refl, ◌↔◌, arith, eq_ℤ,
  Bool-cases, inl, inr, ◌∙◌, ap, sym,
}
use homecontrol_server.Common.Int.{eq_ℤ_iff}
use homecontrol_server.Common.OrdMap.{find, assign, find-assign_self, find-assign_ne, ℤ_key}
use homecontrol_server.Common.OrdMap.Sorted.{any_value, any_value_iff, IsSorted, assign-IsSorted}
use homecontrol_server.Data.Meta.{
  cmd_eq, id_eq, write, read, answer, read_with_direct_answer, blootooth_device, presence,
}
use homecontrol_server.Data.Devices.{BluetoothDevice}
use homecontrol_server.Data.Message.{
  Message, send, answers, message, flag, as_bluetooth, Answerer, Value,
}
use homecontrol_server.Presence.{PresenceManager, new_presence_manager, report, handle_message, run}

-- The device that a message reports, if it is a report.
abbrev reported : Message → Option BluetoothDevice
reported m =
    if cmd_eq m.cmd write && id_eq m.id blootooth_device then as_bluetooth m.value else none

-- The last report of a device in a history, behind an earlier one.
abbrev later_report : ℤ → Option BluetoothDevice → Option BluetoothDevice → Option BluetoothDevice
later_report d old none = old
later_report d old (some dev) = if eq_ℤ dev.device_id d then some dev else old

pub last_report : ℤ → Option BluetoothDevice → List Message → Option BluetoothDevice
last_report d old [] = old
last_report d old (m ∷ ms) = last_report d (later_report d old (reported m)) ms

record IsConsistent (s : PresenceManager) : Type 0 where
  sorted : IsSorted s.some_one_at_home
  flagged : s.at_least_one_at_home ≡ any_value (λ d. d.in_range) s.some_one_at_home

report-IsConsistent :
    (s : PresenceManager) (o : Option BluetoothDevice) → IsConsistent s → IsConsistent (report s o)
unfolding report
report-IsConsistent s none c = c
report-IsConsistent s (some dev) c = record {
  sorted = assign-IsSorted dev.device_id dev s.some_one_at_home c.sorted;
  flagged = refl;
}

-- A message changes the state by what it reports.
handle_message-report :
    (s : PresenceManager) (m : Message) → (handle_message s m).0 ≡ report s (reported m)
unfolding handle_message report
handle_message-report s m = ground arith

find-report :
    (d : ℤ) (s : PresenceManager) (o : Option BluetoothDevice)
    → find d (report s o).some_one_at_home ≡ later_report d (find d s.some_one_at_home) o
unfolding report
find-report d s none = refl
find-report d s (some dev) = elim (Bool-cases (eq_ℤ dev.device_id d)) [
  | inl e ↦ rw e (
      ap (λ k. find k (assign dev.device_id dev s.some_one_at_home))
        (sym ((eq_ℤ_iff dev.device_id d).0 e))
      ∙ find-assign_self dev.device_id dev s.some_one_at_home)
  | inr e ↦ rw e (find-assign_ne dev.device_id d dev s.some_one_at_home e)
]

run-IsConsistent :
    (s : PresenceManager) (ms : List Message) → IsConsistent s → IsConsistent (run s ms)
unfolding run
run-IsConsistent s [] c = c
run-IsConsistent s (m ∷ ms) c =
    run-IsConsistent (handle_message s m).0 ms
      (rw (handle_message-report s m) (report-IsConsistent s (reported m) c))

find-run :
    (d : ℤ) (s : PresenceManager) (ms : List Message)
    → find d (run s ms).some_one_at_home ≡ last_report d (find d s.some_one_at_home) ms
unfolding run last_report
find-run d s [] = refl
find-run d s (m ∷ ms) =
    find-run d (handle_message s m).0 ms
    ∙ ap (λ o. last_report d o ms)
        (ap (λ t. find d t.some_one_at_home) (handle_message-report s m)
          ∙ find-report d s (reported m))

-- The flag after a history: somebody is at home exactly if there is a device whose last report
-- says that it is in range. A device that never reported, or that last reported out of range, does
-- not count, and other messages change nothing.
pub at_least_one_iff :
    (ms : List Message)
    → ((run new_presence_manager ms).at_least_one_at_home ≡ true) ↔ (
        (d : ℤ) × (dev : BluetoothDevice) × (last_report d none ms ≡ some dev)
        × (dev.in_range ≡ true))
unfolding find any_value
at_least_one_iff ms =
    let s = run new_presence_manager ms in
    let c : IsConsistent s =
      run-IsConsistent new_presence_manager ms (record { sorted = tt; flagged = refl }) in
    let found =
      any_value_iff (λ (dev : BluetoothDevice). dev.in_range) s.some_one_at_home c.sorted in
    (
      λ h.
          let (d, dev, e, r) = found.0 (sym c.flagged ∙ h) in
          (d, dev, sym (find-run d new_presence_manager ms) ∙ e, r),
      λ (d, dev, e, r). c.flagged ∙ found.1 (d, dev, find-run d new_presence_manager ms ∙ e, r),
    )

-- Whoever asks for the presence, by `Read` or with a direct answer, is told the flag, once, and the
-- manager stays as it was.
pub presence_replies :
    (s : PresenceManager) (v : Option Value) (a : Answerer)
    → (handle_message s (record { cmd = read; id = presence; value = v; answerer = some a })
        ≡ (s, send (message answer presence (flag s.at_least_one_at_home)) ∷ []))
      × (handle_message s
            (record { cmd = read_with_direct_answer; id = presence; value = v; answerer = some a })
          ≡ (s, answers a (message answer presence (flag s.at_least_one_at_home)) ∷ []))
unfolding handle_message cmd_eq id_eq
presence_replies s v a = (refl, refl)
