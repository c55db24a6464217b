-- ===== src/Program/Scheduled.antt =====
-- From the schedules over the main loop to the lamps of the Hue.
use homecontrol_server.Common.{
  ℕ, ◌≡◌, refl, ap, ◌∙◌, Bool, true, false, ◌||◌, ℤ, List, [], ◌∷◌, Option, some, ◌==◌,
  if◌then◌else◌, get_elem?, All,
}
use homecontrol_server.Data.Message.{Message, Effect, send, answers, message, light}
use homecontrol_server.Data.Devices.{LightState}
use homecontrol_server.Data.Meta.{id_eq, cmd_eq, write, light_state}
use homecontrol_server.Lights.{LightControl, Light, state_of}
use homecontrol_server.Lights.Hue.{HueManager, get_lamp, handle_message}
use homecontrol_server.Lights.Hue.Lamps.{
  Accepts, switched, switched_twice, handle_message-write, get-write,
}
use homecontrol_server.Program.{start_threads}
use homecontrol_server.Program.Wiring.{asked_for, program_delivers}
use homecontrol_server.Queue.{empty}
use homecontrol_server.Runtime.{Owner, Mailbox, Thread, handle_new_message}
use homecontrol_server.Runtime.Dispatch.{KeepsRunning, with_rx}
use homecontrol_server.Runtime.Dispatch.Owners.{IsValue, owner_after, handle_new_message-owner}
use homecontrol_server.Runtime.Routing.{process_messages}
use homecontrol_server.Runtime.Routing.Delivery.{all_sent}
use homecontrol_server.Schedule.{
  Schedule, ScheduleAction, TimeOfDay, lightswitch_on, lightswitch_off, handle_light_switches,
  switch_lights, is_time, callback,
}
use homecontrol_server.Schedule.Firing.{one_schedule, callback_fires}

-- The messages of a handler, which its thread sends.
unfoldable pub sent_messages : List Effect → List Message
sent_messages [] = []
sent_messages (send m ∷ es) = m ∷ sent_messages es
sent_messages (answers a m ∷ es) = sent_messages es

abbrev pub switch_message : Bool → ℕ → Message
switch_message b n = message write light_state (light (record { id = n; is_on = b; name = [] }))

unfoldable pub switch_messages : Bool → List ℕ → List Message
switch_messages b [] = []
switch_messages b (n ∷ ns) = switch_message b n ∷ switch_messages b ns

abbrev pub switch_action : Bool → ScheduleAction
switch_action true = lightswitch_on
switch_action false = lightswitch_off

unfoldable pub is_named : ℕ → List ℕ → Bool
is_named k [] = false
is_named k (n ∷ ns) = n == k || is_named k ns

sent-handle_light_switches :
    (ns : List ℕ) (b : Bool) → sent_messages (handle_light_switches ns b) ≡ switch_messages b ns
unfolding sent_messages handle_light_switches switch_messages
sent-handle_light_switches [] b = refl
sent-handle_light_switches (n ∷ ns) b =
    ap (λ ms. switch_message b n ∷ ms) (sent-handle_light_switches ns b)

sent-switch_lights :
    (ns : List ℕ) (b : Bool)
    → sent_messages (switch_lights (switch_action b) ns) ≡ switch_messages b ns
sent-switch_lights ns true = sent-handle_light_switches ns true
sent-switch_lights ns false = sent-handle_light_switches ns false

-- The Hue asks for every switch message.
asked_for-switch_messages :
    (ids : List ℕ) (b : Bool) (ns : List ℕ)
    → asked_for ids 1 (switch_messages b ns) ≡ switch_messages b ns
unfolding asked_for switch_messages id_eq
asked_for-switch_messages ids b [] = refl
asked_for-switch_messages ids b (n ∷ ns) =
    ap (λ ms. switch_message b n ∷ ms) (asked_for-switch_messages ids b ns)

switches_keep_running : (b : Bool) (ns : List ℕ) → All KeepsRunning (switch_messages b ns)
unfolding switch_messages
switches_keep_running b [] = tt
switches_keep_running b (n ∷ ns) = (λ e. cc, switches_keep_running b ns)

switches_are_values : (b : Bool) (ns : List ℕ) → All IsValue (switch_messages b ns)
unfolding switch_messages cmd_eq
switches_are_values b [] = tt
switches_are_values b (n ∷ ns) = (refl, switches_are_values b ns)

module _ {W : Type 0} (control : LightControl W) where
  -- The Hue manager puts no functions into messages.
  abbrev pub hue_owner : Owner (HueManager W)
  hue_owner = record {
    handle_message = handle_message control;
    callback = λ s. (s, [], true);
    call = λ s f. (s, [], true);
  }

  switched_or_not :
      (x y : Bool) (s : LightState) (l : Option Light)
      → let one = if x then switched control s l else l in
        (if y then switched control s one else one) ≡ (if x || y then switched control s l else l)
  switched_or_not true true s l = switched_twice control s l
  switched_or_not true false s l = refl
  switched_or_not false y s l = refl

  lamps_after :
      Accepts control
      → (b : Bool) (ns : List ℕ) (k : ℕ) (s : HueManager W)
      → get_lamp k (owner_after hue_owner s (switch_messages b ns)).lamps ≡ (
          if is_named k ns
          then switched control (state_of b) (get_lamp k s.lamps)
          else get_lamp k s.lamps)
  unfolding owner_after switch_messages is_named
  lamps_after h b [] k s = refl
  lamps_after h b (n ∷ ns) k s =
      let next = (handle_message control s (switch_message b n)).0 in
      let one : get_lamp k next.lamps ≡ (
          if n == k
          then switched control (state_of b) (get_lamp k s.lamps)
          else get_lamp k s.lamps) =
        ap (λ t. get_lamp k t.lamps)
          (handle_message-write control s (record { id = n; is_on = b; name = [] }))
        ∙ get-write control h n k (state_of b) s.lamps s.bridge in
      rw (lamps_after h b ns k next, one)
        (switched_or_not (n == k) (is_named k ns) (state_of b) (get_lamp k s.lamps))

  -- The lamps of the Hue after it has handled switch messages.
  thread_lamps :
      Accepts control
      → (b : Bool) (ns : List ℕ) (k : ℕ) (t : Thread (HueManager W)) → t.running ≡ true
      → get_lamp k
          (handle_new_message hue_owner (with_rx empty t) (switch_messages b ns ∷ [])).0.owner.lamps
        ≡ (if is_named k ns
            then switched control (state_of b) (get_lamp k t.owner.lamps)
            else get_lamp k t.owner.lamps)
  thread_lamps h b ns k t r =
      ap (λ s. get_lamp k s.lamps)
        ((handle_new_message-owner hue_owner t (switch_messages b ns) r (switches_keep_running b ns)
          (switches_are_values b ns)).0)
      ∙ lamps_after h b ns k t.owner

  -- A schedule whose minute has come, and which has not been handled, switches the lamps that it names:
  -- if its messages are all that is to be sent, and the thread of the Hue runs and has nothing else to
  -- handle, the next round of the main loop gives the messages to this thread, and once it has handled
  -- them, each named lamp that is configured has the state of the schedule, and every other lamp its old
  -- one. The bridge takes over every state.
  pub schedule_switches_lamps :
      Accepts control
      → (ids : List ℕ) (boxes : List Mailbox) (t : Thread (HueManager W)) (now : TimeOfDay)
        (offset : ℤ) (s : Schedule) (b : Bool) (k : ℕ)
      → is_time now offset s ≡ true
      → s.handled ≡ false
      → s.schedule_action ≡ switch_action b
      → t.running ≡ true
      → get_elem? boxes 1 ≡ some (record (t.mailbox) { rx = empty })
      → all_sent (start_threads ids).subscribers boxes
        ≡ sent_messages (callback now (one_schedule s offset)).1
      → let ms = switch_messages b s.internal_ids in
        let lamps = (handle_new_message hue_owner (with_rx empty t) (ms ∷ [])).0.owner.lamps in
        (get_elem? (process_messages (start_threads ids).subscribers boxes) 1
          ≡ some (record { rx = record { items = ms }; tx = empty }))
        × (get_lamp k lamps ≡ (
            if is_named k s.internal_ids
            then switched control (state_of b) (get_lamp k t.owner.lamps)
            else get_lamp k t.owner.lamps))
  schedule_switches_lamps h ids boxes t now offset s b k time fresh action r place sent =
      let to_send : all_sent (start_threads ids).subscribers boxes
          ≡ switch_messages b s.internal_ids =
        sent
        ∙ ap sent_messages (callback_fires now offset s ∙ rw (time, fresh, action) refl)
        ∙ sent-switch_lights s.internal_ids b in
      (
        program_delivers ids boxes 1 (record (t.mailbox) { rx = empty }) place
            ∙ rw (to_send, asked_for-switch_messages ids b s.internal_ids) refl,
        thread_lamps h b s.internal_ids k t r,
      )
