-- ===== src/Runtime/Dispatch/Owners.antt =====
-- What the owner of a thread makes of its messages, and the replies that it gives.
use homecontrol_server.Common.{◌≡◌, refl, ap, ◌∙◌, true, false, List, [], ◌∷◌, append-nil, All}
use homecontrol_server.Data.Message.{Message, Effect, send, answers}
use homecontrol_server.Data.Meta.{cmd_eq, run_function}
use homecontrol_server.Queue.{empty}
use homecontrol_server.Runtime.{
  Owner, Thread, Replies, perform, pre_parse_msg, unless_handled, to_owner, dispatch,
  handle_new_message,
}
use homecontrol_server.Runtime.Dispatch.{
  KeepsRunning, with_rx, concat, handle_all, handle_all-running, handle_new_message-concat,
}

-- A message that is not for the thread itself.
abbrev pub IsValue : Message → Type 0
IsValue m = cmd_eq m.cmd run_function ≡ false

unfoldable pub replies_of : List Effect → Replies
replies_of [] = []
replies_of (send m ∷ es) = replies_of es
replies_of (answers a m ∷ es) = (a, m) ∷ replies_of es

module _ {S : Type 0} (o : Owner S) where
  perform-owner : (es : List Effect) (t : Thread S) → (perform es t).0.owner ≡ t.owner
  unfolding perform
  perform-owner [] t = refl
  perform-owner (send m ∷ es) t = perform-owner es _
  perform-owner (answers a m ∷ es) t = perform-owner es t

  -- The owner after it has seen each message.
  unfoldable pub owner_after : S → List Message → S
  owner_after s [] = s
  owner_after s (m ∷ ms) = owner_after (o.handle_message s m).0 ms

  dispatch-owner :
      (t : Thread S) (m : Message)
      → IsValue m
      → (dispatch o t m).0.owner ≡ (o.handle_message t.owner m).0
  unfolding dispatch pre_parse_msg unless_handled to_owner
  dispatch-owner t m h = rw h (perform-owner (o.handle_message t.owner m).1 _)

  -- Messages without a function go to the owner, one after the other.
  pub handle_all-owner :
      (t : Thread S) (ms : List Message)
      → All IsValue ms
      → (handle_all o t ms).0.owner ≡ owner_after t.owner ms
  unfolding handle_all owner_after
  handle_all-owner t [] h = refl
  handle_all-owner t (m ∷ ms) h =
      handle_all-owner (dispatch o t m).0 ms h.1
      ∙ ap (λ s. owner_after s ms) (dispatch-owner t m h.0)

  perform-replies : (es : List Effect) (t : Thread S) → (perform es t).1 ≡ replies_of es
  unfolding perform replies_of
  perform-replies [] t = refl
  perform-replies (send m ∷ es) t = perform-replies es _
  perform-replies (answers a m ∷ es) t = ap (λ rs. (a, m) ∷ rs) (perform-replies es t)

  dispatch-replies :
      (t : Thread S) (m : Message)
      → IsValue m
      → (dispatch o t m).1 ≡ replies_of (o.handle_message t.owner m).1
  unfolding dispatch pre_parse_msg unless_handled to_owner
  dispatch-replies t m h = rw h (perform-replies (o.handle_message t.owner m).1 _)

  one_wait :
      (t : Thread S) (ms : List Message)
      → t.running ≡ true
      → All KeepsRunning ms
      → handle_new_message o (with_rx empty t) (ms ∷ []) ≡ handle_all o (with_rx empty t) ms
  unfolding concat
  one_wait t ms r h =
      handle_new_message-concat o t (ms ∷ []) r (h, tt)
      ∙ ap (handle_all o (with_rx empty t)) (append-nil ms)

  -- After one wait the owner has seen each message, in order, and the thread still runs.
  pub handle_new_message-owner :
      (t : Thread S) (ms : List Message)
      → t.running ≡ true
      → All KeepsRunning ms
      → All IsValue ms
      → ((handle_new_message o (with_rx empty t) (ms ∷ [])).0.owner ≡ owner_after t.owner ms)
        × ((handle_new_message o (with_rx empty t) (ms ∷ [])).0.running ≡ true)
  handle_new_message-owner t ms r h v = (
    ap (λ d. d.0.owner) (one_wait t ms r h) ∙ handle_all-owner (with_rx empty t) ms v,
    ap (λ d. d.0.running) (one_wait t ms r h) ∙ handle_all-running o (with_rx empty t) ms h ∙ r,
  )

  -- A single message is answered by the owner's answers.
  pub handle_new_message-replies :
      (t : Thread S) (m : Message)
      → t.running ≡ true
      → KeepsRunning m
      → IsValue m
      → (handle_new_message o (with_rx empty t) ((m ∷ []) ∷ [])).1
        ≡ replies_of (o.handle_message t.owner m).1
  unfolding handle_all
  handle_new_message-replies t m r h v =
      ap (λ d. d.1) (one_wait t (m ∷ []) r (h, tt))
      ∙ append-nil (dispatch o (with_rx empty t) m).1
      ∙ dispatch-replies (with_rx empty t) m v
