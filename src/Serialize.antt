-- ===== src/Serialize.antt =====
-- homecontrol/serializeFunctions.cpp: functions that one thread runs in sequence. A function is what
-- it does to the state `S` that it has captured; the destructor posts the function that stops.
pub mod Sequence
use homecontrol_server.Common.{Bool, true, false, List, [], ◌∷◌, ◌++◌, if◌then◌else◌}

pub data Function (S : Type 0) : Type 0 where
  runs : (S → S) → Function S
  stops : Function S

pub record SerializeFunctions (S : Type 0) : Type 0 where
  pub stop : Bool
  pub queue : List (Function S)
  pub state : S

module _ {S : Type 0} where
  pub new_serialize_functions : S → SerializeFunctions S
  new_serialize_functions s = record { stop = false; queue = []; state = s }

  -- `run`.
  pub post_function : Function S → SerializeFunctions S → SerializeFunctions S
  post_function f r = record r { queue = r.queue ++ f ∷ [] }

  pub post_all : List (Function S) → SerializeFunctions S → SerializeFunctions S
  unfolding post_function
  post_all [] r = r
  post_all (f ∷ fs) r = post_all fs (post_function f r)

  call_function : Function S → SerializeFunctions S → SerializeFunctions S
  call_function (runs f) r = record r { state = f r.state }
  call_function stops r = record r { stop = true }

  -- The inner loop, over the queue that was swapped out: it does not look at the flag.
  pub call_all : List (Function S) → SerializeFunctions S → SerializeFunctions S
  unfolding call_function
  call_all [] r = r
  call_all (f ∷ fs) r = call_all fs (call_function f r)

  -- `handler`: each round takes the whole queue, which holds what has been posted since the last one.
  pub handler : List (List (Function S)) → SerializeFunctions S → SerializeFunctions S
  unfolding call_all post_all
  handler [] r = r
  handler (posted ∷ later) r =
      let full = post_all posted r in
      let next = handler later (call_all full.queue (record full { queue = [] })) in
      if r.stop then r else next
