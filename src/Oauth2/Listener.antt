-- ===== src/Oauth2/Listener.antt =====
-- homecontrol/OAuth2.cpp, `OAuth2CodeListener`: the redirect of the browser brings the code for a token.
-- `token_from_redirected_uri` of the C++ REST SDK is an argument: from the world and a query, how its task
-- ends, and the world afterwards. The handler only starts the task; the task with its continuation is
-- one later step, and the tasks that run may end in any order.
pub mod Outcomes
use homecontrol_server.Common.{
  ℕ, zero, suc, Bool, true, false, not, ◌&&◌, Text, codes, text_eq, List, [], ◌∷◌, ◌++◌, Option,
  none, some, get_elem?, if◌then◌else◌,
}
use homecontrol_server.Oauth2.{Token, Session}

pub record Request : Type 0 where
  pub path : Text
  pub query : Text

pub data Answer : Type 0 where
  ok not_found : Answer

-- How a task ends: the configuration has a new token, or one of two kinds of exception is thrown.
pub data Outcome : Type 0 where
  received : Token → Outcome
  oauth2_exception : Outcome
  other_exception : Outcome

-- The session, the queries whose tasks run, and the value that `m_TaskCompleted` was first set to.
pub record Listener (W : Type 0) : Type 0 where
  pub session : Session W
  pub pending : List Text
  pub task_completed : Option Bool

-- `task_completion_event::set` keeps the first value.
pub set_completed : Bool → Option Bool → Option Bool
set_completed b none = some b
set_completed b (some first) = some first

pub is_redirect : Request → Bool
is_redirect r = text_eq r.path (codes "/") && not (text_eq r.query [])

-- The queries without the one at a place.
pub without_place : ℕ → List Text → List Text
without_place n [] = []
without_place zero (q ∷ qs) = qs
without_place (suc n) (q ∷ qs) = q ∷ without_place n qs

module _ {W : Type 0} where
  -- The handler of the listener.
  pub handle_request : Request → Listener W → Answer × Listener W
  unfolding is_redirect
  handle_request r l =
      if is_redirect r
      then (ok, record l { pending = l.pending ++ r.query ∷ [] })
      else (not_found, l)

-- What happens: a request comes in, or the task at a place among those that run ends.
pub data Event : Type 0 where
  requests : Request → Event
  completes : ℕ → Event

module _ {W : Type 0} (clock : W → ℕ) (token_from_redirected_uri : W → Text → Outcome × W) where
  -- The continuation catches `oauth2_exception` and nothing else: after another exception nothing is set.
  pub continued : Outcome × W → Listener W → Listener W
  unfolding set_completed
  continued (received t, w) l = record l {
    session = record { token = t; received_token = clock w; world = w };
    task_completed = set_completed true l.task_completed;
  }
  continued (oauth2_exception, w) l = record l {
    session = record (l.session) { world = w };
    task_completed = set_completed false l.task_completed;
  }
  continued (other_exception, w) l = record l { session = record (l.session) { world = w } }

  pub complete : ℕ → Listener W → List Outcome × Listener W
  unfolding continued without_place
  complete n l = elim (get_elem? l.pending n) [
    | none ↦ ([], l)
    | some query ↦
        let found = token_from_redirected_uri l.session.world query in
        (found.0 ∷ [], continued found (record l { pending = without_place n l.pending }))
  ]

  pub step : Event → Listener W → List Outcome × Listener W
  unfolding handle_request complete
  step (requests r) l = ([], (handle_request r l).1)
  step (completes n) l = complete n l

  -- The outcomes of the tasks in the order in which they end, and the listener behind the events.
  pub serve : List Event → Listener W → List Outcome × Listener W
  unfolding step
  serve [] l = ([], l)
  serve (e ∷ es) l =
      let (now, l') = step e l in let (later, l'') = serve es l' in (now ++ later, l'')
