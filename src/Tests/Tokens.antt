-- ===== src/Tests/Tokens.antt =====
-- Access tokens that expire, and the redirect for a token, at concrete inputs.
use homecontrol_server.Common.{
  ℕ, negsuc, List, length, Text, [], ◌∷◌, if◌then◌else◌, ◌==◌, ◌+◌, ◌*◌, ◌^◌, ◌≡◌, refl, pos, true,
  codes, Option, some, none, arith,
}
use homecontrol_server.Oauth2.{Token, Session, get_access_token}
use homecontrol_server.Oauth2.Listener.{
  Request, Outcome, received, other_exception, Event, requests, completes, serve,
}
use homecontrol_server.Oauth2.Listener.Outcomes.{
  first_decision, last_token, redirects, serve_decides,
}
use homecontrol_server.Oauth2.Expiry.{Refreshes, get_access_token_endless}

abbrev day_token : Token
day_token = record { access_token = codes "a"; refresh_token = codes "r"; expires_in = pos 86400 }

-- The world is the clock; each refresh takes a second.
abbrev a_second_each : ℕ → Token → Option Token × ℕ
a_second_each w t = (some day_token, w + 10 ^ 9)

abbrev second_day : Session ℕ
second_day = record { token = day_token; received_token = 0; world = 90000 * 10 ^ 9 }

refreshes : Refreshes (λ w. w) (λ t. true) (λ w. (none, w)) a_second_each 86400
refreshes w t = (day_token, w + 10 ^ 9, refl, refl, omega arith, omega arith)

get_access_token_endless_example :
    get_access_token (λ w. w) (λ t. true) (λ w. (none, w)) a_second_each 1000 second_day ≡ none
get_access_token_endless_example =
    get_access_token_endless (λ w. w) (λ t. true) (λ w. (none, w)) a_second_each 1000 86400
      second_day refreshes refl (omega arith) (omega arith)

-- The redirect of the browser, with a request for an icon before it and a second redirect behind it, whose
-- task ends first: the site cannot be reached.
abbrev icon : Request
icon = record { path = codes "/favicon.ico"; query = [] }

abbrev redirect : Request
redirect = record { path = codes "/"; query = codes "code=7" }

abbrev reached_later : ℕ → Text → Outcome × ℕ
reached_later w query = (if w == 0 then other_exception else received day_token, w + 1)

abbrev no_token_yet : Session ℕ
no_token_yet = record {
  token = record { access_token = []; refresh_token = []; expires_in = negsuc 0 };
  received_token = 0;
  world = 0;
}

abbrev events : List Event
events = requests icon ∷ requests redirect ∷ requests redirect ∷ completes 1 ∷ completes 0 ∷ []

serve_decides_example :
    let (outcomes, l) =
      serve
        (λ w. w)
        reached_later
        events
        (record { session = no_token_yet; pending = []; task_completed = none }) in
    (l.task_completed ≡ first_decision outcomes)
    × (l.session.token ≡ last_token no_token_yet.token outcomes)
    × (length outcomes + length l.pending ≡ redirects events)
serve_decides_example = serve_decides (λ w. w) reached_later events no_token_yet
