-- ===== src/Oauth2/Listener/Outcomes.antt =====
-- What the redirects that come in, and the order in which their tasks end, decide.
use homecontrol_server.Common.{
  ℕ, zero, suc, ◌+◌, ◌≡◌, refl, ap, sym, ◌∙◌, Bool, true, false, Text, List, [], ◌∷◌, ◌++◌, Option,
  none, some, get_elem?, if◌then◌else◌, length, length-append, arith, Bool-cases, Option-cases, inl,
  inr,
}
use homecontrol_server.Oauth2.{Token, Session}
use homecontrol_server.Oauth2.Listener.{
  Outcome, received, oauth2_exception, other_exception, Listener, Event, requests, completes,
  set_completed, is_redirect, without_place, handle_request, continued, complete, step, serve,
}

-- The first outcome that decides the authorization, and how.
pub first_decision : List Outcome → Option Bool
first_decision [] = none
first_decision (received t ∷ os) = some true
first_decision (oauth2_exception ∷ os) = some false
first_decision (other_exception ∷ os) = first_decision os

-- The token that was received last, or else the one from before.
pub last_token : Token → List Outcome → Token
last_token t [] = t
last_token t (received t' ∷ os) = last_token t' os
last_token t (o ∷ os) = last_token t os

-- How many of the requests are redirects with a query.
pub redirects : List Event → ℕ
redirects [] = 0
redirects (requests r ∷ es) = if is_redirect r then suc (redirects es) else redirects es
redirects (completes n ∷ es) = redirects es

-- A decision that has been made stays.
abbrev or_else : Option Bool → Option Bool → Option Bool
or_else none d = d
or_else (some b) d = some b

or_else_assoc : (a b c : Option Bool) → or_else a (or_else b c) ≡ or_else (or_else a b) c
or_else_assoc none b c = refl
or_else_assoc (some x) b c = refl

or_else-none : (a : Option Bool) → or_else a none ≡ a
or_else-none none = refl
or_else-none (some b) = refl

set_completed_lem : (b : Bool) (d : Option Bool) → set_completed b d ≡ or_else d (some b)
unfolding set_completed
set_completed_lem b none = refl
set_completed_lem b (some c) = refl

first_decision-append :
    (os later : List Outcome)
    → first_decision (os ++ later) ≡ or_else (first_decision os) (first_decision later)
unfolding first_decision
first_decision-append [] later = refl
first_decision-append (received t ∷ os) later = refl
first_decision-append (oauth2_exception ∷ os) later = refl
first_decision-append (other_exception ∷ os) later = first_decision-append os later

last_token-append :
    (t : Token) (os later : List Outcome)
    → last_token t (os ++ later) ≡ last_token (last_token t os) later
unfolding last_token
last_token-append t [] later = refl
last_token-append t (received t' ∷ os) later = last_token-append t' os later
last_token-append t (oauth2_exception ∷ os) later = last_token-append t os later
last_token-append t (other_exception ∷ os) later = last_token-append t os later

length-without_place :
    (n : ℕ) (qs : List Text) {q : Text}
    → get_elem? qs n ≡ some q
    → suc (length (without_place n qs)) ≡ length qs
unfolding without_place
length-without_place n [] h = absurd (ground arith)
length-without_place zero (q ∷ qs) h = refl
length-without_place (suc n) (q ∷ qs) h = ap suc (length-without_place n qs h)

module _ {W : Type 0} (clock : W → ℕ) (token_from_redirected_uri : W → Text → Outcome × W) where
  -- What a sequence of outcomes has made of a listener.
  abbrev Made : Listener W → List Outcome → Listener W → Type 0
  Made l os l' =
      (l'.task_completed ≡ or_else l.task_completed (first_decision os))
      × (l'.session.token ≡ last_token l.session.token os)

  continued_lem :
      (o : Outcome) (w : W) (l : Listener W)
      → Made l (o ∷ []) (continued clock token_from_redirected_uri (o, w) l)
        × ((continued clock token_from_redirected_uri (o, w) l).pending ≡ l.pending)
  unfolding continued first_decision last_token
  continued_lem (received t) w l = ((set_completed_lem true l.task_completed, refl), refl)
  continued_lem oauth2_exception w l = ((set_completed_lem false l.task_completed, refl), refl)
  continued_lem other_exception w l = ((sym (or_else-none l.task_completed), refl), refl)

  complete_lem :
      (n : ℕ) (l : Listener W)
      → let (os, l') = complete clock token_from_redirected_uri n l in
        Made l os l' × (length os + length l'.pending ≡ length l.pending)
  unfolding complete first_decision last_token
  complete_lem n l = elim (Option-cases (get_elem? l.pending n)) [
    | inl e ↦ rw (complete, e) ((sym (or_else-none l.task_completed), refl), omega arith)
    | inr (q, e) ↦
        let found = token_from_redirected_uri l.session.world q in
        let (m, p) =
          continued_lem found.0 found.1 (record l { pending = without_place n l.pending }) in
        rw (complete, e) (m, omega (arith, ap length p, length-without_place n l.pending e))
  ]

  step_lem :
      (e : Event) (l : Listener W)
      → let (os, l') = step clock token_from_redirected_uri e l in
        Made l os l' × (length os + length l'.pending ≡ length l.pending + redirects (e ∷ []))
  unfolding step handle_request first_decision last_token redirects
  step_lem (requests r) l = elim (Bool-cases (is_redirect r)) [
    | inl e ↦ rw e (
      (sym (or_else-none l.task_completed), refl),
      omega (arith, length-append l.pending (r.query ∷ [])),
    )
    | inr e ↦ rw e ((sym (or_else-none l.task_completed), refl), omega arith)
  ]
  step_lem (completes n) l = let (m, p) = complete_lem n l in (m, omega arith)

  redirects_first :
      (e : Event) (es : List Event) → redirects (e ∷ es) ≡ redirects (e ∷ []) + redirects es
  unfolding redirects
  redirects_first (requests r) es = ground arith
  redirects_first (completes n) es = omega arith

  serve_lem :
      (es : List Event) (l : Listener W)
      → let (os, l') = serve clock token_from_redirected_uri es l in
        Made l os l' × (length os + length l'.pending ≡ length l.pending + redirects es)
  unfolding serve first_decision last_token redirects
  serve_lem [] l = ((sym (or_else-none l.task_completed), refl), omega arith)
  serve_lem (e ∷ es) l =
      let (now, l') = step clock token_from_redirected_uri e l in
      let (later, l'') = serve clock token_from_redirected_uri es l' in
      let ((d, t), p) = step_lem e l in
      let ((d', t'), p') = serve_lem es l' in
      (
        (
          d'
              ∙ ap (λ a. or_else a (first_decision later)) d
              ∙ sym (or_else_assoc l.task_completed (first_decision now) (first_decision later))
              ∙ ap (or_else l.task_completed) (sym (first_decision-append now later)),
          t' ∙ ap (λ a. last_token a later) t ∙ sym (last_token-append l.session.token now later),
        ),
        omega (arith, length-append now later, redirects_first e es),
      )

  -- Over every order in which requests come in and the tasks of their redirects end: `Authorize` waits
  -- until the first task that brings a token or throws an `oauth2_exception`, whichever redirect it
  -- belongs to, and gets that outcome; the session has the token that was received last; and every
  -- redirect has started one task, which has ended or still runs. Other exceptions decide nothing.
  pub serve_decides :
      (es : List Event) (s : Session W)
      → let (outcomes, l) =
          serve clock token_from_redirected_uri es
            (record { session = s; pending = []; task_completed = none }) in
        (l.task_completed ≡ first_decision outcomes)
        × (l.session.token ≡ last_token s.token outcomes)
        × (length outcomes + length l.pending ≡ redirects es)
  serve_decides es s =
      let ((d, t), p) =
        serve_lem es (record { session = s; pending = []; task_completed = none }) in
      (d, t, omega arith)
