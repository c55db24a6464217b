-- ===== src/Oauth2/Expiry.antt =====
-- When a token has expired.
use homecontrol_server.Common.{
  ℕ, zero, suc, ◌+◌, ◌*◌, ◌^◌, ◌<◌, ◌≤◌, ◌≡◌, ap, refl, ℤ, pos, ◌+ℤ◌, Bool, true, Option, none,
  some, arith,
}
use homecontrol_server.Common.Int.{◌≤ℤ◌}
use homecontrol_server.Oauth2.{Token, Session, is_over, access_token_expired, get_access_token}

over_when_late :
    (received e now : ℕ) (expires_in : ℤ)
    → expires_in ≤ℤ pos e
    → received + e * 10 ^ 9 < now
    → is_over received expires_in now ≡ true
unfolding is_over ◌+ℤ◌
over_when_late received e now expires_in h l = ground arith

module _ {W : Type 0} (clock : W → ℕ) (is_valid_access_token : Token → Bool)
    (authorize : W → Option Token × W) (refresh : W → Token → Option Token × W) where
  -- A refresh that works: a valid token with at most `e` seconds, on a clock that does not go back.
  abbrev pub Refreshes : ℕ → Type 0
  Refreshes e =
      (w : W) (t : Token)
      → (t' : Token) × (w' : W) × (refresh w t ≡ (some t', w'))
        × (is_valid_access_token t' ≡ true)
        × (t'.expires_in ≤ℤ pos e)
        × (clock w ≤ clock w')

  -- A refresh does not renew the time at which the token counts as received. So if every refresh gives
  -- a valid token for at most `e` seconds, and `e` seconds have gone by since the authorization, then
  -- the request for a token refreshes for ever: no fuel is enough.
  pub get_access_token_endless :
      (n e : ℕ) (s : Session W)
      → Refreshes e
      → is_valid_access_token s.token ≡ true
      → s.token.expires_in ≤ℤ pos e
      → s.received_token + e * 10 ^ 9 < clock s.world
      → get_access_token clock is_valid_access_token authorize refresh n s ≡ none
  unfolding get_access_token access_token_expired
  get_access_token_endless zero e s r v h l = refl
  get_access_token_endless (suc n) e s r v h l =
      let (t, w, eq, valid, short, later) = r s.world s.token in
      rw (v, over_when_late s.received_token e (clock s.world) s.token.expires_in h l)
        (rw (ap (λ p. p.0) eq, ap (λ p. p.1) eq)
          (get_access_token_endless n e (record s { token = t; world = w }) r valid short
            (omega arith)))
