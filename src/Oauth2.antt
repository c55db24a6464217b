-- ===== src/Oauth2.antt =====
-- homecontrol/OAuth2.cpp: the session that hands out access tokens. The authorization and the refresh
-- of the C++ REST SDK are arguments: from the world, a token or nothing (a failure, an exception), and
-- the world afterwards. A time of `steady_clock` is a number of nanoseconds.
pub mod Expiry
pub mod Listener
use homecontrol_server.Common.{
  ℕ, zero, suc, ◌+◌, ◌-◌, ◌*◌, ◌^◌, ℤ, pos, negsuc, ◌+ℤ◌, Bool, true, false, Text, Option, none,
  some, if◌then◌else◌,
}
use homecontrol_server.Common.Int.{ltb_ℤ}

pub record Token : Type 0 where
  pub access_token : Text
  pub refresh_token : Text
  pub expires_in : ℤ

-- IOauth2.h.
pub record ConfigToken : Type 0 where
  pub access_token : Text
  pub refresh_token : Text
  pub token_type : Text
  pub scope : Text

pub record Session (W : Type 0) : Type 0 where
  pub token : Token
  pub received_token : ℕ
  pub world : W

pub data Access : Type 0 where
  found : Text → Access
  no_token thrown : Access

-- `std::chrono::seconds(n)` in nanoseconds.
abbrev pub seconds : ℤ → ℤ
seconds (pos n) = pos (n * 10 ^ 9)
seconds (negsuc n) = negsuc (suc n * 10 ^ 9 - 1)

unfoldable pub is_over : ℕ → ℤ → ℕ → Bool
is_over received expires_in now = ltb_ℤ (pos received +ℤ seconds expires_in) (pos now)

module _ {W : Type 0} where
  -- A configured token has no expiry: the library's value for that is -1.
  unfoldable pub set_token_config : ConfigToken → Session W → Session W
  set_token_config c s = record s {
    token = record {
      access_token = c.access_token;
      refresh_token = c.refresh_token;
      expires_in = negsuc 0;
    };
  }

module _ {W : Type 0} (clock : W → ℕ) where
  pub authorized : Session W → Option Token × W → Session W
  authorized s (none, w) = record s { world = w }
  authorized s (some t, w) = record { token = t; received_token = clock w; world = w }

module _ {W : Type 0} (clock : W → ℕ) (is_valid_access_token : Token → Bool)
    (authorize : W → Option Token × W) (refresh : W → Token → Option Token × W) where
  unfoldable pub authenticate : Session W → Session W
  unfolding authorized
  authenticate s =
      if is_valid_access_token s.token then s else authorized clock s (authorize s.world)

  unfoldable pub access_token_expired : Session W → Bool
  unfolding is_over
  access_token_expired s =
      if is_valid_access_token s.token
      then is_over s.received_token s.token.expires_in (clock s.world)
      else false

  -- `GetAccessToken` calls itself after a refresh, on fuel: `none` means that it has run out.
  unfoldable pub get_access_token : ℕ → Session W → Option (Access × Session W)
  unfolding access_token_expired
  get_access_token zero s = none
  get_access_token (suc n) s =
      let (refreshed, w) = refresh s.world s.token in
      let again : Option (Access × Session W) = elim refreshed [
        | none ↦ some (thrown, record s { world = w })
        | some t ↦ get_access_token n (record s { token = t; world = w })
      ] in
      if is_valid_access_token s.token
      then if access_token_expired s then again else some (found s.token.access_token, s)
      else some (no_token, s)
