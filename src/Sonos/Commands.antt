-- ===== src/Sonos/Commands.antt =====
-- What a command to the loudspeakers sends.
use homecontrol_server.Common.{
  ℕ, suc, ◌≡◌, refl, ap, negsuc, ◌+ℤ◌, Bool, true, false, Text, codes, text_eq, [], ◌++◌, Option,
  some, arith,
}
use homecontrol_server.Configuration.{ConfigurationSonos}
use homecontrol_server.Data.Meta.{cmd_eq, id_eq, write, sound_play, sound_pause}
use homecontrol_server.Data.Message.{plain_message}
use homecontrol_server.Oauth2.{
  Token, Session, found, set_token_config, get_access_token, access_token_expired, is_over,
}
use homecontrol_server.Tesla.Connection.{method_post}
use homecontrol_server.Sonos.{
  SonosManager, new_sonos_manager, send_after, send_post, client_send, handle_message,
}

-- A configured token counts as received at the start of the clock, and for a second less than that.
configured_is_over : (now : ℕ) → is_over 0 (negsuc 0) now ≡ true
unfolding is_over ◌+ℤ◌
configured_is_over now = ground arith

module _ {W : Type 0} (clock : W → ℕ) (is_valid_access_token : Token → Bool)
    (authorize : W → Option Token × W) (refresh : W → Token → Option Token × W)
    (exchange : W → Text → Text → Text → Option Text × W) where
  abbrev configured : ConfigurationSonos → Token
  configured c = record {
    access_token = c.config_token.access_token;
    refresh_token = c.config_token.refresh_token;
    expires_in = negsuc 0;
  }

  -- The post of a command with a token, and the world after it.
  abbrev pub posted : ConfigurationSonos → Text → Token → W → W
  posted c cmd t w =
      (exchange w method_post (c.control_url ++ cmd) (codes "Bearer " ++ t.access_token)).1

  module _ (c : ConfigurationSonos) (s : Session W) (t : Token) (w : W)
      (unset : s.received_token ≡ 0) (has_token : text_eq c.config_token.access_token [] ≡ false)
      (valid : is_valid_access_token (configured c) ≡ true)
      (refreshed : refresh s.world (configured c) ≡ (some t, w))
      (valid_after : is_valid_access_token t ≡ true)
      (fresh : is_over 0 t.expires_in (clock w) ≡ false) where
    abbrev manager : SonosManager W
    manager = new_sonos_manager clock is_valid_access_token authorize refresh exchange c s

    abbrev refreshed_session : Session W
    refreshed_session = record { token = t; received_token = 0; world = w }

    abbrev configured_session : Session W
    configured_session = record { token = configured c; received_token = 0; world = s.world }

    manager_oauth : manager.oauth ≡ configured_session
    unfolding new_sonos_manager set_token_config
    manager_oauth = rw has_token (
        ap
          (λ (r : ℕ).
            let q : Session W = record {
              token = configured c;
              received_token = r;
              world = s.world;
            } in
            q)
          unset)

    token_after_refresh :
        (n : ℕ)
        → get_access_token clock is_valid_access_token authorize refresh
            (suc (suc n))
            configured_session
          ≡ some (found t.access_token, refreshed_session)
    unfolding get_access_token access_token_expired
    token_after_refresh n =
        rw (valid, configured_is_over (clock s.world))
          (rw (ap (λ p. p.0) refreshed, ap (λ p. p.1) refreshed) (rw (valid_after, fresh) refl))

    client_sends :
        (n : ℕ) (cmd : Text)
        → client_send clock is_valid_access_token authorize refresh exchange
            (suc (suc n))
            c.control_url
            cmd
            manager.oauth
          ≡ some (record { token = t; received_token = 0; world = posted c cmd t w })
    unfolding client_send send_post send_after
    client_sends n cmd = rw manager_oauth (rw (token_after_refresh n) refl)

    abbrev after : Text → SonosManager W
    after cmd = record {
      configuration = c;
      oauth = record { token = t; received_token = 0; world = posted c cmd t w };
    }

    -- A manager with a configured token, which a refresh replaces by one that has not expired: the first
    -- command to pause or to play makes one request to the loudspeakers, with the new token, and
    -- whatever its outcome the manager keeps this token. Two rounds of `GetAccessToken` are enough.
    pub handle_message-posts :
        (n : ℕ)
        → (handle_message clock is_valid_access_token authorize refresh exchange
              (suc (suc n))
              manager
              (plain_message write sound_pause)
            ≡ some (after (codes "pause")))
          × (handle_message clock is_valid_access_token authorize refresh exchange
                (suc (suc n))
                manager
                (plain_message write sound_play)
              ≡ some (after (codes "play")))
    unfolding handle_message new_sonos_manager cmd_eq id_eq
    handle_message-posts n =
        (rw (client_sends n (codes "pause")) refl, rw (client_sends n (codes "play")) refl)
