-- ===== src/Sonos.antt =====
-- homecontrol/SonosManager.cpp, SonosClient.cpp and SonosConnection.cpp: the loudspeakers. The exchange
-- over HTTP is an argument, as in Tesla/Connection, and the tokens are those of Oauth2.
pub mod Commands
use homecontrol_server.Common.{
  ℕ, Bool, true, false, not, Text, codes, text_eq, List, [], ◌∷◌, ◌++◌, Option, none, some, ◌>>=◌,
  if◌then◌else◌,
}
use homecontrol_server.Configuration.{ConfigurationSonos}
use homecontrol_server.Data.Meta.{cmd_eq, id_eq, write, sound_play, sound_pause}
use homecontrol_server.Data.Message.{Message}
use homecontrol_server.Oauth2.{
  Token, Session, Access, found, no_token, thrown, set_token_config, authenticate, get_access_token,
}
use homecontrol_server.Subscription.{SubscriptionData, subscribe}
use homecontrol_server.Tesla.Connection.{method_post}

pub record SonosManager (W : Type 0) : Type 0 where
  pub configuration : ConfigurationSonos
  pub oauth : Session W

module _ {W : Type 0} (clock : W → ℕ) (is_valid_access_token : Token → Bool)
    (authorize : W → Option Token × W) (refresh : W → Token → Option Token × W)
    (exchange : W → Text → Text → Text → Option Text × W) where
  -- The constructor, on a session that has no token yet.
  pub new_sonos_manager : ConfigurationSonos → Session W → SonosManager W
  unfolding set_token_config authenticate
  new_sonos_manager c s = record {
    configuration = c;
    oauth =
        if not (text_eq c.config_token.access_token [])
        then set_token_config c.config_token s
        else authenticate clock is_valid_access_token authorize refresh s;
  }

  -- `SonosConnection::SendPost`: false means that it throws. Without a token nothing is sent.
  pub send_after : Text → Text → Access × Session W → Bool × Session W
  send_after control_url cmd (no_token, s) = (true, s)
  send_after control_url cmd (thrown, s) = (false, s)
  send_after control_url cmd (found token, s) =
      let (response, w) =
        exchange s.world method_post (control_url ++ cmd) (codes "Bearer " ++ token) in
      (elim response [ none ↦ false | some text ↦ true ], record s { world = w })

  -- On the fuel of `GetAccessToken`.
  pub send_post : ℕ → Text → Text → Session W → Option (Bool × Session W)
  unfolding send_after
  send_post n control_url cmd s =
      get_access_token clock is_valid_access_token authorize refresh n s
      >>= (λ r. some (send_after control_url cmd r))

  -- `SonosClient::Pause` and `Play` catch what the connection throws.
  pub client_send : ℕ → Text → Text → Session W → Option (Session W)
  unfolding send_post
  client_send n control_url cmd s = send_post n control_url cmd s >>= (λ r. some r.1)

  pub handle_message : ℕ → SonosManager W → Message → Option (SonosManager W)
  unfolding client_send
  handle_message n m msg =
      let send = λ (cmd : Text).
        client_send n m.configuration.control_url cmd m.oauth
        >>= (λ s. some (record m { oauth = s })) in
      if not (cmd_eq msg.cmd write)
      then some m
      else if id_eq msg.id sound_pause
      then send (codes "pause")
      else if id_eq msg.id sound_play
      then send (codes "play")
      else some m

  pub callback : SonosManager W → SonosManager W
  callback m = m

-- The subscriptions of the constructor.
pub subscriptions : ℕ → List SubscriptionData → List SubscriptionData
unfolding subscribe
subscriptions me subscribers =
    subscribe (subscribe subscribers (record { id = sound_pause; runtime = me }))
      (record { id = sound_play; runtime = me })
