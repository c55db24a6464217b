-- ===== src/Tests/Sound.antt =====
-- A command to the loudspeakers, at concrete inputs.
use homecontrol_server.Common.{
  ℕ, ◌+◌, ◌*◌, ◌^◌, ◌+ℤ◌, ◌≡◌, refl, pos, not, Text, codes, text_eq, [], Option, none, some,
}
use homecontrol_server.Configuration.{ConfigurationSonos, no_sonos}
use homecontrol_server.Data.Meta.{write, sound_play, sound_pause}
use homecontrol_server.Data.Message.{plain_message}
use homecontrol_server.Oauth2.{Token, Session, is_over}
use homecontrol_server.Sonos.{SonosManager, new_sonos_manager, handle_message}
use homecontrol_server.Sonos.Commands.{handle_message-posts}

abbrev day_token : Token
day_token = record { access_token = codes "a"; refresh_token = codes "r"; expires_in = pos 86400 }

abbrev speakers : ConfigurationSonos
speakers = record no_sonos {
  control_url = codes "https://sound/";
  config_token = record {
    access_token = codes "old";
    refresh_token = codes "r";
    token_type = codes "Bearer";
    scope = [];
  };
}

-- The world is the clock; a refresh takes a second, and so does a request, which fails.
abbrev a_second : ℕ → Token → Option Token × ℕ
a_second w t = (some day_token, w + 10 ^ 9)

abbrev failing : ℕ → Text → Text → Text → Option Text × ℕ
failing w mtd url authorization = (none, w + 10 ^ 9)

abbrev session : Session ℕ
session = record {
  token = record { access_token = []; refresh_token = []; expires_in = pos 0 };
  received_token = 0;
  world = 60 * 10 ^ 9;
}

abbrev quiet : SonosManager ℕ
quiet =
    new_sonos_manager (λ w. w) (λ t. not (text_eq t.access_token [])) (λ w. (none, w)) a_second
      failing speakers session

handle_message-posts_example :
    (handle_message
        (λ w. w)
        (λ t. not (text_eq t.access_token []))
        (λ w. (none, w))
        a_second
        failing
        2
        quiet
        (plain_message write sound_pause)
      ≡ some (record {
        configuration = speakers;
        oauth = record { token = day_token; received_token = 0; world = 62 * 10 ^ 9 };
      }))
    × (handle_message
          (λ w. w)
          (λ t. not (text_eq t.access_token []))
          (λ w. (none, w))
          a_second
          failing
          2
          quiet
          (plain_message write sound_play)
        ≡ some (record {
          configuration = speakers;
          oauth = record { token = day_token; received_token = 0; world = 62 * 10 ^ 9 };
        }))
unfolding is_over ◌+ℤ◌
handle_message-posts_example =
    handle_message-posts (λ w. w) (λ t. not (text_eq t.access_token [])) (λ w. (none, w)) a_second
      failing speakers session day_token (61 * 10 ^ 9) refl refl refl refl refl refl 0
