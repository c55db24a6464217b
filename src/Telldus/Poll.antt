-- ===== src/Telldus/Poll.antt =====
-- One poll of the sensors: the request for the command, its output, and the readings.
use homecontrol_server.Common.{
  ◌≡◌, Text, codes, List, [], ◌∷◌, ◌++◌, Option, some, All, All-append, append-nil, ℕ, refl, ap,
  ◌≢◌, arith,
}
use homecontrol_server.Data.Message.{Effect, send, message, lines}
use homecontrol_server.Data.Meta.{id_eq, cmd_eq, answer, command_line}
use homecontrol_server.StringTools.Lines.{Lacks, terminated, split_string-terminated}
use homecontrol_server.Lights.{Light}
use homecontrol_server.CommandLine
use homecontrol_server.Telldus.{callback, send_readings, handle_message}

module _ (to_double : Text → ℕ) {W : Type 0} (popen : W → Text → Option Text × W) where
  -- The messages that a manager sends go to the sensors' manager.
  to_telldus : List Light → List Effect → List Effect
  to_telldus lamps [] = []
  to_telldus lamps (send m ∷ es) = (handle_message to_double lamps m).1 ++ to_telldus lamps es
  to_telldus lamps (e ∷ es) = to_telldus lamps es

  to_command_line : List Light → W → List Effect → List Effect × W
  unfolding to_telldus
  to_command_line lamps w [] = ([], w)
  to_command_line lamps w (send m ∷ es) =
      let (w', answered) = CommandLine.handle_message popen w m in
      let (rest, w'') = to_command_line lamps w' es in (to_telldus lamps answered ++ rest, w'')
  to_command_line lamps w (e ∷ es) = to_command_line lamps w es

  -- `Callback`, and what follows from it.
  pub poll : List Light → W → List Effect × W
  unfolding to_command_line
  poll lamps w = to_command_line lamps w callback

  lines_answered :
      (lamps : List Light) (ls : List Text)
      → handle_message to_double lamps (message answer command_line (lines ls))
        ≡ (lamps, send_readings to_double ls)
  unfolding handle_message id_eq cmd_eq
  lines_answered lamps ls = refl

  terminated-Lacks : (ls : List Text) → All (Lacks 0) ls → Lacks 0 (terminated b'\n' ls)
  terminated-Lacks [] z = tt
  terminated-Lacks (l ∷ ls) z =
      All-append (λ c. c ≢ 0) l (b'\n' ∷ terminated b'\n' ls) z.0
        ((λ e. absurd (omega arith)), terminated-Lacks ls z.1)

  -- One poll runs `tdtool --list` once, and sends one reading for each line of its output that holds
  -- a sensor, in the order of the lines. No line holds a zero.
  pub poll-terminated :
      (lamps : List Light) (w w' : W) (ls : List Text)
      → All (Lacks b'\n') ls
      → All (Lacks 0) ls
      → popen w (codes "tdtool --list") ≡ (some (terminated b'\n' ls), w')
      → poll lamps w ≡ (send_readings to_double ls, w')
  unfolding poll to_command_line to_telldus callback
  poll-terminated lamps w w' ls a z h =
      rw
        (CommandLine.read_command popen w w' (codes "tdtool --list") (terminated b'\n' ls) h
          (terminated-Lacks ls z))
        (rw (split_string-terminated b'\n' ls a) (
          rw (lines_answered lamps ls) (
            rw (append-nil (send_readings to_double ls))
              (ap (λ es. (es, w')) (append-nil (send_readings to_double ls))))))
