-- ===== src/CommandLine.antt =====
-- homecontrol/CommandLineManager.cpp: runs shell commands. `popen` is an argument, as in the pipe.
pub mod Pipe
use homecontrol_server.Common.{ℕ, ◌≡◌, Text, List, [], ◌∷◌, Option, none, some, if◌then◌else◌}
use homecontrol_server.Data.Meta.{
  cmd_eq, id_eq, write, read, answer, read_with_direct_answer, command_line,
}
use homecontrol_server.Data.Message.{
  Message, Effect, send, message, string, lines, as_string, answer_with,
}
use homecontrol_server.CommandLine.Pipe.{run_command_line, run_command_line_lem}
use homecontrol_server.StringTools.{split_string}
use homecontrol_server.StringTools.Lines.{Lacks}
use homecontrol_server.Subscription.{SubscriptionData}
use homecontrol_server.Subscription

module _ {W : Type 0} (popen : W → Text → Option Text × W) where
  -- The answer to a command that was read: the lines of its output.
  abbrev answer_lines : Option Text → List Effect
  answer_lines none = []
  answer_lines (some result) =
      send (message answer command_line (lines (split_string result b'\n'))) ∷ []

  -- With a direct answer the output is given as one text.
  abbrev answer_text : Message → Option Text → List Effect
  answer_text m none = []
  answer_text m (some result) = answer_with m (message answer command_line (string result))

  pub run_command : Message → Text → W → W × List Effect
  run_command m command w =
      let (result, w') = run_command_line popen w command in
      if cmd_eq m.cmd write
      then (w', [])
      else if cmd_eq m.cmd read
      then (w', answer_lines result)
      else if cmd_eq m.cmd read_with_direct_answer
      then (w', answer_text m result)
      else (w, [])

  pub handle_message : W → Message → W × List Effect
  unfolding run_command
  handle_message w m =
      if id_eq m.id command_line
      then if cmd_eq m.cmd answer
        then (w, [])
        else elim (as_string m.value) [ none ↦ (w, []) | some command ↦ run_command m command w ]
      else (w, [])

  -- A command that is read is run once, and its output is sent in lines.
  pub read_command :
      (w w' : W) (command output : Text)
      → popen w command ≡ (some output, w')
      → Lacks 0 output
      → handle_message w (message read command_line (string command))
        ≡ (w', send (message answer command_line (lines (split_string output b'\n'))) ∷ [])
  unfolding handle_message run_command id_eq cmd_eq
  read_command w w' command output h a = rw (run_command_line_lem popen w w' command output h a)

-- The subscriptions of the constructor.
unfoldable pub subscriptions : ℕ → List SubscriptionData → List SubscriptionData
subscriptions me subscribers =
    Subscription.subscribe subscribers (record { id = command_line; runtime = me })
