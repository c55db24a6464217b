-- ===== src/Tests/Queries.antt =====
-- The REST API, and what comes in over the network, at concrete inputs.
use homecontrol_server.Common.{◌≡◌, refl, Text, codes, List, [], ◌∷◌, arith}
use homecontrol_server.Network.Sending.{new_connection}
use homecontrol_server.Network.Receiving.{Reader, receive_handler, arrive_all}
use homecontrol_server.Network.Receiving.Stream.{end_of_first, joined, stream}
use homecontrol_server.Network.Receiving.Packets.{given, with_buffer, arrive_all-stream}
use homecontrol_server.Rest.{one_light, call, generate_command_list, parse_get_request}
use homecontrol_server.Rest.Selection.{meaning, parse_get_request_lem}
use homecontrol_server.Tests.JsonTree.{tree_json}

-- Two entries of a query; the first is no command.
abbrev query : List (Text × Text)
query = (codes "color", codes "red") ∷ (codes "light", codes "1001") ∷ []

parse_get_request_example :
    parse_get_request tree_json 0 [] generate_command_list query
    ≡ call tree_json 0 [] one_light (codes "1001")
unfolding meaning
parse_get_request_example = parse_get_request_lem tree_json 0 [] query

abbrev reader : Reader (Unit {0})
reader = record { rx_buffer = []; connection = new_connection 1; world = tt }

-- A message whose delimiter is cut, and the start of another one.
abbrev packets : List Text
packets = (b'h' ∷ b'i' ∷ 13 ∷ []) ∷ (10 ∷ b'y' ∷ []) ∷ []

arrive_all-stream_example :
    arrive_all receive_handler end_of_first packets (with_buffer receive_handler [] reader)
    ≡ with_buffer receive_handler (b'y' ∷ []) (given receive_handler (codes "hi" ∷ []) reader)
unfolding new_connection joined stream
arrive_all-stream_example =
    arrive_all-stream receive_handler end_of_first (λ b. refl) packets (codes "hi" ∷ []) (b'y' ∷ [])
      reader (omega arith) (omega arith) refl refl
