-- ===== src/Tests/Texts.antt =====
-- Splitting, searching and the sensors' lines at concrete inputs.
use homecontrol_server.Common.{
  ℕ, suc, ◌≡◌, ◌⊎◌, refl, List, [], ◌∷◌, ◌++◌, some, length, arith, codes, Text, All, true,
}
use homecontrol_server.StringTools.{is_digit, split_string, split_parts, string_to_int}
use homecontrol_server.StringTools.Lines.{terminated, Lacks, split_string_lem}
use homecontrol_server.StringTools.Chunks.{joined, Chunked, split_parts_total}
use homecontrol_server.Telldus.{filter_ids, read_sensor_data, send_readings}
use homecontrol_server.Telldus.Reading.{read_sensor_data_numbers, minus_is_lost}
use homecontrol_server.Telldus.Poll.{poll, poll-terminated}

split_string_example :
    All (Lacks b',') (split_string (codes "ab,,c") b',')
    × ((terminated b',' (split_string (codes "ab,,c") b',') ≡ codes "ab,,c")
        ⊎ (terminated b',' (split_string (codes "ab,,c") b',') ≡ codes "ab,,c" ++ b',' ∷ []))
split_string_example = split_string_lem (codes "ab,,c") b','

split_parts_total_example :
    (ps : List Text) × (split_parts 6 (codes "abcde") 2 0 [] ≡ some ps)
    × (joined ps ≡ codes "abcde")
    × Chunked 2 ps
split_parts_total_example = split_parts_total (codes "abcde") 2 (omega arith) (omega arith)

eleven_passes : filter_ids (string_to_int (codes "11")) ≡ true
eleven_passes = unfold string_to_int filter_ids is_digit in refl

read_sensor_data_example :
    read_sensor_data length (
      codes "  "
      ++ (codes "11"
          ++ (codes " "
              ++ (codes "21" ++ (b'.' ∷ codes "5" ++ (codes "% " ++ (codes "40" ++ codes "%")))))))
    ≡ some
        (string_to_int (codes "11"), length (codes "21" ++ codes ".5"), string_to_int (codes "40"))
read_sensor_data_example =
    unfold is_digit in
    read_sensor_data_numbers length (codes "  ") b'1' (codes "1") (codes " ") b'2' (codes "1") b'5'
      [] (codes "% ") b'4' (codes "0") (codes "%") (ground arith) (ground arith) (ground arith)
      (ground arith) (ground arith) (ground arith) (ground arith) refl (ground arith) (ground arith)
      eleven_passes

minus_is_lost_example :
    read_sensor_data length (codes " " ++ (codes "11" ++ (codes " " ++ b'-' ∷ codes "2.5C 40%")))
    ≡ read_sensor_data length (codes " " ++ (codes "11" ++ (codes " " ++ codes "2.5C 40%")))
minus_is_lost_example =
    unfold is_digit in
    minus_is_lost length (codes " ") b'1' (codes "1") (codes " ") (codes "2.5C 40%") (ground arith)
      (ground arith) (ground arith) (ground arith)

abbrev output : List Text
output = codes "fineoffset temperaturehumidity 11 21.5 40" ∷ codes "other" ∷ []

poll-terminated_example :
    poll length (λ (runs : ℕ) command. (some (terminated b'\n' output), suc runs)) [] 0
    ≡ (send_readings length output, 1)
poll-terminated_example =
    poll-terminated length (λ (runs : ℕ) command. (some (terminated b'\n' output), suc runs)) [] 0 1
      output (ground arith) (ground arith) refl
