-- ===== src/Data/Meta.antt =====
-- homecontrol/MessageMetaData.h: the kinds and the commands of messages. An `enum class` holds any
-- `int` that is cast to it, so each type has a constructor for the values that have no name.
use homecontrol_server.Common.{ℤ, pos, Bool, eq_ℤ, ◌≡◌, arith, if◌then◌else◌}

pub data MessageId : Type 0 where
  run temperature humidity light_state blootooth_device alive : MessageId
  arctech_switch mandolyn_sensor telldus_device_set_state sound_play sound_pause : MessageId
  subscribe sensor sensors lights command_line presence vehicle_information : MessageId
  unnamed_id : ℤ → MessageId

pub data Cmd : Type 0 where
  write read answer any run_function read_with_direct_answer : Cmd
  unnamed_cmd : ℤ → Cmd

-- `static_cast<int>`.
abbrev pub id_code : MessageId → ℤ
id_code run = pos 0
id_code temperature = pos 1
id_code humidity = pos 2
id_code light_state = pos 5
id_code blootooth_device = pos 6
id_code alive = pos 15
id_code arctech_switch = pos 16
id_code mandolyn_sensor = pos 17
id_code telldus_device_set_state = pos 18
id_code sound_play = pos 19
id_code sound_pause = pos 20
id_code subscribe = pos 21
id_code sensor = pos 22
id_code sensors = pos 23
id_code lights = pos 24
id_code command_line = pos 25
id_code presence = pos 26
id_code vehicle_information = pos 27
id_code (unnamed_id n) = n

abbrev pub cmd_code : Cmd → ℤ
cmd_code write = pos 0
cmd_code read = pos 1
cmd_code answer = pos 2
cmd_code any = pos 3
cmd_code run_function = pos 6
cmd_code read_with_direct_answer = pos 7
cmd_code (unnamed_cmd n) = n

-- `==` on the enumerations compares the underlying integers.
unfoldable pub id_eq : MessageId → MessageId → Bool
id_eq a b = eq_ℤ (id_code a) (id_code b)

unfoldable pub cmd_eq : Cmd → Cmd → Bool
cmd_eq a b = eq_ℤ (cmd_code a) (cmd_code b)

-- `static_cast<Id>`: the enumerator with this value, where there is one.
unfoldable pub id_of_code : ℤ → MessageId
id_of_code n =
    if eq_ℤ n (pos 0)
    then run
    else if eq_ℤ n (pos 1)
    then temperature
    else if eq_ℤ n (pos 2)
    then humidity
    else if eq_ℤ n (pos 5)
    then light_state
    else if eq_ℤ n (pos 6)
    then blootooth_device
    else if eq_ℤ n (pos 15)
    then alive
    else if eq_ℤ n (pos 16)
    then arctech_switch
    else if eq_ℤ n (pos 17)
    then mandolyn_sensor
    else if eq_ℤ n (pos 18)
    then telldus_device_set_state
    else if eq_ℤ n (pos 19)
    then sound_play
    else if eq_ℤ n (pos 20)
    then sound_pause
    else if eq_ℤ n (pos 21)
    then subscribe
    else if eq_ℤ n (pos 22)
    then sensor
    else if eq_ℤ n (pos 23)
    then sensors
    else if eq_ℤ n (pos 24)
    then lights
    else if eq_ℤ n (pos 25)
    then command_line
    else if eq_ℤ n (pos 26)
    then presence
    else if eq_ℤ n (pos 27)
    then vehicle_information
    else unnamed_id n

unfoldable pub cmd_of_code : ℤ → Cmd
cmd_of_code n =
    if eq_ℤ n (pos 0)
    then write
    else if eq_ℤ n (pos 1)
    then read
    else if eq_ℤ n (pos 2)
    then answer
    else if eq_ℤ n (pos 3)
    then any
    else if eq_ℤ n (pos 6)
    then run_function
    else if eq_ℤ n (pos 7)
    then read_with_direct_answer
    else unnamed_cmd n

-- The casts lose nothing: the integer of a cast integer is the integer.
pub id_code-id_of_code : (n : ℤ) → id_code (id_of_code n) ≡ n
unfolding id_of_code
id_code-id_of_code n = ground arith

pub cmd_code-cmd_of_code : (n : ℤ) → cmd_code (cmd_of_code n) ≡ n
unfolding cmd_of_code
cmd_code-cmd_of_code n = ground arith
