-- ===== src/Codes/Ctl.antt =====
-- include/upil_request.h: `enum UPILReq`, the codes of requests (UPIL_CTL_* and UPIL_ASK_*).
use Prim.Native.Nat.{ℕ}

abbrev pub begin : ℕ
begin = 0

abbrev pub handfree_on : ℕ
handfree_on = 0

abbrev pub handfree_off : ℕ
handfree_off = 1

abbrev pub record_on : ℕ
record_on = 2

abbrev pub record_off : ℕ
record_off = 3

abbrev pub r_func : ℕ
r_func = 4

abbrev pub record_play_on : ℕ
record_play_on = 5

abbrev pub record_play_off : ℕ
record_play_off = 6

abbrev pub record_line_play_on : ℕ
record_line_play_on = 7

abbrev pub record_line_play_off : ℕ
record_line_play_off = 8

abbrev pub usb_on : ℕ
usb_on = 9

abbrev pub ringer_off : ℕ
ringer_off = 10

abbrev pub usb_voip_on : ℕ
usb_voip_on = 11

abbrev pub usb_voip_off : ℕ
usb_voip_off = 12

abbrev pub ask_phone_state : ℕ
ask_phone_state = 13

abbrev pub ask_dtmf_tx : ℕ
ask_dtmf_tx = 14

abbrev pub ask_record_up : ℕ
ask_record_up = 15

abbrev pub ask_get_version : ℕ
ask_get_version = 16

abbrev pub ask_authorization : ℕ
ask_authorization = 17

abbrev pub ask_read_memory : ℕ
ask_read_memory = 18

abbrev pub ringer_on : ℕ
ringer_on = 19

abbrev pub set_time : ℕ
set_time = 20

abbrev pub speech_recording_on : ℕ
speech_recording_on = 21

abbrev pub speech_recording_off : ℕ
speech_recording_off = 22

abbrev pub ask_busy_tone : ℕ
ask_busy_tone = 23

abbrev pub set_flash_time : ℕ
set_flash_time = 24

abbrev pub set_memory_number : ℕ
set_memory_number = 25

abbrev pub ask_read_manufacturer_inf : ℕ
ask_read_manufacturer_inf = 26

abbrev pub reserved_cmd : ℕ
reserved_cmd = 27

abbrev pub ask_read_sn : ℕ
ask_read_sn = 28

abbrev pub write_sn : ℕ
write_sn = 29

abbrev pub ask_hardware_inf : ℕ
ask_hardware_inf = 30

abbrev pub voip_ringer : ℕ
voip_ringer = 31

abbrev pub keyboard_map : ℕ
keyboard_map = 32

abbrev pub disp_icon : ℕ
disp_icon = 33

abbrev pub phone_volume : ℕ
phone_volume = 34

abbrev pub phone_unmute : ℕ
phone_unmute = 35

abbrev pub eeprom_init : ℕ
eeprom_init = 36

abbrev pub record_light_on : ℕ
record_light_on = 37

abbrev pub record_light_off : ℕ
record_light_off = 38

abbrev pub ini_set : ℕ
ini_set = 39

abbrev pub bbk_voip_on : ℕ
bbk_voip_on = 40

abbrev pub bbk_voip_off : ℕ
bbk_voip_off = 41

abbrev pub record_start : ℕ
record_start = 42

abbrev pub record_stop : ℕ
record_stop = 43

abbrev pub max : ℕ
max = 44
