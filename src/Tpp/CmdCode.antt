-- ===== src/Tpp/CmdCode.antt =====
-- tp_protocol.h: `enum TPCmd`, the codes of commands to the device.
use Prim.Native.Nat.{ℕ}

abbrev pub ask_get_version : ℕ
ask_get_version = 0x01

abbrev pub ask_dtmf_tx : ℕ
ask_dtmf_tx = 0x11

abbrev pub ask_record : ℕ
ask_record = 0x12

abbrev pub ask_read_manufacturer_inf : ℕ
ask_read_manufacturer_inf = 0x14

abbrev pub ctl_write_manufacturer_inf : ℕ
ctl_write_manufacturer_inf = 0x15

abbrev pub ask_read_sn : ℕ
ask_read_sn = 0x16

abbrev pub ask_write_sn : ℕ
ask_write_sn = 0x17

abbrev pub ask_hardware_inf : ℕ
ask_hardware_inf = 0x18

abbrev pub ask_phone_state : ℕ
ask_phone_state = 0x21

abbrev pub ctl_set_time : ℕ
ctl_set_time = 0x22

abbrev pub ctl_busy_tone : ℕ
ctl_busy_tone = 0x23

abbrev pub ctl_mute : ℕ
ctl_mute = 0x2a

abbrev pub ctl_light_on_led_of_ogm : ℕ
ctl_light_on_led_of_ogm = 0x2d

abbrev pub ctl_light_off_led_of_ogm : ℕ
ctl_light_off_led_of_ogm = 0x2e

abbrev pub ctl_pchook_on : ℕ
ctl_pchook_on = 0x61

abbrev pub ctl_pchook_off : ℕ
ctl_pchook_off = 0x62

abbrev pub ctl_record_on : ℕ
ctl_record_on = 0x63

abbrev pub ctl_record_off : ℕ
ctl_record_off = 0x64

abbrev pub ctl_r_func : ℕ
ctl_r_func = 0x65

abbrev pub ctl_record_play_on : ℕ
ctl_record_play_on = 0x66

abbrev pub ctl_record_play_off : ℕ
ctl_record_play_off = 0x67

abbrev pub ctl_record_line_play_on : ℕ
ctl_record_line_play_on = 0x68

abbrev pub ctl_record_line_play_off : ℕ
ctl_record_line_play_off = 0x69

abbrev pub ctl_usb_run : ℕ
ctl_usb_run = 0x6a

abbrev pub ctl_ringer_on : ℕ
ctl_ringer_on = 0x6b

abbrev pub ctl_ringer_off : ℕ
ctl_ringer_off = 0x6c
