-- ===== src/Tpp/EvtCode.antt =====
-- tp_protocol.h: `enum TPEvent`, the codes that the device puts into its PDUs.
use Prim.Native.Nat.{ℕ}

abbrev pub evt_volum_change : ℕ
evt_volum_change = 0x5c

abbrev pub msg_version : ℕ
msg_version = 0x81

abbrev pub msg_authorization : ℕ
msg_authorization = 0x82

abbrev pub msg_manufacturer_inf : ℕ
msg_manufacturer_inf = 0x83

abbrev pub msg_sn : ℕ
msg_sn = 0x84

abbrev pub msg_hardware_inf : ℕ
msg_hardware_inf = 0x85

abbrev pub msg_eeprom_inf : ℕ
msg_eeprom_inf = 0x86

abbrev pub msg_phone_state : ℕ
msg_phone_state = 0xab

abbrev pub evt_fsk_rx : ℕ
evt_fsk_rx = 0xd1

abbrev pub evt_dtmf_rx : ℕ
evt_dtmf_rx = 0xd2

abbrev pub msg_dtmf_tx_finished : ℕ
msg_dtmf_tx_finished = 0xd3

abbrev pub evt_new_cid_tx : ℕ
evt_new_cid_tx = 0xd4

abbrev pub evt_old_cid_tx : ℕ
evt_old_cid_tx = 0xd5

abbrev pub evt_dialed_tx : ℕ
evt_dialed_tx = 0xd6

abbrev pub evt_history_finished : ℕ
evt_history_finished = 0xd7

abbrev pub evt_icm_dtmf_rx : ℕ
evt_icm_dtmf_rx = 0xd8

abbrev pub evt_parallel_dtmf_rx : ℕ
evt_parallel_dtmf_rx = 0xd9

abbrev pub evt_key_down : ℕ
evt_key_down = 0xe1

abbrev pub evt_codec_ready : ℕ
evt_codec_ready = 0xe2

abbrev pub evt_hook_on : ℕ
evt_hook_on = 0xe3

abbrev pub evt_hook_off : ℕ
evt_hook_off = 0xe4

abbrev pub evt_ring : ℕ
evt_ring = 0xe5

abbrev pub evt_restart : ℕ
evt_restart = 0xe6

abbrev pub evt_hks_on : ℕ
evt_hks_on = 0xe7

abbrev pub evt_hks_off : ℕ
evt_hks_off = 0xe8

abbrev pub evt_parallel_on : ℕ
evt_parallel_on = 0xe9

abbrev pub evt_parallel_off : ℕ
evt_parallel_off = 0xea

abbrev pub evt_busy_on : ℕ
evt_busy_on = 0xeb

abbrev pub evt_redial_on : ℕ
evt_redial_on = 0xec

abbrev pub evt_battery_low : ℕ
evt_battery_low = 0xed

abbrev pub evt_voip_phone_hook_on : ℕ
evt_voip_phone_hook_on = 0xee

abbrev pub evt_voip_phone_hook_off : ℕ
evt_voip_phone_hook_off = 0xef
