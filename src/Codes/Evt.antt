-- ===== src/Codes/Evt.antt =====
-- include/upil_request.h: `enum UPILEvent`, the codes of events (UPIL_EVT_* and UPIL_MSG_*).
use Prim.Native.Nat.{ℕ}

abbrev pub begin : ℕ
begin = 44

abbrev pub reserve : ℕ
reserve = 44

abbrev pub usb_attach : ℕ
usb_attach = 45

abbrev pub usb_detach : ℕ
usb_detach = 46

abbrev pub pc_hook_on : ℕ
pc_hook_on = 47

abbrev pub pc_hook_off : ℕ
pc_hook_off = 48

abbrev pub hand_hook_on : ℕ
hand_hook_on = 49

abbrev pub hand_hook_off : ℕ
hand_hook_off = 50

abbrev pub hfree_hook_on : ℕ
hfree_hook_on = 51

abbrev pub hfree_hook_off : ℕ
hfree_hook_off = 52

abbrev pub parall_hook_on : ℕ
parall_hook_on = 53

abbrev pub parall_hook_off : ℕ
parall_hook_off = 54

abbrev pub ring : ℕ
ring = 55

abbrev pub key_down : ℕ
key_down = 56

abbrev pub phone_state : ℕ
phone_state = 57

abbrev pub call_id : ℕ
call_id = 58

abbrev pub dial_end : ℕ
dial_end = 59

abbrev pub sec_dtmf_rx : ℕ
sec_dtmf_rx = 60

abbrev pub reserved_1 : ℕ
reserved_1 = 61

abbrev pub reserved_2 : ℕ
reserved_2 = 62

abbrev pub reserved_3 : ℕ
reserved_3 = 63

abbrev pub reserved_4 : ℕ
reserved_4 = 64

abbrev pub reserved_5 : ℕ
reserved_5 = 65

abbrev pub busy_on : ℕ
busy_on = 66

abbrev pub reserved_6 : ℕ
reserved_6 = 67

abbrev pub new_cid_tx : ℕ
new_cid_tx = 68

abbrev pub old_cid_tx : ℕ
old_cid_tx = 69

abbrev pub dialed_tx : ℕ
dialed_tx = 70

abbrev pub history_finished : ℕ
history_finished = 71

abbrev pub version : ℕ
version = 72

abbrev pub restart : ℕ
restart = 73

abbrev pub redial : ℕ
redial = 74

abbrev pub bat_critical : ℕ
bat_critical = 75

abbrev pub voip_hook_off : ℕ
voip_hook_off = 76

abbrev pub voip_hook_on : ℕ
voip_hook_on = 77

abbrev pub paral_dtmf : ℕ
paral_dtmf = 78

abbrev pub msg_vendor : ℕ
msg_vendor = 79

abbrev pub msg_serial : ℕ
msg_serial = 80

abbrev pub msg_hw_type : ℕ
msg_hw_type = 81

abbrev pub volum_change : ℕ
volum_change = 82

abbrev pub ack : ℕ
ack = 83

abbrev pub sync_timeout : ℕ
sync_timeout = 84

abbrev pub dial_end_check : ℕ
dial_end_check = 85

abbrev pub ring_timeout : ℕ
ring_timeout = 86

abbrev pub record_start : ℕ
record_start = 87

abbrev pub record_end : ℕ
record_end = 88

abbrev pub max : ℕ
max = 89

abbrev pub sm_transition : ℕ
sm_transition = 238

abbrev pub unknown : ℕ
unknown = 255
