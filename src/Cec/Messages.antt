-- ===== src/Cec/Messages.antt =====
-- The message checks of libcec.c.
pub mod Agree
use exynos.Common.{
  ℕ, ◌≤◌, ◌<◌, ◌≡◌, ◌≢◌, ◌↔◌, ◌⊎◌, Bool, true, false, not, ◌&&◌, ◌||◌, List, [], ◌∷◌, ◌==◌, ltb,
  leb, if◌then◌else◌, arith,
}
use exynos.Cec.{unregistered}

-- Opcodes of libcec.h.
abbrev active_source : ℕ
active_source = 0x82

abbrev request_active_source : ℕ
request_active_source = 0x85

abbrev routing_change : ℕ
routing_change = 0x80

abbrev routing_information : ℕ
routing_information = 0x81

abbrev set_stream_path : ℕ
set_stream_path = 0x86

abbrev give_physical_address : ℕ
give_physical_address = 0x83

abbrev report_physical_address : ℕ
report_physical_address = 0x84

abbrev set_menu_language : ℕ
set_menu_language = 0x32

abbrev deck_control : ℕ
deck_control = 0x42

abbrev play : ℕ
play = 0x41

abbrev device_vendor_id : ℕ
device_vendor_id = 0x87

abbrev feature_abort : ℕ
feature_abort = 0x00

abbrev abort : ℕ
abort = 0xff

abbrev set_system_audio_mode : ℕ
set_system_audio_mode = 0x72

-- The labels of a case.
unfoldable pub one_of : List ℕ → ℕ → Bool
one_of [] op = false
one_of (x ∷ xs) op = op == x || one_of xs op

-- Whether the message should be ignored.
unfoldable pub cec_ignore_message : ℕ → ℕ → Bool
unfolding one_of
cec_ignore_message opcode lsrc = lsrc == unregistered && one_of (deck_control ∷ play ∷ []) opcode

-- Whether the size fits the opcode: the cases of the switch in order.
unfoldable pub cec_check_message_size : ℕ → ℕ → Bool
unfolding one_of
cec_check_message_size opcode size =
    if one_of (request_active_source ∷ []) opcode
    then size == 1
    else if one_of (set_system_audio_mode ∷ []) opcode
    then size == 2
    else if one_of
        (play ∷ deck_control ∷ set_menu_language ∷ active_source ∷ routing_information
          ∷ set_stream_path ∷ [])
        opcode
    then size == 3
    else if one_of (feature_abort ∷ device_vendor_id ∷ report_physical_address ∷ []) opcode
    then size == 4
    else if one_of (routing_change ∷ []) opcode
    then size == 5
    else if one_of (0xf8 ∷ []) opcode
    then ltb 5 size && leb size 16
    else true

-- Whether the message may be sent to all, or to one.
unfoldable pub cec_check_message_mode : ℕ → Bool → Bool
unfolding one_of
cec_check_message_mode opcode broadcast =
    if one_of (request_active_source ∷ set_menu_language ∷ active_source ∷ []) opcode
    then broadcast
    else if one_of (give_physical_address ∷ deck_control ∷ play ∷ feature_abort ∷ abort ∷ []) opcode
    then not broadcast
    else true
