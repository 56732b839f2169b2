-- ===== src/Constants.antt =====
-- tp1/src/lib/common/constants.py. Times are in milliseconds.
use fiuba_redes.Common.{ℕ, List, [], ◌∷◌}

-- `STOP_AND_WAIT` and `SELECTIVE_REPEAT`, as code points.
abbrev pub stop_and_wait_name : List ℕ
stop_and_wait_name = 115 ∷ 116 ∷ 111 ∷ 112 ∷ 95 ∷ 97 ∷ 110 ∷ 100 ∷ 95 ∷ 119 ∷ 97 ∷ 105 ∷ 116 ∷ []

abbrev pub selective_repeat_name : List ℕ
selective_repeat_name =
    115 ∷ 101 ∷ 108 ∷ 101 ∷ 99 ∷ 116 ∷ 105 ∷ 118 ∷ 101 ∷ 95 ∷ 114 ∷ 101 ∷ 112 ∷ 101 ∷ 97 ∷ 116 ∷ []

abbrev pub stop_and_wait_protocol : ℕ
stop_and_wait_protocol = 0

abbrev pub selective_repeat_protocol : ℕ
selective_repeat_protocol = 1

abbrev pub type_syn : ℕ
type_syn = 0

abbrev pub type_syn_ack : ℕ
type_syn_ack = 1

abbrev pub type_ack : ℕ
type_ack = 2

abbrev pub type_data : ℕ
type_data = 3

abbrev pub type_close : ℕ
type_close = 4

abbrev pub type_nack : ℕ
type_nack = 5

abbrev pub type_close_ack : ℕ
type_close_ack = 6

abbrev pub payload_size : ℕ
payload_size = 1400

abbrev pub header_size : ℕ
header_size = 12

abbrev pub window_size_default : ℕ
window_size_default = 20

abbrev pub op_type_upload : ℕ
op_type_upload = 1

abbrev pub op_type_download : ℕ
op_type_download = 0

abbrev pub info_field_size : ℕ
info_field_size = 32

abbrev pub pkt_type_field_size : ℕ
pkt_type_field_size = 3

abbrev pub op_type_field_size : ℕ
op_type_field_size = 1

abbrev pub protocol_field_size : ℕ
protocol_field_size = 1

abbrev pub pkt_type_mask : ℕ
pkt_type_mask = 0x7

abbrev pub payload_length_mask : ℕ
payload_length_mask = 0x7ffffff

abbrev pub protocol_mask : ℕ
protocol_mask = 0x1

abbrev pub op_type_mask : ℕ
op_type_mask = 0x1

abbrev pub max_file_size : ℕ
max_file_size = 107374182400

abbrev pub ack_timeout : ℕ
ack_timeout = 500
