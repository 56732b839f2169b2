-- ===== src/Packet/Header.antt =====
-- The info word of a packet header: its bit fields as arithmetic.
use fiuba_redes.Common.{◌+◌, ◌*◌, ◌%◌, ◌^◌, ◌<◌, ◌≡◌, refl, arith, length}
use fiuba_redes.Common.Bits.{bit_or_sum, bit_and_mask, zero-bit_or}
use fiuba_redes.Packet.{Packet, compose_info_field, parse_info_bytes}

-- The fields fit their widths, the payload length included.
pub record Fits (p : Packet) : Type 0 where
  pub pkt_type : p.pkt_type < 8
  pub op_type : p.op_type < 2
  pub protocol : p.protocol < 2
  pub data_length : p.data_length < 2 ^ 27
  pub seq_num : p.seq_num < 2 ^ 32
  pub measured : p.data_length ≡ length p.payload

pub info_sum :
    (p : Packet)
    → Fits p
    → compose_info_field p
      ≡ p.pkt_type * 2 ^ 29 + p.op_type * 2 ^ 28 + p.protocol * 2 ^ 27 + p.data_length
unfolding compose_info_field
info_sum p h =
    rw
      (
        zero-bit_or,
        bit_or_sum 29 (t * 2 ^ 29) t (o * 2 ^ 28) refl (omega arith),
        bit_or_sum 28 (t * 2 ^ 29 + o * 2 ^ 28) (2 * t + o) (r * 2 ^ 27) (omega arith)
            (omega arith),
        bit_and_mask 27 p.data_length,
        bit_or_sum 27 (t * 2 ^ 29 + o * 2 ^ 28 + r * 2 ^ 27) (4 * t + 2 * o + r)
            (p.data_length % 2 ^ 27) (omega arith) (omega arith),
      )
      (omega arith)
  where
    open p use {pkt_type as t, op_type as o, protocol as r}

-- Reading the info word of a packet gives back its four fields.
pub parse-compose_info_field :
    (p : Packet)
    → Fits p
    → parse_info_bytes (compose_info_field p) ≡ record {
      pkt_type = p.pkt_type;
      op_type = p.op_type;
      protocol = p.protocol;
      payload_length = p.data_length;
    }
unfolding parse_info_bytes
parse-compose_info_field p h =
    rw (info_sum p h, bit_and_mask 3, bit_and_mask 1, bit_and_mask 1, bit_and_mask 27)
      (ground arith)

pub info-lt : (p : Packet) → Fits p → compose_info_field p < 2 ^ 32
info-lt p h = omega (arith, info_sum p h)
