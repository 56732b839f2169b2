-- ===== src/Packet.antt =====
-- tp1/src/lib/common/packet.py: the packet, its header and its checksum. A byte string is a list of
-- numbers below 256, and `zlib.crc32` is the parameter `crc32`. The attribute `crc` is not kept:
-- `to_bytes` overwrites it before every use. Payloads are bytes, as in all calls of the program.
pub mod Header
pub mod RoundTrip
use fiuba_redes.Common.{
  ℕ, ◌+◌, ◌-◌, ◌*◌, ◌/◌, ◌%◌, ◌^◌, bit_and, bit_or, Bool, true, false, ◌&&◌, List, [], ◌∷◌, ◌++◌,
  length, take, drop, ltb, ◌==◌, nat_eq, if◌then◌else◌,
}
use fiuba_redes.Constants.{
  header_size, info_field_size, pkt_type_field_size, op_type_field_size, protocol_field_size,
  pkt_type_mask, payload_length_mask, protocol_mask, op_type_mask,
}
use fiuba_redes.Exceptions.{
  Result, ok, raise, ◌>>=◌, ◌>>◌, require, value_error, checksum_error, struct_error,
}

abbrev pub Bytes : Type 0
Bytes = List ℕ

pub record Packet : Type 0 where
  pub pkt_type : ℕ
  pub op_type : ℕ
  pub protocol : ℕ
  pub payload : Bytes
  pub data_length : ℕ
  pub seq_num : ℕ

abbrev pub new : ℕ → ℕ → ℕ → Bytes → ℕ → Packet
new pkt_type op_type protocol payload seq_num = record {
  pkt_type = pkt_type;
  op_type = op_type;
  protocol = protocol;
  payload = payload;
  data_length = length payload;
  seq_num = seq_num;
}

-- `struct.pack` and `struct.unpack` at the format "!I": four bytes, the most significant first.
abbrev pub word_bytes : ℕ → Bytes
word_bytes w = (w / 2 ^ 24 % 256) ∷ (w / 2 ^ 16 % 256) ∷ (w / 2 ^ 8 % 256) ∷ (w % 256) ∷ []

abbrev pub word_from : Bytes → ℕ
word_from (a ∷ b ∷ c ∷ d ∷ []) = ((a * 256 + b) * 256 + c) * 256 + d
word_from _ = 0

-- The format "!III"; a number that does not fit four bytes is a `struct.error`.
unfoldable pub pack : ℕ → ℕ → ℕ → Result Bytes
pack info crc seq = do
  require (ltb info (2 ^ 32) && (ltb crc (2 ^ 32) && ltb seq (2 ^ 32))) struct_error
  ok (word_bytes info ++ (word_bytes crc ++ word_bytes seq))

unfoldable pub unpack : Bytes → Result (ℕ × ℕ × ℕ)
unpack raw = do
  require (length raw == 12) struct_error
  ok (word_from (take 4 raw), word_from (take 4 (drop 4 raw)), word_from (take 4 (drop 8 raw)))

unfoldable pub compose_info_field : Packet → ℕ
compose_info_field p =
    let info = bit_or 0 (p.pkt_type * 2 ^ (info_field_size - pkt_type_field_size)) in
    let info' =
      bit_or info (p.op_type * 2 ^ (info_field_size - pkt_type_field_size - op_type_field_size)) in
    let info'' = bit_or info' (
      p.protocol
      * 2 ^ (info_field_size - pkt_type_field_size - op_type_field_size - protocol_field_size)) in
    bit_or info'' (bit_and p.data_length payload_length_mask)

pub record Info : Type 0 where
  pub pkt_type : ℕ
  pub op_type : ℕ
  pub protocol : ℕ
  pub payload_length : ℕ

unfoldable pub parse_info_bytes : ℕ → Info
parse_info_bytes info = record {
  pkt_type = bit_and (info / 2 ^ (info_field_size - pkt_type_field_size)) pkt_type_mask;
  op_type =
      bit_and (info / 2 ^ (info_field_size - pkt_type_field_size - op_type_field_size))
        op_type_mask;
  protocol =
      bit_and
        (info
          / 2 ^ (info_field_size - pkt_type_field_size - op_type_field_size - protocol_field_size))
        protocol_mask;
  payload_length = bit_and info payload_length_mask;
}

module _ (crc32 : Bytes → ℕ) where
  unfoldable pub to_bytes : Packet → Result Bytes
  to_bytes p = do
    let info = compose_info_field p
    header_part ← pack info 0 p.seq_num
    let crc = crc32 (header_part ++ p.payload)
    header ← pack info crc p.seq_num
    ok (header ++ p.payload)

  unfoldable pub compare_checksum : Bytes → ℕ → Bool
  compare_checksum raw expected =
      expected == crc32 (take 4 raw ++ ((0 ∷ 0 ∷ 0 ∷ 0 ∷ []) ++ drop 8 raw))

  unfoldable pub from_bytes : Bytes → Result Packet
  from_bytes raw = if ltb (length raw) header_size then raise value_error else do
    (info, crc, seq) ← unpack (take header_size raw)
    let f = parse_info_bytes info
    require (compare_checksum raw crc) (checksum_error seq)
    ok (new f.pkt_type f.op_type f.protocol (take f.payload_length (drop header_size raw)) seq)
