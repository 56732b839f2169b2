-- ===== src/Packet/RoundTrip.antt =====
-- `Packet.to_bytes` and `Packet.from_bytes` undo each other, and what `from_bytes` lets through.
use fiuba_redes.Common.{
  ℕ, ◌^◌, ◌<◌, ◌≤◌, ◌≡◌, ◌↔◌, arith, true, [], ◌∷◌, ◌++◌, length, take, drop, nat_eq, lt→ltb,
  take_of_length-le, slice-take, length-take,
}
use fiuba_redes.Exceptions.{ok}
use fiuba_redes.Packet.{
  Packet, Bytes, new, word_bytes, word_from, pack, unpack, compose_info_field, parse_info_bytes,
  to_bytes, compare_checksum, from_bytes,
}
use fiuba_redes.Packet.Header.{Fits, info-lt, parse-compose_info_field}

pack_lem :
    (info crc seq : ℕ)
    → info < 2 ^ 32
    → crc < 2 ^ 32
    → seq < 2 ^ 32
    → pack info crc seq ≡ ok (word_bytes info ++ (word_bytes crc ++ word_bytes seq))
unfolding pack
pack_lem info crc seq hi hc hs = rw (lt→ltb info _ hi, lt→ltb crc _ hc, lt→ltb seq _ hs)

word_from_bytes : (w : ℕ) → w < 2 ^ 32 → word_from (word_bytes w) ≡ w
word_from_bytes w h = omega arith

unpack_lem :
    (info crc seq : ℕ)
    → info < 2 ^ 32
    → crc < 2 ^ 32
    → seq < 2 ^ 32
    → unpack (word_bytes info ++ (word_bytes crc ++ word_bytes seq)) ≡ ok (info, crc, seq)
unfolding unpack
unpack_lem info crc seq hi hc hs =
    ground (arith, word_from_bytes info hi, word_from_bytes crc hc, word_from_bytes seq hs)

-- The bytes that the checksum covers, and the bytes that are sent.
pub covered : Packet → Bytes
covered p =
    (word_bytes (compose_info_field p) ++ (word_bytes 0 ++ word_bytes p.seq_num)) ++ p.payload

pub wire : (Bytes → ℕ) → Packet → Bytes
wire crc32 p =
    (word_bytes (compose_info_field p) ++ (word_bytes (crc32 (covered p)) ++ word_bytes p.seq_num))
    ++ p.payload

module _ (crc32 : Bytes → ℕ) (bounded : (b : Bytes) → crc32 b < 2 ^ 32) where
  pub to_bytes-wire : (p : Packet) → Fits p → to_bytes crc32 p ≡ ok (wire crc32 p)
  unfolding to_bytes wire covered
  to_bytes-wire p h = rw (
    pack_lem (compose_info_field p) 0 p.seq_num (info-lt p h) (omega arith) h.seq_num,
    pack_lem (compose_info_field p) (crc32 (covered p)) p.seq_num (info-lt p h)
        (bounded (covered p)) h.seq_num,
  )

  compare_checksum-wire :
      (p : Packet) → compare_checksum crc32 (wire crc32 p) (crc32 (covered p)) ≡ true
  unfolding compare_checksum wire covered
  compare_checksum-wire p = ground arith

  pub from_bytes-wire : (p : Packet) → Fits p → from_bytes crc32 (wire crc32 p) ≡ ok p
  unfolding from_bytes wire
  from_bytes-wire p h = ground (
    arith,
    unpack_lem (compose_info_field p) (crc32 (covered p)) p.seq_num (info-lt p h)
        (bounded (covered p)) h.seq_num,
    compare_checksum-wire p,
    parse-compose_info_field p h,
    take_of_length-le p.data_length p.payload (omega arith),
  )

  -- Every packet whose fields fit their widths is sent as bytes, without an exception, and the
  -- bytes are read back as the same packet: type, operation, protocol, payload, length, number.
  pub from_bytes-to_bytes :
      (p : Packet)
      → Fits p
      → (raw : Bytes) × (to_bytes crc32 p ≡ ok raw) × (from_bytes crc32 raw ≡ ok p)
  from_bytes-to_bytes p h = (wire crc32 p, to_bytes-wire p h, from_bytes-wire p h)

crc_field : (raw : Bytes) → take 4 (drop 4 (take 12 raw)) ≡ take 4 (drop 4 raw)
crc_field raw = slice-take 4 4 12 raw (omega arith)

-- The packet that a datagram with a whole header stands for.
pub parsed : Bytes → Packet
parsed raw =
    let f = parse_info_bytes (word_from (take 4 (take 12 raw))) in
    new f.pkt_type f.op_type f.protocol (take f.payload_length (drop 12 raw))
      (word_from (take 4 (drop 8 (take 12 raw))))

-- A received datagram is read as a packet exactly when it has a whole header and its checksum
-- field is the checksum of the datagram with that field set to zero.
pub from_bytes-ok_iff :
    (crc32 : Bytes → ℕ) (raw : Bytes)
    → ((p : Packet) × (from_bytes crc32 raw ≡ ok p)) ↔ (
        (12 ≤ length raw)
        × (word_from (take 4 (drop 4 raw))
            ≡ crc32 (take 4 raw ++ ((0 ∷ 0 ∷ 0 ∷ 0 ∷ []) ++ drop 8 raw))))
unfolding from_bytes unpack compare_checksum parsed
from_bytes-ok_iff crc32 raw = (
  λ (p, e). (ground (arith, crc_field raw), ground (arith, crc_field raw)),
  λ (long, same). (parsed raw, ground (arith, crc_field raw, length-take 12 raw)),
)
