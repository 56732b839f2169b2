-- ===== src/StopAndWait.antt =====
-- tp1/src/lib/common/stop_and_wait.py, class StopAndWait, with the attributes that it takes from
-- Protocol in protocol.py. `max_retries` and `ack_timeout` are never read. The methods
-- `send_data_packet`, `handle_close`, `_send_ack` and `end` are called nowhere and call methods
-- that the class lacks. Readings of `time.time()` are arguments.
pub mod Exchange
use fiuba_redes.Common.{
  ℕ, ◌+◌, Bool, true, false, ◌&&◌, Option, none, some, List, [], ◌∷◌, ltb, ◌==◌, nat_eq,
  if◌then◌else◌,
}
use fiuba_redes.Constants.{
  stop_and_wait_protocol, type_syn, type_syn_ack, type_ack, type_data, type_close, type_nack,
  type_close_ack, payload_size, max_file_size, ack_timeout,
}
use fiuba_redes.Exceptions.{
  Exception, Result, ok, raise, checksum_error, filesize_error, handshake_error, attribute_error,
  unidentified_package_type, unbound_local_error, type_error,
}
use fiuba_redes.Packet.{Packet, Bytes, new, to_bytes, from_bytes}
use fiuba_redes.Runtime.{Text, Runtime, exceeds}
use fiuba_redes.Event.{Event, handshake, ack_init, acked, received, syn_acked, closing, closed}
use fiuba_redes.Handshake.{syn_payload, read_syn}
use fiuba_redes.Method.{M, ◌>>=◌, ◌>>◌, return, fail, self, update, call}

pub record StopAndWait : Type 0 where
  pub op_type : ℕ
  pub window_size : ℕ
  pub chunk_size : ℕ
  pub pending : Option Packet
  pub waiting_ack : Bool
  pub send_time : Option ℕ
  pub protocol : ℕ
  pub seq_num : ℕ
  pub next_expected : ℕ

-- `StopAndWait(op_type)`
abbrev pub init : ℕ → StopAndWait
init op_type = record {
  op_type = op_type;
  window_size = 1;
  chunk_size = payload_size;
  pending = none;
  waiting_ack = false;
  send_time = none;
  protocol = stop_and_wait_protocol;
  seq_num = 1;
  next_expected = 1;
}

unfoldable pub compose : ℕ → Bytes → M StopAndWait Packet
compose pkt_type payload = do
  s ← self
  let pkt = new pkt_type s.op_type s.protocol payload s.seq_num
  update (λ t. record t { seq_num = t.seq_num + 1 })
  return pkt

unfoldable pub handle_ack : Packet → StopAndWait → Option Event × StopAndWait
handle_ack pkt s = if pkt.seq_num == 0 then (some (ack_init s.op_type 1), s) else elim s.pending [
  | none ↦ (none, s)
  | some sent ↦
      if pkt.seq_num == sent.seq_num
      then (some (acked 1), record s { pending = none; waiting_ack = false })
      else (none, s)
]

unfoldable pub handle_data : Packet → StopAndWait → Option Event × StopAndWait
handle_data pkt s =
    if pkt.seq_num == s.next_expected
    then (
      some (received pkt.seq_num (some (pkt.payload ∷ []))),
      record s { next_expected = s.next_expected + 1 },
    )
    else if ltb pkt.seq_num s.next_expected
    then (some (received pkt.seq_num none), s)
    else (none, s)

module _ (r : Runtime) where
  unfoldable pub push_payload : ℕ → Bytes → M StopAndWait (List Bytes)
  push_payload now payload = do
    pkt ← compose type_data payload
    update (λ t. record t { pending = some pkt; waiting_ack = true; send_time = some now })
    raw ← call (to_bytes r.crc32 pkt)
    return (raw ∷ [])

  -- `reset` is the reading for the timer that is set anew.
  unfoldable pub resend : ℕ → ℕ → Packet → Option ℕ → M StopAndWait (List Bytes)
  resend now reset pkt none = fail type_error
  resend now reset pkt (some send_time) =
      if ltb (send_time + ack_timeout) now
      then (do
        update (λ t. record t { send_time = some reset; waiting_ack = true })
        raw ← call (to_bytes r.crc32 pkt)
        return (raw ∷ []))
      else return []

  unfoldable pub get_timedouts : ℕ → ℕ → M StopAndWait (List Bytes)
  unfolding resend
  get_timedouts now reset s = elim s.pending [
    | none ↦ (ok [], s)
    | some pkt ↦ resend now reset pkt s.send_time s
  ]

  unfoldable pub syn_ack_to_bytes : StopAndWait → Result Bytes
  syn_ack_to_bytes s = to_bytes r.crc32 (new type_syn_ack s.op_type s.protocol [] 0)

  unfoldable pub ack : StopAndWait → ℕ → Result Bytes
  ack s seq = to_bytes r.crc32 (new type_ack s.op_type s.protocol [] seq)

  unfoldable pub fin_ack : StopAndWait → Result Bytes
  fin_ack s = to_bytes r.crc32 (new type_close_ack s.op_type s.protocol [] 0)

  unfoldable pub fin : ℕ → M StopAndWait Bytes
  fin now = do
    s ← self
    let pkt = new type_close s.op_type s.protocol [] s.seq_num
    update (λ t. record t {
      pending = some pkt;
      waiting_ack = true;
      send_time = some now;
      seq_num = t.seq_num + 1;
    })
    call (to_bytes r.crc32 pkt)

  unfoldable pub syn : StopAndWait → Text → ℕ → Result Bytes
  syn s filename filesize =
      to_bytes r.crc32 (new type_syn s.op_type s.protocol (syn_payload r filename filesize) 0)

  unfoldable pub handle_syn : Packet → M StopAndWait (Option Event)
  handle_syn pkt = do
    (filename, filesize) ← call (read_syn r pkt.payload)
    update (λ t. record t { op_type = pkt.op_type; protocol = pkt.protocol })
    if exceeds filesize max_file_size
        then fail filesize_error
        else return (some (handshake filename filesize pkt.op_type))

  -- The tests of `handle_packet` in their order. The class has no `_handle_nack`.
  unfoldable pub dispatch : Packet → M StopAndWait (Option Event)
  dispatch pkt s =
      if pkt.pkt_type == type_syn
      then handle_syn pkt s
      else if pkt.pkt_type == type_syn_ack
      then (ok (some syn_acked), s)
      else if pkt.pkt_type == type_ack
      then (let (event, s') = handle_ack pkt s in (ok event, s'))
      else if pkt.pkt_type == type_nack
      then (raise attribute_error, s)
      else if pkt.pkt_type == type_data
      then (let (event, s') = handle_data pkt s in (ok event, s'))
      else if pkt.pkt_type == type_close
      then (ok (some closing), s)
      else if pkt.pkt_type == type_close_ack
      then (ok (some closed), s)
      else (raise unidentified_package_type, s)

  -- A `ChecksumError` is caught, `_handle_corrupt` does nothing, and the next line reads `pkt`,
  -- which has no value.
  abbrev on_parse_error : Exception → Exception
  on_parse_error (checksum_error seq) = unbound_local_error
  on_parse_error e = e

  unfoldable pub handle_packet : Bytes → M StopAndWait (Option Event)
  handle_packet raw s = elim (from_bytes r.crc32 raw) [
    | ok pkt ↦ dispatch pkt s
    | raise e ↦ (raise (on_parse_error e), s)
  ]

  unfoldable pub handle_handshake : Bytes → M StopAndWait (Option Event)
  handle_handshake raw = do
    pkt ← call (from_bytes r.crc32 raw)
    if pkt.pkt_type == type_syn then handle_packet raw else fail handshake_error
