-- ===== src/SelectiveRepeat.antt =====
-- tp1/src/lib/common/selective_repeat.py, class SelectiveRepeat, each method in its order. The
-- dicts `window` and `buffer` are kept in insertion order; `retransmissions` is written once and
-- never read, and is left out. `time.time()` is an argument: `clock n` is the reading taken for the
-- packet numbered n.
pub mod Delivery
pub mod Sender
pub mod Pushing
pub mod Timers
pub mod Loops
pub mod Flow
pub mod Receiver
pub mod Transfer
pub mod Datagrams
use fiuba_redes.Common.{
  ℕ, zero, suc, ◌+◌, ◌-◌, Bool, true, false, not, ◌&&◌, Option, none, some, List, [], ◌∷◌, ◌++◌,
  length, take, drop, ltb, leb, ◌==◌, nat_eq, if◌then◌else◌,
}
use fiuba_redes.Common.Dict
use fiuba_redes.Common.Dict.{Dict}
use fiuba_redes.Constants.{
  selective_repeat_protocol, type_syn, type_syn_ack, type_ack, type_data, type_close, type_nack,
  type_close_ack, payload_size, window_size_default, max_file_size, ack_timeout,
}
use fiuba_redes.Exceptions.{
  Exception, Result, ok, raise, checksum_error, filesize_error, handshake_error, attribute_error,
  unidentified_package_type, value_error,
}
use fiuba_redes.Packet.{Packet, Bytes, new, to_bytes, from_bytes}
use fiuba_redes.Runtime.{Text, Runtime, exceeds}
use fiuba_redes.Event.{Event, handshake, ack_init, acked, received, syn_acked, closing, closed}
use fiuba_redes.Handshake.{syn_payload, read_syn}
use fiuba_redes.Method.{M, ◌>>=◌, ◌>>◌, return, fail, self, update, call}

-- `{"pkt": pkt, "time": time.time()}`
pub record Entry : Type 0 where
  pub pkt : Packet
  pub time : ℕ

pub record SelectiveRepeat : Type 0 where
  pub window_size : ℕ
  pub window : Dict ℕ Entry
  pub buffer : Dict ℕ Bytes
  pub chunk_size : ℕ
  pub op_type : ℕ
  pub protocol : ℕ
  pub seq_num : ℕ
  pub next_expected : ℕ

-- `SelectiveRepeat(op_type)`
abbrev pub init : ℕ → SelectiveRepeat
init op_type = record {
  window_size = window_size_default;
  window = [];
  buffer = [];
  chunk_size = payload_size;
  op_type = op_type;
  protocol = selective_repeat_protocol;
  seq_num = 1;
  next_expected = 1;
}

unfoldable pub compose : ℕ → Bytes → M SelectiveRepeat Packet
compose pkt_type payload = do
  s ← self
  let pkt = new pkt_type s.op_type s.protocol payload s.seq_num
  update (λ t. record t { seq_num = t.seq_num + 1 })
  return pkt

-- `range(i, stop, step)` for a positive step; `stop - i` is fuel enough.
unfoldable pub offsets : ℕ → ℕ → ℕ → ℕ → List ℕ
offsets zero i stop step = []
offsets (suc fuel) i stop step =
    let rest = offsets fuel (i + step) stop step in if ltb i stop then i ∷ rest else []

abbrev pub add_raw : Bytes → Result (List Bytes) → Result (List Bytes)
add_raw raw (ok raws) = ok (raw ∷ raws)
add_raw raw (raise e) = raise e

module _ (r : Runtime) where
  -- One turn of the loop of `push_payload` for each offset.
  unfoldable pub push_loop : (ℕ → ℕ) → Bytes → List ℕ → M SelectiveRepeat (List Bytes)
  push_loop clock payload [] = return []
  push_loop clock payload (i ∷ is) = do
    s ← self
    let chunk = take s.chunk_size (drop i payload)
    pkt ← compose type_data chunk
    update (λ t. record t {
      window = Dict.insert pkt.seq_num (record { pkt = pkt; time = clock pkt.seq_num }) t.window;
    })
    raw ← call (to_bytes r.crc32 pkt)
    raws ← push_loop clock payload is
    return (raw ∷ raws)

  unfoldable pub push_payload : (ℕ → ℕ) → Bytes → M SelectiveRepeat (List Bytes)
  push_payload clock payload = do
    s ← self
    if s.chunk_size == 0
        then fail value_error
        else push_loop clock payload (offsets (length payload) 0 (length payload) s.chunk_size)

  -- The loop of `get_timedouts` over `window.items()`, which resets the timers in place.
  unfoldable pub timedout_loop : ℕ → (ℕ → ℕ) → Dict ℕ Entry → Result (List Bytes) × Dict ℕ Entry
  timedout_loop now clock [] = (ok [], [])
  timedout_loop now clock ((seq, entry) ∷ items) =
      let (rest, items') = timedout_loop now clock items in
      let reset : Entry = record entry { time = clock entry.pkt.seq_num } in
      if ltb ack_timeout (now - entry.time)
      then elim (to_bytes r.crc32 entry.pkt) [
        | raise e ↦ (raise e, (seq, entry) ∷ items)
        | ok raw ↦ (add_raw raw rest, (seq, reset) ∷ items')
      ]
      else (rest, (seq, entry) ∷ items')

  unfoldable pub get_timedouts : ℕ → (ℕ → ℕ) → M SelectiveRepeat (List Bytes)
  get_timedouts now clock s =
      let (raws, window) = timedout_loop now clock s.window in (raws, record s { window = window })

  -- `fin_ack`, `syn_ack_to_bytes` and `ack` build a packet and do not touch the object.
  unfoldable pub fin_ack : SelectiveRepeat → Result Bytes
  fin_ack s = to_bytes r.crc32 (new type_close_ack s.op_type s.protocol [] 0)

  unfoldable pub syn_ack_to_bytes : SelectiveRepeat → Result Bytes
  syn_ack_to_bytes s = to_bytes r.crc32 (new type_syn_ack s.op_type s.protocol [] 0)

  unfoldable pub ack : SelectiveRepeat → ℕ → Result Bytes
  ack s seq = to_bytes r.crc32 (new type_ack s.op_type s.protocol [] seq)

  unfoldable pub fin : (ℕ → ℕ) → M SelectiveRepeat Bytes
  fin clock = do
    s ← self
    let pkt = new type_close s.op_type s.protocol [] s.seq_num
    update (λ t. record t {
      window = Dict.insert pkt.seq_num (record { pkt = pkt; time = clock pkt.seq_num }) t.window;
      seq_num = t.seq_num + 1;
    })
    call (to_bytes r.crc32 pkt)

  unfoldable pub syn : SelectiveRepeat → Text → ℕ → Result Bytes
  syn s filename filesize =
      to_bytes r.crc32 (new type_syn s.op_type s.protocol (syn_payload r filename filesize) 0)

  -- `int(data[1])` and the split come before the object is written; the size test comes after.
  unfoldable pub handle_syn : Packet → M SelectiveRepeat (Option Event)
  handle_syn pkt = do
    (filename, filesize) ← call (read_syn r pkt.payload)
    update (λ t. record t { op_type = pkt.op_type; protocol = pkt.protocol })
    if exceeds filesize max_file_size
        then fail filesize_error
        else return (some (handshake filename filesize pkt.op_type))

-- The `while` of `_handle_ack`: `next_expected` and the count of steps. `seq_num - next_expected`
-- rounds are enough.
unfoldable pub slide : ℕ → Dict ℕ Entry → ℕ → ℕ → ℕ → ℕ × ℕ
slide zero window seq_num next_expected count = (next_expected, count)
slide (suc fuel) window seq_num next_expected count =
    let rest = slide fuel window seq_num (next_expected + 1) (count + 1) in
    if ltb next_expected seq_num && not (Dict.contains next_expected window)
    then rest
    else (next_expected, count)

unfoldable pub handle_ack : Packet → SelectiveRepeat → Option Event × SelectiveRepeat
handle_ack pkt s =
    let window =
      if Dict.contains pkt.seq_num s.window then Dict.erase pkt.seq_num s.window else s.window in
    let (next_expected, next_packages) =
      slide (s.seq_num - s.next_expected) window s.seq_num s.next_expected 0 in
    if ltb pkt.seq_num s.next_expected
    then (if pkt.seq_num == 0 then some (ack_init pkt.op_type s.window_size) else none, s)
    else (some (acked next_packages), record s { window = window; next_expected = next_expected })

-- The `while` of `_handle_data`: the chunks in order, the buffer and `next_expected`. Each round
-- takes an entry out of the buffer, so its length is fuel enough.
unfoldable pub deliver : ℕ → Dict ℕ Bytes → ℕ → List Bytes × Dict ℕ Bytes × ℕ
deliver zero buffer next_expected = ([], buffer, next_expected)
deliver (suc fuel) buffer next_expected = elim (Dict.lookup next_expected buffer) [
  | none ↦ ([], buffer, next_expected)
  | some chunk ↦
      let (chunks, buffer', next') =
        deliver fuel (Dict.erase next_expected buffer) (next_expected + 1) in
      (chunk ∷ chunks, buffer', next')
]

unfoldable pub handle_data : Packet → SelectiveRepeat → Option Event × SelectiveRepeat
handle_data pkt s =
    let seq = pkt.seq_num in
    let stored = Dict.insert seq pkt.payload s.buffer in
    let (chunks, buffer, next_expected) = deliver (length stored) stored s.next_expected in
    if ltb seq s.next_expected
    then (some (received seq none), s)
    else if leb (s.next_expected + s.window_size) seq
    then (none, s)
    else if Dict.contains seq s.buffer
    then (some (received seq none), s)
    else (
      some (received seq (some chunks)),
      record s { buffer = buffer; next_expected = next_expected },
    )

module _ (r : Runtime) where
  -- The tests of `handle_packet` in their order. The class has no `_handle_nack`.
  unfoldable pub dispatch : Packet → M SelectiveRepeat (Option Event)
  dispatch pkt s =
      if pkt.pkt_type == type_syn
      then handle_syn r pkt s
      else if pkt.pkt_type == type_syn_ack
      then (ok (some syn_acked), s)
      else if pkt.pkt_type == type_ack
      then (let (event, s') = handle_ack pkt s in (ok event, s'))
      else if pkt.pkt_type == type_nack
      then (raise attribute_error, s)
      else if pkt.pkt_type == type_data
      then (let (event, s') = handle_data pkt s in (ok event, s'))
      else if pkt.pkt_type == type_close
      then (ok (some closing), s)
      else if pkt.pkt_type == type_close_ack
      then (ok (some closed), s)
      else (raise unidentified_package_type, s)

  -- A `ChecksumError` is caught, and the handler calls `_handle_corrupt`, which the class lacks.
  abbrev on_parse_error : Exception → Exception
  on_parse_error (checksum_error seq) = attribute_error
  on_parse_error e = e

  unfoldable pub handle_packet : Bytes → M SelectiveRepeat (Option Event)
  handle_packet raw s = elim (from_bytes r.crc32 raw) [
    | ok pkt ↦ dispatch pkt s
    | raise e ↦ (raise (on_parse_error e), s)
  ]

  unfoldable pub handle_handshake : Bytes → M SelectiveRepeat (Option Event)
  handle_handshake raw = do
    pkt ← call (from_bytes r.crc32 raw)
    if pkt.pkt_type == type_syn then handle_packet raw else fail handshake_error
