-- ===== src/SelectiveRepeat/Datagrams.antt =====
-- The transfer on the wire: the receiver's `handle_packet` over the bytes that a sender's data
-- packets have.
use fiuba_redes.Common.{
  some, ℕ, ◌≤◌, ◌≡◌, refl, ap, ◌∙◌, arith, Option, List, [], ◌∷◌, length, map, All,
}
use fiuba_redes.Constants.{type_data, type_ack, type_syn_ack, type_close, type_close_ack}
use fiuba_redes.Event.{Event, syn_acked, closing, closed}
use fiuba_redes.Exceptions.{Result, ok, raise}
use fiuba_redes.Packet.{Packet, Bytes}
use fiuba_redes.Packet.Header.{Fits}
use fiuba_redes.Packet.RoundTrip.{wire, from_bytes-wire}
use fiuba_redes.Runtime.{Runtime, IsRuntime}
use mathlib.Core.Path.{subst}
use fiuba_redes.SelectiveRepeat.{
  SelectiveRepeat, init, handle_data, handle_ack, dispatch, handle_packet,
}
use fiuba_redes.SelectiveRepeat.Receiver.{IsHonest}
use fiuba_redes.SelectiveRepeat.Transfer.{receive, written, Acknowledged, written_of_Acknowledged}

-- A packet that `compose` makes of a chunk.
pub record IsData (pkt : Packet) : Type 0 where
  pub kind : pkt.pkt_type ≡ type_data
  pub fits : Fits pkt

-- What `handle_packet` gives for each datagram that arrives, and the receiver after them.
unfoldable pub receive_raw :
    Runtime → List Bytes → SelectiveRepeat → List (Result (Option Event)) × SelectiveRepeat
receive_raw r [] s = ([], s)
receive_raw r (raw ∷ raws) s =
    let (result, s') = handle_packet r raw s in
    let (results, s'') = receive_raw r raws s' in (result ∷ results, s'')

dispatch_data :
    (r : Runtime) (pkt : Packet) (s : SelectiveRepeat)
    → pkt.pkt_type ≡ type_data
    → dispatch r pkt s ≡ (ok (handle_data pkt s).0, (handle_data pkt s).1)
unfolding dispatch
dispatch_data r pkt s kind = ground arith

pub handle_packet-wire :
    (r : Runtime) (pkt : Packet) (s : SelectiveRepeat)
    → IsRuntime r
    → IsData pkt
    → handle_packet r (wire r.crc32 pkt) s ≡ (ok (handle_data pkt s).0, (handle_data pkt s).1)
unfolding handle_packet
handle_packet-wire r pkt s lib data' =
    rw (from_bytes-wire r.crc32 lib.crc32-lt pkt data'.fits, handle_packet)
      (dispatch_data r pkt s data'.kind)

module _ (r : Runtime) (lib : IsRuntime r) where
  -- What `handle_packet` makes of the packets of a peer.
  pub handle_packet-ack :
      (pkt : Packet) (p : SelectiveRepeat)
      → pkt.pkt_type ≡ type_ack
      → Fits pkt
      → handle_packet r (wire r.crc32 pkt) p ≡ (ok (handle_ack pkt p).0, (handle_ack pkt p).1)
  unfolding handle_packet dispatch
  handle_packet-ack pkt p kind fits =
      rw (from_bytes-wire r.crc32 lib.crc32-lt pkt fits, handle_packet) (ground arith)

  pub handle_packet-syn_ack :
      (pkt : Packet) (p : SelectiveRepeat)
      → pkt.pkt_type ≡ type_syn_ack
      → Fits pkt
      → handle_packet r (wire r.crc32 pkt) p ≡ (ok (some syn_acked), p)
  unfolding handle_packet dispatch
  handle_packet-syn_ack pkt p kind fits =
      rw (from_bytes-wire r.crc32 lib.crc32-lt pkt fits, handle_packet) (ground arith)

  pub handle_packet-close_ack :
      (pkt : Packet) (p : SelectiveRepeat)
      → pkt.pkt_type ≡ type_close_ack
      → Fits pkt
      → handle_packet r (wire r.crc32 pkt) p ≡ (ok (some closed), p)
  unfolding handle_packet dispatch
  handle_packet-close_ack pkt p kind fits =
      rw (from_bytes-wire r.crc32 lib.crc32-lt pkt fits, handle_packet) (ground arith)

pub handle_packet-close :
    (r : Runtime) (lib : IsRuntime r) (pkt : Packet) (q : SelectiveRepeat)
    → pkt.pkt_type ≡ type_close
    → Fits pkt
    → handle_packet r (wire r.crc32 pkt) q ≡ (ok (some closing), q)
unfolding handle_packet dispatch
handle_packet-close r lib pkt q kind fits =
    rw (from_bytes-wire r.crc32 lib.crc32-lt pkt fits, handle_packet) (ground arith)

-- The bytes of data packets, whatever the network made of their order and number, get through: what
-- `handle_packet` gives for them is what `_handle_data` gives for the packets, and no exception.
pub receive_raw-wire :
    (r : Runtime) (pkts : List Packet) (s : SelectiveRepeat)
    → IsRuntime r
    → All IsData pkts
    → receive_raw r (map (wire r.crc32) pkts) s
      ≡ (map (λ event. ok event) (receive pkts s).0, (receive pkts s).1)
unfolding receive_raw receive
receive_raw-wire r [] s lib all = refl
receive_raw-wire r (pkt ∷ pkts) s lib (data', rest) =
    rw
      (handle_packet-wire r pkt s lib data', receive_raw-wire r pkts (handle_data pkt s).1 lib rest)
      refl

-- The events among the results.
abbrev pub events_of : List (Result (Option Event)) → List (Option Event)
events_of [] = []
events_of (ok event ∷ results) = event ∷ events_of results
events_of (raise e ∷ results) = events_of results

events_of-map : (events : List (Option Event)) → events_of (map (λ event. ok event) events) ≡ events
events_of-map [] = refl
events_of-map (event ∷ events) = ap (◌∷◌ event) (events_of-map events)

pub events_of-receive_raw :
    (r : Runtime) (pkts : List Packet) (s : SelectiveRepeat)
    → IsRuntime r
    → All IsData pkts
    → events_of (receive_raw r (map (wire r.crc32) pkts) s).0 ≡ (receive pkts s).0
events_of-receive_raw r pkts s lib data' =
    ap events_of (
      ap (λ (x : List (Result (Option Event)) × SelectiveRepeat). x.0)
        (receive_raw-wire r pkts s lib data'))
    ∙ events_of-map (receive pkts s).0

-- Once the receiver of datagrams, which hold packets of the peer's chunks, in whatever order and
-- however often, has acknowledged every chunk, it has handed over all of them, in order.
pub written_of_Acknowledged_raw :
    (r : Runtime) (cs : List Bytes) (op_type : ℕ) (pkts : List Packet)
    → IsRuntime r
    → All (IsHonest cs) pkts
    → All IsData pkts
    → ((k : ℕ)
        → 1 ≤ k
        → k ≤ length cs
        → Acknowledged k (events_of (receive_raw r (map (wire r.crc32) pkts) (init op_type)).0))
    → written (events_of (receive_raw r (map (wire r.crc32) pkts) (init op_type)).0) ≡ cs
written_of_Acknowledged_raw r cs op_type pkts lib honest data' all =
    let same = events_of-receive_raw r pkts (init op_type) lib data' in
    ap written same
    ∙ written_of_Acknowledged cs op_type pkts honest
        (λ k low high. subst (Acknowledged k) same (all k low high))
