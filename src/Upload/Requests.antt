-- ===== src/Upload/Requests.antt =====
-- What the server's object makes of a SYN that comes again.
use fiuba_redes.Common.{◌<◌, ◌≡◌, refl, ◌∙◌, arith, some, false, [], nat_eq}
use fiuba_redes.File.{FileHandler, text_eq}
use fiuba_redes.Packet.{Packet, new}
use fiuba_redes.Packet.Header.{Fits}
use fiuba_redes.Packet.RoundTrip.{wire, from_bytes-wire}
use fiuba_redes.Runtime.{Text, Runtime, IsRuntime, ℤ, exceeds}
use fiuba_redes.SelectiveRepeat.{SelectiveRepeat, handle_packet, dispatch, handle_syn}
use fiuba_redes.Constants.{type_syn, type_syn_ack, max_file_size}
use fiuba_redes.Handshake.{read_syn}
use fiuba_redes.Event.{handshake}
use fiuba_redes.Exceptions.{ok}

abbrev pub syn_ack_packet : SelectiveRepeat → Packet
syn_ack_packet q = new type_syn_ack q.op_type q.protocol [] 0

pub syn_ack_packet-Fits :
    (q : SelectiveRepeat) → q.op_type < 2 → q.protocol < 2 → Fits (syn_ack_packet q)
syn_ack_packet-Fits q op_type protocol = record {
  pkt_type = omega arith;
  op_type = op_type;
  protocol = protocol;
  data_length = omega arith;
  seq_num = omega arith;
  measured = refl;
}

-- The object and the file after a SYN.
abbrev pub answered : Packet → SelectiveRepeat → SelectiveRepeat
answered pkt q = record q { op_type = pkt.op_type; protocol = pkt.protocol }

abbrev pub renamed : Text → FileHandler → FileHandler
renamed name h = record h { filename = some name }

handle_syn_lem :
    (r : Runtime) (pkt : Packet) (q : SelectiveRepeat) (name : Text) (size : ℤ)
    → read_syn r pkt.payload ≡ ok (name, size)
    → exceeds size max_file_size ≡ false
    → handle_syn r pkt q ≡ (ok (some (handshake name size pkt.op_type)), answered pkt q)
unfolding handle_syn
handle_syn_lem r pkt q name size readable small_enough =
    rw (readable, handle_syn, small_enough) refl

dispatch_syn :
    (r : Runtime) (pkt : Packet) (q : SelectiveRepeat)
    → pkt.pkt_type ≡ type_syn
    → dispatch r pkt q ≡ handle_syn r pkt q
unfolding dispatch
dispatch_syn r pkt q kind = ground arith

pub handle_packet-syn :
    (r : Runtime) (lib : IsRuntime r) (pkt : Packet) (q : SelectiveRepeat) (name : Text) (size : ℤ)
    → pkt.pkt_type ≡ type_syn
    → Fits pkt
    → read_syn r pkt.payload ≡ ok (name, size)
    → exceeds size max_file_size ≡ false
    → handle_packet r (wire r.crc32 pkt) q
      ≡ (ok (some (handshake name size pkt.op_type)), answered pkt q)
unfolding handle_packet
handle_packet-syn r lib pkt q name size kind fits readable small_enough =
    rw (from_bytes-wire r.crc32 lib.crc32-lt pkt fits, handle_packet)
      (dispatch_syn r pkt q kind ∙ handle_syn_lem r pkt q name size readable small_enough)
