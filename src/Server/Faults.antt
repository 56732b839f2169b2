-- ===== src/Server/Faults.antt =====
-- What the server's thread does when the ACK of the connection comes again, and when an ACK of a
-- download comes after a timeout.
use fiuba_redes.Common.{ℕ, ◌<◌, ◌≡◌, ◌≢◌, refl, ◌∙◌, arith, some, List, [], ◌∷◌, map, nat_eq}
use fiuba_redes.Common.Dict
use fiuba_redes.Endpoint.{Endpoint, Readings}
use fiuba_redes.Event.{ack_init}
use fiuba_redes.Exceptions.{raise, os_error}
use fiuba_redes.Factory.{selective_repeat}
use fiuba_redes.File.{text_eq}
use fiuba_redes.Packet.{Packet}
use fiuba_redes.Packet.RoundTrip.{wire}
use fiuba_redes.Runtime.{Runtime, IsRuntime}
use fiuba_redes.SelectiveRepeat.{SelectiveRepeat}
use fiuba_redes.SelectiveRepeat
use fiuba_redes.SelectiveRepeat.Sender.{handle_ack_old}
use fiuba_redes.SelectiveRepeat.Timers.{AllFit, late, get_timedouts_lem}
use fiuba_redes.Server.{send_unconnected, handle_ack}

pub opening_event :
    (pkt : Packet) (p : SelectiveRepeat)
    → pkt.seq_num ≡ 0
    → 0 < p.next_expected
    → SelectiveRepeat.handle_ack pkt p ≡ (some (ack_init pkt.op_type p.window_size), p)
opening_event pkt p zero_num positive = handle_ack_old pkt p (omega arith) ∙ ground arith

send_unconnected_late :
    (r : Runtime) (pkts : List Packet) (e : Endpoint)
    → pkts ≢ []
    → send_unconnected (map (wire r.crc32) pkts) e ≡ (raise os_error, e)
unfolding send_unconnected
send_unconnected_late r [] e some_late = absurd (some_late refl)
send_unconnected_late r (pkt ∷ pkts) e some_late = refl

-- In a download, an ACK after which some packet has waited longer than the timeout raises OSError in
-- the server, since its socket is not connected; the thread ends.
pub handle_ack-raises :
    (r : Runtime) (t : Readings) (n : ℕ) (p : SelectiveRepeat) (e : Endpoint)
    → IsRuntime r
    → AllFit p.window
    → late t.now p.window ≢ []
    → e.protocol ≡ selective_repeat p
    → (handle_ack r t n e).0 ≡ raise os_error
unfolding handle_ack
handle_ack-raises r t n p e lib fits some_late same = rw (
  same,
  get_timedouts_lem r lib t.now t.resent p fits,
  send_unconnected_late r (late t.now p.window) _ some_late,
)
