-- ===== src/Server.antt =====
-- tp1/src/lib/server/Server.py, class Server: the threads of the clients, and the table of their
-- queues. An address is a number, and the storage directory an argument that joins it to a name. The
-- main thread and the client threads are interleaved in any order, one turn of a loop at a time; the
-- logging, the sockets' set-up and the locks, which guard what is one turn here, are left out.
pub mod Table
pub mod Abandoned
pub mod Faults
use fiuba_redes.Common.{
  ℕ, ◌+◌, ◌*◌, ◌==◌, nat_eq, ◌&&◌, not, leb, Bool, true, false, Option, none, some, List, [], ◌∷◌,
  ◌++◌, if◌then◌else◌,
}
use fiuba_redes.Common.Dict
use fiuba_redes.Common.Dict.{Dict}
use fiuba_redes.Constants.{op_type_download, payload_size, ack_timeout}
use fiuba_redes.Endpoint.{
  Endpoint, Readings, on_protocol, on_file, send, send_all, push_block, handle_data, resend,
}
use fiuba_redes.Event.{Event, handshake, ack_init, acked, received, syn_acked, closing, closed}
use fiuba_redes.Exceptions.{Exception, Result, ok, raise, handshake_error, os_error, key_error}
use fiuba_redes.Factory.{AnyProtocol, protocol_factory_create}
use fiuba_redes.Factory.Methods
use fiuba_redes.File.{FileHandler, set_filename, open_for_read, create_file, read, eof}
use fiuba_redes.File
use fiuba_redes.Method.{M, ◌>>=◌, ◌>>◌, return, fail, self, update, call}
use fiuba_redes.Packet.{Bytes}
use fiuba_redes.Runtime.{Text, Runtime}

-- `self.socket.send(b)`: the server's socket is not connected, so the first call raises.
unfoldable pub send_unconnected : List Bytes → M Endpoint (Unit {0})
send_unconnected [] = return tt
send_unconnected (raw ∷ raws) = fail os_error

module _ (r : Runtime) where
  unfoldable pub finish : Readings → Bool → M Endpoint (Unit {0})
  finish t at_end e =
      if at_end && not (Methods.has_window e.protocol) && not (Methods.is_waiting_ack e.protocol)
      then (on_protocol (Methods.fin r t.closed) >>= λ raw. send raw) e
      else (ok tt, e)

  unfoldable pub handle_ack : Readings → ℕ → M Endpoint (Unit {0})
  handle_ack t next = do
    raws ← on_protocol (Methods.get_timedouts r t.now t.resent)
    send_unconnected raws
    block ← on_file (read (next * payload_size))
    push_block r t block
    e ← self
    at_end ← call (eof e.file_handler)
    finish t at_end

  unfoldable pub handle_handshake : Text → M Endpoint (Unit {0})
  handle_handshake filename = do
    e ← self
    raw ← call (Methods.syn_ack_to_bytes r e.protocol)
    send raw
    on_file (set_filename filename)

  unfoldable pub handle_close : M Endpoint (Unit {0})
  handle_close = do
    e ← self
    raw ← call (Methods.fin_ack r e.protocol)
    send raw
    update (λ e. record e { file_handler = File.close e.file_handler })

  module _ (join : Text → Text) where
    unfoldable pub handle_init : Readings → ℕ → ℕ → M Endpoint (Unit {0})
    handle_init t op_type next =
        if op_type == op_type_download
        then (on_file (open_for_read join none) >> handle_ack t next)
        else on_file (create_file join none)

    -- A `closed` event goes to `handle_close_fin`, which is given whether the table has the address.
    unfoldable pub handle_event : Bool → Readings → Event → M Endpoint (Unit {0})
    handle_event listed t (handshake filename filesize op) = handle_handshake filename
    handle_event listed t (received seq chunks) = handle_data r seq chunks
    handle_event listed t (acked next) = handle_ack t next
    handle_event listed t closing = handle_close
    handle_event listed t (ack_init op_type next) = handle_init t op_type next
    handle_event listed t closed =
        if listed
        then update (λ e. record e { file_handler = File.close e.file_handler })
        else return tt
    handle_event listed t syn_acked = return tt

    -- Whether the loop goes on after the event.
    abbrev pub goes_on : Event → Bool
    goes_on closed = false
    goes_on event = true

    unfoldable pub handle_if : Bool → Readings → Option Event → M Endpoint Bool
    handle_if listed t none = return true
    handle_if listed t (some event) = do handle_event listed t event; return (goes_on event)

    -- A datagram of a client that is connected, and the first one.
    unfoldable pub handle_datagram : Bool → Readings → Bytes → M Endpoint Bool
    handle_datagram listed t raw = do
      event ← on_protocol (Methods.handle_packet r raw)
      handle_if listed t event

    unfoldable pub handle_first : Bool → Readings → Bytes → M Endpoint Bool
    handle_first listed t raw = do
      event ← on_protocol (Methods.handle_handshake r raw)
      handle_if listed t event

-- The local variables of `handle_clientt`: before the handshake there is no protocol object.
pub data Session : Type 0 where
  waiting : FileHandler → Session
  connected : Endpoint → Session

pub record Thread : Type 0 where
  pub session : Session
  pub inactivity : ℕ

-- How a turn of the loop ends: it goes on, it breaks after a CLOSE_ACK, it breaks for another reason,
-- or an exception ends the thread.
pub data Ending : Type 0 where
  running finished broken : Ending
  died : Exception → Ending

-- `except HandshakeError: break`
abbrev pub ending_of : Result Bool → Ending
ending_of (ok true) = running
ending_of (ok false) = finished
ending_of (raise handshake_error) = broken
ending_of (raise e) = died e

abbrev pub inactivity_limit : ℕ
inactivity_limit = 60 * 1000

abbrev pub settled : Result Bool × Endpoint → Ending × Session
settled (result, e) = (ending_of result, connected e)

abbrev pub resent : Result (Unit {0}) × Endpoint → Ending × Session
resent (ok tt, e) = (running, connected e)
resent (raise x, e) = (died x, connected e)

module _ (r : Runtime) (join : Text → Text) (listed : Bool) (t : Readings) where
  unfoldable pub on_first : FileHandler → Bytes → Ending × Session
  on_first h raw = elim (protocol_factory_create r raw) [
    | raise e ↦ (died e, waiting h)
    | ok p ↦
        settled
          (handle_first r join listed t raw (record { protocol = p; file_handler = h; sent = [] }))
  ]

  unfoldable pub on_data : Bytes → Session → Ending × Session
  on_data raw (waiting h) = on_first h raw
  on_data raw (connected e) = settled (handle_datagram r join listed t raw e)

  unfoldable pub on_silence : Session → Ending × Session
  on_silence (waiting h) = (running, waiting h)
  on_silence (connected e) = resent (resend r t e)

  -- One turn of `handle_clientt`: with what `que.get` gave, or with `Empty`.
  unfoldable pub turn : Option Bytes → Thread → Ending × Thread
  turn (some raw) thread =
      let (ending, session) = on_data raw thread.session in
      (ending, record { session = session; inactivity = 0 })
  turn none thread =
      let inactivity = thread.inactivity + ack_timeout in
      if leb inactivity_limit inactivity
      then (broken, record thread { inactivity = inactivity })
      else (let (ending, session) = on_silence thread.session in
          (ending, record { session = session; inactivity = inactivity }))
