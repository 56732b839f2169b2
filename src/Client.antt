-- ===== src/Client.antt =====
-- tp1/src/lib/client/Client.py, class Client. `op_type` never changes and is an argument. What
-- `recvfrom` gives, a datagram or a timeout, is a list of inputs; a run that has used its inputs
-- up waits for more. The logging is left out, and so are `close` and the class's `handle_handshake`,
-- which nothing calls.
use fiuba_redes.Common.{
  ℕ, ◌*◌, ◌==◌, nat_eq, ◌&&◌, not, Option, none, some, List, [], ◌∷◌, if◌then◌else◌,
}
use fiuba_redes.Constants.{op_type_upload, payload_size}
use fiuba_redes.Endpoint.{
  Endpoint, Readings, on_protocol, on_file, send, send_all, is_empty, push_block, handle_data,
  resend,
}
use fiuba_redes.Event.{Event, handshake, ack_init, acked, received, syn_acked, closing, closed}
use fiuba_redes.Exceptions.{ok, timeout}
use fiuba_redes.Factory.Methods
use fiuba_redes.File.{open_for_read, open_for_write, read, size, is_closed}
use fiuba_redes.File
use fiuba_redes.Method.{M, ◌>>=◌, ◌>>◌, return, fail, self, update, call}
use fiuba_redes.Packet.{Bytes}
use fiuba_redes.Runtime.{Text, Runtime}

-- What `recvfrom` gives: a datagram, or the exception `timeout`. The readings are those of the calls
-- that the input leads to.
pub data Input : Type 0 where
  datagram : Readings → Bytes → Input
  silence : Readings → Input

module _ (r : Runtime) where
  unfoldable pub finish : Readings → Bytes → M Endpoint (Unit {0})
  finish t block e =
      if is_empty block
        && not (Methods.has_window e.protocol)
        && not (Methods.is_waiting_ack e.protocol)
      then (on_protocol (Methods.fin r t.closed) >>= λ raw. send raw) e
      else (ok tt, e)

  unfoldable pub handle_ack : Readings → ℕ → M Endpoint (Unit {0})
  handle_ack t next = do
    raws ← on_protocol (Methods.get_timedouts r t.now t.resent)
    send_all raws
    block ← on_file (read (next * payload_size))
    push_block r t block
    finish t block

  unfoldable pub handle_syn_ack : ℕ → Readings → M Endpoint (Unit {0})
  handle_syn_ack op_type t = do
    e ← self
    raw ← call (Methods.ack r e.protocol 0)
    send raw
    if op_type == op_type_upload then handle_ack t (Methods.window_size e.protocol) else return tt

  unfoldable pub handle_close : M Endpoint (Unit {0})
  handle_close = do
    update (λ e. record e { file_handler = File.close e.file_handler })
    e ← self
    raw ← call (Methods.fin_ack r e.protocol)
    send raw

  unfoldable pub handle_close_fin : M Endpoint (Unit {0})
  handle_close_fin = update (λ e. record e { file_handler = File.close e.file_handler })

  unfoldable pub handle_event : ℕ → Readings → Event → M Endpoint (Unit {0})
  handle_event op_type t syn_acked = handle_syn_ack op_type t
  handle_event op_type t (received seq chunks) = handle_data r seq chunks
  handle_event op_type t (acked next) = handle_ack t next
  handle_event op_type t closing = handle_close
  handle_event op_type t (ack_init op next) = return tt
  handle_event op_type t closed = handle_close_fin
  handle_event op_type t (handshake filename filesize op) = return tt

  unfoldable pub handle_if : ℕ → Readings → Option Event → M Endpoint (Unit {0})
  handle_if op_type t none = return tt
  handle_if op_type t (some event) = handle_event op_type t event

  -- A datagram that arrives: its packet is handled, and then the event, if there is one.
  unfoldable pub handle_datagram : ℕ → Readings → Bytes → M Endpoint (Unit {0})
  handle_datagram op_type t raw = do
    event ← on_protocol (Methods.handle_packet r raw)
    handle_if op_type t event

  -- One round of the loop of `upload_file` and `download_file`.
  unfoldable pub turn : ℕ → Input → M Endpoint (Unit {0})
  turn op_type (datagram t raw) = handle_datagram op_type t raw
  turn op_type (silence t) = resend r t

  -- `while not self.file_handler.is_closed()`
  unfoldable pub loop : ℕ → List Input → M Endpoint (Unit {0})
  loop op_type [] e = (ok tt, e)
  loop op_type (input ∷ inputs) e =
      let rest = (turn op_type input >> loop op_type inputs) e in
      if is_closed e.file_handler then (ok tt, e) else rest

  -- `wait_response` and the handling of what it gives, which stand outside the `try` of the loop.
  unfoldable pub first_turn : ℕ → Input → M Endpoint (Unit {0})
  first_turn op_type (datagram t raw) = handle_datagram op_type t raw
  first_turn op_type (silence t) = fail timeout

  -- After the SYN: the first response, then the loop.
  unfoldable pub exchange : ℕ → List Input → M Endpoint (Unit {0})
  exchange op_type [] = return tt
  exchange op_type (input ∷ inputs) = first_turn op_type input >> loop op_type inputs

  unfoldable pub open_connection : Text → ℕ → M Endpoint (Unit {0})
  open_connection name filesize = do
    e ← self
    raw ← call (Methods.syn r e.protocol name filesize)
    send raw

  module _ (join : Text → Text) where
    -- The part of `upload_file` before the first response.
    unfoldable pub connect_upload : Text → Text → M Endpoint (Unit {0})
    connect_upload path save_name = do
      on_file (open_for_read join (some path))
      e ← self
      filesize ← call (size e.file_handler)
      open_connection save_name filesize

    unfoldable pub upload_file : ℕ → Text → Text → List Input → M Endpoint (Unit {0})
    upload_file op_type path save_name inputs =
        connect_upload path save_name >> exchange op_type inputs

    unfoldable pub download_file : ℕ → Text → Text → List Input → M Endpoint (Unit {0})
    download_file op_type dst_path name inputs = do
      on_file (open_for_write join dst_path)
      open_connection name 1000
      exchange op_type inputs
