-- ===== src/Endpoint.antt =====
-- What a client of tp1 and a client's thread in the server are made of: a protocol object, a file and
-- a socket, which is the list of the datagrams sent so far. A method of either acts on the three.
use fiuba_redes.Common.{
  ℕ, Bool, true, false, if◌then◌else◌, Option, none, some, List, [], ◌∷◌, ◌++◌, flatten,
}
use fiuba_redes.Factory.{AnyProtocol}
use fiuba_redes.Factory.Methods
use fiuba_redes.File.{FileHandler, write}
use fiuba_redes.Method.{M, ◌>>=◌, ◌>>◌, return, self, update, call}
use fiuba_redes.Packet.{Bytes}
use fiuba_redes.Runtime.{Runtime}

pub record Endpoint : Type 0 where
  pub protocol : AnyProtocol
  pub file_handler : FileHandler
  pub sent : List Bytes

-- The readings of the clock in `handle_ack`: the one that timers are compared with, and those for the
-- packets that are sent again, sent, and for the FIN, by packet number.
pub record Readings : Type 0 where
  pub now : ℕ
  pub resent : ℕ → ℕ
  pub pushed : ℕ → ℕ
  pub closed : ℕ → ℕ

-- A call of a method of the protocol object, or of the file.
abbrev pub on_protocol {ℓ} : {A : Type ℓ} → M AnyProtocol A → M Endpoint A
on_protocol m e = let (result, p) = m e.protocol in (result, record e { protocol = p })

abbrev pub on_file {ℓ} : {A : Type ℓ} → M FileHandler A → M Endpoint A
on_file m e = let (result, h) = m e.file_handler in (result, record e { file_handler = h })

-- `socket.send`, and `socket.sendto` with the client's address.
unfoldable pub send : Bytes → M Endpoint (Unit {0})
send raw = update (λ e. record e { sent = e.sent ++ (raw ∷ []) })

unfoldable pub send_all : List Bytes → M Endpoint (Unit {0})
send_all [] = return tt
send_all (raw ∷ raws) = send raw >> send_all raws

-- `if hasattr(event, "data") and event.data: file_handler.write(b"".join(event.data))`
unfoldable pub write_data : Option (List Bytes) → M Endpoint (Unit {0})
write_data none = return tt
write_data (some []) = return tt
write_data (some (chunk ∷ chunks)) = on_file (write (flatten (chunk ∷ chunks)))

abbrev pub is_empty : Bytes → Bool
is_empty [] = true
is_empty (b ∷ bs) = false

-- What client and server do alike. `push_block` is the middle of `handle_ack`, and `resend` what both do
-- when nothing arrives.
module _ (r : Runtime) where
  unfoldable pub push_block : Readings → Bytes → M Endpoint (Unit {0})
  push_block t block =
      if is_empty block
      then return tt
      else (on_protocol (Methods.push_payload r t.pushed block) >>= λ raws. send_all raws)

  unfoldable pub handle_data : ℕ → Option (List Bytes) → M Endpoint (Unit {0})
  handle_data seq chunks = do
    e ← self
    raw ← call (Methods.ack r e.protocol seq)
    send raw
    write_data chunks

  unfoldable pub resend : Readings → M Endpoint (Unit {0})
  resend t = do raws ← on_protocol (Methods.get_timedouts r t.now t.resent); send_all raws
