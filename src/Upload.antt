-- ===== src/Upload.antt =====
-- An upload by selective repeat: tp1/src/lib/client/Client.py and tp1/src/lib/server/Server.py over a
-- network that loses, repeats and reorders datagrams. The network with the client's program and the
-- server's thread is Network. What is here is a smaller system for the proofs about it, of the two
-- endpoints alone: it has no thread that can end, and leaves out the ACK of the connection, so that its
-- moves are those of Network only where Network/Simulation shows it.
pub mod Chunks
pub mod Sending
pub mod Progress
pub mod Front
pub mod Acknowledging
pub mod Traffic
pub mod Blocks
pub mod Uploading
pub mod Finishing
pub mod Events
pub mod Responses
pub mod Storing
pub mod Requests
pub mod Answers
pub mod Parts
pub mod Arrivals
pub mod Steps
pub mod Moves
pub mod Start
pub mod Safety
pub mod Closing
pub mod Resending
pub mod Rounds
pub mod Completion
pub mod Liveness
pub mod Growing
pub mod Network
use fiuba_redes.Client
use fiuba_redes.Common.{
  ℕ, Bool, true, false, ◌&&◌, nat_eq, Option, none, some, List, [], ◌∷◌, ◌==◌, if◌then◌else◌,
  get_elem?,
}
use fiuba_redes.Common.Dict.{Dict}
use fiuba_redes.Constants.{op_type_upload, type_ack}
use fiuba_redes.Endpoint.{Endpoint, Readings, resend}
use fiuba_redes.Exceptions.{Result, ok, raise}
use fiuba_redes.Factory.{selective_repeat}
use fiuba_redes.File.{FileHandler, set_filename, open_for_read, create_file, is_closed}
use fiuba_redes.File
use fiuba_redes.Method.{M, ◌>>◌, return}
use fiuba_redes.Packet.{Packet, Bytes, from_bytes}
use fiuba_redes.Runtime.{Text, Runtime}
use fiuba_redes.SelectiveRepeat.{SelectiveRepeat}
use fiuba_redes.SelectiveRepeat
use fiuba_redes.Server

pub record System : Type 0 where
  pub client : Endpoint
  pub server : Endpoint

-- What happens next: client or server gets the datagram that the other sent as the n-th one, counted
-- from 0, or waits until its timeout. A datagram that is never chosen is lost.
pub data Move : Type 0 where
  to_client : Readings → ℕ → Move
  client_waits : Readings → Move
  to_server : Readings → ℕ → Move
  server_waits : Readings → Move

abbrev pub bytes_of : Result Bytes → List Bytes
bytes_of (ok raw) = raw ∷ []
bytes_of (raise e) = []

abbrev pub on_client : M Endpoint (Unit {0}) → M System (Unit {0})
on_client m s = let (result, e) = m s.client in (result, record s { client = e })

abbrev drop_result {ℓ} : {A : Type ℓ} → Result A → Result (Unit {0})
drop_result (ok a) = ok tt
drop_result (raise e) = raise e

abbrev pub on_server {ℓ} : {A : Type ℓ} → M Endpoint A → M System (Unit {0})
on_server m s = let (result, e) = m s.server in (drop_result result, record s { server = e })

abbrev pub init : SelectiveRepeat
init = SelectiveRepeat.init op_type_upload

-- A datagram that is the ACK of the connection.
abbrev pub is_opening : Runtime → Bytes → Bool
is_opening r raw = elim (from_bytes r.crc32 raw) [
  | ok pkt ↦ (pkt.pkt_type == type_ack) && (pkt.seq_num == 0)
  | raise e ↦ false
]

module _ (r : Runtime) (join join' : Text → Text) where
  -- One turn of the client's loop, which ends when its file is closed.
  unfoldable pub client_turn : Client.Input → M System (Unit {0})
  client_turn input s =
      if is_closed s.client.file_handler
      then (ok tt, s)
      else on_client (Client.turn r op_type_upload input) s

  unfoldable pub move : Move → M System (Unit {0})
  move (to_client t n) s = elim (get_elem? s.server.sent n) [
    | none ↦ (ok tt, s)
    | some raw ↦ client_turn (Client.datagram t raw) s
  ]
  move (client_waits t) s = client_turn (Client.silence t) s
  move (to_server t n) s = elim (get_elem? s.client.sent n) [
    | none ↦ (ok tt, s)
    | some raw ↦
        if is_opening r raw
        then (ok tt, s)
        else on_server (Server.handle_datagram r join' true t raw) s
  ]
  move (server_waits t) s = on_server (resend r t) s

  unfoldable pub run : List Move → M System (Unit {0})
  run [] = return tt
  run (m ∷ ms) = move m >> run ms

  -- The client has opened the file at its path and sent the SYN, and the server has its file already.
  -- Network/Opening shows that the opening of a connection comes to this after the client's first turn.
  abbrev pub start : Text → Dict Text Bytes → Text → Dict Text Bytes → System
  start path disk name disk' = record {
    client =
        (Client.connect_upload r join path name (record {
          protocol = selective_repeat init;
          file_handler = File.init disk;
          sent = [];
        })).1;
    server = record {
      protocol = selective_repeat init;
      file_handler = ((set_filename name >> create_file join' none) (File.init disk')).1;
      sent = bytes_of (SelectiveRepeat.syn_ack_to_bytes r init);
    };
  }
