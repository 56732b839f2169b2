-- ===== src/Upload/Network.antt =====
-- tp1/src/lib/client/Client.py, `upload_file`, and tp1/src/lib/server/Server.py, `handle_clientt`, over a
-- network that loses, repeats and reorders datagrams. The client stands after its SYN; the server's
-- thread, whose address its table has throughout, at the first round of its loop.
pub mod Simulation
pub mod Opening
pub mod Turns
pub mod Promises
pub mod Deliveries
pub mod Finishing
use fiuba_redes.Client
use fiuba_redes.Common.{
  ℕ, ◌+◌, Bool, true, false, ◌&&◌, not, leb, nat_eq, Option, none, some, List, [], ◌∷◌,
  if◌then◌else◌, get_elem?,
}
use fiuba_redes.Common.Dict.{Dict}
use fiuba_redes.Constants.{op_type_upload, ack_timeout}
use fiuba_redes.Endpoint.{Endpoint, Readings}
use fiuba_redes.Exceptions.{ok}
use fiuba_redes.Factory.{selective_repeat}
use fiuba_redes.File.{FileHandler, is_closed}
use fiuba_redes.File
use fiuba_redes.Method.{M, ◌>>◌, return}
use fiuba_redes.Packet.{Bytes}
use fiuba_redes.Runtime.{Text, Runtime}
use fiuba_redes.Server
use fiuba_redes.Server.{
  Thread, Session, waiting, connected, Ending, running, finished, broken, died, inactivity_limit,
}
use fiuba_redes.Upload.{Move, to_client, client_waits, to_server, server_waits, init, is_opening}

-- The client, whether its `wait_response` has returned, the server's thread and how its last turn
-- ended.
pub record Network : Type 0 where
  pub client : Endpoint
  pub responded : Bool
  pub thread : Thread
  pub ending : Ending

abbrev pub is_running : Ending → Bool
is_running running = true
is_running finished = false
is_running broken = false
is_running (died e) = false

-- The datagrams that the server's thread has sent, in order.
abbrev pub sent_by : Session → List Bytes
sent_by (waiting h) = []
sent_by (connected e) = e.sent

abbrev pub on_client : M Endpoint (Unit {0}) → M Network (Unit {0})
on_client m s = let (result, e) = m s.client in (result, record s { client = e; responded = true })

module _ (r : Runtime) (join join' : Text → Text) where
  -- What `recvfrom` gives the client: first the response, then a turn of its loop, which ends when its
  -- file is closed.
  unfoldable pub client_hears : Client.Input → M Network (Unit {0})
  client_hears input s =
      if not s.responded
      then on_client (Client.first_turn r op_type_upload input) s
      else if is_closed s.client.file_handler
      then (ok tt, s)
      else on_client (Client.turn r op_type_upload input) s

  -- A turn of the server's thread, if it has not ended.
  unfoldable pub server_hears : Readings → Option Bytes → M Network (Unit {0})
  server_hears t what s =
      if is_running s.ending
      then (let (ending, thread) = Server.turn r join' true t what s.thread in
          (ok tt, record s { thread = thread; ending = ending }))
      else (ok tt, s)

  unfoldable pub step : Move → M Network (Unit {0})
  step (to_client t n) s = elim (get_elem? (sent_by s.thread.session) n) [
    | none ↦ (ok tt, s)
    | some raw ↦ client_hears (Client.datagram t raw) s
  ]
  step (client_waits t) s = client_hears (Client.silence t) s
  step (to_server t n) s = elim (get_elem? s.client.sent n) [
    | none ↦ (ok tt, s)
    | some raw ↦ server_hears t (some raw) s
  ]
  step (server_waits t) s = server_hears t none s

  unfoldable pub steps : List Move → M Network (Unit {0})
  steps [] = return tt
  steps (m ∷ ms) = step m >> steps ms

  -- The client has opened the file at its path and sent the SYN; the server's thread has started.
  abbrev pub fresh : Text → Dict Text Bytes → Text → Dict Text Bytes → Network
  fresh path disk name disk' = record {
    client =
        (Client.connect_upload r join path name (record {
          protocol = selective_repeat init;
          file_handler = File.init disk;
          sent = [];
        })).1;
    responded = false;
    thread = record { session = waiting (File.init disk'); inactivity = 0 };
    ending = running;
  }

  -- A move that gives the server no ACK of the connection, and does not let its thread's inactivity
  -- reach the limit.
  abbrev pub is_quiet : Move → Network → Bool
  is_quiet (to_client t n) s = true
  is_quiet (client_waits t) s = true
  is_quiet (to_server t n) s = elim (get_elem? s.client.sent n) [
    | none ↦ true
    | some raw ↦ not (is_opening r raw)
  ]
  is_quiet (server_waits t) s = not (leb inactivity_limit (s.thread.inactivity + ack_timeout))

  -- Moves that are so at each state that they come to.
  unfoldable pub are_quiet : List Move → Network → Bool
  are_quiet [] s = true
  are_quiet (m ∷ ms) s = is_quiet m s && are_quiet ms (step m s).1

-- The connection: the SYN reaches the server, its answer the client, and the client's ACK the server.
abbrev pub opening : Readings → Readings → Readings → List Move
opening t t' t'' = to_server t 0 ∷ to_client t' 0 ∷ to_server t'' 1 ∷ []

-- The file of the server's thread.
abbrev pub handler_of : Session → FileHandler
handler_of (waiting h) = h
handler_of (connected e) = e.file_handler

-- The network once the connection is open.
abbrev pub established :
    Runtime
    → (Text → Text)
    → (Text → Text)
    → Readings
    → Readings
    → Readings
    → Text
    → Dict Text Bytes
    → Text
    → Dict Text Bytes
    → Network
established r join join' t t' t'' path disk name disk' =
    (steps r join join' (opening t t' t'') (fresh r join join' path disk name disk')).1
