-- ===== src/Tests/Upload.antt =====
-- An upload of three bytes: the SYN and the packet arrive twice, one ACK is lost, and the FIN_ACK ends the loop.
use fiuba_redes.Common.{
  ◌≡◌, ◌++◌, refl, arith, true, false, Option, none, some, List, [], ◌∷◌, flatten, ℕ_discrete,
  nat_eq, ◌≢◌, ◌<◌, ◌^◌, All, length, get_elem?, ap, ◌∙◌,
}
use fiuba_redes.Common.Dict
use fiuba_redes.Common.Dict.{Dict}
use fiuba_redes.Client
use fiuba_redes.Server
use fiuba_redes.SelectiveRepeat
use fiuba_redes.File
use fiuba_redes.Endpoint.{Endpoint, send, send_all, write_data, push_block, handle_data, resend}
use fiuba_redes.Exceptions.{ok, Result}
use fiuba_redes.File.{text_eq, is_closed}
use fiuba_redes.Handshake.{syn_payload, read_syn}
use fiuba_redes.Upload.{
  is_opening, bytes_of, Move, to_client, client_waits, to_server, server_waits,
}
use fiuba_redes.Upload.Completion.{IsNew}
use fiuba_redes.Upload.Network.{
  Network, client_hears, server_hears, step, steps, opening, fresh, established, are_quiet,
  handler_of, sent_by,
}
use fiuba_redes.Upload.Network.Promises.{steps-ok, steps-stored, steps-prefix}
use fiuba_redes.Upload.Network.Deliveries.{turn-running, steps-completes}
use fiuba_redes.Upload.Network.Finishing.{steps-finishes}
use fiuba_redes.Server.{running, connected}
use fiuba_redes.Factory.{protocol_factory_create}
use fiuba_redes.Packet.{
  Packet, new, Bytes, pack, unpack, compose_info_field, parse_info_bytes, to_bytes,
  compare_checksum, from_bytes,
}
use fiuba_redes.Packet.Header.{Fits}
use fiuba_redes.Packet.RoundTrip.{wire, to_bytes-wire}
use fiuba_redes.Runtime.{Text}
use fiuba_redes.Tests.Packets.{runtime, runtime-IsRuntime}
use fiuba_redes.Tests.Server.{storage, reading}

abbrev name : Text
name = 97 ∷ []

abbrev file : Bytes
file = 1 ∷ 2 ∷ 3 ∷ []

abbrev disk : Dict Text Bytes
disk = (storage name, file) ∷ []

abbrev moves : List Move
moves =
    to_server reading 0
    ∷ to_server reading 2
    ∷ to_server reading 2
    ∷ server_waits reading
    ∷ to_client reading 3
    ∷ client_waits reading
    ∷ to_server reading 3
    ∷ to_client reading 4
    ∷ []

abbrev begun : Network
begun = established runtime storage storage reading reading reading name disk name []

abbrev after_moves : Network
after_moves = (steps runtime storage storage moves begun).1

there : Dict.lookup (storage name) disk ≡ some file
unfolding Dict.lookup text_eq ℕ_discrete
there = refl

visible : All (λ c. c ≢ 0) name
visible = omega arith

short : length (syn_payload runtime name 3) < 2 ^ 27
unfolding syn_payload
short = omega arith

moves_quiet : are_quiet runtime storage storage moves begun ≡ true
unfolding steps step client_hears server_hears are_quiet Client.first_turn Client.turn
    Client.handle_datagram Client.handle_if Client.handle_event Client.handle_syn_ack
    Client.handle_ack Client.finish Client.handle_close_fin Server.handle_datagram Server.handle_if
    Server.handle_event Server.handle_close send send_all write_data push_block handle_data resend
    File.open_for_read File.open_for_write File.create_file File.read File.write text_eq ℕ_discrete
    Dict.lookup Dict.insert Dict.erase Dict.contains SelectiveRepeat.compose SelectiveRepeat.offsets
    SelectiveRepeat.push_loop SelectiveRepeat.push_payload SelectiveRepeat.timedout_loop
    SelectiveRepeat.get_timedouts SelectiveRepeat.fin SelectiveRepeat.fin_ack SelectiveRepeat.ack
    SelectiveRepeat.syn_ack_to_bytes SelectiveRepeat.handle_ack SelectiveRepeat.slide
    SelectiveRepeat.handle_data SelectiveRepeat.deliver SelectiveRepeat.dispatch
    SelectiveRepeat.handle_packet flatten pack unpack compose_info_field parse_info_bytes to_bytes
    compare_checksum from_bytes Client.connect_upload Client.open_connection SelectiveRepeat.syn
    File.size Server.handle_handshake SelectiveRepeat.handle_syn syn_payload read_syn Server.turn
    Server.on_data Server.on_first Server.on_silence Server.handle_first Server.handle_init
    protocol_factory_create SelectiveRepeat.handle_handshake
moves_quiet = refl

client_closed : is_closed after_moves.client.file_handler ≡ true
unfolding steps step client_hears server_hears are_quiet Client.first_turn Client.turn
    Client.handle_datagram Client.handle_if Client.handle_event Client.handle_syn_ack
    Client.handle_ack Client.finish Client.handle_close_fin Server.handle_datagram Server.handle_if
    Server.handle_event Server.handle_close send send_all write_data push_block handle_data resend
    File.open_for_read File.open_for_write File.create_file File.read File.write text_eq ℕ_discrete
    Dict.lookup Dict.insert Dict.erase Dict.contains SelectiveRepeat.compose SelectiveRepeat.offsets
    SelectiveRepeat.push_loop SelectiveRepeat.push_payload SelectiveRepeat.timedout_loop
    SelectiveRepeat.get_timedouts SelectiveRepeat.fin SelectiveRepeat.fin_ack SelectiveRepeat.ack
    SelectiveRepeat.syn_ack_to_bytes SelectiveRepeat.handle_ack SelectiveRepeat.slide
    SelectiveRepeat.handle_data SelectiveRepeat.deliver SelectiveRepeat.dispatch
    SelectiveRepeat.handle_packet flatten pack unpack compose_info_field parse_info_bytes to_bytes
    compare_checksum from_bytes Client.connect_upload Client.open_connection SelectiveRepeat.syn
    File.size Server.handle_handshake SelectiveRepeat.handle_syn syn_payload read_syn Server.turn
    Server.on_data Server.on_first Server.on_silence Server.handle_first Server.handle_init
    protocol_factory_create SelectiveRepeat.handle_handshake
client_closed = refl

steps-ok_example :
    ((steps runtime storage storage
        (opening reading reading reading)
        (fresh runtime storage storage name disk name [])).0
      ≡ ok tt)
    × ((steps runtime storage storage moves begun).0 ≡ ok tt)
    × (after_moves.ending ≡ running)
steps-ok_example =
    steps-ok runtime storage storage reading reading reading name name file disk []
      runtime-IsRuntime (omega arith) there visible short moves moves_quiet

steps-stored_example :
    (is_closed (handler_of after_moves.thread.session) ≡ true)
    × (Dict.lookup (storage name) (handler_of after_moves.thread.session).disk ≡ some file)
steps-stored_example =
    steps-stored runtime storage storage reading reading reading name name file disk []
      runtime-IsRuntime (omega arith) there visible short moves moves_quiet client_closed

steps-prefix_example :
    (b : Bytes) × (rest : Bytes) × (Dict.lookup
        (storage name)
        (handler_of after_moves.thread.session).disk
      ≡ some b)
    × (b ++ rest ≡ file)
steps-prefix_example =
    steps-prefix runtime storage storage reading reading reading name name file disk []
      runtime-IsRuntime (omega arith) there visible short moves moves_quiet

-- The first five moves end when the FIN was sent.
abbrev first_moves : List Move
first_moves =
    to_server reading 0
    ∷ to_server reading 2
    ∷ to_server reading 2
    ∷ server_waits reading
    ∷ to_client reading 3
    ∷ []

abbrev before_fin : Network
before_fin = (steps runtime storage storage first_moves begun).1

first_quiet : are_quiet runtime storage storage first_moves begun ≡ true
unfolding steps step client_hears server_hears are_quiet Client.first_turn Client.turn
    Client.handle_datagram Client.handle_if Client.handle_event Client.handle_syn_ack
    Client.handle_ack Client.finish Client.handle_close_fin Server.handle_datagram Server.handle_if
    Server.handle_event Server.handle_close send send_all write_data push_block handle_data resend
    File.open_for_read File.open_for_write File.create_file File.read File.write text_eq ℕ_discrete
    Dict.lookup Dict.insert Dict.erase Dict.contains SelectiveRepeat.compose SelectiveRepeat.offsets
    SelectiveRepeat.push_loop SelectiveRepeat.push_payload SelectiveRepeat.timedout_loop
    SelectiveRepeat.get_timedouts SelectiveRepeat.fin SelectiveRepeat.fin_ack SelectiveRepeat.ack
    SelectiveRepeat.syn_ack_to_bytes SelectiveRepeat.handle_ack SelectiveRepeat.slide
    SelectiveRepeat.handle_data SelectiveRepeat.deliver SelectiveRepeat.dispatch
    SelectiveRepeat.handle_packet flatten pack unpack compose_info_field parse_info_bytes to_bytes
    compare_checksum from_bytes Client.connect_upload Client.open_connection SelectiveRepeat.syn
    File.size Server.handle_handshake SelectiveRepeat.handle_syn syn_payload read_syn Server.turn
    Server.on_data Server.on_first Server.on_silence Server.handle_first Server.handle_init
    protocol_factory_create SelectiveRepeat.handle_handshake
first_quiet = refl

abbrev fin_packet : Packet
fin_packet = new 4 1 1 [] 2

fin_packet-Fits : Fits fin_packet
fin_packet-Fits = record {
  pkt_type = omega arith;
  op_type = omega arith;
  protocol = omega arith;
  data_length = omega arith;
  seq_num = omega arith;
  measured = refl;
}

fin_bytes :
    get_elem? before_fin.client.sent 3 ≡ get_elem? (bytes_of (to_bytes runtime.crc32 fin_packet)) 0
unfolding steps step client_hears server_hears are_quiet Client.first_turn Client.turn
    Client.handle_datagram Client.handle_if Client.handle_event Client.handle_syn_ack
    Client.handle_ack Client.finish Client.handle_close_fin Server.handle_datagram Server.handle_if
    Server.handle_event Server.handle_close send send_all write_data push_block handle_data resend
    File.open_for_read File.open_for_write File.create_file File.read File.write text_eq ℕ_discrete
    Dict.lookup Dict.insert Dict.erase Dict.contains SelectiveRepeat.compose SelectiveRepeat.offsets
    SelectiveRepeat.push_loop SelectiveRepeat.push_payload SelectiveRepeat.timedout_loop
    SelectiveRepeat.get_timedouts SelectiveRepeat.fin SelectiveRepeat.fin_ack SelectiveRepeat.ack
    SelectiveRepeat.syn_ack_to_bytes SelectiveRepeat.handle_ack SelectiveRepeat.slide
    SelectiveRepeat.handle_data SelectiveRepeat.deliver SelectiveRepeat.dispatch
    SelectiveRepeat.handle_packet flatten pack unpack compose_info_field parse_info_bytes to_bytes
    compare_checksum from_bytes Client.connect_upload Client.open_connection SelectiveRepeat.syn
    File.size Server.handle_handshake SelectiveRepeat.handle_syn syn_payload read_syn Server.turn
    Server.on_data Server.on_first Server.on_silence Server.handle_first Server.handle_init
    protocol_factory_create SelectiveRepeat.handle_handshake
fin_bytes = refl

fin_sent : get_elem? before_fin.client.sent 3 ≡ some (wire runtime.crc32 fin_packet)
fin_sent =
    fin_bytes
    ∙ ap (λ (x : Result Bytes). get_elem? (bytes_of x) 0)
        (to_bytes-wire runtime.crc32 runtime-IsRuntime.crc32-lt fin_packet fin_packet-Fits)

steps-completes_example :
    let after_fin =
      (steps runtime storage storage
        (to_server reading 3 ∷ to_client reading (length (sent_by before_fin.thread.session)) ∷ [])
        before_fin).1 in
    (is_closed after_fin.client.file_handler ≡ true)
    × (is_closed (handler_of after_fin.thread.session) ≡ true)
    × (Dict.lookup (storage name) (handler_of after_fin.thread.session).disk ≡ some file)
steps-completes_example =
    steps-completes runtime storage storage reading reading reading name name file disk []
      first_moves runtime-IsRuntime (omega arith) there visible short first_quiet reading reading 3
      fin_packet fin_sent refl fin_packet-Fits

steps-finishes_example :
    (more : List Move) × All
      (IsNew (length before_fin.client.sent) (length (sent_by before_fin.thread.session)))
      more
    × (are_quiet runtime storage storage more before_fin ≡ true)
    × let end = (steps runtime storage storage more before_fin).1 in
      (is_closed end.client.file_handler ≡ true)
      × (is_closed (handler_of end.thread.session) ≡ true)
      × (Dict.lookup (storage name) (handler_of end.thread.session).disk ≡ some file)
steps-finishes_example =
    steps-finishes runtime storage storage reading reading reading name name file disk []
      first_moves runtime-IsRuntime (omega arith) there visible short first_quiet

-- The third datagram of the client, which is its packet.
abbrev some_bytes : Option Bytes → Bytes
some_bytes none = []
some_bytes (some raw) = raw

abbrev data_bytes : Bytes
data_bytes = some_bytes (get_elem? before_fin.client.sent 2)

data_sent : get_elem? before_fin.client.sent 2 ≡ some data_bytes
unfolding steps step client_hears server_hears are_quiet Client.first_turn Client.turn
    Client.handle_datagram Client.handle_if Client.handle_event Client.handle_syn_ack
    Client.handle_ack Client.finish Client.handle_close_fin Server.handle_datagram Server.handle_if
    Server.handle_event Server.handle_close send send_all write_data push_block handle_data resend
    File.open_for_read File.open_for_write File.create_file File.read File.write text_eq ℕ_discrete
    Dict.lookup Dict.insert Dict.erase Dict.contains SelectiveRepeat.compose SelectiveRepeat.offsets
    SelectiveRepeat.push_loop SelectiveRepeat.push_payload SelectiveRepeat.timedout_loop
    SelectiveRepeat.get_timedouts SelectiveRepeat.fin SelectiveRepeat.fin_ack SelectiveRepeat.ack
    SelectiveRepeat.syn_ack_to_bytes SelectiveRepeat.handle_ack SelectiveRepeat.slide
    SelectiveRepeat.handle_data SelectiveRepeat.deliver SelectiveRepeat.dispatch
    SelectiveRepeat.handle_packet flatten pack unpack compose_info_field parse_info_bytes to_bytes
    compare_checksum from_bytes Client.connect_upload Client.open_connection SelectiveRepeat.syn
    File.size Server.handle_handshake SelectiveRepeat.handle_syn syn_payload read_syn Server.turn
    Server.on_data Server.on_first Server.on_silence Server.handle_first Server.handle_init
    protocol_factory_create SelectiveRepeat.handle_handshake
data_sent = refl

data_other : is_opening runtime data_bytes ≡ false
unfolding steps step client_hears server_hears are_quiet Client.first_turn Client.turn
    Client.handle_datagram Client.handle_if Client.handle_event Client.handle_syn_ack
    Client.handle_ack Client.finish Client.handle_close_fin Server.handle_datagram Server.handle_if
    Server.handle_event Server.handle_close send send_all write_data push_block handle_data resend
    File.open_for_read File.open_for_write File.create_file File.read File.write text_eq ℕ_discrete
    Dict.lookup Dict.insert Dict.erase Dict.contains SelectiveRepeat.compose SelectiveRepeat.offsets
    SelectiveRepeat.push_loop SelectiveRepeat.push_payload SelectiveRepeat.timedout_loop
    SelectiveRepeat.get_timedouts SelectiveRepeat.fin SelectiveRepeat.fin_ack SelectiveRepeat.ack
    SelectiveRepeat.syn_ack_to_bytes SelectiveRepeat.handle_ack SelectiveRepeat.slide
    SelectiveRepeat.handle_data SelectiveRepeat.deliver SelectiveRepeat.dispatch
    SelectiveRepeat.handle_packet flatten pack unpack compose_info_field parse_info_bytes to_bytes
    compare_checksum from_bytes Client.connect_upload Client.open_connection SelectiveRepeat.syn
    File.size Server.handle_handshake SelectiveRepeat.handle_syn syn_payload read_syn Server.turn
    Server.on_data Server.on_first Server.on_silence Server.handle_first Server.handle_init
    protocol_factory_create SelectiveRepeat.handle_handshake
data_other = refl

turn-running_example :
    (e : Endpoint) × (before_fin.thread.session ≡ connected e)
    × (Server.turn runtime storage true reading
          (some data_bytes)
          (record before_fin.thread { inactivity = 500 })
        ≡ (
          running,
          record {
            session =
                connected (Server.handle_datagram runtime storage true reading data_bytes e).1;
            inactivity = 0;
          },
        ))
turn-running_example =
    turn-running runtime storage storage reading reading reading name name file disk [] first_moves
      runtime-IsRuntime (omega arith) there visible short first_quiet reading 2 500 data_bytes
      data_sent data_other
