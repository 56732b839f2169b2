-- ===== src/Upload/Network/Opening.antt =====
-- The connection is opened: the SYN, its answer and the ACK of the connection arrive in turn.
use fiuba_redes.Client
use fiuba_redes.Common.{
  ℕ, ℕ_discrete, ◌^◌, ◌<◌, ◌≡◌, ◌≢◌, refl, sym, ap, ◌∙◌, arith, true, false, none, some, List, [],
  ◌∷◌, ◌++◌, length, All, get_elem?, nat_eq, ltb,
}
use fiuba_redes.Common.Dict
use fiuba_redes.Common.Dict.{Dict}
use fiuba_redes.Constants.{op_type_upload, max_file_size}
use fiuba_redes.Endpoint.{Endpoint, Readings, send}
use fiuba_redes.Event.{handshake}
use fiuba_redes.Exceptions.{Result, ok}
use fiuba_redes.Factory.{selective_repeat, protocol_factory_create}
use fiuba_redes.Factory.Opening.{selective_handshake}
use fiuba_redes.File.{FileHandler, text_eq, create_file, set_filename, open_for_write, is_closed}
use fiuba_redes.File
use fiuba_redes.Handshake.{syn_payload}
use fiuba_redes.Packet.{Bytes, from_bytes}
use fiuba_redes.Packet.RoundTrip.{wire, to_bytes-wire, from_bytes-wire}
use fiuba_redes.Runtime.{Text, Runtime, IsRuntime, pos}
use fiuba_redes.SelectiveRepeat.{SelectiveRepeat, syn_ack_to_bytes, ack}
use fiuba_redes.SelectiveRepeat
use fiuba_redes.SelectiveRepeat.Datagrams.{handle_packet-ack, handle_packet-syn_ack}
use fiuba_redes.Server
use fiuba_redes.Server.{Session, Thread, Ending, waiting, connected, running}
use fiuba_redes.Server.Faults.{opening_event}
use fiuba_redes.Upload.{System, init, start, move, to_client, to_server, client_turn}
use fiuba_redes.Upload.Events.{ack_packet, ack_packet-Fits}
use fiuba_redes.Upload.Growing.{Grows, handle_ack-Grows}
use fiuba_redes.Upload.Network.{Network, opening, fresh, steps, step, client_hears, server_hears}
use fiuba_redes.Upload.Network.Simulation.{net}
use fiuba_redes.Upload.Requests.{syn_ack_packet, syn_ack_packet-Fits}
use fiuba_redes.Upload.Start.{syn_packet, syn_packet-Fits, opened, connect_upload_lem}
use fiuba_redes.Upload.Uploading.{at}

abbrev pub answer : Runtime → List Bytes
answer r = wire r.crc32 (syn_ack_packet init) ∷ []

abbrev pub named : Text → Dict Text Bytes → FileHandler
named name disk' = (set_filename name (File.init disk')).1

abbrev pub created : (Text → Text) → Text → Dict Text Bytes → FileHandler
created join' name disk' = (create_file join' none (named name disk')).1

module _ (r : Runtime) (lib : IsRuntime r) (join' : Text → Text) (name : Text) (content : Bytes)
    (disk' : Dict Text Bytes) (bounded : length content < 2 ^ 30) (visible : All (λ c. c ≢ 0) name)
    (short : length (syn_payload r name (length content)) < 2 ^ 27) where
  abbrev syn_bytes : Bytes
  syn_bytes = wire r.crc32 (syn_packet r name (length content))

  read : from_bytes r.crc32 syn_bytes ≡ ok (syn_packet r name (length content))
  read =
      from_bytes-wire r.crc32 lib.crc32-lt (syn_packet r name (length content))
        (syn_packet-Fits r name (length content) short)

  chosen : protocol_factory_create r syn_bytes ≡ ok (selective_repeat init)
  unfolding protocol_factory_create ℕ_discrete
  chosen = rw read refl

  shaken :
      SelectiveRepeat.handle_handshake r syn_bytes init
      ≡ (ok (some (handshake name (pos (length content)) op_type_upload)), init)
  shaken =
      let small : ltb max_file_size (length content) ≡ false = ground arith in
      selective_handshake r lib name (length content) op_type_upload visible syn_bytes read
      ∙ rw small refl

  -- The SYN makes the server's protocol object, and is answered.
  first_arrives :
      (t : Readings)
      → Server.on_first r join' true t (File.init disk') syn_bytes
        ≡ (running, connected (at init (named name disk') (answer r)))
  unfolding Server.on_first Server.handle_first Server.handle_if Server.handle_event
      Server.handle_handshake syn_ack_to_bytes send
  first_arrives t =
      let answer_fits = syn_ack_packet-Fits init (omega arith) (omega arith) in
      rw
        (
          chosen,
          Server.on_first,
          shaken,
          to_bytes-wire r.crc32 lib.crc32-lt (syn_ack_packet init) answer_fits,
        )
        refl

  syn_arrives :
      (t : Readings)
      → Server.turn r join' true t
          (some syn_bytes)
          (record { session = waiting (File.init disk'); inactivity = 0 })
        ≡ (
          running,
          record { session = connected (at init (named name disk') (answer r)); inactivity = 0 },
        )
  unfolding Server.turn Server.on_data
  syn_arrives t =
      ap (λ (x : Ending × Session). (x.0, record { session = x.1; inactivity = 0 }))
        (first_arrives t)

-- The ACK of the connection makes the server create the file.
ack_arrives :
    (r : Runtime) (lib : IsRuntime r) (join' : Text → Text) (name : Text) (disk' : Dict Text Bytes)
    (t : Readings) (i : ℕ)
    → Server.turn r join' true t
        (some (wire r.crc32 (ack_packet init 0)))
        (record { session = connected (at init (named name disk') (answer r)); inactivity = i })
      ≡ (
        running,
        record {
          session = connected (at init (created join' name disk') (answer r));
          inactivity = 0;
        },
      )
unfolding Server.turn Server.on_data Server.handle_datagram Server.handle_if Server.handle_event
    Server.handle_init create_file open_for_write ℕ_discrete
ack_arrives r lib join' name disk' t i =
    let pkt = ack_packet init 0 in
    let fits = ack_packet-Fits init 0 (omega arith) (omega arith) (omega arith) in
    rw (handle_packet-ack r lib pkt init refl fits, opening_event pkt init refl (omega arith)) refl

-- The client's ACK is the first thing that it sends after the answer.
second_sent :
    (x : Bytes) (y : Bytes) (e : Endpoint)
    → Grows ((x ∷ []) ++ (y ∷ [])) e
    → get_elem? e.sent 1 ≡ some y
second_sent x y e (more, same) = ap (λ (sent : List Bytes). get_elem? sent 1) same

acknowledged :
    (r : Runtime) (lib : IsRuntime r) (t : Readings) (h : FileHandler) (raw : Bytes)
    → get_elem?
        (Client.handle_datagram r op_type_upload t
          (wire r.crc32 (syn_ack_packet init))
          (at init h (raw ∷ []))).1.sent
        1
      ≡ some (wire r.crc32 (ack_packet init 0))
unfolding Client.handle_datagram Client.handle_if Client.handle_event Client.handle_syn_ack send ack
    ℕ_discrete
acknowledged r lib t h raw =
    let answer_fits = syn_ack_packet-Fits init (omega arith) (omega arith) in
    let fits = ack_packet-Fits init 0 (omega arith) (omega arith) (omega arith) in
    rw
      (
        handle_packet-syn_ack r lib (syn_ack_packet init) init refl answer_fits,
        to_bytes-wire r.crc32 lib.crc32-lt (ack_packet init 0) fits,
      )
      (second_sent raw _
        (Client.handle_ack r t init.window_size
          (at init h ((raw ∷ []) ++ (wire r.crc32 (ack_packet init 0) ∷ [])))).1
        (handle_ack-Grows r t init.window_size
          (at init h ((raw ∷ []) ++ (wire r.crc32 (ack_packet init 0) ∷ [])))))

module _ (r : Runtime) (lib : IsRuntime r) (join join' : Text → Text) (path name : Text)
    (content : Bytes) (disk disk' : Dict Text Bytes) (bounded : length content < 2 ^ 30)
    (there : Dict.lookup (join path) disk ≡ some content) (visible : All (λ c. c ≢ 0) name)
    (short : length (syn_payload r name (length content)) < 2 ^ 27) (t t' t'' : Readings) where
  abbrev reply : Result (Unit {0}) × Endpoint
  reply = Client.handle_datagram r op_type_upload t' (wire r.crc32 (syn_ack_packet init)) (
      at init (opened join path (File.init disk))
        (wire r.crc32 (syn_packet r name (length content)) ∷ []))

  start_lem : start r join join' path disk name disk' ≡ record {
    client =
        at init
          (opened join path (File.init disk))
          (wire r.crc32 (syn_packet r name (length content)) ∷ []);
    server = at init (created join' name disk') (answer r);
  }
  unfolding syn_ack_to_bytes
  start_lem =
      let answer_fits = syn_ack_packet-Fits init (omega arith) (omega arith) in
      rw
        (
          connect_upload_lem r join path name content disk lib there short,
          to_bytes-wire r.crc32 lib.crc32-lt (syn_ack_packet init) answer_fits,
        )
        refl

  replied : move r join join' (to_client t' 0) (start r join join' path disk name disk') ≡ (
    reply.0,
    record { client = reply.1; server = at init (created join' name disk') (answer r) },
  )
  unfolding move client_turn Client.turn
  replied = rw start_lem refl

  abbrev waits_for : Network
  waits_for = record {
    client =
        at init (opened join path (File.init disk))
          (wire r.crc32 (syn_packet r name (length content)) ∷ []);
    responded = false;
    thread = record { session = connected (at init (named name disk') (answer r)); inactivity = 0 };
    ending = running;
  }

  abbrev responds : Network
  responds = record waits_for { client = reply.1; responded = true }

  first_step :
      step r join join' (to_server t 0) (fresh r join join' path disk name disk')
      ≡ (ok tt, waits_for)
  unfolding step server_hears
  first_step = rw (connect_upload_lem r join path name content disk lib there short) (
      ap (λ (x : Ending × Thread). (ok tt, record waits_for { thread = x.1; ending = x.0 }))
        (syn_arrives r lib join' name content disk' bounded visible short t))

  second_step : step r join join' (to_client t' 0) waits_for ≡ (reply.0, responds)
  unfolding step client_hears Client.first_turn
  second_step = refl

  third_step : step r join join' (to_server t'' 1) responds ≡ (
    ok tt,
    net (record { client = reply.1; server = at init (created join' name disk') (answer r) }) 0,
  )
  unfolding step server_hears
  third_step =
      rw
        (
          acknowledged r lib t' (opened join path (File.init disk))
              (wire r.crc32 (syn_packet r name (length content))),
          step,
        )
        (ap (λ (x : Ending × Thread). (ok tt, record responds { thread = x.1; ending = x.0 }))
          (ack_arrives r lib join' name disk' t'' 0))

  -- The opening brings the network to the two ends after the client's first turn.
  pub opening_lem :
      (move r join join' (to_client t' 0) (start r join join' path disk name disk')).0 ≡ ok tt
      → steps r join join' (opening t t' t'') (fresh r join join' path disk name disk') ≡ (
        ok tt,
        net (move r join join' (to_client t' 0) (start r join join' path disk name disk')).1 0,
      )
  unfolding steps
  opening_lem fine =
      let done : reply.0 ≡ ok tt =
        sym (ap (λ (x : Result (Unit {0}) × System). x.0) replied) ∙ fine in
      rw (first_step, second_step, done, third_step)
        (ap (λ (x : Result (Unit {0}) × System). (ok tt, net x.1 0)) (sym replied))
