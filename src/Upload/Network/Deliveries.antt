-- ===== src/Upload/Network/Deliveries.antt =====
-- Turns of the server's thread in an upload over the network, and the end of the upload.
use fiuba_redes.Common.{
  ℕ, ◌^◌, ◌<◌, ◌≡◌, ◌≢◌, refl, sym, ap, ◌∙◌, true, false, some, List, [], ◌∷◌, length, All,
  get_elem?, nat_eq,
}
use fiuba_redes.Common.Dict
use fiuba_redes.Common.Dict.{Dict}
use fiuba_redes.Constants.{type_close}
use fiuba_redes.Endpoint.{Endpoint, Readings}
use fiuba_redes.Exceptions.{Result}
use fiuba_redes.File.{text_eq, is_closed}
use fiuba_redes.Handshake.{syn_payload}
use fiuba_redes.Packet.{Packet, Bytes}
use fiuba_redes.Packet.Header.{Fits}
use fiuba_redes.Packet.RoundTrip.{wire}
use fiuba_redes.Runtime.{Text, Runtime, IsRuntime}
use fiuba_redes.Server
use fiuba_redes.Server.{connected, running}
use fiuba_redes.Upload.{System, Move, to_client, to_server, is_opening, run}
use fiuba_redes.Upload.Closing.{not_opening, IsRight-ending}
use fiuba_redes.Upload.Network.{
  Network, steps, established, is_quiet, are_quiet, handler_of, sent_by,
}
use fiuba_redes.Upload.Network.Promises.{reached}
use fiuba_redes.Upload.Network.Simulation.{net, steps-run}
use fiuba_redes.Upload.Network.Turns.{IsRight-turn, to_server_lem}
use fiuba_redes.Upload.Safety.{IsRight-stored}
use mathlib.Core.Path.{subst}

-- One delivery to the server and one to the client.
both_quiet :
    (r : Runtime) (join join' : Text → Text) (t u : Readings) (n m : ℕ) (s : Network) (raw : Bytes)
    → get_elem? s.client.sent n ≡ some raw
    → is_opening r raw ≡ false
    → are_quiet r join join' (to_server t n ∷ to_client u m ∷ []) s ≡ true
unfolding are_quiet
both_quiet r join join' t u n m s raw there other = rw (there, is_quiet, other) refl

module _ (r : Runtime) (join join' : Text → Text) (t t' t'' : Readings) (path name : Text)
    (content : Bytes) (disk disk' : Dict Text Bytes) (ms : List Move) (lib : IsRuntime r)
    (bounded : length content < 2 ^ 30) (there : Dict.lookup (join path) disk ≡ some content)
    (visible : All (λ c. c ≢ 0) name)
    (short : length (syn_payload r name (length content)) < 2 ^ 27)
    (quiet : are_quiet r join join' ms (established r join join' t t' t'' path disk name disk')
      ≡ true) where
  abbrev now_at : Network
  now_at = (steps r join join' ms (established r join join' t t' t'' path disk name disk')).1

  -- In an upload by selective repeat of a file below 2^30 bytes that the client's disk has,
  -- under a name without zeros whose SYN fits its length field, once the SYN, its answer and
  -- the ACK of the connection have arrived in turn, and after moves that give the server no
  -- further ACK of the connection and do not let its thread's inactivity reach 60 s, but may
  -- lose, repeat and reorder all other datagrams: a turn of the server's thread on any datagram
  -- that the client has sent, but an ACK of the connection, whatever its inactivity, does not
  -- end the thread, raises nothing, sets its inactivity to 0, and leaves its session as the
  -- handling of the datagram leaves it.
  pub turn-running :
      (u : Readings) (n i : ℕ) (raw : Bytes)
      → let s =
          (steps r join join' ms (established r join join' t t' t'' path disk name disk')).1 in
        get_elem? s.client.sent n ≡ some raw
        → is_opening r raw ≡ false
        → (e : Endpoint) × (s.thread.session ≡ connected e)
          × (Server.turn r join' true u (some raw) (record s.thread { inactivity = i }) ≡ (
            running,
            record {
              session = connected (Server.handle_datagram r join' true u raw e).1;
              inactivity = 0;
            },
          ))
  turn-running u n i raw sent other =
      let (s, j, e, right, busy) =
        reached r join join' t t' t'' path name content disk disk' lib bounded there visible short
          ms quiet in
      let at_end = ap (λ (x : Result (Unit {0}) × Network). x.1) e in
      let has : get_elem? s.client.sent n ≡ some raw =
        ap (λ (x : Network). get_elem? x.client.sent n) (sym at_end) ∙ sent in
      (
        s.server,
        ap (λ (x : Network). x.thread.session) at_end,
        ap
              (λ (x : Network).
                Server.turn r join' true u (some raw) (record x.thread { inactivity = i }))
              at_end
            ∙ (IsRight-turn r lib content (join path) (join' name) join join' bounded u n i raw
                  other s right has
                ∙ ap
                    (λ (x : Result (Unit {0}) × System).
                      (running, record { session = connected x.1.server; inactivity = 0 }))
                    (to_server_lem r join join' u n raw s has other)),
      )

  -- In an upload by selective repeat of a file below 2^30 bytes that the client's disk has,
  -- under a name without zeros whose SYN fits its length field, once the SYN, its answer and
  -- the ACK of the connection have arrived in turn, and after moves that give the server no
  -- further ACK of the connection and do not let its thread's inactivity reach 60 s, but may
  -- lose, repeat and reorder all other datagrams: if a FIN stands among the datagrams that the
  -- client has sent, two deliveries complete the upload: when the server gets that FIN, and
  -- then the client the datagram that the server sends next, the client's file is closed, and
  -- the server's file is closed and holds the bytes of the client's.
  pub steps-completes :
      (u u' : Readings) (n : ℕ) (pkt : Packet)
      → let s =
          (steps r join join' ms (established r join join' t t' t'' path disk name disk')).1 in
        get_elem? s.client.sent n ≡ some (wire r.crc32 pkt)
        → pkt.pkt_type ≡ type_close
        → Fits pkt
        → let s' =
            (steps r join join'
              (to_server u n ∷ to_client u' (length (sent_by s.thread.session)) ∷ [])
              s).1 in
          (is_closed s'.client.file_handler ≡ true)
          × (is_closed (handler_of s'.thread.session) ≡ true)
          × (Dict.lookup (join' name) (handler_of s'.thread.session).disk ≡ some content)
  steps-completes u u' n pkt sent kind fits =
      let (s, j, e, right, busy) =
        reached r join join' t t' t'' path name content disk disk' lib bounded there visible short
          ms quiet in
      let at_end = ap (λ (x : Result (Unit {0}) × Network). x.1) e in
      let has : get_elem? s.client.sent n ≡ some (wire r.crc32 pkt) =
        ap (λ (x : Network). get_elem? x.client.sent n) (sym at_end) ∙ sent in
      let moves : System → List Move =
        λ x. to_server u n ∷ to_client u' (length x.server.sent) ∷ [] in
      let (i, e2, right2) =
        steps-run r lib content (join path) (join' name) join join' bounded (moves s) s j right (
          both_quiet r join join' u u' n (length s.server.sent) (net s j) (wire r.crc32 pkt) has
            (not_opening r pkt lib kind fits)) in
      let closed =
        IsRight-ending r lib content (join path) (join' name) join join' bounded u u' n pkt kind
          fits s right has in
      let (shut, stored) =
        IsRight-stored r lib join join' (join path) (join' name) content bounded
          (run r join join' (moves s) s).1 right2 closed in
      subst
        (λ (x : Network).
          let y =
            (steps r join join'
              (to_server u n ∷ to_client u' (length (sent_by x.thread.session)) ∷ []) x).1 in
          (is_closed y.client.file_handler ≡ true)
          × (is_closed (handler_of y.thread.session) ≡ true)
          × (Dict.lookup (join' name) (handler_of y.thread.session).disk ≡ some content))
        (sym at_end)
        (subst
          (λ (x : Result (Unit {0}) × Network).
            (is_closed x.1.client.file_handler ≡ true)
            × (is_closed (handler_of x.1.thread.session) ≡ true)
            × (Dict.lookup (join' name) (handler_of x.1.thread.session).disk ≡ some content))
          (sym e2) (closed, shut, stored))
