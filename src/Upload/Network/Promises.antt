-- ===== src/Upload/Network/Promises.antt =====
-- What an upload over the network promises: no exception, the thread goes on, and the file is right.
use fiuba_redes.Common.{
  ℕ, ◌^◌, ◌<◌, ◌≡◌, ◌≢◌, refl, sym, ap, ◌∙◌, some, true, List, ◌++◌, length, All, nat_eq,
}
use fiuba_redes.Common.Dict
use fiuba_redes.Common.Dict.{Dict}
use fiuba_redes.Endpoint.{Readings}
use fiuba_redes.Exceptions.{Result, ok}
use fiuba_redes.File.{text_eq, is_closed}
use fiuba_redes.Handshake.{syn_payload}
use fiuba_redes.Packet.{Bytes}
use fiuba_redes.Runtime.{Text, Runtime, IsRuntime}
use fiuba_redes.Server.{running}
use fiuba_redes.Upload.{System, Move, to_client, move, run, start}
use fiuba_redes.Upload.Liveness.{IsBusy, syn_ack-IsBusy, run-IsBusy}
use fiuba_redes.Upload.Moves.{move-IsRight}
use fiuba_redes.Upload.Network.{Network, steps, opening, fresh, established, are_quiet, handler_of}
use fiuba_redes.Upload.Network.Opening.{opening_lem}
use fiuba_redes.Upload.Network.Simulation.{net, steps-run}
use fiuba_redes.Upload.Safety.{ok_of_Ensures, IsRight-stored, IsRight-prefix}
use fiuba_redes.Upload.Start.{start-IsRight, connect_upload_lem}
use fiuba_redes.Upload.Steps.{IsRight}

module _ (r : Runtime) (join join' : Text → Text) (t t' t'' : Readings) (path name : Text)
    (content : Bytes) (disk disk' : Dict Text Bytes) (lib : IsRuntime r)
    (bounded : length content < 2 ^ 30) (there : Dict.lookup (join path) disk ≡ some content)
    (visible : All (λ c. c ≢ 0) name)
    (short : length (syn_payload r name (length content)) < 2 ^ 27) where
  abbrev pub Right : System → Type 0
  Right = IsRight r lib content (join path) (join' name) join join' bounded

  -- The two ends after the client's first turn.
  starts : Right (start r join join' path disk name disk')
  starts = start-IsRight r lib join join' path name content disk disk' bounded there visible short

  first_turn :
      let (result, s) =
        move r join join' (to_client t' 0) (start r join join' path disk name disk') in
      (result ≡ ok tt) × Right s
  first_turn =
      ok_of_Ensures Right
        (move r join join' (to_client t' 0) (start r join join' path disk name disk'))
        (move-IsRight r lib content (join path) (join' name) join join' bounded (to_client t' 0)
          (start r join join' path disk name disk') starts)

  opens :
      (s : System) × (steps r join join'
          (opening t t' t'')
          (fresh r join join' path disk name disk')
        ≡ (ok tt, net s 0))
      × Right s
      × IsBusy s
  opens = (
    (move r join join' (to_client t' 0) (start r join join' path disk name disk')).1,
    opening_lem r lib join join' path name content disk disk' bounded there visible short t t' t''
        first_turn.0,
    first_turn.1,
    syn_ack-IsBusy r lib content (join path) (join' name) join join' bounded t'
        (start r join join' path disk name disk') starts
        (rw (connect_upload_lem r join path name content disk lib there short) refl),
  )

  module _ (ms : List Move)
      (quiet : are_quiet r join join' ms (established r join join' t t' t'' path disk name disk')
        ≡ true) where
    -- Every state that the network comes to.
    pub reached :
        (s : System) × (i : ℕ) × (steps r join join' ms
            (established r join join' t t' t'' path disk name disk')
          ≡ (ok tt, net s i))
        × Right s
        × IsBusy s
    reached =
        let (s0, e, right, busy) = opens in
        let e1 : established r join join' t t' t'' path disk name disk' ≡ net s0 0 =
          ap (λ (x : Result (Unit {0}) × Network). x.1) e in
        let (i, e2, right') =
          steps-run r lib content (join path) (join' name) join join' bounded ms s0 0 right
            (ap (are_quiet r join join' ms) (sym e1) ∙ quiet) in
        (
          (run r join join' ms s0).1,
          i,
          ap (steps r join join' ms) e1 ∙ e2,
          right',
          run-IsBusy r lib content (join path) (join' name) join join' bounded ms s0 right busy,
        )

    -- In an upload by selective repeat of a file below 2^30 bytes that the client's disk has,
    -- under a name without zeros whose SYN fits its length field, once the SYN, its answer and
    -- the ACK of the connection have arrived in turn, and after moves that give the server no
    -- further ACK of the connection and do not let its thread's inactivity reach 60 s, but may
    -- lose, repeat and reorder all other datagrams: no move, and nothing in the opening, raises
    -- an exception in the client, and the server's thread is running: it has raised nothing and
    -- broken off nowhere.
    pub steps-ok :
        let s = established r join join' t t' t'' path disk name disk' in
        ((steps r join join' (opening t t' t'') (fresh r join join' path disk name disk')).0
          ≡ ok tt)
        × ((steps r join join' ms s).0 ≡ ok tt)
        × ((steps r join join' ms s).1.ending ≡ running)
    steps-ok = (
      ap (λ (x : Result (Unit {0}) × Network). x.0) opens.1,
      ap (λ (x : Result (Unit {0}) × Network). x.0) reached.2,
      ap (λ (x : Result (Unit {0}) × Network). x.1.ending) reached.2,
    )

    -- In an upload by selective repeat of a file below 2^30 bytes that the client's disk has,
    -- under a name without zeros whose SYN fits its length field, once the SYN, its answer and
    -- the ACK of the connection have arrived in turn, and after moves that give the server no
    -- further ACK of the connection and do not let its thread's inactivity reach 60 s, but may
    -- lose, repeat and reorder all other datagrams: whenever the client has closed its file,
    -- which ends its loop, the server's file is closed too and holds exactly the bytes of the
    -- client's.
    pub steps-stored :
        let s =
          (steps r join join' ms (established r join join' t t' t'' path disk name disk')).1 in
        is_closed s.client.file_handler ≡ true
        → (is_closed (handler_of s.thread.session) ≡ true)
          × (Dict.lookup (join' name) (handler_of s.thread.session).disk ≡ some content)
    steps-stored closed =
        let (s, i, e, right, busy) = reached in
        let at_end = ap (λ (x : Result (Unit {0}) × Network). x.1) e in
        let (shut, stored) =
          IsRight-stored r lib join join' (join path) (join' name) content bounded s right
            (ap (λ (x : Network). is_closed x.client.file_handler) (sym at_end) ∙ closed) in
        (
          ap (λ (x : Network). is_closed (handler_of x.thread.session)) at_end ∙ shut,
          ap (λ (x : Network). Dict.lookup (join' name) (handler_of x.thread.session).disk) at_end
              ∙ stored,
        )

    -- In an upload by selective repeat of a file below 2^30 bytes that the client's disk has,
    -- under a name without zeros whose SYN fits its length field, once the SYN, its answer and
    -- the ACK of the connection have arrived in turn, and after moves that give the server no
    -- further ACK of the connection and do not let its thread's inactivity reach 60 s, but may
    -- lose, repeat and reorder all other datagrams: the server's file holds the first bytes of
    -- the client's.
    pub steps-prefix :
        let s =
          (steps r join join' ms (established r join join' t t' t'' path disk name disk')).1 in
        (b : Bytes) × (rest : Bytes) × (Dict.lookup (join' name) (handler_of s.thread.session).disk
          ≡ some b)
        × (b ++ rest ≡ content)
    steps-prefix =
        let (s, i, e, right, busy) = reached in
        let at_end = ap (λ (x : Result (Unit {0}) × Network). x.1) e in
        let (b, rest, stored, whole) =
          IsRight-prefix r lib join join' (join path) (join' name) content bounded s right in
        (
          b,
          rest,
          ap (λ (x : Network). Dict.lookup (join' name) (handler_of x.thread.session).disk) at_end
              ∙ stored,
          whole,
        )
