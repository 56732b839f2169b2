-- ===== src/Upload/Liveness.antt =====
-- An upload always has a packet in flight, and can be completed by datagrams that are sent from then on.
use fiuba_redes.Common.{
  ◌+◌, ◌^◌, ◌<◌, ◌≡◌, inl, inr, sym, ap, ◌∙◌, arith, Bool-cases, Option-cases, false, List, [], ◌∷◌,
  length, get_elem?, nat_eq,
}
use fiuba_redes.Endpoint.{Readings}
use fiuba_redes.Exceptions.{Result}
use fiuba_redes.Factory.{AnyProtocol, selective_repeat, stop_and_wait}
use fiuba_redes.File.{FileHandler, is_closed}
use fiuba_redes.Method.{after}
use fiuba_redes.Packet.{Bytes}
use fiuba_redes.Packet.RoundTrip.{wire}
use fiuba_redes.Runtime.{Text, Runtime, IsRuntime}
use fiuba_redes.SelectiveRepeat.{SelectiveRepeat}
use fiuba_redes.SelectiveRepeat.Receiver.{IsStored}
use fiuba_redes.Upload.{
  System, Move, to_client, client_waits, to_server, server_waits, is_opening, init, client_turn,
  move, run,
}
use fiuba_redes.Upload.Completion.{Completes, completes}
use fiuba_redes.Upload.Front.{IsWaiting}
use fiuba_redes.Upload.Moves.{move-IsRight}
use fiuba_redes.Upload.Progress.{contains-rearmed}
use fiuba_redes.Upload.Responses.{on_syn_ack, turn-Uploading}
use fiuba_redes.Upload.Rounds.{both_ends, InUpload, client_gets, client_waits_lem}
use fiuba_redes.Upload.Safety.{ok_of_Ensures}
use fiuba_redes.Upload.Steps.{IsRight, closed-is_closed, elem-All}
use fiuba_redes.Upload.Storing.{IsDone}
use fiuba_redes.Upload.Traffic.{FromServer}
use fiuba_redes.Upload.Uploading.{Follows, Waits}
use mathlib.Core.Path.{subst}

-- The client of an upload has a packet in flight.
abbrev object_of : AnyProtocol → SelectiveRepeat
object_of (selective_repeat p) = p
object_of (stop_and_wait p) = init

abbrev pub IsBusy : System → Type 0
IsBusy s = IsWaiting (object_of s.client.protocol)

module _ (r : Runtime) (lib : IsRuntime r) (content : Bytes) (path target : Text)
    (join join' : Text → Text) (bounded : length content < 2 ^ 30) where
  abbrev Right : System → Type 0
  Right = IsRight r lib content path target join join' bounded

  -- From then on, some new moves complete the upload.
  pub IsBusy-Completes :
      (s : System)
      → Right s
      → IsBusy s
      → Completes r join join' (length s.client.sent) (length s.server.sent) s
  IsBusy-Completes s right busy =
      subst (λ (x : System). Completes r join join' (length x.client.sent) (length x.server.sent) x)
        (sym right.same)
        (completes r lib content path target join join' bounded (length content + 3) right.p right.h
          right.sent right.q right.h' right.sent' (right.uploads, right.stores)
          (subst (λ (x : System). IsBusy x) right.same busy) (omega arith))

  -- Every move keeps a packet in flight, written out.
  IsBusy-at :
      (m : Move) (p : SelectiveRepeat) (h : FileHandler) (sent : List Bytes) (q : SelectiveRepeat)
      (h' : FileHandler) (sent' : List Bytes)
      → InUpload r lib content path target join join' bounded p h sent q h' sent'
      → IsWaiting p
      → IsBusy (move r join join' m (both_ends p h sent q h' sent')).1
  unfolding move client_turn
  IsBusy-at (to_client t n) p h sent q h' sent' (up, stores) busy =
      elim (Option-cases (get_elem? sent' n)) [
        | inl e ↦ rw (e, move) busy
        | inr (raw, e) ↦ elim up.file [
          | inr (closed, done) ↦ rw (e, move, closed-is_closed h closed) busy
          | inl (pos, offers, read) ↦
              let (p2, h2, sent2, same, right2, follows) =
                client_gets r lib content path target join join' bounded (Follows p sent) t n pos
                  raw p h sent q h' sent' e offers stores (λ p' s rel. rel.0)
                  (turn-Uploading r lib content path (λ k. IsStored k q)
                    (IsDone content target q h') bounded t pos raw p h sent up offers read
                    (elem-All
                      (FromServer r content (λ k. IsStored k q) (IsDone content target q h')
                        p.seq_num)
                      sent' n raw stores.datagrams e)) in
              subst (λ (x : Result (Unit {0}) × System). IsBusy x.1) (sym same) (follows.3 busy)
        ]
      ]
  IsBusy-at (client_waits t) p h sent q h' sent' (up, stores) busy = elim up.file [
    | inr (closed, done) ↦ rw (closed-is_closed h closed) busy
    | inl (pos, offers, read) ↦
        subst (λ (x : Result (Unit {0}) × System). IsBusy x.1)
          (sym (
            client_waits_lem r lib content path target join join' bounded t pos p h sent q h' sent'
              (up, stores) offers))
          (contains-rearmed t.now t.resent p.window p.next_expected ∙ busy)
  ]
  IsBusy-at (server_waits t) p h sent q h' sent' right busy = busy
  IsBusy-at (to_server t n) p h sent q h' sent' right busy =
      elim (Option-cases (get_elem? sent n)) [
        | inl e ↦ rw (e, move) busy
        | inr (raw, e) ↦ elim (Bool-cases (is_opening r raw)) [
          | inl opens ↦ rw (e, move, opens) busy
          | inr other ↦ rw (e, move, other) busy
        ]
      ]

  move-IsBusy : (m : Move) (s : System) → Right s → IsBusy s → IsBusy (move r join join' m s).1
  move-IsBusy m s right busy =
      subst (λ (x : System). IsBusy (move r join join' m x).1) (sym right.same)
        (IsBusy-at m right.p right.h right.sent right.q right.h' right.sent'
          (right.uploads, right.stores) (subst (λ (x : System). IsBusy x) right.same busy))

  pub run-IsBusy :
      (ms : List Move) (s : System) → Right s → IsBusy s → IsBusy (run r join join' ms s).1
  unfolding run
  run-IsBusy [] s right busy = busy
  run-IsBusy (m ∷ ms) s right busy =
      let (fine, right') =
        ok_of_Ensures Right (move r join join' m s)
          (move-IsRight r lib content path target join join' bounded m s right) in
      subst
        (λ (b : Result (Unit {0})).
          IsBusy (after (λ _. run r join join' ms) (b, (move r join join' m s).1)).1)
        (sym fine) (run-IsBusy ms (move r join join' m s).1 right' (move-IsBusy m s right busy))

  -- The SYN_ACK at a client whose file is open: the first packets are in flight.
  syn_ack_at :
      (t : Readings) (p : SelectiveRepeat) (h : FileHandler) (sent : List Bytes)
      (q : SelectiveRepeat) (h' : FileHandler) (sent' : List Bytes)
      → InUpload r lib content path target join join' bounded p h sent q h' sent'
      → is_closed h ≡ false
      → IsBusy (move r join join' (to_client t 0) (both_ends p h sent q h' sent')).1
  syn_ack_at t p h sent q h' sent' (up, stores) open_file =
      let (pkt, there, kind, fits) = stores.opens in
      elim up.file [
        | inr (closed, done) ↦ absurd (ground (arith, closed-is_closed h closed, open_file))
        | inl (pos, offers, read) ↦
            let (p2, h2, sent2, same, right2, (follows, waits)) =
              client_gets r lib content path target join join' bounded (Waits p sent) t 0 pos
                (wire r.crc32 pkt) p h sent q h' sent' there offers stores (λ p' s rel. rel.0.0)
                (on_syn_ack r lib content path (λ k. IsStored k q) (IsDone content target q h')
                  bounded t pos pkt p h sent up offers read kind fits) in
            subst (λ (x : Result (Unit {0}) × System). IsBusy x.1) (sym same) waits
      ]

  pub syn_ack-IsBusy :
      (t : Readings) (s : System)
      → Right s
      → is_closed s.client.file_handler ≡ false
      → IsBusy (move r join join' (to_client t 0) s).1
  syn_ack-IsBusy t s right open_file =
      subst (λ (x : System). IsBusy (move r join join' (to_client t 0) x).1) (sym right.same)
        (syn_ack_at t right.p right.h right.sent right.q right.h' right.sent'
          (right.uploads, right.stores)
          (ap (λ (x : System). is_closed x.client.file_handler) (sym right.same) ∙ open_file))
