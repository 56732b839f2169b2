-- ===== src/Upload/Moves.antt =====
-- Every move, and every run, keeps an upload right.
use fiuba_redes.Client
use fiuba_redes.Common.{
  ◌^◌, ◌<◌, inl, inr, refl, sym, Bool-cases, Option-cases, true, List, [], ◌∷◌, length, get_elem?,
  nat_eq,
}
use fiuba_redes.Endpoint.{resend}
use fiuba_redes.File.{FileHandler, text_eq}
use fiuba_redes.Method.{Ensures, Ensures-after}
use fiuba_redes.Packet.{Bytes}
use fiuba_redes.Runtime.{Text, Runtime, IsRuntime}
use fiuba_redes.SelectiveRepeat.{SelectiveRepeat}
use fiuba_redes.SelectiveRepeat.Receiver.{IsStored}
use fiuba_redes.Server
use fiuba_redes.Upload.{
  System, Move, to_client, client_waits, to_server, server_waits, is_opening, move, run,
}
use fiuba_redes.Upload.Traffic.{FromClient, FromServer}
use fiuba_redes.Upload.Events.{resend-Uploading}
use fiuba_redes.Upload.Responses.{turn-Uploading}
use fiuba_redes.Upload.Storing.{IsDone, Stores}
use fiuba_redes.Upload.Arrivals.{handle_datagram-Storing, resend-Storing}
use fiuba_redes.Upload.Uploading.{at}
use mathlib.Core.Path.{subst}
use fiuba_redes.Upload.Steps.{
  IsRight, Up, client_turn-IsRight, elem-All, on_server-IsRight, seq_num-lt,
}

module _ (r : Runtime) (lib : IsRuntime r) (content : Bytes) (path target : Text)
    (join join' : Text → Text) (bounded : length content < 2 ^ 30) where
  -- Every move from a state that is right, written out.
  move_at :
      (m : Move) (p : SelectiveRepeat) (h : FileHandler) (sent : List Bytes) (q : SelectiveRepeat)
      (h' : FileHandler) (sent' : List Bytes)
      → Up r lib content path target join join' bounded q h' p h sent
      → Stores r content target p.seq_num q h' sent'
      → Ensures
          (λ _ s. IsRight r lib content path target join join' bounded s)
          (move r join join' m (record { client = at p h sent; server = at q h' sent' }))
  unfolding move Client.turn
  move_at (to_client t n) p h sent q h' sent' u s = elim (Option-cases (get_elem? sent' n)) [
    | inl e ↦ rw e (record {
      p = p;
      h = h;
      sent = sent;
      q = q;
      h' = h';
      sent' = sent';
      same = refl;
      uploads = u;
      stores = s;
    })
    | inr (raw, e) ↦ rw e (
        client_turn-IsRight r lib content path target join join' bounded (Client.datagram t raw) p h
          sent q h' sent' u s
          (λ pos offers read.
            turn-Uploading r lib content path (λ k. IsStored k q) (IsDone content target q h')
              bounded t pos raw p h sent u offers read
              (elem-All
                (FromServer r content (λ k. IsStored k q) (IsDone content target q h') p.seq_num)
                sent' n raw s.datagrams e)))
  ]
  move_at (client_waits t) p h sent q h' sent' u s =
      client_turn-IsRight r lib content path target join join' bounded (Client.silence t) p h sent q
        h' sent' u s
        (λ pos offers read.
          resend-Uploading r lib content path (λ k. IsStored k q) (IsDone content target q h')
            bounded t p h sent u)
  move_at (to_server t n) p h sent q h' sent' u s = elim (Option-cases (get_elem? sent n)) [
    | inl e ↦ rw e (record {
      p = p;
      h = h;
      sent = sent;
      q = q;
      h' = h';
      sent' = sent';
      same = refl;
      uploads = u;
      stores = s;
    })
    | inr (raw, e) ↦ elim (Bool-cases (is_opening r raw)) [
      | inl opening ↦
          rw (e, opening)
            (record {
              p = p;
              h = h;
              sent = sent;
              q = q;
              h' = h';
              sent' = sent';
              same = refl;
              uploads = u;
              stores = s;
            })
      | inr other ↦
          let small = seq_num-lt r lib content path target join join' bounded p u.phase in
          rw (e, other)
            (on_server-IsRight r lib content path target join join' bounded p h sent q h' sent'
              (Server.handle_datagram r join' true t raw) small u
              (handle_datagram-Storing r lib content target p.seq_num small join' t q h' sent' s raw
                (elem-All (FromClient r content (λ k. IsStored k q) p.seq_num) sent n raw
                  u.datagrams e)
                other))
    ]
  ]
  move_at (server_waits t) p h sent q h' sent' u s =
      let small = seq_num-lt r lib content path target join join' bounded p u.phase in
      on_server-IsRight r lib content path target join join' bounded p h sent q h' sent'
        (resend r t) small u
        (resend-Storing r lib content target p.seq_num small join' t q h' sent' s)

  pub move-IsRight :
      (m : Move) (s : System)
      → IsRight r lib content path target join join' bounded s
      → Ensures
          (λ _ s'. IsRight r lib content path target join join' bounded s')
          (move r join join' m s)
  move-IsRight m s inv =
      subst
        (λ (x : System).
          Ensures (λ _ s'. IsRight r lib content path target join join' bounded s')
            (move r join join' m x))
        (sym inv.same)
        (move_at m inv.p inv.h inv.sent inv.q inv.h' inv.sent' inv.uploads inv.stores)

  pub run-IsRight :
      (ms : List Move) (s : System)
      → IsRight r lib content path target join join' bounded s
      → Ensures
          (λ _ s'. IsRight r lib content path target join join' bounded s')
          (run r join join' ms s)
  unfolding run
  run-IsRight [] s inv = inv
  run-IsRight (m ∷ ms) s inv =
      Ensures-after (λ _ s'. IsRight r lib content path target join join' bounded s')
        (λ _ s'. IsRight r lib content path target join join' bounded s') (λ _. run r join join' ms)
        (move r join join' m s) (move-IsRight m s inv) (λ _ s' right. run-IsRight ms s' right)
