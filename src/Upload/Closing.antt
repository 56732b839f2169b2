-- ===== src/Upload/Closing.antt =====
-- The end of an upload: once the FIN was sent, its delivery and that of the answer complete it.
use fiuba_redes.Client
use fiuba_redes.Common.{
  ℕ, ◌^◌, ◌<◌, ◌≡◌, refl, sym, ap, ◌∙◌, arith, Bool-cases, some, true, false, inl, inr, List, [],
  ◌∷◌, ◌++◌, length, get_elem?, nat_eq,
}
use fiuba_redes.Constants.{type_close}
use fiuba_redes.Endpoint.{Readings, send}
use fiuba_redes.Exceptions.{ok}
use fiuba_redes.File.{FileHandler, text_eq, is_closed}
use fiuba_redes.File
use fiuba_redes.Packet.{Packet, Bytes}
use fiuba_redes.Packet.Header.{Fits}
use fiuba_redes.Packet.RoundTrip.{wire, to_bytes-wire, from_bytes-wire}
use fiuba_redes.Runtime.{Text, Runtime, IsRuntime}
use fiuba_redes.SelectiveRepeat.{SelectiveRepeat, fin_ack}
use fiuba_redes.SelectiveRepeat.Datagrams.{handle_packet-close, handle_packet-close_ack}
use fiuba_redes.Server
use fiuba_redes.Upload.{System, Move, to_client, to_server, is_opening, client_turn, move, run}
use fiuba_redes.Upload.Steps.{IsRight}
use fiuba_redes.Upload.Storing.{fin_ack_packet, fin_ack_packet-Fits}
use fiuba_redes.Upload.Uploading.{at}
use mathlib.Core.Path.{subst}

pub elem-append_last {ℓ} :
    {A : Type ℓ} (xs : List A) (x : A) → get_elem? (xs ++ (x ∷ [])) (length xs) ≡ some x
elem-append_last [] x = refl
elem-append_last (y ∷ ys) x = elem-append_last ys x

pub not_opening :
    (r : Runtime) (pkt : Packet)
    → IsRuntime r
    → pkt.pkt_type ≡ type_close
    → Fits pkt
    → is_opening r (wire r.crc32 pkt) ≡ false
not_opening r pkt lib kind fits = ground (arith, from_bytes-wire r.crc32 lib.crc32-lt pkt fits)

module _ (r : Runtime) (lib : IsRuntime r) (join join' : Text → Text) (p : SelectiveRepeat)
    (h : FileHandler) (sent : List Bytes) (q : SelectiveRepeat) (h' : FileHandler) where
  -- The server gets the FIN.
  fin_arrives :
      (t : Readings) (n : ℕ) (pkt : Packet) (sent' : List Bytes)
      → get_elem? sent n ≡ some (wire r.crc32 pkt)
      → pkt.pkt_type ≡ type_close
      → Fits pkt
      → Fits (fin_ack_packet q)
      → move r join join' (to_server t n) (record { client = at p h sent; server = at q h' sent' })
        ≡ (
          ok tt,
          record {
            client = at p h sent;
            server = at q (File.close h') (sent' ++ (wire r.crc32 (fin_ack_packet q) ∷ []));
          },
        )
  unfolding move Server.handle_datagram Server.handle_if Server.handle_event Server.handle_close
      send fin_ack
  fin_arrives t n pkt sent' there kind fits fine =
      rw
        (
          there,
          not_opening r pkt lib kind fits,
          handle_packet-close r lib pkt q kind fits,
          to_bytes-wire r.crc32 lib.crc32-lt (fin_ack_packet q) fine,
        )
        refl

  -- The client gets the answer.
  answer_arrives :
      (t : Readings) (m : ℕ) (sent' : List Bytes)
      → get_elem? sent' m ≡ some (wire r.crc32 (fin_ack_packet q))
      → Fits (fin_ack_packet q)
      → (h2 : FileHandler) × (move r join join'
            (to_client t m)
            (record { client = at p h sent; server = at q h' sent' })
          ≡ (ok tt, record { client = at p h2 sent; server = at q h' sent' }))
        × (is_closed h2 ≡ true)
  unfolding move client_turn Client.turn Client.handle_datagram Client.handle_if Client.handle_event
      Client.handle_close_fin
  answer_arrives t m sent' there fine = elim (Bool-cases (is_closed h)) [
    | inl closed ↦ (h, rw (there, closed) refl, closed)
    | inr open_file ↦ (
      File.close h,
      rw (there, open_file, handle_packet-close_ack r lib (fin_ack_packet q) p refl fine) refl,
      refl,
    )
  ]

pub both_arrive :
    (r : Runtime) (lib : IsRuntime r) (join join' : Text → Text) (p : SelectiveRepeat)
    (h : FileHandler) (sent : List Bytes) (q : SelectiveRepeat) (h' : FileHandler) (t t' : Readings)
    (n : ℕ) (pkt : Packet) (sent' : List Bytes)
    → get_elem? sent n ≡ some (wire r.crc32 pkt)
    → pkt.pkt_type ≡ type_close
    → Fits pkt
    → Fits (fin_ack_packet q)
    → is_closed
        (run r join join'
          (to_server t n ∷ to_client t' (length sent') ∷ [])
          (record { client = at p h sent; server = at q h' sent' })).1.client.file_handler
      ≡ true
unfolding run
both_arrive r lib join join' p h sent q h' t t' n pkt sent' there kind fits fine =
    let raw = wire r.crc32 (fin_ack_packet q) in
    let (h2, e, closed) =
      answer_arrives r lib join join' p h sent q (File.close h') t' (length sent')
        (sent' ++ (raw ∷ [])) (elem-append_last sent' raw) fine in
    rw (fin_arrives r lib join join' p h sent q h' t n pkt sent' there kind fits fine, e) closed

module _ (r : Runtime) (lib : IsRuntime r) (content : Bytes) (path target : Text)
    (join join' : Text → Text) (bounded : length content < 2 ^ 30) (t t' : Readings) (n : ℕ)
    (pkt : Packet) (kind : pkt.pkt_type ≡ type_close) (fits : Fits pkt) where
  abbrev ending : System → List Move
  ending s = to_server t n ∷ to_client t' (length s.server.sent) ∷ []

  pub IsRight-ending :
      (s : System)
      → IsRight r lib content path target join join' bounded s
      → get_elem? s.client.sent n ≡ some (wire r.crc32 pkt)
      → is_closed (run r join join' (ending s) s).1.client.file_handler ≡ true
  IsRight-ending s right there =
      subst (λ (x : System). is_closed (run r join join' (ending x) x).1.client.file_handler ≡ true)
        (sym right.same)
        (both_arrive r lib join join' right.p right.h right.sent right.q right.h' t t' n pkt
          right.sent' (ap (λ (x : System). get_elem? x.client.sent n) (sym right.same) ∙ there) kind
          fits (fin_ack_packet-Fits right.q right.stores.op_type right.stores.protocol))
