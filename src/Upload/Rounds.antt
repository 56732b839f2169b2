-- ===== src/Upload/Rounds.antt =====
-- One round of an upload: the client's timeout, the packet of `next_expected` at the server, and its
-- ACK at the client, which passes that number.
use fiuba_redes.Client
use fiuba_redes.Common.{
  ℕ, ◌^◌, ◌≤◌, ◌<◌, ◌≡◌, refl, ap, arith, Option, some, Bool, true, false, List, [], ◌∷◌, ◌++◌,
  length, get_elem?, nat_eq,
}
use fiuba_redes.Constants.{op_type_upload, type_data}
use fiuba_redes.Endpoint.{Endpoint, Readings}
use fiuba_redes.Event.{received}
use fiuba_redes.Exceptions.{Result, ok, raise}
use fiuba_redes.File.{FileHandler, text_eq}
use fiuba_redes.File.Content.{Offers}
use fiuba_redes.Method.{Ensures}
use fiuba_redes.Packet.{Packet, Bytes}
use fiuba_redes.Packet.Header.{Fits}
use fiuba_redes.Packet.RoundTrip.{wire, from_bytes-wire}
use fiuba_redes.Runtime.{Text, Runtime, IsRuntime}
use fiuba_redes.SelectiveRepeat.{SelectiveRepeat}
use fiuba_redes.SelectiveRepeat
use fiuba_redes.SelectiveRepeat.Receiver.{IsStored, handle_data_cases}
use fiuba_redes.Server
use fiuba_redes.Upload.{
  System, to_client, client_waits, to_server, is_opening, client_turn, move, on_client, on_server,
}
use fiuba_redes.Upload.Answers.{Answered}
use fiuba_redes.Upload.Parts.{part-Answered, part_more}
use fiuba_redes.Upload.Events.{ack_packet, resend_lem, resent_from, resent_raws}
use fiuba_redes.Upload.Sending.{IsPart}
use fiuba_redes.Upload.Steps.{Up, Stores-grows, Uploads-grows, opened-is_closed, seq_num-lt}
use fiuba_redes.Upload.Storing.{IsDone, Stores, StoresMore}
use fiuba_redes.Upload.Uploading.{at, Uploading}

-- The two programs, written out.
abbrev pub both_ends :
    SelectiveRepeat → FileHandler → List Bytes → SelectiveRepeat → FileHandler → List Bytes → System
both_ends p h sent q h' sent' = record { client = at p h sent; server = at q h' sent' }

-- A number up to the next expected one is acknowledged.
told :
    (pkt : Packet) (q : SelectiveRepeat)
    → 1 ≤ q.window_size
    → pkt.seq_num ≤ q.next_expected
    → (new_chunks : Option (List Bytes)) × ((SelectiveRepeat.handle_data pkt q).0
        ≡ some (received pkt.seq_num new_chunks))
told pkt q sized near =
    handle_data_cases
      (λ event q'.
        (new_chunks : Option (List Bytes)) × (event ≡ some (received pkt.seq_num new_chunks)))
      pkt q (λ _. (_, refl)) (λ far. absurd (omega arith)) (λ _. (_, refl)) (λ _ _ _. (_, refl))

data_not_opening :
    (r : Runtime) (pkt : Packet)
    → IsRuntime r
    → pkt.pkt_type ≡ type_data
    → Fits pkt
    → is_opening r (wire r.crc32 pkt) ≡ false
data_not_opening r pkt lib kind fits = ground (arith, from_bytes-wire r.crc32 lib.crc32-lt pkt fits)

module _ (r : Runtime) (lib : IsRuntime r) (content : Bytes) (path target : Text)
    (join join' : Text → Text) (bounded : length content < 2 ^ 30) where
  abbrev pub InUpload :
      SelectiveRepeat
      → FileHandler
      → List Bytes
      → SelectiveRepeat
      → FileHandler
      → List Bytes
      → Type 0
  InUpload p h sent q h' sent' =
      Up r lib content path target join join' bounded q h' p h sent
      × Stores r content target p.seq_num q h' sent'

  -- The client waits.
  pub client_waits_lem :
      (t : Readings) (pos : ℕ) (p : SelectiveRepeat) (h : FileHandler) (sent : List Bytes)
      (q : SelectiveRepeat) (h' : FileHandler) (sent' : List Bytes)
      → InUpload p h sent q h' sent'
      → Offers path content pos h
      → move r join join' (client_waits t) (both_ends p h sent q h' sent')
        ≡ (ok tt, both_ends (resent_from t p) h (sent ++ resent_raws r t p) q h' sent')
  unfolding move client_turn Client.turn
  client_waits_lem t pos p h sent q h' sent' (up, stores) offers =
      rw
        (
          opened-is_closed path content pos h offers,
          resend_lem r lib content path (λ k. IsStored k q) (IsDone content target q h') bounded t p
              h sent up.sends,
        )
        refl

  -- What a method of the client left.
  client_done :
      (R : SelectiveRepeat → List Bytes → Type 0) (p : SelectiveRepeat) (h : FileHandler)
      (sent : List Bytes) (q : SelectiveRepeat) (h' : FileHandler) (sent' : List Bytes)
      (x : Result (Unit {0}) × Endpoint)
      → Stores r content target p.seq_num q h' sent'
      → ((p2 : SelectiveRepeat) (sent2 : List Bytes) → R p2 sent2 → p.seq_num ≤ p2.seq_num)
      → Ensures
          (λ _ e.
            Uploading r lib content path
              (λ k. IsStored k q)
              (IsDone content target q h')
              bounded
              R
              e)
          x
      → (p2 : SelectiveRepeat) × (h2 : FileHandler) × (sent2 : List Bytes) × (on_client
            (λ _. x)
            (both_ends p h sent q h' sent')
          ≡ (ok tt, both_ends p2 h2 sent2 q h' sent'))
        × InUpload p2 h2 sent2 q h' sent'
        × R p2 sent2
  client_done R p h sent q h' sent' (raise e, c) stores grows u = absurd u
  client_done R p h sent q h' sent' (ok tt, c) stores grows (p2, h2, sent2, same, up, rel) = (
    p2,
    h2,
    sent2,
    ap (λ (e : Endpoint). (ok tt, record { client = e; server = at q h' sent' })) same,
    (
      up,
      Stores-grows r lib content path target join join' bounded p.seq_num p2.seq_num q h' sent'
          (grows p2 sent2 rel) stores,
    ),
    rel,
  )

  -- The client gets a datagram while its file is open.
  pub client_gets :
      (R : SelectiveRepeat → List Bytes → Type 0) (t : Readings) (n pos : ℕ) (raw : Bytes)
      (p : SelectiveRepeat) (h : FileHandler) (sent : List Bytes) (q : SelectiveRepeat)
      (h' : FileHandler) (sent' : List Bytes)
      → get_elem? sent' n ≡ some raw
      → Offers path content pos h
      → Stores r content target p.seq_num q h' sent'
      → ((p2 : SelectiveRepeat) (sent2 : List Bytes) → R p2 sent2 → p.seq_num ≤ p2.seq_num)
      → Ensures
          (λ _ e.
            Uploading r lib content path
              (λ k. IsStored k q)
              (IsDone content target q h')
              bounded
              R
              e)
          (Client.handle_datagram r op_type_upload t raw (at p h sent))
      → (p2 : SelectiveRepeat) × (h2 : FileHandler) × (sent2 : List Bytes) × (move r join join'
            (to_client t n)
            (both_ends p h sent q h' sent')
          ≡ (ok tt, both_ends p2 h2 sent2 q h' sent'))
        × InUpload p2 h2 sent2 q h' sent'
        × R p2 sent2
  unfolding move client_turn Client.turn
  client_gets R t n pos raw p h sent q h' sent' there offers stores grows ensured =
      rw (there, opened-is_closed path content pos h offers)
        (client_done R p h sent q h' sent'
          (Client.handle_datagram r op_type_upload t raw (at p h sent)) stores grows ensured)

  -- The server acknowledged a packet of the file.
  server_done :
      (k : ℕ) (p : SelectiveRepeat) (h : FileHandler) (sent : List Bytes) (q q' : SelectiveRepeat)
      (h' : FileHandler) (sent' : List Bytes) (small : p.seq_num < 2 ^ 32)
      (x : Result Bool × Endpoint)
      → Up r lib content path target join join' bounded q h' p h sent
      → StoresMore q q'
      → Ensures
          (λ _ e. IsStored k q' × Answered r lib content target p.seq_num small q h' sent' q' k e)
          x
      → (h2 : FileHandler) × (on_server (λ _. x) (both_ends p h sent q h' sent')
          ≡ (ok tt, both_ends p h sent q' h2 (sent' ++ (wire r.crc32 (ack_packet q' k) ∷ []))))
        × InUpload p h sent q' h2 (sent' ++ (wire r.crc32 (ack_packet q' k) ∷ []))
        × IsStored k q'
  server_done k p h sent q q' h' sent' small (raise e, c) up more u = absurd u
  server_done k p h sent q q' h' sent' small (ok b, c) up more (held, (h2, same, stores, keeps)) = (
    h2,
    ap (λ (e : Endpoint). (ok tt, record { client = at p h sent; server = e })) same,
    (
      Uploads-grows r lib content path target join join' bounded q q' h' h2 p h sent more keeps up,
      stores,
    ),
    held,
  )

  -- The server gets a packet of the file whose number is at most the next expected one.
  pub server_gets :
      (t : Readings) (n : ℕ) (pkt : Packet) (p : SelectiveRepeat) (h : FileHandler)
      (sent : List Bytes) (q : SelectiveRepeat) (h' : FileHandler) (sent' : List Bytes)
      → get_elem? sent n ≡ some (wire r.crc32 pkt)
      → IsPart content pkt
      → pkt.seq_num < p.seq_num
      → pkt.seq_num ≤ q.next_expected
      → InUpload p h sent q h' sent'
      → let q' = (SelectiveRepeat.handle_data pkt q).1 in
        let sent2 = sent' ++ (wire r.crc32 (ack_packet q' pkt.seq_num) ∷ []) in
        (h2 : FileHandler) × (move r join join' (to_server t n) (both_ends p h sent q h' sent')
          ≡ (ok tt, both_ends p h sent q' h2 sent2))
        × InUpload p h sent q' h2 sent2
        × IsStored pkt.seq_num q'
  unfolding move
  server_gets t n pkt p h sent q h' sent' there part below near (up, stores) =
      let small = seq_num-lt r lib content path target join join' bounded p up.phase in
      let (new_chunks, e) = told pkt q stores.sized near in
      let (data', honest) = part in
      rw (there, data_not_opening r pkt lib data'.kind data'.fits)
        (server_done pkt.seq_num p h sent q (SelectiveRepeat.handle_data pkt q).1 h' sent' small
          (Server.handle_datagram r join' true t (wire r.crc32 pkt) (at q h' sent')) up
          (part_more r lib content target p.seq_num small join' t q h' sent' stores pkt part)
          (part-Answered r lib content target p.seq_num small join' t q h' sent' stores pkt
            new_chunks part below e))
