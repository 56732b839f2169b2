-- ===== src/Upload/Completion.antt =====
-- From every state of an upload, after the SYN_ACK has reached the client, some moves complete it.
use fiuba_redes.Common.{
  ℕ, zero, suc, ◌+◌, ◌^◌, ◌≤◌, ◌<◌, ◌≡◌, inl, inr, refl, arith, some, true, List, [], ◌∷◌, ◌++◌,
  length, length-append, All, get_elem?, nat_eq,
}
use fiuba_redes.Common.Dict.{lookup_of_contains}
use fiuba_redes.Endpoint.{Readings}
use fiuba_redes.Exceptions.{ok}
use fiuba_redes.File.{FileHandler, text_eq, is_closed}
use fiuba_redes.File.Content.{Offers}
use fiuba_redes.Packet.{Packet, Bytes}
use fiuba_redes.Packet.RoundTrip.{wire}
use fiuba_redes.Runtime.{Text, Runtime, IsRuntime}
use fiuba_redes.SelectiveRepeat.{SelectiveRepeat, Entry}
use fiuba_redes.SelectiveRepeat
use fiuba_redes.SelectiveRepeat.Receiver.{IsStored}
use fiuba_redes.Upload.{System, Move, to_client, client_waits, to_server, server_waits, move, run}
use fiuba_redes.Upload.Blocks.{IsReadTo}
use fiuba_redes.Upload.Chunks.{IsHonest-IsNumber}
use fiuba_redes.Upload.Closing.{both_arrive, elem-append_last}
use fiuba_redes.Upload.Events.{
  ack_packet, ack_packet-Fits, resent_from, resent_raws, resent-Uploads,
}
use fiuba_redes.Upload.Responses.{on_next_ack}
use fiuba_redes.Upload.Front.{IsWaiting}
use fiuba_redes.Upload.Resending.{overdue, resent_at, lookup-AllValues, next_expected-le}
use fiuba_redes.Upload.Rounds.{both_ends, InUpload, client_waits_lem, client_gets, server_gets}
use fiuba_redes.Upload.Sending.{IsPart, IsGood}
use fiuba_redes.Upload.Steps.{closed-is_closed, seq_num-lt}
use fiuba_redes.Upload.Storing.{IsDone, fin_ack_packet-Fits}
use fiuba_redes.Upload.Uploading.{Waits}

-- A wait of the client, or the delivery of a datagram that is none of those that the client (a) and the
-- server (b) had sent.
abbrev pub IsNew : ℕ → ℕ → Move → Type 0
IsNew a b (to_client t n) = b ≤ n
IsNew a b (client_waits t) = Unit
IsNew a b (to_server t n) = a ≤ n
IsNew a b (server_waits t) = ⊥

All-IsNew : (a b c d : ℕ) (ms : List Move) → a ≤ c → b ≤ d → All (IsNew c d) ms → All (IsNew a b) ms
All-IsNew a b c d [] h g _ = tt
All-IsNew a b c d (to_client t n ∷ ms) h g (new, more) =
    (omega arith, All-IsNew a b c d ms h g more)
All-IsNew a b c d (client_waits t ∷ ms) h g (new, more) = (tt, All-IsNew a b c d ms h g more)
All-IsNew a b c d (to_server t n ∷ ms) h g (new, more) =
    (omega arith, All-IsNew a b c d ms h g more)
All-IsNew a b c d (server_waits t ∷ ms) h g (new, more) = absurd new

module _ (r : Runtime) (join join' : Text → Text) where
  -- Some moves, none of which delivers one of those datagrams, close the client's file.
  abbrev pub Completes : ℕ → ℕ → System → Type 0
  Completes a b s =
      (ms : List Move) × All (IsNew a b) ms
      × (is_closed (run r join join' ms s).1.client.file_handler ≡ true)

  first_move :
      (m : Move) (a b c d : ℕ) (s s' : System)
      → move r join join' m s ≡ (ok tt, s')
      → IsNew a b m
      → a ≤ c
      → b ≤ d
      → Completes c d s'
      → Completes a b s
  unfolding run
  first_move m a b c d s s' e new h g (ms, news, closed) =
      (m ∷ ms, (new, All-IsNew a b c d ms h g news), rw e closed)

module _ (r : Runtime) (lib : IsRuntime r) (content : Bytes) (path target : Text)
    (join join' : Text → Text) (bounded : length content < 2 ^ 30) where
  abbrev Right :
      SelectiveRepeat
      → FileHandler
      → List Bytes
      → SelectiveRepeat
      → FileHandler
      → List Bytes
      → Type 0
  Right p h sent q h' sent' =
      InUpload r lib content path target join join' bounded p h sent q h' sent'

  -- The client's packet of `next_expected` is a chunk: it gets through, and its ACK.
  next_chunk :
      (t : Readings) (n pos : ℕ) (pkt : Packet) (p : SelectiveRepeat) (h : FileHandler)
      (sent : List Bytes) (q : SelectiveRepeat) (h' : FileHandler) (sent' : List Bytes)
      → get_elem? sent n ≡ some (wire r.crc32 pkt)
      → IsPart content pkt
      → pkt.seq_num < p.seq_num
      → pkt.seq_num ≡ p.next_expected
      → Right p h sent q h' sent'
      → Offers path content pos h
      → IsReadTo content p.seq_num pos
      → (a : ℕ) → a ≤ n
      → a ≤ length sent
      → ((p2 : SelectiveRepeat) (h2 : FileHandler) (sent2 : List Bytes) (q2 : SelectiveRepeat)
            (h2' : FileHandler) (sent2' : List Bytes)
          → Right p2 h2 sent2 q2 h2' sent2'
          → IsWaiting p2
          → p.next_expected < p2.next_expected
          → Completes r join join'
              (length sent2)
              (length sent2')
              (both_ends p2 h2 sent2 q2 h2' sent2'))
      → Completes r join join' a (length sent') (both_ends p h sent q h' sent')
  next_chunk t n pos pkt p h sent q h' sent' there part below next (up, stores) offers read a new
        old then_on =
      let near = next_expected-le content p q stores.out up.sends stores.receiving in
      let q2 = (SelectiveRepeat.handle_data pkt q).1 in
      let answer = ack_packet q2 pkt.seq_num in
      let sent2' = sent' ++ (wire r.crc32 answer ∷ []) in
      let small = seq_num-lt r lib content path target join join' bounded p up.phase in
      let (h2', e, (up2, stores2), held) =
        server_gets r lib content path target join join' bounded t n pkt p h sent q h' sent' there
          part below (omega arith) (up, stores) in
      let (p3, h3, sent3, e3, right3, (waits, moved)) =
        client_gets r lib content path target join join' bounded
          (λ p' s. Waits p sent p' s × (p.next_expected < p'.next_expected)) t (length sent') pos
          (wire r.crc32 answer) p h sent q2 h2' sent2'
          (elem-append_last sent' (wire r.crc32 answer)) offers stores2 (λ p' s rel. rel.0.0.0)
          (on_next_ack r lib content path (λ k. IsStored k q2) (IsDone content target q2 h2')
            bounded t pos answer p h sent up2 offers read refl
            (ack_packet-Fits q2 pkt.seq_num stores2.op_type stores2.protocol (omega arith))
            (IsHonest-IsNumber content pkt part.1) below held next) in
      first_move r join join' (to_server t n) a (length sent') a (length sent')
        (both_ends p h sent q h' sent') (both_ends p h sent q2 h2' sent2') e new (omega arith)
        (omega arith)
        (first_move r join join' (to_client t (length sent')) a (length sent') (length sent3)
          (length sent2') (both_ends p h sent q2 h2' sent2') (both_ends p3 h3 sent3 q2 h2' sent2')
          e3 (omega arith) (omega (arith, waits.0.2))
          (omega (arith, length-append sent' (wire r.crc32 answer ∷ [])))
          (then_on p3 h3 sent3 q2 h2' sent2' right3 waits.1 moved))

  -- After the timeout the packet of `next_expected` is the chunk or the FIN.
  next_packet :
      (pos : ℕ) (p : SelectiveRepeat) (h : FileHandler) (sent : List Bytes) (q : SelectiveRepeat)
      (h' : FileHandler) (sent' : List Bytes)
      → Right p h sent q h' sent'
      → Offers path content pos h
      → IsReadTo content p.seq_num pos
      → IsWaiting p
      → ((p2 : SelectiveRepeat) (h2 : FileHandler) (sent2 : List Bytes) (q2 : SelectiveRepeat)
            (h2' : FileHandler) (sent2' : List Bytes)
          → Right p2 h2 sent2 q2 h2' sent2'
          → IsWaiting p2
          → p.next_expected < p2.next_expected
          → Completes r join join'
              (length sent2)
              (length sent2')
              (both_ends p2 h2 sent2 q2 h2' sent2'))
      → Completes r join join' (length sent) (length sent') (both_ends p h sent q h' sent')
  next_packet pos p h sent q h' sent' (up, stores) offers read waits then_on =
      let (entry, found) = lookup_of_contains p.next_expected p.window waits in
      let t = overdue entry in
      let p1 = resent_from t p in
      let sent1 = sent ++ resent_raws r t p in
      let A : ℕ → Type 0 = λ k. IsStored k q in
      let (i, there) = resent_at r sent p.next_expected entry p.window found in
      let up1 =
        resent-Uploads r lib content path A (IsDone content target q h') bounded t p h sent up in
      let (below, kind) =
        lookup-AllValues (λ (e : Entry). IsGood content A p.seq_num e.pkt) p.next_expected entry
          p.window up.sends.items found in
      first_move r join join' (client_waits t) (length sent) (length sent') (length sent)
        (length sent') (both_ends p h sent q h' sent') (both_ends p1 h sent1 q h' sent')
        (client_waits_lem r lib content path target join join' bounded t pos p h sent q h' sent'
          (up, stores) offers)
        tt (omega arith) (omega arith)
        (elim kind [
          | inl part ↦
              next_chunk t (length sent + i) pos entry.pkt p1 h sent1 q h' sent' there part below
                (up.sends.right.unacknowledged p.next_expected entry found).2 (up1, stores) offers
                read (length sent) (omega arith)
                (omega (arith, length-append sent (resent_raws r t p))) then_on
          | inr (kind, fits, all) ↦ (
            to_server t (length sent + i) ∷ to_client t (length sent') ∷ [],
            (omega arith, (omega arith, tt)),
            both_arrive r lib join join' p1 h sent1 q h' t t (length sent + i) entry.pkt sent' there
                kind fits (fin_ack_packet-Fits q stores.op_type stores.protocol),
          )
        ])

  next_expected-lt :
      (p : SelectiveRepeat) (h : FileHandler) (sent : List Bytes) (q : SelectiveRepeat)
      (h' : FileHandler) (sent' : List Bytes)
      → Right p h sent q h' sent'
      → IsWaiting p
      → p.next_expected < length content + 3
  next_expected-lt p h sent q h' sent' (up, stores) waits =
      let (entry, found) = lookup_of_contains p.next_expected p.window waits in
      let (low, high, number) = up.sends.right.unacknowledged p.next_expected entry found in
      elim up.phase [ inl s ↦ omega (arith, s.short) | inr f ↦ omega (arith, f.short, f.started) ]

  -- As many rounds as there are numbers left are enough.
  pub completes :
      (fuel : ℕ) (p : SelectiveRepeat) (h : FileHandler) (sent : List Bytes) (q : SelectiveRepeat)
      (h' : FileHandler) (sent' : List Bytes)
      → Right p h sent q h' sent'
      → IsWaiting p
      → length content + 3 ≤ fuel + p.next_expected
      → Completes r join join' (length sent) (length sent') (both_ends p h sent q h' sent')
  unfolding run
  completes zero p h sent q h' sent' right waits enough =
      absurd (omega (arith, next_expected-lt p h sent q h' sent' right waits))
  completes (suc fuel) p h sent q h' sent' right waits enough =
      let rest : (p2 : SelectiveRepeat) (h2 : FileHandler) (sent2 : List Bytes)
            (q2 : SelectiveRepeat) (h2' : FileHandler) (sent2' : List Bytes)
          → Right p2 h2 sent2 q2 h2' sent2'
          → IsWaiting p2
          → p.next_expected < p2.next_expected
          → Completes r join join' (length sent2) (length sent2')
              (both_ends p2 h2 sent2 q2 h2' sent2') =
        λ p2 h2 sent2 q2 h2' sent2' right2 waits2 moved.
          completes fuel p2 h2 sent2 q2 h2' sent2' right2 waits2 (omega arith) in
      elim right.0.file [
        | inr (closed, done) ↦ ([], tt, closed-is_closed h closed)
        | inl (pos, offers, read) ↦ next_packet pos p h sent q h' sent' right offers read waits rest
      ]
