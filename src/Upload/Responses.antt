-- ===== src/Upload/Responses.antt =====
-- What an uploading client does with the datagrams of the server.
use fiuba_redes.Client
use fiuba_redes.Common.{
  ℕ, ◌^◌, ◌<◌, ◌≡◌, inl, inr, refl, sym, arith, List, [], ◌∷◌, ◌++◌, length, length-append, nat_eq,
  All, ℕ_discrete,
}
use fiuba_redes.Constants.{type_ack, type_syn_ack, type_close_ack, op_type_upload}
use fiuba_redes.Endpoint.{Readings, send}
use fiuba_redes.File.{FileHandler}
use fiuba_redes.File
use fiuba_redes.File.Content.{Offers}
use fiuba_redes.Method.{Ensures}
use fiuba_redes.Packet.{Packet, Bytes}
use fiuba_redes.Packet.Header.{Fits}
use fiuba_redes.Packet.RoundTrip.{wire, to_bytes-wire}
use fiuba_redes.Runtime.{Text, Runtime, IsRuntime}
use fiuba_redes.SelectiveRepeat.{SelectiveRepeat, ack}
use fiuba_redes.SelectiveRepeat.Datagrams.{
  handle_packet-ack, handle_packet-syn_ack, handle_packet-close_ack,
}
use fiuba_redes.Upload.Traffic.{FromClient, FromServer}
use fiuba_redes.Upload.Blocks.{IsReadTo}
use fiuba_redes.Upload.Chunks.{IsNumber}
use fiuba_redes.Upload.Acknowledging.{Advances, handle_ack-Advances, handle_ack_new}
use mathlib.Core.Path.{subst}
use fiuba_redes.Upload.Uploading.{
  at, Uploads, Uploading, sent_more, Follows, Waits, Uploading-weaken,
}
use fiuba_redes.Upload.Events.{ack_packet, ack_packet-Fits, handle_ack-Uploading}

module _ (r : Runtime) (lib : IsRuntime r) (content : Bytes) (path : Text) (A : ℕ → Type 0)
    (D : Type 0) (bounded : length content < 2 ^ 30) where
  abbrev Up : SelectiveRepeat → FileHandler → List Bytes → Type 0
  Up p h sent = Uploads r content path A D p h sent

  -- The client's part of an ACK at `next_expected` or above.
  pub on_new_ack :
      (t : Readings) (count pos k : ℕ) (p p' : SelectiveRepeat) (h : FileHandler)
      (sent : List Bytes)
      → Up p h sent
      → Offers path content pos h
      → IsReadTo content p.seq_num pos
      → Advances content A k p count p'
      → Ensures
          (λ _ e. Uploading r lib content path A D bounded (Waits p' sent) e)
          (Client.handle_ack r t count (at p' h sent))
  on_new_ack t count pos k p p' h sent inv offers read d =
      handle_ack-Uploading r lib content path A D bounded t count pos p' h sent d.sends d.phase
        d.front (subst (λ (n : ℕ). All (FromClient r content A n) sent) (sym d.same) inv.datagrams)
        (subst (λ (n : ℕ). IsReadTo content n pos) (sym d.same) read) offers d.counts

  -- An ACK that was sent for a chunk.
  on_ack :
      (t : Readings) (pos : ℕ) (pkt : Packet) (p : SelectiveRepeat) (h : FileHandler)
      (sent : List Bytes)
      → Up p h sent
      → Offers path content pos h
      → IsReadTo content p.seq_num pos
      → pkt.pkt_type ≡ type_ack
      → Fits pkt
      → IsNumber content pkt.seq_num
      → pkt.seq_num < p.seq_num
      → A pkt.seq_num
      → Ensures
          (λ _ e. Uploading r lib content path A D bounded (Follows p sent) e)
          (Client.handle_datagram r op_type_upload t (wire r.crc32 pkt) (at p h sent))
  unfolding Client.handle_datagram Client.handle_if Client.handle_event
  on_ack t pos pkt p h sent inv offers read kind fits number below has =
      elim (handle_ack-Advances content A pkt p inv.sends number below has inv.phase) [
        | inl old ↦
            rw (handle_packet-ack r lib pkt p kind fits, old)
              (p, h, sent, refl, inv, (omega arith, omega arith, omega arith, λ waits. waits))
        | inr (count, p', e, d) ↦
            rw (handle_packet-ack r lib pkt p kind fits, e)
              (Uploading-weaken r lib content path A D bounded (Waits p' sent) (Follows p sent) _
                (λ p2 sent2 (follows, waits). (
                  omega (arith, d.same, follows.0),
                  omega (arith, d.forward, follows.1),
                  follows.2,
                  λ _. waits,
                ))
                (on_new_ack t count pos pkt.seq_num p p' h sent inv offers read d))
      ]

  -- The ACK of the next number passes it.
  pub on_next_ack :
      (t : Readings) (pos : ℕ) (pkt : Packet) (p : SelectiveRepeat) (h : FileHandler)
      (sent : List Bytes)
      → Up p h sent
      → Offers path content pos h
      → IsReadTo content p.seq_num pos
      → pkt.pkt_type ≡ type_ack
      → Fits pkt
      → IsNumber content pkt.seq_num
      → pkt.seq_num < p.seq_num
      → A pkt.seq_num
      → pkt.seq_num ≡ p.next_expected
      → Ensures
          (λ _ e.
            Uploading r lib content path A D bounded
              (λ p' sent'. Waits p sent p' sent' × (p.next_expected < p'.next_expected))
              e)
          (Client.handle_datagram r op_type_upload t (wire r.crc32 pkt) (at p h sent))
  unfolding Client.handle_datagram Client.handle_if Client.handle_event
  on_next_ack t pos pkt p h sent inv offers read kind fits number below has next =
      let (count, p', e, d) =
        handle_ack_new content A pkt p inv.sends number below has inv.phase (omega (arith, next)) in
      rw (handle_packet-ack r lib pkt p kind fits, e)
        (Uploading-weaken r lib content path A D bounded (Waits p' sent) _ _
          (λ p2 sent2 (follows, waits). (
            (
              (
                omega (arith, d.same, follows.0),
                omega (arith, d.forward, follows.1),
                follows.2,
                λ _. waits,
              ),
              waits,
            ),
            omega (arith, d.further next, follows.1),
          ))
          (on_new_ack t count pos pkt.seq_num p p' h sent inv offers read d))

  -- The ACK of the connection, and the first blocks.
  pub on_syn_ack :
      (t : Readings) (pos : ℕ) (pkt : Packet) (p : SelectiveRepeat) (h : FileHandler)
      (sent : List Bytes)
      → Up p h sent
      → Offers path content pos h
      → IsReadTo content p.seq_num pos
      → pkt.pkt_type ≡ type_syn_ack
      → Fits pkt
      → Ensures
          (λ _ e. Uploading r lib content path A D bounded (Waits p sent) e)
          (Client.handle_datagram r op_type_upload t (wire r.crc32 pkt) (at p h sent))
  unfolding Client.handle_datagram Client.handle_if Client.handle_event Client.handle_syn_ack send
      ack ℕ_discrete
  on_syn_ack t pos pkt p h sent inv offers read kind fits =
      let opening = ack_packet-Fits p 0 inv.sends.op_type inv.sends.protocol (omega arith) in
      rw
        (
          handle_packet-syn_ack r lib pkt p kind fits,
          to_bytes-wire r.crc32 lib.crc32-lt (ack_packet p 0) opening,
        )
        (Uploading-weaken r lib content path A D bounded
          (Waits p (sent ++ (wire r.crc32 (ack_packet p 0) ∷ []))) (Waits p sent) _
          (λ p2 sent2 (follows, waits). (
            (
              follows.0,
              follows.1,
              omega (arith, follows.2, length-append sent (wire r.crc32 (ack_packet p 0) ∷ [])),
              λ _. waits,
            ),
            waits,
          ))
          (handle_ack-Uploading r lib content path A D bounded t p.window_size pos p h
            (sent ++ (wire r.crc32 (ack_packet p 0) ∷ [])) inv.sends inv.phase inv.front
            (sent_more r lib content path A D bounded p.seq_num p.seq_num sent
              (wire r.crc32 (ack_packet p 0) ∷ []) inv.datagrams
              ((ack_packet p 0, refl, inr (inl (refl, refl, opening))), tt) (omega arith))
            read offers (λ _. inv.sends.sized)))

  -- The FIN_ACK closes the file.
  on_close_ack :
      (t : Readings) (pkt : Packet) (p : SelectiveRepeat) (h : FileHandler) (sent : List Bytes)
      → Up p h sent
      → pkt.pkt_type ≡ type_close_ack
      → Fits pkt
      → D
      → Ensures
          (λ _ e. Uploading r lib content path A D bounded (Follows p sent) e)
          (Client.handle_datagram r op_type_upload t (wire r.crc32 pkt) (at p h sent))
  unfolding Client.handle_datagram Client.handle_if Client.handle_event Client.handle_close_fin
  on_close_ack t pkt p h sent inv kind fits has =
      rw (handle_packet-close_ack r lib pkt p kind fits) (
        p,
        File.close h,
        sent,
        refl,
        record {
          sends = inv.sends;
          phase = inv.phase;
          front = inv.front;
          datagrams = inv.datagrams;
          file = inr (refl, has);
        },
        (omega arith, omega arith, omega arith, λ waits. waits),
      )

  -- Any datagram of the server, while the file is open.
  pub turn-Uploading :
      (t : Readings) (pos : ℕ) (raw : Bytes) (p : SelectiveRepeat) (h : FileHandler)
      (sent : List Bytes)
      → Up p h sent
      → Offers path content pos h
      → IsReadTo content p.seq_num pos
      → FromServer r content A D p.seq_num raw
      → Ensures
          (λ _ e. Uploading r lib content path A D bounded (Follows p sent) e)
          (Client.handle_datagram r op_type_upload t raw (at p h sent))
  turn-Uploading t pos raw p h sent inv offers read (pkt, e, fits, inl kind) = rw e (
      Uploading-weaken r lib content path A D bounded (Waits p sent) (Follows p sent) _
        (λ _ _ (follows, _). follows) (on_syn_ack t pos pkt p h sent inv offers read kind fits))
  turn-Uploading t pos raw p h sent inv offers read
        (pkt, e, fits, inr (inl (kind, number, below, has))) =
      rw e (on_ack t pos pkt p h sent inv offers read kind fits number below has)
  turn-Uploading t pos raw p h sent inv offers read (pkt, e, fits, inr (inr (kind, has))) =
      rw e (on_close_ack t pkt p h sent inv kind fits has)
