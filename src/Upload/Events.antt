-- ===== src/Upload/Events.antt =====
-- The timeout of an uploading client, and its push at an acknowledgement.
use fiuba_redes.Client
use fiuba_redes.Common.{
  ℕ, ◌+◌, ◌*◌, ◌^◌, ◌≤◌, ◌<◌, ◌≡◌, refl, ◌∙◌, arith, List, [], ◌++◌, map, length, length-append,
  take, drop, nat_eq, All,
}
use fiuba_redes.Constants.{payload_size, type_ack}
use fiuba_redes.Endpoint.{Readings, resend}
use fiuba_redes.File.{FileHandler}
use fiuba_redes.File.Content.{Offers, moved, read_lem, moved-Offers}
use fiuba_redes.Method.{Ensures}
use fiuba_redes.Packet.{Packet, Bytes, new}
use fiuba_redes.Packet.Header.{Fits}
use fiuba_redes.Packet.RoundTrip.{wire}
use fiuba_redes.Runtime.{Text, Runtime, IsRuntime}
use fiuba_redes.SelectiveRepeat.{SelectiveRepeat}
use fiuba_redes.SelectiveRepeat.Timers.{late, rearmed, get_timedouts_lem}
use fiuba_redes.Upload.Traffic.{FromClient, All-wire}
use fiuba_redes.Upload.Blocks.{IsReadTo}
use fiuba_redes.Upload.Progress.{
  contains-rearmed, rearmed_nil, late-IsGood, rearmed-Sends, rearmed-Phase,
}
use fiuba_redes.Upload.Sending.{Sends, Sends-AllFit, Phase}
use fiuba_redes.Upload.Uploading.{
  at, send_all_lem, Uploads, Uploading, sent_more, Follows, Waits, Uploading-weaken,
}
use fiuba_redes.Upload.Finishing.{push_finish}
use fiuba_redes.Upload.Front.{Front, rearmed-Front}
use fiuba_redes.Exceptions.{ok}

abbrev pub ack_packet : SelectiveRepeat → ℕ → Packet
ack_packet p k = new type_ack p.op_type p.protocol [] k

pub ack_packet-Fits :
    (p : SelectiveRepeat) (k : ℕ)
    → p.op_type < 2
    → p.protocol < 2
    → k < 2 ^ 32
    → Fits (ack_packet p k)
ack_packet-Fits p k op_type protocol small = record {
  pkt_type = omega arith;
  op_type = op_type;
  protocol = protocol;
  data_length = omega arith;
  seq_num = small;
  measured = refl;
}

-- What the client sends at its timeout, and its object then.
abbrev pub resent_raws : Runtime → Readings → SelectiveRepeat → List Bytes
resent_raws r t p = map (wire r.crc32) (late t.now p.window)

abbrev pub resent_from : Readings → SelectiveRepeat → SelectiveRepeat
resent_from t p = record p { window = rearmed t.now t.resent p.window }

module _ (r : Runtime) (lib : IsRuntime r) (content : Bytes) (path : Text) (A : ℕ → Type 0)
    (D : Type 0) (bounded : length content < 2 ^ 30) where
  abbrev Up : SelectiveRepeat → FileHandler → List Bytes → Type 0
  Up p h sent = Uploads r content path A D p h sent

  -- The late packets go out again.
  resent_sent :
      (t : Readings) (p : SelectiveRepeat) (sent : List Bytes)
      → Sends content A p
      → All (FromClient r content A p.seq_num) sent
      → All (FromClient r content A p.seq_num) (sent ++ map (wire r.crc32) (late t.now p.window))
  resent_sent t p sent inv old =
      sent_more r lib content path A D bounded p.seq_num p.seq_num sent _ old
        (All-wire r content A p.seq_num (late t.now p.window)
          (late-IsGood content A t.now p.seq_num p.window inv.items))
        (omega arith)

  pub resend_lem :
      (t : Readings) (p : SelectiveRepeat) (h : FileHandler) (sent : List Bytes)
      → Sends content A p
      → resend r t (at p h sent) ≡ (ok tt, at (resent_from t p) h (sent ++ resent_raws r t p))
  unfolding resend
  resend_lem t p h sent inv = rw (
    get_timedouts_lem r lib t.now t.resent p (Sends-AllFit content A p inv),
    send_all_lem (resent_raws r t p),
  )

  pub resent-Uploads :
      (t : Readings) (p : SelectiveRepeat) (h : FileHandler) (sent : List Bytes)
      → Up p h sent
      → Up (resent_from t p) h (sent ++ resent_raws r t p)
  resent-Uploads t p h sent inv = record {
    sends = rearmed-Sends content A t.now t.resent p inv.sends;
    phase = rearmed-Phase content A t.now t.resent p inv.phase;
    front = rearmed-Front t.now t.resent p inv.front;
    datagrams = resent_sent t p sent inv.sends inv.datagrams;
    file = inv.file;
  }

  pub resend-Uploading :
      (t : Readings) (p : SelectiveRepeat) (h : FileHandler) (sent : List Bytes)
      → Up p h sent
      → Ensures
          (λ _ e. Uploading r lib content path A D bounded (Follows p sent) e)
          (resend r t (at p h sent))
  resend-Uploading t p h sent inv = rw (resend_lem t p h sent inv.sends) (
    resent_from t p,
    h,
    sent ++ resent_raws r t p,
    refl,
    resent-Uploads t p h sent inv,
    (
      omega arith,
      omega arith,
      omega (arith, length-append sent (resent_raws r t p)),
      λ waits. contains-rearmed t.now t.resent p.window p.next_expected ∙ waits,
    ),
  )

  pub handle_ack-Uploading :
      (t : Readings) (n pos : ℕ) (p : SelectiveRepeat) (h : FileHandler) (sent : List Bytes)
      → Sends content A p
      → Phase content p
      → Front p
      → All (FromClient r content A p.seq_num) sent
      → IsReadTo content p.seq_num pos
      → Offers path content pos h
      → (p.window ≡ [] → 1 ≤ n)
      → Ensures
          (λ _ e. Uploading r lib content path A D bounded (Waits p sent) e)
          (Client.handle_ack r t n (at p h sent))
  unfolding Client.handle_ack
  handle_ack-Uploading t n pos p h sent sends phase front old read offers counts =
      let raws = map (wire r.crc32) (late t.now p.window) in
      let block = take (n * payload_size) (drop pos content) in
      rw
        (
          get_timedouts_lem r lib t.now t.resent p (Sends-AllFit content A p sends),
          send_all_lem raws,
          read_lem path content pos (n * payload_size) h offers,
        )
        (Uploading-weaken r lib content path A D bounded (Waits (resent_from t p) (sent ++ raws))
          (Waits p sent) _
          (λ p2 sent2 (follows, waits). (
            (follows.0, follows.1, omega (arith, follows.2, length-append sent raws), λ _. waits),
            waits,
          ))
          (push_finish r lib content path A D bounded t n pos block
            (record p { window = rearmed t.now t.resent p.window })
            (moved path (pos + length block) h) (sent ++ raws) refl
            (rearmed-Sends content A t.now t.resent p sends)
            (rearmed-Phase content A t.now t.resent p phase) (rearmed-Front t.now t.resent p front)
            (resent_sent t p sent sends old) read
            (moved-Offers path content pos (pos + length block) h offers)
            (λ empty. counts (rearmed_nil t.now t.resent p.window empty))))
