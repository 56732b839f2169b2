-- ===== src/Upload/Arrivals.antt =====
-- The datagrams of the client at the server's thread in an upload, and its timeouts.
use fiuba_redes.Common.{
  ℕ, ◌^◌, ◌<◌, ◌≡◌, inl, inr, refl, ap, ◌∙◌, arith, some, true, false, List, [], ◌∷◌, ◌++◌, flatten,
  All-append, nat_eq,
}
use fiuba_redes.Constants.{type_close}
use fiuba_redes.Endpoint.{Readings, send, send_all, resend}
use fiuba_redes.File.{FileHandler, text_eq}
use fiuba_redes.File
use fiuba_redes.Method.{Ensures}
use fiuba_redes.Packet.{Packet, Bytes}
use fiuba_redes.Packet.Header.{Fits}
use fiuba_redes.Packet.RoundTrip.{wire, to_bytes-wire, from_bytes-wire}
use fiuba_redes.Runtime.{Text, Runtime, IsRuntime}
use fiuba_redes.SelectiveRepeat.{SelectiveRepeat, fin_ack, syn_ack_to_bytes}
use fiuba_redes.SelectiveRepeat.Datagrams.{handle_packet-close}
use fiuba_redes.SelectiveRepeat.Receiver.{IsStored}
use fiuba_redes.Server
use fiuba_redes.Upload.{is_opening}
use fiuba_redes.Upload.Traffic.{FromClient, FromServer, IsRequest, Opens-append}
use fiuba_redes.Upload.Chunks.{flatten-chunks, Complete, Complete-handed}
use fiuba_redes.Upload.Uploading.{at}
use fiuba_redes.Upload.Parts.{on_part}
use fiuba_redes.Upload.Storing.{
  IsDone, Stores, fin_ack_packet, fin_ack_packet-Fits, get_timedouts_idle,
}
use fiuba_redes.Upload.Requests.{
  answered, handle_packet-syn, renamed, syn_ack_packet, syn_ack_packet-Fits,
}
use fiuba_redes.Upload.Answers.{Storing, old_sent}

module _ (r : Runtime) (lib : IsRuntime r) (content : Bytes) (target : Text) (n : ℕ)
    (small : n < 2 ^ 32) where
  module _ (join : Text → Text) (t : Readings) (q : SelectiveRepeat) (h : FileHandler)
      (sent : List Bytes) (s : Stores r content target n q h sent) where
    -- The FIN.
    on_end :
        (pkt : Packet)
        → pkt.pkt_type ≡ type_close
        → Fits pkt
        → Complete content q
        → Ensures
            (λ _ e. Storing r lib content target n small q h e)
            (Server.handle_datagram r join true t (wire r.crc32 pkt) (at q h sent))
    unfolding Server.handle_datagram Server.handle_if Server.handle_event Server.handle_close send
        fin_ack
    on_end pkt kind fits all =
        rw
          (
            handle_packet-close r lib pkt q kind fits,
            to_bytes-wire r.crc32 lib.crc32-lt (fin_ack_packet q)
                (fin_ack_packet-Fits q s.op_type s.protocol),
          )
          (
            q,
            File.close h,
            sent ++ (wire r.crc32 (fin_ack_packet q) ∷ []),
            refl,
            record {
              out = s.out;
              receiving = s.receiving;
              op_type = s.op_type;
              protocol = s.protocol;
              sized = s.sized;
              idle = s.idle;
              file = inr done;
              datagrams =
                  All-append
                    (FromServer r content (λ k. IsStored k q)
                      (IsDone content target q (File.close h)) n)
                    sent (wire r.crc32 (fin_ack_packet q) ∷ [])
                    (old_sent r lib content target n small q q h (File.close h) sent
                      (λ k held. held) (λ _. done) s.datagrams)
                    (
                      (
                        fin_ack_packet q,
                        refl,
                        fin_ack_packet-Fits q s.op_type s.protocol,
                        inr (inr (refl, done)),
                      ),
                      tt,
                    );
              opens = Opens-append r sent (wire r.crc32 (fin_ack_packet q) ∷ []) s.opens;
            },
            (λ k held. held),
            (λ _. done),
          )
      where
        done : IsDone content target q (File.close h)
        done = record {
          complete = all;
          closed = refl;
          stored = elim s.file [
            | inl holds ↦
                holds.stored
                ∙ ap some (
                    ap flatten (Complete-handed content q s.out s.receiving all)
                    ∙ flatten-chunks content)
            | inr before ↦ before.stored
          ];
        }

    -- The SYN again.
    on_request :
        (pkt : Packet)
        → IsRequest r pkt
        → Ensures
            (λ _ e. Storing r lib content target n small q h e)
            (Server.handle_datagram r join true t (wire r.crc32 pkt) (at q h sent))
    unfolding Server.handle_datagram Server.handle_if Server.handle_event Server.handle_handshake
        send syn_ack_to_bytes
    on_request pkt (kind, fits, (name, size, readable, small_enough)) =
        let q' = answered pkt q in
        let h' = renamed name h in
        let fine = syn_ack_packet-Fits q' fits.op_type fits.protocol in
        let keeps : IsDone content target q h → IsDone content target q' h' =
          λ done. record { complete = done.complete; closed = done.closed; stored = done.stored } in
        rw
          (
            handle_packet-syn r lib pkt q name size kind fits readable small_enough,
            to_bytes-wire r.crc32 lib.crc32-lt (syn_ack_packet q') fine,
          )
          (
            q',
            h',
            sent ++ (wire r.crc32 (syn_ack_packet q') ∷ []),
            refl,
            record {
              out = s.out;
              receiving = record {
                prefix = s.receiving.prefix;
                positive = s.receiving.positive;
                genuine = s.receiving.genuine;
                windowed = s.receiving.windowed;
              };
              op_type = fits.op_type;
              protocol = fits.protocol;
              sized = s.sized;
              idle = s.idle;
              file = elim s.file [
                | inl holds ↦ inl (record { opened = holds.opened; stored = holds.stored })
                | inr done ↦ inr (keeps done)
              ];
              datagrams =
                  All-append
                    (FromServer r content (λ k. IsStored k q') (IsDone content target q' h') n) sent
                    (wire r.crc32 (syn_ack_packet q') ∷ [])
                    (old_sent r lib content target n small q q' h h' sent (λ k held. held) keeps
                      s.datagrams)
                    ((syn_ack_packet q', refl, fine, inl refl), tt);
              opens = Opens-append r sent (wire r.crc32 (syn_ack_packet q') ∷ []) s.opens;
            },
            (λ k held. held),
            keeps,
          )

    -- A datagram of the client other than the ACK of the connection.
    pub handle_datagram-Storing :
        (raw : Bytes)
        → FromClient r content (λ k. IsStored k q) n raw
        → is_opening r raw ≡ false
        → Ensures
            (λ _ e. Storing r lib content target n small q h e)
            (Server.handle_datagram r join true t raw (at q h sent))
    handle_datagram-Storing raw (pkt, e, inl (below, inl part)) other =
        rw e (on_part r lib content target n small join t q h sent s pkt part below)
    handle_datagram-Storing raw (pkt, e, inl (below, inr (kind, fits, all))) other =
        rw e (on_end pkt kind fits all)
    handle_datagram-Storing raw (pkt, e, inr (inl (kind, zero_num, fits))) other =
        absurd (ground (arith, from_bytes-wire r.crc32 lib.crc32-lt pkt fits, ap (is_opening r) e))
    handle_datagram-Storing raw (pkt, e, inr (inr request)) other = rw e (on_request pkt request)

    -- The server has nothing to send again.
    pub resend-Storing :
        Ensures (λ _ e. Storing r lib content target n small q h e) (resend r t (at q h sent))
    unfolding resend send_all
    resend-Storing =
        rw (get_timedouts_idle r t.now t.resent q s.idle)
          (q, h, sent, refl, s, (λ k held. held), (λ done. done))
