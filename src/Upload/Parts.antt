-- ===== src/Upload/Parts.antt =====
-- The packets of the file at the server's thread in an upload.
use fiuba_redes.Common.{ℕ, ◌^◌, ◌<◌, ◌≡◌, inl, inr, refl, Option, some, true, List, ◌++◌, nat_eq}
use fiuba_redes.Endpoint.{Readings, handle_data}
use fiuba_redes.Event.{Event, received}
use fiuba_redes.File.{FileHandler, text_eq}
use fiuba_redes.Method.{return, Ensures, Ensures-after, Ensures-weaken}
use fiuba_redes.Packet.{Packet, Bytes}
use fiuba_redes.Packet.RoundTrip.{wire}
use fiuba_redes.Runtime.{Text, Runtime, IsRuntime}
use fiuba_redes.SelectiveRepeat.{
  SelectiveRepeat, handle_packet, dispatch, get_timedouts, timedout_loop, ack, fin_ack, handle_syn,
  syn_ack_to_bytes,
}
use fiuba_redes.SelectiveRepeat
use fiuba_redes.SelectiveRepeat.Datagrams.{handle_packet-wire}
use fiuba_redes.SelectiveRepeat.Receiver.{
  data_of, Acks, IsStored, IsHonest, Receiving, handle_data-Receiving, handle_data-keeps,
  handle_data-Acks,
}
use fiuba_redes.Server
use fiuba_redes.Upload.Chunks.{chunks, IsHonest-IsNumber}
use fiuba_redes.Upload.Sending.{IsPart}
use fiuba_redes.Upload.Uploading.{at}
use mathlib.Core.Path.{subst}
use fiuba_redes.Upload.Storing.{Stores, StoresMore, handle_data-event, handle_data-rest}
use fiuba_redes.Upload.Answers.{Storing, Answered, handle_data-Answered}

module _ (r : Runtime) (lib : IsRuntime r) (content : Bytes) (target : Text) (n : ℕ)
    (small : n < 2 ^ 32) where
  module _ (join : Text → Text) (t : Readings) (q : SelectiveRepeat) (h : FileHandler)
      (sent : List Bytes) (s : Stores r content target n q h sent) where
    -- A packet of the file that is acknowledged.
    part-IsStored :
        (pkt : Packet) (new_chunks : Option (List Bytes))
        → IsHonest (chunks content) pkt
        → (SelectiveRepeat.handle_data pkt q).0 ≡ some (received pkt.seq_num new_chunks)
        → IsStored pkt.seq_num (SelectiveRepeat.handle_data pkt q).1
    part-IsStored pkt new_chunks honest e =
        let q' = (SelectiveRepeat.handle_data pkt q).1 in
        subst (λ (event : Option Event). Acks pkt.seq_num event → IsStored pkt.seq_num q') e
          (handle_data-Acks (chunks content) pkt q s.out pkt.seq_num s.receiving honest) refl

    pub part_more :
        (pkt : Packet) → IsPart content pkt → StoresMore q (SelectiveRepeat.handle_data pkt q).1
    part_more pkt (data', honest) k was =
        handle_data-keeps (chunks content) pkt q s.out k s.receiving honest was

    pub part-Answered :
        (pkt : Packet) (new_chunks : Option (List Bytes))
        → IsPart content pkt
        → pkt.seq_num < n
        → (SelectiveRepeat.handle_data pkt q).0 ≡ some (received pkt.seq_num new_chunks)
        → let q' = (SelectiveRepeat.handle_data pkt q).1 in
          Ensures
            (λ _ e.
              IsStored pkt.seq_num q'
              × Answered r lib content target n small q h sent q' pkt.seq_num e)
            (Server.handle_datagram r join true t (wire r.crc32 pkt) (at q h sent))
    unfolding Server.handle_datagram Server.handle_if Server.handle_event
    part-Answered pkt new_chunks (data', honest) below e =
        let q' = (SelectiveRepeat.handle_data pkt q).1 in
        let held = part-IsStored pkt new_chunks honest e in
        rw (handle_packet-wire r pkt q lib data', e)
          (Ensures-after (λ _ x. Answered r lib content target n small q h sent q' pkt.seq_num x)
            (λ _ x.
              IsStored pkt.seq_num q'
              × Answered r lib content target n small q h sent q' pkt.seq_num x)
            (λ _. return true) (handle_data r pkt.seq_num new_chunks (at q' h sent))
            (handle_data-Answered r lib content target n small new_chunks pkt.seq_num q q' h sent s
              (part_more pkt (data', honest))
              (subst
                (λ (event : Option Event). Receiving (chunks content) q' (s.out ++ data_of event)) e
                (handle_data-Receiving (chunks content) pkt q s.out s.receiving honest))
              (handle_data-rest pkt q) (IsHonest-IsNumber content pkt honest) below held)
            (λ _ x stored. (held, stored)))

    -- A packet of the file.
    pub on_part :
        (pkt : Packet)
        → IsPart content pkt
        → pkt.seq_num < n
        → Ensures
            (λ _ e. Storing r lib content target n small q h e)
            (Server.handle_datagram r join true t (wire r.crc32 pkt) (at q h sent))
    unfolding Server.handle_datagram Server.handle_if Server.handle_event
    on_part pkt (data', honest) below = elim (handle_data-event pkt q) [
      | inl e ↦
          rw (handle_packet-wire r pkt q lib data', e)
            (q, h, sent, refl, s, (λ k held. held), (λ done. done))
      | inr (new_chunks, e) ↦
          let q' = (SelectiveRepeat.handle_data pkt q).1 in
          Ensures-weaken
            (λ _ x.
              IsStored pkt.seq_num q'
              × Answered r lib content target n small q h sent q' pkt.seq_num x)
            (λ _ x. Storing r lib content target n small q h x)
            (Server.handle_datagram r join true t (wire r.crc32 pkt) (at q h sent))
            (part-Answered pkt new_chunks (data', honest) below e)
            (λ _ x (held, (h', same, stores, keeps)).
              (q', h', _, same, stores, part_more pkt (data', honest), keeps))
    ]
