-- ===== src/Upload/Answers.antt =====
-- A chunk that the server's thread has taken in an upload: its ACK, and what is written.
use fiuba_redes.Common.{
  ℕ, ◌^◌, ◌<◌, ◌≡◌, inl, inr, refl, ◌∙◌, arith, Option, some, List, [], ◌∷◌, ◌++◌, All, All-append,
  nat_eq,
}
use fiuba_redes.Endpoint.{Endpoint, send, write_data, handle_data}
use fiuba_redes.Event.{received}
use fiuba_redes.File.{FileHandler, text_eq}
use fiuba_redes.Method.{Ensures, Ensures-weaken}
use fiuba_redes.Packet.{Bytes}
use fiuba_redes.Packet.RoundTrip.{wire, to_bytes-wire}
use fiuba_redes.Runtime.{Text, Runtime, IsRuntime}
use fiuba_redes.SelectiveRepeat.{SelectiveRepeat, ack}
use fiuba_redes.SelectiveRepeat.Receiver.{data_of, IsStored, Receiving}
use fiuba_redes.Upload.Traffic.{FromServer, FromServer-grows, Opens-append}
use fiuba_redes.Upload.Chunks.{chunks, IsNumber}
use fiuba_redes.Upload.Events.{ack_packet, ack_packet-Fits}
use fiuba_redes.Upload.Sending.{All-weaken}
use fiuba_redes.Upload.Uploading.{at}
use fiuba_redes.Upload.Storing.{IsDone, Stores, StoresMore, Wrote, write_data-Wrote}

module _ (r : Runtime) (lib : IsRuntime r) (content : Bytes) (target : Text) (n : ℕ)
    (small : n < 2 ^ 32) where
  -- A state of the server that stores at least what it stored.
  abbrev pub Storing : SelectiveRepeat → FileHandler → Endpoint → Type 0
  Storing q h e =
      (q' : SelectiveRepeat) × (h' : FileHandler) × (sent' : List Bytes) × (e ≡ at q' h' sent')
      × Stores r content target n q' h' sent'
      × StoresMore q q'
      × (IsDone content target q h → IsDone content target q' h')

  pub old_sent :
      (q q' : SelectiveRepeat) (h h' : FileHandler) (sent : List Bytes)
      → StoresMore q q'
      → (IsDone content target q h → IsDone content target q' h')
      → All (FromServer r content (λ k. IsStored k q) (IsDone content target q h) n) sent
      → All (FromServer r content (λ k. IsStored k q') (IsDone content target q' h') n) sent
  old_sent q q' h h' sent grows keeps = All-weaken sent (
      FromServer-grows r content (λ k. IsStored k q) (λ k. IsStored k q')
        (IsDone content target q h) (IsDone content target q' h') n n grows keeps (omega arith))

  -- The server after the ACK of the number k, with the object q' and its file written.
  abbrev pub Answered :
      SelectiveRepeat → FileHandler → List Bytes → SelectiveRepeat → ℕ → Endpoint → Type 0
  Answered q h sent q' k e =
      (h' : FileHandler) × (e ≡ at q' h' (sent ++ (wire r.crc32 (ack_packet q' k) ∷ [])))
      × Stores r content target n q' h' (sent ++ (wire r.crc32 (ack_packet q' k) ∷ []))
      × (IsDone content target q h → IsDone content target q' h')

  -- An event of a chunk: its ACK goes out, and the file gets what is in order.
  pub handle_data-Answered :
      (new_chunks : Option (List Bytes)) (k : ℕ) (q q' : SelectiveRepeat) (h : FileHandler)
      (sent : List Bytes)
      → (s : Stores r content target n q h sent) → StoresMore q q'
      → Receiving (chunks content) q' (s.out ++ data_of (some (received k new_chunks)))
      → (q'.op_type ≡ q.op_type)
        × (q'.protocol ≡ q.protocol)
        × (q'.window ≡ q.window)
        × (q'.window_size ≡ q.window_size)
      → IsNumber content k
      → k < n
      → IsStored k q'
      → Ensures (λ _ e. Answered q h sent q' k e) (handle_data r k new_chunks (at q' h sent))
  unfolding handle_data send ack
  handle_data-Answered new_chunks k q q' h sent s grows receiving
        (op_type, protocol, window, window_size) number below held =
      let fits =
        ack_packet-Fits q' k (omega (arith, s.op_type)) (omega (arith, s.protocol)) (omega arith) in
      let raw = wire r.crc32 (ack_packet q' k) in
      rw (to_bytes-wire r.crc32 lib.crc32-lt (ack_packet q' k) fits) (
        Ensures-weaken
          (λ _ e.
            Wrote content target q h q' (s.out ++ data_of (some (received k new_chunks)))
              (sent ++ (raw ∷ [])) e)
          (λ _ e. Answered q h sent q' k e) (write_data new_chunks (at q' h (sent ++ (raw ∷ []))))
          (write_data-Wrote content target new_chunks k q q' h s.out (sent ++ (raw ∷ [])) grows
            s.receiving receiving s.file)
          (λ _ e wrote_it.
            let (h', same, file, keeps) = wrote_it in
            (
              h',
              same,
              record {
                out = s.out ++ data_of (some (received k new_chunks));
                receiving = receiving;
                op_type = omega (arith, s.op_type);
                protocol = omega (arith, s.protocol);
                sized = omega (arith, s.sized);
                idle = window ∙ s.idle;
                file = file;
                datagrams =
                    All-append
                      (FromServer r content (λ j. IsStored j q') (IsDone content target q' h') n)
                      sent (raw ∷ []) (old_sent q q' h h' sent grows keeps s.datagrams)
                      ((ack_packet q' k, refl, fits, inr (inl (refl, number, below, held))), tt);
                opens = Opens-append r sent (raw ∷ []) s.opens;
              },
              keeps,
            )))
