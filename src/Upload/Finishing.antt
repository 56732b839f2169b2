-- ===== src/Upload/Finishing.antt =====
-- The uploading client pushes what it has read, or its FIN.
use fiuba_redes.Client
use fiuba_redes.Common.{
  ℕ, ◌+◌, ◌*◌, ◌^◌, ◌≤◌, ◌<◌, ◌≡◌, inl, inr, refl, sym, ap, arith, List, [], ◌∷◌, ◌++◌, length,
  take, drop, nat_eq, All, length-append,
}
use fiuba_redes.Constants.{payload_size}
use fiuba_redes.Endpoint.{Readings, send, push_block}
use fiuba_redes.File.{FileHandler}
use fiuba_redes.File.Content.{Offers}
use fiuba_redes.Method.{◌>>◌, Ensures}
use fiuba_redes.Packet.{Bytes}
use fiuba_redes.Packet.RoundTrip.{wire}
use fiuba_redes.Runtime.{Text, Runtime, IsRuntime}
use fiuba_redes.SelectiveRepeat.{SelectiveRepeat, push_payload}
use fiuba_redes.Upload.Traffic.{FromClient}
use fiuba_redes.Upload.Blocks.{
  IsReadTo, Pushed, push_block-Pushed, Finishes, fin-Finishes, finished, fin_packet,
}
use fiuba_redes.Upload.Sending.{Sends, Phase}
use fiuba_redes.Upload.Front.{Front, some_window-IsWaiting}
use mathlib.Core.Path.{subst}
use fiuba_redes.Upload.Uploading.{
  FileState, Uploading, Waits, at, no_window, no_window-IsStreaming, read_all, send_all_lem,
  sent_more, some_window, window_cases,
}

module _ (r : Runtime) (lib : IsRuntime r) (content : Bytes) (path : Text) (A : ℕ → Type 0)
    (D : Type 0) (bounded : length content < 2 ^ 30) where
  -- The FIN goes out.
  fin_sent :
      (t : Readings) (p : SelectiveRepeat) (h : FileHandler) (sent : List Bytes)
      → Finishes r lib content A bounded t.closed p
      → All (FromClient r content A p.seq_num) sent
      → FileState content path D (p.seq_num + 1) h
      → p.window ≡ []
      → Ensures
          (λ _ e. Uploading r lib content path A D bounded (Waits p sent) e)
          (Client.finish r t [] (at p h sent))
  unfolding Client.finish send
  fin_sent t p h sent done old file e =
      rw (no_window p e, done.sent)
        (
          finished t.closed p,
          h,
          sent ++ (wire r.crc32 (fin_packet p) ∷ []),
          refl,
          record {
            sends = done.sends;
            phase = inr done.ending;
            front = inr done.waits;
            datagrams =
                sent_more r lib content path A D bounded p.seq_num (p.seq_num + 1) sent
                  (wire r.crc32 (fin_packet p) ∷ []) old ((fin_packet p, refl, inl done.good), tt)
                  (omega arith);
            file = file;
          },
          (
            (
              omega arith,
              omega arith,
              omega (arith, length-append sent (wire r.crc32 (fin_packet p) ∷ [])),
              λ _. done.waits,
            ),
            done.waits,
          ),
        )

  -- Nothing was read: the FIN goes out when the window is empty, and not before.
  finish_at_end :
      (t : Readings) (n pos : ℕ) (p : SelectiveRepeat) (h : FileHandler) (sent : List Bytes)
      → length (take (n * payload_size) (drop pos content)) ≡ 0
      → Sends content A p
      → Phase content p
      → Front p
      → All (FromClient r content A p.seq_num) sent
      → IsReadTo content p.seq_num pos
      → Offers path content pos h
      → (p.window ≡ [] → 1 ≤ n)
      → Ensures
          (λ _ e. Uploading r lib content path A D bounded (Waits p sent) e)
          (Client.finish r t [] (at p h sent))
  unfolding Client.finish
  finish_at_end t n pos p h sent none_left inv phase front old read offers counts =
      elim (window_cases p) [
        | inl (item, items, e) ↦ rw (some_window p item items e) (
          p,
          h,
          sent,
          refl,
          record {
            sends = inv;
            phase = phase;
            front = front;
            datagrams = old;
            file = inl (pos, offers, read);
          },
          (
            (omega arith, omega arith, omega arith, λ waits. waits),
            some_window-IsWaiting p item items inv.right e front,
          ),
        )
        | inr e ↦
            let whole = read_all content n pos p.seq_num none_left (counts e) read in
            fin_sent t p h sent
              (fin-Finishes r lib content A bounded t.closed p inv
                (no_window-IsStreaming content p e phase) e front whole.0)
              old (inl (pos, offers, inr (whole.1, omega (arith, whole.0)))) e
      ]

  -- Pushing what was read, and the FIN.
  pub push_finish :
      (t : Readings) (n pos : ℕ) (block : Bytes) (p : SelectiveRepeat) (h : FileHandler)
      (sent : List Bytes)
      → block ≡ take (n * payload_size) (drop pos content)
      → Sends content A p
      → Phase content p
      → Front p
      → All (FromClient r content A p.seq_num) sent
      → IsReadTo content p.seq_num pos
      → Offers path content (pos + length block) h
      → (p.window ≡ [] → 1 ≤ n)
      → Ensures
          (λ _ e. Uploading r lib content path A D bounded (Waits p sent) e)
          ((push_block r t block >> Client.finish r t block) (at p h sent))
  unfolding push_block Client.finish
  push_finish t n pos (b ∷ bs) p h sent e inv phase front old read offers counts =
      let done =
        push_block-Pushed r lib content A bounded t.pushed n pos p inv phase front read
          (omega (arith, ap (λ (x : Bytes). length x) e)) in
      let done' =
        subst
          (λ (x : Bytes).
            Pushed r lib content A bounded p (pos + length x) (push_payload r t.pushed x p))
          (sym e) done in
      let p' = (push_payload r t.pushed (b ∷ bs) p).1 in
      rw (done'.sent, send_all_lem done'.raws)
        (
          p',
          h,
          sent ++ done'.raws,
          refl,
          record {
            sends = done'.sends;
            phase = done'.phase;
            front = inr done'.waits;
            datagrams =
                sent_more r lib content path A D bounded p.seq_num p'.seq_num sent done'.raws old
                  done'.datagrams done'.grows;
            file = inl (pos + length (b ∷ bs), offers, done'.read_to);
          },
          (
            (
              done'.grows,
              omega (arith, done'.stays),
              omega (arith, length-append sent done'.raws),
              λ _. done'.waits,
            ),
            done'.waits,
          ),
        )
  push_finish t n pos [] p h sent e inv phase front old read offers counts =
      finish_at_end t n pos p h sent (omega (arith, ap (λ (x : Bytes). length x) e)) inv phase front
        old read (subst (λ (k : ℕ). Offers path content k h) (omega arith) offers) counts
