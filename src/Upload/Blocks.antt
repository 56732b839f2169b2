-- ===== src/Upload/Blocks.antt =====
-- The blocks that an uploading client reads and pushes, and its FIN.
use fiuba_redes.Common.{
  ℕ, zero, suc, ◌+◌, ◌-◌, ◌*◌, ◌^◌, ◌≤◌, ◌<◌, ◌≡◌, ◌⊎◌, inl, inr, refl, sym, ap, ◌∙◌, arith, List,
  [], map, length, take, drop, dec_lt, nat_eq, All, length-take, length-drop, min,
}
use fiuba_redes.Common.Dict
use fiuba_redes.Common.Dict.{Dict, lookup-nil, contains_of_lookup, lookup-insert_self}
use fiuba_redes.Constants.{payload_size, type_close}
use fiuba_redes.Exceptions.{Result, ok}
use fiuba_redes.Packet.{Packet, Bytes, new}
use fiuba_redes.Packet.Header.{Fits}
use fiuba_redes.Packet.RoundTrip.{wire, to_bytes-wire}
use fiuba_redes.Runtime.{Runtime, IsRuntime}
use fiuba_redes.SelectiveRepeat.{SelectiveRepeat, Entry, offsets, push_payload, fin}
use fiuba_redes.SelectiveRepeat.Pushing.{
  pushed_all, packets, cuts, push_payload_lem, length-offsets-le, pushed_all-keeps,
}
use fiuba_redes.Upload.Chunks.{IsNumber}
use fiuba_redes.Upload.Progress.{pushed_all-Sends}
use fiuba_redes.Upload.Sending.{IsGood, Sends, IsStreaming, IsFinishing, Phase, added-Sends}
use fiuba_redes.Upload.Front.{Front, IsWaiting, added-IsWaiting, pushed_all-IsWaiting, some_offsets}
use mathlib.Core.Path.{subst}
use fiuba_redes.Upload.Traffic.{All-wire, FromClient}

-- How far the file is read when the next number is `seq_num`.
abbrev pub IsReadTo : Bytes → ℕ → ℕ → Type 0
IsReadTo content seq_num pos =
    ((pos ≡ (seq_num - 1) * payload_size) × (pos ≤ length content))
    ⊎ ((pos ≡ length content) × (length content ≤ (seq_num - 1) * payload_size))

-- The slices of a block are enough for it.
length-offsets-ge :
    (fuel i stop : ℕ)
    → stop ≤ fuel + i
    → stop ≤ i + length (offsets fuel i stop payload_size) * payload_size
unfolding offsets
length-offsets-ge zero i stop h = omega arith
length-offsets-ge (suc fuel) i stop h =
    ground (arith, length-offsets-ge fuel (i + payload_size) stop)

-- The FIN, and the object after it.
abbrev pub fin_packet : SelectiveRepeat → Packet
fin_packet p = new type_close p.op_type p.protocol [] p.seq_num

abbrev pub finished : (ℕ → ℕ) → SelectiveRepeat → SelectiveRepeat
finished clock p = record p {
  window = Dict.insert p.seq_num (record { pkt = fin_packet p; time = clock p.seq_num }) p.window;
  seq_num = p.seq_num + 1;
}

-- A block of n slices, or of what is left, from the chunk a + 1 on, in m packets.
read_to :
    (content : Bytes) (a n size m seq_num : ℕ)
    → seq_num ≡ a + 1 + m
    → a * payload_size ≤ length content
    → size ≡ min (n * payload_size) (length content - a * payload_size)
    → size ≤ m * payload_size
    → m ≤ n
    → (seq_num - 1) * payload_size < length content + payload_size
    → IsReadTo content seq_num (a * payload_size + size)
read_to content a n size m seq_num e h whole enough few short =
    elim (dec_lt size (m * payload_size)) [
      | yes less ↦ inr (omega arith, omega arith)
      | no full ↦ inl (omega arith, omega arith)
    ]

module _ (r : Runtime) (lib : IsRuntime r) (content : Bytes) (A : ℕ → Type 0)
    (bounded : length content < 2 ^ 30) where
  -- What pushing a block did.
  pub record Pushed (p : SelectiveRepeat) (pos : ℕ) (result : Result (List Bytes) × SelectiveRepeat)
      : Type 0 where
    pub raws : List Bytes
    pub sent : result.0 ≡ ok raws
    pub sends : Sends content A result.1
    pub phase : Phase content result.1
    pub datagrams : All (FromClient r content A result.1.seq_num) raws
    pub read_to : IsReadTo content result.1.seq_num pos
    pub grows : p.seq_num ≤ result.1.seq_num
    pub waits : IsWaiting result.1
    pub stays : result.1.next_expected ≡ p.next_expected

  push_payload-Pushed :
      (clock : ℕ → ℕ) (n a : ℕ) (p : SelectiveRepeat)
      → Sends content A p
      → IsStreaming content p
      → Front p
      → p.seq_num ≡ a + 1
      → a * payload_size ≤ length content
      → let block = take (n * payload_size) (drop (a * payload_size) content) in
        0 < length block → Pushed p (a * payload_size + length block) (push_payload r clock block p)
  push_payload-Pushed clock n a p inv short front e h some_bytes =
      let block = take (n * payload_size) (drop (a * payload_size) content) in
      let is = offsets (length block) 0 (length block) payload_size in
      let size = length-take (n * payload_size) (drop (a * payload_size) content) in
      let rest = length-drop (a * payload_size) content in
      let same : cuts p block ≡ is = ap (offsets (length block) 0 (length block)) inv.chunk_size in
      let few =
        length-offsets-le (length block) 0 (length block) payload_size (length block)
          (omega arith) in
      let (sends, streams, good, grows) =
        pushed_all-Sends content A bounded clock a n (length block) 0 p inv short (omega arith) in
      let counted = (pushed_all-keeps clock block is p).0 in
      let least = length-offsets-ge (length block) 0 (length block) (omega arith) in
      let most =
        length-offsets-le (length block) 0 (length block) payload_size n (omega (arith, size)) in
      let (js, cons) = some_offsets (length block) payload_size some_bytes in
      rw
        (
          push_payload_lem r lib clock block p (record {
            op_type = inv.op_type;
            protocol = inv.protocol;
            chunk_size = (omega (arith, inv.chunk_size), omega (arith, inv.chunk_size));
            numbers = omega (arith, ap (λ (l : List ℕ). length l) same, few, size, rest);
          }),
          same,
        )
        (record {
          raws = map (wire r.crc32) (packets clock p block is);
          sent = refl;
          sends = sends;
          phase = inl streams;
          datagrams =
              All-wire r content A (pushed_all clock p block is).seq_num (packets clock p block is)
                good;
          read_to =
              read_to content a n (length block) (length is) (pushed_all clock p block is).seq_num
                (omega arith) h (omega arith) (omega arith) (omega arith) streams.short;
          grows = grows;
          waits =
              subst (λ (l : List ℕ). IsWaiting (pushed_all clock p block l)) (sym cons)
                (pushed_all-IsWaiting clock block 0 js p front);
          stays = (pushed_all-keeps clock block is p).1;
        })

  -- Any block that is read and is not empty.
  pub push_block-Pushed :
      (clock : ℕ → ℕ) (n pos : ℕ) (p : SelectiveRepeat)
      → Sends content A p
      → Phase content p
      → Front p
      → IsReadTo content p.seq_num pos
      → let block = take (n * payload_size) (drop pos content) in
        0 < length block → Pushed p (pos + length block) (push_payload r clock block p)
  push_block-Pushed clock n pos p inv phase front (inr (e, h)) some_bytes =
      absurd
        (omega (arith, length-take (n * payload_size) (drop pos content), length-drop pos content))
  push_block-Pushed clock n pos p inv (inr f) front (inl (e, h)) some_bytes = absurd (
      omega (
        arith,
        f.started,
        f.whole,
        length-take (n * payload_size) (drop pos content),
        length-drop pos content,
      ))
  push_block-Pushed clock n pos p inv (inl short) front (inl (e, h)) some_bytes =
      subst
        (λ (k : ℕ).
          0 < length (take (n * payload_size) (drop k content))
          → Pushed p (k + length (take (n * payload_size) (drop k content)))
              (push_payload r clock (take (n * payload_size) (drop k content)) p))
        (sym e)
        (push_payload-Pushed clock n (p.seq_num - 1) p inv short front
          (omega (arith, inv.right.ordered, inv.right.positive)) (omega arith))
        some_bytes

  pub record Finishes (clock : ℕ → ℕ) (p : SelectiveRepeat) : Type 0 where
    pub sent : fin r clock p ≡ (ok (wire r.crc32 (fin_packet p)), finished clock p)
    pub good : IsGood content A (p.seq_num + 1) (fin_packet p)
    pub sends : Sends content A (finished clock p)
    pub ending : IsFinishing content (finished clock p)
    pub waits : IsWaiting (finished clock p)

  -- The FIN is sent when the whole file was read and the window is empty.
  pub fin-Finishes :
      (clock : ℕ → ℕ) (p : SelectiveRepeat)
      → Sends content A p
      → IsStreaming content p
      → p.window ≡ []
      → Front p
      → length content ≤ (p.seq_num - 1) * payload_size
      → Finishes clock p
  unfolding fin
  fin-Finishes clock p inv short empty front whole =
      let all : (k : ℕ) → IsNumber content k → A k = λ k number.
        inv.acked k number.positive (omega (arith, number.within, number.positive))
          (ap (Dict.lookup k) empty ∙ lookup-nil k) in
      let fits : Fits (fin_packet p) = record {
        pkt_type = omega arith;
        op_type = inv.op_type;
        protocol = inv.protocol;
        data_length = omega arith;
        seq_num = omega (arith, short.short);
        measured = refl;
      } in
      let good : IsGood content A (p.seq_num + 1) (fin_packet p) =
        (omega arith, inr (refl, fits, all)) in
      let entry : Entry = record { pkt = fin_packet p; time = clock p.seq_num } in
      record {
        sent = rw (to_bytes-wire r.crc32 lib.crc32-lt (fin_packet p) fits, fin) refl;
        good = good;
        sends = added-Sends content A p entry inv good refl;
        ending = record {
          started = omega (arith, inv.right.ordered, inv.right.positive);
          whole = omega arith;
          short = omega (arith, short.short, inv.right.ordered, inv.right.positive);
          last =
              ap (λ (n : ℕ). Dict.contains n (finished clock p).window) (omega arith)
              ∙ contains_of_lookup p.seq_num entry (finished clock p).window
                  (lookup-insert_self p.seq_num entry p.window);
        };
        waits = added-IsWaiting p entry front;
      }
