-- ===== src/Upload/Progress.antt =====
-- What pushing a block and resending do to the sending object of an upload.
use fiuba_redes.Common.{
  ℕ, zero, suc, ◌+◌, ◌-◌, ◌*◌, ◌^◌, ◌≤◌, ◌<◌, ◌≡◌, inl, inr, refl, sym, ap, ◌∙◌, arith, Option,
  none, some, [], ◌∷◌, length, take, drop, dec_lt, lt→ltb, le→ltb, nat_eq, All,
}
use fiuba_redes.Common.Dict
use fiuba_redes.Common.Dict.{Dict, lookup_of_contains, contains_of_lookup}
use fiuba_redes.Constants.{payload_size}
use fiuba_redes.Packet.{Bytes}
use fiuba_redes.SelectiveRepeat.{SelectiveRepeat, Entry, offsets}
use fiuba_redes.SelectiveRepeat.Pushing.{pushed, pushed_all, packets, data_packet, data_packet-Fits}
use fiuba_redes.SelectiveRepeat.Timers.{
  late, rearmed, rearm, rearm_pkt, rearmed-IsSending, lookup-rearmed, is_late,
}
use fiuba_redes.Upload.Chunks.{slice, elem-chunks, slice-take_block}
use mathlib.Core.Path.{subst}
use mathlib.Core.Option
use fiuba_redes.Upload.Sending.{
  All-if, IsGood, IsGood-grows, AllValues, Sends, IsStreaming, Phase, added-Sends,
}

module _ (content : Bytes) (A : ℕ → Type 0) (bounded : length content < 2 ^ 30) where
  -- The packet of a slice that is the chunk of the object's next number.
  data_packet-IsGood :
      (p : SelectiveRepeat) (payload : Bytes) (i : ℕ)
      → Sends content A p
      → take payload_size (drop i payload) ≡ slice content (p.seq_num - 1)
      → (p.seq_num - 1) * payload_size < length content
      → IsGood content A (p.seq_num + 1) (data_packet p payload i)
  data_packet-IsGood p payload i inv same h = (
    omega arith,
    inl (
      record {
        kind = refl;
        fits = data_packet-Fits p payload i 0 (record {
          op_type = inv.op_type;
          protocol = inv.protocol;
          chunk_size = (omega (arith, inv.chunk_size), omega (arith, inv.chunk_size));
          numbers = omega arith;
        });
      },
      record {
        numbered = omega (arith, inv.right.ordered, inv.right.positive);
        carries =
            elem-chunks content (p.seq_num - 1) h
            ∙ ap some (sym (ap (λ (n : ℕ). take n (drop i payload)) inv.chunk_size ∙ same));
      },
    ),
  )

  -- The object and its packets after the slices of a block from i on. The block was read at the chunk
  -- numbered a + 1.
  pub pushed_all-Sends :
      (clock : ℕ → ℕ) (a n fuel i : ℕ) (p : SelectiveRepeat)
      → let block = take (n * payload_size) (drop (a * payload_size) content) in
        Sends content A p
        → IsStreaming content p
        → a * payload_size + i ≡ (p.seq_num - 1) * payload_size
        → let is = offsets fuel i (length block) payload_size in
          let p' = pushed_all clock p block is in
          Sends content A p'
          × IsStreaming content p'
          × All (IsGood content A p'.seq_num) (packets clock p block is)
          × (p.seq_num ≤ p'.seq_num)
  unfolding pushed_all packets offsets
  pushed_all-Sends clock a n zero i p inv short e = (inv, short, tt, omega arith)
  pushed_all-Sends clock a n (suc fuel) i p inv short e =
      let block = take (n * payload_size) (drop (a * payload_size) content) in
      elim (dec_lt i (length block)) [
        | no h ↦
            rw (le→ltb i (length block) (omega arith), pushed_all, packets)
              (inv, short, tt, omega arith)
        | yes h ↦
            let (same, inside) = slice-take_block content a (p.seq_num - 1) n i e h in
            let good = data_packet-IsGood p block i inv same inside in
            let (inv', short', all, grows) =
              pushed_all-Sends clock a n fuel (i + payload_size) (pushed clock p block i)
                (added-Sends content A p _ inv good refl)
                (record { short = omega (arith, inv.right.positive, inv.right.ordered) })
                (omega (arith, inv.right.positive, inv.right.ordered)) in
            rw (lt→ltb i (length block) h, pushed_all, packets)
              (
                inv',
                short',
                (IsGood-grows content A A (p.seq_num + 1) _ _ (λ k x. x) (omega arith) good, all),
                omega arith,
              )
      ]

pub contains-rearmed :
    (now : ℕ) (clock : ℕ → ℕ) (window : Dict ℕ Entry) (k : ℕ)
    → Dict.contains k (rearmed now clock window) ≡ Dict.contains k window
unfolding rearmed Dict.contains
contains-rearmed now clock [] k = refl
contains-rearmed now clock ((seq, entry) ∷ window) k = rw (contains-rearmed now clock window k) refl

pub rearmed_nil :
    (now : ℕ) (clock : ℕ → ℕ) (window : Dict ℕ Entry) → rearmed now clock window ≡ [] → window ≡ []
unfolding rearmed
rearmed_nil now clock [] e = refl
rearmed_nil now clock (item ∷ window) e = absurd (ground arith)

none_of_map {ℓ} : {B : Type ℓ} (f : Entry → B) (o : Option Entry) → Option.map f o ≡ none → o ≡ none
none_of_map f none h = refl
none_of_map f (some x) h = absurd (ground arith)

module _ (content : Bytes) (A : ℕ → Type 0) where
  pub late-IsGood :
      (now n : ℕ) (window : Dict ℕ Entry)
      → AllValues (λ entry. IsGood content A n entry.pkt) window
      → All (IsGood content A n) (late now window)
  unfolding late
  late-IsGood now n [] _ = tt
  late-IsGood now n ((seq, entry) ∷ window) (good, rest) =
      let later = late-IsGood now n window rest in
      All-if (IsGood content A n) _ _ (is_late now entry) (good, later) later

  rearmed-IsGood :
      (now n : ℕ) (clock : ℕ → ℕ) (window : Dict ℕ Entry)
      → AllValues (λ entry. IsGood content A n entry.pkt) window
      → AllValues (λ entry. IsGood content A n entry.pkt) (rearmed now clock window)
  unfolding rearmed
  rearmed-IsGood now n clock [] _ = tt
  rearmed-IsGood now n clock ((seq, entry) ∷ window) (good, rest) = (
    subst (IsGood content A n) (sym (rearm_pkt now clock entry)) good,
    rearmed-IsGood now n clock window rest,
  )

  -- Resending.
  pub rearmed-Sends :
      (now : ℕ) (clock : ℕ → ℕ) (p : SelectiveRepeat)
      → Sends content A p
      → Sends content A (record p { window = rearmed now clock p.window })
  rearmed-Sends now clock p inv = record {
    right = rearmed-IsSending now clock p inv.right;
    op_type = inv.op_type;
    protocol = inv.protocol;
    chunk_size = inv.chunk_size;
    sized = inv.sized;
    items = rearmed-IsGood now p.seq_num clock p.window inv.items;
    acked = λ k low high out. inv.acked k low high (
        none_of_map (rearm now clock) (Dict.lookup k p.window)
          (sym (lookup-rearmed now clock p.window k) ∙ out));
  }

  pub rearmed-Phase :
      (now : ℕ) (clock : ℕ → ℕ) (p : SelectiveRepeat)
      → Phase content p
      → Phase content (record p { window = rearmed now clock p.window })
  rearmed-Phase now clock p (inl s) = inl (record { short = s.short })
  rearmed-Phase now clock p (inr f) = inr (record {
    started = f.started;
    whole = f.whole;
    short = f.short;
    last = contains-rearmed now clock p.window (p.seq_num - 1) ∙ f.last;
  })
