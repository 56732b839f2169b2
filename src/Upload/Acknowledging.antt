-- ===== src/Upload/Acknowledging.antt =====
-- What an acknowledgement does to the sending object of an upload.
use fiuba_redes.Common.{
  ℕ, ◌-◌, ◌≤◌, ◌<◌, ◌≡◌, ◌≢◌, ℕ_discrete, ◌⊎◌, inl, inr, refl, sym, ap, ◌∙◌, arith, Option, none,
  some, [], dec_lt, le→ltb, nat_eq,
}
use fiuba_redes.Common.Dict
use fiuba_redes.Common.Dict.{Dict, lookup_of_contains, contains_of_lookup}
use fiuba_redes.Packet.{Packet, Bytes}
use fiuba_redes.SelectiveRepeat.{SelectiveRepeat, Entry, handle_ack}
use fiuba_redes.Event.{Event, acked}
use fiuba_redes.SelectiveRepeat.Sender.{
  IsSending, Slides, acknowledged, handle_ack-Slides, handle_ack_old, handle_ack-IsSending,
}
use fiuba_redes.Upload.Chunks.{IsNumber}
use fiuba_redes.Upload.Front.{Front}
use mathlib.Core.Path.{subst}
use fiuba_redes.Upload.Sending.{
  All-if, IsGood, IsGood-grows, All-weaken, AllValues, AllValues-erase, Sends, Phase,
}

-- What an acknowledgement of a chunk that was sent and has arrived does: nothing, or `count` numbers
-- are passed, at least one if the window is empty then, or if k was the next expected.
pub record Advances (content : Bytes) (A : ℕ → Type 0) (k : ℕ) (p : SelectiveRepeat) (count : ℕ)
    (p' : SelectiveRepeat) : Type 0 where
  pub sends : Sends content A p'
  pub phase : Phase content p'
  pub same : p'.seq_num ≡ p.seq_num
  pub counts : p'.window ≡ [] → 1 ≤ count
  pub front : Front p'
  pub forward : p.next_expected ≤ p'.next_expected
  pub further : k ≡ p.next_expected → p.next_expected < p'.next_expected

handle_ack_window :
    (pkt : Packet) (p : SelectiveRepeat)
    → p.next_expected ≤ pkt.seq_num
    → ((handle_ack pkt p).1.window ≡ acknowledged pkt p)
      × ((handle_ack pkt p).1.op_type ≡ p.op_type)
      × ((handle_ack pkt p).1.protocol ≡ p.protocol)
      × ((handle_ack pkt p).1.chunk_size ≡ p.chunk_size)
unfolding handle_ack
handle_ack_window pkt p h =
    rw (le→ltb pkt.seq_num p.next_expected h, handle_ack) (refl, refl, refl, refl)

module _ (content : Bytes) (A : ℕ → Type 0) (pkt : Packet) (p : SelectiveRepeat)
    (inv : Sends content A p) (number : IsNumber content pkt.seq_num)
    (sent : pkt.seq_num < p.seq_num) (there : A pkt.seq_num) where
  acknowledged-IsGood :
      AllValues (λ entry. IsGood content A p.seq_num entry.pkt) (acknowledged pkt p)
  acknowledged-IsGood =
      All-if _ _ _ (Dict.contains pkt.seq_num p.window)
        (AllValues-erase (λ entry. IsGood content A p.seq_num entry.pkt) pkt.seq_num p.window
          inv.items)
        inv.items

  Slides-Phase :
      (event : Option Event) (p' : SelectiveRepeat)
      → Slides pkt p event p'
      → Phase content p
      → Phase content p'
  Slides-Phase event p' d (inl s) = inl (record { short = omega (arith, s.short, d.kept.0) })
  Slides-Phase event p' d (inr f) = inr (record {
    started = omega (arith, f.started, d.kept.0);
    whole = omega (arith, f.whole, d.kept.0);
    short = omega (arith, f.short, d.kept.0);
    last =
        let (entry, was) = lookup_of_contains (p.seq_num - 1) p.window f.last in
        let far : p.seq_num - 1 ≢ pkt.seq_num =
          λ e. absurd (omega (arith, number.within, number.positive, f.whole, f.started)) in
        let found : Dict.lookup (p.seq_num - 1) p'.window ≡ some entry =
          ground (arith, d.removed (p.seq_num - 1), far, was) in
        ap (λ (n : ℕ). Dict.contains (n - 1) p'.window) d.kept.0
        ∙ contains_of_lookup (p.seq_num - 1) entry p'.window found;
  })

  Slides-Advances :
      (event : Option Event) (p' : SelectiveRepeat)
      → p.next_expected ≤ pkt.seq_num
      → Phase content p
      → IsSending p'
      → p'.window ≡ acknowledged pkt p
      → (p'.op_type ≡ p.op_type) × (p'.protocol ≡ p.protocol) × (p'.chunk_size ≡ p.chunk_size)
      → (d : Slides pkt p event p') → Advances content A pkt.seq_num p d.count p'
  unfolding Dict.contains
  Slides-Advances event p' low phase right window (op_type, protocol, chunk_size) d = record {
    sends = record {
      right = right;
      op_type = omega (arith, inv.op_type);
      protocol = omega (arith, inv.protocol);
      chunk_size = chunk_size ∙ inv.chunk_size;
      sized = omega (arith, d.kept.1, inv.sized);
      items =
          subst (λ (w : Dict ℕ Entry). AllValues (λ entry. IsGood content A p'.seq_num entry.pkt) w)
            (sym window)
            (All-weaken (acknowledged pkt p)
              (λ item good.
                IsGood-grows content A A p.seq_num p'.seq_num item.1.pkt (λ k a. a)
                  (omega (arith, d.kept.0)) good)
              acknowledged-IsGood);
      acked = λ k one below out. elim (ℕ_discrete k pkt.seq_num) [
        | yes e ↦ subst A (sym e) there
        | no far ↦ inv.acked k one (omega (arith, d.kept.0)) (ground (arith, d.removed k, far, out))
      ];
    };
    phase = Slides-Phase event p' d phase;
    same = d.kept.0;
    counts = λ empty. elim d.stops [
      | inl e ↦ omega (arith, d.moved)
      | inr c ↦ absurd (ground (arith, ap (Dict.contains p'.next_expected) empty))
    ];
    front = elim d.stops [ inl e ↦ inl (omega (arith, e, d.kept.0)) | inr c ↦ inr c ];
    forward = omega (arith, d.moved);
    further = λ e. elim d.stops [
      | inl stop ↦ omega (arith, e, stop, sent)
      | inr c ↦ elim (dec_lt p.next_expected p'.next_expected) [
        | yes more ↦ more
        | no same ↦ absurd (
            ground (
              arith,
              e,
              d.moved,
              d.removed p'.next_expected,
              lookup_of_contains p'.next_expected p'.window c,
            ))
      ]
    ];
  }

  -- A number that is not old.
  pub handle_ack_new :
      Phase content p
      → p.next_expected ≤ pkt.seq_num
      → (count : ℕ) × (p' : SelectiveRepeat) × (handle_ack pkt p ≡ (some (acked count), p'))
        × Advances content A pkt.seq_num p count p'
  handle_ack_new phase low =
      let d = handle_ack-Slides pkt p inv.right low in
      let (window, op_type, protocol, size) = handle_ack_window pkt p low in
      (
        d.count,
        (handle_ack pkt p).1,
        ap (λ (e : Option Event). (e, (handle_ack pkt p).1)) d.told,
        Slides-Advances (handle_ack pkt p).0 (handle_ack pkt p).1 low phase
            (handle_ack-IsSending pkt p inv.right) window (op_type, protocol, size) d,
      )

  -- The event and the object: unchanged for an old number, and otherwise further on.
  pub handle_ack-Advances :
      Phase content p
      → (handle_ack pkt p ≡ (none, p))
        ⊎ ((count : ℕ) × (p' : SelectiveRepeat) × (handle_ack pkt p ≡ (some (acked count), p'))
            × Advances content A pkt.seq_num p count p')
  handle_ack-Advances phase = elim (dec_lt pkt.seq_num p.next_expected) [
    | yes old ↦ inl (handle_ack_old pkt p old ∙ ground (arith, number.positive))
    | no later ↦ inr (handle_ack_new phase (omega arith))
  ]
