-- ===== src/SelectiveRepeat/Sender.antt =====
-- The sending side: the window, its slide on an acknowledgement, and what may be in flight.
use fiuba_redes.Common.{
  ℕ, zero, suc, ◌+◌, ◌-◌, ◌≤◌, ◌<◌, ◌≡◌, ◌⊎◌, inl, inr, refl, arith, true, false, not, ◌&&◌, Option,
  none, some, ltb, ◌==◌, nat_eq, if◌then◌else◌, Bool-cases, ℕ_discrete, dec_lt, le→ltb, lt→ltb,
}
use fiuba_redes.Common.Dict
use fiuba_redes.Common.Dict.{
  Dict, lookup-erase, lookup-insert, none_of_contains, contains_of_none, contains_of_lookup,
}
use fiuba_redes.Event.{Event, ack_init, acked}
use fiuba_redes.Packet.{Packet}
use fiuba_redes.SelectiveRepeat.{SelectiveRepeat, Entry, slide, handle_ack}

-- The numbers in the window are those sent and not yet acknowledged: at `next_expected` or above,
-- below `seq_num`, and each entry holds the packet of its number.
pub record IsSending (s : SelectiveRepeat) : Type 0 where
  pub ordered : s.next_expected ≤ s.seq_num
  pub positive : 1 ≤ s.next_expected
  pub unacknowledged :
      (k : ℕ) (entry : Entry)
      → Dict.lookup k s.window ≡ some entry
      → (s.next_expected ≤ k) × (k < s.seq_num) × (entry.pkt.seq_num ≡ k)

-- The result of the loop from `next` and `count`: it stops at `seq_num` or at the first number
-- that is still in the window, all numbers that it passes are out of the window, and the count
-- grows by the number of steps.
pub record Slid (window : Dict ℕ Entry) (seq_num next count next' count' : ℕ) : Type 0 where
  pub counted : next + count' ≡ next' + count
  pub forward : next ≤ next'
  pub within : next' ≤ seq_num
  pub stops : (next' ≡ seq_num) ⊎ (Dict.contains next' window ≡ true)
  pub passed : (k : ℕ) → next ≤ k → k < next' → Dict.contains k window ≡ false

slide-Slid :
    (fuel : ℕ) (window : Dict ℕ Entry) (seq_num next count : ℕ)
    → next ≤ seq_num
    → seq_num - next ≤ fuel
    → let (next', count') = slide fuel window seq_num next count in
      Slid window seq_num next count next' count'
unfolding slide
slide-Slid zero window seq_num next count low small = record {
  counted = refl;
  forward = omega arith;
  within = omega arith;
  stops = inl (omega arith);
  passed = λ k h g. absurd (omega arith);
}
slide-Slid (suc fuel) window seq_num next count low small =
    elim (Bool-cases (ltb next seq_num && not (Dict.contains next window))) [
      | inl more ↦
          rw (more, slide)
            (one_step (ground arith)
              (slide-Slid fuel window seq_num (next + 1) (count + 1) (ground arith) (omega arith)))
      | inr stop ↦
          rw (stop, slide)
            (record {
              counted = refl;
              forward = omega arith;
              within = low;
              stops = ground arith;
              passed = λ k h g. absurd (omega arith);
            })
    ]
  where
    one_step :
        {next' count' : ℕ}
        → Dict.contains next window ≡ false
        → Slid window seq_num (next + 1) (count + 1) next' count'
        → Slid window seq_num next count next' count'
    one_step out d = record {
      counted = omega (arith, d.counted);
      forward = omega (arith, d.forward);
      within = d.within;
      stops = d.stops;
      passed = λ k h g. elim (ℕ_discrete k next) [
        | yes e ↦ rw e out
        | no ne ↦ d.passed k (omega arith) g
      ];
    }

-- The window without the acknowledged number, and the slide over it.
abbrev pub acknowledged : Packet → SelectiveRepeat → Dict ℕ Entry
acknowledged pkt s =
    if Dict.contains pkt.seq_num s.window then Dict.erase pkt.seq_num s.window else s.window

abbrev pub slid : Packet → SelectiveRepeat → ℕ × ℕ
slid pkt s = slide (s.seq_num - s.next_expected) (acknowledged pkt s) s.seq_num s.next_expected 0

pub lookup-acknowledged :
    (k : ℕ) (pkt : Packet) (s : SelectiveRepeat)
    → Dict.lookup k (acknowledged pkt s)
      ≡ (if k == pkt.seq_num then none else Dict.lookup k s.window)
lookup-acknowledged k pkt s =
    ground (arith, lookup-erase k pkt.seq_num s.window, none_of_contains pkt.seq_num s.window)

-- What an acknowledgement at or above `next_expected` does: the number leaves the window,
-- `next_expected` moves over all that is acknowledged, up to the first number that is not, and the
-- event says by how many.
pub record Slides (pkt : Packet) (s : SelectiveRepeat) (event : Option Event) (s' : SelectiveRepeat)
    : Type 0 where
  pub count : ℕ
  pub told : event ≡ some (acked count)
  pub moved : s'.next_expected ≡ s.next_expected + count
  pub within : s'.next_expected ≤ s.seq_num
  pub stops : (s'.next_expected ≡ s.seq_num) ⊎ (Dict.contains s'.next_expected s'.window ≡ true)
  pub passed :
      (k : ℕ)
      → s.next_expected ≤ k
      → k < s'.next_expected
      → (k ≡ pkt.seq_num) ⊎ (Dict.contains k s.window ≡ false)
  pub removed :
      (k : ℕ)
      → Dict.lookup k s'.window ≡ (if k == pkt.seq_num then none else Dict.lookup k s.window)
  pub kept : (s'.seq_num ≡ s.seq_num) × (s'.window_size ≡ s.window_size)

pub handle_ack-Slides :
    (pkt : Packet) (s : SelectiveRepeat)
    → IsSending s
    → s.next_expected ≤ pkt.seq_num
    → Slides pkt s (handle_ack pkt s).0 (handle_ack pkt s).1
unfolding handle_ack
handle_ack-Slides pkt s inv low =
    rw (le→ltb pkt.seq_num s.next_expected low, handle_ack)
      (record {
        count = (slid pkt s).1;
        told = refl;
        moved = omega (arith, d.counted);
        within = d.within;
        stops = d.stops;
        passed = λ k h g. ground (
          arith,
          d.passed k h g,
          lookup-acknowledged k pkt s,
          none_of_contains k (acknowledged pkt s),
          contains_of_none k s.window,
        );
        removed = λ k. lookup-acknowledged k pkt s;
        kept = (refl, refl);
      })
  where
    d : Slid (acknowledged pkt s) s.seq_num s.next_expected 0 (slid pkt s).0 (slid pkt s).1
    d =
        slide-Slid (s.seq_num - s.next_expected) (acknowledged pkt s) s.seq_num s.next_expected 0
          inv.ordered (omega arith)

-- Below `next_expected` nothing changes, and only the number 0 is an event: the connection's.
pub handle_ack_old :
    (pkt : Packet) (s : SelectiveRepeat)
    → pkt.seq_num < s.next_expected
    → handle_ack pkt s
      ≡ (if pkt.seq_num == 0 then some (ack_init pkt.op_type s.window_size) else none, s)
unfolding handle_ack
handle_ack_old pkt s h = rw (lt→ltb pkt.seq_num s.next_expected h, handle_ack)

-- An acknowledgement keeps the sender right.
pub handle_ack-IsSending :
    (pkt : Packet) (s : SelectiveRepeat) → IsSending s → IsSending (handle_ack pkt s).1
handle_ack-IsSending pkt s inv = elim (dec_lt pkt.seq_num s.next_expected) [
  | yes old ↦ rw (handle_ack_old pkt s old) inv
  | no new ↦ slides (handle_ack-Slides pkt s inv (omega arith))
]
  where
    slides : {event : Option Event} {s' : SelectiveRepeat} → Slides pkt s event s' → IsSending s'
    slides {event} {s'} d = record {
      ordered = omega (arith, d.within, d.kept.0);
      positive = omega (arith, d.moved);
      unacknowledged = λ k entry h.
          let was : Dict.lookup k s.window ≡ some entry = ground (arith, d.removed k) in
          let (low, high, number) = inv.unacknowledged k entry was in
          (
            ground (arith, d.passed k low, d.removed k, contains_of_lookup k entry s.window was),
            omega (arith, d.kept.0),
            number,
          );
    }
