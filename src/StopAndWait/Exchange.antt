-- ===== src/StopAndWait/Exchange.antt =====
-- Stop and wait as a transfer: what the receiver hands over, and one packet in flight.
use fiuba_redes.Common.{
  ℕ, suc, ◌+◌, ◌-◌, ◌≤◌, ◌<◌, ◌≡◌, ◌⊎◌, inl, inr, refl, ap, sym, ltb, Bool-cases, Option-cases, ◌↔◌,
  ◌≢◌, ◌∙◌, arith, Option, none, some, false, List, [], ◌∷◌, ◌++◌, length, take, take_next,
  take_of_length-le, get_elem?, All, ◌==◌, nat_eq, ℕ_discrete,
}
use fiuba_redes.Event.{Event, ack_init, acked, received}
use fiuba_redes.Packet.{Packet, Bytes}
use fiuba_redes.SelectiveRepeat.Receiver.{data_of, Acks, IsHonest}
use fiuba_redes.SelectiveRepeat.Transfer.{written, Acknowledged}
use fiuba_redes.StopAndWait.{StopAndWait, init, handle_data, handle_ack}
use mathlib.Core.List.{append-nil, append_assoc}

-- The events for a list of packets that arrive, and the receiver after them.
unfoldable pub receive : List Packet → StopAndWait → List (Option Event) × StopAndWait
receive [] s = ([], s)
receive (pkt ∷ pkts) s =
    let (event, s') = handle_data pkt s in
    let (events, s'') = receive pkts s' in (event ∷ events, s'')

record Receiving (cs : List Bytes) (s : StopAndWait) (out : List Bytes) : Type 0 where
  prefix : out ≡ take (s.next_expected - 1) cs
  positive : 1 ≤ s.next_expected

-- The expected packet is handed over, an older one is acknowledged again, a later one is ignored.
handle_data_cases {ℓ} :
    (P : Option Event → StopAndWait → Type ℓ) (pkt : Packet) (s : StopAndWait)
    → (pkt.seq_num ≡ s.next_expected
        → P
            (some (received pkt.seq_num (some (pkt.payload ∷ []))))
            (record s { next_expected = s.next_expected + 1 }))
    → (pkt.seq_num < s.next_expected → P (some (received pkt.seq_num none)) s)
    → P none s
    → P (handle_data pkt s).0 (handle_data pkt s).1
unfolding handle_data
handle_data_cases P pkt s now old later = elim (Bool-cases (pkt.seq_num == s.next_expected)) [
  | inl e ↦ rw (e, handle_data) (now (ground arith))
  | inr e ↦ elim (Bool-cases (ltb pkt.seq_num s.next_expected)) [
    | inl f ↦ rw (e, f, handle_data) (old (ground arith))
    | inr f ↦ rw (e, f, handle_data) later
  ]
]

next-Receiving :
    (cs : List Bytes) (pkt : Packet) (s : StopAndWait) (out : List Bytes)
    → Receiving cs s out
    → IsHonest cs pkt
    → pkt.seq_num ≡ s.next_expected
    → Receiving cs (record s { next_expected = s.next_expected + 1 }) (out ++ (pkt.payload ∷ []))
next-Receiving cs pkt s out inv honest now =
    let there : get_elem? cs (s.next_expected - 1) ≡ some pkt.payload =
      ap (λ (n : ℕ). get_elem? cs (n - 1)) (sym now) ∙ honest.carries in
    let step : s.next_expected + 1 - 1 ≡ suc (s.next_expected - 1) = omega (arith, inv.positive) in
    record {
      prefix =
          ap (λ (l : List Bytes). l ++ (pkt.payload ∷ [])) inv.prefix
          ∙ (sym (take_next (s.next_expected - 1) cs pkt.payload there)
              ∙ ap (λ (n : ℕ). take n cs) (sym step));
      positive = omega arith;
    }

handle_data-Receiving :
    (cs : List Bytes) (pkt : Packet) (s : StopAndWait) (out : List Bytes)
    → Receiving cs s out
    → IsHonest cs pkt
    → Receiving cs (handle_data pkt s).1 (out ++ data_of (handle_data pkt s).0)
handle_data-Receiving cs pkt s out inv honest =
    handle_data_cases (λ event s'. Receiving cs s' (out ++ data_of event)) pkt s
      (next-Receiving cs pkt s out inv honest) (λ _. rw (append-nil out) inv)
      (rw (append-nil out) inv)

-- `next_expected` never falls, and passes every number that is acknowledged.
handle_data-passes :
    (pkt : Packet) (s : StopAndWait) (k : ℕ)
    → ((k < s.next_expected) ⊎ Acks k (handle_data pkt s).0)
    → k < (handle_data pkt s).1.next_expected
handle_data-passes pkt s k =
    handle_data_cases (λ event s'. ((k < s.next_expected) ⊎ Acks k event) → k < s'.next_expected)
      pkt s (λ e h. next e h) (λ e h. again e h) (λ h. below h)
  where
    next :
        pkt.seq_num ≡ s.next_expected
        → ((k < s.next_expected) ⊎ (pkt.seq_num ≡ k))
        → k < s.next_expected + 1
    next e (inl h) = omega (arith, h)
    next e (inr h) = omega (arith, e, h)

    again :
        pkt.seq_num < s.next_expected
        → ((k < s.next_expected) ⊎ (pkt.seq_num ≡ k))
        → k < s.next_expected
    again e (inl h) = h
    again e (inr h) = omega (arith, e, h)

    below : ((k < s.next_expected) ⊎ ⊥) → k < s.next_expected
    below (inl h) = h
    below (inr h) = absurd h

receive-Receiving :
    (cs : List Bytes) (pkts : List Packet) (s : StopAndWait) (out : List Bytes)
    → Receiving cs s out
    → All (IsHonest cs) pkts
    → Receiving cs (receive pkts s).1 (out ++ written (receive pkts s).0)
unfolding receive
receive-Receiving cs [] s out inv _ = rw (append-nil out) inv
receive-Receiving cs (pkt ∷ pkts) s out inv (honest, rest) =
    let (event, s') = handle_data pkt s in
    rw (← append_assoc out (data_of event) (written (receive pkts s').0)) (
      receive-Receiving cs pkts s' (out ++ data_of event)
        (handle_data-Receiving cs pkt s out inv honest) rest)

receive-passes :
    (pkts : List Packet) (s : StopAndWait) (k : ℕ)
    → ((k < s.next_expected) ⊎ Acknowledged k (receive pkts s).0)
    → k < (receive pkts s).1.next_expected
unfolding receive
receive-passes [] s k (inl h) = h
receive-passes [] s k (inr h) = absurd h
receive-passes (pkt ∷ pkts) s k (inl h) =
    receive-passes pkts (handle_data pkt s).1 k (inl (handle_data-passes pkt s k (inl h)))
receive-passes (pkt ∷ pkts) s k (inr (inl h)) =
    receive-passes pkts (handle_data pkt s).1 k (inl (handle_data-passes pkt s k (inr h)))
receive-passes (pkt ∷ pkts) s k (inr (inr h)) = receive-passes pkts (handle_data pkt s).1 k (inr h)

fresh-Receiving :
    (cs : List Bytes) (op_type : ℕ) (pkts : List Packet)
    → All (IsHonest cs) pkts
    → let (events, s) = receive pkts (init op_type) in Receiving cs s (written events)
fresh-Receiving cs op_type pkts honest =
    receive-Receiving cs pkts (init op_type) [] (record { prefix = refl; positive = omega arith })
      honest

-- Whatever packets of the peer arrive, in any order and however often, a stop-and-wait receiver
-- has handed over the chunks before `next_expected`, in order and each once.
pub written_prefix :
    (cs : List Bytes) (op_type : ℕ) (pkts : List Packet)
    → All (IsHonest cs) pkts
    → let (events, s) = receive pkts (init op_type) in
      written events ≡ take (s.next_expected - 1) cs
written_prefix cs op_type pkts honest = (fresh-Receiving cs op_type pkts honest).prefix

-- Whatever packets of the peer arrive, in any order and however often: once a stop-and-wait
-- receiver has acknowledged the number of the last chunk it has handed over all chunks, in order.
pub written_of_Acknowledged_last :
    (cs : List Bytes) (op_type : ℕ) (pkts : List Packet)
    → All (IsHonest cs) pkts
    → Acknowledged (length cs) (receive pkts (init op_type)).0
    → written (receive pkts (init op_type)).0 ≡ cs
written_of_Acknowledged_last cs op_type pkts honest last =
    written_prefix cs op_type pkts honest
    ∙ take_of_length-le ((receive pkts (init op_type)).1.next_expected - 1) cs
        (omega (arith, receive-passes pkts (init op_type) (length cs) (inr last)))

-- The cases of an acknowledgement: the connection's, the one of the packet in flight, any other.
handle_ack_first :
    (pkt : Packet) (s : StopAndWait)
    → pkt.seq_num ≡ 0
    → handle_ack pkt s ≡ (some (ack_init s.op_type 1), s)
unfolding handle_ack
handle_ack_first pkt s e = ground arith

handle_ack_mine :
    (pkt : Packet) (s : StopAndWait) (sent : Packet)
    → pkt.seq_num ≢ 0
    → s.pending ≡ some sent
    → pkt.seq_num ≡ sent.seq_num
    → handle_ack pkt s ≡ (some (acked 1), record s { pending = none; waiting_ack = false })
unfolding handle_ack
handle_ack_mine pkt s sent e q f = ground arith

handle_ack_other :
    (pkt : Packet) (s : StopAndWait)
    → pkt.seq_num ≢ 0
    → ((sent : Packet) → s.pending ≡ some sent → pkt.seq_num ≢ sent.seq_num)
    → handle_ack pkt s ≡ (none, s)
unfolding handle_ack
handle_ack_other pkt s e other = elim (Option-cases s.pending) [
  | inl n ↦ ground arith
  | inr (sent, q) ↦ let f = other sent q in ground arith
]

handle_ack_cases {ℓ} :
    (P : Option Event × StopAndWait → Type ℓ) (pkt : Packet) (s : StopAndWait)
    → (pkt.seq_num ≡ 0 → P (some (ack_init s.op_type 1), s))
    → ((sent : Packet)
        → pkt.seq_num ≢ 0
        → s.pending ≡ some sent
        → pkt.seq_num ≡ sent.seq_num
        → P (some (acked 1), record s { pending = none; waiting_ack = false }))
    → (pkt.seq_num ≢ 0
        → ((sent : Packet) → s.pending ≡ some sent → pkt.seq_num ≢ sent.seq_num)
        → P (none, s))
    → P (handle_ack pkt s)
handle_ack_cases P pkt s first mine other = elim (ℕ_discrete pkt.seq_num 0) [
  | yes e ↦ rw (handle_ack_first pkt s e) (first e)
  | no e ↦ elim (Option-cases s.pending) [
    | inl n ↦
        let none_fits : (sent : Packet) → s.pending ≡ some sent → pkt.seq_num ≢ sent.seq_num =
          λ sent h. absurd (clash (sym n ∙ h)) in
        rw (handle_ack_other pkt s e none_fits) (other e none_fits)
    | inr (sent, q) ↦ elim (ℕ_discrete pkt.seq_num sent.seq_num) [
      | yes f ↦ rw (handle_ack_mine pkt s sent e q f) (mine sent e q f)
      | no f ↦
          let misfits : (other' : Packet) → s.pending ≡ some other' → pkt.seq_num ≢ other'.seq_num =
            λ other' h g. f (g ∙ ap (λ (o : Option Packet). number o) (sym h ∙ q)) in
          rw (handle_ack_other pkt s e misfits) (other e misfits)
    ]
  ]
]
  where
    clash : {o : Packet} → none ≡ some o → ⊥
    clash h = ground arith

    number : Option Packet → ℕ
    number none = 0
    number (some o) = o.seq_num

-- An acknowledgement counts exactly if it has the number of the packet in flight and is not the
-- connection's, number 0.
pub handle_ack-acked_iff :
    (pkt : Packet) (s : StopAndWait)
    → ((handle_ack pkt s).0 ≡ some (acked 1)) ↔ (
        (pkt.seq_num ≢ 0)
        × ((sent : Packet) × (s.pending ≡ some sent) × (pkt.seq_num ≡ sent.seq_num)))
handle_ack-acked_iff pkt s =
    handle_ack_cases
      (λ (event, s'). (event ≡ some (acked 1)) ↔ (
        (pkt.seq_num ≢ 0)
        × ((sent : Packet) × (s.pending ≡ some sent) × (pkt.seq_num ≡ sent.seq_num))))
      pkt s (λ e. (λ h. absurd (ground arith), λ h. absurd (h.0 e)))
      (λ sent e q f. (λ _. (e, (sent, q, f)), λ _. refl))
      (λ e none_fits.
        (λ h. absurd (ground arith), λ (_, (sent, q, f)). absurd (none_fits sent q f)))

-- After an acknowledgement that counts nothing is in flight, and any other changes nothing.
pub handle_ack-pending :
    (pkt : Packet) (s : StopAndWait)
    → let (event, s') = handle_ack pkt s in
      ((event ≡ some (acked 1)) × (s' ≡ record s { pending = none; waiting_ack = false }))
      ⊎ ((event ≢ some (acked 1)) × (s' ≡ s))
handle_ack-pending pkt s =
    handle_ack_cases
      (λ (event, s').
        ((event ≡ some (acked 1)) × (s' ≡ record s { pending = none; waiting_ack = false }))
        ⊎ ((event ≢ some (acked 1)) × (s' ≡ s)))
      pkt s (λ _. inr ((λ e. ground arith), refl)) (λ _ _ _ _. inl (refl, refl))
      (λ _ _. inr ((λ e. ground arith), refl))
