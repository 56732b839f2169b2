-- ===== src/SelectiveRepeat/Transfer.antt =====
-- The receiver of a whole transfer: `_handle_data` over the packets that arrive, in whatever order,
-- number and repetition the network brings them.
use fiuba_redes.Common.{
  ℕ, ◌-◌, ◌≤◌, ◌<◌, ◌≡◌, ◌⊎◌, inl, inr, refl, arith, Option, List, [], ◌∷◌, ◌++◌, ◌∙◌, length, take,
  take_of_length-le, All, nat_eq, dec_lt,
}
use fiuba_redes.Common.Dict.{lookup-nil}
use fiuba_redes.Event.{Event}
use fiuba_redes.Packet.{Packet, Bytes}
use fiuba_redes.SelectiveRepeat.{SelectiveRepeat, init, handle_data}
use fiuba_redes.SelectiveRepeat.Receiver.{
  Receiving, IsHonest, IsStored, Acks, data_of, handle_data-Receiving, handle_data-keeps,
  handle_data-Acks,
}
use mathlib.Core.List.{append-nil, append_assoc}

-- The events for a list of packets that arrive, and the receiver after them.
unfoldable pub receive : List Packet → SelectiveRepeat → List (Option Event) × SelectiveRepeat
receive [] s = ([], s)
receive (pkt ∷ pkts) s =
    let (event, s') = handle_data pkt s in
    let (events, s'') = receive pkts s' in (event ∷ events, s'')

abbrev pub written : List (Option Event) → List Bytes
written [] = []
written (event ∷ events) = data_of event ++ written events

-- Some event acknowledges the number k.
abbrev pub Acknowledged : ℕ → List (Option Event) → Type 0
Acknowledged k [] = ⊥
Acknowledged k (event ∷ events) = Acks k event ⊎ Acknowledged k events

receive-Receiving :
    (cs : List Bytes) (pkts : List Packet) (s : SelectiveRepeat) (out : List Bytes)
    → Receiving cs s out
    → All (IsHonest cs) pkts
    → Receiving cs (receive pkts s).1 (out ++ written (receive pkts s).0)
unfolding receive
receive-Receiving cs [] s out inv _ = rw (append-nil out) inv
receive-Receiving cs (pkt ∷ pkts) s out inv (honest, rest) =
    let (event, s') = handle_data pkt s in
    rw (← append_assoc out (data_of event) (written (receive pkts s').0)) (
      receive-Receiving cs pkts s' (out ++ data_of event)
        (handle_data-Receiving cs pkt s out inv honest) rest)

receive-keeps :
    (cs : List Bytes) (pkts : List Packet) (s : SelectiveRepeat) (out : List Bytes) (k : ℕ)
    → Receiving cs s out
    → All (IsHonest cs) pkts
    → IsStored k s
    → IsStored k (receive pkts s).1
unfolding receive
receive-keeps cs [] s out k inv _ held = held
receive-keeps cs (pkt ∷ pkts) s out k inv (honest, rest) held =
    receive-keeps cs pkts (handle_data pkt s).1 (out ++ data_of (handle_data pkt s).0) k
      (handle_data-Receiving cs pkt s out inv honest) rest
      (handle_data-keeps cs pkt s out k inv honest held)

receive-Acknowledged :
    (cs : List Bytes) (pkts : List Packet) (s : SelectiveRepeat) (out : List Bytes) (k : ℕ)
    → Receiving cs s out
    → All (IsHonest cs) pkts
    → Acknowledged k (receive pkts s).0
    → IsStored k (receive pkts s).1
unfolding receive
receive-Acknowledged cs [] s out k inv _ a = absurd a
receive-Acknowledged cs (pkt ∷ pkts) s out k inv (honest, rest) (inl a) =
    receive-keeps cs pkts (handle_data pkt s).1 (out ++ data_of (handle_data pkt s).0) k
      (handle_data-Receiving cs pkt s out inv honest) rest
      (handle_data-Acks cs pkt s out k inv honest a)
receive-Acknowledged cs (pkt ∷ pkts) s out k inv (honest, rest) (inr a) =
    receive-Acknowledged cs pkts (handle_data pkt s).1 (out ++ data_of (handle_data pkt s).0) k
      (handle_data-Receiving cs pkt s out inv honest) rest a

pub init-Receiving : (cs : List Bytes) (op_type : ℕ) → Receiving cs (init op_type) []
init-Receiving cs op_type = record {
  prefix = refl;
  positive = omega arith;
  genuine = λ k b h. absurd (ground (arith, lookup-nil {V = Bytes} k));
  windowed = λ k b h. absurd (ground (arith, lookup-nil {V = Bytes} k));
}

-- Whatever packets of the peer arrive, in whatever order and however often, what is handed over is
-- a prefix of the peer's chunks, in order, each once: as many as `next_expected` counts.
pub written-eq-take :
    (cs : List Bytes) (op_type : ℕ) (pkts : List Packet)
    → All (IsHonest cs) pkts
    → let (events, s) = receive pkts (init op_type) in
      written events ≡ take (s.next_expected - 1) cs
written-eq-take cs op_type pkts honest =
    (receive-Receiving cs pkts (init op_type) [] (init-Receiving cs op_type) honest).prefix

-- Once every chunk of the peer has been acknowledged, all of them have been handed over, in order.
pub written_of_Acknowledged :
    (cs : List Bytes) (op_type : ℕ) (pkts : List Packet)
    → All (IsHonest cs) pkts
    → ((k : ℕ) → 1 ≤ k → k ≤ length cs → Acknowledged k (receive pkts (init op_type)).0)
    → written (receive pkts (init op_type)).0 ≡ cs
written_of_Acknowledged cs op_type pkts honest all =
    inv.prefix
    ∙ take_of_length-le (s.next_expected - 1) cs (past (dec_lt (length cs) s.next_expected))
  where
    s : SelectiveRepeat
    s = (receive pkts (init op_type)).1

    inv : Receiving cs s (written (receive pkts (init op_type)).0)
    inv = receive-Receiving cs pkts (init op_type) [] (init-Receiving cs op_type) honest

    missing : IsStored s.next_expected s → ⊥
    missing (inl below) = omega arith
    missing (inr (b, there)) = omega (arith, (inv.genuine s.next_expected b there).1)

    past : Dec (length cs < s.next_expected) → length cs ≤ s.next_expected - 1
    past (yes above) = omega arith
    past (no below) = absurd (
        missing (
          receive-Acknowledged cs pkts (init op_type) [] s.next_expected (init-Receiving cs op_type)
            honest (all s.next_expected inv.positive (omega arith))))
