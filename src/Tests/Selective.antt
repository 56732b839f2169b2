-- ===== src/Tests/Selective.antt =====
-- SelectiveRepeat at concrete inputs: three chunks that arrive as 2, 1, 1, 3, and a sender with
-- four packets in flight.
use fiuba_redes.Common.{
  ℕ, zero, suc, ◌+◌, ◌-◌, ◌*◌, ◌<◌, ◌^◌, ◌≤◌, ◌≡◌, inl, inr, refl, sym, arith, false, not, ◌&&◌,
  ltb, Option, none, some, List, [], ◌∷◌, length, get_elem?, map, All, ℕ_discrete, nat_eq,
}
use fiuba_redes.Common.Dict
use fiuba_redes.Event.{Event, received, acked}
use fiuba_redes.Exceptions.{ok}
use fiuba_redes.Packet.{Packet, Bytes, new}
use fiuba_redes.Packet.RoundTrip.{wire}
use fiuba_redes.SelectiveRepeat.{
  SelectiveRepeat, Entry, init, handle_ack, slide, handle_data, deliver, offsets, push_payload,
  get_timedouts,
}
use fiuba_redes.SelectiveRepeat.Sender.{IsSending, Slides, handle_ack-Slides, handle_ack-IsSending}
use fiuba_redes.SelectiveRepeat.Pushing.{HasRoom, cuts, Pushes, push_payload-Pushes}
use fiuba_redes.SelectiveRepeat.Timers.{AllFit, late, rearmed, get_timedouts_lem}
use fiuba_redes.SelectiveRepeat.Receiver.{IsHonest}
use fiuba_redes.SelectiveRepeat.Transfer.{receive, written, Acknowledged, written_of_Acknowledged}
use fiuba_redes.SelectiveRepeat.Datagrams.{
  IsData, receive_raw, events_of, events_of-receive_raw, written_of_Acknowledged_raw,
}
use fiuba_redes.SelectiveRepeat.Loops.{loops_enough}
use mathlib.Core.Path.{subst}
use fiuba_redes.Tests.Packets.{runtime, runtime-IsRuntime}

abbrev chunks : List Bytes
chunks = (10 ∷ []) ∷ (20 ∷ 21 ∷ []) ∷ (30 ∷ []) ∷ []

abbrev arrivals : List Packet
arrivals =
    new 3 1 1 (20 ∷ 21 ∷ []) 2
    ∷ new 3 1 1 (10 ∷ []) 1
    ∷ new 3 1 1 (10 ∷ []) 1
    ∷ new 3 1 1 (30 ∷ []) 3
    ∷ []

IsHonest-at :
    (seq : ℕ) (chunk : Bytes)
    → 1 ≤ seq
    → get_elem? chunks (seq - 1) ≡ some chunk
    → IsHonest chunks (new 3 1 1 chunk seq)
IsHonest-at seq chunk low there = record { numbered = low; carries = there }

honest : All (IsHonest chunks) arrivals
honest = (
  IsHonest-at 2 (20 ∷ 21 ∷ []) (omega arith) refl,
  (
    IsHonest-at 1 (10 ∷ []) (omega arith) refl,
    (IsHonest-at 1 (10 ∷ []) (omega arith) refl, (IsHonest-at 3 (30 ∷ []) (omega arith) refl, tt)),
  ),
)

run : List (Option Event) × SelectiveRepeat
unfolding receive handle_data deliver Dict.lookup Dict.insert Dict.erase Dict.contains ℕ_discrete
run = receive arrivals (init 1)

run_events :
    run.0
    ≡ some (received 2 (some []))
      ∷ some (received 1 (some ((10 ∷ []) ∷ (20 ∷ 21 ∷ []) ∷ [])))
      ∷ some (received 1 none)
      ∷ some (received 3 (some ((30 ∷ []) ∷ [])))
      ∷ []
unfolding run
run_events = refl

all-Acknowledged : (k : ℕ) → 1 ≤ k → k ≤ 3 → Acknowledged k (receive arrivals (init 1)).0
unfolding run
all-Acknowledged zero low high = absurd (omega arith)
all-Acknowledged (suc zero) low high = inr (inl refl)
all-Acknowledged (suc (suc zero)) low high = inl refl
all-Acknowledged (suc (suc (suc zero))) low high = inr (inr (inr (inl refl)))
all-Acknowledged (suc (suc (suc (suc k)))) low high = absurd (omega arith)

written_of_Acknowledged_example : written (receive arrivals (init 1)).0 ≡ chunks
written_of_Acknowledged_example = written_of_Acknowledged chunks 1 arrivals honest all-Acknowledged

-- A block of 3000 bytes goes out as three packets.
abbrev fresh : SelectiveRepeat
fresh = record (init 1) { chunk_size = 2 }

fresh_room : HasRoom fresh (length (cuts fresh (1 ∷ 2 ∷ 3 ∷ 4 ∷ 5 ∷ [])))
unfolding offsets
fresh_room = omega arith

push_payload-Pushes_example :
    (pkts : List Packet) × Pushes runtime
      (λ n. n)
      (1 ∷ 2 ∷ 3 ∷ 4 ∷ 5 ∷ [])
      fresh
      (push_payload runtime (λ n. n) (1 ∷ 2 ∷ 3 ∷ 4 ∷ 5 ∷ []) fresh)
      pkts
push_payload-Pushes_example =
    push_payload-Pushes runtime runtime-IsRuntime (λ n. n) (1 ∷ 2 ∷ 3 ∷ 4 ∷ 5 ∷ []) fresh fresh_room

abbrev pub entry : ℕ → Entry
entry n = record { pkt = new 3 1 1 (n ∷ []) n; time = n * 1000 }

-- Packets 1, 2 and 4 are in flight; 3 has been acknowledged.
abbrev pub sender : SelectiveRepeat
sender = record (init 1) { window = (1, entry 1) ∷ (2, entry 2) ∷ (4, entry 4) ∷ []; seq_num = 5 }

pub sender-IsSending : IsSending sender
unfolding Dict.lookup
sender-IsSending = record {
  ordered = omega arith;
  positive = omega arith;
  unacknowledged = λ k x h. ground arith;
}

handle_ack-Slides_example :
    Slides
      (new 2 1 1 [] 1)
      sender
      (handle_ack (new 2 1 1 [] 1) sender).0
      (handle_ack (new 2 1 1 [] 1) sender).1
handle_ack-Slides_example = handle_ack-Slides (new 2 1 1 [] 1) sender sender-IsSending (omega arith)

slides_to_four :
    handle_ack
      (new 2 1 1 [] 2)
      (record sender { window = (2, entry 2) ∷ (4, entry 4) ∷ []; next_expected = 2 })
    ≡ (some (acked 2), record sender { window = (4, entry 4) ∷ []; next_expected = 4 })
unfolding handle_ack slide Dict.contains Dict.erase ℕ_discrete
slides_to_four = refl

handle_ack-IsSending_example : IsSending (handle_ack (new 2 1 1 [] 4) sender).1
handle_ack-IsSending_example = handle_ack-IsSending (new 2 1 1 [] 4) sender sender-IsSending

pub sender-AllFit : AllFit sender.window
sender-AllFit = omega arith

get_timedouts_lem_example : get_timedouts runtime 2100 (λ n. 2101) sender ≡ (
  ok (map (wire runtime.crc32) (late 2100 sender.window)),
  record sender { window = rearmed 2100 (λ n. 2101) sender.window },
)
get_timedouts_lem_example =
    get_timedouts_lem runtime runtime-IsRuntime 2100 (λ n. 2101) sender sender-AllFit

IsData-of :
    (chunk : Bytes) (seq : ℕ) → length chunk < 2 ^ 27 → seq < 2 ^ 32 → IsData (new 3 1 1 chunk seq)
IsData-of chunk seq small low = record {
  kind = refl;
  fits = record {
    pkt_type = omega arith;
    op_type = omega arith;
    protocol = omega arith;
    data_length = small;
    seq_num = low;
    measured = refl;
  };
}

datagrams : All IsData arrivals
datagrams = (
  IsData-of (20 ∷ 21 ∷ []) 2 (omega arith) (omega arith),
  (
    IsData-of (10 ∷ []) 1 (omega arith) (omega arith),
    (
      IsData-of (10 ∷ []) 1 (omega arith) (omega arith),
      (IsData-of (30 ∷ []) 3 (omega arith) (omega arith), tt),
    ),
  ),
)

all-Acknowledged_raw :
    (k : ℕ)
    → 1 ≤ k
    → k ≤ 3
    → Acknowledged k
        (events_of (receive_raw runtime (map (wire runtime.crc32) arrivals) (init 1)).0)
all-Acknowledged_raw k low high =
    subst (Acknowledged k)
      (sym (events_of-receive_raw runtime arrivals (init 1) runtime-IsRuntime datagrams))
      (all-Acknowledged k low high)

written_of_Acknowledged_raw_example :
    written (events_of (receive_raw runtime (map (wire runtime.crc32) arrivals) (init 1)).0)
    ≡ chunks
written_of_Acknowledged_raw_example =
    written_of_Acknowledged_raw runtime chunks 1 arrivals runtime-IsRuntime honest datagrams
      all-Acknowledged_raw

-- More fuel than a window of four numbers, a buffer of one and a payload of three bytes need.
loops_enough_example :
    let (next', count') = slide 10 sender.window 5 1 0 in
    let (written, buffer', next_data) = deliver 10 ((1, 7 ∷ []) ∷ []) 1 in
    (slide 10 sender.window 5 1 0 ≡ slide 4 sender.window 5 1 0)
    × (ltb next' 5 && not (Dict.contains next' sender.window) ≡ false)
    × (1 + count' ≡ next' + 0)
    × (deliver 10 ((1, 7 ∷ []) ∷ []) 1 ≡ deliver 1 ((1, 7 ∷ []) ∷ []) 1)
    × (Dict.lookup next_data buffer' ≡ none)
    × (next_data ≡ 1 + length written)
    × (offsets 10 0 3 2 ≡ offsets 3 0 3 2)
    × (3 ≤ length (offsets 10 0 3 2) * 2)
loops_enough_example =
    loops_enough 10 sender.window ((1, 7 ∷ []) ∷ []) 5 1 0 3 2 (omega arith) (omega arith)
      (omega arith) (omega arith)
