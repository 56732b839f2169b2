-- ===== src/SelectiveRepeat/Pushing.antt =====
-- `push_payload`: how a read block is cut into packets, and what the object keeps of them.
use fiuba_redes.Common.{
  ℕ, zero, suc, ◌+◌, ◌*◌, ◌^◌, ◌≤◌, ◌<◌, ◌≡◌, refl, ap, ◌∙◌, arith, some, List, [], ◌∷◌, map,
  flatten, length, take, drop, get_elem?, ℕ_discrete, length-take, drop_of_length-le, drop-drop,
  take-append-drop, dec_lt, lt→ltb, le→ltb, nat_eq,
}
use mathlib.Core.Logic.{if_neg}
use mathlib.Core.Option.{some-injective}
use fiuba_redes.Common.Dict
use fiuba_redes.Common.Dict.{Dict, lookup-insert}
use fiuba_redes.Constants.{type_data}
use fiuba_redes.Exceptions.{Result, ok}
use fiuba_redes.Packet.{Packet, Bytes, new}
use fiuba_redes.Packet.Header.{Fits}
use fiuba_redes.Packet.RoundTrip.{wire, to_bytes-wire}
use fiuba_redes.Runtime.{Runtime, IsRuntime}
use fiuba_redes.SelectiveRepeat.{SelectiveRepeat, compose, offsets, push_loop, push_payload}
use fiuba_redes.SelectiveRepeat.Sender.{IsSending}

-- The slices at the offsets, joined, are the bytes from the first offset on.
pub cut :
    (payload : Bytes) (step fuel i : ℕ)
    → 0 < step
    → length payload ≤ fuel + i
    → flatten (map (λ j. take step (drop j payload)) (offsets fuel i (length payload) step))
      ≡ drop i payload
unfolding offsets flatten
cut payload step zero i pos enough = rw (drop_of_length-le i payload (omega arith))
cut payload step (suc fuel) i pos enough = elim (dec_lt i (length payload)) [
  | yes more ↦
      rw
        (
          lt→ltb i (length payload) more,
          cut payload step fuel (i + step) pos (omega arith),
          ← drop-drop i step payload,
        )
        (take-append-drop step (drop i payload))
  | no done ↦
      rw (le→ltb i (length payload) (omega arith), drop_of_length-le i payload (omega arith))
]

abbrev pub data_packet : SelectiveRepeat → Bytes → ℕ → Packet
data_packet s payload i =
    new type_data s.op_type s.protocol (take s.chunk_size (drop i payload)) s.seq_num

-- The object after the packet of one slice is composed and put into the window.
abbrev pub pushed : (ℕ → ℕ) → SelectiveRepeat → Bytes → ℕ → SelectiveRepeat
pushed clock s payload i = record s {
  window =
      Dict.insert s.seq_num (record { pkt = data_packet s payload i; time = clock s.seq_num })
        s.window;
  seq_num = s.seq_num + 1;
}

unfoldable pub packets : (ℕ → ℕ) → SelectiveRepeat → Bytes → List ℕ → List Packet
packets clock s payload [] = []
packets clock s payload (i ∷ is) =
    data_packet s payload i ∷ packets clock (pushed clock s payload i) payload is

unfoldable pub pushed_all : (ℕ → ℕ) → SelectiveRepeat → Bytes → List ℕ → SelectiveRepeat
pushed_all clock s payload [] = s
pushed_all clock s payload (i ∷ is) = pushed_all clock (pushed clock s payload i) payload is

-- The header fields of the object's packets fit, up to the numbers of `n` more packets.
pub record HasRoom (s : SelectiveRepeat) (n : ℕ) : Type 0 where
  pub op_type : s.op_type < 2
  pub protocol : s.protocol < 2
  pub chunk_size : (0 < s.chunk_size) × (s.chunk_size < 2 ^ 27)
  pub numbers : s.seq_num + n ≤ 2 ^ 32

pub data_packet-Fits :
    (s : SelectiveRepeat) (payload : Bytes) (i n : ℕ)
    → HasRoom s (suc n)
    → Fits (data_packet s payload i)
data_packet-Fits s payload i n room = record {
  pkt_type = omega arith;
  op_type = room.op_type;
  protocol = room.protocol;
  data_length = omega (arith, length-take s.chunk_size (drop i payload), room.chunk_size.1);
  seq_num = omega (arith, room.numbers);
  measured = refl;
}

push_loop_lem :
    (r : Runtime)
    → IsRuntime r
    → (clock : ℕ → ℕ) (payload : Bytes) (is : List ℕ) (s : SelectiveRepeat) → HasRoom s (length is)
    → push_loop r clock payload is s
      ≡ (ok (map (wire r.crc32) (packets clock s payload is)), pushed_all clock s payload is)
unfolding push_loop compose packets pushed_all
push_loop_lem r lib clock payload [] s room = refl
push_loop_lem r lib clock payload (i ∷ is) s room = rw (
  to_bytes-wire r.crc32 lib.crc32-lt (data_packet s payload i)
      (data_packet-Fits s payload i (length is) room),
  push_loop_lem r lib clock payload is (pushed clock s payload i) (record {
    op_type = room.op_type;
    protocol = room.protocol;
    chunk_size = room.chunk_size;
    numbers = omega (arith, room.numbers);
  }),
)

abbrev pub cuts : SelectiveRepeat → Bytes → List ℕ
cuts s payload = offsets (length payload) 0 (length payload) s.chunk_size

pub push_payload_lem :
    (r : Runtime)
    → IsRuntime r
    → (clock : ℕ → ℕ) (payload : Bytes) (s : SelectiveRepeat) → HasRoom s (length (cuts s payload))
    → push_payload r clock payload s ≡ (
      ok (map (wire r.crc32) (packets clock s payload (cuts s payload))),
      pushed_all clock s payload (cuts s payload),
    )
unfolding push_payload
push_payload_lem r lib clock payload s room = elim (ℕ_discrete s.chunk_size 0) [
  | yes e ↦ absurd (omega (arith, room.chunk_size.0))
  | no ne ↦ rw (if_neg _ ne) (push_loop_lem r lib clock payload (cuts s payload) s room)
]

-- No more packets than the slices that the bytes fill.
pub length-offsets-le :
    (fuel i stop step n : ℕ) → stop ≤ i + n * step → length (offsets fuel i stop step) ≤ n
unfolding offsets
length-offsets-le zero i stop step n h = omega arith
length-offsets-le (suc fuel) i stop step zero h = ground arith
length-offsets-le (suc fuel) i stop step (suc n) h =
    ground (arith, length-offsets-le fuel (i + step) stop step n)

module _ (clock : ℕ → ℕ) (payload : Bytes) where
  payload-packets :
      (is : List ℕ) (s : SelectiveRepeat)
      → map (λ p. p.payload) (packets clock s payload is)
        ≡ map (λ j. take s.chunk_size (drop j payload)) is
  unfolding packets
  payload-packets [] s = refl
  payload-packets (i ∷ is) s =
      ap (◌∷◌ (take s.chunk_size (drop i payload))) (payload-packets is (pushed clock s payload i))

  length-packets :
      (is : List ℕ) (s : SelectiveRepeat) → length (packets clock s payload is) ≡ length is
  unfolding packets
  length-packets [] s = refl
  length-packets (i ∷ is) s = ap suc (length-packets is (pushed clock s payload i))

  -- What stays of the object: all but the window and the next number.
  pub pushed_all-keeps :
      (is : List ℕ) (s : SelectiveRepeat)
      → let s' = pushed_all clock s payload is in
        (s'.seq_num ≡ s.seq_num + length is)
        × (s'.next_expected ≡ s.next_expected)
        × (s'.window_size ≡ s.window_size)
        × (s'.chunk_size ≡ s.chunk_size)
        × (s'.op_type ≡ s.op_type)
        × (s'.protocol ≡ s.protocol)
  unfolding pushed_all
  pushed_all-keeps [] s = (omega arith, refl, refl, refl, refl, refl)
  pushed_all-keeps (i ∷ is) s = ground (arith, pushed_all-keeps is (pushed clock s payload i))

  pushed-IsSending :
      (i : ℕ) (s : SelectiveRepeat) → IsSending s → IsSending (pushed clock s payload i)
  pushed-IsSending i s inv = record {
    ordered = omega (arith, inv.ordered);
    positive = inv.positive;
    unacknowledged = λ k entry h. ground (
      arith,
      lookup-insert k s.seq_num (record { pkt = data_packet s payload i; time = clock s.seq_num })
          s.window,
      inv.unacknowledged k entry,
      inv.ordered,
    );
  }

  pushed_all-IsSending :
      (is : List ℕ) (s : SelectiveRepeat) → IsSending s → IsSending (pushed_all clock s payload is)
  unfolding pushed_all
  pushed_all-IsSending [] s inv = inv
  pushed_all-IsSending (i ∷ is) s inv =
      pushed_all-IsSending is (pushed clock s payload i) (pushed-IsSending i s inv)

  -- Earlier entries stay as they are.
  lookup-pushed_all :
      (is : List ℕ) (s : SelectiveRepeat) (k : ℕ)
      → k < s.seq_num
      → Dict.lookup k (pushed_all clock s payload is).window ≡ Dict.lookup k s.window
  unfolding pushed_all
  lookup-pushed_all [] s k h = refl
  lookup-pushed_all (i ∷ is) s k h =
      lookup-pushed_all is (pushed clock s payload i) k (omega arith)
      ∙ ground (
        arith,
        lookup-insert k s.seq_num (record { pkt = data_packet s payload i; time = clock s.seq_num })
            s.window,
      )

  -- The n-th packet has the n-th number, fits a slice, and stands in the window with its time.
  packets-numbered :
      (is : List ℕ) (s : SelectiveRepeat) (n : ℕ) (p : Packet)
      → get_elem? (packets clock s payload is) n ≡ some p
      → (p.seq_num ≡ s.seq_num + n)
        × (p.pkt_type ≡ type_data)
        × (length p.payload ≤ s.chunk_size)
        × (Dict.lookup p.seq_num (pushed_all clock s payload is).window
            ≡ some (record { pkt = p; time = clock p.seq_num }))
  unfolding packets pushed_all
  packets-numbered [] s n p h = absurd (ground arith)
  packets-numbered (i ∷ is) s zero p h =
      let e : data_packet s payload i ≡ p = some-injective _ _ h in
      rw (← e) (
        omega arith,
        refl,
        omega (arith, length-take s.chunk_size (drop i payload)),
        lookup-pushed_all is (pushed clock s payload i) s.seq_num (omega arith)
            ∙ ground (
              arith,
              lookup-insert s.seq_num s.seq_num
                  (record { pkt = data_packet s payload i; time = clock s.seq_num }) s.window,
            ),
      )
  packets-numbered (i ∷ is) s (suc n) p h =
      let (a, b, c, d) = packets-numbered is (pushed clock s payload i) n p h in
      (omega (arith, a), b, c, d)

-- What `push_payload` did: the packets that it returned as bytes and left in the window.
pub record Pushes (r : Runtime) (clock : ℕ → ℕ) (payload : Bytes) (s : SelectiveRepeat)
    (result : Result (List Bytes) × SelectiveRepeat) (pkts : List Packet) : Type 0 where
  pub sent : result.0 ≡ ok (map (wire r.crc32) pkts)
  pub joined : flatten (map (λ p. p.payload) pkts) ≡ payload
  pub numbered :
      (n : ℕ) (p : Packet)
      → get_elem? pkts n ≡ some p
      → (p.seq_num ≡ s.seq_num + n)
        × (p.pkt_type ≡ type_data)
        × (length p.payload ≤ s.chunk_size)
        × (Dict.lookup p.seq_num result.1.window
            ≡ some (record { pkt = p; time = clock p.seq_num }))
  pub older : (k : ℕ) → k < s.seq_num → Dict.lookup k result.1.window ≡ Dict.lookup k s.window
  pub counted : result.1.seq_num ≡ s.seq_num + length pkts
  pub few : (n : ℕ) → length payload ≤ n * s.chunk_size → length pkts ≤ n
  pub right : IsSending s → IsSending result.1
  pub kept : (result.1.next_expected ≡ s.next_expected) × (result.1.window_size ≡ s.window_size)

-- `push_payload` raises nothing while the numbers fit 32 bits. It cuts the block into packets that
-- hold at most a chunk each and join to the block again, numbers them one after the other from
-- `seq_num`, returns their bytes in that order, and keeps each in the window with the time of its
-- sending. Older entries stay, and no more packets are made than the slices that the block fills.
pub push_payload-Pushes :
    (r : Runtime)
    → IsRuntime r
    → (clock : ℕ → ℕ) (payload : Bytes) (s : SelectiveRepeat) → HasRoom s (length (cuts s payload))
    → (pkts : List Packet) × Pushes r clock payload s (push_payload r clock payload s) pkts
push_payload-Pushes r lib clock payload s room = rw (push_payload_lem r lib clock payload s room) (
  packets clock s payload (cuts s payload),
  record {
    sent = refl;
    joined =
        rw (payload-packets clock payload (cuts s payload) s)
          (cut payload s.chunk_size (length payload) 0 room.chunk_size.0 (omega arith));
    numbered = packets-numbered clock payload (cuts s payload) s;
    older = lookup-pushed_all clock payload (cuts s payload) s;
    counted = omega (
      arith,
      (pushed_all-keeps clock payload (cuts s payload) s).0,
      length-packets clock payload (cuts s payload) s,
    );
    few = λ n h. omega (
      arith,
      length-packets clock payload (cuts s payload) s,
      length-offsets-le (length payload) 0 (length payload) s.chunk_size n (omega arith),
    );
    right = pushed_all-IsSending clock payload (cuts s payload) s;
    kept = (
      (pushed_all-keeps clock payload (cuts s payload) s).1,
      (pushed_all-keeps clock payload (cuts s payload) s).2,
    );
  },
)
