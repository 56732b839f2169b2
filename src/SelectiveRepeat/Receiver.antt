-- ===== src/SelectiveRepeat/Receiver.antt =====
-- `_handle_data` over any sequence of data packets: lost, repeated, late and out of order.
use fiuba_redes.Common.{
  ℕ, ◌+◌, ◌-◌, ◌≤◌, ◌<◌, ◌≡◌, ◌⊎◌, inl, inr, arith, true, false, Option, none, some, List, [], ◌++◌,
  length, take, get_elem?, nat_eq, ltb, leb, Bool-cases,
}
use fiuba_redes.Common.Dict
use fiuba_redes.Common.Dict.{Dict, lookup-insert, none_of_contains, lookup_of_contains}
use fiuba_redes.Event.{Event, received}
use fiuba_redes.Packet.{Packet, Bytes}
use fiuba_redes.SelectiveRepeat.{SelectiveRepeat, deliver, handle_data}
use fiuba_redes.SelectiveRepeat.Delivery.{Genuine, Delivers, deliver-Delivers}
use mathlib.Core.List.{append-nil}

-- The chunks that an event hands over to be written.
abbrev pub data_of : Option Event → List Bytes
data_of (some (received seq (some chunks))) = chunks
data_of _ = []

-- The event makes the owner acknowledge the number k.
abbrev pub Acks : ℕ → Option Event → Type 0
Acks k (some (received seq chunks)) = seq ≡ k
Acks k _ = ⊥

-- The packet carries the peer's chunk of its number.
pub record IsHonest (cs : List Bytes) (pkt : Packet) : Type 0 where
  pub numbered : 1 ≤ pkt.seq_num
  pub carries : get_elem? cs (pkt.seq_num - 1) ≡ some pkt.payload

pub record Receiving (cs : List Bytes) (s : SelectiveRepeat) (out : List Bytes) : Type 0 where
  pub prefix : out ≡ take (s.next_expected - 1) cs
  pub positive : 1 ≤ s.next_expected
  pub genuine : Genuine cs (s.next_expected + 1) s.buffer
  pub windowed :
      (k : ℕ) (b : Bytes) → Dict.lookup k s.buffer ≡ some b → k < s.next_expected + s.window_size

-- The chunk numbered k has been handed over or is in the buffer.
abbrev pub IsStored : ℕ → SelectiveRepeat → Type 0
IsStored k s = (k < s.next_expected) ⊎ ((b : Bytes) × (Dict.lookup k s.buffer ≡ some b))

-- What `deliver` gives for a new packet in the window.
fresh_Delivers :
    (cs : List Bytes) (pkt : Packet) (s : SelectiveRepeat) (out : List Bytes)
    → Receiving cs s out
    → IsHonest cs pkt
    → s.next_expected ≤ pkt.seq_num
    → let stored = Dict.insert pkt.seq_num pkt.payload s.buffer in
      Delivers cs s.next_expected stored (deliver (length stored) stored s.next_expected)
fresh_Delivers cs pkt s out inv honest low =
    deliver-Delivers cs (length stored) s.next_expected stored (omega arith) inv.positive genuine
  where
    stored : Dict ℕ Bytes
    stored = Dict.insert pkt.seq_num pkt.payload s.buffer

    genuine : Genuine cs s.next_expected stored
    genuine k b h =
        ground
          (arith, lookup-insert k pkt.seq_num pkt.payload s.buffer, inv.genuine k b, honest.carries)

-- One number further on, since the loop stopped there.
above :
    (cs : List Bytes) (n : ℕ) (buffer : Dict ℕ Bytes)
    → Dict.lookup n buffer ≡ none
    → Genuine cs n buffer
    → Genuine cs (n + 1) buffer
above cs n buffer stops genuine k b h = ground (arith, genuine k b h)

-- What the packet left behind when it was new.
abbrev pub fresh : Packet → SelectiveRepeat → List Bytes × Dict ℕ Bytes × ℕ
fresh pkt s =
    let stored = Dict.insert pkt.seq_num pkt.payload s.buffer in
    deliver (length stored) stored s.next_expected

abbrev pub with_fresh : Packet → SelectiveRepeat → SelectiveRepeat
with_fresh pkt s = record s { buffer = (fresh pkt s).1; next_expected = (fresh pkt s).2 }

-- The branches of `_handle_data`: an old or a buffered packet is acknowledged, one beyond the
-- window is ignored, a new one is stored, acknowledged, and what is in order is handed over.
pub handle_data_cases {ℓ} :
    (P : Option Event → SelectiveRepeat → Type ℓ) (pkt : Packet) (s : SelectiveRepeat)
    → (pkt.seq_num < s.next_expected → P (some (received pkt.seq_num none)) s)
    → (s.next_expected + s.window_size ≤ pkt.seq_num → P none s)
    → (Dict.contains pkt.seq_num s.buffer ≡ true → P (some (received pkt.seq_num none)) s)
    → (s.next_expected ≤ pkt.seq_num
        → pkt.seq_num < s.next_expected + s.window_size
        → Dict.contains pkt.seq_num s.buffer ≡ false
        → P (some (received pkt.seq_num (some (fresh pkt s).0))) (with_fresh pkt s))
    → P (handle_data pkt s).0 (handle_data pkt s).1
unfolding handle_data
handle_data_cases P pkt s old far twice new = elim (Bool-cases (ltb pkt.seq_num s.next_expected)) [
  | inl e ↦ rw (e, handle_data) (old (ground arith))
  | inr e ↦ elim (Bool-cases (leb (s.next_expected + s.window_size) pkt.seq_num)) [
    | inl f ↦ rw (e, f, handle_data) (far (ground arith))
    | inr f ↦ elim (Bool-cases (Dict.contains pkt.seq_num s.buffer)) [
      | inl g ↦ rw (e, f, g, handle_data) (twice g)
      | inr g ↦ rw (e, f, g, handle_data) (new (ground arith) (ground arith) g)
    ]
  ]
]

unchanged :
    {cs : List Bytes} {s : SelectiveRepeat} {out : List Bytes}
    → Receiving cs s out
    → Receiving cs s (out ++ [])
unchanged {out} inv = rw (append-nil out) inv

fresh-Receiving :
    (cs : List Bytes) (pkt : Packet) (s : SelectiveRepeat) (out : List Bytes)
    → Receiving cs s out
    → IsHonest cs pkt
    → s.next_expected ≤ pkt.seq_num
    → pkt.seq_num < s.next_expected + s.window_size
    → Receiving cs (with_fresh pkt s) (out ++ (fresh pkt s).0)
fresh-Receiving cs pkt s out inv honest low high = record {
  prefix = rw inv.prefix d.prefix;
  positive = omega (arith, inv.positive, d.grows);
  genuine = above cs (fresh pkt s).2 (fresh pkt s).1 d.stops d.genuine;
  windowed = λ k b h. ground (
    arith,
    d.shrinks k b h,
    d.grows,
    lookup-insert k pkt.seq_num pkt.payload s.buffer,
    inv.windowed k b,
  );
}
  where
    d : Delivers cs s.next_expected (Dict.insert pkt.seq_num pkt.payload s.buffer) (fresh pkt s)
    d = fresh_Delivers cs pkt s out inv honest low

-- One data packet keeps the receiver right.
pub handle_data-Receiving :
    (cs : List Bytes) (pkt : Packet) (s : SelectiveRepeat) (out : List Bytes)
    → Receiving cs s out
    → IsHonest cs pkt
    → let (event, s') = handle_data pkt s in Receiving cs s' (out ++ data_of event)
handle_data-Receiving cs pkt s out inv honest =
    handle_data_cases (λ event s'. Receiving cs s' (out ++ data_of event)) pkt s
      (λ _. unchanged inv) (λ _. unchanged inv) (λ _. unchanged inv)
      (λ low high _. fresh-Receiving cs pkt s out inv honest low high)

-- What is stored stays stored, or is handed over.
pub handle_data-keeps :
    (cs : List Bytes) (pkt : Packet) (s : SelectiveRepeat) (out : List Bytes) (k : ℕ)
    → Receiving cs s out
    → IsHonest cs pkt
    → IsStored k s
    → IsStored k (handle_data pkt s).1
handle_data-keeps cs pkt s out k inv honest held =
    handle_data_cases (λ event s'. IsStored k s') pkt s (λ _. held) (λ _. held) (λ _. held)
      λ low _ missing. kept (fresh_Delivers cs pkt s out inv honest low) missing held
  where
    kept :
        Delivers cs s.next_expected (Dict.insert pkt.seq_num pkt.payload s.buffer) (fresh pkt s)
        → Dict.contains pkt.seq_num s.buffer ≡ false
        → IsStored k s
        → IsStored k (with_fresh pkt s)
    kept d missing (inl below) = inl (omega (arith, d.grows))
    kept d missing (inr (b, h)) =
        elim (d.keeps k b (
          ground (
            arith,
            lookup-insert k pkt.seq_num pkt.payload s.buffer,
            none_of_contains pkt.seq_num s.buffer missing,
          ))) [ inl below ↦ inl below | inr there ↦ inr (b, there) ]

-- A number that is acknowledged is stored.
pub handle_data-Acks :
    (cs : List Bytes) (pkt : Packet) (s : SelectiveRepeat) (out : List Bytes) (k : ℕ)
    → Receiving cs s out
    → IsHonest cs pkt
    → Acks k (handle_data pkt s).0
    → IsStored k (handle_data pkt s).1
handle_data-Acks cs pkt s out k inv honest =
    handle_data_cases (λ event s'. Acks k event → IsStored k s') pkt s
      (λ below e. inl (omega arith)) (λ _ e. absurd e)
      (λ there e. inr (rw e at (lookup_of_contains pkt.seq_num s.buffer there)))
      λ low _ _ e. new (fresh_Delivers cs pkt s out inv honest low) e
  where
    new :
        Delivers cs s.next_expected (Dict.insert pkt.seq_num pkt.payload s.buffer) (fresh pkt s)
        → pkt.seq_num ≡ k
        → IsStored k (with_fresh pkt s)
    new d e =
        elim (d.keeps k pkt.payload
          (ground (arith, lookup-insert k pkt.seq_num pkt.payload s.buffer))) [
            | inl below ↦ inl below
            | inr there ↦ inr (pkt.payload, there)
          ]
