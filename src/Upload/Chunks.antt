-- ===== src/Upload/Chunks.antt =====
-- The chunks that an upload cuts a file into, by their numbers from 1.
use fiuba_redes.Common.{
  ℕ, zero, suc, ◌+◌, ◌-◌, ◌*◌, ◌≤◌, ◌<◌, ◌≡◌, inl, inr, refl, ap, ◌∙◌, arith, some, List, [], ◌∷◌,
  map, flatten, length, take, drop, get_elem?, dec_lt, lt→ltb, nat_eq, take_of_length-le, drop-drop,
  slice-take, length-take, length-drop,
}
use mathlib.Core.Option
use fiuba_redes.Constants.{payload_size}
use fiuba_redes.Packet.{Packet, Bytes}
use fiuba_redes.SelectiveRepeat.{SelectiveRepeat, offsets}
use fiuba_redes.SelectiveRepeat.Pushing.{cut, length-offsets-le}
use fiuba_redes.SelectiveRepeat.Receiver.{IsHonest, IsStored, Receiving}

abbrev pub slice : Bytes → ℕ → Bytes
slice content n = take payload_size (drop (n * payload_size) content)

unfoldable pub chunks : Bytes → List Bytes
chunks content =
    map (λ j. take payload_size (drop j content))
      (offsets (length content) 0 (length content) payload_size)

-- The file has a chunk of the number k.
pub record IsNumber (content : Bytes) (k : ℕ) : Type 0 where
  pub positive : 1 ≤ k
  pub within : (k - 1) * payload_size < length content

elem-offsets :
    (fuel i stop n : ℕ)
    → i + n * payload_size < stop
    → stop ≤ fuel + i
    → get_elem? (offsets fuel i stop payload_size) n ≡ some (i + n * payload_size)
unfolding offsets
elem-offsets zero i stop n h enough = absurd (omega arith)
elem-offsets (suc fuel) i stop zero h enough =
    rw (lt→ltb i stop (omega arith), offsets) (ap some (omega arith))
elem-offsets (suc fuel) i stop (suc n) h enough =
    rw (lt→ltb i stop (omega arith), offsets)
      (elem-offsets fuel (i + payload_size) stop n (omega arith) (omega arith)
        ∙ ap some (omega arith))

pub elem-map {ℓ κ} :
    {A : Type ℓ} {B : Type κ} (f : A → B) (xs : List A) (n : ℕ) (x : A)
    → get_elem? xs n ≡ some x
    → get_elem? (map f xs) n ≡ some (f x)
elem-map f [] n x h = absurd (ground arith)
elem-map f (y ∷ ys) zero x h = ap (Option.map f) h
elem-map f (y ∷ ys) (suc n) x h = elem-map f ys n x h

length-map {ℓ κ} :
    {A : Type ℓ} {B : Type κ} (f : A → B) (xs : List A) → length (map f xs) ≡ length xs
length-map f [] = refl
length-map f (x ∷ xs) = ap suc (length-map f xs)

elem-lt {ℓ} : {A : Type ℓ} (xs : List A) (n : ℕ) (x : A) → get_elem? xs n ≡ some x → n < length xs
elem-lt [] n x h = absurd (ground arith)
elem-lt (y ∷ ys) zero x h = omega arith
elem-lt (y ∷ ys) (suc n) x h = omega (arith, elem-lt ys n x h)

pub elem-chunks :
    (content : Bytes) (n : ℕ)
    → n * payload_size < length content
    → get_elem? (chunks content) n ≡ some (slice content n)
unfolding chunks
elem-chunks content n h =
    elem-map (λ (j : ℕ). take payload_size (drop j content))
      (offsets (length content) 0 (length content) payload_size) n (n * payload_size)
      (elem-offsets (length content) 0 (length content) n (omega arith) (omega arith)
        ∙ ap some (omega arith))

pub length-chunks-le :
    (content : Bytes) (n : ℕ) → length content ≤ n * payload_size → length (chunks content) ≤ n
unfolding chunks
length-chunks-le content n h = omega (
  arith,
  length-map (λ (j : ℕ). take payload_size (drop j content))
      (offsets (length content) 0 (length content) payload_size),
  length-offsets-le (length content) 0 (length content) payload_size n (omega arith),
)

pub flatten-chunks : (content : Bytes) → flatten (chunks content) ≡ content
unfolding chunks
flatten-chunks content = cut content payload_size (length content) 0 (omega arith) (omega arith)

pub IsHonest-IsNumber :
    (content : Bytes) (pkt : Packet) → IsHonest (chunks content) pkt → IsNumber content pkt.seq_num
IsHonest-IsNumber content pkt honest = record {
  positive = honest.numbered;
  within =
      let inside = elem-lt (chunks content) (pkt.seq_num - 1) pkt.payload honest.carries in
      elim (dec_lt ((pkt.seq_num - 1) * payload_size) (length content)) [
        | yes h ↦ h
        | no h ↦ absurd (omega (arith, length-chunks-le content (pkt.seq_num - 1) (omega arith)))
      ];
}

-- A packet's part of a block that was read at a chunk's start is the chunk of its number.
pub slice-take_block :
    (content : Bytes) (a b n i : ℕ)
    → a * payload_size + i ≡ b * payload_size
    → i < length (take (n * payload_size) (drop (a * payload_size) content))
    → (take payload_size (drop i (take (n * payload_size) (drop (a * payload_size) content)))
        ≡ slice content b)
      × (b * payload_size < length content)
slice-take_block content a b n i e h =
    let size = length-take (n * payload_size) (drop (a * payload_size) content) in
    let rest = length-drop (a * payload_size) content in
    let room : i + payload_size ≤ n * payload_size = omega arith in
    (
      slice-take i payload_size (n * payload_size) (drop (a * payload_size) content) room
          ∙ (ap (take payload_size) (drop-drop (a * payload_size) i content)
              ∙ ap (λ (k : ℕ). take payload_size (drop k content)) e),
      omega arith,
    )

-- Every chunk of the file is stored.
abbrev pub Complete : Bytes → SelectiveRepeat → Type 0
Complete content q = (k : ℕ) → IsNumber content k → IsStored k q

-- When every chunk is stored, all of them have been handed over.
pub Complete-handed :
    (content : Bytes) (q : SelectiveRepeat) (out : List Bytes)
    → Receiving (chunks content) q out
    → Complete content q
    → out ≡ chunks content
Complete-handed content q out inv all =
    inv.prefix
    ∙ take_of_length-le (q.next_expected - 1) (chunks content)
        (length-chunks-le content (q.next_expected - 1) past)
  where
    missing : IsStored q.next_expected q → ⊥
    missing (inl below) = omega arith
    missing (inr (b, there)) = omega (arith, (inv.genuine q.next_expected b there).1)

    past : length content ≤ (q.next_expected - 1) * payload_size
    past = elim (dec_lt ((q.next_expected - 1) * payload_size) (length content)) [
      | yes h ↦
          absurd (missing (all q.next_expected (record { positive = inv.positive; within = h })))
      | no h ↦ omega arith
    ]
