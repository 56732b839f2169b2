-- ===== src/Upload/Sending.antt =====
-- The sending protocol object of an upload: what its window holds and which chunks have left it.
use fiuba_redes.Common.{
  ℕ, ◌+◌, ◌-◌, ◌*◌, ◌≤◌, ◌<◌, ◌≡◌, ◌⊎◌, inl, inr, arith, none, Bool, true, false, List, [], ◌∷◌,
  length, nat_eq, All, if◌then◌else◌, ◌==◌,
}
use fiuba_redes.Common.Dict
use fiuba_redes.Common.Dict.{Dict, lookup-insert}
use fiuba_redes.Constants.{payload_size, type_close}
use fiuba_redes.Packet.{Packet, Bytes}
use fiuba_redes.Packet.Header.{Fits}
use fiuba_redes.SelectiveRepeat.{SelectiveRepeat, Entry}
use fiuba_redes.SelectiveRepeat.Datagrams.{IsData}
use fiuba_redes.SelectiveRepeat.Receiver.{IsHonest}
use fiuba_redes.SelectiveRepeat.Sender.{IsSending}
use fiuba_redes.SelectiveRepeat.Timers.{AllFit}
use fiuba_redes.Upload.Chunks.{chunks, IsNumber}

-- A packet of the file, numbered below n, or the FIN, which is sent when the peer has every chunk.
-- `A k` says that the peer has the chunk k.
abbrev pub IsPart : Bytes → Packet → Type 0
IsPart content pkt = IsData pkt × IsHonest (chunks content) pkt

abbrev pub IsEnd : Bytes → (ℕ → Type 0) → Packet → Type 0
IsEnd content A pkt = (pkt.pkt_type ≡ type_close) × Fits pkt × ((k : ℕ) → IsNumber content k → A k)

abbrev pub IsGood : Bytes → (ℕ → Type 0) → ℕ → Packet → Type 0
IsGood content A n pkt = (pkt.seq_num < n) × (IsPart content pkt ⊎ IsEnd content A pkt)

pub IsGood-Fits :
    (content : Bytes) (A : ℕ → Type 0) (n : ℕ) (pkt : Packet) → IsGood content A n pkt → Fits pkt
IsGood-Fits content A n pkt (below, inl (data', honest)) = data'.fits
IsGood-Fits content A n pkt (below, inr (kind, fits, all)) = fits

pub IsGood-grows :
    (content : Bytes) (A B : ℕ → Type 0) (n m : ℕ) (pkt : Packet)
    → ((k : ℕ) → A k → B k)
    → n ≤ m
    → IsGood content A n pkt
    → IsGood content B m pkt
IsGood-grows content A B n m pkt f h (below, inl part) = (omega arith, inl part)
IsGood-grows content A B n m pkt f h (below, inr (kind, fits, all)) =
    (omega arith, inr (kind, fits, λ k number. f k (all k number)))

pub All-weaken {ℓ κ} :
    {A : Type ℓ} {P Q : A → Type κ} (xs : List A) → ((x : A) → P x → Q x) → All P xs → All Q xs
All-weaken [] f _ = tt
All-weaken (x ∷ xs) f (h, hs) = (f x h, All-weaken xs f hs)

pub All-if {ℓ κ} :
    {A : Type ℓ} (P : A → Type κ) (xs ys : List A) (b : Bool)
    → All P xs
    → All P ys
    → All P (if b then xs else ys)
All-if P xs ys true hx hy = hx
All-if P xs ys false hx hy = hy

-- The values of a dict after an insertion and an erasure.
abbrev pub AllValues {ℓ κ} : {V : Type ℓ} → (V → Type κ) → Dict ℕ V → Type κ
AllValues P = All (λ (item : ℕ × _). P item.1)

pub AllValues-insert {ℓ κ} :
    {V : Type ℓ} (P : V → Type κ) (k : ℕ) (v : V) (d : Dict ℕ V)
    → P v
    → AllValues P d
    → AllValues P (Dict.insert k v d)
unfolding Dict.insert
AllValues-insert P k v [] h hs = (h, tt)
AllValues-insert P k v ((k', v') ∷ d) h (h', hs) =
    All-if _ _ _ (k == k') (h, hs) (h', AllValues-insert P k v d h hs)

pub AllValues-erase {ℓ κ} :
    {V : Type ℓ} (P : V → Type κ) (k : ℕ) (d : Dict ℕ V)
    → AllValues P d
    → AllValues P (Dict.erase k d)
unfolding Dict.erase
AllValues-erase P k [] hs = tt
AllValues-erase P k ((k', v') ∷ d) (h', hs) =
    let rest = AllValues-erase P k d hs in All-if _ _ _ (k == k') rest (h', rest)

-- What the object keeps while it sends the file: the chunks that were sent and are not in its window
-- are at the peer.
pub record Sends (content : Bytes) (A : ℕ → Type 0) (p : SelectiveRepeat) : Type 0 where
  pub right : IsSending p
  pub op_type : p.op_type < 2
  pub protocol : p.protocol < 2
  pub chunk_size : p.chunk_size ≡ payload_size
  pub sized : 1 ≤ p.window_size
  pub items : AllValues (λ entry. IsGood content A p.seq_num entry.pkt) p.window
  pub acked : (k : ℕ) → 1 ≤ k → k < p.seq_num → Dict.lookup k p.window ≡ none → A k

-- No FIN was sent yet, and all numbers are chunks; or the FIN has the last number, and is not
-- acknowledged.
pub record IsStreaming (content : Bytes) (p : SelectiveRepeat) : Type 0 where
  pub short : (p.seq_num - 1) * payload_size < length content + payload_size

pub record IsFinishing (content : Bytes) (p : SelectiveRepeat) : Type 0 where
  pub started : 2 ≤ p.seq_num
  pub whole : length content ≤ (p.seq_num - 2) * payload_size
  pub short : (p.seq_num - 2) * payload_size < length content + payload_size
  pub last : Dict.contains (p.seq_num - 1) p.window ≡ true

abbrev pub Phase : Bytes → SelectiveRepeat → Type 0
Phase content p = IsStreaming content p ⊎ IsFinishing content p

pub Sends-AllFit :
    (content : Bytes) (A : ℕ → Type 0) (p : SelectiveRepeat) → Sends content A p → AllFit p.window
Sends-AllFit content A p inv =
    All-weaken p.window (λ item good. IsGood-Fits content A p.seq_num item.1.pkt good) inv.items

-- The peer gets more.
pub Sends-grows :
    (content : Bytes) (A B : ℕ → Type 0) (p : SelectiveRepeat)
    → ((k : ℕ) → A k → B k)
    → Sends content A p
    → Sends content B p
Sends-grows content A B p f inv = record {
  right = inv.right;
  op_type = inv.op_type;
  protocol = inv.protocol;
  chunk_size = inv.chunk_size;
  sized = inv.sized;
  items =
      All-weaken p.window
        (λ item good. IsGood-grows content A B p.seq_num p.seq_num item.1.pkt f (omega arith) good)
        inv.items;
  acked = λ k low high out. f k (inv.acked k low high out);
}

module _ (content : Bytes) (A : ℕ → Type 0) where
  -- A new packet of the next number enters the window.
  pub added-Sends :
      (p : SelectiveRepeat) (entry : Entry)
      → Sends content A p
      → IsGood content A (p.seq_num + 1) entry.pkt
      → entry.pkt.seq_num ≡ p.seq_num
      → Sends content A
          (record p { window = Dict.insert p.seq_num entry p.window; seq_num = p.seq_num + 1 })
  added-Sends p entry inv good number = record {
    right = record {
      ordered = omega (arith, inv.right.ordered);
      positive = inv.right.positive;
      unacknowledged = λ k e h. ground (
        arith,
        lookup-insert k p.seq_num entry p.window,
        inv.right.unacknowledged k e,
        inv.right.ordered,
      );
    };
    op_type = inv.op_type;
    protocol = inv.protocol;
    chunk_size = inv.chunk_size;
    sized = inv.sized;
    items =
        AllValues-insert (λ e. IsGood content A (p.seq_num + 1) e.pkt) p.seq_num entry p.window good
          (All-weaken p.window
            (λ item old.
              IsGood-grows content A A p.seq_num (p.seq_num + 1) item.1.pkt (λ k a. a) (omega arith)
                old)
            inv.items);
    acked = λ k low high out.
        let (ne, was) : (k < p.seq_num) × (Dict.lookup k p.window ≡ none) =
          ground (arith, lookup-insert k p.seq_num entry p.window) in
        inv.acked k low ne was;
  }
