-- ===== src/Upload/Resending.antt =====
-- The client's timeout in an upload: the packet of `next_expected` goes out again.
use fiuba_redes.Common.{
  ℕ, suc, ◌+◌, ◌≤◌, ◌≡◌, ◌⊎◌, inl, inr, ap, ◌∙◌, arith, Option-cases, Bool-cases, some, true, List,
  [], ◌∷◌, ◌++◌, map, length, get_elem?, dec_lt, nat_eq,
}
use fiuba_redes.Common.Dict
use fiuba_redes.Common.Dict.{Dict, lookup-nil}
use fiuba_redes.Constants.{ack_timeout}
use fiuba_redes.Endpoint.{Readings}
use fiuba_redes.Packet.{Bytes}
use fiuba_redes.Packet.RoundTrip.{wire}
use fiuba_redes.Runtime.{Runtime}
use fiuba_redes.SelectiveRepeat.{SelectiveRepeat, Entry}
use fiuba_redes.SelectiveRepeat.Receiver.{IsStored, Receiving}
use fiuba_redes.SelectiveRepeat.Timers.{late, is_late}
use fiuba_redes.Upload.Chunks.{chunks, elem-map}
use fiuba_redes.Upload.Sending.{AllValues, Sends}
use mathlib.Core.Path.{subst}

pub elem-append_right {ℓ} :
    {A : Type ℓ} (xs ys : List A) (n : ℕ) → get_elem? (xs ++ ys) (length xs + n) ≡ get_elem? ys n
elem-append_right [] ys n = ap (get_elem? ys) {y = n} (omega arith)
elem-append_right (x ∷ xs) ys n =
    ap (get_elem? (x ∷ xs ++ ys)) {y = suc (length xs + n)} (omega arith)
    ∙ elem-append_right xs ys n

lookup-cons {ℓ} :
    {V : Type ℓ} (k j : ℕ) (v w : V) (d : Dict ℕ V)
    → Dict.lookup k ((j, w) ∷ d) ≡ some v
    → (w ≡ v) ⊎ (Dict.lookup k d ≡ some v)
unfolding Dict.lookup
lookup-cons k j v w d e = ground arith

pub lookup-AllValues {ℓ κ} :
    {V : Type ℓ} (P : V → Type κ) (k : ℕ) (v : V) (d : Dict ℕ V)
    → AllValues P d
    → Dict.lookup k d ≡ some v
    → P v
lookup-AllValues {V} P k v [] all e = absurd (ground (arith, lookup-nil {V = V} k))
lookup-AllValues P k v ((j, w) ∷ d) (here, there) e = elim (lookup-cons k j v w d e) [
  | inl same ↦ subst P same here
  | inr later ↦ lookup-AllValues P k v d there later
]

-- Readings at which the entry is late.
abbrev pub overdue : Entry → Readings
overdue entry = record {
  now = entry.time + ack_timeout + 1;
  resent = λ _. entry.time + ack_timeout + 1;
  pushed = λ _. entry.time + ack_timeout + 1;
  closed = λ _. entry.time + ack_timeout + 1;
}

elem-late :
    (now k : ℕ) (entry : Entry) (window : Dict ℕ Entry)
    → is_late now entry ≡ true
    → Dict.lookup k window ≡ some entry
    → (i : ℕ) × (get_elem? (late now window) i ≡ some entry.pkt)
unfolding late
elem-late now k entry [] waited e = absurd (ground (arith, lookup-nil {V = Entry} k))
elem-late now k entry ((j, other) ∷ window) waited e = elim (lookup-cons k j entry other window e) [
  | inl same ↦
      let waited' : is_late now other ≡ true = ap (is_late now) same ∙ waited in
      (0, rw waited' (ap (λ (x : Entry). some x.pkt) same))
  | inr later ↦
      let (i, there) = elem-late now k entry window waited later in
      elim (Bool-cases (is_late now other)) [
        | inl more ↦ (suc i, rw more there)
        | inr less ↦ (i, rw less there)
      ]
]

-- Where the packet is among the datagrams after the timeout.
pub resent_at :
    (r : Runtime) (sent : List Bytes) (k : ℕ) (entry : Entry) (window : Dict ℕ Entry)
    → Dict.lookup k window ≡ some entry
    → (i : ℕ) × (get_elem?
          (sent ++ map (wire r.crc32) (late (overdue entry).now window))
          (length sent + i)
        ≡ some (wire r.crc32 entry.pkt))
resent_at r sent k entry window e =
    let (i, there) = elem-late (overdue entry).now k entry window (ground arith) e in
    let pkts = late (overdue entry).now window in
    (
      i,
      elem-append_right sent (map (wire r.crc32) pkts) i
          ∙ elem-map (wire r.crc32) pkts i entry.pkt there,
    )

-- The peer expects that number or a later one.
pub next_expected-le :
    (content : Bytes) (p q : SelectiveRepeat) (out : List Bytes)
    → Sends content (λ k. IsStored k q) p
    → Receiving (chunks content) q out
    → p.next_expected ≤ q.next_expected
next_expected-le content p q out sends receiving = elim (dec_lt q.next_expected p.next_expected) [
  | no h ↦ omega arith
  | yes h ↦ elim (Option-cases (Dict.lookup q.next_expected p.window)) [
    | inr (entry, e) ↦
        absurd (omega (arith, (sends.right.unacknowledged q.next_expected entry e).0))
    | inl e ↦
        elim (sends.acked q.next_expected receiving.positive (omega (arith, sends.right.ordered))
          e) [
            | inl below ↦ absurd (omega arith)
            | inr (b, there) ↦ absurd (ground (arith, receiving.genuine q.next_expected b there))
          ]
  ]
]
