-- ===== src/SelectiveRepeat/Delivery.antt =====
-- The inner loop of `_handle_data`: what `deliver` hands over and what it leaves in the buffer.
use fiuba_redes.Common.{
  ℕ, zero, suc, ◌+◌, ◌-◌, ◌≤◌, ◌<◌, ◌≡◌, ◌⊎◌, inl, inr, sym, ap, arith, none, some, List, [], ◌∷◌,
  ◌++◌, ◌∙◌, length, take, get_elem?, take_next, nat_eq, Option-cases,
}
use fiuba_redes.Common.Dict
use fiuba_redes.Common.Dict.{Dict, lookup-nil, lookup-erase, length-erase}
use fiuba_redes.Packet.{Bytes}
use fiuba_redes.SelectiveRepeat.{deliver}
use mathlib.Core.List.{append-nil, append_assoc}

-- Every buffered payload is the peer's chunk of that number, and none is numbered below `low`.
-- Chunks are numbered from 1.
abbrev pub Genuine : List Bytes → ℕ → Dict ℕ Bytes → Type 0
Genuine cs low buffer =
    (k : ℕ) (b : Bytes)
    → Dict.lookup k buffer ≡ some b
    → (get_elem? cs (k - 1) ≡ some b) × (low ≤ k)

pub record Delivers (cs : List Bytes) (next : ℕ) (buffer : Dict ℕ Bytes)
    (result : List Bytes × Dict ℕ Bytes × ℕ) : Type 0 where
  pub prefix : take (next - 1) cs ++ result.0 ≡ take (result.2 - 1) cs
  pub grows : next ≤ result.2
  pub stops : Dict.lookup result.2 result.1 ≡ none
  pub genuine : Genuine cs result.2 result.1
  pub keeps :
      (k : ℕ) (b : Bytes)
      → Dict.lookup k buffer ≡ some b
      → (k < result.2) ⊎ (Dict.lookup k result.1 ≡ some b)
  pub shrinks :
      (k : ℕ) (b : Bytes) → Dict.lookup k result.1 ≡ some b → Dict.lookup k buffer ≡ some b

none_delivered :
    (cs : List Bytes) (next : ℕ) (buffer : Dict ℕ Bytes)
    → Dict.lookup next buffer ≡ none
    → Genuine cs next buffer
    → Delivers cs next buffer ([], buffer, next)
none_delivered cs next buffer missing genuine = record {
  prefix = append-nil _;
  grows = omega arith;
  stops = missing;
  genuine = genuine;
  keeps = λ k b h. inr h;
  shrinks = λ k b h. h;
}

-- Taking one entry out keeps the rest genuine, one number further on.
erase-Genuine :
    (cs : List Bytes) (next : ℕ) (buffer : Dict ℕ Bytes)
    → Genuine cs next buffer
    → Genuine cs (next + 1) (Dict.erase next buffer)
erase-Genuine cs next buffer genuine k b h =
    let old : Dict.lookup k buffer ≡ some b = ground (arith, lookup-erase k next buffer) in
    ((genuine k b old).0, ground (arith, lookup-erase k next buffer, (genuine k b old).1))

one_delivered :
    (cs : List Bytes) (next : ℕ) (buffer : Dict ℕ Bytes) (c : Bytes) (chunks : List Bytes)
    (buffer' : Dict ℕ Bytes) (next' : ℕ)
    → 1 ≤ next
    → Dict.lookup next buffer ≡ some c
    → Genuine cs next buffer
    → Delivers cs (next + 1) (Dict.erase next buffer) (chunks, buffer', next')
    → Delivers cs next buffer (c ∷ chunks, buffer', next')
one_delivered cs next buffer c chunks buffer' next' pos here genuine d = record {
  prefix =
      let e : suc (next - 1) ≡ next + 1 - 1 = omega arith in
      let step : take (next + 1 - 1) cs ≡ take (next - 1) cs ++ (c ∷ []) =
        rw (← e) (take_next (next - 1) cs c (genuine next c here).0) in
      sym (append_assoc (take (next - 1) cs) (c ∷ []) chunks)
      ∙ (ap (λ (t : List Bytes). t ++ chunks) (sym step) ∙ d.prefix);
  grows = omega (arith, d.grows);
  stops = d.stops;
  genuine = d.genuine;
  keeps = λ k b h. ground (arith, lookup-erase k next buffer, d.keeps k b, d.grows);
  shrinks = λ k b h. ground (arith, lookup-erase k next buffer, d.shrinks k b h);
}

pub deliver-Delivers :
    (cs : List Bytes) (fuel next : ℕ) (buffer : Dict ℕ Bytes)
    → length buffer ≤ fuel
    → 1 ≤ next
    → Genuine cs next buffer
    → Delivers cs next buffer (deliver fuel buffer next)
unfolding deliver
deliver-Delivers cs zero next [] small pos genuine =
    none_delivered cs next [] (lookup-nil next) genuine
deliver-Delivers cs zero next (x ∷ buffer) small pos genuine = absurd (omega arith)
deliver-Delivers cs (suc fuel) next buffer small pos genuine =
    elim (Option-cases (Dict.lookup next buffer)) [
      | inl e ↦ rw (e, deliver) (none_delivered cs next buffer e genuine)
      | inr (c, e) ↦
          rw (e, deliver)
            (one_delivered cs next buffer c _ _ _ pos e genuine (
              deliver-Delivers cs fuel (next + 1) (Dict.erase next buffer)
                (omega (arith, length-erase next c buffer e)) (omega arith)
                (erase-Genuine cs next buffer genuine)))
    ]
