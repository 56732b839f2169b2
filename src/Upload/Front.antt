-- ===== src/Upload/Front.antt =====
-- The lowest number of an uploading client's window: `next_expected`, unless nothing is in flight.
use fiuba_redes.Common.{
  ℕ, zero, suc, ◌+◌, ◌<◌, ◌≡◌, ◌⊎◌, inl, inr, refl, ap, ◌∙◌, arith, true, some, List, [], ◌∷◌,
  lt→ltb, nat_eq,
}
use fiuba_redes.Common.Dict
use fiuba_redes.Common.Dict.{
  Dict, lookup-insert, lookup_of_contains, contains_of_lookup, lookup-insert_self,
}
use fiuba_redes.Packet.{Bytes}
use fiuba_redes.SelectiveRepeat.{SelectiveRepeat, Entry, offsets}
use fiuba_redes.SelectiveRepeat.Pushing.{pushed, pushed_all}
use fiuba_redes.SelectiveRepeat.Sender.{IsSending}
use fiuba_redes.SelectiveRepeat.Timers.{rearmed}
use fiuba_redes.Upload.Progress.{contains-rearmed}

-- A packet is in flight, the lowest one that of `next_expected`.
abbrev pub IsWaiting : SelectiveRepeat → Type 0
IsWaiting p = Dict.contains p.next_expected p.window ≡ true

abbrev pub Front : SelectiveRepeat → Type 0
Front p = (p.next_expected ≡ p.seq_num) ⊎ IsWaiting p

contains-insert_other :
    (k j : ℕ) (entry : Entry) (window : Dict ℕ Entry)
    → Dict.contains k window ≡ true
    → Dict.contains k (Dict.insert j entry window) ≡ true
unfolding Dict.contains Dict.insert
contains-insert_other k j entry [] h = absurd (ground arith)
contains-insert_other k j entry ((i, w) ∷ window) h =
    ground (arith, contains-insert_other k j entry window)

-- The next number enters the window.
pub added-IsWaiting :
    (p : SelectiveRepeat) (entry : Entry)
    → Front p
    → Dict.contains p.next_expected (Dict.insert p.seq_num entry p.window) ≡ true
added-IsWaiting p entry (inl e) =
    ap (λ (k : ℕ). Dict.contains k (Dict.insert p.seq_num entry p.window)) e
    ∙ contains_of_lookup p.seq_num entry (Dict.insert p.seq_num entry p.window)
        (lookup-insert_self p.seq_num entry p.window)
added-IsWaiting p entry (inr waits) =
    contains-insert_other p.next_expected p.seq_num entry p.window waits

pub pushed_all-IsWaiting :
    (clock : ℕ → ℕ) (payload : Bytes) (i : ℕ) (is : List ℕ) (p : SelectiveRepeat)
    → Front p
    → IsWaiting (pushed_all clock p payload (i ∷ is))
unfolding pushed_all
pushed_all-IsWaiting clock payload i [] p front = added-IsWaiting p _ front
pushed_all-IsWaiting clock payload i (j ∷ is) p front =
    pushed_all-IsWaiting clock payload j is (pushed clock p payload i)
      (inr (added-IsWaiting p _ front))

-- A block that is not empty has a first slice.
pub some_offsets : (stop step : ℕ) → 0 < stop → (is : List ℕ) × (offsets stop 0 stop step ≡ 0 ∷ is)
unfolding offsets
some_offsets zero step h = absurd (omega arith)
some_offsets (suc stop) step h =
    (offsets stop (0 + step) (suc stop) step, rw (lt→ltb 0 (suc stop) h) refl)

pub rearmed-Front :
    (now : ℕ) (clock : ℕ → ℕ) (p : SelectiveRepeat)
    → Front p
    → Front (record p { window = rearmed now clock p.window })
rearmed-Front now clock p (inl e) = inl e
rearmed-Front now clock p (inr waits) =
    inr (contains-rearmed now clock p.window p.next_expected ∙ waits)

-- A window that is not empty has the number `next_expected`.
pub some_window-IsWaiting :
    (p : SelectiveRepeat) (item : ℕ × Entry) (items : Dict ℕ Entry)
    → IsSending p
    → p.window ≡ item ∷ items
    → Front p
    → IsWaiting p
unfolding Dict.lookup
some_window-IsWaiting p (k, entry) items right e (inr waits) = waits
some_window-IsWaiting p (k, entry) items right e (inl none_left) =
    let first : Dict.lookup k ((k, entry) ∷ items) ≡ some entry = ground arith in
    let (low, high, number) = right.unacknowledged k entry (ap (Dict.lookup k) e ∙ first) in
    absurd (omega arith)
