-- ===== src/SelectiveRepeat/Timers.antt =====
-- `get_timedouts`: which packets are sent again, and when they would be the next time.
use fiuba_redes.Common.{
  ℕ, ◌+◌, ◌-◌, ◌≤◌, ◌≡◌, refl, sym, ◌∙◌, ap, inl, inr, Option-cases, arith, Bool, List, [], ◌∷◌,
  map, ltb, if◌then◌else◌, All, some, nat_eq,
}
use mathlib.Core.Option
use mathlib.Core.Option.{some-injective}
use fiuba_redes.SelectiveRepeat.Sender.{IsSending}
use fiuba_redes.Common.Dict
use fiuba_redes.Common.Dict.{Dict}
use fiuba_redes.Constants.{ack_timeout}
use fiuba_redes.Exceptions.{ok}
use fiuba_redes.Packet.{Packet}
use fiuba_redes.Packet.Header.{Fits}
use fiuba_redes.Packet.RoundTrip.{wire, to_bytes-wire}
use fiuba_redes.Runtime.{Runtime, IsRuntime}
use fiuba_redes.SelectiveRepeat.{SelectiveRepeat, Entry, timedout_loop, get_timedouts}

-- The entry has waited longer than the timeout.
abbrev pub is_late : ℕ → Entry → Bool
is_late now entry = ltb ack_timeout (now - entry.time)

-- The late packets, in the order of the window, and the window with their timers set anew.
unfoldable pub late : ℕ → Dict ℕ Entry → List Packet
late now [] = []
late now ((seq, entry) ∷ window) =
    let rest = late now window in if is_late now entry then entry.pkt ∷ rest else rest

abbrev pub rearm : ℕ → (ℕ → ℕ) → Entry → Entry
rearm now clock entry =
    if is_late now entry then record entry { time = clock entry.pkt.seq_num } else entry

pub rearm_pkt : (now : ℕ) (clock : ℕ → ℕ) (entry : Entry) → (rearm now clock entry).pkt ≡ entry.pkt
rearm_pkt now clock entry = ground arith

unfoldable pub rearmed : ℕ → (ℕ → ℕ) → Dict ℕ Entry → Dict ℕ Entry
rearmed now clock [] = []
rearmed now clock ((seq, entry) ∷ window) = (seq, rearm now clock entry) ∷ rearmed now clock window

abbrev pub AllFit : Dict ℕ Entry → Type 0
AllFit = All (λ (item : ℕ × Entry). Fits item.1.pkt)

timedout_loop_lem :
    (r : Runtime)
    → IsRuntime r
    → (now : ℕ) (clock : ℕ → ℕ) (window : Dict ℕ Entry) → AllFit window
    → timedout_loop r now clock window
      ≡ (ok (map (wire r.crc32) (late now window)), rearmed now clock window)
unfolding timedout_loop late rearmed
timedout_loop_lem r lib now clock [] _ = refl
timedout_loop_lem r lib now clock ((seq, entry) ∷ window) (fits, rest) = ground (
  arith,
  timedout_loop_lem r lib now clock window rest,
  to_bytes-wire r.crc32 lib.crc32-lt entry.pkt fits,
)

-- The window has the same numbers and packets; late entries have a new time.
pub lookup-rearmed :
    (now : ℕ) (clock : ℕ → ℕ) (window : Dict ℕ Entry) (k : ℕ)
    → Dict.lookup k (rearmed now clock window) ≡ Option.map (rearm now clock) (Dict.lookup k window)
unfolding rearmed Dict.lookup
lookup-rearmed now clock [] k = refl
lookup-rearmed now clock ((seq, entry) ∷ window) k =
    ground (arith, lookup-rearmed now clock window k)

rearmed_from :
    (now : ℕ) (clock : ℕ → ℕ) (window : Dict ℕ Entry) (k : ℕ) (entry : Entry)
    → Dict.lookup k (rearmed now clock window) ≡ some entry
    → (old : Entry) × (Dict.lookup k window ≡ some old) × (entry.pkt ≡ old.pkt)
rearmed_from now clock window k entry h = elim (Option-cases (Dict.lookup k window)) [
  | inl e ↦ absurd (cc (lookup-rearmed now clock window k, ap (Option.map (rearm now clock)) e))
  | inr (old, e) ↦
      let found : some entry ≡ some (rearm now clock old) =
        sym h ∙ (lookup-rearmed now clock window k ∙ ap (Option.map (rearm now clock)) e) in
      (old, e, ap (λ (x : Entry). x.pkt) (some-injective _ _ found) ∙ rearm_pkt now clock old)
]

rearmed-AllFit :
    (now : ℕ) (clock : ℕ → ℕ) (window : Dict ℕ Entry)
    → AllFit window
    → AllFit (rearmed now clock window)
unfolding rearmed
rearmed-AllFit now clock [] _ = tt
rearmed-AllFit now clock ((seq, entry) ∷ window) (fits, rest) =
    (rw (rearm_pkt now clock entry) fits, rearmed-AllFit now clock window rest)

late-rearmed :
    (now : ℕ) (clock : ℕ → ℕ) (window : Dict ℕ Entry)
    → ((n : ℕ) → now ≤ clock n + ack_timeout)
    → late now (rearmed now clock window) ≡ []
unfolding rearmed late
late-rearmed now clock [] h = refl
late-rearmed now clock ((seq, entry) ∷ window) h =
    ground (arith, h entry.pkt.seq_num, late-rearmed now clock window h)

-- `get_timedouts` raises nothing while the packets in the window fit their header. It returns the
-- bytes of exactly the packets that have waited longer than the timeout, in the order of the
-- window, sets their timers anew and changes nothing else.
pub get_timedouts_lem :
    (r : Runtime)
    → IsRuntime r
    → (now : ℕ) (clock : ℕ → ℕ) (s : SelectiveRepeat) → AllFit s.window
    → get_timedouts r now clock s ≡ (
      ok (map (wire r.crc32) (late now s.window)),
      record s { window = rearmed now clock s.window },
    )
unfolding get_timedouts
get_timedouts_lem r lib now clock s fits = rw (timedout_loop_lem r lib now clock s.window fits)

-- One timeout sends a packet again once: a second call at the same time returns nothing, if the
-- timers were not set to a time more than the timeout ago.
pub get_timedouts_twice :
    (r : Runtime)
    → IsRuntime r
    → (now : ℕ) (clock clock' : ℕ → ℕ) (s : SelectiveRepeat) → AllFit s.window
    → ((n : ℕ) → now ≤ clock n + ack_timeout)
    → (get_timedouts r now clock' (get_timedouts r now clock s).1).0 ≡ ok []
get_timedouts_twice r lib now clock clock' s fits h = rw (
  get_timedouts_lem r lib now clock s fits,
  get_timedouts_lem r lib now clock' (record s { window = rearmed now clock s.window })
      (rearmed-AllFit now clock s.window fits),
  late-rearmed now clock s.window h,
)

pub rearmed-IsSending :
    (now : ℕ) (clock : ℕ → ℕ) (s : SelectiveRepeat)
    → IsSending s
    → IsSending (record s { window = rearmed now clock s.window })
rearmed-IsSending now clock s inv = record {
  ordered = inv.ordered;
  positive = inv.positive;
  unacknowledged = λ k entry h.
      let (old, there, same) = rearmed_from now clock s.window k entry h in
      let (low, high, number) = inv.unacknowledged k old there in
      (low, high, ap (λ (p : Packet). p.seq_num) same ∙ number);
}

-- Sending again keeps the sender right: no number enters or leaves the window.
pub get_timedouts-IsSending :
    (r : Runtime)
    → IsRuntime r
    → (now : ℕ) (clock : ℕ → ℕ) (s : SelectiveRepeat) → AllFit s.window
    → IsSending s
    → IsSending (get_timedouts r now clock s).1
get_timedouts-IsSending r lib now clock s fits inv =
    rw (get_timedouts_lem r lib now clock s fits) (rearmed-IsSending now clock s inv)
