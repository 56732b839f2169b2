-- ===== src/SelectiveRepeat/Loops.antt =====
-- The loops of selective_repeat.py end: their callers give them fuel enough, and more changes nothing.
use fiuba_redes.Common.{
  ℕ, zero, suc, ◌+◌, ◌-◌, ◌*◌, ◌≤◌, ◌<◌, ◌≡◌, inl, inr, refl, arith, Bool-cases, Option-cases,
  false, none, not, ◌&&◌, ltb, [], ◌∷◌, length, nat_eq,
}
use fiuba_redes.Common.Dict
use fiuba_redes.Common.Dict.{Dict, length-erase, lookup-nil}
use fiuba_redes.Packet.{Bytes}
use fiuba_redes.SelectiveRepeat.{Entry, slide, deliver, offsets}

slide_enough :
    (fuel big : ℕ) (window : Dict ℕ Entry) (seq_num next count : ℕ)
    → fuel ≤ big
    → seq_num ≤ fuel + next
    → slide big window seq_num next count ≡ slide fuel window seq_num next count
unfolding slide
slide_enough zero zero window seq_num next count le h = refl
slide_enough zero (suc big) window seq_num next count le h = ground arith
slide_enough (suc fuel) zero window seq_num next count le h = absurd (omega arith)
slide_enough (suc fuel) (suc big) window seq_num next count le h =
    rw (slide_enough fuel big window seq_num (next + 1) (count + 1) (omega arith) (omega arith))
      refl

deliver-nil : (big next : ℕ) → deliver big [] next ≡ ([], [], next)
unfolding deliver Dict.lookup
deliver-nil zero next = refl
deliver-nil (suc big) next = refl

deliver_enough :
    (fuel big : ℕ) (buffer : Dict ℕ Bytes) (next : ℕ)
    → fuel ≤ big
    → length buffer ≤ fuel
    → deliver big buffer next ≡ deliver fuel buffer next
unfolding deliver
deliver_enough zero zero buffer next le h = refl
deliver_enough zero (suc big) [] next le h = deliver-nil (suc big) next
deliver_enough zero (suc big) (item ∷ buffer) next le h = absurd (omega arith)
deliver_enough (suc fuel) zero buffer next le h = absurd (omega arith)
deliver_enough (suc fuel) (suc big) buffer next le h =
    elim (Option-cases (Dict.lookup next buffer)) [
      | inl e ↦ rw (e, deliver) refl
      | inr (chunk, e) ↦
          rw
            (
              e,
              deliver,
              deliver_enough fuel big (Dict.erase next buffer) (next + 1) (omega arith)
                  (omega (arith, length-erase next chunk buffer e)),
            )
            refl
    ]

offsets_enough :
    (fuel big i stop step : ℕ)
    → 0 < step
    → fuel ≤ big
    → stop ≤ fuel + i
    → offsets big i stop step ≡ offsets fuel i stop step
unfolding offsets
offsets_enough zero zero i stop step pos le h = refl
offsets_enough zero (suc big) i stop step pos le h = ground arith
offsets_enough (suc fuel) zero i stop step pos le h = absurd (omega arith)
offsets_enough (suc fuel) (suc big) i stop step pos le h =
    rw (offsets_enough fuel big (i + step) stop step pos (omega arith) (omega arith)) refl

-- The loop of `_handle_ack` stops where its condition fails, and counts its turns.
slide_stops :
    (fuel : ℕ) (window : Dict ℕ Entry) (seq_num next count : ℕ)
    → seq_num ≤ fuel + next
    → let (next', count') = slide fuel window seq_num next count in
      (ltb next' seq_num && not (Dict.contains next' window) ≡ false)
      × (next + count' ≡ next' + count)
unfolding slide
slide_stops zero window seq_num next count h = (ground arith, refl)
slide_stops (suc fuel) window seq_num next count h =
    elim (Bool-cases (ltb next seq_num && not (Dict.contains next window))) [
      | inl more ↦
          let (stops, counted) =
            slide_stops fuel window seq_num (next + 1) (count + 1) (omega arith) in
          rw (more, slide) (stops, omega (arith, counted))
      | inr stop ↦ rw (stop, slide) (stop, refl)
    ]

-- That of `_handle_data` stops at a number that is not buffered, after one turn for each packet.
deliver_stops :
    (fuel : ℕ) (buffer : Dict ℕ Bytes) (next : ℕ)
    → length buffer ≤ fuel
    → let (chunks, buffer', next') = deliver fuel buffer next in
      (Dict.lookup next' buffer' ≡ none) × (next' ≡ next + length chunks)
unfolding deliver
deliver_stops zero [] next h = (lookup-nil {V = Bytes} next, omega arith)
deliver_stops zero (item ∷ buffer) next h = absurd (omega arith)
deliver_stops (suc fuel) buffer next h = elim (Option-cases (Dict.lookup next buffer)) [
  | inl e ↦ rw (e, deliver) (e, omega arith)
  | inr (chunk, e) ↦
      let (stops, counted) =
        deliver_stops fuel (Dict.erase next buffer) (next + 1)
          (omega (arith, length-erase next chunk buffer e)) in
      rw (e, deliver) (stops, omega (arith, counted))
]

-- That of `push_payload` reaches the end of the payload.
offsets_stop :
    (fuel i stop step : ℕ)
    → 0 < step
    → stop ≤ fuel + i
    → stop ≤ i + length (offsets fuel i stop step) * step
unfolding offsets
offsets_stop zero i stop step pos h = omega arith
offsets_stop (suc fuel) i stop step pos h = elim (Bool-cases (ltb i stop)) [
  | inl more ↦
      rw (more, offsets) (omega (arith, offsets_stop fuel (i + step) stop step pos (omega arith)))
  | inr done ↦ rw (done, offsets) (ground arith)
]

-- The loops of `_handle_ack`, `_handle_data` and `push_payload`, on the fuel that these methods give
-- them or on more, with a chunk size that is not 0, stop where the loop's condition fails: `slide` at a
-- number that is seq_num or above or in the window, having counted the numbers that it passed;
-- `deliver` at a number that the remaining buffer has not, one number further for each chunk; and the
-- offsets, as many as there are, cover the whole payload. Any greater fuel gives the same results.
pub loops_enough :
    (big : ℕ) (window : Dict ℕ Entry) (buffer : Dict ℕ Bytes) (seq_num next count stop step : ℕ)
    → seq_num - next ≤ big
    → length buffer ≤ big
    → stop ≤ big
    → 0 < step
    → let (next', count') = slide big window seq_num next count in
      let (chunks, buffer', next_data) = deliver big buffer next in
      (slide big window seq_num next count ≡ slide (seq_num - next) window seq_num next count)
      × (ltb next' seq_num && not (Dict.contains next' window) ≡ false)
      × (next + count' ≡ next' + count)
      × (deliver big buffer next ≡ deliver (length buffer) buffer next)
      × (Dict.lookup next_data buffer' ≡ none)
      × (next_data ≡ next + length chunks)
      × (offsets big 0 stop step ≡ offsets stop 0 stop step)
      × (stop ≤ length (offsets big 0 stop step) * step)
loops_enough big window buffer seq_num next count stop step numbers packets bytes pos =
    let (slid, counted) = slide_stops big window seq_num next count (omega arith) in
    let (missing, taken) = deliver_stops big buffer next packets in
    (
      slide_enough (seq_num - next) big window seq_num next count numbers (omega arith),
      slid,
      counted,
      deliver_enough (length buffer) big buffer next packets (omega arith),
      missing,
      taken,
      offsets_enough stop big 0 stop step pos bytes (omega arith),
      omega (arith, offsets_stop big 0 stop step pos (omega arith)),
    )
