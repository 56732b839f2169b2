-- ===== src/SelectiveRepeat/Flow.antt =====
-- Flow control: what an acknowledgement frees is what its owner may push.
use fiuba_redes.Common.{ℕ, ◌+◌, ◌*◌, ◌≤◌, ◌≡◌, ap, sym, ◌∙◌, arith, Option, some, length}
use fiuba_redes.Event.{Event, acked}
use fiuba_redes.Packet.{Packet, Bytes}
use fiuba_redes.Runtime.{Runtime, IsRuntime}
use fiuba_redes.SelectiveRepeat.{SelectiveRepeat, handle_ack, push_payload}
use fiuba_redes.SelectiveRepeat.Pushing.{HasRoom, cuts, push_payload-Pushes}
use fiuba_redes.SelectiveRepeat.Sender.{IsSending, handle_ack-Slides}

-- No more numbers are in flight than the window has places.
abbrev pub IsWithin : SelectiveRepeat → Type 0
IsWithin s = s.seq_num ≤ s.next_expected + s.window_size

abbrev acked_count : Option Event → ℕ
acked_count (some (acked count)) = count
acked_count event = 0

-- After an acknowledgement that frees `count` numbers, and the push of a block of at most as many
-- chunks, as client and server read it, no more numbers are in flight than the window has places, if
-- no more were before.
pub push_payload-IsWithin :
    (r : Runtime) (clock : ℕ → ℕ) (pkt : Packet) (s : SelectiveRepeat) (count : ℕ) (block : Bytes)
    → IsRuntime r
    → IsSending s
    → IsWithin s
    → s.next_expected ≤ pkt.seq_num
    → (handle_ack pkt s).0 ≡ some (acked count)
    → let s' = (handle_ack pkt s).1 in
      length block ≤ count * s'.chunk_size
      → HasRoom s' (length (cuts s' block))
      → IsWithin (push_payload r clock block s').1
push_payload-IsWithin r clock pkt s count block lib inv within low told small room =
    let d = handle_ack-Slides pkt s inv low in
    let same : d.count ≡ count = ap acked_count (sym d.told ∙ told) in
    let (pkts, pushes) = push_payload-Pushes r lib clock block (handle_ack pkt s).1 room in
    omega (
      arith,
      d.moved,
      d.kept.0,
      d.kept.1,
      pushes.counted,
      pushes.few count small,
      pushes.kept.0,
      pushes.kept.1,
    )
