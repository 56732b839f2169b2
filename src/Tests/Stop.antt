-- ===== src/Tests/Stop.antt =====
-- StopAndWait at concrete inputs: two chunks, the first of which arrives twice.
use fiuba_redes.Common.{
  ◌-◌, ◌≡◌, inr, inl, refl, arith, true, some, List, [], ◌∷◌, take, All, nat_eq, ℕ_discrete,
}
use fiuba_redes.Packet.{Packet, Bytes, new}
use fiuba_redes.SelectiveRepeat.Receiver.{IsHonest}
use fiuba_redes.SelectiveRepeat.Transfer.{written}
use fiuba_redes.StopAndWait.{StopAndWait, init, handle_data}
use fiuba_redes.StopAndWait.Exchange.{receive, written_prefix, written_of_Acknowledged_last}

abbrev blocks : List Bytes
blocks = (1 ∷ 2 ∷ []) ∷ (3 ∷ []) ∷ []

abbrev repeated : List Packet
repeated = new 3 0 0 (1 ∷ 2 ∷ []) 1 ∷ new 3 0 0 (1 ∷ 2 ∷ []) 1 ∷ new 3 0 0 (3 ∷ []) 2 ∷ []

genuine : All (IsHonest blocks) repeated
genuine = (
  record { numbered = omega arith; carries = refl },
  (
    record { numbered = omega arith; carries = refl },
    (record { numbered = omega arith; carries = refl }, tt),
  ),
)

written_prefix_example :
    written (receive repeated (init 0)).0
    ≡ take ((receive repeated (init 0)).1.next_expected - 1) blocks
written_prefix_example = written_prefix blocks 0 repeated genuine

written_of_Acknowledged_last_example : written (receive repeated (init 0)).0 ≡ blocks
unfolding receive handle_data ℕ_discrete
written_of_Acknowledged_last_example =
    written_of_Acknowledged_last blocks 0 repeated genuine (inr (inr (inl refl)))

abbrev in_flight : StopAndWait
in_flight = record (init 1) { pending = some (new 3 1 0 (7 ∷ []) 4); waiting_ack = true }

abbrev answer : Packet
answer = new 2 1 0 [] 4
