-- ===== src/Tests/Server.antt =====
-- A client's thread that has been silent for almost a minute, and its address afterwards.
use fiuba_redes.Common.{◌≡◌, refl, some, [], ◌∷◌, ℕ_discrete, nat_eq}
use fiuba_redes.Common.Dict
use fiuba_redes.Endpoint.{Readings}
use fiuba_redes.File
use fiuba_redes.Runtime.{Text}
use fiuba_redes.Server.{Thread, waiting, turn}
use fiuba_redes.Server.Abandoned.{IsAbandoned, take_turn-abandons}
use fiuba_redes.Server.Table.{Server, raises, puts, turns, run, take_turn}
use fiuba_redes.Tests.Packets.{runtime}

abbrev pub storage : Text → Text
storage name = 47 ∷ name

abbrev pub reading : Readings
reading = record { now = 0; resent = λ n. 0; pushed = λ n. 0; closed = λ n. 0 }

abbrev silent : Thread
silent = record { session = waiting (File.init []); inactivity = 59500 }

abbrev one_client : Server
one_client = record { disk = []; queues = (7, []) ∷ []; threads = (7, silent) ∷ []; ended = [] }

served : Dict.lookup 7 one_client.threads ≡ some silent
unfolding Dict.lookup ℕ_discrete
served = refl

-- The client's SYN comes again, and waits in a queue that no thread reads.
take_turn-abandons_example : IsAbandoned 7 (
    run runtime storage
      (raises 7 ∷ puts 7 (1 ∷ []) ∷ turns 7 reading ∷ [])
      (take_turn runtime storage 7 reading one_client))
unfolding turn Dict.lookup Dict.contains ℕ_discrete
take_turn-abandons_example =
    take_turn-abandons runtime storage 7 reading silent one_client
      (raises 7 ∷ puts 7 (1 ∷ []) ∷ turns 7 reading ∷ []) served tt
