-- ===== src/Server/Table.antt =====
-- tp1/src/lib/server/Server.py: the table `clientDataQueues`, the main loop and the threads, which
-- share the disk.
use fiuba_redes.Common.{ℕ, Option, none, some, List, [], ◌∷◌, ◌++◌, nat_eq, if◌then◌else◌}
use fiuba_redes.Common.Dict
use fiuba_redes.Common.Dict.{
  Dict, lookup-insert, lookup-erase, lookup-insert_self, lookup-insert_ne, lookup-erase_ne,
  contains_of_lookup, lookup_of_contains,
}
use fiuba_redes.Endpoint.{Readings}
use fiuba_redes.File.{FileHandler}
use fiuba_redes.File
use fiuba_redes.Packet.{Bytes}
use fiuba_redes.Runtime.{Text, Runtime}
use fiuba_redes.Server.{Session, waiting, connected, Thread, Ending, running, finished, turn}

-- `ended` keeps the threads that have ended, with what they sent.
pub record Server : Type 0 where
  pub disk : Dict Text Bytes
  pub queues : Dict ℕ (List Bytes)
  pub threads : Dict ℕ Thread
  pub ended : List (ℕ × Ending × Thread)

abbrev pub init : Dict Text Bytes → Server
init disk = record { disk = disk; queues = []; threads = []; ended = [] }

abbrev pub file_of : Session → FileHandler
file_of (waiting h) = h
file_of (connected e) = e.file_handler

abbrev pub with_disk : Dict Text Bytes → Session → Session
with_disk disk (waiting h) = waiting (record h { disk = disk })
with_disk disk (connected e) =
    connected (record e { file_handler = record e.file_handler { disk = disk } })

-- `_raise_thread`
unfoldable pub raise_thread : ℕ → Server → Server
raise_thread addr s = if Dict.contains addr s.queues then s else record s {
  queues = Dict.insert addr [] s.queues;
  threads =
      Dict.insert addr (record { session = waiting (File.init s.disk); inactivity = 0 }) s.threads;
}

-- `self.clientDataQueues[addr].put(data)`; a missing key raises KeyError, which `start` prints.
unfoldable pub put : ℕ → Bytes → Server → Server
put addr raw s = elim (Dict.lookup addr s.queues) [
  | none ↦ s
  | some queue ↦ record s { queues = Dict.insert addr (queue ++ (raw ∷ [])) s.queues }
]

-- `que.get`: the oldest datagram, or nothing when the wait is over.
abbrev pub first : Option (List Bytes) → Option Bytes
first (some (raw ∷ queue)) = some raw
first other = none

abbrev pub rest_of : Option (List Bytes) → List Bytes
rest_of (some (raw ∷ queue)) = queue
rest_of other = []

-- The table after a turn: a thread that goes on stays, any other is gone, and only after a CLOSE_ACK
-- does the address leave the table.
unfoldable pub settle : ℕ → List Bytes → Ending → Thread → Server → Server
settle addr queue running thread s = record s {
  queues = Dict.insert addr queue s.queues;
  threads = Dict.insert addr thread s.threads;
}
settle addr queue finished thread s = record s {
  queues = Dict.erase addr s.queues;
  threads = Dict.erase addr s.threads;
  ended = (addr, finished, thread) ∷ s.ended;
}
settle addr queue ending thread s = record s {
  queues = Dict.insert addr queue s.queues;
  threads = Dict.erase addr s.threads;
  ended = (addr, ending, thread) ∷ s.ended;
}

module _ (r : Runtime) (join : Text → Text) where
  abbrev pub turned : ℕ → Readings → Thread → Server → Ending × Thread
  turned addr t thread s =
      turn r join (Dict.contains addr s.queues) t (first (Dict.lookup addr s.queues))
        (record thread { session = with_disk s.disk thread.session })

  -- A turn of the thread of an address, if it has one.
  unfoldable pub take_turn : ℕ → Readings → Server → Server
  take_turn addr t s = elim (Dict.lookup addr s.threads) [
    | none ↦ s
    | some thread ↦
        let (ending, thread') = turned addr t thread s in
        settle addr (rest_of (Dict.lookup addr s.queues)) ending thread'
          (record s { disk = (file_of thread'.session).disk })
  ]

-- What happens to the server: the main thread finds no thread for the address or one, or puts a
-- datagram into the queue of the address; or the thread of an address takes a turn.
pub data Action : Type 0 where
  raises : ℕ → Action
  puts : ℕ → Bytes → Action
  turns : ℕ → Readings → Action

module _ (r : Runtime) (join : Text → Text) where
  unfoldable pub step : Action → Server → Server
  step (raises addr) s = raise_thread addr s
  step (puts addr raw) s = put addr raw s
  step (turns addr t) s = take_turn r join addr t s

  unfoldable pub run : List Action → Server → Server
  run [] s = s
  run (action ∷ actions) s = run actions (step action s)
