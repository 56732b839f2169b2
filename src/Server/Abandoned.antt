-- ===== src/Server/Abandoned.antt =====
-- A thread that ends badly, and its address afterwards.
use fiuba_redes.Common.{
  ℕ, ◌≡◌, ◌≢◌, ap, ◌∙◌, arith, Bool-cases, none, some, List, [], ◌∷◌, ◌++◌, nat_eq, inl, inr,
  Option-cases, ℕ_discrete,
}
use fiuba_redes.Common.Dict
use fiuba_redes.Common.Dict.{
  Dict, lookup-insert, lookup-erase, lookup-insert_self, lookup-insert_ne, lookup-erase_ne,
  contains_of_lookup, lookup_of_contains,
}
use fiuba_redes.Endpoint.{Readings}
use fiuba_redes.Packet.{Bytes}
use fiuba_redes.Runtime.{Text, Runtime}
use fiuba_redes.Server.{Thread, Ending, running, finished, broken, died}
use fiuba_redes.Server.Table.{
  Server, raise_thread, put, settle, file_of, rest_of, turned, take_turn, Action, raises, puts,
  turns, step, run,
}

-- The address is in the table, and no thread is there to read its queue.
pub record IsAbandoned (addr : ℕ) (s : Server) : Type 0 where
  pub queue : List Bytes
  pub listed : Dict.lookup addr s.queues ≡ some queue
  pub alone : Dict.lookup addr s.threads ≡ none

raise_thread-IsAbandoned :
    (addr a : ℕ) (s : Server) → IsAbandoned addr s → IsAbandoned addr (raise_thread a s)
unfolding raise_thread
raise_thread-IsAbandoned addr a s h = elim (Bool-cases (Dict.contains a s.queues)) [
  | inl e ↦ rw (e, raise_thread) h
  | inr e ↦
      let far : addr ≢ a = λ same. absurd (
        ground (
          arith,
          ap (λ (k : ℕ). Dict.contains k s.queues) same,
          contains_of_lookup addr h.queue s.queues h.listed,
        )) in
      rw (e, raise_thread)
        (record {
          queue = h.queue;
          listed = lookup-insert_ne addr a [] s.queues far ∙ h.listed;
          alone = lookup-insert_ne addr a _ s.threads far ∙ h.alone;
        })
]

put-IsAbandoned :
    (addr a : ℕ) (raw : Bytes) (s : Server) → IsAbandoned addr s → IsAbandoned addr (put a raw s)
unfolding put
put-IsAbandoned addr a raw s h = elim (Option-cases (Dict.lookup a s.queues)) [
  | inl e ↦ rw (e, put) h
  | inr (queue, e) ↦ elim (ℕ_discrete addr a) [
    | yes same ↦
        rw (e, put)
          (record {
            queue = queue ++ (raw ∷ []);
            listed = rw same (lookup-insert_self a (queue ++ (raw ∷ [])) s.queues);
            alone = h.alone;
          })
    | no far ↦
        rw (e, put)
          (record {
            queue = h.queue;
            listed = lookup-insert_ne addr a (queue ++ (raw ∷ [])) s.queues far ∙ h.listed;
            alone = h.alone;
          })
  ]
]

settle-IsAbandoned :
    (addr a : ℕ) (queue : List Bytes) (ending : Ending) (thread : Thread) (s : Server)
    → addr ≢ a
    → IsAbandoned addr s
    → IsAbandoned addr (settle a queue ending thread s)
unfolding settle
settle-IsAbandoned addr a queue running thread s far h = record {
  queue = h.queue;
  listed = lookup-insert_ne addr a queue s.queues far ∙ h.listed;
  alone = lookup-insert_ne addr a thread s.threads far ∙ h.alone;
}
settle-IsAbandoned addr a queue finished thread s far h = record {
  queue = h.queue;
  listed = lookup-erase_ne addr a s.queues far ∙ h.listed;
  alone = lookup-erase_ne addr a s.threads far ∙ h.alone;
}
settle-IsAbandoned addr a queue broken thread s far h = record {
  queue = h.queue;
  listed = lookup-insert_ne addr a queue s.queues far ∙ h.listed;
  alone = lookup-erase_ne addr a s.threads far ∙ h.alone;
}
settle-IsAbandoned addr a queue (died e) thread s far h = record {
  queue = h.queue;
  listed = lookup-insert_ne addr a queue s.queues far ∙ h.listed;
  alone = lookup-erase_ne addr a s.threads far ∙ h.alone;
}

module _ (r : Runtime) (join : Text → Text) where
  take_turn-IsAbandoned :
      (addr a : ℕ) (t : Readings) (s : Server)
      → IsAbandoned addr s
      → IsAbandoned addr (take_turn r join a t s)
  unfolding take_turn
  take_turn-IsAbandoned addr a t s h = elim (Option-cases (Dict.lookup a s.threads)) [
    | inl e ↦ rw (e, take_turn) h
    | inr (thread, e) ↦
        let far : addr ≢ a =
          λ same. absurd (ground (arith, ap (λ (k : ℕ). Dict.lookup k s.threads) same, h.alone)) in
        let (ending, thread') = turned r join a t thread s in
        rw (e, take_turn)
          (settle-IsAbandoned addr a (rest_of (Dict.lookup a s.queues)) ending thread'
            (record s { disk = (file_of thread'.session).disk }) far
            (record { queue = h.queue; listed = h.listed; alone = h.alone }))
  ]

  step-IsAbandoned :
      (addr : ℕ) (action : Action) (s : Server)
      → IsAbandoned addr s
      → IsAbandoned addr (step r join action s)
  unfolding step
  step-IsAbandoned addr (raises a) s h = raise_thread-IsAbandoned addr a s h
  step-IsAbandoned addr (puts a raw) s h = put-IsAbandoned addr a raw s h
  step-IsAbandoned addr (turns a t) s h = take_turn-IsAbandoned addr a t s h

  run-IsAbandoned :
      (addr : ℕ) (actions : List Action) (s : Server)
      → IsAbandoned addr s
      → IsAbandoned addr (run r join actions s)
  unfolding run
  run-IsAbandoned addr [] s h = h
  run-IsAbandoned addr (action ∷ actions) s h =
      run-IsAbandoned addr actions (step r join action s) (step-IsAbandoned addr action s h)

-- A thread that ends without a CLOSE_ACK: by inactivity, a failed handshake or an exception.
abbrev pub EndsBadly : Ending → Type 0
EndsBadly running = ⊥
EndsBadly finished = ⊥
EndsBadly broken = Unit
EndsBadly (died e) = Unit

lookup-erase_self : (addr : ℕ) (d : Dict ℕ Thread) → Dict.lookup addr (Dict.erase addr d) ≡ none
lookup-erase_self addr d = lookup-erase addr addr d ∙ ground arith

settle-abandons :
    (addr : ℕ) (queue : List Bytes) (ending : Ending) (thread : Thread) (s : Server)
    → EndsBadly ending
    → IsAbandoned addr (settle addr queue ending thread s)
unfolding settle
settle-abandons addr queue running thread s bad = absurd bad
settle-abandons addr queue finished thread s bad = absurd bad
settle-abandons addr queue broken thread s bad = record {
  queue = queue;
  listed = lookup-insert_self addr queue s.queues;
  alone = lookup-erase_self addr s.threads;
}
settle-abandons addr queue (died e) thread s bad = record {
  queue = queue;
  listed = lookup-insert_self addr queue s.queues;
  alone = lookup-erase_self addr s.threads;
}

-- After a turn in which the thread of an address ends by inactivity, a failed handshake or an
-- exception the server never serves that address again: whatever arrives and whichever threads take
-- turns, the address has no thread, and stands in the table, so that it gets none.
pub take_turn-abandons :
    (r : Runtime) (join : Text → Text) (addr : ℕ) (t : Readings) (thread : Thread) (s : Server)
    (actions : List Action)
    → Dict.lookup addr s.threads ≡ some thread
    → EndsBadly (turned r join addr t thread s).0
    → IsAbandoned addr (run r join actions (take_turn r join addr t s))
unfolding take_turn
take_turn-abandons r join addr t thread s actions there bad =
    let (ending, thread') = turned r join addr t thread s in
    rw (there, take_turn)
      (run-IsAbandoned r join addr actions
        (settle addr (rest_of (Dict.lookup addr s.queues)) ending thread'
          (record s { disk = (file_of thread'.session).disk }))
        (settle-abandons addr (rest_of (Dict.lookup addr s.queues)) ending thread'
          (record s { disk = (file_of thread'.session).disk }) bad))
