-- ===== src/Upload/Network/Finishing.antt =====
-- An upload over the network can always be completed.
use fiuba_redes.Common.{
  ℕ, ◌^◌, ◌<◌, ◌≡◌, ◌≢◌, inl, inr, refl, sym, ap, ◌∙◌, Bool-cases, Option-cases, true, some, List,
  [], ◌∷◌, length, All, get_elem?, nat_eq,
}
use fiuba_redes.Common.Dict
use fiuba_redes.Common.Dict.{Dict}
use fiuba_redes.Endpoint.{Readings}
use fiuba_redes.Exceptions.{Result, ok}
use fiuba_redes.File.{text_eq, is_closed}
use fiuba_redes.Handshake.{syn_payload}
use fiuba_redes.Method.{after}
use fiuba_redes.Packet.{Bytes}
use fiuba_redes.Runtime.{Text, Runtime, IsRuntime}
use fiuba_redes.Upload.{
  System, Move, to_client, client_waits, to_server, server_waits, is_opening, move, run,
}
use fiuba_redes.Upload.Completion.{IsNew}
use fiuba_redes.Upload.Liveness.{IsBusy-Completes}
use fiuba_redes.Upload.Moves.{move-IsRight, run-IsRight}
use fiuba_redes.Upload.Network.{
  Network, steps, established, is_quiet, are_quiet, handler_of, sent_by,
}
use fiuba_redes.Upload.Network.Promises.{reached}
use fiuba_redes.Upload.Network.Simulation.{net, step-move, run_ok}
use fiuba_redes.Upload.Safety.{ok_of_Ensures, IsRight-stored}
use fiuba_redes.Upload.Steps.{IsRight}
use mathlib.Core.Path.{subst}

-- The ACK of the connection changes nothing in the two ends.
opening_dropped :
    (r : Runtime) (join join' : Text → Text) (t : Readings) (n : ℕ) (s : System) (raw : Bytes)
    → get_elem? s.client.sent n ≡ some raw
    → is_opening r raw ≡ true
    → move r join join' (to_server t n) s ≡ (ok tt, s)
unfolding move
opening_dropped r join join' t n s raw there opens = rw (there, move, opens) refl

module _ (r : Runtime) (lib : IsRuntime r) (content : Bytes) (path target : Text)
    (join join' : Text → Text) (bounded : length content < 2 ^ 30) (a b : ℕ) where
  abbrev IsFine : System → Type 0
  IsFine = IsRight r lib content path target join join' bounded

  -- Quiet moves of the network, all of them new, that end where the moves of the two ends do.
  pub Follows : List Move → System → ℕ → Type 0
  Follows ms s i =
      (more : List Move) × All (IsNew a b) more
      × (are_quiet r join join' more (net s i) ≡ true)
      × (i' : ℕ) × (steps r join join' more (net s i) ≡ (ok tt, net (run r join join' ms s).1 i'))

  Follows-more :
      (m : Move) (ms : List Move) (s : System) (i : ℕ)
      → IsFine s
      → IsNew a b m
      → is_quiet r join join' m (net s i) ≡ true
      → ((i' : ℕ) → Follows ms (move r join join' m s).1 i')
      → Follows (m ∷ ms) s i
  unfolding are_quiet steps Follows
  Follows-more m ms s i right new quiet then_on =
      let (i1, e) = step-move r lib content path target join join' bounded m s i right quiet in
      let fine =
        (ok_of_Ensures IsFine (move r join join' m s)
          (move-IsRight r lib content path target join join' bounded m s right)).0 in
      let (more, news, quiets, i2, e2) = then_on i1 in
      (
        m ∷ more,
        (new, news),
        rw (quiet, e) quiets,
        i2,
        ap (after (λ _. steps r join join' more)) e
            ∙ (e2 ∙ ap (λ (x : System). (ok tt, net x i2)) (sym (run_ok r join join' m ms s fine))),
      )

  -- A move that is new is quiet, or changes nothing.
  Follows-one :
      (m : Move) (ms : List Move) (s : System) (i : ℕ)
      → IsFine s
      → IsNew a b m
      → ((i' : ℕ) → Follows ms (move r join join' m s).1 i')
      → Follows (m ∷ ms) s i
  unfolding Follows run
  Follows-one (to_client t n) ms s i right new then_on =
      Follows-more (to_client t n) ms s i right new refl then_on
  Follows-one (client_waits t) ms s i right new then_on =
      Follows-more (client_waits t) ms s i right new refl then_on
  Follows-one (server_waits t) ms s i right new then_on = absurd new
  Follows-one (to_server t n) ms s i right new then_on =
      elim (Option-cases (get_elem? s.client.sent n)) [
        | inl e ↦ Follows-more (to_server t n) ms s i right new (rw (e, is_quiet) refl) then_on
        | inr (raw, e) ↦ elim (Bool-cases (is_opening r raw)) [
          | inl opens ↦
              let same = opening_dropped r join join' t n s raw e opens in
              let rest =
                subst (λ (x : Result (Unit {0}) × System). Follows ms x.1 i) same (then_on i) in
              (
                rest.0,
                rest.1,
                rest.2,
                rest.3,
                rest.4
                    ∙ ap
                        (λ (x : Result (Unit {0}) × System).
                          (ok tt, net (after (λ _. run r join join' ms) x).1 rest.3))
                        (sym same),
              )
          | inr other ↦
              Follows-more (to_server t n) ms s i right new (rw (e, is_quiet, other) refl) then_on
        ]
      ]

  pub follows :
      (ms : List Move) (s : System) (i : ℕ) → IsFine s → All (IsNew a b) ms → Follows ms s i
  unfolding are_quiet steps run Follows
  follows [] s i right news = ([], tt, refl, i, refl)
  follows (m ∷ ms) s i right (new, news) =
      let right' =
        (ok_of_Ensures IsFine (move r join join' m s)
          (move-IsRight r lib content path target join join' bounded m s right)).1 in
      Follows-one m ms s i right new (λ i'. follows ms (move r join join' m s).1 i' right' news)

module _ (r : Runtime) (join join' : Text → Text) (t t' t'' : Readings) (path name : Text)
    (content : Bytes) (disk disk' : Dict Text Bytes) (ms : List Move) (lib : IsRuntime r)
    (bounded : length content < 2 ^ 30) (there : Dict.lookup (join path) disk ≡ some content)
    (visible : All (λ c. c ≢ 0) name)
    (short : length (syn_payload r name (length content)) < 2 ^ 27)
    (quiet : are_quiet r join join' ms (established r join join' t t' t'' path disk name disk')
      ≡ true) where
  -- In an upload by selective repeat of a file below 2^30 bytes that the client's disk has,
  -- under a name without zeros whose SYN fits its length field, once the SYN, its answer and
  -- the ACK of the connection have arrived in turn, and after moves that give the server no
  -- further ACK of the connection and do not let its thread's inactivity reach 60 s, but may
  -- lose, repeat and reorder all other datagrams: there are moves of the same kind, which
  -- deliver only datagrams sent from then on and let only the client wait, at whose end the
  -- client and the server have closed their files and the server's holds exactly the bytes of
  -- the client's.
  pub steps-finishes :
      let s = (steps r join join' ms (established r join join' t t' t'' path disk name disk')).1 in
      (more : List Move) × All
        (IsNew (length s.client.sent) (length (sent_by s.thread.session)))
        more
      × (are_quiet r join join' more s ≡ true)
      × let end = (steps r join join' more s).1 in
        (is_closed end.client.file_handler ≡ true)
        × (is_closed (handler_of end.thread.session) ≡ true)
        × (Dict.lookup (join' name) (handler_of end.thread.session).disk ≡ some content)
  unfolding Follows
  steps-finishes =
      let (s, i, e, right, busy) =
        reached r join join' t t' t'' path name content disk disk' lib bounded there visible short
          ms quiet in
      let fine : System → Type 0 =
        IsRight r lib content (join path) (join' name) join join' bounded in
      let (inner, new, closed) =
        IsBusy-Completes r lib content (join path) (join' name) join join' bounded s right busy in
      let (more, news, quiets, i2, e2) =
        follows r lib content (join path) (join' name) join join' bounded (length s.client.sent)
          (length s.server.sent) inner s i right new in
      let (shut, stored) =
        IsRight-stored r lib join join' (join path) (join' name) content bounded
          (run r join join' inner s).1
          (ok_of_Ensures fine (run r join join' inner s)
            (run-IsRight r lib content (join path) (join' name) join join' bounded inner s right)).1
          closed in
      subst
        (λ (x : Network).
          (more : List Move) × All
            (IsNew (length x.client.sent) (length (sent_by x.thread.session))) more
          × (are_quiet r join join' more x ≡ true)
          × let end = (steps r join join' more x).1 in
            (is_closed end.client.file_handler ≡ true)
            × (is_closed (handler_of end.thread.session) ≡ true)
            × (Dict.lookup (join' name) (handler_of end.thread.session).disk ≡ some content))
        (sym (ap (λ (x : Result (Unit {0}) × Network). x.1) e))
        (
          more,
          news,
          quiets,
          subst
              (λ (x : Result (Unit {0}) × Network).
                (is_closed x.1.client.file_handler ≡ true)
                × (is_closed (handler_of x.1.thread.session) ≡ true)
                × (Dict.lookup (join' name) (handler_of x.1.thread.session).disk ≡ some content))
              (sym e2) (closed, shut, stored),
        )
