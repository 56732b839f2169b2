-- ===== src/Upload/Network/Simulation.antt =====
-- Once the connection stands, a step of the network is a move of the two ends.
use fiuba_redes.Client
use fiuba_redes.Common.{
  ℕ, ◌+◌, ◌^◌, ◌<◌, ◌≡◌, inl, inr, refl, sym, ap, ◌∙◌, arith, Bool, Bool-cases, Option-cases, true,
  false, List, [], ◌∷◌, length, get_elem?, not, ◌&&◌, nat_eq, leb,
}
use fiuba_redes.Constants.{ack_timeout}
use fiuba_redes.Endpoint.{Endpoint, Readings, resend}
use fiuba_redes.Exceptions.{Result, ok, raise}
use fiuba_redes.File.{text_eq, is_closed}
use fiuba_redes.Method.{after}
use fiuba_redes.Packet.{Bytes}
use fiuba_redes.Runtime.{Text, Runtime, IsRuntime}
use fiuba_redes.Server
use fiuba_redes.Server.{Ending, Session, connected, running, resent, inactivity_limit}
use fiuba_redes.Upload.{
  System, Move, to_client, client_waits, to_server, server_waits, is_opening, client_turn, move,
  run, on_server,
}
use fiuba_redes.Upload.Moves.{move-IsRight}
use fiuba_redes.Upload.Network.{
  Network, client_hears, server_hears, step, steps, is_quiet, are_quiet,
}
use fiuba_redes.Upload.Network.Turns.{IsRight-turn, to_server_lem}
use fiuba_redes.Upload.Safety.{ok_of_Ensures}
use fiuba_redes.Upload.Steps.{IsRight}
use mathlib.Core.Path.{subst}

-- The network around the two ends, its thread silent for i milliseconds.
abbrev pub net : System → ℕ → Network
net s i = record {
  client = s.client;
  responded = true;
  thread = record { session = connected s.server; inactivity = i };
  ending = running;
}

abbrev pub netted : ℕ → Result (Unit {0}) × System → Result (Unit {0}) × Network
netted i x = (x.0, net x.1 i)

module _ (r : Runtime) (join join' : Text → Text) where
  client_hears_lem :
      (input : Client.Input) (s : System) (i : ℕ)
      → client_hears r join join' input (net s i) ≡ netted i (client_turn r join join' input s)
  unfolding client_hears client_turn
  client_hears_lem input s i = elim (Bool-cases (is_closed s.client.file_handler)) [
    | inl closed ↦ rw closed refl
    | inr open_file ↦ rw open_file refl
  ]

  to_client_step :
      (t : Readings) (n : ℕ) (s : System) (i : ℕ)
      → step r join join' (to_client t n) (net s i) ≡ netted i (move r join join' (to_client t n) s)
  unfolding step move
  to_client_step t n s i = elim (Option-cases (get_elem? s.server.sent n)) [
    | inl e ↦ rw (e, step, move) refl
    | inr (raw, e) ↦ rw (e, step, move) (client_hears_lem (Client.datagram t raw) s i)
  ]

  client_waits_step :
      (t : Readings) (s : System) (i : ℕ)
      → step r join join' (client_waits t) (net s i)
        ≡ netted i (move r join join' (client_waits t) s)
  unfolding step move
  client_waits_step t s i = client_hears_lem (Client.silence t) s i

  -- A turn in silence that stays below the limit and raises nothing.
  server_waits_step :
      (t : Readings) (s : System) (i : ℕ)
      → not (leb inactivity_limit (i + ack_timeout)) ≡ true
      → (move r join join' (server_waits t) s).0 ≡ ok tt
      → step r join join' (server_waits t) (net s i)
        ≡ (ok tt, net (move r join join' (server_waits t) s).1 (i + ack_timeout))
  unfolding step move server_hears Server.turn Server.on_silence
  server_waits_step t s i early fine =
      let x = resend r t s.server in
      let low : leb inactivity_limit (i + ack_timeout) ≡ false = ground arith in
      rw low (settles x fine)
    where
      settled_net : Ending × Session → Result (Unit {0}) × Network
      settled_net (ending, session) = (
        ok tt,
        record (net s i) {
          thread = record { session = session; inactivity = i + ack_timeout };
          ending = ending;
        },
      )

      settles :
          (x : Result (Unit {0}) × Endpoint)
          → (on_server (λ _. x) s).0 ≡ ok tt
          → settled_net (resent x) ≡ (ok tt, net (on_server (λ _. x) s).1 (i + ack_timeout))
      settles (ok tt, e) fine = refl
      settles (raise y, e) fine = absurd (ground arith)

and_left : (a b : Bool) → a && b ≡ true → a ≡ true
and_left true b h = refl
and_left false b h = h

pub and_right : (a b : Bool) → a && b ≡ true → b ≡ true
and_right true b h = h
and_right false b h = absurd (ground arith)

pub run_ok :
    (r : Runtime) (join join' : Text → Text) (m : Move) (ms : List Move) (s : System)
    → (move r join join' m s).0 ≡ ok tt
    → (run r join join' (m ∷ ms) s).1 ≡ (run r join join' ms (move r join join' m s).1).1
unfolding run
run_ok r join join' m ms s fine =
    ap
      (λ (b : Result (Unit {0})).
        (after (λ _. run r join join' ms) (b, (move r join join' m s).1)).1)
      fine

module _ (r : Runtime) (lib : IsRuntime r) (content : Bytes) (path target : Text)
    (join join' : Text → Text) (bounded : length content < 2 ^ 30) where
  abbrev Right : System → Type 0
  Right = IsRight r lib content path target join join' bounded

  -- What a quiet step is in the two ends.
  abbrev Simulated : Move → System → ℕ → Type 0
  Simulated m s i =
      (i' : ℕ) × (step r join join' m (net s i) ≡ (ok tt, net (move r join join' m s).1 i'))

  to_server_step :
      (t : Readings) (n : ℕ) (s : System) (i : ℕ)
      → Right s
      → is_quiet r join join' (to_server t n) (net s i) ≡ true
      → Simulated (to_server t n) s i
  unfolding step move server_hears
  to_server_step t n s i right quiet = elim (Option-cases (get_elem? s.client.sent n)) [
    | inl e ↦ (i, rw (e, step, move) refl)
    | inr (raw, e) ↦
        let other : is_opening r raw ≡ false = ground (arith, quiet, e) in
        (
          0,
          rw (e, step)
              (rw
                (IsRight-turn r lib content path target join join' bounded t n i raw other s right
                  e)
                (ap
                  (λ (c : Endpoint).
                    (ok tt, record (net (move r join join' (to_server t n) s).1 0) { client = c }))
                  (ap (λ (x : Result (Unit {0}) × System). x.1.client)
                    (sym (to_server_lem r join join' t n raw s e other))))),
        )
  ]

  pub step-move :
      (m : Move) (s : System) (i : ℕ)
      → Right s
      → is_quiet r join join' m (net s i) ≡ true
      → Simulated m s i
  step-move m s i right quiet = by_move m right quiet fine
    where
      fine : (move r join join' m s).0 ≡ ok tt
      fine =
          (ok_of_Ensures Right (move r join join' m s)
            (move-IsRight r lib content path target join join' bounded m s right)).0

      by_move :
          (m : Move)
          → Right s
          → is_quiet r join join' m (net s i) ≡ true
          → (move r join join' m s).0 ≡ ok tt
          → Simulated m s i
      by_move (to_client t n) right quiet fine = (
        i,
        to_client_step r join join' t n s i
            ∙ ap (λ (b : Result (Unit {0})). (b, net (move r join join' (to_client t n) s).1 i))
                fine,
      )
      by_move (client_waits t) right quiet fine = (
        i,
        client_waits_step r join join' t s i
            ∙ ap (λ (b : Result (Unit {0})). (b, net (move r join join' (client_waits t) s).1 i))
                fine,
      )
      by_move (to_server t n) right quiet fine = to_server_step t n s i right quiet
      by_move (server_waits t) right quiet fine =
          (i + ack_timeout, server_waits_step r join join' t s i quiet fine)

  -- Quiet moves, from the two ends' states.
  pub steps-run :
      (ms : List Move) (s : System) (i : ℕ)
      → Right s
      → are_quiet r join join' ms (net s i) ≡ true
      → (i' : ℕ) × (steps r join join' ms (net s i) ≡ (ok tt, net (run r join join' ms s).1 i'))
        × Right (run r join join' ms s).1
  unfolding steps run are_quiet
  steps-run [] s i right quiet = (i, refl, right)
  steps-run (m ∷ ms) s i right quiet =
      let first = and_left _ _ quiet in
      let (i1, e) = step-move m s i right first in
      let (fine, right1) =
        ok_of_Ensures Right (move r join join' m s)
          (move-IsRight r lib content path target join join' bounded m s right) in
      let s1 = (move r join join' m s).1 in
      let rest : are_quiet r join join' ms (net s1 i1) ≡ true =
        sym (ap (λ (x : Result (Unit {0}) × Network). are_quiet r join join' ms x.1) e)
        ∙ and_right _ _ quiet in
      let (i2, e2, right2) = steps-run ms s1 i1 right1 rest in
      let same = run_ok r join join' m ms s fine in
      (
        i2,
        ap (after (λ _. steps r join join' ms)) e
            ∙ (e2 ∙ ap (λ (x : System). (ok tt, net x i2)) (sym same)),
        subst Right (sym same) right2,
      )
