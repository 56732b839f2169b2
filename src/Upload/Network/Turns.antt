-- ===== src/Upload/Network/Turns.antt =====
-- A turn of the server's thread is a move of the two ends.
use fiuba_redes.Common.{
  ℕ, ◌^◌, ◌<◌, ◌≡◌, inl, inr, refl, sym, ap, ◌∙◌, arith, Bool, true, false, Option, none, some,
  List, length, get_elem?, nat_eq,
}
use fiuba_redes.Endpoint.{Endpoint, Readings}
use fiuba_redes.Event.{Event}
use fiuba_redes.Exceptions.{Result, ok, raise}
use fiuba_redes.File.{FileHandler, text_eq}
use fiuba_redes.Method.{after, return, Ensures, Ensures-weaken}
use fiuba_redes.Packet.{Packet, Bytes}
use fiuba_redes.Packet.RoundTrip.{from_bytes-wire}
use fiuba_redes.Runtime.{Text, Runtime, IsRuntime}
use fiuba_redes.SelectiveRepeat.{SelectiveRepeat}
use fiuba_redes.SelectiveRepeat
use fiuba_redes.SelectiveRepeat.Datagrams.{handle_packet-wire, handle_packet-close}
use fiuba_redes.SelectiveRepeat.Receiver.{IsStored}
use fiuba_redes.Server
use fiuba_redes.Server.{Thread, Session, Ending, running, connected, settled}
use fiuba_redes.Upload.{System, to_server, is_opening, move, on_server}
use fiuba_redes.Upload.Answers.{Storing}
use fiuba_redes.Upload.Arrivals.{handle_datagram-Storing}
use fiuba_redes.Upload.Requests.{handle_packet-syn}
use fiuba_redes.Upload.Steps.{IsRight, elem-All, seq_num-lt}
use fiuba_redes.Upload.Storing.{handle_data-event}
use fiuba_redes.Upload.Traffic.{FromClient}
use fiuba_redes.Upload.Uploading.{at}
use mathlib.Core.Path.{subst}

-- The loop goes on after the event.
abbrev Goes : Runtime → (Text → Text) → Option Event → Type 0
Goes r join none = Unit
Goes r join (some event) = Server.goes_on r join event ≡ true

-- The result of a method that does not raise is b.
abbrev Gives {ℓ} : {A : Type ℓ} → A → Result A × Endpoint → Type ℓ
Gives b (ok a, e) = a ≡ b
Gives b (raise x, e) = Unit

after-Gives :
    (b : Bool) (x : Result (Unit {0}) × Endpoint) → b ≡ true → Gives true (after (λ _. return b) x)
after-Gives b (ok tt, e) h = h
after-Gives b (raise x, e) h = tt

handle_if-Gives :
    (r : Runtime) (join : Text → Text) (t : Readings) (event : Option Event) (e : Endpoint)
    → Goes r join event
    → Gives true (Server.handle_if r join true t event e)
unfolding Server.handle_if
handle_if-Gives r join t none e goes = refl
handle_if-Gives r join t (some event) e goes =
    after-Gives (Server.goes_on r join event) (Server.handle_event r join true t event e) goes

module _ (r : Runtime) (lib : IsRuntime r) (content : Bytes) (join : Text → Text) (t : Readings)
    (n : ℕ) (A : ℕ → Type 0) (q : SelectiveRepeat) (h : FileHandler) (sent : List Bytes) where
  received-Goes : (pkt : Packet) → Goes r join (SelectiveRepeat.handle_data pkt q).0
  received-Goes pkt = elim (handle_data-event pkt q) [
    | inl e ↦ subst (Goes r join) (sym (ap (λ (x : Option Event × SelectiveRepeat). x.0) e)) tt
    | inr (chunks, e) ↦ subst (Goes r join) (sym e) refl
  ]

  handle_datagram-Gives :
      (raw : Bytes)
      → FromClient r content A n raw
      → is_opening r raw ≡ false
      → Gives true (Server.handle_datagram r join true t raw (at q h sent))
  unfolding Server.handle_datagram
  handle_datagram-Gives raw (pkt, e, inl (below, inl (data', honest))) other =
      rw (e, handle_packet-wire r pkt q lib data')
        (handle_if-Gives r join t (SelectiveRepeat.handle_data pkt q).0 _ (received-Goes pkt))
  handle_datagram-Gives raw (pkt, e, inl (below, inr (kind, fits, all))) other =
      rw (e, handle_packet-close r lib pkt q kind fits) (handle_if-Gives r join t _ _ refl)
  handle_datagram-Gives raw (pkt, e, inr (inl (kind, zero_num, fits))) other =
      absurd (ground (arith, from_bytes-wire r.crc32 lib.crc32-lt pkt fits, ap (is_opening r) e))
  handle_datagram-Gives raw (pkt, e, inr (inr (kind, fits, (name, size, readable, small)))) other =
      rw (e, handle_packet-syn r lib pkt q name size kind fits readable small)
        (handle_if-Gives r join t _ _ refl)

-- A turn that raises nothing and goes on is the server's part of a move.
settled-move :
    (s : System) (x : Result Bool × Endpoint)
    → Gives true x
    → Ensures (λ _ _. Unit) x
    → settled x ≡ (running, connected (on_server (λ _. x) s).1.server)
settled-move s (ok b, e) gives fine = ap (λ (c : Bool). settled (ok c, e)) gives
settled-move s (raise y, e) gives fine = absurd fine

pub to_server_lem :
    (r : Runtime) (join join' : Text → Text) (t : Readings) (n : ℕ) (raw : Bytes) (s : System)
    → get_elem? s.client.sent n ≡ some raw
    → is_opening r raw ≡ false
    → move r join join' (to_server t n) s ≡ on_server (Server.handle_datagram r join' true t raw) s
unfolding move
to_server_lem r join join' t n raw s there other = rw (there, move, other) refl

module _ (r : Runtime) (lib : IsRuntime r) (content : Bytes) (path target : Text)
    (join join' : Text → Text) (bounded : length content < 2 ^ 30) (t : Readings) (n i : ℕ)
    (raw : Bytes) (other : is_opening r raw ≡ false) where
  pub IsRight-turn :
      (s : System)
      → IsRight r lib content path target join join' bounded s
      → get_elem? s.client.sent n ≡ some raw
      → Server.turn r join' true t
          (some raw)
          (record { session = connected s.server; inactivity = i })
        ≡ (
          running,
          record {
            session = connected (move r join join' (to_server t n) s).1.server;
            inactivity = 0;
          },
        )
  unfolding Server.turn Server.on_data
  IsRight-turn s right there =
      let A : ℕ → Type 0 = λ k. IsStored k right.q in
      let sent_by =
        elem-All (FromClient r content A right.p.seq_num) right.sent n raw right.uploads.datagrams
          (ap (λ (x : System). get_elem? x.client.sent n) (sym right.same) ∙ there) in
      let here : at right.q right.h' right.sent' ≡ s.server =
        sym (ap (λ (x : System). x.server) right.same) in
      let small =
        seq_num-lt r lib content path target join join' bounded right.p right.uploads.phase in
      let q = right.q in
      let gives =
        subst (λ (e : Endpoint). Gives true (Server.handle_datagram r join' true t raw e)) here
          (handle_datagram-Gives r lib content join' t right.p.seq_num A q right.h' right.sent' raw
            sent_by other) in
      let fine =
        subst
          (λ (e : Endpoint). Ensures (λ _ _. Unit) (Server.handle_datagram r join' true t raw e))
          here
          (Ensures-weaken (λ _ e. Storing r lib content target right.p.seq_num small q right.h' e)
            (λ _ _. Unit) (Server.handle_datagram r join' true t raw (at q right.h' right.sent'))
            (handle_datagram-Storing r lib content target right.p.seq_num small join' t q right.h'
              right.sent' right.stores raw sent_by other)
            (λ _ _ _. tt)) in
      ap (λ (x : Ending × Session). (x.0, record { session = x.1; inactivity = 0 }))
        (settled-move s (Server.handle_datagram r join' true t raw s.server) gives fine)
      ∙ ap
          (λ (x : Result (Unit {0}) × System).
            (running, record { session = connected x.1.server; inactivity = 0 }))
          (sym (to_server_lem r join join' t n raw s there other))
