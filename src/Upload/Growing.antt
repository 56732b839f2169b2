-- ===== src/Upload/Growing.antt =====
-- What the client sends goes behind what it has sent.
use fiuba_redes.Client
use fiuba_redes.Common.{
  ℕ, ◌*◌, ◌≡◌, refl, sym, ap, ◌∙◌, Bool-cases, inl, inr, List, [], ◌++◌, ◌&&◌, not,
}
use fiuba_redes.Constants.{payload_size}
use fiuba_redes.Endpoint.{
  Endpoint, Readings, on_protocol, on_file, send, send_all, is_empty, push_block,
}
use fiuba_redes.Exceptions.{Result, ok, raise}
use fiuba_redes.Factory.Methods
use fiuba_redes.File.{read}
use fiuba_redes.Method.{M, after}
use fiuba_redes.Packet.{Bytes}
use fiuba_redes.Runtime.{Runtime}
use fiuba_redes.Upload.Uploading.{send_all_lem}
use mathlib.Core.List.{append-nil, append_assoc}

abbrev pub Grows : List Bytes → Endpoint → Type 0
Grows sent e = (more : List Bytes) × (e.sent ≡ sent ++ more)

stays : (e : Endpoint) → Grows e.sent e
stays e = ([], sym (append-nil e.sent))

after-Grows {ℓ κ} :
    {A : Type ℓ} {B : Type κ} (f : A → M Endpoint B) (sent : List Bytes) (x : Result A × Endpoint)
    → Grows sent x.1
    → ((a : A) (e : Endpoint) → Grows e.sent (f a e).1)
    → Grows sent (after f x).1
after-Grows f sent (ok a, e) (more, same) k =
    let (last, then_on) = k a e in
    (
      more ++ last,
      then_on ∙ (ap (λ (xs : List Bytes). xs ++ last) same ∙ append_assoc sent more last),
    )
after-Grows f sent (raise x, e) grows k = grows

send_all-Grows : (raws : List Bytes) (e : Endpoint) → Grows e.sent (send_all raws e).1
send_all-Grows raws e =
    (raws, ap (λ (x : Result (Unit {0}) × Endpoint). x.1.sent) (send_all_lem raws e))

push_block-Grows :
    (r : Runtime) (t : Readings) (block : Bytes) (e : Endpoint)
    → Grows e.sent (push_block r t block e).1
unfolding push_block
push_block-Grows r t block e = elim (Bool-cases (is_empty block)) [
  | inl nothing ↦ rw nothing (stays e)
  | inr bytes ↦ rw bytes (
      after-Grows (λ raws. send_all raws) e.sent
        (on_protocol (Methods.push_payload r t.pushed block) e) (stays e)
        (λ raws e'. send_all-Grows raws e'))
]

send-Grows : (raw : Bytes) (e : Endpoint) → Grows e.sent (send raw e).1
unfolding send
send-Grows raw e = (_, refl)

finish-Grows :
    (r : Runtime) (t : Readings) (block : Bytes) (e : Endpoint)
    → Grows e.sent (Client.finish r t block e).1
unfolding Client.finish
finish-Grows r t block e =
    elim (Bool-cases (
      is_empty block
      && not (Methods.has_window e.protocol)
      && not (Methods.is_waiting_ack e.protocol))) [
        | inl done ↦ rw done (
            after-Grows (λ raw. send raw) e.sent (on_protocol (Methods.fin r t.closed) e) (stays e)
              (λ raw e'. send-Grows raw e'))
        | inr more ↦ rw more (stays e)
      ]

pub handle_ack-Grows :
    (r : Runtime) (t : Readings) (n : ℕ) (e : Endpoint) → Grows e.sent (Client.handle_ack r t n e).1
unfolding Client.handle_ack
handle_ack-Grows r t n e =
    after-Grows _ e.sent (on_protocol (Methods.get_timedouts r t.now t.resent) e) (stays e)
      (λ raws e1. after-Grows _ e1.sent (send_all raws e1) (send_all-Grows raws e1) (λ _ e2.
        after-Grows _ e2.sent (on_file (read (n * payload_size)) e2) (stays e2) (λ block e3.
          after-Grows _ e3.sent (push_block r t block e3) (push_block-Grows r t block e3)
            (λ _ e4. finish-Grows r t block e4))))
