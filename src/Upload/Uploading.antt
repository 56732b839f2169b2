-- ===== src/Upload/Uploading.antt =====
-- The uploading client: its events keep what it knows of the file, its window and its datagrams.
use fiuba_redes.Common.{
  ℕ, ◌-◌, ◌*◌, ◌^◌, ◌≤◌, ◌<◌, ◌≡◌, ◌⊎◌, inl, inr, refl, ap, ◌∙◌, arith, none, true, false, List, [],
  ◌∷◌, ◌++◌, length, take, drop, nat_eq, All, All-append, length-take, length-drop,
}
use fiuba_redes.Common.Dict
use fiuba_redes.Common.Dict.{Dict}
use fiuba_redes.Factory.Methods
use fiuba_redes.Constants.{payload_size}
use fiuba_redes.Endpoint.{Endpoint, send, send_all}
use fiuba_redes.Exceptions.{Result, ok}
use fiuba_redes.Factory.{selective_repeat}
use fiuba_redes.File.{FileHandler}
use fiuba_redes.File.Content.{Offers}
use fiuba_redes.Method.{Ensures, Ensures-weaken}
use fiuba_redes.Packet.{Bytes}
use fiuba_redes.Runtime.{Text, Runtime, IsRuntime}
use fiuba_redes.SelectiveRepeat.{SelectiveRepeat, Entry}
use fiuba_redes.Upload.Traffic.{FromClient, FromClient-grows}
use fiuba_redes.Upload.Blocks.{IsReadTo}
use fiuba_redes.Upload.Sending.{Sends, All-weaken, IsStreaming, Phase}
use fiuba_redes.Upload.Front.{Front, IsWaiting}
use mathlib.Core.List.{append-nil, append_assoc}

abbrev pub at : SelectiveRepeat → FileHandler → List Bytes → Endpoint
at p h sent = record { protocol = selective_repeat p; file_handler = h; sent = sent }

pub send_all_lem :
    (raws : List Bytes) (e : Endpoint)
    → send_all raws e ≡ (ok tt, record e { sent = e.sent ++ raws })
unfolding send_all send
send_all_lem [] e = rw (append-nil e.sent) refl
send_all_lem (raw ∷ raws) e =
    send_all_lem raws (record e { sent = e.sent ++ (raw ∷ []) })
    ∙ ap (λ (sent : List Bytes). (ok tt, record e { sent = sent }))
        (append_assoc e.sent (raw ∷ []) raws)

pub window_cases :
    (p : SelectiveRepeat)
    → ((item : ℕ × Entry) × (items : Dict ℕ Entry) × (p.window ≡ item ∷ items)) ⊎ (p.window ≡ [])
window_cases p = go p.window refl
  where
    go :
        (window : Dict ℕ Entry)
        → p.window ≡ window
        → ((item : ℕ × Entry) × (items : Dict ℕ Entry) × (p.window ≡ item ∷ items))
          ⊎ (p.window ≡ [])
    go [] e = inr e
    go (item ∷ items) e = inl (item, items, e)

pub some_window :
    (p : SelectiveRepeat) (item : ℕ × Entry) (items : Dict ℕ Entry)
    → p.window ≡ item ∷ items
    → Methods.has_window (selective_repeat p) ≡ true
some_window p item items e =
    ap (λ (w : Dict ℕ Entry). Methods.has_window (selective_repeat (record p { window = w }))) e

pub no_window :
    (p : SelectiveRepeat) → p.window ≡ [] → Methods.has_window (selective_repeat p) ≡ false
no_window p e =
    ap (λ (w : Dict ℕ Entry). Methods.has_window (selective_repeat (record p { window = w }))) e

-- Without a window the FIN was not sent.
pub no_window-IsStreaming :
    (content : Bytes) (p : SelectiveRepeat)
    → p.window ≡ []
    → Phase content p
    → IsStreaming content p
unfolding Dict.contains
no_window-IsStreaming content p e (inl short) = short
no_window-IsStreaming content p e (inr f) =
    absurd (ground (arith, f.last, ap (Dict.contains (p.seq_num - 1)) e))

-- A read of some blocks that gives nothing is at the end of the file.
pub read_all :
    (content : Bytes) (n pos seq_num : ℕ)
    → length (take (n * payload_size) (drop pos content)) ≡ 0
    → 1 ≤ n
    → IsReadTo content seq_num pos
    → (length content ≤ (seq_num - 1) * payload_size) × (pos ≡ length content)
read_all content n pos seq_num e some_blocks (inl (at_start, h)) =
    let size = length-take (n * payload_size) (drop pos content) in
    let rest = length-drop pos content in (omega arith, omega arith)
read_all content n pos seq_num e some_blocks (inr (at_end, h)) = (omega arith, omega arith)

-- The file of a client: open and read as far as the numbers say, or closed, when the peer has it.
abbrev pub FileState : Bytes → Text → Type 0 → ℕ → FileHandler → Type 0
FileState content path D n h =
    ((pos : ℕ) × Offers path content pos h × IsReadTo content n pos) ⊎ ((h.file ≡ none) × D)

pub record Uploads (r : Runtime) (content : Bytes) (path : Text) (A : ℕ → Type 0) (D : Type 0)
    (p : SelectiveRepeat) (h : FileHandler) (sent : List Bytes) : Type 0 where
  pub sends : Sends content A p
  pub phase : Phase content p
  pub front : Front p
  pub datagrams : All (FromClient r content A p.seq_num) sent
  pub file : FileState content path D p.seq_num h

-- The later object and datagrams of a client, which still has a packet in flight if it had one, and
-- those after it pushed what it could.
abbrev pub Follows : SelectiveRepeat → List Bytes → SelectiveRepeat → List Bytes → Type 0
Follows p sent p' sent' =
    (p.seq_num ≤ p'.seq_num)
    × (p.next_expected ≤ p'.next_expected)
    × (length sent ≤ length sent')
    × (IsWaiting p → IsWaiting p')

abbrev pub Waits : SelectiveRepeat → List Bytes → SelectiveRepeat → List Bytes → Type 0
Waits p sent p' sent' = Follows p sent p' sent' × IsWaiting p'

module _ (r : Runtime) (lib : IsRuntime r) (content : Bytes) (path : Text) (A : ℕ → Type 0)
    (D : Type 0) (bounded : length content < 2 ^ 30) where
  -- A state that the client may be in, with what R says of it.
  abbrev pub Uploading : (SelectiveRepeat → List Bytes → Type 0) → Endpoint → Type 0
  Uploading R e =
      (p : SelectiveRepeat) × (h : FileHandler) × (sent : List Bytes) × (e ≡ at p h sent)
      × Uploads r content path A D p h sent
      × R p sent

  pub Uploading-weaken :
      (R S : SelectiveRepeat → List Bytes → Type 0) (x : Result (Unit {0}) × Endpoint)
      → ((p : SelectiveRepeat) (sent : List Bytes) → R p sent → S p sent)
      → Ensures (λ _ e. Uploading R e) x
      → Ensures (λ _ e. Uploading S e) x
  Uploading-weaken R S x f h =
      Ensures-weaken (λ _ e. Uploading R e) (λ _ e. Uploading S e) x h
        (λ _ e u. let (p, h', sent, same, up, rel) = u in (p, h', sent, same, up, f p sent rel))

  pub sent_more :
      (n m : ℕ) (sent raws : List Bytes)
      → All (FromClient r content A n) sent
      → All (FromClient r content A m) raws
      → n ≤ m
      → All (FromClient r content A m) (sent ++ raws)
  sent_more n m sent raws old more h =
      All-append (FromClient r content A m) sent raws
        (All-weaken sent (FromClient-grows r content A A n m (λ k a. a) h) old) more
