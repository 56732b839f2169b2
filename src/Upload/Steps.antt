-- ===== src/Upload/Steps.antt =====
-- Every move keeps an upload right: what the client knows of the server is what the server has.
use fiuba_redes.Client
use fiuba_redes.Common.{
  ℕ, zero, suc, ◌^◌, ◌≤◌, ◌<◌, ◌≡◌, inl, inr, refl, ap, arith, Option, none, some, true, false,
  List, [], ◌∷◌, length, All, get_elem?, nat_eq,
}
use fiuba_redes.Constants.{op_type_upload}
use fiuba_redes.Endpoint.{Endpoint}
use fiuba_redes.Exceptions.{Result, ok, raise}
use fiuba_redes.File.{
  FileHandler, text_eq, open_for_read, open_for_write, create_file, set_filename, is_closed,
}
use fiuba_redes.File
use fiuba_redes.File.Content.{Offers}
use fiuba_redes.Method.{M, Ensures}
use fiuba_redes.Packet.{Bytes}
use fiuba_redes.Runtime.{Text, Runtime, IsRuntime}
use fiuba_redes.SelectiveRepeat.{SelectiveRepeat}
use fiuba_redes.SelectiveRepeat.Receiver.{IsStored}
use fiuba_redes.Upload.{System, on_client, on_server, client_turn}
use fiuba_redes.Upload.Traffic.{FromClient-grows, FromServer-grows}
use fiuba_redes.Upload.Blocks.{IsReadTo}
use fiuba_redes.Upload.Sending.{All-weaken, Sends-grows, Phase}
use fiuba_redes.Upload.Storing.{IsDone, Stores, StoresMore}
use fiuba_redes.Upload.Answers.{Storing}
use fiuba_redes.Upload.Uploading.{at, FileState, Uploads, Uploading, Follows}
use mathlib.Core.Path.{subst}
use mathlib.Core.Option.{some-injective}

pub elem-All {ℓ κ} :
    {A : Type ℓ} (P : A → Type κ) (xs : List A) (n : ℕ) (x : A)
    → All P xs
    → get_elem? xs n ≡ some x
    → P x
elem-All P [] n x all e = absurd (ground arith)
elem-All P (y ∷ ys) zero x (h, hs) e = subst P (some-injective _ _ e) h
elem-All P (y ∷ ys) (suc n) x (h, hs) e = elem-All P ys n x hs e

-- A method of the client or of the server, as a method of the system.
on_client-Ensures :
    (Q : Endpoint → Type 0) (R : System → Type 0) (s : System) (x : Result (Unit {0}) × Endpoint)
    → Ensures (λ _ e. Q e) x
    → ((e : Endpoint) → Q e → R (record s { client = e }))
    → Ensures (λ _ s'. R s') (on_client (λ _. x) s)
on_client-Ensures Q R s (ok tt, e) h k = k e h
on_client-Ensures Q R s (raise x, e) h k = absurd h

on_server-Ensures {ℓ} :
    {A : Type ℓ} (Q : Endpoint → Type 0) (R : System → Type 0) (s : System)
    (x : Result A × Endpoint)
    → Ensures (λ _ e. Q e) x
    → ((e : Endpoint) → Q e → R (record s { server = e }))
    → Ensures (λ _ s'. R s') (on_server (λ _. x) s)
on_server-Ensures Q R s (ok a, e) h k = k e h
on_server-Ensures Q R s (raise x, e) h k = absurd h

pub closed-is_closed : (h : FileHandler) → h.file ≡ none → is_closed h ≡ true
closed-is_closed h e = ap (λ (f : Option File.OpenFile). is_closed (record h { file = f })) e

pub opened-is_closed :
    (path : Text) (b : Bytes) (pos : ℕ) (h : FileHandler)
    → Offers path b pos h
    → is_closed h ≡ false
opened-is_closed path b pos h offers =
    ap (λ (f : Option File.OpenFile). is_closed (record h { file = f })) offers.opened

module _ (r : Runtime) (lib : IsRuntime r) (content : Bytes) (path target : Text)
    (join join' : Text → Text) (bounded : length content < 2 ^ 30) where
  -- What the client knows of the server is what the server has.
  abbrev pub Up :
      SelectiveRepeat → FileHandler → SelectiveRepeat → FileHandler → List Bytes → Type 0
  Up q h' p h sent =
      Uploads r content path (λ k. IsStored k q) (IsDone content target q h') p h sent

  pub record IsRight (s : System) : Type 0 where
    pub p : SelectiveRepeat
    pub h : FileHandler
    pub sent : List Bytes
    pub q : SelectiveRepeat
    pub h' : FileHandler
    pub sent' : List Bytes
    pub same : s ≡ record { client = at p h sent; server = at q h' sent' }
    pub uploads : Up q h' p h sent
    pub stores : Stores r content target p.seq_num q h' sent'

  pub seq_num-lt : (p : SelectiveRepeat) → Phase content p → p.seq_num < 2 ^ 32
  seq_num-lt p (inl s) = omega (arith, s.short)
  seq_num-lt p (inr f) = omega (arith, f.short, f.started)

  pub Stores-grows :
      (n m : ℕ) (q : SelectiveRepeat) (h' : FileHandler) (sent' : List Bytes)
      → n ≤ m
      → Stores r content target n q h' sent'
      → Stores r content target m q h' sent'
  Stores-grows n m q h' sent' le s = record {
    out = s.out;
    receiving = s.receiving;
    op_type = s.op_type;
    protocol = s.protocol;
    sized = s.sized;
    idle = s.idle;
    file = s.file;
    datagrams =
        All-weaken sent' (FromServer-grows r content _ _ _ _ n m (λ k held. held) (λ done. done) le)
          s.datagrams;
    opens = s.opens;
  }

  FileState-grows :
      (D E : Type 0) (n : ℕ) (h : FileHandler)
      → (D → E)
      → FileState content path D n h
      → FileState content path E n h
  FileState-grows D E n h f (inl reading) = inl reading
  FileState-grows D E n h f (inr (e, d)) = inr (e, f d)

  pub Uploads-grows :
      (q q2 : SelectiveRepeat) (h' h2 : FileHandler) (p : SelectiveRepeat) (h : FileHandler)
      (sent : List Bytes)
      → StoresMore q q2
      → (IsDone content target q h' → IsDone content target q2 h2)
      → Up q h' p h sent
      → Up q2 h2 p h sent
  Uploads-grows q q2 h' h2 p h sent grows keeps u = record {
    sends = Sends-grows content (λ k. IsStored k q) (λ k. IsStored k q2) p grows u.sends;
    phase = u.phase;
    front = u.front;
    datagrams =
        All-weaken sent
          (FromClient-grows r content (λ k. IsStored k q) (λ k. IsStored k q2) p.seq_num p.seq_num
            grows (omega arith))
          u.datagrams;
    file = FileState-grows _ _ p.seq_num h keeps u.file;
  }

  -- The client acted.
  on_client-IsRight :
      (p : SelectiveRepeat) (h : FileHandler) (sent : List Bytes) (q : SelectiveRepeat)
      (h' : FileHandler) (sent' : List Bytes) (m : M Endpoint (Unit {0}))
      → Stores r content target p.seq_num q h' sent'
      → Ensures
          (λ _ e.
            Uploading r lib content path
              (λ k. IsStored k q)
              (IsDone content target q h')
              bounded
              (Follows p sent)
              e)
          (m (at p h sent))
      → Ensures
          (λ _ s. IsRight s)
          (on_client m (record { client = at p h sent; server = at q h' sent' }))
  on_client-IsRight p h sent q h' sent' m stores ensured =
      on_client-Ensures
        (Uploading r lib content path (λ k. IsStored k q) (IsDone content target q h') bounded
          (Follows p sent))
        IsRight (record { client = at p h sent; server = at q h' sent' }) (m (at p h sent)) ensured
        (λ e up.
          let (p2, h2, sent2, same, u, follows) = up in
          record {
            p = p2;
            h = h2;
            sent = sent2;
            q = q;
            h' = h';
            sent' = sent';
            same = ap (λ (c : Endpoint). record { client = c; server = at q h' sent' }) same;
            uploads = u;
            stores = Stores-grows p.seq_num p2.seq_num q h' sent' follows.0 stores;
          })

  -- The server acted.
  pub on_server-IsRight {ℓ} :
      {X : Type ℓ} (p : SelectiveRepeat) (h : FileHandler) (sent : List Bytes) (q : SelectiveRepeat)
      (h' : FileHandler) (sent' : List Bytes) (m : M Endpoint X) (small : p.seq_num < 2 ^ 32)
      → Up q h' p h sent
      → Ensures (λ _ e. Storing r lib content target p.seq_num small q h' e) (m (at q h' sent'))
      → Ensures
          (λ _ s. IsRight s)
          (on_server m (record { client = at p h sent; server = at q h' sent' }))
  on_server-IsRight p h sent q h' sent' m small uploads ensured =
      on_server-Ensures (Storing r lib content target p.seq_num small q h') IsRight
        (record { client = at p h sent; server = at q h' sent' }) (m (at q h' sent')) ensured
        (λ e st.
          let (q2, h2, sent2, same, s, grows, keeps) = st in
          record {
            p = p;
            h = h;
            sent = sent;
            q = q2;
            h' = h2;
            sent' = sent2;
            same = ap (λ (c : Endpoint). record { client = at p h sent; server = c }) same;
            uploads = Uploads-grows q q2 h' h2 p h sent grows keeps uploads;
            stores = s;
          })

  -- A turn of the client, if its file is open.
  pub client_turn-IsRight :
      (input : Client.Input) (p : SelectiveRepeat) (h : FileHandler) (sent : List Bytes)
      (q : SelectiveRepeat) (h' : FileHandler) (sent' : List Bytes)
      → Up q h' p h sent
      → Stores r content target p.seq_num q h' sent'
      → ((pos : ℕ)
          → Offers path content pos h
          → IsReadTo content p.seq_num pos
          → Ensures
              (λ _ e.
                Uploading r lib content path
                  (λ k. IsStored k q)
                  (IsDone content target q h')
                  bounded
                  (Follows p sent)
                  e)
              (Client.turn r op_type_upload input (at p h sent)))
      → Ensures
          (λ _ s. IsRight s)
          (client_turn r join join' input (record { client = at p h sent; server = at q h' sent' }))
  unfolding client_turn
  client_turn-IsRight input p h sent q h' sent' uploads stores turns = elim uploads.file [
    | inl (pos, offers, read) ↦ rw (opened-is_closed path content pos h offers) (
        on_client-IsRight p h sent q h' sent' (Client.turn r op_type_upload input) stores
          (turns pos offers read))
    | inr (e, done) ↦ rw (closed-is_closed h e) (record {
      p = p;
      h = h;
      sent = sent;
      q = q;
      h' = h';
      sent' = sent';
      same = refl;
      uploads = uploads;
      stores = stores;
    })
  ]
