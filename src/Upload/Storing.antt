-- ===== src/Upload/Storing.antt =====
-- The server's thread in an upload: it stores the chunks, acknowledges what it has, and closes the
-- file at the FIN.
use fiuba_redes.Common.{
  ℕ, ◌≤◌, ◌<◌, ◌≡◌, ◌⊎◌, inl, inr, refl, sym, ap, ◌∙◌, arith, Option, none, some, List, [], ◌∷◌,
  ◌++◌, length, length-append, flatten, All, nat_eq,
}
use fiuba_redes.Common.Dict
use fiuba_redes.Common.Dict.{Dict}
use fiuba_redes.Constants.{type_close_ack}
use fiuba_redes.Endpoint.{Endpoint, write_data}
use fiuba_redes.Event.{Event, received}
use fiuba_redes.Exceptions.{ok}
use fiuba_redes.File.{FileHandler, text_eq}
use fiuba_redes.File.Content.{Holds, wrote, write_lem, wrote-Holds}
use fiuba_redes.Method.{Ensures}
use fiuba_redes.Packet.{Packet, Bytes, new}
use fiuba_redes.Packet.Header.{Fits}
use fiuba_redes.Runtime.{Text, Runtime}
use fiuba_redes.SelectiveRepeat.{
  SelectiveRepeat, handle_packet, dispatch, get_timedouts, timedout_loop, ack, fin_ack,
}
use fiuba_redes.SelectiveRepeat
use fiuba_redes.SelectiveRepeat.Receiver.{data_of, IsStored, Receiving, handle_data_cases}
use fiuba_redes.Upload.Traffic.{FromServer, Opens}
use fiuba_redes.Upload.Chunks.{chunks, Complete, Complete-handed}
use fiuba_redes.Upload.Uploading.{at}
use mathlib.Core.List.{append-nil, append_assoc}
use mathlib.Core.Path.{subst}

-- Every chunk is stored, the file is closed, and it is the client's.
pub record IsDone (content : Bytes) (target : Text) (q : SelectiveRepeat) (h : FileHandler)
    : Type 0 where
  pub complete : Complete content q
  pub closed : h.file ≡ none
  pub stored : Dict.lookup target h.disk ≡ some content

pub record Stores (r : Runtime) (content : Bytes) (target : Text) (n : ℕ) (q : SelectiveRepeat)
    (h : FileHandler) (sent : List Bytes) : Type 0 where
  pub out : List Bytes
  pub receiving : Receiving (chunks content) q out
  pub op_type : q.op_type < 2
  pub protocol : q.protocol < 2
  pub sized : 1 ≤ q.window_size
  pub idle : q.window ≡ []
  pub file : Holds target (flatten out) h ⊎ IsDone content target q h
  pub datagrams : All (FromServer r content (λ k. IsStored k q) (IsDone content target q h) n) sent
  pub opens : Opens r sent

-- What `_handle_data` leaves alone, and the form of its event.
pub handle_data-rest :
    (pkt : Packet) (q : SelectiveRepeat)
    → let q' = (SelectiveRepeat.handle_data pkt q).1 in
      (q'.op_type ≡ q.op_type)
      × (q'.protocol ≡ q.protocol)
      × (q'.window ≡ q.window)
      × (q'.window_size ≡ q.window_size)
handle_data-rest pkt q =
    handle_data_cases
      (λ event q'.
        (q'.op_type ≡ q.op_type)
        × (q'.protocol ≡ q.protocol)
        × (q'.window ≡ q.window)
        × (q'.window_size ≡ q.window_size))
      pkt q (λ _. (refl, refl, refl, refl)) (λ _. (refl, refl, refl, refl))
      (λ _. (refl, refl, refl, refl)) (λ _ _ _. (refl, refl, refl, refl))

pub handle_data-event :
    (pkt : Packet) (q : SelectiveRepeat)
    → (SelectiveRepeat.handle_data pkt q ≡ (none, q))
      ⊎ ((new_chunks : Option (List Bytes)) × ((SelectiveRepeat.handle_data pkt q).0
            ≡ some (received pkt.seq_num new_chunks)))
handle_data-event pkt q =
    handle_data_cases
      (λ event q'.
        ◌≡◌ {A = Option Event × SelectiveRepeat} (event, q') (none, q)
        ⊎ ((new_chunks : Option (List Bytes)) × (event ≡ some (received pkt.seq_num new_chunks))))
      pkt q (λ _. inr (none, refl)) (λ _. inl refl) (λ _. inr (none, refl))
      (λ _ _ _. inr (some _, refl))

pub flatten-append : (xs ys : List Bytes) → flatten (xs ++ ys) ≡ flatten xs ++ flatten ys
unfolding flatten
flatten-append [] ys = refl
flatten-append (x ∷ xs) ys =
    ap (λ (rest : Bytes). x ++ rest) (flatten-append xs ys)
    ∙ sym (append_assoc x (flatten xs) (flatten ys))

-- A receiver that has every chunk hands over nothing more.
nothing_new :
    (content : Bytes) (q q' : SelectiveRepeat) (out more : List Bytes)
    → Receiving (chunks content) q out
    → Complete content q
    → Receiving (chunks content) q' (out ++ more)
    → Complete content q'
    → length more ≡ 0
nothing_new content q q' out more before all after' all' =
    let first = Complete-handed content q out before all in
    let second = Complete-handed content q' (out ++ more) after' all' in
    omega (
      arith,
      length-append out more,
      ap (λ (l : List Bytes). length l) first,
      ap (λ (l : List Bytes). length l) second,
    )

abbrev pub fin_ack_packet : SelectiveRepeat → Packet
fin_ack_packet q = new type_close_ack q.op_type q.protocol [] 0

pub fin_ack_packet-Fits :
    (q : SelectiveRepeat) → q.op_type < 2 → q.protocol < 2 → Fits (fin_ack_packet q)
fin_ack_packet-Fits q op_type protocol = record {
  pkt_type = omega arith;
  op_type = op_type;
  protocol = protocol;
  data_length = omega arith;
  seq_num = omega arith;
  measured = refl;
}

pub get_timedouts_idle :
    (r : Runtime) (now : ℕ) (clock : ℕ → ℕ) (q : SelectiveRepeat)
    → q.window ≡ []
    → get_timedouts r now clock q ≡ (ok [], q)
unfolding get_timedouts timedout_loop
get_timedouts_idle r now clock q e =
    ap
      (λ (w : Dict ℕ SelectiveRepeat.Entry).
        (let (raws, window) = timedout_loop r now clock w in (raws, record q { window = window })))
      e
    ∙ ap (λ (w : Dict ℕ SelectiveRepeat.Entry). (ok [], record q { window = w })) (sym e)

-- The receiver stores at least as much.
abbrev pub StoresMore : SelectiveRepeat → SelectiveRepeat → Type 0
StoresMore q q' = (k : ℕ) → IsStored k q → IsStored k q'

IsDone-grows :
    (content : Bytes) (target : Text) (q q' : SelectiveRepeat) (h : FileHandler)
    → StoresMore q q'
    → IsDone content target q h
    → IsDone content target q' h
IsDone-grows content target q q' h grows done = record {
  complete = λ k number. grows k (done.complete k number);
  closed = done.closed;
  stored = done.stored;
}

module _ (content : Bytes) (target : Text) where
  abbrev FileState : List Bytes → SelectiveRepeat → FileHandler → Type 0
  FileState out q h = Holds target (flatten out) h ⊎ IsDone content target q h

  -- The file after the data of an event was written to it.
  abbrev pub Wrote :
      SelectiveRepeat → FileHandler → SelectiveRepeat → List Bytes → List Bytes → Endpoint → Type 0
  Wrote q h q' out' sent e =
      (h' : FileHandler) × (e ≡ at q' h' sent)
      × FileState out' q' h'
      × (IsDone content target q h → IsDone content target q' h')

  same_file :
      (q q' : SelectiveRepeat) (h : FileHandler) (out : List Bytes)
      → StoresMore q q'
      → FileState out q h
      → FileState (out ++ []) q' h
  same_file q q' h out grows (inl holds) = inl (rw (append-nil out) holds)
  same_file q q' h out grows (inr done) = inr (IsDone-grows content target q q' h grows done)

  pub write_data-Wrote :
      (new_chunks : Option (List Bytes)) (k : ℕ) (q q' : SelectiveRepeat) (h : FileHandler)
      (out sent : List Bytes)
      → StoresMore q q'
      → Receiving (chunks content) q out
      → let out' = out ++ data_of (some (received k new_chunks)) in
        Receiving (chunks content) q' out'
        → FileState out q h
        → Ensures (λ _ e. Wrote q h q' out' sent e) (write_data new_chunks (at q' h sent))
  unfolding write_data
  write_data-Wrote none k q q' h out sent grows before after' file =
      (h, refl, same_file q q' h out grows file, IsDone-grows content target q q' h grows)
  write_data-Wrote (some []) k q q' h out sent grows before after' file =
      (h, refl, same_file q q' h out grows file, IsDone-grows content target q q' h grows)
  write_data-Wrote (some (x ∷ xs)) k q q' h out sent grows before after' (inl holds) =
      rw (write_lem target (flatten out) (flatten (x ∷ xs)) h holds) (
        wrote target (flatten out) (flatten (x ∷ xs)) h,
        refl,
        inl (
            subst (λ (b : Bytes). Holds target b (wrote target (flatten out) (flatten (x ∷ xs)) h))
              (sym (flatten-append out (x ∷ xs)))
              (wrote-Holds target (flatten out) (flatten (x ∷ xs)) h)),
        λ done. absurd (ground (arith, holds.opened, done.closed)),
      )
  write_data-Wrote (some (x ∷ xs)) k q q' h out sent grows before after' (inr done) = absurd (
      omega (
        arith,
        nothing_new content q q' out (x ∷ xs) before done.complete after'
            (λ j number. grows j (done.complete j number)),
      ))
