-- ===== src/Upload/Safety.antt =====
-- What an invariant of an upload gives: no exception, and a closed file is whole.
use fiuba_redes.Common.{
  ◌-◌, ◌^◌, ◌<◌, ◌≡◌, inl, inr, refl, sym, ap, ◌∙◌, arith, some, true, List, [], ◌++◌, length, take,
  drop, take-append-drop, flatten, nat_eq,
}
use fiuba_redes.Common.Dict
use fiuba_redes.Common.Dict.{Dict, lookup-nil, lookup-insert_self}
use fiuba_redes.Exceptions.{Result, ok, raise}
use fiuba_redes.File.{text_eq, is_closed}
use fiuba_redes.Method.{Ensures}
use fiuba_redes.Packet.{Bytes}
use fiuba_redes.Runtime.{Text, Runtime, IsRuntime}
use fiuba_redes.Upload.{System}
use fiuba_redes.Upload.Chunks.{chunks, flatten-chunks}
use fiuba_redes.Upload.Storing.{flatten-append}
use mathlib.Core.List.{append-nil}
use fiuba_redes.Upload.Steps.{closed-is_closed, opened-is_closed, IsRight}

pub ok_of_Ensures :
    (Q : System → Type 0) (x : Result (Unit {0}) × System)
    → Ensures (λ _ s. Q s) x
    → (x.0 ≡ ok tt) × Q x.1
ok_of_Ensures Q (ok tt, s) h = (refl, h)
ok_of_Ensures Q (raise e, s) h = absurd h

module _ (r : Runtime) (lib : IsRuntime r) (join join' : Text → Text) (path target : Text)
    (content : Bytes) (bounded : length content < 2 ^ 30) where
  -- A client that has closed its file, and the server's file.
  pub IsRight-stored :
      (s : System)
      → IsRight r lib content path target join join' bounded s
      → is_closed s.client.file_handler ≡ true
      → (is_closed s.server.file_handler ≡ true)
        × (Dict.lookup target s.server.file_handler.disk ≡ some content)
  IsRight-stored s right closed = elim right.uploads.file [
    | inl (place, offers, read) ↦ absurd (
        ground (
          arith,
          closed,
          ap (λ (x : System). is_closed x.client.file_handler) right.same,
          opened-is_closed path content place right.h offers,
        ))
    | inr (e, done) ↦ (
      ap (λ (x : System). is_closed x.server.file_handler) right.same
          ∙ closed-is_closed right.h' done.closed,
      ap (λ (x : System). Dict.lookup target x.server.file_handler.disk) right.same ∙ done.stored,
    )
  ]

  pub IsRight-prefix :
      (s : System)
      → IsRight r lib content path target join join' bounded s
      → (b : Bytes) × (rest : Bytes) × (Dict.lookup target s.server.file_handler.disk ≡ some b)
        × (b ++ rest ≡ content)
  IsRight-prefix s right = elim right.stores.file [
    | inl holds ↦
        let n = right.q.next_expected - 1 in
        let cs = chunks content in
        (
          flatten right.stores.out,
          flatten (drop n cs),
          ap (λ (x : System). Dict.lookup target x.server.file_handler.disk) right.same
              ∙ holds.stored,
          ap (λ (out : List Bytes). flatten out ++ flatten (drop n cs))
                right.stores.receiving.prefix
              ∙ (sym (flatten-append (take n cs) (drop n cs))
                  ∙ (ap flatten (take-append-drop n cs) ∙ flatten-chunks content)),
        )
    | inr done ↦ (
      content,
      [],
      ap (λ (x : System). Dict.lookup target x.server.file_handler.disk) right.same ∙ done.stored,
      append-nil content,
    )
  ]
