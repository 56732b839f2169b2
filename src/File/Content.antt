-- ===== src/File/Content.antt =====
-- What stands in a file after blocks were written to it, and what reading it gives.
use fiuba_redes.Common.{
  drop-drop, ℕ, zero, suc, ◌+◌, ◌*◌, ◌≡◌, refl, sym, ap, ◌∙◌, arith, true, false, some, List, [],
  ◌∷◌, ◌++◌, length, take, drop, length-append, drop_of_length-le, take_of_length-le, flatten,
}
use fiuba_redes.Common.Dict
use fiuba_redes.Common.Dict.{Dict, lookup-insert_self}
use fiuba_redes.Exceptions.{ok}
use fiuba_redes.File.{FileHandler, text_eq, open_for_read, write, read, overwrite}
use fiuba_redes.Method.{M, ◌>>=◌, ◌>>◌, return}
use fiuba_redes.Packet.{Bytes}
use fiuba_redes.Runtime.{Text}
use mathlib.Core.List.{append-nil}
use native.Mathlib.Nat.{zero-add, suc-add, zero-mul}

-- The calls of `write` that an owner makes, one for each block.
unfoldable pub write_all : List Bytes → M FileHandler (Unit {0})
write_all [] = return tt
write_all (block ∷ blocks) = write block >> write_all blocks

-- The file p is open for writing and has the bytes b, with the position at their end.
pub record Holds (p : Text) (b : Bytes) (h : FileHandler) : Type 0 where
  pub opened : h.file ≡ some (record { at = p; is_reading = false; position = length b })
  pub stored : Dict.lookup p h.disk ≡ some b

pub wrote : Text → Bytes → Bytes → FileHandler → FileHandler
wrote p b block h = record h {
  file = some (record { at = p; is_reading = false; position = length b + length block });
  disk = Dict.insert p (overwrite (length b) block b) h.disk;
}

pub write_lem :
    (p : Text) (b block : Bytes) (h : FileHandler)
    → Holds p b h
    → write block h ≡ (ok tt, wrote p b block h)
unfolding write wrote
write_lem p b block h inv = rw (inv.opened, write, inv.stored) refl

overwrite_end : (b block : Bytes) → overwrite (length b) block b ≡ b ++ block
overwrite_end b block = rw (
  take_of_length-le (length b) b (omega arith),
  drop_of_length-le (length b + length block) b (omega arith),
  append-nil block,
)

pub wrote-Holds :
    (p : Text) (b block : Bytes) (h : FileHandler) → Holds p (b ++ block) (wrote p b block h)
unfolding wrote
wrote-Holds p b block h = record {
  opened =
      ap (λ (n : ℕ). some (record { at = p; is_reading = false; position = n }))
        (sym (length-append b block));
  stored =
      lookup-insert_self p (overwrite (length b) block b) h.disk
      ∙ ap (λ (x : Bytes). some x) (overwrite_end b block);
}

-- The calls of `read` that an owner makes, each for n bytes.
unfoldable pub read_blocks : ℕ → ℕ → M FileHandler (List Bytes)
read_blocks zero n = return []
read_blocks (suc count) n = do block ← read n; blocks ← read_blocks count n; return (block ∷ blocks)

-- The file p is open for reading, has the bytes b, and is read up to a position.
pub record Offers (p : Text) (b : Bytes) (pos : ℕ) (h : FileHandler) : Type 0 where
  pub opened : h.file ≡ some (record { at = p; is_reading = true; position = pos })
  pub stored : Dict.lookup p h.disk ≡ some b

abbrev pub moved : Text → ℕ → FileHandler → FileHandler
moved p pos h = record h { file = some (record { at = p; is_reading = true; position = pos }) }

pub read_lem :
    (p : Text) (b : Bytes) (pos n : ℕ) (h : FileHandler)
    → Offers p b pos h
    → read n h ≡ (ok (take n (drop pos b)), moved p (pos + length (take n (drop pos b))) h)
unfolding read
read_lem p b pos n h inv = rw (inv.opened, read, inv.stored) refl

pub moved-Offers :
    (p : Text) (b : Bytes) (pos pos' : ℕ) (h : FileHandler)
    → Offers p b pos h
    → Offers p b pos' (moved p pos' h)
moved-Offers p b pos pos' h inv = record { opened = refl; stored = inv.stored }

take_sum : (m n : ℕ) (b : Bytes) → take (m + n) b ≡ take m b ++ take n (drop (length (take m b)) b)
take_sum zero n b = rw (zero-add n) refl
take_sum (suc m) n [] =
    take_of_length-le (suc m + n) [] (omega arith) ∙ sym (take_of_length-le n [] (omega arith))
take_sum (suc m) n (x ∷ xs) = rw (suc-add m n, take_sum m n xs) refl

suc-mul_comm : (count n : ℕ) → suc count * n ≡ n + count * n
suc-mul_comm count n = omega arith

read_blocks_lem :
    (p : Text) (b : Bytes) (count pos n : ℕ) (h : FileHandler)
    → Offers p b pos h
    → (blocks : List Bytes) × ((read_blocks count n h).0 ≡ ok blocks)
      × (flatten blocks ≡ take (count * n) (drop pos b))
unfolding read_blocks flatten
read_blocks_lem p b zero pos n h inv = ([], refl, rw (zero-mul n) refl)
read_blocks_lem p b (suc count) pos n h inv =
    let block = take n (drop pos b) in
    let pos' = pos + length block in
    let (blocks, e, joined) =
      read_blocks_lem p b count pos' n (moved p pos' h) (moved-Offers p b pos pos' h inv) in
    (
      block ∷ blocks,
      rw (read_lem p b pos n h inv, e) refl,
      (ap (λ (rest : Bytes). block ++ rest)
            (joined ∙ ap (take (count * n)) (sym (drop-drop pos (length block) b)))
          ∙ (sym (take_sum n (count * n) (drop pos b))
              ∙ ap (λ (k : ℕ). take k (drop pos b)) (sym (suc-mul_comm count n)))),
    )

-- A file that is opened for reading gives, read some number of times by n bytes, its first bytes in
-- order, as many as those reads ask for or as there are.
pub read_blocks-open_for_read :
    (join : Text → Text) (filename : Text) (b : Bytes) (count n : ℕ) (h : FileHandler)
    → Dict.lookup (join filename) h.disk ≡ some b
    → let (result, h') = (open_for_read join (some filename) >> read_blocks count n) h in
      (blocks : List Bytes) × (result ≡ ok blocks) × (flatten blocks ≡ take (count * n) b)
unfolding open_for_read
read_blocks-open_for_read join filename b count n h there =
    rw (there, open_for_read)
      (read_blocks_lem (join filename) b count 0 n
        (record (moved (join filename) 0 h) { path = some (join filename) })
        (record { opened = refl; stored = there }))
