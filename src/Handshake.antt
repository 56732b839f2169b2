-- ===== src/Handshake.antt =====
-- The SYN payload of tp1/src/lib/common/{selective_repeat,stop_and_wait}.py, which both protocols
-- build and read in the same way: the file name, a zero byte, the file size in decimal.
use fiuba_redes.Common.{
  ℕ, ◌≡◌, ◌≢◌, Option, none, some, List, [], ◌∷◌, ◌++◌, ◌==◌, nat_eq, All, arith, if◌then◌else◌,
}
use fiuba_redes.Exceptions.{
  Result, ok, raise, ◌>>=◌, Exception, index_error, value_error, unicode_decode_error,
}
use fiuba_redes.Packet.{Bytes}
use fiuba_redes.Runtime.{Text, ℤ, pos, Runtime, IsRuntime}

-- `t.split('\0')`: the pieces between the zeros, one at least.
abbrev glue : ℕ → List Text → List Text
glue c [] = (c ∷ []) ∷ []
glue c (t ∷ ts) = (c ∷ t) ∷ ts

unfoldable pub split_nul : Text → List Text
split_nul [] = [] ∷ []
split_nul (c ∷ t) = let rest = split_nul t in if c == 0 then [] ∷ rest else glue c rest

-- `data[0]` and `data[1]`
abbrev pub first_two : List Text → Result (Text × Text)
first_two (a ∷ b ∷ rest) = ok (a, b)
first_two _ = raise index_error

abbrev pub or_raise {ℓ} : {A : Type ℓ} → Option A → Exception → Result A
or_raise none e = raise e
or_raise (some a) e = ok a

module _ (r : Runtime) where
  unfoldable pub syn_payload : Text → ℕ → Bytes
  syn_payload filename filesize = r.encode filename ++ ((0 ∷ []) ++ r.encode (r.str filesize))

  unfoldable pub read_syn : Bytes → Result (Text × ℤ)
  unfolding split_nul
  read_syn payload = do
    text ← or_raise (r.decode payload) unicode_decode_error
    (filename, size) ← first_two (split_nul text)
    filesize ← or_raise (r.int size) value_error
    ok (filename, filesize)

-- A text with no zero in it stays whole.
split_visible : (t : Text) → All (λ c. c ≢ 0) t → split_nul t ≡ t ∷ []
unfolding split_nul
split_visible [] h = ground arith
split_visible (c ∷ t) (visible, h) = ground (arith, split_visible t h)

split_at_nul :
    (t u : Text) → All (λ c. c ≢ 0) t → All (λ c. c ≢ 0) u → split_nul (t ++ (0 ∷ u)) ≡ t ∷ u ∷ []
unfolding split_nul
split_at_nul [] u ht hu = ground (arith, split_visible u hu)
split_at_nul (c ∷ t) u (visible, ht) hu = ground (arith, split_at_nul t u ht hu)

syn_payload-encode :
    (r : Runtime)
    → IsRuntime r
    → (filename : Text) (filesize : ℕ)
    → syn_payload r filename filesize ≡ r.encode (filename ++ (0 ∷ r.str filesize))
unfolding syn_payload
syn_payload-encode r lib filename filesize = rw (
  lib.encode-append filename (0 ∷ r.str filesize),
  lib.encode-append (0 ∷ []) (r.str filesize),
  lib.encode-nul,
)

-- The handshake payload that a client sends is read back as the same file name and size, if the
-- name has no zero character.
pub read_syn-syn_payload :
    (r : Runtime)
    → IsRuntime r
    → (filename : Text) (filesize : ℕ) → All (λ c. c ≢ 0) filename
    → read_syn r (syn_payload r filename filesize) ≡ ok (filename, pos filesize)
unfolding read_syn
read_syn-syn_payload r lib filename filesize visible = rw (
  syn_payload-encode r lib filename filesize,
  lib.decode-encode (filename ++ (0 ∷ r.str filesize)),
  split_at_nul filename (r.str filesize) visible (lib.str-visible filesize),
  lib.int-str filesize,
)
