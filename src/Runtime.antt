-- ===== src/Runtime.antt =====
-- What the code calls of Python's library: `zlib.crc32`, `str.encode`, `bytes.decode`, `str` of a
-- number and `int` of a text. A text is a list of code points without lone surrogates, which
-- `str.encode` refuses and which no text here has.
use fiuba_redes.Common.{
  ℕ, ◌^◌, ◌<◌, ◌≡◌, ◌≢◌, Bool, false, Option, some, List, [], ◌∷◌, ◌++◌, All, ltb,
}
use fiuba_redes.Packet.{Bytes}

abbrev pub Text : Type 0
Text = List ℕ

-- `negsuc n` is -(n + 1).
pub data ℤ : Type 0 where
  pos : ℕ → ℤ
  negsuc : ℕ → ℤ

-- `z > n`
abbrev pub exceeds : ℤ → ℕ → Bool
exceeds (pos m) n = ltb n m
exceeds (negsuc m) n = false

-- `none` is a `UnicodeDecodeError` of `decode` and a `ValueError` of `int`.
pub record Runtime : Type 0 where
  pub crc32 : Bytes → ℕ
  pub encode : Text → Bytes
  pub decode : Bytes → Option Text
  pub str : ℕ → Text
  pub int : Text → Option ℤ

pub record IsRuntime (r : Runtime) : Type 0 where
  pub crc32-lt : (b : Bytes) → r.crc32 b < 2 ^ 32
  pub decode-encode : (t : Text) → r.decode (r.encode t) ≡ some t
  pub encode-append : (t u : Text) → r.encode (t ++ u) ≡ r.encode t ++ r.encode u
  pub encode-nul : r.encode (0 ∷ []) ≡ 0 ∷ []
  pub int-str : (n : ℕ) → r.int (r.str n) ≡ some (pos n)
  pub str-visible : (n : ℕ) → All (λ c. c ≢ 0) (r.str n)
