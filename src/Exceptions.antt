-- ===== src/Exceptions.antt =====
-- The exceptions of tp1/src/lib/common/exceptions.py, and those that Python itself raises in the
-- modelled code. A method gives its result or an exception.
use fiuba_redes.Common.{ℕ, Bool, true, false}

pub data Exception : Type 0 where
  -- exceptions.py; `ChecksumError` carries the sequence number.
  checksum_error : ℕ → Exception
  filesize_error handshake_error unidentified_package_type : Exception
  -- Python's own.
  value_error index_error attribute_error unbound_local_error : Exception
  type_error unicode_decode_error runtime_error struct_error os_error timeout key_error : Exception
  system_exit : Exception

pub data Result {ℓ} (A : Type ℓ) : Type ℓ where
  ok : A → Result A
  raise : Exception → Result A

infixl 5 ◌>>=◌ ◌>>◌
abbrev pub ◌>>=◌ {ℓ κ} : {A : Type ℓ} {B : Type κ} → Result A → (A → Result B) → Result B
ok a >>= f = f a
raise e >>= f = raise e

abbrev pub ◌>>◌ {ℓ} : {B : Type ℓ} → Result (Unit {0}) → Result B → Result B
m >> k = m >>= λ _. k

-- `if not b: raise e`
abbrev pub require : Bool → Exception → Result (Unit {0})
require true e = ok tt
require false e = raise e
