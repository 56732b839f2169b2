-- ===== src/Tests/Packets.antt =====
-- The packet codec and the handshake payload at concrete inputs. The checksum is a sum of bytes.
use fiuba_redes.Common.{
  ℕ, zero, suc, ap, ◌+◌, ◌%◌, ◌^◌, ◌≤◌, ◌<◌, ◌≡◌, ◌≢◌, ◌↔◌, refl, arith, some, [], ◌∷◌, ◌++◌,
  length, take, drop, All, ℕ_discrete,
}
use fiuba_redes.Exceptions.{ok, raise, checksum_error, value_error}
use fiuba_redes.Packet.{
  Packet, Bytes, new, word_from, pack, unpack, compose_info_field, parse_info_bytes, to_bytes,
  compare_checksum, from_bytes,
}
use fiuba_redes.Packet.Header.{Fits}
use fiuba_redes.Packet.RoundTrip.{from_bytes-to_bytes, from_bytes-ok_iff}
use fiuba_redes.Runtime.{Text, pos, Runtime, IsRuntime}

abbrev sum : Bytes → ℕ
sum [] = 0
sum (b ∷ bs) = b + sum bs

abbrev checksum : Bytes → ℕ
checksum b = sum b % 2 ^ 32

pub checksum-lt : (b : Bytes) → checksum b < 2 ^ 32
checksum-lt b = omega arith

-- Numbers as runs of ones.
abbrev ones : ℕ → Text
ones zero = []
ones (suc n) = 1 ∷ ones n

abbrev pub runtime : Runtime
runtime = record {
  crc32 = checksum;
  encode = λ t. t;
  decode = λ b. some b;
  str = ones;
  int = λ t. some (pos (length t));
}

length-ones : (n : ℕ) → length (ones n) ≡ n
length-ones zero = refl
length-ones (suc n) = omega (arith, length-ones n)

ones_visible : (n : ℕ) → All (λ c. c ≢ 0) (ones n)
ones_visible zero = tt
ones_visible (suc n) = (omega arith, ones_visible n)

pub runtime-IsRuntime : IsRuntime runtime
runtime-IsRuntime = record {
  crc32-lt = checksum-lt;
  decode-encode = λ t. refl;
  encode-append = λ t u. refl;
  encode-nul = refl;
  int-str = λ n. ap (λ (m : ℕ). some (pos m)) (length-ones n);
  str-visible = ones_visible;
}

abbrev packet : Packet
packet = new 3 1 1 (104 ∷ 105 ∷ []) 7

packet-Fits : Fits packet
packet-Fits = omega arith

abbrev datagram : Bytes
datagram = 120 ∷ 0 ∷ 0 ∷ 2 ∷ 0 ∷ 0 ∷ 1 ∷ 82 ∷ 0 ∷ 0 ∷ 0 ∷ 7 ∷ 104 ∷ 105 ∷ []

to_bytes_runs : to_bytes checksum packet ≡ ok datagram
unfolding to_bytes pack compose_info_field
to_bytes_runs = refl

from_bytes_corrupt : from_bytes checksum (121 ∷ drop 1 datagram) ≡ raise (checksum_error 7)
unfolding from_bytes unpack parse_info_bytes compare_checksum ℕ_discrete
from_bytes_corrupt = refl

from_bytes_short : from_bytes checksum (take 11 datagram) ≡ raise value_error
unfolding from_bytes
from_bytes_short = refl

from_bytes-to_bytes_example :
    (raw : Bytes) × (to_bytes checksum packet ≡ ok raw) × (from_bytes checksum raw ≡ ok packet)
from_bytes-to_bytes_example = from_bytes-to_bytes checksum checksum-lt packet packet-Fits

from_bytes-ok_iff_example : ((p : Packet) × (from_bytes checksum datagram ≡ ok p)) ↔ (
    (12 ≤ length datagram)
    × (word_from (take 4 (drop 4 datagram))
        ≡ checksum (take 4 datagram ++ ((0 ∷ 0 ∷ 0 ∷ 0 ∷ []) ++ drop 8 datagram))))
from_bytes-ok_iff_example = from_bytes-ok_iff checksum datagram
