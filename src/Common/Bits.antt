-- ===== src/Common/Bits.antt =====
-- Disjoint fields under `|` and low masks under `&`, as arithmetic, at every width.
use Prim.Native.Nat.{
  ℕ, zero, suc, ◌+◌, ◌-◌, ◌*◌, ◌/◌, ◌%◌, ◌^◌, ◌≤◌, ◌<◌, min, max, bit_and, bit_or, digits,
  bit_and-bitwise, bit_or-bitwise,
}
use mathlib.Core.Path.{◌≡◌, refl, ap, ◌∙◌}
use native.Mathlib.Decide.{dec_le}
use native.Mathlib.Nat.{pow-suc, one-le-pow}
use native.Mathlib.Omega.{arith}

-- The recursion on binary digits behind the native operations takes fuel. Fuel beyond the first
-- operand makes no difference.
module _ (rest : ℕ → ℕ) (pick : ℕ → ℕ → ℕ) where
  one_more : (fuel a b : ℕ) → a ≤ fuel → digits rest pick (suc fuel) a b ≡ digits rest pick fuel a b
  one_more zero zero b enough = refl
  one_more zero (suc a) b enough = absurd (omega arith)
  one_more (suc fuel) zero b enough = refl
  one_more (suc fuel) (suc a) b enough =
      ap (λ (t : ℕ). t * 2 + pick (suc a % 2) (b % 2))
        (one_more fuel (suc a / 2) (b / 2) (omega arith))

  spare :
      (fuel least a b : ℕ)
      → a ≤ least
      → least ≤ fuel
      → digits rest pick fuel a b ≡ digits rest pick least a b
  spare zero least a b enough more = let none_left : least ≡ 0 = omega arith in rw none_left
  spare (suc fuel) least a b enough more = elim (dec_le least fuel) [
    | yes below ↦ one_more fuel a b (omega arith) ∙ spare fuel least a b enough below
    | no above ↦ let top : least ≡ suc fuel = omega arith in rw top
  ]

  lowest_digit :
      (a b : ℕ)
      → digits rest pick (suc a) (suc a) b
        ≡ digits rest pick (suc a / 2) (suc a / 2) (b / 2) * 2 + pick (suc a % 2) (b % 2)
  lowest_digit a b =
      ap (λ (t : ℕ). t * 2 + pick (suc a % 2) (b % 2))
        (spare a (suc a / 2) (suc a / 2) (b / 2) (omega arith) (omega arith))

pub zero-bit_or : (b : ℕ) → bit_or 0 b ≡ b
zero-bit_or b = bit_or-bitwise 0 b

zero-bit_and : (b : ℕ) → bit_and 0 b ≡ 0
zero-bit_and b = bit_and-bitwise 0 b

or_halves : (x y : ℕ) → bit_or x y ≡ max (x % 2) (y % 2) + 2 * bit_or (x / 2) (y / 2)
or_halves zero y = omega (arith, zero-bit_or (y / 2), zero-bit_or y)
or_halves (suc x) y =
    rw (bit_or-bitwise (suc x) y, bit_or-bitwise (suc x / 2) (y / 2))
      (omega (arith, lowest_digit (λ t. t) max x y))

and_halves : (x y : ℕ) → bit_and x y ≡ min (x % 2) (y % 2) + 2 * bit_and (x / 2) (y / 2)
and_halves zero y = omega (arith, zero-bit_and (y / 2), zero-bit_and y)
and_halves (suc x) y =
    rw (bit_and-bitwise (suc x) y, bit_and-bitwise (suc x / 2) (y / 2))
      (omega (arith, lowest_digit (λ t. 0) min x y))

-- A number up to a bound, with nothing on the other side.
or_nothing : (bound x : ℕ) → x ≤ bound → bit_or x 0 ≡ x
or_nothing zero x below = let e : x ≡ 0 = omega arith in rw e (zero-bit_or 0)
or_nothing (suc bound) x below = elim (dec_le x bound) [
  | yes under ↦ or_nothing bound x under
  | no top ↦ omega (arith, or_halves x 0, or_nothing bound (x / 2) (omega arith))
]

and_nothing : (bound x : ℕ) → x ≤ bound → bit_and x 0 ≡ 0
and_nothing zero x below = let e : x ≡ 0 = omega arith in rw e (zero-bit_and 0)
and_nothing (suc bound) x below = elim (dec_le x bound) [
  | yes under ↦ and_nothing bound x under
  | no top ↦ omega (arith, and_halves x 0, and_nothing bound (x / 2) (omega arith))
]

double_pow : (q k : ℕ) → q * 2 ^ suc k ≡ 2 * (q * 2 ^ k)
double_pow q k = omega (arith, ap (λ (t : ℕ). q * t) (pow-suc 2 k))

-- `(q << k) | r` is a sum when `r` fits `k` bits.
pub bit_or_fields : (k q r : ℕ) → r < 2 ^ k → bit_or (q * 2 ^ k) r ≡ q * 2 ^ k + r
bit_or_fields zero q r fits = ground (arith, or_nothing q q)
bit_or_fields (suc k) q r fits = ground (
  arith,
  or_halves (q * 2 ^ suc k) r,
  double_pow q k,
  pow-suc 2 k,
  bit_or_fields k q (r / 2) (omega (arith, pow-suc 2 k)),
)

-- The same with the left operand any multiple of `2 ** k`.
pub bit_or_sum : (k s q r : ℕ) → s ≡ q * 2 ^ k → r < 2 ^ k → bit_or s r ≡ s + r
bit_or_sum k s q r e fits = ground (arith, bit_or_fields k q r fits)

bit_and_fields : (k q r : ℕ) → r < 2 ^ k → bit_and (q * 2 ^ k + r) (2 ^ k - 1) ≡ r
bit_and_fields zero q r fits = omega (arith, and_nothing (q * 1 + r) (q * 1 + r) (omega arith))
bit_and_fields (suc k) q r fits = ground (
  arith,
  and_halves (q * 2 ^ suc k + r) (2 ^ suc k - 1),
  double_pow q k,
  pow-suc 2 k,
  one-le-pow k 2,
  bit_and_fields k q (r / 2) (omega (arith, pow-suc 2 k)),
)

-- `a & (2 ** k - 1)` is the remainder by `2 ** k`.
pub bit_and_mask : (k a : ℕ) → bit_and a (2 ^ k - 1) ≡ a % 2 ^ k
bit_and_mask k a = ground (arith, one-le-pow k 2, bit_and_fields k (a / 2 ^ k) (a % 2 ^ k))
