-- ===== src/Translation/Pools.antt =====
-- The sets of free public numbers.
use fiuba_redes.Common.{
  ℕ, zero, suc, ◌+◌, ◌≤◌, ◌<◌, ◌≡◌, refl, arith, true, false, none, some, [], ◌∷◌, ◌==◌, nat_eq,
  if◌then◌else◌, Option-cases, inl, inr, ℕ_discrete,
}
use fiuba_redes.Translation.{Pool, in_pool, least, remove, add, range}

pub in_pool-remove :
    (j n : ℕ) (p : Pool) → in_pool j (remove n p) ≡ (if j == n then false else in_pool j p)
unfolding in_pool remove
in_pool-remove j n [] = ground arith
in_pool-remove j n (m ∷ ms) = ground (arith, in_pool-remove j n ms)

pub in_pool-add :
    (j n : ℕ) (p : Pool) → in_pool j (add n p) ≡ (if j == n then true else in_pool j p)
unfolding in_pool add
in_pool-add j n p = ground arith

-- `min` gives a member that no member is below, and fails on the empty set alone.
pub least_in : (p : Pool) (n : ℕ) → least p ≡ some n → in_pool n p ≡ true
unfolding least in_pool
least_in [] n h = absurd (ground arith)
least_in (m ∷ ms) n h = elim (Option-cases (least ms)) [
  | inl e ↦ ground arith
  | inr (k, e) ↦ ground (arith, least_in ms k e)
]

pub least-none : (p : Pool) (n : ℕ) → least p ≡ none → in_pool n p ≡ false
unfolding least in_pool
least-none [] n h = refl
least-none (m ∷ ms) n h = absurd (ground arith)

pub least-le : (p : Pool) (n j : ℕ) → least p ≡ some n → in_pool j p ≡ true → n ≤ j
unfolding least in_pool
least-le [] n j h i = absurd (ground arith)
least-le (m ∷ ms) n j h i = elim (Option-cases (least ms)) [
  | inl e ↦ ground (arith, least-none ms j e)
  | inr (k, e) ↦ ground (arith, least-le ms k j e)
]

pub in_pool-range :
    (j low count : ℕ) → low ≤ j → j < low + count → in_pool j (range low count) ≡ true
unfolding in_pool range
in_pool-range j low zero h g = absurd (omega arith)
in_pool-range j low (suc count) h g = elim (ℕ_discrete j low) [
  | yes e ↦ ground arith
  | no ne ↦ ground (arith, in_pool-range j (low + 1) count (omega arith) (omega arith))
]

pub range_bounds :
    (j low count : ℕ) → in_pool j (range low count) ≡ true → (low ≤ j) × (j < low + count)
unfolding in_pool range
range_bounds j low zero h = absurd (ground arith)
range_bounds j low (suc count) h = ground (arith, range_bounds j (low + 1) count)

-- The least number of a range is its first.
pub least-range : (low count : ℕ) → least (range low (suc count)) ≡ some low
unfolding least range
least-range low zero = refl
least-range low (suc count) = rw (least-range (low + 1) count) (ground arith)

remove_below : (n low count : ℕ) → n < low → remove n (range low count) ≡ range low count
unfolding remove range
remove_below n low zero h = refl
remove_below n low (suc count) h = ground (arith, remove_below n (low + 1) count (omega arith))

-- Taking the first number of a range leaves the rest.
pub remove-range : (low count : ℕ) → remove low (range low (suc count)) ≡ range (low + 1) count
unfolding remove range
remove-range low count = ground (arith, remove_below low (low + 1) count (omega arith))
