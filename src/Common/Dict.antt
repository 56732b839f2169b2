-- ===== src/Common/Dict.antt =====
-- Python's dicts, in insertion order: `d.get(k)`, `d[k] = v`, `del d[k]`, `k in d`, `d.keys()`.
use fiuba_redes.Common.Equality.{Eq, ◌==◌}
use fiuba_redes.Common.Tests.{if◌then◌else◌, Option-cases}
use fiuba_redes.Common.Lists.{length}
use Prim.Native.Nat.{◌≤◌, ◌+◌}
use mathlib.Core.Path.{◌≡◌, refl, ◌∙◌}
use mathlib.Core.Logic.{◌≢◌, ◌⊎◌, inl, inr}
use mathlib.Core.Bool.{Bool, true, false}
use mathlib.Core.Option.{Option, none, some}
use mathlib.Core.List.{List, [], ◌∷◌}
use native.Mathlib.Omega.{arith}

abbrev pub Dict {ℓ κ} : Type ℓ → Type κ → Type (ℓ ⊔ κ)
Dict K V = List (K × V)

module _ {ℓ κ} {K : Type ℓ} {V : Type κ} ⦃e : Eq K⦄ where
  unfoldable pub lookup : K → Dict K V → Option V
  lookup k [] = none
  lookup k ((j, w) ∷ d) = if k == j then some w else lookup k d

  -- `d[k] = v` keeps the place of a key that is there.
  unfoldable pub insert : K → V → Dict K V → Dict K V
  insert k v [] = (k, v) ∷ []
  insert k v ((j, w) ∷ d) = if k == j then (j, v) ∷ d else (j, w) ∷ insert k v d

  -- `del d[k]`. A dict has a key once at most.
  unfoldable pub erase : K → Dict K V → Dict K V
  erase k [] = []
  erase k ((j, w) ∷ d) = let rest = erase k d in if k == j then rest else (j, w) ∷ rest

  unfoldable pub contains : K → Dict K V → Bool
  contains k [] = false
  contains k ((j, w) ∷ d) = if k == j then true else contains k d

  pub lookup-nil : (k : K) → ◌≡◌ {A = Option V} (lookup k []) none
  unfolding lookup
  lookup-nil k = refl

  pub length-insert-le : (k : K) (v : V) (d : Dict K V) → length (insert k v d) ≤ length d + 1
  unfolding insert
  length-insert-le k v [] = omega arith
  length-insert-le k v ((j, w) ∷ d) = ground (arith, length-insert-le k v d)

  pub lookup-insert :
      (j k : K) (v : V) (d : Dict K V)
      → lookup j (insert k v d) ≡ (if j == k then some v else lookup j d)
  unfolding lookup insert
  lookup-insert j k v [] = refl
  lookup-insert j k v ((i, w) ∷ d) = ground (arith, lookup-insert j k v d)

  pub lookup-erase :
      (j k : K) (d : Dict K V) → lookup j (erase k d) ≡ (if j == k then none else lookup j d)
  unfolding lookup erase
  lookup-erase j k [] = ground arith
  lookup-erase j k ((i, w) ∷ d) = ground (arith, lookup-erase j k d)

  pub lookup-erase_ne : (j k : K) (d : Dict K V) → j ≢ k → lookup j (erase k d) ≡ lookup j d
  lookup-erase_ne j k d ne = lookup-erase j k d ∙ ground arith

  pub lookup-insert_ne :
      (j k : K) (v : V) (d : Dict K V) → j ≢ k → lookup j (insert k v d) ≡ lookup j d
  lookup-insert_ne j k v d ne = lookup-insert j k v d ∙ ground arith

  pub lookup-insert_self : (k : K) (v : V) (d : Dict K V) → lookup k (insert k v d) ≡ some v
  lookup-insert_self k v d = lookup-insert k k v d ∙ ground arith

  -- What is found after a deletion or an insertion, and where it comes from.
  pub lookup-erase_inv :
      (j k : K) (w : V) (d : Dict K V)
      → lookup j (erase k d) ≡ some w
      → (j ≢ k) × (lookup j d ≡ some w)
  lookup-erase_inv j k w d h = ground (arith, lookup-erase j k d)

  pub lookup-insert_inv :
      (j k : K) (v w : V) (d : Dict K V)
      → lookup j (insert k v d) ≡ some w
      → ((j ≡ k) × (v ≡ w)) ⊎ ((j ≢ k) × (lookup j d ≡ some w))
  lookup-insert_inv j k v w d h = ground (arith, lookup-insert j k v d)

  pub contains_of_lookup :
      (k : K) (v : V) (d : Dict K V) → lookup k d ≡ some v → contains k d ≡ true
  unfolding lookup contains
  contains_of_lookup k v [] h = ground arith
  contains_of_lookup k v ((j, w) ∷ d) h = ground (arith, contains_of_lookup k v d)

  pub contains_of_none : (k : K) (d : Dict K V) → lookup k d ≡ none → contains k d ≡ false
  unfolding lookup contains
  contains_of_none k [] h = refl
  contains_of_none k ((j, w) ∷ d) h = ground (arith, contains_of_none k d)

  pub lookup_of_contains :
      (k : K) (d : Dict K V) → contains k d ≡ true → (v : V) × (lookup k d ≡ some v)
  lookup_of_contains k d h = elim (Option-cases (lookup k d)) [
    | inl e ↦ absurd (ground (arith, contains_of_none k d e))
    | inr found ↦ found
  ]

  pub none_of_contains : (k : K) (d : Dict K V) → contains k d ≡ false → lookup k d ≡ none
  unfolding lookup contains
  none_of_contains k [] h = refl
  none_of_contains k ((j, w) ∷ d) h = ground (arith, none_of_contains k d)

  pub length-erase-le : (k : K) (d : Dict K V) → length (erase k d) ≤ length d
  unfolding erase
  length-erase-le k [] = omega arith
  length-erase-le k ((j, w) ∷ d) = ground (arith, length-erase-le k d)

  pub length-erase :
      (k : K) (v : V) (d : Dict K V) → lookup k d ≡ some v → length (erase k d) + 1 ≤ length d
  unfolding lookup erase
  length-erase k v [] h = absurd (ground arith)
  length-erase k v ((j, w) ∷ d) h = ground (arith, length-erase k v d, length-erase-le k d)

  -- A dict has each key once.
  abbrev pub NodupKeys : Dict K V → Type κ
  NodupKeys [] = Unit
  NodupKeys ((k, _) ∷ d) = (lookup k d ≡ none) × NodupKeys d

  pub insert-NodupKeys : (k : K) (v : V) (d : Dict K V) → NodupKeys d → NodupKeys (insert k v d)
  unfolding insert
  insert-NodupKeys k v [] _ = (lookup-nil k, tt)
  insert-NodupKeys k v ((j, w) ∷ d) (fresh, once) =
      ground (arith, insert-NodupKeys k v d once, lookup-insert j k v d)

  pub erase-NodupKeys : (k : K) (d : Dict K V) → NodupKeys d → NodupKeys (erase k d)
  unfolding erase
  erase-NodupKeys k [] _ = tt
  erase-NodupKeys k ((j, w) ∷ d) (fresh, once) =
      ground (arith, erase-NodupKeys k d once, lookup-erase j k d)
