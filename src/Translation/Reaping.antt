-- ===== src/Translation/Reaping.antt =====
-- The reap removes exactly the expired entries, and gives their numbers back.
use fiuba_redes.Common.{
  ℕ, ◌≡◌, inl, inr, refl, ap, ◌∙◌, arith, Bool, true, false, Option, none, some, List, [], ◌∷◌,
  ◌==◌, Eq, nat_eq, if◌then◌else◌, Option-cases,
}
use fiuba_redes.Common.Dict
use fiuba_redes.Common.Dict.{Dict, NodupKeys, lookup-erase}
use fiuba_redes.Translation.{
  Translation, Key, key_eq, Entry, expired, is_expired, drop_entry, drop_entries, reap,
}
use fiuba_redes.Translation.Validity.{IsValid, drop_entry-without, without-IsValid}

-- An entry that is there and has not expired.
abbrev pub live : ℕ → Option Entry → Option Entry
live now none = none
live now (some x) = if is_expired now x then none else some x

abbrev overdue : ℕ → Option Entry → Bool
overdue now none = false
overdue now (some x) = is_expired now x

module _ {ℓ} {T : Type ℓ} ⦃e : Eq T⦄ where
  abbrev listed : Key T → List (Key T) → Bool
  listed k [] = false
  listed k (j ∷ js) = if k == j then true else listed k js

  drop_entry_absent :
      (k : Key T) (t : Translation T) → Dict.lookup k t.table ≡ none → drop_entry k t ≡ t
  unfolding drop_entry
  drop_entry_absent k t h = rw (h, drop_entry)

  drop_entry-IsValid : (k : Key T) (t : Translation T) → IsValid t → IsValid (drop_entry k t)
  drop_entry-IsValid k t v = elim (Option-cases (Dict.lookup k t.table)) [
    | inl h ↦ rw (drop_entry_absent k t h) v
    | inr (x, h) ↦ rw (drop_entry-without k x t v h) (without-IsValid k x t v h)
  ]

  lookup-drop_entry :
      (j k : Key T) (t : Translation T)
      → IsValid t
      → Dict.lookup j (drop_entry k t).table ≡ (if j == k then none else Dict.lookup j t.table)
  lookup-drop_entry j k t v = elim (Option-cases (Dict.lookup k t.table)) [
    | inl h ↦
        rw (drop_entry_absent k t h) (ground (arith, ap (λ (q : Key T). Dict.lookup q t.table), h))
    | inr (x, h) ↦ rw (drop_entry-without k x t v h) (lookup-erase j k t.table)
  ]

  drop_entries-IsValid :
      (ks : List (Key T)) (t : Translation T) → IsValid t → IsValid (drop_entries ks t)
  unfolding drop_entries
  drop_entries-IsValid [] t v = v
  drop_entries-IsValid (k ∷ ks) t v =
      drop_entries-IsValid ks (drop_entry k t) (drop_entry-IsValid k t v)

  lookup-drop_entries :
      (j : Key T) (ks : List (Key T)) (t : Translation T)
      → IsValid t
      → Dict.lookup j (drop_entries ks t).table
        ≡ (if listed j ks then none else Dict.lookup j t.table)
  unfolding drop_entries
  lookup-drop_entries j [] t v = refl
  lookup-drop_entries j (k ∷ ks) t v = ground (
    arith,
    lookup-drop_entries j ks (drop_entry k t) (drop_entry-IsValid k t v),
    lookup-drop_entry j k t v,
  )

  listed-expired :
      (now : ℕ) (j : Key T) (d : Dict (Key T) Entry)
      → NodupKeys d
      → listed j (expired now d) ≡ overdue now (Dict.lookup j d)
  unfolding expired Dict.lookup
  listed-expired now j [] _ = refl
  listed-expired now j ((k, x) ∷ d) (fresh, once) = ground (
    arith,
    listed-expired now j d once,
    λ (same : j ≡ k). ap (λ (q : Key T). Dict.lookup q d) same ∙ fresh,
  )

  -- A reap keeps a translation valid.
  pub reap-IsValid : (now : ℕ) (t : Translation T) → IsValid t → IsValid (reap now t)
  unfolding reap
  reap-IsValid now t v = drop_entries-IsValid (expired now t.table) t v

  -- It removes the entries that have expired, and no other.
  pub lookup-reap :
      (now : ℕ) (j : Key T) (t : Translation T)
      → IsValid t
      → Dict.lookup j (reap now t).table ≡ live now (Dict.lookup j t.table)
  unfolding reap
  lookup-reap now j t v =
      lookup-drop_entries j (expired now t.table) t v
      ∙ ground (arith, listed-expired now j t.table v.once)
