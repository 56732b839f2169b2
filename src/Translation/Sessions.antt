-- ===== src/Translation/Sessions.antt =====
-- What the handlers promise: outgoing sessions get public numbers of their own, and what comes back
-- under such a number finds the private address that it stands for.
use fiuba_redes.Common.{
  ℕ, ◌+◌, ◌≤◌, ◌≡◌, ◌≢◌, ◌↔◌, inl, inr, refl, ap, sym, ◌∙◌, arith, false, Option, none, some, Eq,
  nat_eq, Option-cases,
}
use fiuba_redes.Common.Dict
use fiuba_redes.Common.Dict.{Dict, lookup-insert_self, lookup-insert_ne}
use fiuba_redes.Translation.{
  Translation, Key, key_eq, Entry, ReverseEntry, in_pool, least, number_min, number_max,
  entry_timeout, is_expired, allocate, record_entry, create_new, create_entry, get_reverse_entry,
  reap,
}
use fiuba_redes.Translation.Pools.{least_in, least-none}
use fiuba_redes.Translation.Validity.{
  IsValid, reverse_key, reverse_entry, private_key, entry_of, with_entry, with_entry-IsValid,
}
use fiuba_redes.Translation.Reaping.{live, reap-IsValid, lookup-reap}

module _ {ℓ} {T : Type ℓ} ⦃e : Eq T⦄ (now stamp : ℕ) (k : Key T) (public_ip : ℕ)
    (t : Translation T) where
  abbrev pub entry_at : ℕ → Entry
  entry_at n = record { public_ip = public_ip; public_number = n; timestamp = stamp }

  -- The three ways out of `create_entry`: the live entry of the key; a new one under the least free
  -- number; nothing, when no number is free.
  create_entry_cases {κ} :
      (P : Option Entry × Translation T → Type κ)
      → ((x : Entry) → Dict.lookup k (reap now t).table ≡ some x → P (some x, reap now t))
      → (Dict.lookup k (reap now t).table ≡ none
          → least (reap now t).pool ≡ none
          → P (none, reap now t))
      → ((n : ℕ)
          → Dict.lookup k (reap now t).table ≡ none
          → least (reap now t).pool ≡ some n
          → P (some (entry_at n), with_entry k (entry_at n) (reap now t)))
      → P (create_entry now stamp k public_ip t)
  unfolding create_entry create_new record_entry allocate
  create_entry_cases P old full new = elim (Option-cases (Dict.lookup k (reap now t).table)) [
    | inr (x, h) ↦ rw (h, create_entry) (old x h)
    | inl h ↦ elim (Option-cases (least (reap now t).pool)) [
      | inl g ↦ rw (h, g, create_entry, create_new, allocate) (full h g)
      | inr (n, g) ↦ rw (h, g, create_entry, create_new, allocate) (new n h g)
    ]
  ]

  -- A key with no live entry gets a new one under the least free number.
  pub create_entry_new :
      (n : ℕ)
      → Dict.lookup k (reap now t).table ≡ none
      → least (reap now t).pool ≡ some n
      → create_entry now stamp k public_ip t
        ≡ (some (entry_at n), with_entry k (entry_at n) (reap now t))
  unfolding create_entry create_new record_entry allocate
  create_entry_new n missing free = rw (missing, free, create_entry, create_new, allocate)

  module _ (v : IsValid t) where
    valid : IsValid (reap now t)
    valid = reap-IsValid now t v

    create_entry-keeps : IsValid (create_entry now stamp k public_ip t).1
    create_entry-keeps =
        create_entry_cases (λ r. IsValid r.1) (λ _ _. valid) (λ _ _. valid)
          λ n new least.
            with_entry-IsValid k (entry_at n) (reap now t) valid new
              (least_in (reap now t).pool n least)

    -- The entry that is returned stands in the table under the key.
    lookup-create_entry :
        (x : Entry)
        → (create_entry now stamp k public_ip t).0 ≡ some x
        → Dict.lookup k (create_entry now stamp k public_ip t).1.table ≡ some x
    lookup-create_entry x =
        create_entry_cases (λ r. r.0 ≡ some x → Dict.lookup k r.1.table ≡ some x)
          (λ y h same. h ∙ same) (λ _ _ same. absurd (ground arith))
          λ n _ _ same. lookup-insert_self k (entry_at n) (reap now t).table ∙ same

    -- Other keys have what a reap leaves them.
    lookup-create_entry_ne :
        (j : Key T)
        → j ≢ k
        → Dict.lookup j (create_entry now stamp k public_ip t).1.table
          ≡ live now (Dict.lookup j t.table)
    lookup-create_entry_ne j ne =
        create_entry_cases (λ r. Dict.lookup j r.1.table ≡ live now (Dict.lookup j t.table))
          (λ _ _. lookup-reap now j t v) (λ _ _. lookup-reap now j t v)
          λ n _ _. lookup-insert_ne j k (entry_at n) (reap now t).table ne ∙ lookup-reap now j t v

live_of_fresh :
    (now : ℕ) (x : Entry) → now ≤ x.timestamp + entry_timeout → live now (some x) ≡ some x
live_of_fresh now x h = ground arith

live_inv :
    (now : ℕ) (o : Option Entry) (x : Entry)
    → live now o ≡ some x
    → (o ≡ some x) × (is_expired now x ≡ false)
live_inv now none x h = absurd (ground arith)
live_inv now (some y) x h = ground arith

module _ {ℓ} {T : Type ℓ} ⦃e : Eq T⦄ where
  -- Creating an entry keeps a translation valid, whichever way it ends.
  pub create_entry-IsValid :
      (now stamp : ℕ) (k : Key T) (public_ip : ℕ) (t : Translation T)
      → IsValid t
      → IsValid (create_entry now stamp k public_ip t).1
  create_entry-IsValid now stamp k public_ip t v = create_entry-keeps now stamp k public_ip t v

  -- What a private address sends out under its entry comes back to it: until the entry expires, the
  -- reverse look-up of the entry's public address finds the private address.
  pub get_reverse_entry-create_entry :
      (now stamp later : ℕ) (k : Key T) (public_ip : ℕ) (t : Translation T) (x : Entry)
      → IsValid t
      → (create_entry now stamp k public_ip t).0 ≡ some x
      → later ≤ x.timestamp + entry_timeout
      → (get_reverse_entry later (reverse_key k x) (create_entry now stamp k public_ip t).1).0
        ≡ some (reverse_entry k x)
  unfolding get_reverse_entry
  get_reverse_entry-create_entry now stamp later k public_ip t x v made fresh =
      ((reap-IsValid later t' v').forward k x (
        lookup-reap later k t' v'
        ∙ (ap (live later) (lookup-create_entry now stamp k public_ip t v x made)
            ∙ live_of_fresh later x fresh))).0
    where
      t' : Translation T
      t' = (create_entry now stamp k public_ip t).1

      v' : IsValid t'
      v' = create_entry-keeps now stamp k public_ip t v

  -- A reverse look-up finds an entry exactly when a live session holds that public address, and
  -- then it is that session's.
  pub get_reverse_entry-some_iff :
      (now : ℕ) (r : Key T) (y : ReverseEntry) (t : Translation T)
      → IsValid t
      → ((get_reverse_entry now r t).0 ≡ some y) ↔ (
          (Dict.lookup (private_key r y) t.table ≡ some (entry_of r y))
          × (is_expired now (entry_of r y) ≡ false))
  unfolding get_reverse_entry
  get_reverse_entry-some_iff now r y t v = (
    λ h.
        live_inv now (Dict.lookup (private_key r y) t.table) (entry_of r y)
          (sym (lookup-reap now (private_key r y) t v) ∙ (reap-IsValid now t v).backward r y h),
    λ (there, fresh).
        ((reap-IsValid now t v).forward (private_key r y) (entry_of r y)
          (lookup-reap now (private_key r y) t v ∙ (ap (live now) there ∙ ground arith))).0,
  )

  -- Every number of the range is held by a live entry.
  abbrev pub IsFull : ℕ → Translation T → Type ℓ
  IsFull now t =
      (n : ℕ)
      → number_min ≤ n
      → n ≤ number_max
      → (j : Key T) × (x : Entry) × (live now (Dict.lookup j t.table) ≡ some x)
        × (x.public_number ≡ n)

  IsFull-of_least :
      (now : ℕ) (t : Translation T) → IsValid t → least (reap now t).pool ≡ none → IsFull now t
  IsFull-of_least now t v none_free n low high = elim ((reap-IsValid now t v).whole n low high) [
    | inl there ↦ absurd (ground (arith, least-none (reap now t).pool n none_free))
    | inr (j, x, there, number) ↦ (j, x, sym (lookup-reap now j t v) ∙ there, number)
  ]

  not_full_of_least :
      (now n : ℕ) (t : Translation T)
      → IsValid t
      → least (reap now t).pool ≡ some n
      → IsFull now t
      → ⊥
  not_full_of_least now n t v free full =
      let there = least_in (reap now t).pool n free in
      let (low, high) = (reap-IsValid now t v).free n there in
      let (j, x, held, number) = full n low high in
      let (_, _, _, taken) = (reap-IsValid now t v).forward j x (lookup-reap now j t v ∙ held) in
      ground (arith, ap (λ (m : ℕ). in_pool m (reap now t).pool) number)

  -- `create_entry` gives nothing exactly when the key has no live entry and every number of the
  -- range is held by a live one.
  pub create_entry-none_iff :
      (now stamp : ℕ) (k : Key T) (public_ip : ℕ) (t : Translation T)
      → IsValid t
      → ((create_entry now stamp k public_ip t).0 ≡ none)
        ↔ ((live now (Dict.lookup k t.table) ≡ none) × IsFull now t)
  create_entry-none_iff now stamp k public_ip t v =
      create_entry_cases now stamp k public_ip t
        (λ r. (r.0 ≡ none) ↔ ((live now (Dict.lookup k t.table) ≡ none) × IsFull now t))
        (λ x there. (
          λ same. absurd (ground arith),
          λ (missing, _). absurd (ground (arith, lookup-reap now k t v)),
        ))
        (λ missing free.
          (λ _. (sym (lookup-reap now k t v) ∙ missing, IsFull-of_least now t v free), λ _. refl))
        (λ n missing free. (
          λ same. absurd (ground arith),
          λ (_, full). absurd (not_full_of_least now n t v free full),
        ))

  -- Two private addresses with live entries never share a public number: not under one protocol
  -- and not under two.
  pub create_entry_distinct :
      (now stamp now' stamp' : ℕ) (j k : Key T) (public_ip public_ip' : ℕ) (t : Translation T)
      (x y : Entry)
      → IsValid t
      → j ≢ k
      → (create_entry now stamp j public_ip t).0 ≡ some x
      → (create_entry now' stamp' k public_ip' (create_entry now stamp j public_ip t).1).0 ≡ some y
      → now' ≤ x.timestamp + entry_timeout
      → x.public_number ≢ y.public_number
  create_entry_distinct now stamp now' stamp' j k public_ip public_ip' t x y v ne made made' fresh
        same =
      ne (
        (create_entry-keeps now' stamp' k public_ip' t' v').distinct j k x y
          (lookup-create_entry_ne now' stamp' k public_ip' t' v' j ne
            ∙ (ap (live now') (lookup-create_entry now stamp j public_ip t v x made)
                ∙ live_of_fresh now' x fresh))
          (lookup-create_entry now' stamp' k public_ip' t' v' y made') same)
    where
      t' : Translation T
      t' = (create_entry now stamp j public_ip t).1

      v' : IsValid t'
      v' = create_entry-keeps now stamp j public_ip t v
