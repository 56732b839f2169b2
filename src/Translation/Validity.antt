-- ===== src/Translation/Validity.antt =====
-- The invariant of a translation: table, reverse and pool agree. It holds at the start, and an
-- entry that is dropped or recorded keeps it.
use fiuba_redes.Common.{
  ℕ, ◌+◌, ◌-◌, ◌≤◌, ◌≡◌, ◌≢◌, ◌⊎◌, inl, inr, ap, sym, ◌∙◌, arith, true, false, none, some, Eq,
  nat_eq, ℕ_discrete,
}
use fiuba_redes.Common.Dict
use fiuba_redes.Common.Dict.{
  Dict, NodupKeys, lookup-nil, lookup-insert, lookup-erase, lookup-erase_ne, lookup-erase_inv,
  lookup-insert_ne, lookup-insert_self, lookup-insert_inv, contains_of_lookup, insert-NodupKeys,
  erase-NodupKeys,
}
use fiuba_redes.Translation.{
  Translation, Key, key_eq, Entry, ReverseEntry, in_pool, remove, add, init, number_min, number_max,
  drop_entry,
}
use fiuba_redes.Translation.Pools.{in_pool-remove, in_pool-add, in_pool-range, range_bounds}

module _ {ℓ} {T : Type ℓ} where
  -- The reverse key and the reverse entry that belong to an entry, and back.
  abbrev pub reverse_key : Key T → Entry → Key T
  reverse_key k x = record { tag = k.tag; ip = x.public_ip; number = x.public_number }

  abbrev pub reverse_entry : Key T → Entry → ReverseEntry
  reverse_entry k x = record {
    private_ip = k.ip;
    private_number = k.number;
    timestamp = x.timestamp;
  }

  abbrev pub private_key : Key T → ReverseEntry → Key T
  private_key r y = record { tag = r.tag; ip = y.private_ip; number = y.private_number }

  abbrev pub entry_of : Key T → ReverseEntry → Entry
  entry_of r y = record { public_ip = r.ip; public_number = r.number; timestamp = y.timestamp }

module _ {ℓ} {T : Type ℓ} ⦃e : Eq T⦄ where
  -- A reverse key is determined by the private key that its entry names.
  reverse_key_eq :
      (r : Key T) (y : ReverseEntry) (k : Key T) (x : Entry)
      → private_key r y ≡ k
      → some (entry_of r y) ≡ some x
      → r ≡ reverse_key k x
  reverse_key_eq r y k x same found = ground arith

  pub record IsValid (t : Translation T) : Type ℓ where
    pub once : NodupKeys t.table
    -- An entry has its reverse, and a number of the range that is not free.
    pub forward :
        (k : Key T) (x : Entry)
        → Dict.lookup k t.table ≡ some x
        → (Dict.lookup (reverse_key k x) t.reverse ≡ some (reverse_entry k x))
          × (number_min ≤ x.public_number)
          × (x.public_number ≤ number_max)
          × (in_pool x.public_number t.pool ≡ false)
    pub backward :
        (r : Key T) (y : ReverseEntry)
        → Dict.lookup r t.reverse ≡ some y
        → Dict.lookup (private_key r y) t.table ≡ some (entry_of r y)
    -- No number is given out twice, not even under two tags.
    pub distinct :
        (j k : Key T) (x y : Entry)
        → Dict.lookup j t.table ≡ some x
        → Dict.lookup k t.table ≡ some y
        → x.public_number ≡ y.public_number
        → j ≡ k
    pub free : (n : ℕ) → in_pool n t.pool ≡ true → (number_min ≤ n) × (n ≤ number_max)
    -- No number is lost.
    pub whole :
        (n : ℕ)
        → number_min ≤ n
        → n ≤ number_max
        → (in_pool n t.pool ≡ true)
          ⊎ ((k : Key T) × (x : Entry) × (Dict.lookup k t.table ≡ some x) × (x.public_number ≡ n))

  pub init-IsValid : IsValid (init {T = T})
  unfolding init
  init-IsValid = record {
    once = tt;
    forward = λ k x h. absurd (ground (arith, lookup-nil {V = Entry} k));
    backward = λ r y h. absurd (ground (arith, lookup-nil {V = ReverseEntry} r));
    distinct = λ j k x y h g _. absurd (ground (arith, lookup-nil {V = Entry} j));
    free = λ n h.
        let b = range_bounds n number_min (number_max + 1 - number_min) h in
        (b.0, omega (arith, b.1));
    whole = λ n low high.
        inl (in_pool-range n number_min (number_max + 1 - number_min) low (omega arith));
  }

  -- What one turn of the reap leaves of a valid translation.
  abbrev pub without : Key T → Entry → Translation T → Translation T
  without k x t = record {
    table = Dict.erase k t.table;
    reverse = Dict.erase (reverse_key k x) t.reverse;
    pool = add x.public_number t.pool;
  }

  pub drop_entry-without :
      (k : Key T) (x : Entry) (t : Translation T)
      → IsValid t
      → Dict.lookup k t.table ≡ some x
      → drop_entry k t ≡ without k x t
  unfolding drop_entry
  drop_entry-without k x t v h =
      let (mirror, low, high, _) = v.forward k x h in
      rw (h, drop_entry, contains_of_lookup (reverse_key k x) (reverse_entry k x) t.reverse mirror)
        (ground arith)

  pub without-IsValid :
      (k : Key T) (x : Entry) (t : Translation T)
      → IsValid t
      → Dict.lookup k t.table ≡ some x
      → IsValid (without k x t)
  without-IsValid k x t v h = record {
    once = erase-NodupKeys k t.table v.once;
    forward = λ j y g.
        let (ne, there) = lookup-erase_inv j k y t.table g in
        let (mirror, low, high, taken) = v.forward j y there in
        let other : y.public_number ≢ x.public_number =
          λ same. ne (v.distinct j k y x there h same) in
        (
          lookup-erase_ne (reverse_key j y) (reverse_key k x) t.reverse
                (λ same. other (ap (λ (r : Key T). r.number) same))
              ∙ mirror,
          low,
          high,
          in_pool-add y.public_number x.public_number t.pool ∙ ground arith,
        );
    backward = λ r y g.
        let (ne, there) = lookup-erase_inv r (reverse_key k x) y t.reverse g in
        let found = v.backward r y there in
        lookup-erase_ne (private_key r y) k t.table (λ same. ne (
          reverse_key_eq r y k x same
            (sym found ∙ (ap (λ (q : Key T). Dict.lookup q t.table) same ∙ h))))
        ∙ found;
    distinct = λ i j y z g f same.
        v.distinct i j y z (lookup-erase_inv i k y t.table g).1 (lookup-erase_inv j k z t.table f).1
          same;
    free = λ n g. ground (arith, in_pool-add n x.public_number t.pool, v.free n, v.forward k x h);
    whole = λ n low high. elim (ℕ_discrete n x.public_number) [
      | yes same ↦ inl (in_pool-add n x.public_number t.pool ∙ ground arith)
      | no ne ↦ elim (v.whole n low high) [
        | inl there ↦ inl (in_pool-add n x.public_number t.pool ∙ ground arith)
        | inr (j, y, there, number) ↦
            inr (j, y, lookup-erase_ne j k t.table (λ same. ne (ground arith)) ∙ there, number)
      ]
    ];
  }

  -- What a new entry under a free number makes of a translation.
  abbrev pub with_entry : Key T → Entry → Translation T → Translation T
  with_entry k x t = record {
    table = Dict.insert k x t.table;
    reverse = Dict.insert (reverse_key k x) (reverse_entry k x) t.reverse;
    pool = remove x.public_number t.pool;
  }

  module _ (k : Key T) (x : Entry) (t : Translation T) (v : IsValid t)
      (new : Dict.lookup k t.table ≡ none) (unused : in_pool x.public_number t.pool ≡ true) where
    absent : (j : Key T) (y : Entry) → Dict.lookup j t.table ≡ some y → j ≢ k
    absent j y there same = absurd (ground (arith, ap (λ (q : Key T). Dict.lookup q t.table) same))

    number_ne :
        (j : Key T) (y : Entry) → Dict.lookup j t.table ≡ some y → y.public_number ≢ x.public_number
    number_ne j y there same =
        absurd (ground (arith, (v.forward j y there).3, ap (λ (n : ℕ). in_pool n t.pool) same))

    with_entry_forward :
        (j : Key T) (y : Entry)
        → Dict.lookup j (with_entry k x t).table ≡ some y
        → (Dict.lookup (reverse_key j y) (with_entry k x t).reverse ≡ some (reverse_entry j y))
          × (number_min ≤ y.public_number)
          × (y.public_number ≤ number_max)
          × (in_pool y.public_number (with_entry k x t).pool ≡ false)
    with_entry_forward j y g = elim (lookup-insert_inv j k x y t.table g) [
      | inl (same, this) ↦
          rw (same, ← this)
            (
              lookup-insert_self (reverse_key k x) (reverse_entry k x) t.reverse,
              (v.free x.public_number unused).0,
              (v.free x.public_number unused).1,
              in_pool-remove x.public_number x.public_number t.pool ∙ ground arith,
            )
      | inr (ne, there) ↦
          let (mirror, low, high, taken) = v.forward j y there in
          (
            lookup-insert_ne (reverse_key j y) (reverse_key k x) (reverse_entry k x) t.reverse
                  (λ same. number_ne j y there (ap (λ (r : Key T). r.number) same))
                ∙ mirror,
            low,
            high,
            in_pool-remove y.public_number x.public_number t.pool ∙ ground arith,
          )
    ]

    with_entry_backward :
        (r : Key T) (y : ReverseEntry)
        → Dict.lookup r (with_entry k x t).reverse ≡ some y
        → Dict.lookup (private_key r y) (with_entry k x t).table ≡ some (entry_of r y)
    with_entry_backward r y g =
        elim (lookup-insert_inv r (reverse_key k x) (reverse_entry k x) y t.reverse g) [
          | inl (same, this) ↦ rw (same, ← this) (lookup-insert_self k x t.table)
          | inr (ne, there) ↦
              let found = v.backward r y there in
              lookup-insert_ne (private_key r y) k x t.table
                (absent (private_key r y) (entry_of r y) found)
              ∙ found
        ]

    with_entry_distinct :
        (i j : Key T) (y z : Entry)
        → Dict.lookup i (with_entry k x t).table ≡ some y
        → Dict.lookup j (with_entry k x t).table ≡ some z
        → y.public_number ≡ z.public_number
        → i ≡ j
    with_entry_distinct i j y z g f same = elim (lookup-insert_inv i k x y t.table g) [
      | inl (ik, xy) ↦ elim (lookup-insert_inv j k x z t.table f) [
        | inl (jk, xz) ↦ ik ∙ sym jk
        | inr (ne, there) ↦ absurd (number_ne j z there (ground arith))
      ]
      | inr (ne, there) ↦ elim (lookup-insert_inv j k x z t.table f) [
        | inl (jk, xz) ↦ absurd (number_ne i y there (ground arith))
        | inr (ne', there') ↦ v.distinct i j y z there there' same
      ]
    ]

    pub with_entry-IsValid : IsValid (with_entry k x t)
    with_entry-IsValid = record {
      once = insert-NodupKeys k x t.table v.once;
      forward = with_entry_forward;
      backward = with_entry_backward;
      distinct = with_entry_distinct;
      free = λ n g. ground (arith, in_pool-remove n x.public_number t.pool, v.free n);
      whole = λ n low high. elim (ℕ_discrete n x.public_number) [
        | yes same ↦ inr (k, x, lookup-insert_self k x t.table, sym same)
        | no ne ↦ elim (v.whole n low high) [
          | inl there ↦ inl (in_pool-remove n x.public_number t.pool ∙ ground arith)
          | inr (j, y, there, number) ↦
              inr (j, y, lookup-insert_ne j k x t.table (absent j y there) ∙ there, number)
        ]
      ];
    }
