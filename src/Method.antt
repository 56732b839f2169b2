-- ===== src/Method.antt =====
-- Python methods: a result or an exception, beside the object's state. What a method wrote before
-- it raised stays written.
use fiuba_redes.Exceptions.{Exception, Result, ok, raise}

abbrev pub M {ℓ κ} : Type ℓ → Type κ → Type (ℓ ⊔ κ)
M S A = S → Result A × S

abbrev pub after {ℓ κ ν} :
    {S : Type ℓ} {A : Type κ} {B : Type ν} → (A → M S B) → Result A × S → Result B × S
after f (ok a, s) = f a s
after f (raise e, s) = (raise e, s)

infixl 5 ◌>>=◌ ◌>>◌
abbrev pub ◌>>=◌ {ℓ κ ν} : {S : Type ℓ} {A : Type κ} {B : Type ν} → M S A → (A → M S B) → M S B
◌>>=◌ m f s = after f (m s)

abbrev pub ◌>>◌ {ℓ κ} : {S : Type ℓ} {B : Type κ} → M S (Unit {0}) → M S B → M S B
◌>>◌ m k s = after (λ _. k) (m s)

abbrev pub return {ℓ κ} : {S : Type ℓ} {A : Type κ} → A → M S A
return a s = (ok a, s)

abbrev pub fail {ℓ κ} : {S : Type ℓ} {A : Type κ} → Exception → M S A
fail e s = (raise e, s)

-- The object as it is, a write to it, and a call that does not touch it.
abbrev pub self {ℓ} : {S : Type ℓ} → M S S
self s = (ok s, s)

abbrev pub update {ℓ} : {S : Type ℓ} → (S → S) → M S (Unit {0})
update f s = (ok tt, f s)

abbrev pub call {ℓ κ} : {S : Type ℓ} {A : Type κ} → Result A → M S A
call r s = (r, s)

-- The method raised nothing, and what it returned and left satisfies Q.
abbrev pub Ensures {ℓ κ} : {S : Type ℓ} {A : Type κ} → (A → S → Type 0) → Result A × S → Type 0
Ensures Q (ok a, s) = Q a s
Ensures Q (raise e, s) = ⊥

pub Ensures-after {ℓ κ ν} :
    {S : Type ℓ} {A : Type κ} {B : Type ν} (Q : A → S → Type 0) (R : B → S → Type 0) (f : A → M S B)
    (x : Result A × S)
    → Ensures Q x
    → ((a : A) (s : S) → Q a s → Ensures R (f a s))
    → Ensures R (after f x)
Ensures-after Q R f (ok a, s) h k = k a s h
Ensures-after Q R f (raise e, s) h k = absurd h

pub Ensures-weaken {ℓ κ} :
    {S : Type ℓ} {A : Type κ} (Q R : A → S → Type 0) (x : Result A × S)
    → Ensures Q x
    → ((a : A) (s : S) → Q a s → R a s)
    → Ensures R x
Ensures-weaken Q R (ok a, s) h k = k a s h
Ensures-weaken Q R (raise e, s) h k = absurd h
