-- ===== src/CommandLine/Typing.antt =====
-- The values that a namespace holds after a command line was accepted.
use fiuba_redes.CommandLine.Options.{
  Dest, dest_eq, Value, flag, text, number, Kind, store_true, store_int, store, Argument,
  ArgumentParser, is_allowed, read_number, convert, is_seen, has_conflict, Parsing, store_value,
  defaults,
}
use fiuba_redes.Common.{
  ◌≡◌, ◌≢◌, ◌⊎◌, inl, inr, refl, sym, ap, ◌∙◌, arith, Bool, true, false, ◌&&◌, Bool-cases, Option,
  Option-cases, none, some, List, [], ◌∷◌, if◌then◌else◌,
}
use fiuba_redes.Common.Dict
use fiuba_redes.Common.Dict.{Dict, lookup-insert, lookup-nil}
use fiuba_redes.File.{text_eq}
use fiuba_redes.Runtime.{Text, ℤ, Runtime}
use mathlib.Core.Logic.{if_pos, if_neg}
use mathlib.Core.Option.{some-injective}
use mathlib.Core.Path.{subst}

-- What an option stores when it is given.
abbrev pub IsOf : Kind → List Text → Value → Type 0
IsOf store_true choices v = v ≡ flag true
IsOf store_int choices v = (z : ℤ) × (v ≡ number z)
IsOf store choices v = (t : Text) × (v ≡ text t) × (is_allowed choices t ≡ true)

pub convert-IsOf :
    (r : Runtime) (kind : Kind) (choices : List Text) (given : Option Text) (v : Value)
    → convert r kind choices given ≡ some v
    → IsOf kind choices v
unfolding convert
convert-IsOf r store_true choices none v e = sym (some-injective _ _ e)
convert-IsOf r store_true choices (some t) v e = absurd (ground arith)
convert-IsOf r store_int choices none v e = absurd (ground arith)
convert-IsOf r store_int choices (some t) v e = elim (Option-cases (r.int t)) [
  | inl bad ↦ absurd (ground (arith, ap read_number bad))
  | inr (z, good) ↦ (z, sym (some-injective _ _ (sym (ap read_number good) ∙ e)))
]
convert-IsOf r store choices none v e = absurd (ground arith)
convert-IsOf r store choices (some t) v e = elim (Bool-cases (is_allowed choices t)) [
  | inl good ↦ (t, sym (some-injective _ _ (sym (chosen good) ∙ e)), good)
  | inr bad ↦ absurd (ground (arith, chosen bad))
]
  where
    chosen :
        {b : Bool}
        → is_allowed choices t ≡ b
        → convert r store choices (some t) ≡ (if b then some (text t) else none)
    chosen good = ap (λ (b : Bool). if b then some (text t) else none) good

-- Every option has a value: that of the command line, or its default if it was not given.
abbrev pub IsTyped : Argument → Bool → Option Value → Type 0
IsTyped argument seen found =
    (v : Value) × (found ≡ some v)
    × ((IsOf argument.kind argument.choices v × (seen ≡ true))
        ⊎ ((v ≡ argument.default) × (seen ≡ false)))

pub record Reads (parser : ArgumentParser) (s : Parsing) : Type 0 where
  pub typed :
      (attr : Dest) (argument : Argument)
      → Dict.lookup attr parser ≡ some argument
      → IsTyped argument (is_seen attr s.seen) (Dict.lookup attr s.namespace)
  pub exclusive :
      (a b : Dest) (x y : Argument)
      → Dict.lookup a parser ≡ some x
      → Dict.lookup b parser ≡ some y
      → x.exclusive ≡ true
      → y.exclusive ≡ true
      → a ≢ b
      → is_seen a s.seen && is_seen b s.seen ≡ false

pub lookup-defaults :
    (parser : ArgumentParser) (attr : Dest) (argument : Argument)
    → Dict.lookup attr parser ≡ some argument
    → Dict.lookup attr (defaults parser) ≡ some argument.default
unfolding defaults Dict.lookup
lookup-defaults [] attr argument e = absurd (ground arith)
lookup-defaults ((other, x) ∷ parser) attr argument e =
    ground (arith, lookup-defaults parser attr argument)

pub defaults-Reads :
    (parser : ArgumentParser) → Reads parser (record { namespace = defaults parser; seen = [] })
unfolding is_seen
defaults-Reads parser = record {
  typed = λ attr argument e.
      (argument.default, lookup-defaults parser attr argument e, inr (refl, refl));
  exclusive = λ a b x y e f g h ne. refl;
}

no_conflict :
    (parser : ArgumentParser) (attr other : Dest) (x : Argument) (seen : List Dest)
    → has_conflict parser attr seen ≡ false
    → Dict.lookup other parser ≡ some x
    → x.exclusive ≡ true
    → other ≢ attr
    → is_seen other seen ≡ false
unfolding has_conflict Dict.lookup
no_conflict [] attr other x seen h e f ne = absurd (ground arith)
no_conflict ((a, y) ∷ parser) attr other x seen h e f ne =
    ground (arith, no_conflict parser attr other x seen)

pub same_argument :
    (parser : ArgumentParser) (a b : Dest) (x y : Argument)
    → a ≡ b
    → Dict.lookup a parser ≡ some x
    → Dict.lookup b parser ≡ some y
    → x ≡ y
same_argument parser a b x y e f g =
    some-injective _ _ (sym f ∙ (ap (λ (d : Dest). Dict.lookup d parser) e ∙ g))

-- One option of the command line.
pub store_value-Reads :
    (parser : ArgumentParser) (attr : Dest) (argument : Argument) (s s' : Parsing) (v : Value)
    → Dict.lookup attr parser ≡ some argument
    → IsOf argument.kind argument.choices v
    → Reads parser s
    → store_value parser attr argument s v ≡ some s'
    → Reads parser s'
unfolding store_value is_seen
store_value-Reads parser attr argument s s' v there fine reads e =
    elim (Bool-cases (argument.exclusive && has_conflict parser attr s.seen)) [
      | inl bad ↦ absurd (ground (arith, ap (λ (b : Bool). if b then none else some new) bad))
      | inr free ↦
          subst (Reads parser)
            (some-injective _ _ (sym (ap (λ (b : Bool). if b then none else some new) free) ∙ e))
            (record { typed = typed; exclusive = exclusive free })
    ]
  where
    new : Parsing
    new = record { namespace = Dict.insert attr v s.namespace; seen = attr ∷ s.seen }

    typed :
        (a : Dest) (x : Argument)
        → Dict.lookup a parser ≡ some x
        → IsTyped x (is_seen a new.seen) (Dict.lookup a new.namespace)
    typed a x found = elim (dest_eq.dec a attr) [
      | yes p ↦
          let same = same_argument parser a attr x argument p found there in
          rw (lookup-insert a attr v s.namespace, if_pos _ p)
            (v, refl, inl (subst (λ (y : Argument). IsOf y.kind y.choices v) (sym same) fine, refl))
      | no n ↦ rw (lookup-insert a attr v s.namespace, if_neg _ n) (reads.typed a x found)
    ]

    -- The others of the group were not given.
    alone :
        (a b : Dest) (x y : Argument)
        → Dict.lookup a parser ≡ some x
        → Dict.lookup b parser ≡ some y
        → x.exclusive ≡ true
        → y.exclusive ≡ true
        → a ≡ attr
        → b ≢ attr
        → argument.exclusive && has_conflict parser attr s.seen ≡ false
        → is_seen b s.seen ≡ false
    alone a b x y f g h i p m free =
        let same = same_argument parser a attr x argument p f there in
        no_conflict parser attr b y s.seen
          (ground (arith, free, ap (λ (z : Argument). z.exclusive) same)) g i m

    exclusive :
        argument.exclusive && has_conflict parser attr s.seen ≡ false
        → (a b : Dest) (x y : Argument) → Dict.lookup a parser ≡ some x
        → Dict.lookup b parser ≡ some y
        → x.exclusive ≡ true
        → y.exclusive ≡ true
        → a ≢ b
        → is_seen a new.seen && is_seen b new.seen ≡ false
    exclusive free a b x y f g h i ne = elim (dest_eq.dec a attr) [
      | yes p ↦
          let m : b ≢ attr = λ q. ne (p ∙ sym q) in
          rw (if_pos _ p, if_neg _ m) (alone a b x y f g h i p m free)
      | no n ↦ elim (dest_eq.dec b attr) [
        | yes q ↦ rw (if_neg _ n, alone b a y x g f i h q n free) refl
        | no m ↦ rw (if_neg _ n, if_neg _ m) (reads.exclusive a b x y f g h i ne)
      ]
    ]
