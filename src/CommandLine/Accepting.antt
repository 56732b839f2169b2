-- ===== src/CommandLine/Accepting.antt =====
-- A whole command line, and the namespace that it gives when it is accepted.
use fiuba_redes.CommandLine.Options.{
  Dest, dest_eq, Argument, ArgumentParser, Namespace, Given, by_short, by_long, dest_of, convert,
  is_seen, Parsing, take_dest, take_option, take_options, defaults, has_required, and_then,
  parse_args,
}
use fiuba_redes.Common.{
  ◌≡◌, ◌≢◌, inl, inr, refl, sym, ap, ◌∙◌, arith, Bool, true, false, ◌&&◌, Bool-cases, Option, none,
  some, List, [], ◌∷◌, if◌then◌else◌,
}
use fiuba_redes.Common.Dict
use fiuba_redes.Common.Dict.{Dict, lookup-insert, lookup-nil}
use fiuba_redes.File.{text_eq}
use fiuba_redes.Runtime.{Text, Runtime}
use mathlib.Core.Option.{some-injective}
use mathlib.Core.Path.{subst}
use fiuba_redes.CommandLine.Typing.{IsTyped, convert-IsOf, Reads, defaults-Reads, store_value-Reads}

pub and_then-some {ℓ κ} :
    {A : Type ℓ} {B : Type κ} (o : Option A) (f : A → Option B) (b : B)
    → and_then o f ≡ some b
    → (a : A) × (o ≡ some a) × (f a ≡ some b)
and_then-some none f b e = absurd (ground arith)
and_then-some (some a) f b e = (a, refl, e)

module _ (r : Runtime) (parser : ArgumentParser) where
  take_dest-Reads :
      (attr : Dest) (given : Option Text) (s s' : Parsing)
      → Reads parser s
      → take_dest r parser given s attr ≡ some s'
      → Reads parser s'
  unfolding take_dest
  take_dest-Reads attr given s s' reads e =
      let (argument, there, e2) = and_then-some (Dict.lookup attr parser) _ s' e in
      let (v, good, e3) = and_then-some (convert r argument.kind argument.choices given) _ s' e2 in
      store_value-Reads parser attr argument s s' v there
        (convert-IsOf r argument.kind argument.choices given v good) reads e3

  take_option-Reads :
      (given : Given) (s s' : Parsing)
      → Reads parser s
      → take_option r parser given s ≡ some s'
      → Reads parser s'
  unfolding take_option
  take_option-Reads (by_long attr given) s s' reads e = take_dest-Reads attr given s s' reads e
  take_option-Reads (by_short letter given) s s' reads e =
      let (attr, there, e2) = and_then-some (dest_of parser letter) _ s' e in
      take_dest-Reads attr given s s' reads e2

  take_options-Reads :
      (line : List Given) (s s' : Parsing)
      → Reads parser s
      → take_options r parser line s ≡ some s'
      → Reads parser s'
  unfolding take_options
  take_options-Reads [] s s' reads e = subst (Reads parser) (some-injective _ _ e) reads
  take_options-Reads (given ∷ line) s s' reads e =
      let (s2, first, rest) = and_then-some (take_option r parser given s) _ s' e in
      take_options-Reads line s2 s' (take_option-Reads given s s2 reads first) rest

required-is_seen :
    (parser : ArgumentParser) (attr : Dest) (argument : Argument) (seen : List Dest)
    → has_required parser seen ≡ true
    → Dict.lookup attr parser ≡ some argument
    → argument.required ≡ true
    → is_seen attr seen ≡ true
unfolding has_required Dict.lookup
required-is_seen [] attr argument seen h e f = absurd (ground arith)
required-is_seen ((a, y) ∷ parser) attr argument seen h e f =
    ground (arith, required-is_seen parser attr argument seen)

-- A namespace that a parser returns.
pub record Namespaces (parser : ArgumentParser) (args : Namespace) : Type 0 where
  pub given : Dest → Bool
  pub typed :
      (attr : Dest) (argument : Argument)
      → Dict.lookup attr parser ≡ some argument
      → IsTyped argument (given attr) (Dict.lookup attr args)
  pub needed :
      (attr : Dest) (argument : Argument)
      → Dict.lookup attr parser ≡ some argument
      → argument.required ≡ true
      → given attr ≡ true
  pub exclusive :
      (a b : Dest) (x y : Argument)
      → Dict.lookup a parser ≡ some x
      → Dict.lookup b parser ≡ some y
      → x.exclusive ≡ true
      → y.exclusive ≡ true
      → a ≢ b
      → given a && given b ≡ false

-- Every option of the parser has a value of its kind and among its choices if it was given, which
-- every required one was, and its default if not; two options of the group were not given.
pub parse_args-Namespaces :
    (r : Runtime) (parser : ArgumentParser) (line : List Given) (args : Namespace)
    → parse_args r parser line ≡ some args
    → Namespaces parser args
unfolding parse_args
parse_args-Namespaces r parser line args e =
    let start : Parsing = record { namespace = defaults parser; seen = [] } in
    let (s, taken, ended) = and_then-some (take_options r parser line start) _ args e in
    let reads = take_options-Reads r parser line start s (defaults-Reads parser) taken in
    elim (Bool-cases (has_required parser s.seen)) [
      | inr bad ↦
          absurd (ground (arith, ap (λ (b : Bool). if b then some s.namespace else none) bad))
      | inl whole ↦
          subst (Namespaces parser)
            (some-injective _ _
              (sym (ap (λ (b : Bool). if b then some s.namespace else none) whole) ∙ ended))
            (record {
              given = λ attr. is_seen attr s.seen;
              typed = reads.typed;
              needed = λ attr argument there need.
                  required-is_seen parser attr argument s.seen whole there need;
              exclusive = reads.exclusive;
            })
    ]
