-- ===== src/CommandLine/Latest.antt =====
-- What an accepted command line gives an attribute: the value of the last option that names it.
use fiuba_redes.CommandLine.Accepting.{and_then-some}
use fiuba_redes.CommandLine.Options.{
  Dest, dest_eq, Argument, ArgumentParser, Namespace, Given, by_short, by_long, dest_of, convert,
  Value, Parsing, store_value, take_dest, take_option, take_options, defaults, has_required,
  has_conflict, parse_args,
}
use fiuba_redes.CommandLine.Typing.{same_argument, lookup-defaults}
use fiuba_redes.Common.{
  ◌≡◌, refl, sym, ap, ◌∙◌, arith, inl, inr, Bool, false, ◌&&◌, ◌==◌, Bool-cases, Option-cases,
  Option, none, some, List, [], ◌∷◌, if◌then◌else◌,
}
use fiuba_redes.Common.Dict
use fiuba_redes.Common.Dict.{Dict, lookup-insert}
use fiuba_redes.Runtime.{Text, Runtime}
use mathlib.Core.Logic.{if_pos, if_neg}
use mathlib.Core.Option.{some-injective}

-- The attribute of an option on the command line, and what follows the option.
abbrev pub attribute_of : ArgumentParser → Given → Option Dest
attribute_of parser (by_long attr given) = some attr
attribute_of parser (by_short letter given) = dest_of parser letter

abbrev pub value_of : Given → Option Text
value_of (by_long attr given) = given
value_of (by_short letter given) = given

abbrev pub names : ArgumentParser → Dest → Given → Bool
names parser attr given = elim (attribute_of parser given) [ none ↦ false | some d ↦ d == attr ]

-- What follows the last option that names the attribute, if one does.
unfoldable pub last_value : ArgumentParser → Dest → List Given → Option (Option Text)
last_value parser attr [] = none
last_value parser attr (given ∷ line) =
    let rest = last_value parser attr line in
    elim rest [
      | some v ↦ some v
      | none ↦ if names parser attr given then some (value_of given) else none
    ]

-- The value of an attribute that has this one on the command line, or none.
abbrev pub stored : Runtime → Argument → Option Value → Option (Option Text) → Option Value
stored r argument old none = old
stored r argument old (some given) = convert r argument.kind argument.choices given

store_value-some :
    (parser : ArgumentParser) (d : Dest) (y : Argument) (s s' : Parsing) (v : Value)
    → store_value parser d y s v ≡ some s'
    → Dict.insert d v s.namespace ≡ s'.namespace
unfolding store_value
store_value-some parser d y s s' v e =
    elim (Bool-cases (y.exclusive && has_conflict parser d s.seen)) [
      | inl bad ↦ absurd (ground (arith, ap (λ (b : Bool). if b then none else some new) bad))
      | inr free ↦
          ap (λ (x : Parsing). x.namespace)
            (some-injective _ _ (sym (ap (λ (b : Bool). if b then none else some new) free) ∙ e))
    ]
  where
    new : Parsing
    new = record { namespace = Dict.insert d v s.namespace; seen = d ∷ s.seen }

module _ (r : Runtime) (parser : ArgumentParser) (attr : Dest) (argument : Argument)
    (there : Dict.lookup attr parser ≡ some argument) where
  take_dest-lookup :
      (d : Dest) (given : Option Text) (s s' : Parsing)
      → take_dest r parser given s d ≡ some s'
      → Dict.lookup attr s'.namespace
        ≡ stored r argument (Dict.lookup attr s.namespace) (if d == attr then some given else none)
  unfolding take_dest
  take_dest-lookup d given s s' e =
      let (y, found, e2) = and_then-some (Dict.lookup d parser) _ s' e in
      let (v, good, e3) = and_then-some (convert r y.kind y.choices given) _ s' e2 in
      let inserted = store_value-some parser d y s s' v e3 in
      ap (Dict.lookup attr) (sym inserted) ∙ elim (dest_eq.dec attr d) [
        | yes p ↦
            let same = same_argument parser attr d argument y p there found in
            rw (lookup-insert attr d v s.namespace, if_pos _ p, if_pos _ (sym p))
              (sym (ap (λ (x : Argument). convert r x.kind x.choices given) same ∙ good))
        | no n ↦ rw (lookup-insert attr d v s.namespace, if_neg _ n, if_neg _ (λ p. n (sym p))) refl
      ]

  take_option-lookup :
      (given : Given) (s s' : Parsing)
      → take_option r parser given s ≡ some s'
      → Dict.lookup attr s'.namespace
        ≡ stored r argument
            (Dict.lookup attr s.namespace)
            (if names parser attr given then some (value_of given) else none)
  unfolding take_option
  take_option-lookup (by_long d given) s s' e = take_dest-lookup d given s s' e
  take_option-lookup (by_short letter given) s s' e =
      let (d, found, e2) = and_then-some (dest_of parser letter) _ s' e in
      take_dest-lookup d given s s' e2
      ∙ ap
          (λ (o : Option Dest).
            stored r argument (Dict.lookup attr s.namespace)
              (if (elim o [ none ↦ false | some x ↦ x == attr ]) then some given else none))
          (sym found)

  take_options-lookup :
      (line : List Given) (s s' : Parsing)
      → take_options r parser line s ≡ some s'
      → Dict.lookup attr s'.namespace
        ≡ stored r argument (Dict.lookup attr s.namespace) (last_value parser attr line)
  unfolding take_options last_value
  take_options-lookup [] s s' e =
      ap (λ (x : Parsing). Dict.lookup attr x.namespace) (sym (some-injective _ _ e))
  take_options-lookup (given ∷ line) s s' e =
      let (s2, first, rest) = and_then-some (take_option r parser given s) _ s' e in
      let one = take_option-lookup given s s2 first in
      let more = take_options-lookup line s2 s' rest in
      elim (Option-cases (last_value parser attr line)) [
        | inr (v, later) ↦
            rw (later, last_value)
              (more ∙ ap (stored r argument (Dict.lookup attr s2.namespace)) later)
        | inl last ↦
            rw (last, last_value)
              (more ∙ (ap (stored r argument (Dict.lookup attr s2.namespace)) last ∙ one))
      ]

  -- An accepted line gives the value of the last option that names the attribute, or the default.
  pub parse_args-lookup :
      (line : List Given) (args : Namespace)
      → parse_args r parser line ≡ some args
      → Dict.lookup attr args
        ≡ stored r argument (some argument.default) (last_value parser attr line)
  unfolding parse_args
  parse_args-lookup line args e =
      let start : Parsing = record { namespace = defaults parser; seen = [] } in
      let (s, taken, ended) = and_then-some (take_options r parser line start) _ args e in
      elim (Bool-cases (has_required parser s.seen)) [
        | inr bad ↦
            absurd (ground (arith, ap (λ (b : Bool). if b then some s.namespace else none) bad))
        | inl whole ↦
            ap (Dict.lookup attr) (
              sym (
                some-injective _ _
                  (sym (ap (λ (b : Bool). if b then some s.namespace else none) whole) ∙ ended)))
            ∙ (take_options-lookup line start s taken
                ∙ ap (λ (o : Option Value). stored r argument o (last_value parser attr line))
                    (lookup-defaults parser attr argument there))
      ]
