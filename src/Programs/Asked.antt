-- ===== src/Programs/Asked.antt =====
-- The values that a client program reads of an accepted command line: those of the last options.
use fiuba_redes.CommandLine.{exclusive_flag, required_option, optional_option}
use fiuba_redes.CommandLine.Latest.{stored}
use fiuba_redes.CommandLine.Options.{
  verbose, quiet, store, store_int, Value, flag, text, absent, Argument, convert, read_number,
  is_allowed, is_among, dest_eq,
}
use fiuba_redes.CommandLine.Typing.{IsTyped}
use fiuba_redes.Common.{
  ℕ, ℕ_discrete, ◌≢◌, ◌≡◌, ◌⊎◌, inl, inr, refl, ap, ◌∙◌, arith, Bool, true, false, ◌==◌, Bool-cases,
  Option, Option-cases, none, some, if◌then◌else◌,
}
use fiuba_redes.Constants.{stop_and_wait_name, selective_repeat_name}
use fiuba_redes.Exceptions.{Exception, Result, ok, raise}
use fiuba_redes.Factory.{AnyProtocol, selective_repeat, stop_and_wait, create_protocol}
use fiuba_redes.File.{text_eq}
use fiuba_redes.Programs.{read_flag, read_text, read_port, read_name, choice_of}
use fiuba_redes.Programs.Starting.{protocol_names}
use fiuba_redes.Runtime.{Text, ℤ, Runtime}
use fiuba_redes.SelectiveRepeat
use fiuba_redes.StopAndWait
use mathlib.Core.Logic.{if_pos, if_neg}

-- Whether an option was given, its text, and the protocol that it names.
abbrev pub is_given : Option (Option Text) → Bool
is_given none = false
is_given (some given) = true

abbrev pub text_given : Option (Option Text) → Option Text
text_given none = none
text_given (some given) = given

abbrev pub object_asked : ℕ → Option Text → AnyProtocol
object_asked op_type none = selective_repeat (SelectiveRepeat.init op_type)
object_asked op_type (some t) =
    if t == stop_and_wait_name
    then stop_and_wait (StopAndWait.init op_type)
    else selective_repeat (SelectiveRepeat.init op_type)

pub asked_flag :
    (r : Runtime) (short : ℕ) (seen : Bool) (last : Option (Option Text)) (found : Option Value)
    → IsTyped (exclusive_flag short) seen found
    → found ≡ stored r (exclusive_flag short) (some (flag false)) last
    → read_flag found ≡ ok (is_given last)
unfolding convert
asked_flag r short seen none found typed e = ap read_flag e
asked_flag r short seen (some none) found typed e = ap read_flag e
asked_flag r short seen (some (some t)) found (v, has, typed) e = absurd (ground (arith, has, e))

pub asked_text :
    (r : Runtime) (short : ℕ) (last : Option (Option Text)) (found : Option Value)
    → IsTyped (required_option short store) true found
    → found ≡ stored r (required_option short store) (some absent) last
    → (t : Text) × (last ≡ some (some t)) × (read_text found ≡ ok t)
unfolding convert
asked_text r short (some (some t)) found typed e = (t, refl, ap read_text e)
asked_text r short (some none) found (v, has, typed) e = absurd (ground (arith, has, e))
asked_text r short none found (v, has, inl ((t, kind, allowed), given)) e =
    absurd (ground (arith, has, e, kind))
asked_text r short none found (v, has, inr (kind, given)) e = absurd (ground arith)

pub asked_port :
    (r : Runtime) (short : ℕ) (last : Option (Option Text)) (found : Option Value)
    → IsTyped (required_option short store_int) true found
    → found ≡ stored r (required_option short store_int) (some absent) last
    → (t : Text) × (z : ℤ) × (last ≡ some (some t)) × (r.int t ≡ some z) × (read_port found ≡ ok z)
unfolding convert
asked_port r short (some (some t)) found (v, has, typed) e = elim (Option-cases (r.int t)) [
  | inl bad ↦ absurd (ground (arith, has, e, ap read_number bad))
  | inr (z, good) ↦ (t, z, refl, good, ap read_port (e ∙ ap read_number good))
]
asked_port r short (some none) found (v, has, typed) e = absurd (ground (arith, has, e))
asked_port r short none found (v, has, inl ((z, kind), given)) e =
    absurd (ground (arith, has, e, kind))
asked_port r short none found (v, has, inr (kind, given)) e = absurd (ground arith)

pub asked_name :
    (r : Runtime) (short : ℕ) (seen : Bool) (last : Option (Option Text)) (found : Option Value)
    → IsTyped (optional_option short absent) seen found
    → found ≡ stored r (optional_option short absent) (some absent) last
    → read_name found ≡ ok (text_given last)
unfolding convert
asked_name r short seen none found typed e = ap read_name e
asked_name r short seen (some (some t)) found typed e = ap read_name e
asked_name r short seen (some none) found (v, has, typed) e = absurd (ground (arith, has, e))

abbrev pub protocol_option : Argument
protocol_option = record (optional_option 114 (text selective_repeat_name)) {
  choices = protocol_names;
}

made_asked :
    (t : Text) (op_type : ℕ)
    → is_allowed protocol_names t ≡ true
    → create_protocol (choice_of t) op_type ≡ ok (object_asked op_type (some t))
unfolding is_among choice_of create_protocol
made_asked t op_type allowed = elim (text_eq.dec t stop_and_wait_name) [
  | yes e ↦ rw (if_pos _ e) refl
  | no n ↦ elim (text_eq.dec t selective_repeat_name) [
    | yes e ↦ rw (if_neg _ n, if_pos _ e) refl
    | no m ↦ absurd (ground (arith, n, m))
  ]
]

made_default :
    (op_type : ℕ)
    → create_protocol (choice_of selective_repeat_name) op_type ≡ ok (object_asked op_type none)
unfolding choice_of create_protocol text_eq ℕ_discrete
made_default op_type = refl

abbrev pub ok_flag : Result Bool → Bool
ok_flag (ok b) = b
ok_flag (raise e) = false

pub verbose-ne-quiet : verbose ≢ quiet
verbose-ne-quiet = ground arith

pub connect_cases : (x : Result (Unit {0})) → ((e : Exception) × (x ≡ raise e)) ⊎ (x ≡ ok tt)
connect_cases (raise e) = inl (e, refl)
connect_cases (ok tt) = inr refl

-- The text that `args.protocol` has, and the object that is made for it.
abbrev pub Makes : ℕ → Option (Option Text) → Option Value → Type 0
Makes op_type last found =
    (t : Text) × (read_text found ≡ ok t)
    × (create_protocol (choice_of t) op_type ≡ ok (object_asked op_type (text_given last)))

pub asked_protocol :
    (r : Runtime) (op_type : ℕ) (seen : Bool) (last : Option (Option Text)) (found : Option Value)
    → IsTyped protocol_option seen found
    → found ≡ stored r protocol_option (some (text selective_repeat_name)) last
    → Makes op_type last found
unfolding convert
asked_protocol r op_type seen none found typed e =
    (selective_repeat_name, ap read_text e, made_default op_type)
asked_protocol r op_type seen (some none) found (v, has, typed) e = absurd (ground (arith, has, e))
asked_protocol r op_type seen (some (some t)) found (v, has, typed) e =
    elim (Bool-cases (is_allowed protocol_names t)) [
      | inl allowed ↦ (
        t,
        ap read_text (e ∙ ap (λ (b : Bool). if b then some (text t) else none) allowed),
        made_asked t op_type allowed,
      )
      | inr refused ↦
          absurd
            (ground (arith, has, e, ap (λ (b : Bool). if b then some (text t) else none) refused))
    ]
