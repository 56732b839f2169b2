-- ===== src/CommandLine/Options.antt =====
-- What tp1/src/lib/common/cli.py relies on of argparse: options that are declared, and a command line
-- that is read against them. How argparse splits the command line into options and their values is
-- outside, so a command line is a list of those.
use fiuba_redes.Common.{
  ℕ, Bool, true, false, not, ◌&&◌, ◌||◌, Option, none, some, List, [], ◌∷◌, ◌==◌, nat_eq, Eq,
  if◌then◌else◌,
}
use fiuba_redes.Common.Dict
use fiuba_redes.Common.Dict.{Dict}
use fiuba_redes.File.{text_eq}
use fiuba_redes.Runtime.{Text, ℤ, Runtime}

-- The attributes of a namespace, which are named like the long options.
pub data Dest : Type 0 where
  verbose quiet host port protocol name dst src storage : Dest

Dest-discrete : Discrete Dest
Dest-discrete = hlevel

instance unfoldable pub dest_eq : Eq Dest
unfolding Dest-discrete
dest_eq = record { dec = Dest-discrete }

pub data Value : Type 0 where
  flag : Bool → Value
  text : Text → Value
  number : ℤ → Value
  absent : Value

-- `action="store_true"`, `type=int`, and neither.
pub data Kind : Type 0 where
  store_true store_int store : Kind

-- An option of `add_argument`. `short` is the code of its letter, and `exclusive` says that it is in
-- the mutually exclusive group.
pub record Argument : Type 0 where
  pub short : ℕ
  pub kind : Kind
  pub required : Bool
  pub choices : List Text
  pub default : Value
  pub exclusive : Bool

abbrev pub ArgumentParser : Type 0
ArgumentParser = Dict Dest Argument

abbrev pub Namespace : Type 0
Namespace = Dict Dest Value

-- An option on the command line, by its letter or by its name, with the value that follows it.
pub data Given : Type 0 where
  by_short : ℕ → Option Text → Given
  by_long : Dest → Option Text → Given

unfoldable pub dest_of : ArgumentParser → ℕ → Option Dest
dest_of [] letter = none
dest_of ((attr, argument) ∷ parser) letter =
    let rest = dest_of parser letter in if letter == argument.short then some attr else rest

unfoldable pub is_among : Text → List Text → Bool
is_among t [] = false
is_among t (choice ∷ choices) = (t == choice) || is_among t choices

-- No `choices` allow every value.
abbrev pub is_allowed : List Text → Text → Bool
is_allowed [] t = true
is_allowed choices t = is_among t choices

abbrev pub read_number : Option ℤ → Option Value
read_number (some z) = some (number z)
read_number none = none

-- An error of argparse ends the reading.
abbrev pub and_then {ℓ κ} : {A : Type ℓ} {B : Type κ} → Option A → (A → Option B) → Option B
and_then none f = none
and_then (some a) f = f a

-- The value that an option stores; `none` is an error of argparse, which ends the program.
unfoldable pub convert : Runtime → Kind → List Text → Option Text → Option Value
convert r store_true choices none = some (flag true)
convert r store_true choices (some t) = none
convert r store_int choices none = none
convert r store_int choices (some t) = read_number (r.int t)
convert r store choices none = none
convert r store choices (some t) = if is_allowed choices t then some (text t) else none

unfoldable pub is_seen : Dest → List Dest → Bool
is_seen attr [] = false
is_seen attr (other ∷ seen) = (attr == other) || is_seen attr seen

-- Another option of the group was given.
unfoldable pub has_conflict : ArgumentParser → Dest → List Dest → Bool
has_conflict [] attr seen = false
has_conflict ((other, argument) ∷ parser) attr seen =
    (argument.exclusive && not (other == attr) && is_seen other seen)
    || has_conflict parser attr seen

pub record Parsing : Type 0 where
  pub namespace : Namespace
  pub seen : List Dest

unfoldable pub store_value : ArgumentParser → Dest → Argument → Parsing → Value → Option Parsing
store_value parser attr argument s value =
    if argument.exclusive && has_conflict parser attr s.seen
    then none
    else some (record { namespace = Dict.insert attr value s.namespace; seen = attr ∷ s.seen })

module _ (r : Runtime) (parser : ArgumentParser) where
  unfoldable pub take_dest : Option Text → Parsing → Dest → Option Parsing
  take_dest given s attr = and_then (Dict.lookup attr parser) λ argument.
      and_then (convert r argument.kind argument.choices given) (store_value parser attr argument s)

  unfoldable pub take_option : Given → Parsing → Option Parsing
  take_option (by_long attr given) s = take_dest given s attr
  take_option (by_short letter given) s = and_then (dest_of parser letter) (take_dest given s)

  unfoldable pub take_options : List Given → Parsing → Option Parsing
  take_options [] s = some s
  take_options (given ∷ line) s = and_then (take_option given s) (take_options line)

unfoldable pub defaults : ArgumentParser → Namespace
defaults [] = []
defaults ((attr, argument) ∷ parser) = (attr, argument.default) ∷ defaults parser

unfoldable pub has_required : ArgumentParser → List Dest → Bool
has_required [] seen = true
has_required ((attr, argument) ∷ parser) seen =
    (not argument.required || is_seen attr seen) && has_required parser seen

-- `parser.parse_args()`; `none` is the end of the program with a message.
unfoldable pub parse_args : Runtime → ArgumentParser → List Given → Option Namespace
parse_args r parser line =
    and_then (take_options r parser line (record { namespace = defaults parser; seen = [] }))
      λ s. if has_required parser s.seen then some s.namespace else none
