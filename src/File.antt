-- ===== src/File.antt =====
-- tp1/src/lib/common/file_handling.py, class FileHandler, over a disk that holds the bytes of each
-- path. What is written counts at once, as it does after the close. `base_dir / filename` is an
-- argument; directories are always there, and a path can be written.
pub mod Content
use fiuba_redes.Common.{
  ℕ, ◌+◌, Bool, true, false, not, Option, none, some, List, [], ◌∷◌, ◌++◌, length, take, drop, leb,
  Eq, ℕ_discrete, if◌then◌else◌,
}
use fiuba_redes.Common.Dict
use fiuba_redes.Common.Dict.{Dict}
use fiuba_redes.Exceptions.{Exception, Result, ok, raise, runtime_error, os_error, type_error}
use fiuba_redes.Method.{M, ◌>>=◌, ◌>>◌, return, fail, self, update, call}
use fiuba_redes.Packet.{Bytes}
use fiuba_redes.Runtime.{Text}

Text-discrete : Discrete Text
Text-discrete = hlevel ℕ_discrete

instance unfoldable pub text_eq : Eq Text
unfolding Text-discrete
text_eq = record { dec = Text-discrete }

-- An open file: its path, whether it is open for reading, and the position.
pub record OpenFile : Type 0 where
  pub at : Text
  pub is_reading : Bool
  pub position : ℕ

pub record FileHandler : Type 0 where
  pub file : Option OpenFile
  pub path : Option Text
  pub filename : Option Text
  pub disk : Dict Text Bytes

abbrev pub init : Dict Text Bytes → FileHandler
init disk = record { file = none; path = none; filename = none; disk = disk }

abbrev content : Option Bytes → Bytes
content none = []
content (some b) = b

abbrev pub set_filename : Text → M FileHandler (Unit {0})
set_filename filename = update (λ h. record h { filename = some filename })

-- The argument, or the object's own name when there is none; a name of None does not make a path.
abbrev pub or_own : Option Text → FileHandler → Result Text
or_own (some name) h = ok name
or_own none h = elim h.filename [ none ↦ raise type_error | some name ↦ ok name ]

module _ (join : Text → Text) where
  unfoldable pub open_for_write : Text → M FileHandler (Unit {0})
  open_for_write filename = update (λ h. record h {
    path = some (join filename);
    file = some (record { at = join filename; is_reading = false; position = 0 });
    disk = Dict.insert (join filename) [] h.disk;
  })

  unfoldable pub create_file : Option Text → M FileHandler (Unit {0})
  create_file filename = do h ← self; name ← call (or_own filename h); open_for_write name

  unfoldable pub open_for_read : Option Text → M FileHandler (Unit {0})
  open_for_read filename = do
    h ← self
    name ← call (or_own filename h)
    update (λ t. record t { path = some (join name) })
    elim (Dict.lookup (join name) h.disk) [
      | none ↦ fail os_error
      | some b ↦ update (λ t. record t {
        file = some (record { at = join name; is_reading = true; position = 0 });
      })
    ]

-- The bytes of a file after a write at a position.
abbrev pub overwrite : ℕ → Bytes → Bytes → Bytes
overwrite position data' b = take position b ++ (data' ++ drop (position + length data') b)

abbrev write_to : Bytes → OpenFile → FileHandler → Result (Unit {0}) × FileHandler
write_to data' f h = if f.is_reading then (raise os_error, h) else (
  ok tt,
  record h {
    file = some (record f { position = f.position + length data' });
    disk = Dict.insert f.at (overwrite f.position data' (content (Dict.lookup f.at h.disk))) h.disk;
  },
)

unfoldable pub write : Bytes → M FileHandler (Unit {0})
write data' h = elim h.file [ none ↦ (raise runtime_error, h) | some f ↦ write_to data' f h ]

abbrev read_from : ℕ → OpenFile → FileHandler → Result Bytes × FileHandler
read_from size f h =
    let b = take size (drop f.position (content (Dict.lookup f.at h.disk))) in
    if f.is_reading
    then (ok b, record h { file = some (record f { position = f.position + length b }) })
    else (raise os_error, h)

unfoldable pub read : ℕ → M FileHandler Bytes
read size h = elim h.file [ none ↦ (raise runtime_error, h) | some f ↦ read_from size f h ]

unfoldable pub size : FileHandler → Result ℕ
size h = elim h.path [
  | none ↦ raise runtime_error
  | some p ↦ elim (Dict.lookup p h.disk) [ none ↦ raise os_error | some b ↦ ok (length b) ]
]

abbrev eof_of : OpenFile → Result ℕ → Result Bool
eof_of f (raise e) = raise e
eof_of f (ok n) = ok (leb n f.position)

unfoldable pub eof : FileHandler → Result Bool
eof h = elim h.file [
  | none ↦ raise runtime_error
  | some f ↦ if f.is_reading then eof_of f (size h) else raise runtime_error
]

abbrev pub is_closed : FileHandler → Bool
is_closed h = elim h.file [ none ↦ true | some f ↦ false ]

abbrev pub close : FileHandler → FileHandler
close h = record h { file = none }
