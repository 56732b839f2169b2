-- ===== src/Programs/Starting.antt =====
-- What the client programs read of a namespace: a command line that argparse accepts gives each
-- attribute that `main` reads the type that it is used with, and a protocol that exists.
use fiuba_redes.CommandLine.{
  exclusive_flag, required_option, optional_option, set_logger_args, set_connection_args,
  set_protocol, set_file_name, set_client_args, upload_parser, download_parser,
}
use fiuba_redes.CommandLine.Options.{
  Dest, verbose, quiet, host, port, protocol, name, dst, src, Value, text, absent, store_int, store,
  ArgumentParser, dest_eq,
}
use fiuba_redes.CommandLine.Typing.{IsTyped}
use fiuba_redes.Common.{ℕ, ◌≡◌, inl, inr, refl, sym, ap, ◌∙◌, Bool, Option, some, List, [], ◌∷◌}
use fiuba_redes.Common.Dict
use fiuba_redes.Common.Dict.{Dict}
use fiuba_redes.Constants.{stop_and_wait_name, selective_repeat_name}
use fiuba_redes.Exceptions.{ok}
use fiuba_redes.File.{text_eq}
use fiuba_redes.Programs.{read_flag}
use fiuba_redes.Runtime.{Text}

pub read_flag-IsTyped :
    (short : ℕ) (seen : Bool) (found : Option Value)
    → IsTyped (exclusive_flag short) seen found
    → read_flag found ≡ ok seen
read_flag-IsTyped short seen found (v, e, inl (kind, given)) =
    ap read_flag (e ∙ ap some kind) ∙ ap ok (sym given)
read_flag-IsTyped short seen found (v, e, inr (kind, given)) =
    ap read_flag (e ∙ ap some kind) ∙ ap ok (sym given)

abbrev pub protocol_names : List Text
protocol_names = stop_and_wait_name ∷ selective_repeat_name ∷ []

-- A parser with the options of a client, and `path` for its file.
pub record IsClientParser (path : Dest) (parser : ArgumentParser) : Type 0 where
  pub has_verbose : Dict.lookup verbose parser ≡ some (exclusive_flag 118)
  pub has_quiet : Dict.lookup quiet parser ≡ some (exclusive_flag 113)
  pub has_host : Dict.lookup host parser ≡ some (required_option 72 store)
  pub has_port : Dict.lookup port parser ≡ some (required_option 112 store_int)
  pub has_protocol :
      Dict.lookup protocol parser
      ≡ some
          (record (optional_option 114 (text selective_repeat_name)) { choices = protocol_names })
  pub has_name : Dict.lookup name parser ≡ some (optional_option 110 absent)
  pub letter : ℕ
  pub has_path : Dict.lookup path parser ≡ some (required_option letter store)

pub upload_parser-IsClientParser : IsClientParser src upload_parser
unfolding upload_parser set_client_args set_file_name set_protocol set_logger_args
    set_connection_args Dict.lookup Dict.insert dest_eq
upload_parser-IsClientParser = record {
  has_verbose = refl;
  has_quiet = refl;
  has_host = refl;
  has_port = refl;
  has_protocol = refl;
  has_name = refl;
  letter = 115;
  has_path = refl;
}

pub download_parser-IsClientParser : IsClientParser dst download_parser
unfolding download_parser set_client_args set_file_name set_protocol set_logger_args
    set_connection_args Dict.lookup Dict.insert dest_eq
download_parser-IsClientParser = record {
  has_verbose = refl;
  has_quiet = refl;
  has_host = refl;
  has_port = refl;
  has_protocol = refl;
  has_name = refl;
  letter = 100;
  has_path = refl;
}
