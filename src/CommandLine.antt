-- ===== src/CommandLine.antt =====
-- tp1/src/lib/common/cli.py: the options of the three programs. The texts for the user are left out.
pub mod Options
pub mod Typing
pub mod Accepting
pub mod Latest
use fiuba_redes.Common.{ℕ, true, false, [], ◌∷◌}
use fiuba_redes.Common.Dict
use fiuba_redes.CommandLine.Options.{
  Dest, verbose, quiet, host, port, protocol, name, dst, src, storage, Value, flag, text, absent,
  Kind, store_true, store_int, store, Argument, ArgumentParser, dest_eq,
}
use fiuba_redes.Constants.{stop_and_wait_name, selective_repeat_name}
use fiuba_redes.Runtime.{Text}

abbrev pub optional_option : ℕ → Value → Argument
optional_option short default = record {
  short = short;
  kind = store;
  required = false;
  choices = [];
  default = default;
  exclusive = false;
}

abbrev pub required_option : ℕ → Kind → Argument
required_option short kind = record {
  short = short;
  kind = kind;
  required = true;
  choices = [];
  default = absent;
  exclusive = false;
}

-- A flag of `add_mutually_exclusive_group`.
abbrev pub exclusive_flag : ℕ → Argument
exclusive_flag short = record {
  short = short;
  kind = store_true;
  required = false;
  choices = [];
  default = flag false;
  exclusive = true;
}

-- `parser.add_argument`
abbrev pub add_argument : Dest → Argument → ArgumentParser → ArgumentParser
add_argument = Dict.insert

-- The letters: v, q.
unfoldable pub set_logger_args : ArgumentParser → ArgumentParser
set_logger_args parser =
    add_argument quiet (exclusive_flag 113) (add_argument verbose (exclusive_flag 118) parser)

-- H, p.
unfoldable pub set_connection_args : ArgumentParser → ArgumentParser
set_connection_args parser =
    add_argument port (required_option 112 store_int)
      (add_argument host (required_option 72 store) parser)

-- r.
unfoldable pub set_protocol : ArgumentParser → ArgumentParser
set_protocol = add_argument protocol (record (optional_option 114 (text selective_repeat_name)) {
  choices = stop_and_wait_name ∷ selective_repeat_name ∷ [];
})

-- n.
unfoldable pub set_file_name : ArgumentParser → ArgumentParser
set_file_name = add_argument name (optional_option 110 absent)

abbrev pub create_parser : ArgumentParser
create_parser = []

unfoldable pub set_client_args : ArgumentParser → ArgumentParser
set_client_args parser = set_file_name (set_protocol (set_logger_args (set_connection_args parser)))

-- d.
unfoldable pub download_parser : ArgumentParser
download_parser = add_argument dst (required_option 100 store) (set_client_args create_parser)

-- s.
unfoldable pub upload_parser : ArgumentParser
upload_parser = add_argument src (required_option 115 store) (set_client_args create_parser)

-- "./storage".
abbrev pub default_storage : Text
default_storage = 46 ∷ 47 ∷ 115 ∷ 116 ∷ 111 ∷ 114 ∷ 97 ∷ 103 ∷ 101 ∷ []

unfoldable pub server_parser : ArgumentParser
server_parser =
    add_argument storage (optional_option 115 (text default_storage))
      (set_logger_args (set_connection_args create_parser))
