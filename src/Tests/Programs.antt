-- ===== src/Tests/Programs.antt =====
-- The programs on a command line that argparse accepts, and on some that it refuses.
use fiuba_redes.CommandLine.{
  set_logger_args, set_connection_args, set_protocol, set_file_name, set_client_args, upload_parser,
}
use fiuba_redes.CommandLine.Options.{
  verbose, quiet, protocol, src, dest_eq, Given, by_short, by_long, dest_of, is_among, convert,
  is_seen, has_conflict, store_value, take_dest, take_option, take_options, defaults, has_required,
  parse_args,
}
use fiuba_redes.CommandLine.Latest.{last_value}
use fiuba_redes.Common.{◌≡◌, ◌⊎◌, refl, ℕ_discrete, false, ◌&&◌, Option, none, some, List, [], ◌∷◌}
use fiuba_redes.Common.Dict
use fiuba_redes.Constants.{op_type_upload, stop_and_wait_name}
use fiuba_redes.Endpoint.{Endpoint}
use fiuba_redes.Exceptions.{Result, ok, raise, system_exit}
use fiuba_redes.Logging.{unconfigured}
use fiuba_redes.Method.{M}
use fiuba_redes.Programs.{transfer, upload_named, upload_main}
use fiuba_redes.Programs.Asked.{is_given}
use fiuba_redes.Programs.Asking.{Asks, started, upload_main_asked}
use fiuba_redes.File.{text_eq}
use fiuba_redes.Runtime.{Text, ℤ}
use fiuba_redes.Tests.Packets.{runtime}
use fiuba_redes.Tests.Server.{storage}

abbrev word : Text
word = 97 ∷ []

-- upload -v -H a -p a --src a -n a -r stop_and_wait
abbrev line : List Given
line =
    by_short 118 none
    ∷ by_short 72 (some word)
    ∷ by_short 112 (some word)
    ∷ by_long src (some word)
    ∷ by_short 110 (some word)
    ∷ by_short 114 (some stop_and_wait_name)
    ∷ []

-- A socket that connects.
abbrev connects : Text → ℤ → Result (Unit {0})
connects own_host own_port = ok tt

upload_main_asked_example :
    let x = upload_main runtime connects storage line [] [] unconfigured in
    let method : Text → Option Text → M Endpoint (Unit {0}) =
      λ path save_name. upload_named runtime storage path save_name [] in
    ((parse_args runtime upload_parser line ≡ none) × (x ≡ (raise system_exit, none, unconfigured)))
    ⊎ ((asks : Asks runtime upload_parser src line) × (is_given
              (last_value upload_parser verbose line)
            && is_given (last_value upload_parser quiet line)
          ≡ false)
        × (x
            ≡ transfer runtime connects method (
                started runtime connects upload_parser src op_type_upload line [] unconfigured
                  asks)))
upload_main_asked_example = upload_main_asked runtime connects storage line [] [] unconfigured

-- Both flags, no port, and another protocol.
refused_flags : parse_args runtime upload_parser (by_long quiet none ∷ line) ≡ none
unfolding parse_args take_options take_option take_dest store_value has_conflict is_seen convert
    is_among dest_of defaults has_required upload_parser set_client_args set_file_name set_protocol
    set_logger_args set_connection_args Dict.lookup Dict.insert dest_eq text_eq ℕ_discrete
refused_flags = refl

refused_port :
    parse_args runtime upload_parser (by_short 72 (some word) ∷ by_long src (some word) ∷ []) ≡ none
unfolding parse_args take_options take_option take_dest store_value has_conflict is_seen convert
    is_among dest_of defaults has_required upload_parser set_client_args set_file_name set_protocol
    set_logger_args set_connection_args Dict.lookup Dict.insert dest_eq text_eq ℕ_discrete
refused_port = refl

refused_protocol : parse_args runtime upload_parser (by_long protocol (some word) ∷ line) ≡ none
unfolding parse_args take_options take_option take_dest store_value has_conflict is_seen convert
    is_among dest_of defaults has_required upload_parser set_client_args set_file_name set_protocol
    set_logger_args set_connection_args Dict.lookup Dict.insert dest_eq text_eq ℕ_discrete
refused_protocol = refl
