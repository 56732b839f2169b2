-- ===== src/Programs/Asking.antt =====
-- The client programs do what the last options on the command line ask for.
use fiuba_redes.CommandLine.{exclusive_flag, required_option, upload_parser}
use fiuba_redes.CommandLine.Accepting.{Namespaces, parse_args-Namespaces}
use fiuba_redes.CommandLine.Latest.{last_value, parse_args-lookup}
use fiuba_redes.CommandLine.Options.{
  Dest, verbose, quiet, host, port, protocol, name, src, Kind, Namespace, ArgumentParser, Given,
  parse_args, dest_eq,
}
use fiuba_redes.CommandLine.Typing.{IsTyped}
use fiuba_redes.Common.{
  ℕ, ◌≡◌, ◌⊎◌, inl, inr, refl, sym, ap, ◌∙◌, arith, Bool, true, false, ◌&&◌, Option, Option-cases,
  none, some, List, [],
}
use fiuba_redes.Common.Dict
use fiuba_redes.Common.Dict.{Dict}
use fiuba_redes.Constants.{op_type_upload}
use fiuba_redes.Client
use fiuba_redes.Endpoint.{Endpoint}
use fiuba_redes.Exceptions.{Result, ok, raise, system_exit}
use fiuba_redes.File.{text_eq}
use fiuba_redes.File
use fiuba_redes.Logging.{Logging, client, configure}
use fiuba_redes.Method.{M}
use fiuba_redes.Packet.{Bytes}
use fiuba_redes.Programs.{start_client, transfer, upload_named, upload_main}
use fiuba_redes.Programs.Starting.{read_flag-IsTyped, IsClientParser, upload_parser-IsClientParser}
use fiuba_redes.Runtime.{Text, ℤ, Runtime}
use mathlib.Core.Path.{subst}
use fiuba_redes.Programs.Asked.{
  is_given, text_given, object_asked, asked_flag, asked_text, asked_port, asked_name,
  asked_protocol, verbose-ne-quiet, connect_cases, ok_flag,
}

-- What a client's program does when its line is accepted, read off the line.
pub record Asks (r : Runtime) (parser : ArgumentParser) (path : Dest) (line : List Given)
    : Type 0 where
  pub file_path : Text
  pub server_host : Text
  pub digits : Text
  pub server_port : ℤ
  pub path_last : last_value parser path line ≡ some (some file_path)
  pub host_last : last_value parser host line ≡ some (some server_host)
  pub port_last : last_value parser port line ≡ some (some digits)
  pub port_read : r.int digits ≡ some server_port

module _ (r : Runtime) (connect : Text → ℤ → Result (Unit {0})) (parser : ArgumentParser)
    (path : Dest) (op_type : ℕ) (line : List Given) (disk : Dict Text Bytes)
    (logging : Logging) where
  -- The logging by the flags, and the endpoint that is made if the socket connects.
  abbrev pub configured : Logging
  configured =
      configure (is_given (last_value parser verbose line))
        (is_given (last_value parser quiet line)) client logging

  abbrev outcome :
      Asks r parser path line → Result (Unit {0}) → Result (Endpoint × Text × Option Text) × Logging
  outcome asks (raise e) = (raise e, configured)
  outcome asks (ok u) = (
    ok (
      record {
        protocol = object_asked op_type (text_given (last_value parser protocol line));
        file_handler = File.init disk;
        sent = [];
      },
      asks.file_path,
      text_given (last_value parser name line),
    ),
    configured,
  )

  abbrev pub started : Asks r parser path line → Result (Endpoint × Text × Option Text) × Logging
  started asks = outcome asks (connect asks.server_host asks.server_port)

  abbrev pub Answers : Result (Endpoint × Text × Option Text) × Logging → Type 0
  Answers x =
      ((parse_args r parser line ≡ none) × (x ≡ (raise system_exit, logging)))
      ⊎ ((asks : Asks r parser path line) × (is_given (last_value parser verbose line)
              && is_given (last_value parser quiet line)
            ≡ false)
          × (x ≡ started asks))

  start_client-Answers :
      IsClientParser path parser
      → Answers (start_client r connect parser path op_type line disk logging)
  unfolding start_client
  start_client-Answers has = elim (Option-cases (parse_args r parser line)) [
    | inl refused ↦ inl (refused, rw refused refl)
    | inr (args, accepted) ↦
        let ns = parse_args-Namespaces r parser line args accepted in
        let is_verbose =
          asked_flag r 118 (ns.given verbose) (last_value parser verbose line)
            (Dict.lookup verbose args) (ns.typed verbose _ has.has_verbose)
            (parse_args-lookup r parser verbose _ has.has_verbose line args accepted) in
        let is_quiet =
          asked_flag r 113 (ns.given quiet) (last_value parser quiet line) (Dict.lookup quiet args)
            (ns.typed quiet _ has.has_quiet)
            (parse_args-lookup r parser quiet _ has.has_quiet line args accepted) in
        let (chosen, is_protocol, made) =
          asked_protocol r op_type (ns.given protocol) (last_value parser protocol line)
            (Dict.lookup protocol args) (ns.typed protocol _ has.has_protocol)
            (parse_args-lookup r parser protocol _ has.has_protocol line args accepted) in
        let (own_host, host_last, is_host) =
          asked_text r 72 (last_value parser host line) (Dict.lookup host args)
            (needed ns host has.has_host)
            (parse_args-lookup r parser host _ has.has_host line args accepted) in
        let (digits, own_port, port_last, port_read, is_port) =
          asked_port r 112 (last_value parser port line) (Dict.lookup port args)
            (needed ns port has.has_port)
            (parse_args-lookup r parser port _ has.has_port line args accepted) in
        let (file_path, path_last, is_path) =
          asked_text r has.letter (last_value parser path line) (Dict.lookup path args)
            (needed ns path has.has_path)
            (parse_args-lookup r parser path _ has.has_path line args accepted) in
        let is_name =
          asked_name r 110 (ns.given name) (last_value parser name line) (Dict.lookup name args)
            (ns.typed name _ has.has_name)
            (parse_args-lookup r parser name _ has.has_name line args accepted) in
        let one =
          ns.exclusive verbose quiet (exclusive_flag 118) (exclusive_flag 113) has.has_verbose
            has.has_quiet refl refl verbose-ne-quiet in
        let same_verbose = ap ok_flag (
          sym (
            read_flag-IsTyped 118 (ns.given verbose) (Dict.lookup verbose args)
              (ns.typed verbose _ has.has_verbose))
          ∙ is_verbose) in
        let same_quiet = ap ok_flag (
          sym (
            read_flag-IsTyped 113 (ns.given quiet) (Dict.lookup quiet args)
              (ns.typed quiet _ has.has_quiet))
          ∙ is_quiet) in
        let asks : Asks r parser path line = record {
          file_path = file_path;
          server_host = own_host;
          digits = digits;
          server_port = own_port;
          path_last = path_last;
          host_last = host_last;
          port_last = port_last;
          port_read = port_read;
        } in
        inr (
          asks,
          ground (arith, one, same_verbose, same_quiet),
          elim (connect_cases (connect own_host own_port)) [
            | inl (problem, failed) ↦
                let e : start_client r connect parser path op_type line disk logging
                    ≡ outcome asks (raise problem) =
                  rw (accepted, is_verbose, is_quiet, is_protocol, is_host, is_port, failed) refl in
                e ∙ sym (ap (outcome asks) failed)
            | inr connected ↦
                let e : start_client r connect parser path op_type line disk logging
                    ≡ outcome asks (ok tt) =
                  rw
                    (
                      accepted, is_verbose, is_quiet, is_protocol, is_host, is_port, connected,
                      made, is_path, is_name,
                    )
                    refl in
                e ∙ sym (ap (outcome asks) connected)
          ],
        )
  ]
    where
      needed :
          {args : Namespace} {short : ℕ} {kind : Kind}
          → (ns : Namespaces parser args) (attr : Dest)
          → Dict.lookup attr parser ≡ some (required_option short kind)
          → IsTyped (required_option short kind) true (Dict.lookup attr args)
      needed {args} {short} {kind} ns attr there =
          subst (λ (b : Bool). IsTyped (required_option short kind) b (Dict.lookup attr args))
            (ns.needed attr (required_option short kind) there refl)
            (ns.typed attr (required_option short kind) there)

module _ (r : Runtime) (connect : Text → ℤ → Result (Unit {0})) (join : Text → Text)
    (line : List Given) (inputs : List Client.Input) (disk : Dict Text Bytes)
    (logging : Logging) where
  -- The upload program, on every command line: either argparse refuses the line, and the
  -- program exits with the logging as it was; or the last --src, --host and --port of the line
  -- have a text, that of --port is a number, --verbose and --quiet are not both given, the
  -- logging is configured by which of them is, and the socket is connected to that host and
  -- port. If that raises, the program ends with the exception; if not, it transfers the file at
  -- the path of the last --src, under the name of the last --name or under none, with a new
  -- protocol object, which is stop and wait if the last --protocol names it and selective
  -- repeat otherwise.
  pub upload_main_asked :
      let x = upload_main r connect join line inputs disk logging in
      let method : Text → Option Text → M Endpoint (Unit {0}) =
        λ path save_name. upload_named r join path save_name inputs in
      ((parse_args r upload_parser line ≡ none) × (x ≡ (raise system_exit, none, logging)))
      ⊎ ((asks : Asks r upload_parser src line) × (is_given (last_value upload_parser verbose line)
              && is_given (last_value upload_parser quiet line)
            ≡ false)
          × (x
              ≡ transfer r connect method
                  (started r connect upload_parser src op_type_upload line disk logging asks)))
  unfolding upload_main
  upload_main_asked =
      elim (start_client-Answers r connect upload_parser src op_type_upload line disk logging
        upload_parser-IsClientParser) [
          | inl (refused, e) ↦ inl (
            refused,
            ap (transfer r connect (λ path save_name. upload_named r join path save_name inputs)) e,
          )
          | inr (asks, one, e) ↦ inr (
            asks,
            one,
            ap (transfer r connect (λ path save_name. upload_named r join path save_name inputs)) e,
          )
        ]
