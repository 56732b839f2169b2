-- ===== src/Programs.antt =====
-- tp1/src/upload.py, download.py and start-server.py: the programs, from the command line on. Reading
-- an attribute that the namespace has not, or not with the type that is used, is an exception.
pub mod Starting
pub mod Asked
pub mod Asking
use fiuba_redes.Client
use fiuba_redes.CommandLine.{download_parser, upload_parser, server_parser}
use fiuba_redes.CommandLine.Options.{
  Dest, verbose, quiet, host, port, protocol, name, dst, src, storage, Value, flag, text, number,
  absent, Namespace, ArgumentParser, Given, parse_args, dest_eq,
}
use fiuba_redes.Common.{ℕ, Bool, Option, none, some, List, ◌==◌, [], if◌then◌else◌}
use fiuba_redes.Common.Dict
use fiuba_redes.Common.Dict.{Dict}
use fiuba_redes.Constants.{
  op_type_upload, op_type_download, stop_and_wait_name, selective_repeat_name,
}
use fiuba_redes.Endpoint.{Endpoint, on_file}
use fiuba_redes.Exceptions.{Result, ok, raise, attribute_error, type_error, system_exit}
use fiuba_redes.Factory.{
  Choice, choose_stop_and_wait, choose_selective_repeat, named, create_protocol,
}
use fiuba_redes.File.{text_eq, open_for_read, open_for_write, size}
use fiuba_redes.File
use fiuba_redes.Logging.{Logging, Role, client, server, configure}
use fiuba_redes.Method.{M, ◌>>=◌, ◌>>◌, return, fail, self, update, call}
use fiuba_redes.Packet.{Bytes}
use fiuba_redes.Runtime.{Text, ℤ, Runtime}

abbrev pub read_flag : Option Value → Result Bool
read_flag (some (flag b)) = ok b
read_flag none = raise attribute_error
read_flag (some _) = raise type_error

abbrev pub read_text : Option Value → Result Text
read_text (some (text t)) = ok t
read_text none = raise attribute_error
read_text (some _) = raise type_error

abbrev pub read_port : Option Value → Result ℤ
read_port (some (number z)) = ok z
read_port none = raise attribute_error
read_port (some _) = raise type_error

-- `args.name`, which may be None.
abbrev pub read_name : Option Value → Result (Option Text)
read_name (some (text t)) = ok (some t)
read_name (some absent) = ok none
read_name none = raise attribute_error
read_name (some _) = raise type_error

-- The name of a protocol as a constructor of Choice.
unfoldable pub choice_of : Text → Choice
choice_of t =
    if t == stop_and_wait_name
    then choose_stop_and_wait
    else if t == selective_repeat_name
    then choose_selective_repeat
    else named t

abbrev pub accepted_args : Option Namespace → Result Namespace
accepted_args (some args) = ok args
accepted_args none = raise system_exit

-- `upload_file(path, None)` and `download_file(path, None)` fail at `filename.encode()`, in `syn`.
unfoldable pub upload_named :
    Runtime → (Text → Text) → Text → Option Text → List Client.Input → M Endpoint (Unit {0})
upload_named r join path (some save_name) inputs =
    Client.upload_file r join op_type_upload path save_name inputs
upload_named r join path none inputs = do
  on_file (open_for_read join (some path))
  e ← self
  filesize ← call (size e.file_handler)
  fail attribute_error

unfoldable pub download_named :
    Runtime → (Text → Text) → Text → Option Text → List Client.Input → M Endpoint (Unit {0})
download_named r join path (some remote) inputs =
    Client.download_file r join op_type_download path remote inputs
download_named r join path none inputs = do on_file (open_for_write join path); fail attribute_error

-- What `main` does before the transfer; `path` is `src` or `dst`. `connect` is what `start_socket` gives:
-- nothing, or the exception of the socket for that host and port.
module _ (r : Runtime) (connect : Text → ℤ → Result (Unit {0})) where
  unfoldable pub start_client :
      ArgumentParser
      → Dest
      → ℕ
      → List Given
      → Dict Text Bytes
      → M Logging (Endpoint × Text × Option Text)
  start_client parser path op_type line disk = do
    args ← call (accepted_args (parse_args r parser line))
    is_verbose ← call (read_flag (Dict.lookup verbose args))
    is_quiet ← call (read_flag (Dict.lookup quiet args))
    update (configure is_verbose is_quiet client)
    chosen ← call (read_text (Dict.lookup protocol args))
    server_host ← call (read_text (Dict.lookup host args))
    server_port ← call (read_port (Dict.lookup port args))
    call (connect server_host server_port)
    made ← call (create_protocol (choice_of chosen) op_type)
    file_path ← call (read_text (Dict.lookup path args))
    file_name ← call (read_name (Dict.lookup name args))
    return
        (record { protocol = made; file_handler = File.init disk; sent = [] }, file_path, file_name)

  -- The end of a client program: the exception, if there is one, and the endpoint that was made.
  abbrev pub transfer :
      (Text → Option Text → M Endpoint (Unit {0}))
      → Result (Endpoint × Text × Option Text) × Logging
      → Result (Unit {0}) × Option Endpoint × Logging
  transfer method (raise e, logging) = (raise e, none, logging)
  transfer method (ok (endpoint, path, save_name), logging) =
      let (result, e) = method path save_name endpoint in (result, some e, logging)

  module _ (join : Text → Text) (line : List Given) (inputs : List Client.Input)
      (disk : Dict Text Bytes) (logging : Logging) where
    unfoldable pub upload_main : Result (Unit {0}) × Option Endpoint × Logging
    upload_main =
        transfer (λ path save_name. upload_named r join path save_name inputs)
          (start_client upload_parser src op_type_upload line disk logging)

    unfoldable pub download_main : Result (Unit {0}) × Option Endpoint × Logging
    download_main =
        transfer (λ path save_name. download_named r join path save_name inputs)
          (start_client download_parser dst op_type_download line disk logging)

  -- `start-server.py`: the arguments of `Server`.
  unfoldable pub server_main : List Given → M Logging (Text × Text × ℤ)
  server_main line = do
    args ← call (accepted_args (parse_args r server_parser line))
    is_verbose ← call (read_flag (Dict.lookup verbose args))
    is_quiet ← call (read_flag (Dict.lookup quiet args))
    update (configure is_verbose is_quiet server)
    directory ← call (read_text (Dict.lookup storage args))
    own_host ← call (read_text (Dict.lookup host args))
    own_port ← call (read_port (Dict.lookup port args))
    return (directory, own_host, own_port)
