-- ===== src/Logging.antt =====
-- tp1/src/lib/common/logger.py: the configuration of Python's logging, which the class Logger does
-- once. A logger only passes on what it is told, so its messages are kept for the first one alone.
use fiuba_redes.Common.{
  Bool, true, false, not, ◌&&◌, Option, none, some, List, [], ◌∷◌, if◌then◌else◌,
}

pub data Level : Type 0 where
  debug info : Level

-- Who configures: the names "CLIENT" and "SERVER".
pub data Role : Type 0 where
  client server app : Role

-- A handler of the root logger: the one that writes to the standard output, or another's.
pub data Handler : Type 0 where
  stdout foreign : Handler

-- The class attribute `_configured`, the root logger's level and handlers, and the first message.
pub record Logging : Type 0 where
  pub configured : Bool
  pub level : Option Level
  pub handlers : List Handler
  pub announced : Option (Role × Bool)

-- `Logger.configure`
unfoldable pub configure : Bool → Bool → Role → Logging → Logging
configure verbose quiet role s = if s.configured then s else record {
  configured = true;
  level = some (if verbose && not quiet then debug else info);
  handlers = stdout ∷ [];
  announced = some (role, verbose);
}

-- Before the first call.
abbrev pub unconfigured : Logging
unconfigured = record { configured = false; level = none; handlers = []; announced = none }
