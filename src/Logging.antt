-- ===== src/Logging.antt =====
-- `LoggerCallback` (delta_utils.cpp) and `DeltaKernelLogType` (delta_log_types.cpp): the kernel's events as
-- DuckDB's log, and the setting `delta_kernel_logging`.
pub mod Traced
pub mod Shared
pub mod Owner
mod Tests
use duckdb_delta.Prelude.{
  ℕ, suc, Bool, true, false, not, ◌&&◌, Option, none, some, List, [], ◌∷◌, Str, codes, is_empty,
  Result, ok, err, throw, internal, invalid_input, ◌++◌, ◌>>=◌, ◌>>◌, if◌then◌else◌,
}

-- `ffi::Level`; a value outside the enumeration is `other_level`.
pub data Level : Type 0 where
  error_level warn_level info_level debugging_level trace_level other_level : Level

-- DuckDB's `LogLevel`.
pub data LogLevel : Type 0 where
  log_trace log_debug log_info log_warn log_error : LogLevel

-- `GetDuckDBLogLevel`.
unfoldable pub get_duckdb_log_level : Level → Result LogLevel
get_duckdb_log_level trace_level = ok log_trace
get_duckdb_log_level debugging_level = ok log_debug
get_duckdb_log_level info_level = ok log_info
get_duckdb_log_level warn_level = ok log_warn
get_duckdb_log_level error_level = ok log_error
get_duckdb_log_level other_level = throw internal (codes "Unknown log level")

-- `ffi::Event`.
pub record Event : Type 0 where
  pub message : Str
  pub level : Level
  pub target : Str
  pub line : ℕ
  pub file : Str

-- The fields of a message: the file and the line only where there is a file.
pub record LogMessage : Type 0 where
  pub target : Str
  pub message : Str
  pub file : Option Str
  pub line : Option ℕ

-- `ConstructLogMessage`, before the structure is printed.
unfoldable pub construct_log_message : Event → LogMessage
construct_log_message event = record {
  target = event.target;
  message = event.message;
  file = if is_empty event.file then none else some event.file;
  line = if is_empty event.file then none else some event.line;
}

-- `CallbackEvent`: what is logged, if the database is still there.
unfoldable pub callback_event : Bool → Event → Result (Option (LogLevel × LogMessage))
unfolding get_duckdb_log_level construct_log_message
callback_event false event = ok none
callback_event true event = do
  level ← get_duckdb_log_level event.level
  ok (some (level, construct_log_message event))

-- The current setting, which is false at first, and how often `enable_event_tracing` was called.
pub record LoggingState : Type 0 where
  pub setting : Bool
  pub tracing : ℕ

abbrev pub initially : LoggingState
initially = record { setting = false; tracing = 0 }

abbrev refuse : Bool → Bool → Result (Unit {0})
refuse current parameter =
    if current && not parameter
    then throw invalid_input (
        codes "Can not disable 'delta_kernel_logging' after enabling it. You can disable DuckDB "
        ++ (codes "logging with SET enable_logging=false, but there will still be some performance "
            ++ (codes "overhead from 'delta_kernel_logging'"
                ++ codes "that can only be mitigated by restarting DuckDB")))
    else ok tt

-- `DuckDBSettingCallBack`, where the setting is registered; the new value is written after it.
unfoldable pub setting_callback : Bool → LoggingState → Result LoggingState
setting_callback parameter s = do
  refuse s.setting parameter
  ok (if not s.setting && parameter then record s { tracing = suc s.tracing } else s)
