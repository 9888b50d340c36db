-- ===== src/Logging/Shared.antt =====
-- The one `LoggerCallback` of a process, `GetInstance`, which several databases share: `Initialize`, and
-- `CallbackEvent` with the weak pointer.
use duckdb_delta.Prelude.{
  ℕ, ◌==◌, Bool, true, false, Option, none, some, List, [], ◌∷◌, ◌++◌, ErrorData, Result, ok, err,
  if◌then◌else◌,
}
use duckdb_delta.Logging.{Event, LogLevel, LogMessage, callback_event}

-- What a database is told.
abbrev pub Entry : Type 0
Entry = ℕ × (LogLevel × LogMessage)

-- The databases are numbers; a weak pointer is expired once its database is no longer live.
pub record Process : Type 0 where
  pub db : Option ℕ
  pub live : ℕ → Bool
  pub log : List Entry

unfoldable pub start : Process
start = record { db = none; live = λ d. false; log = [] }

-- `db.lock()`; `db.expired()` is that this is null.
abbrev pub lock : Option ℕ → (ℕ → Bool) → Option ℕ
lock none live = none
lock (some d) live = if live d then some d else none

abbrev pub or_new : Option ℕ → ℕ → Option ℕ → Option ℕ
or_new none d db = some d
or_new (some c) d db = db

abbrev pub set_live : ℕ → Bool → (ℕ → Bool) → ℕ → Bool
set_live d b live c = if d == c then b else live c

-- `Initialize`, when the extension is loaded into a database.
unfoldable pub initialize : ℕ → Process → Process
initialize d p = record p { db = or_new (lock p.db p.live) d p.db; live = set_live d true p.live }

unfoldable pub close_database : ℕ → Process → Process
close_database d p = record p { live = set_live d false p.live }

-- DuckDB's log filter: whether a database takes an entry of the kernel's type with this level.
abbrev pub Filter : Type 0
Filter = ℕ → LogLevel → Bool

abbrev pub is_there : Option ℕ → Bool
is_there none = false
is_there (some d) = true

-- What an exception leaves behind beside the process.
abbrev pub thrown : {A : Type 0} → Result A → Option ErrorData
thrown (ok a) = none
thrown (err e) = some e

-- `DUCKDB_LOG_INTERNAL` on the locked database, with what `CallbackEvent` hands it.
abbrev pub logged :
    Filter
    → Option ℕ
    → Result (Option (LogLevel × LogMessage))
    → Process
    → Process × Option ErrorData
logged should_log (some d) (ok (some (level, m))) p =
    (if should_log d level then record p { log = p.log ++ (d, (level, m)) ∷ [] } else p, none)
logged should_log db r p = (p, thrown r)

-- `CallbackEvent`; an exception leaves the log as it is.
unfoldable pub log_event : Filter → Event → Process → Process × Option ErrorData
unfolding callback_event
log_event should_log event p =
    let db = lock p.db p.live in logged should_log db (callback_event (is_there db) event) p

pub data Action : Type 0 where
  load close : ℕ → Action
  kernel_event : Event → Action

unfoldable pub act : Filter → Action → Process → Process × Option ErrorData
unfolding initialize close_database log_event
act should_log (load d) p = (initialize d p, none)
act should_log (close d) p = (close_database d p, none)
act should_log (kernel_event event) p = log_event should_log event p

abbrev pub unless_thrown :
    (Process → Process × Option ErrorData) → Process × Option ErrorData → Process × Option ErrorData
unless_thrown next (p, none) = next p
unless_thrown next (p, some e) = (p, some e)

-- Actions one after the other, up to the first exception.
unfoldable pub act_all : Filter → List Action → Process → Process × Option ErrorData
unfolding act
act_all should_log [] p = (p, none)
act_all should_log (a ∷ rest) p = unless_thrown (act_all should_log rest) (act should_log a p)
