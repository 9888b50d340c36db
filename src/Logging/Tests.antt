-- ===== src/Logging/Tests.antt =====
-- Some `SET` statements, and an event without a file.
use duckdb_delta.Logging.{Event, warn_level, LogLevel, log_warn, LogMessage, other_level}
use duckdb_delta.Logging.Shared.{Filter, Action, load, close, kernel_event, act_all, start}
use duckdb_delta.Logging.Owner.{next_owner, outcome, HasOutcome, act_all-outcome}
use duckdb_delta.Prelude.{
  ◌≡◌, refl, true, false, none, some, List, [], ◌∷◌, Str, codes, ok, not, ◌==◌,
}
use duckdb_delta.Logging.{callback_event, initially}
use duckdb_delta.Logging.Traced.{set_all, set_all-tracing}

logs :
    callback_event true
      (record { message = codes "m"; level = warn_level; target = codes "k"; line = 3; file = [] })
    ≡ ok (
        some
          (log_warn, record { target = codes "k"; message = codes "m"; file = none; line = none }))
unfolding callback_event
logs = refl

set_all-tracing_runs :
    ((set_all (false ∷ true ∷ false ∷ true ∷ []) initially).setting ≡ true)
    × ((set_all (false ∷ true ∷ false ∷ true ∷ []) initially).tracing ≡ 1)
set_all-tracing_runs = set_all-tracing (false ∷ true ∷ false ∷ true ∷ [])

abbrev event_of : Str → Event
event_of m = record {
  message = m;
  level = warn_level;
  target = codes "kernel";
  line = 0;
  file = [];
}

-- Two databases, of which the first is closed: the second event is dropped, also where the second database
-- is live, and the third goes to the next one that is loaded.
abbrev actions : List Action
actions =
    load 1
    ∷ load 2
    ∷ kernel_event (event_of (codes "a"))
    ∷ close 1
    ∷ kernel_event (event_of (codes "b"))
    ∷ load 3
    ∷ kernel_event (event_of (codes "c"))
    ∷ []

abbrev warned : Str → LogLevel × LogMessage
warned m = (log_warn, record { target = codes "kernel"; message = m; file = none; line = none })

-- The third database takes no warnings.
abbrev should_log : Filter
should_log d level = not (d == 3)

act_all-outcome_example :
    HasOutcome []
      (record { log = (1, warned (codes "a")) ∷ []; owner = some 3; threw = false })
      (act_all should_log actions start)
unfolding outcome next_owner
act_all-outcome_example = act_all-outcome should_log actions

-- An event of an unknown level ends the run.
abbrev odd_event : Event
odd_event = record (event_of (codes "odd")) { level = other_level }

odd_level_throws :
    HasOutcome []
      (record { log = []; owner = some 1; threw = true })
      (act_all should_log
        (load 1 ∷ kernel_event odd_event ∷ kernel_event (event_of (codes "a")) ∷ [])
        start)
unfolding outcome next_owner
odd_level_throws =
    act_all-outcome should_log
      (load 1 ∷ kernel_event odd_event ∷ kernel_event (event_of (codes "a")) ∷ [])
