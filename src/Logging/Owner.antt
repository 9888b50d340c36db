-- ===== src/Logging/Owner.antt =====
-- To which database the kernel's events go and what is logged of them, told without a pointer.
use mathlib.Core.Path.{subst}
use mathlib.Core.List.{append-nil, append_assoc}
use duckdb_delta.Prelude.{
  ℕ, ◌==◌, ◌≡◌, ◌∙◌, inl, inr, refl, sym, ap, Bool, Bool-cases, true, false, Option, none, some,
  List, [], ◌∷◌, ◌++◌, ErrorData, Str, Result, ok, err, if◌then◌else◌, arith, ◌>>=◌,
}
use duckdb_delta.Logging.{
  Level, error_level, warn_level, info_level, debugging_level, trace_level, other_level, LogLevel,
  log_trace, log_debug, log_info, log_warn, log_error, Event, LogMessage, callback_event,
  get_duckdb_log_level, construct_log_message,
}
use duckdb_delta.Logging.Shared.{
  initialize, close_database, Entry, Process, Filter, start, lock, or_new, set_live, log_event,
  logged, is_there, Action, load, close, kernel_event, act, act_all, unless_thrown,
}

-- The database that owns the log takes it when none owns it, and gives it up when it is closed.
unfoldable pub next_owner : Action → Option ℕ → Option ℕ
next_owner (load d) none = some d
next_owner (load d) (some c) = some c
next_owner (close d) none = none
next_owner (close d) (some c) = if d == c then none else some c
next_owner (kernel_event event) o = o

-- The level under which an event is logged; a level outside the enumeration has none.
abbrev pub known_level : Level → Option LogLevel
known_level error_level = some log_error
known_level warn_level = some log_warn
known_level info_level = some log_info
known_level debugging_level = some log_debug
known_level trace_level = some log_trace
known_level other_level = none

-- The target and the text of an event, and its place if it has a file.
abbrev pub message_in : Str → Event → LogMessage
message_in [] event = record {
  target = event.target;
  message = event.message;
  file = none;
  line = none;
}
message_in (c ∷ s) event = record {
  target = event.target;
  message = event.message;
  file = some (c ∷ s);
  line = some event.line;
}

abbrev pub message_of : Event → LogMessage
message_of event = message_in event.file event

-- What is logged of an event under the owner of the log, where its level is known.
abbrev pub entries : Filter → ℕ → LogLevel → Event → List Entry
entries should_log d level event =
    if should_log d level then (d, (level, message_of event)) ∷ [] else []

-- What a run of actions logs, who owns the log at its end, and whether it was ended by an exception.
pub record Outcome : Type 0 where
  pub log : List Entry
  pub owner : Option ℕ
  pub threw : Bool

abbrev before : List Entry → Outcome → Outcome
before es r = record r { log = es ++ r.log }

abbrev with_event : Filter → Event → ℕ → Option LogLevel → Outcome → Outcome
with_event should_log event d none rest = record { log = []; owner = some d; threw = true }
with_event should_log event d (some level) rest = before (entries should_log d level event) rest

abbrev event_of : Filter → Event → Option ℕ → Outcome → Outcome
event_of should_log event none rest = rest
event_of should_log event (some d) rest =
    with_event should_log event d (known_level event.level) rest

unfoldable pub outcome : Filter → List Action → Option ℕ → Outcome
unfolding next_owner
outcome should_log [] o = record { log = []; owner = o; threw = false }
outcome should_log (load d ∷ rest) o = outcome should_log rest (next_owner (load d) o)
outcome should_log (close d ∷ rest) o = outcome should_log rest (next_owner (close d) o)
outcome should_log (kernel_event event ∷ rest) o =
    event_of should_log event o (outcome should_log rest o)

lock-load :
    (d : ℕ) (db : Option ℕ) (live : ℕ → Bool)
    → lock (or_new (lock db live) d db) (set_live d true live) ≡ next_owner (load d) (lock db live)
unfolding next_owner
lock-load d none live = ground arith
lock-load d (some c) live = ground arith

lock-close :
    (d : ℕ) (db : Option ℕ) (live : ℕ → Bool)
    → lock db (set_live d false live) ≡ next_owner (close d) (lock db live)
unfolding next_owner
lock-close d none live = refl
lock-close d (some c) live = ground arith

message_lem :
    (m : Str) (l : Level) (t : Str) (n : ℕ) (f : Str)
    → let event : Event = record { message = m; level = l; target = t; line = n; file = f } in
      construct_log_message event ≡ message_of event
unfolding construct_log_message
message_lem m l t n [] = refl
message_lem m l t n (c ∷ s) = refl

-- An exception, or the level and the message.
abbrev Answers : Event → Option LogLevel → Result (Option (LogLevel × LogMessage)) → Type 0
Answers event none r = (e : ErrorData) × (r ≡ err e)
Answers event (some level) r = r ≡ ok (some (level, message_of event))

callback_event-Answers :
    (event : Event) → Answers event (known_level event.level) (callback_event true event)
unfolding callback_event get_duckdb_log_level
callback_event-Answers event =
    go event.level (message_lem event.message event.level event.target event.line event.file)
  where
    go :
        (l : Level)
        → construct_log_message event ≡ message_of event
        → Answers event (known_level l) (
            get_duckdb_log_level l >>= λ (level : LogLevel).
            ok (some (level, construct_log_message event)))
    go error_level h = ap (λ m. ok (some (log_error, m))) h
    go warn_level h = ap (λ m. ok (some (log_warn, m))) h
    go info_level h = ap (λ m. ok (some (log_info, m))) h
    go debugging_level h = ap (λ m. ok (some (log_debug, m))) h
    go trace_level h = ap (λ m. ok (some (log_trace, m))) h
    go other_level h = (_, refl)

abbrev threw : Option ErrorData → Bool
threw none = false
threw (some e) = true

-- A run has this outcome, after what was logged before.
abbrev pub HasOutcome : List Entry → Outcome → Process × Option ErrorData → Type 0
HasOutcome front r (p, e) =
    (p.log ≡ front ++ r.log) × ((lock p.db p.live ≡ r.owner) × (threw e ≡ r.threw))

module _ (should_log : Filter) where
  -- One event, and what the rest of the run makes of the state after it.
  event-HasOutcome :
      (event : Event) (p : Process) (next : Process → Process × Option ErrorData) (rest : Outcome)
      → ((q : Process) → lock q.db q.live ≡ lock p.db p.live → HasOutcome q.log rest (next q))
      → HasOutcome p.log
          (event_of should_log event (lock p.db p.live) rest)
          (unless_thrown next (log_event should_log event p))
  unfolding log_event callback_event
  event-HasOutcome event p next rest h = go (lock p.db p.live) refl
    where
      known :
          (d : ℕ)
          → lock p.db p.live ≡ some d
          → (l : Option LogLevel) (r : Result (Option (LogLevel × LogMessage))) → Answers event l r
          → HasOutcome p.log
              (with_event should_log event d l rest)
              (unless_thrown next (logged should_log (some d) r p))
      known d o none r (e, a) = rw a (sym (append-nil p.log), (o, refl))
      known d o (some level) r a = elim (Bool-cases (should_log d level)) [
        | inl b ↦
            let q = record p { log = p.log ++ (d, (level, message_of event)) ∷ [] } in
            let (x, y) = h q refl in
            rw (a, b) (x ∙ append_assoc p.log ((d, (level, message_of event)) ∷ []) rest.log, y)
        | inr b ↦ rw (a, b) (h p refl)
      ]

      go :
          (o : Option ℕ)
          → lock p.db p.live ≡ o
          → HasOutcome p.log
              (event_of should_log event o rest)
              (unless_thrown next (logged should_log o (callback_event (is_there o) event) p))
      go none e = h p refl
      go (some d) e =
          known d e (known_level event.level) (callback_event true event)
            (callback_event-Answers event)

  act_all-HasOutcome :
      (actions : List Action) (p : Process)
      → HasOutcome p.log
          (outcome should_log actions (lock p.db p.live))
          (act_all should_log actions p)
  unfolding act_all act outcome
  act_all-HasOutcome [] p = (sym (append-nil p.log), (refl, refl))
  act_all-HasOutcome (load d ∷ rest) p =
      subst
        (λ o.
          HasOutcome p.log (outcome should_log rest o) (act_all should_log rest (initialize d p)))
        (lock-load d p.db p.live) (act_all-HasOutcome rest (initialize d p))
  act_all-HasOutcome (close d ∷ rest) p =
      subst
        (λ o.
          HasOutcome p.log (outcome should_log rest o)
            (act_all should_log rest (close_database d p)))
        (lock-close d p.db p.live) (act_all-HasOutcome rest (close_database d p))
  act_all-HasOutcome (kernel_event event ∷ rest) p =
      event-HasOutcome event p (act_all should_log rest)
        (outcome should_log rest (lock p.db p.live))
        (λ q e.
          subst (λ o. HasOutcome q.log (outcome should_log rest o) (act_all should_log rest q)) e
            (act_all-HasOutcome rest q))

-- Over any sequence of loads, closes and kernel events, the log holds each event under the database that
-- owns the log by then, if this database's log filter takes it, with its level, its target and text, and its
-- file and line if it has a file; and no other entry. The owner is the first database that was loaded, until
-- it is closed, and then the next one to be loaded; events in between are dropped. An event whose level is
-- outside the enumeration ends the run with an exception, if there is an owner.
pub act_all-outcome :
    (should_log : Filter) (actions : List Action)
    → HasOutcome [] (outcome should_log actions none) (act_all should_log actions start)
unfolding start
act_all-outcome should_log actions = act_all-HasOutcome should_log actions start
