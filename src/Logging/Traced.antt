-- ===== src/Logging/Traced.antt =====
-- The setting and the kernel's tracing, over any number of `SET` statements.
use duckdb_delta.Prelude.{
  ◌≡◌, ◌∙◌, refl, ap, Bool, true, false, ◌||◌, List, [], ◌∷◌, Result, ok, err, if◌then◌else◌,
}
use duckdb_delta.Logging.{LoggingState, initially, setting_callback}

-- A `SET` statement: DuckDB writes the value unless the callback throws.
abbrev pub after_callback : Bool → LoggingState → Result LoggingState → LoggingState
after_callback parameter s (ok t) = record t { setting = parameter }
after_callback parameter s (err e) = s

abbrev pub set_all : List Bool → LoggingState → LoggingState
set_all [] s = s
set_all (parameter ∷ parameters) s =
    set_all parameters (after_callback parameter s (setting_callback parameter s))

abbrev pub any_true : List Bool → Bool
any_true [] = false
any_true (b ∷ bs) = b || any_true bs

-- Traced once if the setting is on, and else not at all.
abbrev pub traced_if : Bool → LoggingState
traced_if b = record { setting = b; tracing = if b then 1 else 0 }

after_one :
    (parameter b : Bool)
    → after_callback parameter (traced_if b) (setting_callback parameter (traced_if b))
      ≡ traced_if (b || parameter)
unfolding setting_callback
after_one true true = refl
after_one true false = refl
after_one false true = refl
after_one false false = refl

set_all-traced :
    (parameters : List Bool) (b : Bool)
    → set_all parameters (traced_if b) ≡ traced_if (b || any_true parameters)
set_all-traced [] true = refl
set_all-traced [] false = refl
set_all-traced (p ∷ ps) true = ap (set_all ps) (after_one p true) ∙ set_all-traced ps true
set_all-traced (true ∷ ps) false = ap (set_all ps) (after_one true false) ∙ set_all-traced ps true
set_all-traced (false ∷ ps) false =
    ap (set_all ps) (after_one false false) ∙ set_all-traced ps false

-- After any number of `SET` statements, refused ones among them, the setting is on exactly if one of them
-- asked for it; the kernel's tracing has then been enabled once, and otherwise never.
pub set_all-tracing :
    (parameters : List Bool)
    → ((set_all parameters initially).setting ≡ any_true parameters)
      × ((set_all parameters initially).tracing ≡ (if any_true parameters then 1 else 0))
set_all-tracing parameters = (
  ap (λ s. s.setting) (set_all-traced parameters false),
  ap (λ s. s.tracing) (set_all-traced parameters false),
)
