-- ===== src/Builder/Options.antt =====
-- What the options are made from: the secret, and the list of options in the order in which they are set.
use duckdb_delta.Prelude.{
  Bool, not, Option, none, some, List, [], ◌∷◌, Str, str_eq, is_empty, if◌then◌else◌,
}

-- A `KeyValueSecret`, as its reader shows it: a key that is not there leaves the string empty.
pub record Secret : Type 0 where
  pub provider : Str
  pub value : Str → Str
  pub use_ssl : Option Bool

-- The calls of `set_builder_option`.
abbrev pub Options : Type 0
Options = List (Str × Str)

abbrev pub option : Str → Str → Options
option key value = (key, value) ∷ []

abbrev pub only_if : Bool → Options → Options
only_if b options = if b then options else []

-- An option that is set where its value is not empty.
abbrev pub unless_empty : Str → Str → Options
unless_empty key value = only_if (not (is_empty value)) (option key value)

-- The value that the kernel keeps: the last that was set.
unfoldable pub value_of : Str → Options → Option Str
value_of key [] = none
value_of key ((k, v) ∷ options) = elim (value_of key options) [
  | some w ↦ some w
  | none ↦ if str_eq k key then some v else none
]
