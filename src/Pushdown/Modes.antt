-- ===== src/Pushdown/Modes.antt =====
-- The names of the pushdown modes.
use duckdb_delta.Prelude.{◌≡◌, ◌↔◌, refl, Str, lower, ok, codes, arith, eq_of-str_eq}
use duckdb_delta.Pushdown.{
  DeltaFilterPushdownMode, from_string, to_string, no_filters, all_filters, constant_only,
  dynamic_only,
}

read_from :
    (str : Str) (mode : DeltaFilterPushdownMode)
    → from_string str ≡ ok mode
    → lower str ≡ to_string mode
unfolding from_string to_string
read_from str mode h = ground (
  arith,
  eq_of-str_eq (lower str) (codes "none"),
  eq_of-str_eq (lower str) (codes "all"),
  eq_of-str_eq (lower str) (codes "constant_only"),
  eq_of-str_eq (lower str) (codes "dynamic_only"),
)

reads :
    (str : Str) (mode : DeltaFilterPushdownMode)
    → lower str ≡ to_string mode
    → from_string str ≡ ok mode
unfolding from_string to_string
reads str no_filters h = rw (from_string, h) refl
reads str all_filters h = rw (from_string, h) refl
reads str constant_only h = rw (from_string, h) refl
reads str dynamic_only h = rw (from_string, h) refl

-- Reading a name gives a mode exactly where the name, in lower case, is the one that is printed for
-- this mode.
pub from_string_iff :
    (str : Str) (mode : DeltaFilterPushdownMode)
    → (from_string str ≡ ok mode) ↔ (lower str ≡ to_string mode)
from_string_iff str mode = (read_from str mode, reads str mode)
