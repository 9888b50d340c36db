-- ===== src/Storage/Scanned.antt =====
-- What the settings of an attached table become in a scan of it.
use duckdb_delta.Prelude.{
  ◌≡◌, ◌∙◌, refl, ap, Bool, Bool-cases, inl, inr, false, some, List, [], ◌∷◌, Str, codes, str_eq,
  str_eq_refl, eq_of-str_eq, Result, ok, ◌>>=◌, if◌then◌else◌,
}
use duckdb_delta.Values.{Value, boolean, string}
use duckdb_delta.Paths.{FileSystem}
use duckdb_delta.Pushdown.{
  DeltaFilterPushdownMode, no_filters, all_filters, constant_only, dynamic_only, from_string,
  to_string, get_pushdown_mode,
}
use duckdb_delta.Reader.Host.{Host, MultiFileOptions}
use duckdb_delta.Reader.Options.{set_option, find_option, parse_option, pushes_partition_info}
use duckdb_delta.Storage.{Catalog, TableEntry}
use duckdb_delta.Storage.Attach.{
  get_scan_function, create_instance, create_file_list, get_delta_filter_pushdown_mode,
}

find_option-set_option :
    (n : Str) (v : Value) (l : List (Str × Value)) → find_option n (set_option n v l) ≡ some v
unfolding find_option set_option
find_option-set_option n v [] = rw (str_eq_refl n) refl
find_option-set_option n v ((m, w) ∷ l) = elim (Bool-cases (str_eq m n)) [
  | inl e ↦ rw e (rw e refl)
  | inr e ↦ rw e (rw e (find_option-set_option n v l))
]

find_option-set_option_other :
    (m n : Str) (v : Value) (l : List (Str × Value))
    → str_eq n m ≡ false
    → find_option m (set_option n v l) ≡ find_option m l
unfolding find_option set_option
find_option-set_option_other m n v [] h = rw h refl
find_option-set_option_other m n v ((k, w) ∷ l) h = elim (Bool-cases (str_eq k n)) [
  | inl e ↦
      let other : str_eq k m ≡ false = ap (λ x. str_eq x m) (eq_of-str_eq k n e) ∙ h in
      rw e (rw other refl)
  | inr e ↦
      rw e (ap (λ r. if str_eq k m then some w else r) (find_option-set_option_other m n v l h))
]

from_string-to_string : (m : DeltaFilterPushdownMode) → from_string (to_string m) ≡ ok m
unfolding from_string to_string
from_string-to_string no_filters = refl
from_string-to_string all_filters = refl
from_string-to_string constant_only = refl
from_string-to_string dynamic_only = refl

-- Every parameter is given to `ParseOption`.
abbrev pub parse_each : Host → List (Str × Value) → MultiFileOptions → Result MultiFileOptions
parse_each host [] o = ok o
parse_each host ((key, v) ∷ ps) o =
    parse_option host key v o >>= λ (r : Bool × MultiFileOptions). parse_each host ps (r.1)

-- A scan of a table's entry reads the entry's own snapshot, whatever the file system holds by then, and
-- with the catalog's own settings for filters and partitions, where DuckDB's values hand back the Boolean
-- or string that they were made from.
pub get_scan_function-settings :
    (host : Host) (fs : FileSystem) (c : Catalog) (e : TableEntry) (o : MultiFileOptions)
    → ((b : Bool) → host.get_bool (boolean b) ≡ ok b)
    → ((s : Str) → host.get_string (string s) ≡ ok s)
    → (create_file_list fs
          (create_instance (some (get_scan_function c e)))
          (get_scan_function c e).inputs
        ≡ ok e.snapshot)
      × ((p : MultiFileOptions) × ((parse_each host (get_scan_function c e).parameters o ≡ ok p)
            × ((get_delta_filter_pushdown_mode host p ≡ ok c.filter_pushdown_mode)
                × (pushes_partition_info host
                      (find_option (codes "pushdown_partition_info") p.custom_options)
                    ≡ ok c.pushdown_partition_info))))
unfolding create_file_list create_instance get_scan_function parse_option pushes_partition_info
    get_delta_filter_pushdown_mode get_pushdown_mode
get_scan_function-settings host fs c e o hb hs =
    let partitions = codes "pushdown_partition_info" in
    let filters = codes "pushdown_filters" in
    let b = boolean c.pushdown_partition_info in
    let str = to_string c.filter_pushdown_mode in
    let first = set_option partitions b o.custom_options in
    let all = set_option filters (string str) first in
    let found : find_option filters all ≡ some (string str) =
      find_option-set_option filters (string str) first in
    let kept : find_option partitions all ≡ some b =
      find_option-set_option_other partitions filters (string str) first refl
      ∙ find_option-set_option partitions b o.custom_options in
    (
      refl,
      (
        record o { custom_options = all },
        (
          refl,
          (
            rw found (rw (hs str) (from_string-to_string c.filter_pushdown_mode)),
            rw kept (hb c.pushdown_partition_info),
          ),
        ),
      ),
    )
