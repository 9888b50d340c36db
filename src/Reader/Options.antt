-- ===== src/Reader/Options.antt =====
-- The options of a scan, and what binding makes of them: `ParseOption` and `BindOptions`.
use duckdb_delta.Prelude.{
  ℕ, suc, ◌++◌, Bool, true, false, Option, none, some, List, [], ◌∷◌, Str, codes, str_eq, lower,
  Result, ok, throw, io, if◌then◌else◌,
}
use duckdb_delta.Types.{Fields, end, field}
use duckdb_delta.Values.{Value, typed_null}
use duckdb_delta.Columns.{ColumnDefs, no_columns, then_column, column_def}
use duckdb_delta.FileList.State.{Kernel, Exec, ◌>>=◌, return, lift}
use duckdb_delta.FileList.Expand.{get_partition_columns}
use duckdb_delta.Reader.Host.{Host, BindState, MultiFileOptions, ci_equals}

-- `custom_options`: assigning a name again replaces the value.
unfoldable pub set_option : Str → Value → List (Str × Value) → List (Str × Value)
set_option n v [] = (n, v) ∷ []
set_option n v ((m, w) ∷ l) = if str_eq m n then (m, v) ∷ l else (m, w) ∷ set_option n v l

unfoldable pub find_option : Str → List (Str × Value) → Option Value
find_option n [] = none
find_option n ((m, v) ∷ l) = if str_eq m n then some v else find_option n l

abbrev capture : Str → Value → MultiFileOptions → Result (Bool × MultiFileOptions)
capture n v o = ok (true, record o { custom_options = set_option n v o.custom_options })

-- `ParseOption`.
unfoldable pub parse_option :
    Host → Str → Value → MultiFileOptions → Result (Bool × MultiFileOptions)
unfolding set_option
parse_option host key val options =
    if str_eq (lower key) (codes "pushdown_partition_info")
    then capture (codes "pushdown_partition_info") val options
    else if str_eq (lower key) (codes "pushdown_filters")
    then capture (codes "pushdown_filters") val options
    else host.parse_option key val options

-- The other options of the base class, which are off.
abbrev pub disable : BindState → BindState
disable b = record b {
  options = record b.options {
    auto_detect_hive_partitioning = false;
    hive_partitioning = false;
    union_by_name = false;
  };
}

abbrev next : Option ℕ → Option ℕ
next none = none
next (some i) = some (suc i)

-- The first column with the name, in any case.
unfoldable pub index_of_name : Str → Fields → Option ℕ
index_of_name part end = none
index_of_name part (field n t fs) =
    if ci_equals n part then some 0 else next (index_of_name part fs)

-- The loop over the partition columns.
unfoldable pub partition_indexes : Fields → List Str → List (Str × ℕ) → Result (List (Str × ℕ))
unfolding index_of_name
partition_indexes columns [] l = ok l
partition_indexes columns (part ∷ partitions) l = elim (index_of_name part columns) [
  | none ↦
      throw io (codes "Delta Snapshot returned partition column that is not present in the schema")
  | some i ↦ partition_indexes columns partitions (l ++ (part, i) ∷ [])
]

-- The setting; without one, partitions are pushed down.
unfoldable pub pushes_partition_info : Host → Option Value → Result Bool
pushes_partition_info host none = ok true
pushes_partition_info host (some v) = host.get_bool v

-- Every column's default is null.
unfoldable pub set_defaults : ColumnDefs → ColumnDefs
set_defaults no_columns = no_columns
set_defaults (then_column (column_def n t d id children) cs) =
    then_column (column_def n t (some (typed_null t)) id children) (set_defaults cs)

unfoldable pub forward_partitions : Kernel → BindState → Exec BindState
unfolding get_partition_columns partition_indexes
forward_partitions k b = do
  partitions ← get_partition_columns k
  l ← lift (partition_indexes b.columns partitions b.hive_partitioning_indexes)
  return (record b { hive_partitioning_indexes = l })

unfoldable pub bind_schema : Kernel → BindState → BindState
unfolding set_defaults
bind_schema k b = record b { schema = set_defaults (k.columns_from_names_and_types b.columns) }

abbrev forward_if : Kernel → BindState → Bool → Exec BindState
forward_if k b true = forward_partitions k b
forward_if k b false = return b

-- `BindOptions`.
unfoldable pub bind_options : Host → Kernel → BindState → Exec BindState
unfolding forward_partitions pushes_partition_info find_option bind_schema
bind_options host k b = do
  b1 ← lift (host.bind_options (disable b))
  pushes ← lift (
      pushes_partition_info host
        (find_option (codes "pushdown_partition_info") b1.options.custom_options))
  b2 ← forward_if k b1 pushes
  return (bind_schema k b2)
