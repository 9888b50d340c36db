-- ===== src/Pushdown.antt =====
-- Filter pushdown: `DeltaEnumUtils` (functions/delta_scan/delta_scan.cpp), and `PushdownInternal`,
-- `ComplexFilterPushdown` and `DynamicFilterPushdown` of `DeltaMultiFileList`
-- (functions/delta_scan/delta_multi_file_list.cpp). Pushdown/Report has
-- `ReportFilterPushdown`, Pushdown/Handler the pushdowns with their reports.
pub mod Modes
pub mod Handler
pub mod Report
pub mod Reported
pub mod Snapshot
pub mod Sound
pub mod Requests
pub mod Handled
pub mod Skipping
mod Tests
mod Fixtures
mod SoundTests
use duckdb_delta.Prelude.{
  ℕ, zero, suc, ◌==◌, ◌++◌, Bool, true, false, ltb, Option, none, some, List, [], ◌∷◌, Str, codes,
  str_eq, lower, Result, ok, err, throw, invalid_input, internal, get_elem?, ◌>>=◌, if◌then◌else◌,
}
use duckdb_delta.Types.{Fields, end, field}
use duckdb_delta.Paths.{FileSystem, to_delta_path}
use duckdb_delta.Filters.{TableFilter, TableFilterSet}
use duckdb_delta.FileList.State.{DeltaMultiFileList, create}

pub data DeltaFilterPushdownMode : Type 0 where
  no_filters all_filters constant_only dynamic_only : DeltaFilterPushdownMode

-- `DeltaEnumUtils::FromString`.
unfoldable pub from_string : Str → Result DeltaFilterPushdownMode
from_string str =
    if str_eq (lower str) (codes "none")
    then ok no_filters
    else if str_eq (lower str) (codes "all")
    then ok all_filters
    else if str_eq (lower str) (codes "constant_only")
    then ok constant_only
    else if str_eq (lower str) (codes "dynamic_only")
    then ok dynamic_only
    else throw invalid_input (codes "Unknown Filter pushdown mode: " ++ str)

-- `DeltaEnumUtils::ToString`.
unfoldable pub to_string : DeltaFilterPushdownMode → Str
to_string no_filters = codes "none"
to_string all_filters = codes "all"
to_string dynamic_only = codes "dynamic_only"
to_string constant_only = codes "constant_only"

-- `GetDeltaFilterPushdownMode`: the option, if it is given.
unfoldable pub get_pushdown_mode : Option Str → Result DeltaFilterPushdownMode
unfolding from_string
get_pushdown_mode none = ok all_filters
get_pushdown_mode (some str) = from_string str

-- DuckDB's `TableFilterSet::PushFilter` and `TableFilter::Equals`.
pub record FilterLibrary : Type 0 where
  pub push_filter : ℕ → TableFilter → TableFilterSet → TableFilterSet
  pub equals : TableFilter → TableFilter → Bool

abbrev pub count_fields : Fields → ℕ
count_fields end = zero
count_fields (field n t fs) = suc (count_fields fs)

module _ (lib : FilterLibrary) where
  unfoldable pub push_all : TableFilterSet → TableFilterSet → TableFilterSet
  push_all [] result = result
  push_all ((i, f) ∷ fs) result = push_all fs (lib.push_filter i f result)

  -- Filters on columns that the table does not have are left out.
  unfoldable pub push_new : ℕ → TableFilterSet → TableFilterSet → TableFilterSet
  push_new columns [] result = result
  push_new columns ((i, f) ∷ fs) result =
      push_new columns fs (if ltb i columns then lib.push_filter i f result else result)

  abbrev pub filtered : TableFilterSet → DeltaMultiFileList → Str → DeltaMultiFileList
  filtered new_filters s path = record (create path) {
    table_filters = push_new (count_fields s.columns) new_filters (push_all s.table_filters []);
    columns = s.columns;
    lazy_loaded_schema = s.lazy_loaded_schema;
    snapshot = s.snapshot;
  }

  abbrev pub new_list : TableFilterSet → DeltaMultiFileList → Option Str → Option DeltaMultiFileList
  new_list new_filters s none = none
  new_list new_filters s (some path) = some (filtered new_filters s path)

  -- `PushdownInternal`: a new list on the same path and the same snapshot.
  unfoldable pub pushdown_internal :
      FileSystem → TableFilterSet → DeltaMultiFileList → Option DeltaMultiFileList
  unfolding push_all push_new to_delta_path create
  pushdown_internal fs new_filters s = new_list new_filters s (to_delta_path fs s.path)

  abbrev pub find_filter : ℕ → TableFilterSet → Option TableFilter
  find_filter i [] = none
  find_filter i ((j, f) ∷ fs) = if i == j then some f else find_filter i fs

  abbrev pub already_pushed : TableFilter → Option TableFilter → Bool
  already_pushed f none = false
  already_pushed f (some g) = lib.equals f g

  -- The filters that are not pushed down already, by column number.
  unfoldable pub new_dynamic_filters :
      List ℕ → TableFilterSet → TableFilterSet → TableFilterSet → Result TableFilterSet
  new_dynamic_filters column_ids pushed [] result = ok result
  new_dynamic_filters column_ids pushed ((i, f) ∷ fs) result = elim (get_elem? column_ids i) [
    | none ↦ throw internal (codes "Attempted to access index outside a vector")
    | some column_id ↦ new_dynamic_filters column_ids pushed fs (
        if already_pushed f (find_filter column_id pushed)
        then result
        else lib.push_filter column_id f result)
  ]

  -- The front of an empty path is undefined behaviour; a null pointer is `ok none`.
  abbrev pub or_undefined : Option DeltaMultiFileList → Result (Option DeltaMultiFileList)
  or_undefined none = throw internal (codes "undefined")
  or_undefined (some t) = ok (some t)

  abbrev pub unless_empty :
      FileSystem → DeltaMultiFileList → TableFilterSet → Result (Option DeltaMultiFileList)
  unless_empty fs s [] = ok none
  unless_empty fs s (f ∷ filters) = or_undefined (pushdown_internal fs (f ∷ filters) s)

  abbrev pub takes_dynamic : DeltaFilterPushdownMode → Bool
  takes_dynamic no_filters = false
  takes_dynamic constant_only = false
  takes_dynamic all_filters = true
  takes_dynamic dynamic_only = true

  abbrev pub takes_constant : DeltaFilterPushdownMode → Bool
  takes_constant no_filters = false
  takes_constant dynamic_only = false
  takes_constant all_filters = true
  takes_constant constant_only = true

  -- `DynamicFilterPushdown` up to its report; `none` is a null pointer: the list stays as it is.
  unfoldable pub push_dynamic :
      FileSystem
      → Option Str
      → List ℕ
      → TableFilterSet
      → DeltaMultiFileList
      → Result (Option DeltaMultiFileList)
  unfolding get_pushdown_mode new_dynamic_filters pushdown_internal
  push_dynamic fs option column_ids filters s = do
    mode ← get_pushdown_mode option
    if takes_dynamic mode
        then (do
          copy ← new_dynamic_filters column_ids s.table_filters filters []
          unless_empty fs s copy)
        else ok none

  -- `ComplexFilterPushdown` up to its report; `filter_set` is what DuckDB's filter combiner makes of the filters, none of
  -- none.
  unfoldable pub push_constant :
      FileSystem
      → Option Str
      → TableFilterSet
      → DeltaMultiFileList
      → Result (Option DeltaMultiFileList)
  unfolding get_pushdown_mode pushdown_internal
  push_constant fs option filter_set s = do
    mode ← get_pushdown_mode option
    if takes_constant mode then unless_empty fs s filter_set else ok none
