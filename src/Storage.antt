-- ===== src/Storage.antt =====
-- The catalog of an attached Delta table (storage/delta_catalog.cpp, storage/delta_schema_entry.cpp) and
-- its transactions (storage/delta_transaction.cpp, storage/delta_transaction_manager.cpp). Each method
-- holds its lock, so it is one step.
pub mod Isolation
pub mod Pending
pub mod Refused
pub mod Size
pub mod Attach
pub mod Scanned
pub mod Version
pub mod Attached
mod Tests
mod AttachTests
use duckdb_delta.Prelude.{
  ℕ, ◌==◌, Bool, true, false, ◌&&◌, Option, none, some, Str, codes, throw, internal, str_eq, Result,
  ok, err, if◌then◌else◌, ◌≡◌, ◌≢◌,
}
use duckdb_delta.Types.{Fields, end}
use duckdb_delta.Paths.{FileSystem, to_delta_path}
use duckdb_delta.FileList.State.{DeltaMultiFileList, Kernel, create}
use duckdb_delta.FileList.Init.{bind}
use duckdb_delta.Pushdown.{DeltaFilterPushdownMode}

-- What a client's context gives: the kernel, and the file system.
pub record ClientContext : Type 0 where
  pub kernel : Kernel
  pub file_system : FileSystem

-- A table entry: its columns, and the list that holds its snapshot, as they were when it was made.
pub record TableEntry : Type 0 where
  pub table : Str
  pub columns : Fields
  pub snapshot : DeltaMultiFileList

-- The catalog with its only schema, whose field is `cached_table`; `default_schema` is the catalog's own.
pub record Catalog : Type 0 where
  pub name : Str
  pub path : Str
  pub use_cache : Bool
  pub pushdown_partition_info : Bool
  pub filter_pushdown_mode : DeltaFilterPushdownMode
  pub default_table : Str
  pub default_schema : Str
  pub cached_table : Option TableEntry

pub data TransactionState : Type 0 where
  not_yet_started started finished : TransactionState

pub record Transaction : Type 0 where
  pub transaction_state : TransactionState
  pub table_entry : Option TableEntry

-- The kinds of entries, of which tables are supported.
pub data CatalogType : Type 0 where
  table_type other_type : CatalogType

abbrev pub is_table : CatalogType → Bool
is_table table_type = true
is_table other_type = false

unfoldable pub create_transaction : Transaction
create_transaction = record { transaction_state = not_yet_started; table_entry = none }

-- `DeltaTransaction::Start`.
unfoldable pub start : Transaction → Transaction
start t = record t { transaction_state = not_yet_started }

abbrev when_started : TransactionState → Transaction → Transaction
when_started started t = record t { transaction_state = finished }
when_started not_yet_started t = t
when_started finished t = t

-- `DeltaTransaction::Commit`.
unfoldable pub commit : Transaction → Transaction
commit t = when_started t.transaction_state t

-- `DeltaTransaction::Rollback`.
unfoldable pub rollback : Transaction → Transaction
rollback t = when_started t.transaction_state t

abbrev entry_of : Str → Result Fields × DeltaMultiFileList → Result TableEntry
entry_of n (ok fs, s) = ok (record { table = n; columns = fs; snapshot = s })
entry_of n (err e, s) = err e

-- `ToDeltaPath` of an empty path reads before its end; here that is an error.
unfoldable new_entry : Kernel → Str → Option Str → Result TableEntry
unfolding bind create
new_entry k n none = throw internal (codes "empty path")
new_entry k n (some path) = entry_of n (bind k end (create path))

-- `DeltaSchemaEntry::CreateTableEntry`: a new list, bound to the snapshot that the kernel opens now.
unfoldable pub create_table_entry : ClientContext → Catalog → Result TableEntry
unfolding new_entry to_delta_path
create_table_entry x c = new_entry x.kernel c.name (to_delta_path x.file_system c.path)

-- What a lookup returns and changes.
abbrev pub Found : Type 0
Found = Result (Option TableEntry) × (Catalog × Transaction)

abbrev cache_new : Result TableEntry → Catalog → Transaction → Found
cache_new (ok e) c t = (ok (some e), (record c { cached_table = some e }, t))
cache_new (err e) c t = (err e, (c, t))

abbrev own_new : Result TableEntry → Catalog → Transaction → Found
own_new (ok e) c t = (ok (some e), (c, record t { table_entry = some e }))
own_new (err e) c t = (err e, (c, t))

abbrev pub or_cached :
    (Catalog → Result TableEntry) → Option TableEntry → Catalog → Transaction → Found
or_cached make (some e) c t = (ok (some e), (c, t))
or_cached make none c t = cache_new (make c) c t

-- The transaction's own entry, the cached one, or a new one in the place that the catalog asks for.
abbrev pub or_own :
    (Catalog → Result TableEntry) → Option TableEntry → Catalog → Transaction → Found
or_own make (some e) c t = (ok (some e), (c, t))
or_own make none c t =
    if c.use_cache then or_cached make c.cached_table c t else own_new (make c) c t

abbrev pub names_with : CatalogType → Str → Str → Bool
names_with type name catalog_name = is_table type && str_eq name catalog_name

abbrev pub names_table : CatalogType → Str → Catalog → Bool
names_table type name c = names_with type name c.name

-- `DeltaSchemaEntry::LookupEntry` in a context, with `InitializeTableEntry`.
unfoldable pub lookup_entry : ClientContext → CatalogType → Str → Catalog → Transaction → Found
unfolding create_table_entry
lookup_entry x type name c t =
    if names_table type name c
    then or_own (create_table_entry x) t.table_entry c t
    else (ok none, (c, t))

-- The catalog, and the transactions of its manager, by number.
pub record Database : Type 0 where
  pub catalog : Catalog
  pub transactions : ℕ → Option Transaction

abbrev pub put : ℕ → Option Transaction → (ℕ → Option Transaction) → ℕ → Option Transaction
put i t f j = if i == j then t else f j

unfoldable pub start_transaction : ℕ → Database → Database
unfolding start create_transaction
start_transaction i d = record d {
  transactions = put i (some (start create_transaction)) d.transactions;
}

abbrev pub change : (Transaction → Transaction) → Option Transaction → Option Transaction
change f none = none
change f (some t) = some (f t)

-- The transaction is committed, then erased: it is returned as it was at its end. `CommitTransaction`
-- returns no error.
unfoldable pub commit_transaction : ℕ → Database → Option Transaction × Database
unfolding commit
commit_transaction i d =
    (change commit (d.transactions i), record d { transactions = put i none d.transactions })

unfoldable pub rollback_transaction : ℕ → Database → Option Transaction × Database
unfolding rollback
rollback_transaction i d =
    (change rollback (d.transactions i), record d { transactions = put i none d.transactions })

abbrev pub after_lookup : ℕ → Catalog × Transaction → Database → Database
after_lookup i (c, t) d = record { catalog = c; transactions = put i (some t) d.transactions }
