-- ===== src/Storage/Tests.antt =====
-- A transaction beside another, and the theorems there.
use duckdb_delta.Prelude.{[], ◌≡◌, refl, true, false, none, some, codes, ok, arith, ◌++◌}
use duckdb_delta.Types.{end}
use duckdb_delta.Fixtures.{kernel}
use duckdb_delta.FileList.State.{DeltaMultiFileList, create}
use duckdb_delta.Pushdown.{all_filters}
use duckdb_delta.Storage.{
  ClientContext, TableEntry, Catalog, Transaction, Database, table_type, create_transaction,
  lookup_entry, start_transaction, rollback_transaction, commit_transaction, after_lookup,
}
use duckdb_delta.Storage.Isolation.{Steps, starts, rolls_back, stop, then_step, repeatable_read}
use duckdb_delta.Storage.Pending.{AllPending, ends_pending}

abbrev context : ClientContext
context = record {
  kernel = kernel;
  file_system = record { working_directory = codes "/"; join_path = λ a b. a ++ b };
}

abbrev catalog : Catalog
catalog = record {
  name = codes "t";
  path = codes "d/";
  use_cache = false;
  pushdown_partition_info = true;
  filter_pushdown_mode = all_filters;
  default_table = codes "t";
  default_schema = [];
  cached_table = none;
}

abbrev empty : Database
empty = record { catalog = catalog; transactions = λ i. none }

abbrev running : Database
running = start_transaction 1 empty

abbrev bound : DeltaMultiFileList
bound = record (create (codes "d/")) {
  extern_engine = 1;
  snapshot = some 2;
  version = 5;
  initialized_snapshot = true;
  have_bound = true;
}

abbrev entry : TableEntry
entry = record { table = codes "t"; columns = end; snapshot = bound }

finds : (lookup_entry context table_type (codes "t") catalog create_transaction).0 ≡ ok (some entry)
unfolding lookup_entry create_transaction create start_transaction
finds = refl

-- The transaction 1 after its lookup, and then another that starts and rolls back.
abbrev after_first : Database
after_first =
    after_lookup 1 (catalog, record create_transaction { table_entry = some entry }) running

abbrev after_others : Database
after_others = (rollback_transaction 2 (start_transaction 2 after_first)).1

others : Steps 1 after_first after_others
unfolding start_transaction rollback_transaction create_transaction
others =
    then_step _ _ _ (starts 2 after_first refl)
      (then_step _ _ _ (rolls_back 2 (start_transaction 2 after_first) (omega arith)) (stop _))

repeatable_read_example :
    (u : Transaction) × ((after_others.transactions 1 ≡ some u)
      × (lookup_entry context table_type (codes "t") after_others.catalog u
          ≡ (ok (some entry), (after_others.catalog, u))))
unfolding lookup_entry create_transaction create start_transaction
repeatable_read_example =
    repeatable_read 1 context table_type (codes "t") create_transaction entry running after_others
      refl others context

ends_pending_example :
    AllPending ((commit_transaction 2 (start_transaction 2 empty)).0)
    × AllPending ((rollback_transaction 2 (start_transaction 2 empty)).0)
unfolding start_transaction
ends_pending_example =
    ends_pending 1 2 empty (start_transaction 2 empty) (λ j. tt)
      (then_step _ _ _ (starts 2 empty refl) (stop _))
