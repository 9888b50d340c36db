-- ===== src/Storage/Size.antt =====
-- The smaller methods of the catalog and of a table's entry (storage/delta_catalog.cpp, its header, and
-- storage/delta_table_entry.cpp), and the size of an attached table.
use duckdb_delta.Prelude.{
  ℕ, ◌≡◌, ◌∙◌, refl, sym, ap, Bool, true, false, Option, none, List, [], ◌∷◌, Str, codes, is_empty,
  Result, ok, ok_inj, bind_ok, ◌>>=◌, throw, invalid_input, not_implemented, str_eq, lower,
  if◌then◌else◌,
}
use duckdb_delta.Values.{Value}
use duckdb_delta.Pushdown.{from_string}
use duckdb_delta.Reader.Host.{Host}
use duckdb_delta.Storage.{Catalog}
use duckdb_delta.Storage.Attach.{
  create_catalog, attach_option, attach_options, attach, when, pin_snapshot, push_partition_info,
  push_filters,
}

-- `GetDatabaseSize`; `size` is a fresh `DatabaseSize`.
unfoldable pub get_database_size : {D : Type 0} → D → Catalog → Result D
get_database_size size c =
    if is_empty c.default_schema
    then throw invalid_input (
        codes
          "Attempting to fetch the database size - but no database was provided in the connection string")
    else ok size

-- `ScanSchemas`: the callback is given the only schema.
unfoldable pub scan_schemas : {A : Type 0} → (Catalog → A) → Catalog → A
scan_schemas callback c = callback c

unfoldable pub in_memory : Catalog → Bool
in_memory c = false

unfoldable pub get_db_path : Catalog → Str
get_db_path c = c.path

unfoldable pub use_cached_snapshot : Catalog → Bool
use_cached_snapshot c = c.use_cache

-- `GetStatistics` of a table's entry: a null pointer.
unfoldable pub get_statistics : {A : Type 0} → ℕ → Option A
get_statistics column_id = none

-- `BindUpdateConstraints`.
unfoldable pub bind_update_constraints : {A : Type 0} → Result A
bind_update_constraints = throw not_implemented (codes "BindUpdateConstraints for delta table")

-- `GetStorageInfo`; `result` is a fresh `TableStorageInfo`.
unfoldable pub get_storage_info : {A : Type 0} → A → A
get_storage_info result = result

-- The catalog's own schema name is what it was.
abbrev KeepsSchema : Catalog → Catalog → Type 0
KeepsSchema c d = d.default_schema ≡ c.default_schema

when-KeepsSchema :
    (b : Bool) (f : Catalog → Result Catalog) (c d : Catalog)
    → (f c ≡ ok d → KeepsSchema c d)
    → when b f c ≡ ok d
    → KeepsSchema c d
when-KeepsSchema true f c d k h = k h
when-KeepsSchema false f c d k h = sym (ap (λ x. x.default_schema) (ok_inj c d h))

set_bool-KeepsSchema :
    (r : Result Bool) (f : Bool → Catalog) (c d : Catalog)
    → ((b : Bool) → KeepsSchema c (f b))
    → (r >>= λ (b : Bool). ok (f b)) ≡ ok d
    → KeepsSchema c d
set_bool-KeepsSchema r f c d k h =
    let (b, (q, g)) = bind_ok r _ d h in sym (ap (λ x. x.default_schema) (ok_inj (f b) d g)) ∙ k b

push_filters-KeepsSchema :
    (host : Host) (v : Value) (c d : Catalog) → push_filters host v c ≡ ok d → KeepsSchema c d
push_filters-KeepsSchema host v c d h =
    let (str, (r, g)) = bind_ok (host.get_string v) _ d h in
    let (mode, (q, f)) = bind_ok (from_string str) _ d g in
    sym (ap (λ x. x.default_schema) (ok_inj _ d f))

attach_option-KeepsSchema :
    (host : Host) (key : Str) (v : Value) (c d : Catalog)
    → attach_option host key v c ≡ ok d
    → KeepsSchema c d
unfolding attach_option
attach_option-KeepsSchema host key v c d h =
    let (c1, (r1, g1)) =
      bind_ok (when (str_eq (lower key) (codes "pin_snapshot")) (pin_snapshot host v) c) _ d h in
    let (c2, (r2, g2)) =
      bind_ok
        (when (str_eq (lower key) (codes "pushdown_partition_info")) (push_partition_info host v)
          c1)
        _ d g1 in
    when-KeepsSchema _ (push_filters host v) c2 d (push_filters-KeepsSchema host v c2 d) g2
    ∙ when-KeepsSchema _ (push_partition_info host v) c1 c2
        (set_bool-KeepsSchema (host.get_bool v) _ c1 c2 (λ b. refl)) r2
    ∙ when-KeepsSchema _ (pin_snapshot host v) c c1
        (set_bool-KeepsSchema (host.get_bool v) _ c c1 (λ b. refl)) r1

attach_options-KeepsSchema :
    (host : Host) (options : List (Str × Value)) (c d : Catalog)
    → attach_options host options c ≡ ok d
    → KeepsSchema c d
unfolding attach_options
attach_options-KeepsSchema host [] c d h = sym (ap (λ x. x.default_schema) (ok_inj c d h))
attach_options-KeepsSchema host ((key, v) ∷ options) c d h =
    let (c1, (r, g)) = bind_ok (attach_option host key v c) _ d h in
    attach_options-KeepsSchema host options c1 d g ∙ attach_option-KeepsSchema host key v c c1 r

-- The database size of a table that was attached is refused, whatever it was attached with: no option sets
-- the schema's name that is asked for.
pub attach-get_database_size :
    {D : Type 0} (size : D) (host : Host) (name path : Str) (options : List (Str × Value))
    (c : Catalog)
    → attach host name path options ≡ ok c
    → get_database_size size c
      ≡ throw invalid_input (
          codes
            "Attempting to fetch the database size - but no database was provided in the connection string")
unfolding attach create_catalog get_database_size
attach-get_database_size size host name path options c h =
    let (d, (r, g)) = bind_ok (attach_options host options (create_catalog name path)) _ c h in
    rw
      (sym (ap (λ x. x.default_schema) (ok_inj _ c g))
        ∙ attach_options-KeepsSchema host options (create_catalog name path) d r)
      refl
