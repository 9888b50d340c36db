-- ===== src/Storage/Version.antt =====
-- The catalog's version, the entries that a scan of the schema lists, and the schema's own lookup
-- (storage/delta_catalog.cpp, storage/delta_schema_entry.cpp).
use mathlib.Core.Path.{subst}
use duckdb_delta.Prelude.{
  ℕ, ◌==◌, ◌≡◌, ◌≢◌, ◌∙◌, refl, sym, ap, Bool, true, false, ◌||◌, Option, inl, inr, none, some, [],
  Str, str_eq, Result, ok, err, if◌then◌else◌, arith,
}
use duckdb_delta.FileList.State.{DeltaMultiFileList, Kernel, invalid_index}
use duckdb_delta.FileList.Init.{ensure_snapshot_initialized}
use duckdb_delta.FileList.Expand.{get_version}
use duckdb_delta.Storage.{
  ClientContext, TableEntry, Catalog, Transaction, CatalogType, Found, is_table, lookup_entry,
}
use duckdb_delta.Storage.Isolation.{Holds, lookup_entry-Holds}

-- What `GetCatalogVersion` returns and changes: asking for a version may open the snapshot.
abbrev Versions : Type 0
Versions = Result ℕ × (Catalog × Transaction)

-- The version of an entry, or the one found before.
unfoldable pub version_or : Kernel → ℕ → Option TableEntry → Result ℕ × Option TableEntry
unfolding get_version
version_or k version none = (ok version, none)
version_or k version (some e) =
    let (r, s) = get_version k e.snapshot in (r, some (record e { snapshot = s }))

abbrev to_optional : ℕ → Option ℕ
to_optional version = if version == invalid_index then none else some version

abbrev own_version :
    Result ℕ × Option TableEntry
    → Catalog
    → Transaction
    → Result (Option ℕ) × (Catalog × Transaction)
own_version (ok version, e) c t = (ok (to_optional version), (c, record t { table_entry = e }))
own_version (err x, e) c t = (err x, (c, record t { table_entry = e }))

abbrev cached_version :
    Kernel
    → Result ℕ × Option TableEntry
    → Catalog
    → Transaction
    → Result (Option ℕ) × (Catalog × Transaction)
cached_version k (ok version, e) c t =
    own_version (version_or k version t.table_entry) (record c { cached_table = e }) t
cached_version k (err x, e) c t = (err x, (record c { cached_table = e }, t))

-- `GetCatalogVersion`: the cached snapshot's version, or the transaction's own, which comes second.
unfoldable pub get_catalog_version :
    Kernel → Catalog → Transaction → Result (Option ℕ) × (Catalog × Transaction)
unfolding version_or
get_catalog_version k c t = cached_version k (version_or k invalid_index c.cached_table) c t

-- `DeltaSchemaEntry::Scan`: what the callback is called with.
unfoldable pub scan_schema : ClientContext → CatalogType → Catalog → Transaction → Found
unfolding lookup_entry
scan_schema x type c t = if is_table type then lookup_entry x type c.name c t else (ok none, (c, t))

-- `LookupSchema` finds the only schema under its two names; `default_schema` is DuckDB's constant, and
-- the invalid one is empty.
unfoldable pub lookup_schema : Str → Str → Bool
lookup_schema default_schema name = str_eq name default_schema || str_eq name []

-- A snapshot that has been opened.
abbrev pub IsOpen : TableEntry → Type 0
IsOpen e = e.snapshot.initialized_snapshot ≡ true

ensure_snapshot_initialized-open :
    (k : Kernel) (s : DeltaMultiFileList)
    → s.initialized_snapshot ≡ true
    → ensure_snapshot_initialized k s ≡ (ok tt, s)
unfolding ensure_snapshot_initialized
ensure_snapshot_initialized-open k s h = simp (ensure_snapshot_initialized, h)

version_or-IsOpen :
    (k : Kernel) (version : ℕ) (e : TableEntry)
    → IsOpen e
    → version_or k version (some e) ≡ (ok e.snapshot.version, some e)
unfolding version_or get_version
version_or-IsOpen k version e h = rw (ensure_snapshot_initialized-open k e.snapshot h) refl

-- The cached entry, if there is one, has been opened.
abbrev pub CacheIsOpen : Catalog → Type 0
CacheIsOpen c = (e : TableEntry) → c.cached_table ≡ some e → IsOpen e

version_or-open :
    (k : Kernel) (version : ℕ) (o : Option TableEntry)
    → ((e : TableEntry) → o ≡ some e → IsOpen e)
    → (v : ℕ) × (version_or k version o ≡ (ok v, o))
unfolding version_or
version_or-open k version none h = (version, refl)
version_or-open k version (some e) h =
    (e.snapshot.version, version_or-IsOpen k version e (h e refl))

-- An entry that is there, and open, gives its version.
version_or-some :
    (k : Kernel) (version : ℕ) (o : Option TableEntry) (e : TableEntry)
    → o ≡ some e
    → IsOpen e
    → version_or k version o ≡ (ok e.snapshot.version, o)
version_or-some k version o e h opened =
    ap (version_or k version) h
    ∙ version_or-IsOpen k version e opened
    ∙ ap (λ x. (ok e.snapshot.version, x)) (sym h)

version_or-none :
    (k : Kernel) (version : ℕ) (o : Option TableEntry)
    → o ≡ none
    → version_or k version o ≡ (ok version, o)
unfolding version_or
version_or-none k version o h = ap (version_or k version) h ∙ ap (λ x. (ok version, x)) (sym h)

-- The two questions, answered.
get_catalog_version-asked :
    (k : Kernel) (c : Catalog) (t : Transaction) (v w : ℕ)
    → version_or k invalid_index c.cached_table ≡ (ok v, c.cached_table)
    → version_or k v t.table_entry ≡ (ok w, t.table_entry)
    → w ≢ invalid_index
    → get_catalog_version k c t ≡ (ok (some w), (c, t))
unfolding get_catalog_version
get_catalog_version-asked k c t v w p q h =
    let differs : (w == invalid_index) ≡ false = ground arith in
    ap (λ x. cached_version k x c t) p
    ∙ ap (λ x. own_version x c t) q
    ∙ ap (λ b. (ok (if b then none else some w), (c, t))) differs

get_catalog_version-Holds :
    (k : Kernel) (c : Catalog) (t : Transaction) (e : TableEntry)
    → Holds e c t
    → IsOpen e
    → CacheIsOpen c
    → e.snapshot.version ≢ invalid_index
    → get_catalog_version k c t ≡ (ok (some e.snapshot.version), (c, t))
get_catalog_version-Holds k c t e (inl h) opened cache valid =
    let (v, q) = version_or-open k invalid_index c.cached_table cache in
    get_catalog_version-asked k c t v e.snapshot.version q
      (version_or-some k v t.table_entry e h opened) valid
get_catalog_version-Holds k c t e (inr h) opened cache valid =
    let v = e.snapshot.version in
    get_catalog_version-asked k c t v v
      (version_or-some k invalid_index c.cached_table e ((h.1).1) opened)
      (version_or-none k v t.table_entry (h.0)) valid

-- After a lookup that finds an entry, the catalog's version is that of the entry's snapshot, and asking
-- for it changes nothing: where that snapshot and the cached one have been opened, and the version is
-- not the reserved number.
pub get_catalog_version-lookup_entry :
    (x : ClientContext) (k : Kernel) (type : CatalogType) (name : Str) (c c' : Catalog)
    (t t' : Transaction) (e : TableEntry)
    → lookup_entry x type name c t ≡ (ok (some e), (c', t'))
    → IsOpen e
    → CacheIsOpen c'
    → e.snapshot.version ≢ invalid_index
    → get_catalog_version k c' t' ≡ (ok (some e.snapshot.version), (c', t'))
get_catalog_version-lookup_entry x k type name c c' t t' e h opened cache valid =
    let held = lookup_entry-Holds x type name c t e (ap (λ r. r.0) h) in
    let here = subst (λ r. Holds e (r.0) (r.1)) (ap (λ r. r.1) h) held in
    get_catalog_version-Holds k c' t' e here opened cache valid
