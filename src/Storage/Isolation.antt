-- ===== src/Storage/Isolation.antt =====
-- What a transaction sees while others start, look up and end.
use duckdb_delta.Prelude.{
  ℕ, ◌==◌, ◌≡◌, ◌≢◌, refl, sym, ap, ◌∙◌, true, Option, none, some, Str, ok, ◌⊎◌, inl, inr, arith,
  Bool-cases, ==_iff,
}
use mathlib.Core.Path.{subst}
use mathlib.Core.Option.{none-ne-some}
use duckdb_delta.Storage.{
  ClientContext, TableEntry, Catalog, Transaction, CatalogType, Database, lookup_entry, names_table,
  names_with, put, start_transaction, commit_transaction, rollback_transaction, after_lookup,
}

-- Anything that may happen while the transaction `i` runs; the engine may answer each lookup anew.
pub data Step (i : ℕ) : Database → Database → Type 0 where
  starts : (j : ℕ) (d : Database) → d.transactions j ≡ none → Step i d (start_transaction j d)
  looks_up :
      (j : ℕ) (x : ClientContext) (type : CatalogType) (name : Str) (t : Transaction) (d : Database)
      → d.transactions j ≡ some t
      → Step i d (after_lookup j ((lookup_entry x type name d.catalog t).1) d)
  commits : (j : ℕ) (d : Database) → j ≢ i → Step i d ((commit_transaction j d).1)
  rolls_back : (j : ℕ) (d : Database) → j ≢ i → Step i d ((rollback_transaction j d).1)

pub data Steps (i : ℕ) : Database → Database → Type 0 where
  stop : (d : Database) → Steps i d d
  then_step : (d e f : Database) → Step i d e → Steps i e f → Steps i d f

-- The entry that a lookup finds: the transaction's own, or the cached one.
abbrev pub Holds : TableEntry → Catalog → Transaction → Type 0
Holds e c t =
    (t.table_entry ≡ some e)
    ⊎ ((t.table_entry ≡ none) × ((c.use_cache ≡ true) × (c.cached_table ≡ some e)))

pub lookup_entry-Holds :
    (x : ClientContext) (type : CatalogType) (name : Str) (c : Catalog) (t : Transaction)
    (e : TableEntry)
    → (lookup_entry x type name c t).0 ≡ ok (some e)
    → Holds e (((lookup_entry x type name c t).1).0) (((lookup_entry x type name c t).1).1)
unfolding lookup_entry
lookup_entry-Holds x type name c t e h = ground arith

Holds-lookup_entry :
    (x : ClientContext) (type : CatalogType) (name : Str) (c : Catalog) (t : Transaction)
    (e : TableEntry)
    → names_table type name c ≡ true
    → Holds e c t
    → lookup_entry x type name c t ≡ (ok (some e), (c, t))
unfolding lookup_entry
Holds-lookup_entry x type name c t e m (inl h) = simp (m, h)
Holds-lookup_entry x type name c t e m (inr h) = simp (m, h.0, (h.1).0, (h.1).1)

-- The entry that the transaction `i` reads under this name.
abbrev Reads : ℕ → CatalogType → Str → TableEntry → Database → Type 0
Reads i type name e d =
    (names_table type name d.catalog ≡ true)
    × ((t : Transaction) × ((d.transactions i ≡ some t) × Holds e d.catalog t))

put_self : (i : ℕ) (t : Option Transaction) (f : ℕ → Option Transaction) → put i t f i ≡ t
put_self i t f = ground arith

put_other :
    (i j : ℕ) (t : Option Transaction) (f : ℕ → Option Transaction) → i ≢ j → put i t f j ≡ f j
put_other i j t f h = ground arith

-- A lookup of any transaction does not change what is cached already.
lookup_entry-cached :
    (x : ClientContext) (type : CatalogType) (name : Str) (c : Catalog) (t : Transaction)
    (e : TableEntry)
    → c.cached_table ≡ some e
    → (((lookup_entry x type name c t).1).0).cached_table ≡ some e
unfolding lookup_entry
lookup_entry-cached x type name c t e h = ground arith

lookup_entry-constants :
    (x : ClientContext) (type : CatalogType) (name : Str) (c : Catalog) (t : Transaction)
    → let c' = ((lookup_entry x type name c t).1).0 in
      (c'.name ≡ c.name) × (c'.use_cache ≡ c.use_cache)
unfolding lookup_entry
lookup_entry-constants x type name c t = (ground arith, ground arith)

lookup_entry-kept :
    (x : ClientContext) (type : CatalogType) (name : Str) (c : Catalog) (t : Transaction)
    (e : TableEntry)
    → Holds e c t
    → Holds e (((lookup_entry x type name c t).1).0) (((lookup_entry x type name c t).1).1)
unfolding lookup_entry
lookup_entry-kept x type name c t e h = ground arith

Holds-other :
    (e : TableEntry) (c d : Catalog) (t : Transaction)
    → d.use_cache ≡ c.use_cache
    → (c.cached_table ≡ some e → d.cached_table ≡ some e)
    → Holds e c t
    → Holds e d t
Holds-other e c d t u k (inl h) = inl h
Holds-other e c d t u k (inr h) = inr (h.0, (u ∙ (h.1).0, k ((h.1).1)))

keys_differ :
    (i j : ℕ) (t : Transaction) (f : ℕ → Option Transaction) → f j ≡ none → f i ≡ some t → j ≢ i
keys_differ i j t f h g q = none-ne-some t (sym h ∙ ap f q ∙ g)

same_transaction :
    (i j : ℕ) (s t : Transaction) (f : ℕ → Option Transaction)
    → f j ≡ some s
    → f i ≡ some t
    → j ≡ i
    → t ≡ s
same_transaction i j s t f h g q =
    ap (λ o. elim o [ none ↦ t | some z ↦ z ]) (sym g ∙ ap f (sym q) ∙ h)

Step-Reads :
    (i : ℕ) (type : CatalogType) (name : Str) (e : TableEntry) (d d' : Database)
    → Step i d d'
    → Reads i type name e d
    → Reads i type name e d'
unfolding start_transaction commit_transaction rollback_transaction
Step-Reads i type name e _ _ (starts j d h) (m, (t, (g, l))) =
    (m, (t, (put_other j i _ d.transactions (keys_differ i j t d.transactions h g) ∙ g, l)))
Step-Reads i type name e _ _ (commits j d h) (m, (t, (g, l))) =
    (m, (t, (put_other j i _ d.transactions h ∙ g, l)))
Step-Reads i type name e _ _ (rolls_back j d h) (m, (t, (g, l))) =
    (m, (t, (put_other j i _ d.transactions h ∙ g, l)))
Step-Reads i type name e _ _ (looks_up j x ty n s d h) (m, (t, (g, l))) =
    let same = lookup_entry-constants x ty n d.catalog s in
    let f = lookup_entry x ty n d.catalog s in
    let named : names_table type name ((f.1).0) ≡ true =
      ap (λ z. names_with type name z) (same.0) ∙ m in
    elim (Bool-cases (j == i)) [
      | inl q ↦
          let p = same_transaction i j s t d.transactions h g ((==_iff j i).0 q) in
          (
            named,
            (
              (f.1).1,
              (
                rw q refl,
                lookup_entry-kept x ty n d.catalog s e (subst (λ z. Holds e d.catalog z) p l),
              ),
            ),
          )
      | inr q ↦ (
        named,
        (
          t,
          (
            rw q g,
            Holds-other e d.catalog ((f.1).0) t (same.1) (lookup_entry-cached x ty n d.catalog s e)
                l,
          ),
        ),
      )
    ]

Reads-again :
    (i : ℕ) (type : CatalogType) (name : Str) (e : TableEntry) (d d' : Database)
    → Reads i type name e d
    → Steps i d d'
    → (x : ClientContext)
    → (t : Transaction) × ((d'.transactions i ≡ some t)
        × (lookup_entry x type name d'.catalog t ≡ (ok (some e), (d'.catalog, t))))
Reads-again i type name e _ _ (m, (t, (g, l))) (stop d) x =
    (t, (g, Holds-lookup_entry x type name d.catalog t e m l))
Reads-again i type name e _ _ r (then_step d w d' s ss) x =
    Reads-again i type name e w d' (Step-Reads i type name e d w s r) ss x

found_named :
    (x : ClientContext) (type : CatalogType) (name : Str) (c : Catalog) (t : Transaction)
    (e : TableEntry)
    → (lookup_entry x type name c t).0 ≡ ok (some e)
    → names_table type name c ≡ true
unfolding lookup_entry
found_named x type name c t e h = ground arith

-- A lookup that finds an entry leaves a transaction that reads it.
lookup_entry-Reads :
    (i : ℕ) (x : ClientContext) (type : CatalogType) (name : Str) (t : Transaction) (e : TableEntry)
    (d : Database)
    → (lookup_entry x type name d.catalog t).0 ≡ ok (some e)
    → Reads i type name e (after_lookup i ((lookup_entry x type name d.catalog t).1) d)
lookup_entry-Reads i x type name t e d h =
    let f = lookup_entry x type name d.catalog t in
    let same = lookup_entry-constants x type name d.catalog t in
    (
      ap (λ z. names_with type name z) (same.0) ∙ found_named x type name d.catalog t e h,
      (
        (f.1).1,
        (
          put_self i (some ((f.1).1)) d.transactions,
          lookup_entry-Holds x type name d.catalog t e h,
        ),
      ),
    )

-- A transaction that has found the table's entry finds the same entry, and with it the same snapshot,
-- in every later lookup under that name: whatever other transactions start, look up, commit or roll
-- back meanwhile, and whatever the kernel answers, with and without a cached snapshot.
pub repeatable_read :
    (i : ℕ) (x : ClientContext) (type : CatalogType) (name : Str) (t : Transaction) (e : TableEntry)
    (d d' : Database)
    → (lookup_entry x type name d.catalog t).0 ≡ ok (some e)
    → Steps i (after_lookup i ((lookup_entry x type name d.catalog t).1) d) d'
    → (y : ClientContext)
    → (u : Transaction) × ((d'.transactions i ≡ some u)
        × (lookup_entry y type name d'.catalog u ≡ (ok (some e), (d'.catalog, u))))
repeatable_read i x type name t e d d' h s y =
    Reads-again i type name e _ d' (lookup_entry-Reads i x type name t e d h) s y
