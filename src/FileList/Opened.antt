-- ===== src/FileList/Opened.antt =====
-- What a successful initialisation of the snapshot and the scan leaves in a list.
use duckdb_delta.Prelude.{
  ℕ, ◌≡◌, refl, sym, ◌∙◌, Bool, true, false, Bool-cases, inl, inr, some, List, [], ◌∷◌, ◌++◌, ◌==◌,
  length, Str, Result, ok, err, Result-cases, if◌then◌else◌,
}
use duckdb_delta.Columns.{ColumnDefs}
use duckdb_delta.Errors.{try_unpack_result}
use duckdb_delta.FileList.State.{DeltaMultiFileList, Kernel, Exec, ◌>>=◌, continue, return}
use duckdb_delta.FileList.Init.{
  check_scan, ensure_snapshot_initialized, initialize_snapshot, open_snapshot,
  ensure_scan_initialized, initialize_scan, open_scan, load_partitions, load_schema, read_columns,
  find_partition_ids,
}
use mathlib.Core.Path.{subst}

-- A run that ends without an error leaves what `P` says.
abbrev pub Post :
    {A : Type 0} → (A → DeltaMultiFileList → Type 0) → Result A × DeltaMultiFileList → Type 0
Post P (ok a, s) = P a s
Post P (err e, s) = Unit

continue-Post :
    {A B : Type 0} (P : A → DeltaMultiFileList → Type 0) (Q : B → DeltaMultiFileList → Type 0)
    (f : A → Exec B) (p : Result A × DeltaMultiFileList)
    → Post P p
    → ((a : A) (s : DeltaMultiFileList) → P a s → Post Q (f a s))
    → Post Q (continue (p.0) f (p.1))
continue-Post P Q f (ok a, s) h g = g a s h
continue-Post P Q f (err e, s) h g = tt

Post-map :
    {A : Type 0} (P Q : A → DeltaMultiFileList → Type 0)
    → ((a : A) (s : DeltaMultiFileList) → P a s → Q a s)
    → (p : Result A × DeltaMultiFileList) → Post P p
    → Post Q p
Post-map P Q g (ok a, s) h = g a s h
Post-map P Q g (err e, s) h = tt

-- What has not been read of the files, and the filters that the scan is made with, are the same.
pub record IsUnread (s t : DeltaMultiFileList) : Type 0 where
  pub path : t.path ≡ s.path
  pub columns : t.columns ≡ s.columns
  pub table_filters : t.table_filters ≡ s.table_filters
  pub resolved_files : t.resolved_files ≡ s.resolved_files
  pub files_exhausted : t.files_exhausted ≡ s.files_exhausted
  pub initialized_scan : t.initialized_scan ≡ s.initialized_scan

-- The snapshot `h` is open.
abbrev pub HasSnapshot : ℕ → DeltaMultiFileList → DeltaMultiFileList → Type 0
HasSnapshot h s t = IsUnread s t × ((t.snapshot ≡ some h) × (t.initialized_snapshot ≡ true))

abbrev IsUnread-refl : (s : DeltaMultiFileList) → IsUnread s s
IsUnread-refl s = record {
  path = refl;
  columns = refl;
  table_filters = refl;
  resolved_files = refl;
  files_exhausted = refl;
  initialized_scan = refl;
}

initialize_snapshot-HasSnapshot :
    (k : Kernel) (h : ℕ) (s : DeltaMultiFileList)
    → s.snapshot ≡ some h
    → Post (λ _. HasSnapshot h s) (initialize_snapshot k s)
unfolding initialize_snapshot open_snapshot
initialize_snapshot-HasSnapshot k h s e = elim (Result-cases (k.create_engine s.path)) [
  | inl (engine, c) ↦
      rw (c, e)
        (
          record {
            path = refl;
            columns = refl;
            table_filters = refl;
            resolved_files = refl;
            files_exhausted = refl;
            initialized_scan = refl;
          },
          (refl, refl),
        )
  | inr (d, c) ↦ rw c tt
]

guarded-Post :
    {A : Type 0} (P : A → DeltaMultiFileList → Type 0) (p q : Result A × DeltaMultiFileList)
    (b : Bool)
    → (b ≡ true → Post P p)
    → (b ≡ false → Post P q)
    → Post P (elim b [ true ↦ p | false ↦ q ])
guarded-Post P p q true f g = f refl
guarded-Post P p q false f g = g refl

ensure_snapshot-HasSnapshot :
    (k : Kernel) (h : ℕ) (s : DeltaMultiFileList)
    → s.snapshot ≡ some h
    → Post (λ _. HasSnapshot h s) (ensure_snapshot_initialized k s)
unfolding ensure_snapshot_initialized
ensure_snapshot-HasSnapshot k h s e =
    guarded-Post (λ _. HasSnapshot h s) (ok tt, s) (initialize_snapshot k s) s.initialized_snapshot
      (λ b. (IsUnread-refl s, (e, b))) (λ b. initialize_snapshot-HasSnapshot k h s e)

-- The scan of the snapshot `h` with the list's filters that a list reads: the kernel opened it, and its
-- iterator has given the batches that are left.
pub record IsOpened (k : Kernel) (h : ℕ) (s t : DeltaMultiFileList) : Type 0 where
  pub engine : ℕ
  pub scan : ℕ
  pub opened : try_unpack_result ((k.open_scan h engine s.columns s.table_filters).0) ≡ ok scan
  pub started : try_unpack_result (k.iter_init engine scan) ≡ ok t.scan_data_iterator
  pub path : t.path ≡ s.path
  pub resolved_files : t.resolved_files ≡ s.resolved_files
  pub files_exhausted : t.files_exhausted ≡ s.files_exhausted
  pub initialized_snapshot : t.initialized_snapshot ≡ s.initialized_snapshot

open_scan-IsOpened :
    (k : Kernel) (h : ℕ) (s : DeltaMultiFileList)
    → s.snapshot ≡ some h
    → Post (λ _. IsOpened k h s) (open_scan k s)
unfolding open_scan
open_scan-IsOpened k h s e =
    let o = k.open_scan h s.extern_engine s.columns s.table_filters in
    elim (Result-cases (try_unpack_result (o.0))) [
      | inr (d, c) ↦ rw (e, c) tt
      | inl (scan, c) ↦ elim (Result-cases (check_scan s.path (o.1))) [
        | inr (d, x) ↦ rw (e, c, x) tt
        | inl (u, x) ↦ elim (Result-cases (try_unpack_result (k.iter_init s.extern_engine scan))) [
          | inr (d, y) ↦ rw (e, c, x, y) tt
          | inl (bs, y) ↦
              rw (e, c, x, y)
                (record {
                  engine = s.extern_engine;
                  scan = scan;
                  opened = c;
                  started = y;
                  path = refl;
                  resolved_files = refl;
                  files_exhausted = refl;
                  initialized_snapshot = refl;
                })
        ]
      ]
    ]

-- The partitions, the columns and the mark are no part of it.
abbrev IsOpened-moved :
    (k : Kernel) (h : ℕ) (s t : DeltaMultiFileList) (partitions : List Str) (ids : List ℕ)
    (defs : ColumnDefs) (b : Bool)
    → IsOpened k h s t
    → IsOpened k h s (record t {
      partitions = partitions;
      partition_ids = ids;
      lazy_loaded_schema = defs;
      initialized_scan = b;
    })
IsOpened-moved k h s t partitions ids defs b o = record {
  engine = o.engine;
  scan = o.scan;
  opened = o.opened;
  started = o.started;
  path = o.path;
  resolved_files = o.resolved_files;
  files_exhausted = o.files_exhausted;
  initialized_snapshot = o.initialized_snapshot;
}

module _ (k : Kernel) (h : ℕ) (s : DeltaMultiFileList) where
  load_partitions-IsOpened :
      (ps : List Str) (t : DeltaMultiFileList)
      → IsOpened k h s t
      → Post (λ _. IsOpened k h s) (load_partitions ps t)
  unfolding load_partitions
  load_partitions-IsOpened [] t o = o
  load_partitions-IsOpened (p ∷ ps) t o =
      let ids = t.partition_ids ++ find_partition_ids (p ∷ ps) t.columns in
      elim (Bool-cases (length (p ∷ ps) == length ids)) [
        | inl e ↦
            rw e (IsOpened-moved k h s t (p ∷ ps) ids t.lazy_loaded_schema t.initialized_scan o)
        | inr e ↦ rw e tt
      ]

  load_schema-IsOpened :
      (t : DeltaMultiFileList)
      → IsOpened k h s t
      → Post (λ _ u. IsOpened k h s u × (u.initialized_scan ≡ true)) (load_schema k t)
  unfolding load_schema
  load_schema-IsOpened t o = elim (Result-cases (read_columns k t)) [
    | inl (defs, e) ↦ rw e (IsOpened-moved k h s t t.partitions t.partition_ids defs true o, refl)
    | inr (d, e) ↦ rw e tt
  ]

  initialize_scan-IsOpened :
      s.snapshot ≡ some h
      → Post (λ _ u. IsOpened k h s u × (u.initialized_scan ≡ true)) (initialize_scan k s)
  unfolding initialize_scan
  initialize_scan-IsOpened e =
      let After =
        λ (u : Unit {0}) (t : DeltaMultiFileList). IsOpened k h s t × (t.initialized_scan ≡ true) in
      continue-Post (λ _. IsOpened k h s) After
        (λ g. load_partitions (k.partition_columns g) >>= λ _. load_schema k) (open_scan k s)
        (open_scan-IsOpened k h s e)
        (λ g t o.
          continue-Post (λ _. IsOpened k h s) After (λ _. load_schema k)
            (load_partitions (k.partition_columns g) t)
            (load_partitions-IsOpened (k.partition_columns g) t o) (λ _. load_schema-IsOpened))

-- The list `s` was initialised, and then opened.
abbrev pub IsStarted : Kernel → ℕ → DeltaMultiFileList → DeltaMultiFileList → Type 0
IsStarted k h s u =
    (t : DeltaMultiFileList) × (HasSnapshot h s t
      × (IsOpened k h t u × (u.initialized_scan ≡ true)))

pub ensure_scan-IsStarted :
    (k : Kernel) (h : ℕ) (s : DeltaMultiFileList)
    → s.snapshot ≡ some h
    → s.initialized_scan ≡ false
    → Post (λ _. IsStarted k h s) (ensure_scan_initialized k s)
unfolding ensure_scan_initialized
ensure_scan-IsStarted k h s e n =
    continue-Post (λ _. HasSnapshot h s) (λ _. IsStarted k h s)
      (λ _ t. (if t.initialized_scan then return tt else initialize_scan k) t)
      (ensure_snapshot_initialized k s) (ensure_snapshot-HasSnapshot k h s e)
      (λ _ t o.
        subst (λ b. Post (λ _. IsStarted k h s) ((if b then return tt else initialize_scan k) t))
          (sym ((o.0).initialized_scan ∙ n))
          (Post-map _ (λ _. IsStarted k h s) (λ _ u q. (t, (o, q))) (initialize_scan k t)
            (initialize_scan-IsOpened k h t ((o.1).0))))

pub Post-of :
    {A : Type 0} (P : A → DeltaMultiFileList → Type 0) (p : Result A × DeltaMultiFileList) (a : A)
    (s : DeltaMultiFileList)
    → p ≡ (ok a, s)
    → Post P p
    → P a s
Post-of P p a s e h = subst (Post P) e h
