-- ===== src/Reader/Partitions.antt =====
-- Where DuckDB finds the partition columns.
use mathlib.Core.Path.{subst}
use mathlib.Core.List.{append-nil, append_assoc}
use duckdb_delta.Prelude.{
  ℕ, zero, suc, ◌++◌, ◌≡◌, ◌∙◌, refl, sym, ap, Bool-cases, inl, inr, true, none, some, List, [],
  ◌∷◌, map, All, Str, codes, ok,
}
use duckdb_delta.Types.{Fields, end, field}
use duckdb_delta.FileList.State.{DeltaMultiFileList, Kernel}
use duckdb_delta.FileList.Expand.{get_partition_columns}
use duckdb_delta.Reader.Host.{Host, BindState, ci_equals}
use duckdb_delta.Reader.Options.{
  disable, index_of_name, partition_indexes, pushes_partition_info, find_option, forward_partitions,
  bind_schema, bind_options,
}

-- The column at a place has the name, in any case.
abbrev pub NamedAt : Str → Fields → ℕ → Type 0
NamedAt part end i = ⊥
NamedAt part (field n t fs) zero = ci_equals n part ≡ true
NamedAt part (field n t fs) (suc i) = NamedAt part fs i

-- Some column has the name.
abbrev pub IsColumn : Fields → Str → Type 0
IsColumn columns part = (i : ℕ) × NamedAt part columns i

-- The entry's place is that of a column with the entry's name.
abbrev pub IsPlaced : Fields → Str × ℕ → Type 0
IsPlaced columns (part, i) = NamedAt part columns i

index_of_name-IsColumn :
    (part : Str) (columns : Fields)
    → IsColumn columns part
    → (i : ℕ) × ((index_of_name part columns ≡ some i) × NamedAt part columns i)
unfolding index_of_name
index_of_name-IsColumn part end (i, h) = absurd h
index_of_name-IsColumn part (field n t fs) (zero, h) = (0, (rw h refl, h))
index_of_name-IsColumn part (field n t fs) (suc i, h) = elim (Bool-cases (ci_equals n part)) [
  | inl e ↦ (0, (rw e refl, e))
  | inr e ↦
      let (j, (q, g)) = index_of_name-IsColumn part fs (i, h) in (suc j, (rw e (rw q refl), g))
]

partition_indexes_lem :
    (columns : Fields) (partitions : List Str) (l : List (Str × ℕ))
    → All (IsColumn columns) partitions
    → (m : List (Str × ℕ)) × ((partition_indexes columns partitions l ≡ ok (l ++ m))
        × ((map (λ p. p.0) m ≡ partitions) × All (IsPlaced columns) m))
unfolding partition_indexes
partition_indexes_lem columns [] l h = ([], (ap ok (sym (append-nil l)), (refl, tt)))
partition_indexes_lem columns (part ∷ partitions) l h =
    let (i, (q, g)) = index_of_name-IsColumn part columns (h.0) in
    let (m, (r, (names, placed))) =
      partition_indexes_lem columns partitions (l ++ (part, i) ∷ []) (h.1) in
    (
      (part, i) ∷ m,
      (
        rw (q, partition_indexes) (r ∙ ap ok (append_assoc l ((part, i) ∷ []) m)),
        (ap (◌∷◌ part) names, (g, placed)),
      ),
    )

-- Where the setting is not given, DuckDB's own binding succeeds without an entry of its own, the scan's
-- partition columns are known, and each is a column of the table (in any case): binding succeeds, and
-- gives one entry for each partition column, in their order, at the place of a column of that name.
pub bind_options-partitions :
    (host : Host) (k : Kernel) (b b1 : BindState) (s t : DeltaMultiFileList) (partitions : List Str)
    → host.bind_options (disable b) ≡ ok b1
    → find_option (codes "pushdown_partition_info") b1.options.custom_options ≡ none
    → b1.hive_partitioning_indexes ≡ []
    → get_partition_columns k s ≡ (ok partitions, t)
    → All (IsColumn b1.columns) partitions
    → (b2 : BindState) × ((bind_options host k b s ≡ (ok b2, t))
        × ((map (λ p. p.0) b2.hive_partitioning_indexes ≡ partitions)
            × All (IsPlaced b1.columns) b2.hive_partitioning_indexes))
unfolding bind_options forward_partitions bind_schema pushes_partition_info
bind_options-partitions host k b b1 s t partitions h hf he hp hc =
    let l = b1.hive_partitioning_indexes in
    let (m, (r, (names, placed))) = partition_indexes_lem b1.columns partitions l hc in
    (
      bind_schema k (record b1 { hive_partitioning_indexes = l ++ m }),
      (
        rw h (rw hf (rw hp (rw r refl))),
        subst (λ x. (map (λ p. p.0) (x ++ m) ≡ partitions) × All (IsPlaced b1.columns) (x ++ m))
            (sym he) (names, placed),
      ),
    )
