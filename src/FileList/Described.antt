-- ===== src/FileList/Described.antt =====
-- What the metadata of a file holds: what the kernel reported of this file.
use mathlib.Core.Path.{subst}
use mathlib.Core.Option.{none-ne-some}
use duckdb_delta.Prelude.{
  ℕ, ◌≡◌, refl, sym, ap, ◌∙◌, ◌++◌, ◌⊎◌, inl, inr, Bool, Bool-cases, true, false, Option, none,
  some, List, [], ◌∷◌, Str, Result, Result-cases, ok, err,
}
use duckdb_delta.Values.{Exprs}
use duckdb_delta.Errors.{ExternResult, try_unpack_result}
use duckdb_delta.Expression.Kernel.{KernelExprs, visit_kernel_expression}
use duckdb_delta.FileList.State.{DeltaFileMetaData, ScanFile, DeltaMultiFileList, Kernel}
use duckdb_delta.FileList.Callback.{
  change_last, is_nil, or_invalid, constant_map, keep, then_fetch, append_file,
  fetch_deletion_vector, fetch_partitions, is_unknown_storage_format, visit_callback, new_metadata,
}
use duckdb_delta.FileList.Frame.{OkAll}

-- The vector that the kernel answers with; none where its answer is the error that is passed over.
abbrev pub HasVector : ExternResult (Option (List Bool)) → Option (List Bool) → Type 0
HasVector r v =
    ((is_unknown_storage_format r ≡ true) × (v ≡ none))
    ⊎ ((is_unknown_storage_format r ≡ false) × (try_unpack_result r ≡ ok v))

module _ (k : Kernel) (partitions : List Str) (ids : List ℕ) where
  -- The partition values are those of the transform; a table without partitions may have none.
  abbrev pub HasPartitions : Option KernelExprs → DeltaFileMetaData → Type 0
  HasPartitions none m = (is_nil partitions ≡ true) × (m.partition_map ≡ [])
  HasPartitions (some transform) m =
      (es : Exprs) × ((visit_kernel_expression k.library transform ≡ ok (some es))
        × (constant_map es partitions ids [] ≡ ok m.partition_map))

  -- The metadata is that of the file.
  pub record Describes (f : ScanFile) (m : DeltaFileMetaData) : Type 0 where
    pub cardinality : m.cardinality ≡ or_invalid f.stats
    pub vector : HasVector f.selection_vector m.selection_vector
    pub partition_values : HasPartitions f.transform m

  change_last-append :
      (g : DeltaFileMetaData → DeltaFileMetaData) (ms : List DeltaFileMetaData)
      (m : DeltaFileMetaData)
      → change_last g (ms ++ m ∷ []) ≡ ms ++ g m ∷ []
  unfolding change_last
  change_last-append g [] m = refl
  change_last-append g (n ∷ []) m = refl
  change_last-append g (n ∷ o ∷ ms) m = ap (◌∷◌ n) (change_last-append g (o ∷ ms) m)

  -- The metadata after the deletion vector is fetched.
  abbrev WithVector : List DeltaFileMetaData → ScanFile → DeltaMultiFileList → Type 0
  WithVector ms f t =
      ((t.partitions ≡ partitions) × (t.partition_ids ≡ ids))
      × ((m : DeltaFileMetaData) × ((t.metadata ≡ ms ++ m ∷ [])
            × ((m.cardinality ≡ or_invalid f.stats)
                × ((m.partition_map ≡ []) × HasVector f.selection_vector m.selection_vector))))

  abbrev pub IsAppended : List DeltaFileMetaData → ScanFile → DeltaMultiFileList → Type 0
  IsAppended ms f t = (m : DeltaFileMetaData) × ((t.metadata ≡ ms ++ m ∷ []) × Describes f m)

  deletion_vector-WithVector :
      (f : ScanFile) (s : DeltaMultiFileList)
      → s.partitions ≡ partitions
      → s.partition_ids ≡ ids
      → OkAll
          (WithVector s.metadata f)
          (fetch_deletion_vector f.selection_vector (append_file k f s))
  unfolding fetch_deletion_vector append_file new_metadata
  deletion_vector-WithVector f s e q =
      elim (Bool-cases (is_unknown_storage_format f.selection_vector)) [
        | inl b ↦ rw b ((e, q), (new_metadata s f.stats, (refl, (refl, (refl, inl (b, refl))))))
        | inr b ↦ elim (Result-cases (try_unpack_result f.selection_vector)) [
          | inr (d, c) ↦ rw (b, c) tt
          | inl (none, c) ↦
              rw (b, c) ((e, q), (new_metadata s f.stats, (refl, (refl, (refl, inr (b, c))))))
          | inl (some v, c) ↦
              rw (b, c)
                (
                  (e, q),
                  (
                    record (new_metadata s f.stats) { selection_vector = some v },
                    (
                      change_last-append _ s.metadata (new_metadata s f.stats),
                      (refl, (refl, inr (b, c))),
                    ),
                  ),
                )
        ]
      ]

  partitions-IsAppended :
      (ms : List DeltaFileMetaData) (f : ScanFile) (s : DeltaMultiFileList)
      → WithVector ms f s
      → OkAll (IsAppended ms f) (fetch_partitions k f.transform s)
  unfolding fetch_partitions
  partitions-IsAppended ms f s ((p, q), (m, (e, (c, (n, v))))) = go f.transform refl
    where
      go :
          (x : Option KernelExprs)
          → f.transform ≡ x
          → OkAll (IsAppended ms f) (fetch_partitions k x s)
      go none y = elim (Bool-cases (is_nil s.partitions)) [
        | inl b ↦ rw b (
          m,
          (
            e,
            record {
              cardinality = c;
              vector = v;
              partition_values = subst (λ z. HasPartitions z m) (sym y) (ap is_nil (sym p) ∙ b, n);
            },
          ),
        )
        | inr b ↦ rw b tt
      ]
      go (some transform) y = elim (Result-cases (visit_kernel_expression k.library transform)) [
        | inr (d, w) ↦ rw w tt
        | inl (none, w) ↦ rw w tt
        | inl (some es, w) ↦ elim (Result-cases (constant_map es s.partitions s.partition_ids [])) [
          | inr (d, g) ↦ rw (w, g) tt
          | inl (values, g) ↦
              rw (w, g)
                (
                  record m { partition_map = values; transform_expression = some es },
                  (
                    ap (change_last _) e ∙ change_last-append _ ms m,
                    record {
                      cardinality = c;
                      vector = v;
                      partition_values =
                          subst
                            (λ z.
                              HasPartitions z (record m {
                                partition_map = values;
                                transform_expression = some es;
                              }))
                            (sym y)
                            (
                              es,
                              (
                                w,
                                ap (λ a. constant_map es a ids []) (sym p)
                                    ∙ ap (λ a. constant_map es s.partitions a []) (sym q)
                                    ∙ g,
                              ),
                            );
                    },
                  ),
                )
        ]
      ]

  pub visit_callback-IsAppended :
      (f : ScanFile) (s : DeltaMultiFileList)
      → s.partitions ≡ partitions
      → s.partition_ids ≡ ids
      → (visit_callback k f s).1 ≡ none
      → IsAppended s.metadata f ((visit_callback k f s).0)
  unfolding visit_callback
  visit_callback-IsAppended f s p q =
      go (fetch_deletion_vector f.selection_vector (append_file k f s))
        (deletion_vector-WithVector f s p q)
    where
      last :
          (t : DeltaMultiFileList) (r : Result DeltaMultiFileList)
          → OkAll (IsAppended s.metadata f) r
          → (keep t r).1 ≡ none
          → IsAppended s.metadata f ((keep t r).0)
      last t (ok u) h e = h
      last t (err d) h e = absurd (none-ne-some d (sym e))

      go :
          (r : Result DeltaMultiFileList)
          → OkAll (WithVector s.metadata f) r
          → let visit =
              then_fetch
                (λ t. keep t (fetch_partitions k f.transform t))
                (keep (append_file k f s) r) in
            (visit.1 ≡ none → IsAppended s.metadata f (visit.0))
      go (ok t) h e =
          last t (fetch_partitions k f.transform t) (partitions-IsAppended s.metadata f t h) e
      go (err d) h e = absurd (none-ne-some d (sym e))
