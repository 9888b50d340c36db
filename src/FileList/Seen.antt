-- ===== src/FileList/Seen.antt =====
-- What a visit of files adds to the files that a list has seen.
use mathlib.Core.List.{append-nil, append_assoc}
use mathlib.Core.Path.{subst}
use mathlib.Core.Option.{none-ne-some, some_inj}
use duckdb_delta.Prelude.{
  ℕ, zero, suc, ◌≡◌, refl, sym, ap, ◌∙◌, ◌++◌, Option, none, some, List, [], ◌∷◌, Str, ErrorData,
  get_elem?,
}
use duckdb_delta.Paths.{resolve_file}
use duckdb_delta.FileList.State.{DeltaFileMetaData, ScanFile, Batch, DeltaMultiFileList, Kernel}
use duckdb_delta.FileList.Callback.{visit_callback, visit_files, latest}
use duckdb_delta.FileList.Frame.{visit_callback-Appends}
use duckdb_delta.FileList.Described.{Describes, visit_callback-IsAppended}

-- The files of all the batches that are left, as the kernel reports them.
unfoldable pub all_files : List Batch → List ScanFile
all_files [] = []
all_files (b ∷ bs) = b.files ++ all_files bs

module _ (k : Kernel) (root : Str) (partitions : List Str) (ids : List ℕ) where
  unfoldable pub AreDescribed : List ScanFile → List Str → List DeltaFileMetaData → Type 0
  AreDescribed [] [] [] = Unit
  AreDescribed (f ∷ fs) (p ∷ ps) (m ∷ ms) =
      ((p ≡ resolve_file k.garbage root f.path) × Describes k partitions ids f m)
      × AreDescribed fs ps ms
  AreDescribed _ _ _ = ⊥

  AreDescribed-append :
      (fs : List ScanFile) (ps : List Str) (ms : List DeltaFileMetaData) (f : ScanFile) (p : Str)
      (m : DeltaFileMetaData)
      → AreDescribed fs ps ms
      → p ≡ resolve_file k.garbage root f.path
      → Describes k partitions ids f m
      → AreDescribed (fs ++ f ∷ []) (ps ++ p ∷ []) (ms ++ m ∷ [])
  unfolding AreDescribed
  AreDescribed-append [] [] [] f p m h e d = ((e, d), tt)
  AreDescribed-append (g ∷ fs) (q ∷ ps) (n ∷ ms) f p m (x, h) e d =
      (x, AreDescribed-append fs ps ms f p m h e d)
  AreDescribed-append [] [] (n ∷ ms) f p m h e d = absurd h
  AreDescribed-append [] (q ∷ ps) ms f p m h e d = absurd h
  AreDescribed-append (g ∷ fs) [] ms f p m h e d = absurd h
  AreDescribed-append (g ∷ fs) (q ∷ ps) [] f p m h e d = absurd h

  -- The file that the kernel reported as the `i`-th, and its metadata.
  abbrev pub IsFound : List ScanFile → ℕ → Str → Option DeltaFileMetaData → Type 0
  IsFound fs i p o =
      (f : ScanFile) × ((get_elem? fs i ≡ some f)
        × ((p ≡ resolve_file k.garbage root f.path)
            × ((m : DeltaFileMetaData) × ((o ≡ some m) × Describes k partitions ids f m))))

  pub AreDescribed-IsFound :
      (fs : List ScanFile) (ps : List Str) (ms : List DeltaFileMetaData) (i : ℕ) (p : Str)
      → AreDescribed fs ps ms
      → get_elem? ps i ≡ some p
      → IsFound fs i p (get_elem? ms i)
  unfolding AreDescribed
  AreDescribed-IsFound [] [] ms i p h e = absurd (none-ne-some p e)
  AreDescribed-IsFound (f ∷ fs) (q ∷ ps) (m ∷ ms) zero p ((x, d), h) e =
      (f, (refl, (sym (some_inj.0 e) ∙ x, (m, (refl, d)))))
  AreDescribed-IsFound (f ∷ fs) (q ∷ ps) (m ∷ ms) (suc i) p (x, h) e =
      AreDescribed-IsFound fs ps ms i p h e
  AreDescribed-IsFound [] (q ∷ ps) ms i p h e = absurd h
  AreDescribed-IsFound (f ∷ fs) [] ms i p h e = absurd h
  AreDescribed-IsFound (f ∷ fs) (q ∷ ps) [] i p h e = absurd h

  -- The files of the list are those that were seen.
  abbrev pub HasSeen : List ScanFile → DeltaMultiFileList → Type 0
  HasSeen seen s =
      ((s.path ≡ root) × ((s.partitions ≡ partitions) × (s.partition_ids ≡ ids)))
      × AreDescribed seen s.resolved_files s.metadata

  visit_callback-HasSeen :
      (seen : List ScanFile) (f : ScanFile) (s : DeltaMultiFileList)
      → HasSeen seen s
      → (visit_callback k f s).1 ≡ none
      → HasSeen (seen ++ f ∷ []) ((visit_callback k f s).0)
  visit_callback-HasSeen seen f s ((r, (p, q)), h) e =
      let (frame, files) = visit_callback-Appends k f s in
      let (m, (metadata, d)) = visit_callback-IsAppended k partitions ids f s p q e in
      (
        (frame.path ∙ r, (frame.partitions ∙ p, frame.partition_ids ∙ q)),
        subst (λ z. AreDescribed (seen ++ f ∷ []) z (((visit_callback k f s).0).metadata))
            (sym files)
            (subst
              (λ z.
                AreDescribed (seen ++ f ∷ [])
                  (s.resolved_files ++ resolve_file k.garbage s.path f.path ∷ []) z)
              (sym metadata)
              (AreDescribed-append seen s.resolved_files s.metadata f _ m h
                (ap (λ z. resolve_file k.garbage z f.path) r) d)),
      )

  latest-none : (e o : Option ErrorData) → latest e o ≡ none → (e ≡ none) × (o ≡ none)
  latest-none e none h = (h, refl)
  latest-none e (some d) h = absurd (none-ne-some d (sym h))

  -- A visit that ends without an error met none.
  visit_files-none :
      (fs : List ScanFile) (e : Option ErrorData) (s : DeltaMultiFileList)
      → (visit_files k fs e s).1 ≡ none
      → e ≡ none
  unfolding visit_files
  visit_files-none [] e s h = h
  visit_files-none (f ∷ fs) e s h =
      (latest-none e _ (visit_files-none fs _ ((visit_callback k f s).0) h)).0

  pub visit_files-HasSeen :
      (seen fs : List ScanFile) (e : Option ErrorData) (s : DeltaMultiFileList)
      → HasSeen seen s
      → (visit_files k fs e s).1 ≡ none
      → HasSeen (seen ++ fs) ((visit_files k fs e s).0)
  unfolding visit_files
  visit_files-HasSeen seen [] e s h n = subst (λ z. HasSeen z s) (sym (append-nil seen)) h
  visit_files-HasSeen seen (f ∷ fs) e s h n =
      let t = (visit_callback k f s).0 in
      let met = latest-none e _ (visit_files-none fs _ t n) in
      subst (λ z. HasSeen z ((visit_files k fs (latest e ((visit_callback k f s).1)) t).0))
        (append_assoc seen (f ∷ []) fs)
        (visit_files-HasSeen (seen ++ f ∷ []) fs _ t (visit_callback-HasSeen seen f s h (met.1)) n)
