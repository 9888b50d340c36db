-- ===== src/FileList/Attributed.antt =====
-- The files of a list, each with its metadata, against those that the kernel reported.
use mathlib.Core.List.{append_assoc}
use mathlib.Core.Path.{subst}
use mathlib.Core.Bool.{true≢false}
use mathlib.Core.Option.{none-ne-some}
use duckdb_delta.Prelude.{
  ℕ, zero, suc, ◌≡◌, refl, sym, ap, ◌∙◌, ◌++◌, true, false, inl, inr, Bool-cases, Option,
  Option-cases, none, some, List, [], ◌∷◌, Str, is_empty, ErrorData, Result, ok, err, ltb, length,
  get_elem?, Bool,
}
use duckdb_delta.Errors.{try_unpack_result}
use duckdb_delta.Paths.{resolve_file}
use duckdb_delta.FileList.State.{DeltaFileMetaData, ScanFile, Batch, DeltaMultiFileList, Kernel}
use duckdb_delta.FileList.Callback.{visit_files}
use duckdb_delta.FileList.Expand.{
  after_batch, file_at, expand_until, get_file_expanded, get_file_internal, get_metadata,
}
use duckdb_delta.FileList.Frame.{visit_files-Appends}
use duckdb_delta.FileList.Listing.{IsReady, ensure_scan_ready}
use duckdb_delta.FileList.Described.{Describes}
use duckdb_delta.FileList.Opened.{Post, Post-of}
use duckdb_delta.FileList.Seen.{
  all_files, IsFound, AreDescribed-IsFound, HasSeen, visit_files-HasSeen,
}

module _ (k : Kernel) (root : Str) (partitions : List Str) (ids : List ℕ) where
  -- The list is ready, and what it has and what is left are together the files `total`.
  abbrev pub IsRead : List ScanFile → DeltaMultiFileList → Type 0
  IsRead total s =
      (seen : List ScanFile) × (IsReady s
        × (HasSeen k root partitions ids seen s × (seen ++ all_files s.scan_data_iterator ≡ total)))

  -- A path that is returned is that of the file with this number, whose metadata is in its place.
  abbrev pub Attributes : List ScanFile → ℕ → Str → DeltaMultiFileList → Type 0
  Attributes total i p t =
      IsRead total t
      × (is_empty p ≡ false → IsFound k root partitions ids total i p (get_elem? t.metadata i))

  no_path :
      (total : List ScanFile) (i : ℕ) (o : Option DeltaFileMetaData)
      → is_empty [] ≡ false
      → IsFound k root partitions ids total i [] o
  no_path total i o e = absurd (true≢false e)

  get_elem?-append_some :
      (fs gs : List ScanFile) (i : ℕ) (f : ScanFile)
      → get_elem? fs i ≡ some f
      → get_elem? (fs ++ gs) i ≡ some f
  get_elem?-append_some [] gs i f e = absurd (none-ne-some f e)
  get_elem?-append_some (g ∷ fs) gs zero f e = e
  get_elem?-append_some (g ∷ fs) gs (suc i) f e = get_elem?-append_some fs gs i f e

  file_at-Attributes :
      (total : List ScanFile) (i : ℕ) (s : DeltaMultiFileList)
      → IsRead total s
      → Attributes total i (file_at s i) s
  file_at-Attributes total i s (seen, (y, ((at, h), e))) =
      elim (Option-cases (get_elem? s.resolved_files i)) [
        | inl n ↦
            rw (file_at, n) ((seen, (y, ((at, h), e))), no_path total i (get_elem? s.metadata i))
        | inr (p, q) ↦
            let (f, (g, found)) =
              AreDescribed-IsFound k root partitions ids seen s.resolved_files s.metadata i p h q in
            let whole =
              subst (λ fs. get_elem? fs i ≡ some f) e
                (get_elem?-append_some seen (all_files s.scan_data_iterator) i f g) in
            rw (file_at, q) ((seen, (y, ((at, h), e))), λ x. (f, (whole, found)))
      ]

  exhausted-Attributes :
      (total : List ScanFile) (i : ℕ) (s : DeltaMultiFileList)
      → IsRead total s
      → Attributes total i [] (record s { files_exhausted = true })
  exhausted-Attributes total i s h = (h, no_path total i (get_elem? s.metadata i))

  after_batch-Attributes :
      (total : List ScanFile) (i : ℕ) (r : Result Bool) (e : Option ErrorData)
      (again : DeltaMultiFileList → Result Str × DeltaMultiFileList) (s : DeltaMultiFileList)
      → (e ≡ none → IsRead total s)
      → (e ≡ none → Post (Attributes total i) (again s))
      → Post (Attributes total i) (after_batch r e again s)
  unfolding after_batch
  after_batch-Attributes total i r (some d) again s h g = tt
  after_batch-Attributes total i (err d) none again s h g = tt
  after_batch-Attributes total i (ok false) none again s h g =
      exhausted-Attributes total i s (h refl)
  after_batch-Attributes total i (ok true) none again s h g = g refl

  visited-IsRead :
      (total : List ScanFile) (b : Batch) (bs : List Batch) (s : DeltaMultiFileList)
      → s.scan_data_iterator ≡ b ∷ bs
      → IsRead total s
      → let visit = visit_files k b.files none (record s { scan_data_iterator = bs }) in
        visit.1 ≡ none → IsRead total (visit.0)
  unfolding all_files
  visited-IsRead total b bs s q (seen, (y, (h, e))) n =
      let taking = record s { scan_data_iterator = bs } in
      let frame = (visit_files-Appends k b.files none taking).0 in
      (
        seen ++ b.files,
        (
          (frame.snapshot_ready ∙ y.0, frame.scan_ready ∙ y.1),
          (
            visit_files-HasSeen k root partitions ids seen b.files none taking h n,
            ap (λ z. (seen ++ b.files) ++ all_files z) frame.iterator
                ∙ append_assoc seen b.files (all_files bs)
                ∙ ap (λ z. seen ++ all_files z) (sym q)
                ∙ e,
          ),
        ),
      )

  expand_until-Attributes :
      (total : List ScanFile) (i : ℕ) (bs : List Batch) (s : DeltaMultiFileList)
      → s.scan_data_iterator ≡ bs
      → IsRead total s
      → Post (Attributes total i) (expand_until k i bs s)
  unfolding expand_until
  expand_until-Attributes total i [] s q h = elim (Bool-cases (ltb i (length s.resolved_files))) [
    | inl l ↦ rw (expand_until, l) (file_at-Attributes total i s h)
    | inr l ↦ rw (expand_until, l) (exhausted-Attributes total i s h)
  ]
  expand_until-Attributes total i (b ∷ bs) s q h =
      elim (Bool-cases (ltb i (length s.resolved_files))) [
        | inl l ↦ rw (expand_until, l) (file_at-Attributes total i s h)
        | inr l ↦
            let taking = record s { scan_data_iterator = bs } in
            let visit = visit_files k b.files none taking in
            let frame = (visit_files-Appends k b.files none taking).0 in
            rw (expand_until, l)
              (after_batch-Attributes total i (try_unpack_result b.have_scan_data) (visit.1)
                (expand_until k i bs) (visit.0) (visited-IsRead total b bs s q h)
                (λ n.
                  expand_until-Attributes total i bs (visit.0) frame.iterator
                    (visited-IsRead total b bs s q h n)))
      ]

  get_file_expanded-Attributes :
      (total : List ScanFile) (i : ℕ) (s : DeltaMultiFileList)
      → IsRead total s
      → Post (Attributes total i) (get_file_expanded k i s)
  unfolding get_file_expanded
  get_file_expanded-Attributes total i s h = elim (Bool-cases (ltb i (length s.resolved_files))) [
    | inl l ↦ rw (get_file_expanded, l) (file_at-Attributes total i s h)
    | inr l ↦ elim (Bool-cases s.files_exhausted) [
      | inl x ↦ simp (get_file_expanded, l, x) (h, no_path total i (get_elem? s.metadata i))
      | inr x ↦
          simp (get_file_expanded, l, x)
            (expand_until-Attributes total i s.scan_data_iterator s refl h)
    ]
  ]

get_metadata-some :
    (i : ℕ) (t : DeltaMultiFileList) (m : DeltaFileMetaData)
    → get_elem? t.metadata i ≡ some m
    → get_metadata i t ≡ ok m
unfolding get_metadata
get_metadata-some i t m e = rw (get_metadata, e) refl

-- The list reads the files that the kernel reports, from where `s` stands.
abbrev pub IsReading : Kernel → DeltaMultiFileList → List ScanFile → DeltaMultiFileList → Type 0
IsReading k s total t = IsRead k s.path s.partitions s.partition_ids total t

-- The `i`-th file that the kernel reported has this path, and `GetMetaData` answers for it with what was
-- reported of it.
abbrev pub IsAttributed :
    Kernel → DeltaMultiFileList → List ScanFile → ℕ → Str → DeltaMultiFileList → Type 0
IsAttributed k s total i p t =
    (f : ScanFile) × ((get_elem? total i ≡ some f)
      × ((p ≡ resolve_file k.garbage s.path f.path)
          × ((m : DeltaFileMetaData) × ((get_metadata i t ≡ ok m)
                × Describes k s.partitions s.partition_ids f m))))

-- A list is ready, and has for each file that it lists the metadata that the kernel reported of this
-- file: the record count, the deletion vector unless the answer was the error that is passed over, and
-- the partition values of the transform. Then, whenever `GetFileInternal` returns a path that is not empty,
-- it is the path of the file that the kernel reported with this number, `GetMetaData` answers with what was
-- reported of this file, and the list still has so for each file that it lists.
pub get_file_internal-IsAttributed :
    (k : Kernel) (total : List ScanFile) (i : ℕ) (s t : DeltaMultiFileList) (p : Str)
    → IsReading k s total s
    → get_file_internal k i s ≡ (ok p, t)
    → is_empty p ≡ false
    → IsReading k s total t × IsAttributed k s total i p t
unfolding get_file_internal
get_file_internal-IsAttributed k total i s t p h e x =
    let same : get_file_internal k i s ≡ get_file_expanded k i s =
      rw (ensure_scan_ready k s ((h.1).0)) refl in
    let (read, found) =
      Post-of (Attributes k s.path s.partitions s.partition_ids total i) (get_file_expanded k i s) p
        t (sym same ∙ e)
        (get_file_expanded-Attributes k s.path s.partitions s.partition_ids total i s h) in
    let (f, (g, (q, (m, (o, d))))) = found x in
    (read, (f, (g, (q, (m, (get_metadata-some i t m o, d))))))
