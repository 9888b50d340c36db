-- ===== src/FileList/Listing.antt =====
-- The complete list of files that the kernel's iterator stands for, and the lazy reads of it.
use mathlib.Core.List.{append-nil, append_assoc}
use duckdb_delta.Prelude.{
  ℕ, ◌≤◌, ◌<◌, ◌≡◌, refl, sym, ap, ◌∙◌, ◌++◌, true, false, none, some, List, [], ◌∷◌, map, Str,
  Result, ok, arith, Bool-cases, inl, inr, ltb, length, get_elem?, length-append,
  get_elem?-append_left, get_elem?-none,
}
use duckdb_delta.Errors.{ok_result, try_unpack_result}
use duckdb_delta.FileList.State.{Batch, DeltaMultiFileList, Kernel}
use duckdb_delta.FileList.Callback.{visit_files}
use duckdb_delta.FileList.Expand.{after_batch, expand_until, get_file_expanded, get_file_internal}
use duckdb_delta.FileList.Init.{ensure_snapshot_initialized, ensure_scan_initialized}
use duckdb_delta.FileList.Frame.{paths_of, visit_files-Appends}

-- The files of all the batches that are left.
unfoldable pub listing : Kernel → Str → List Batch → List Str
unfolding paths_of
listing k path [] = []
listing k path (b ∷ bs) = paths_of k path b.files ++ listing k path bs

-- The state in which the kernel visits a batch.
abbrev pub taking : List Batch → DeltaMultiFileList → DeltaMultiFileList
taking bs s = record s { scan_data_iterator = bs }

-- The kernel reads every batch that is left, and no callback fails.
abbrev pub AreGood : Kernel → List Batch → DeltaMultiFileList → Type 0
AreGood k [] s = Unit
AreGood k (b ∷ bs) s =
    (b.have_scan_data ≡ ok_result true)
    × (((visit_files k b.files none (taking bs s)).1 ≡ none)
        × AreGood k bs ((visit_files k b.files none (taking bs s)).0))

-- Snapshot and scan are initialised.
abbrev pub IsReady : DeltaMultiFileList → Type 0
IsReady s = (s.initialized_snapshot ≡ true) × (s.initialized_scan ≡ true)

-- A list that is ready and whose files, those of the batches that are left included, are `total`.
pub data IsListing (k : Kernel) (total : List Str) (s : DeltaMultiFileList) : Type 0 where
  all_read : IsReady s → s.files_exhausted ≡ true → s.resolved_files ≡ total → IsListing k total s
  some_left :
      (bs : List Batch)
      → IsReady s
      → s.files_exhausted ≡ false
      → s.scan_data_iterator ≡ bs
      → AreGood k bs s
      → s.resolved_files ++ listing k s.path bs ≡ total
      → IsListing k total s

-- The `i`-th file, and the empty path past the end.
abbrev pub path_at : List Str → ℕ → Str
path_at total i = elim (get_elem? total i) [ none ↦ [] | some f ↦ f ]

path_at-append :
    (xs ys total : List Str) (i : ℕ)
    → xs ++ ys ≡ total
    → i < length xs
    → path_at xs i ≡ path_at total i
path_at-append xs ys total i h l =
    ap (λ o. elim o [ none ↦ [] | some f ↦ f ]) (sym (get_elem?-append_left xs ys i l))
    ∙ ap (λ t. path_at t i) h

pub path_at-end : (total : List Str) (i : ℕ) → length total ≤ i → path_at total i ≡ []
path_at-end total i l = ap (λ o. elim o [ none ↦ [] | some f ↦ f ]) (get_elem?-none total i l)

pub ltb-true : (a b : ℕ) → ltb a b ≡ true → a < b
ltb-true a b = ground arith

pub ltb-false : (a b : ℕ) → ltb a b ≡ false → b ≤ a
ltb-false a b = ground arith

-- What a read returns and leaves; past the end it has read everything.
abbrev pub Reads : Kernel → List Str → ℕ → Result Str × DeltaMultiFileList → Type 0
Reads k total i (r, s) =
    (r ≡ ok (path_at total i))
    × (IsListing k total s × (length total ≤ i → s.resolved_files ≡ total))

-- A file that is there is not past the end.
not_past_end :
    (xs ys total : List Str) (i : ℕ)
    → xs ++ ys ≡ total
    → i < length xs
    → length total ≤ i
    → xs ≡ total
not_past_end xs ys total i h l m = absurd (omega (arith, length-append xs ys, ap length h))

expand_until-Reads :
    (k : Kernel) (i : ℕ) (bs : List Batch) (s : DeltaMultiFileList) (total : List Str)
    → IsReady s
    → s.files_exhausted ≡ false
    → s.scan_data_iterator ≡ bs
    → AreGood k bs s
    → s.resolved_files ++ listing k s.path bs ≡ total
    → Reads k total i (expand_until k i bs s)
unfolding expand_until listing try_unpack_result after_batch
expand_until-Reads k i [] s total y e b g h = elim (Bool-cases (ltb i (length s.resolved_files))) [
  | inl l ↦
      rw (expand_until, l)
        (
          ap ok (path_at-append s.resolved_files [] total i h (ltb-true _ _ l)),
          (some_left [] y e b g h, not_past_end s.resolved_files [] total i h (ltb-true _ _ l)),
        )
  | inr l ↦
      let whole = sym (append-nil s.resolved_files) ∙ h in
      rw (expand_until, l)
        (
          ap ok (
              sym (path_at-end s.resolved_files i (ltb-false _ _ l)) ∙ ap (λ t. path_at t i) whole),
          (all_read y refl whole, λ m. whole),
        )
]
expand_until-Reads k i (b ∷ bs) s total y e q g h =
    elim (Bool-cases (ltb i (length s.resolved_files))) [
      | inl l ↦
          rw (expand_until, l)
            (
              ap ok (
                  path_at-append s.resolved_files (listing k s.path (b ∷ bs)) total i h
                    (ltb-true _ _ l)),
              (
                some_left (b ∷ bs) y e q g h,
                not_past_end s.resolved_files (listing k s.path (b ∷ bs)) total i h
                    (ltb-true _ _ l),
              ),
            )
      | inr l ↦
          let v = visit_files-Appends k b.files none (taking bs s) in
          let t = (visit_files k b.files none (taking bs s)).0 in
          let left =
            ap (λ xs. xs ++ listing k t.path bs) (v.1)
            ∙ ap (λ path. (s.resolved_files ++ paths_of k s.path b.files) ++ listing k path bs)
                ((v.0).path)
            ∙ append_assoc s.resolved_files (paths_of k s.path b.files) (listing k s.path bs)
            ∙ h in
          let ready : IsReady t = ((v.0).snapshot_ready ∙ y.0, (v.0).scan_ready ∙ y.1) in
          rw (expand_until, l, (g.1).0, g.0)
            (expand_until-Reads k i bs t total ready ((v.0).exhausted ∙ e) ((v.0).iterator)
              ((g.1).1) left)
    ]

get_file_expanded-Reads :
    (k : Kernel) (i : ℕ) (s : DeltaMultiFileList) (total : List Str)
    → IsListing k total s
    → Reads k total i (get_file_expanded k i s)
unfolding get_file_expanded
get_file_expanded-Reads k i s total (all_read y e h) =
    elim (Bool-cases (ltb i (length s.resolved_files))) [
      | inl l ↦ rw l (ap (λ t. ok (path_at t i)) h, (all_read y e h, λ m. h))
      | inr l ↦
          simp (l, e)
            (
              ap ok (
                  sym (path_at-end s.resolved_files i (ltb-false _ _ l)) ∙ ap (λ t. path_at t i) h),
              (all_read y e h, λ m. h),
            )
    ]
get_file_expanded-Reads k i s total (some_left bs y e q g h) =
    elim (Bool-cases (ltb i (length s.resolved_files))) [
      | inl l ↦ rw l (
        ap ok (path_at-append s.resolved_files (listing k s.path bs) total i h (ltb-true _ _ l)),
        (
          some_left bs y e q g h,
          not_past_end s.resolved_files (listing k s.path bs) total i h (ltb-true _ _ l),
        ),
      )
      | inr l ↦ simp (l, e, q) (expand_until-Reads k i bs s total y e q g h)
    ]

-- Where the snapshot and the scan are initialised, the guards do nothing.
pub ensure_scan_ready :
    (k : Kernel) (s : DeltaMultiFileList) → IsReady s → ensure_scan_initialized k s ≡ (ok tt, s)
unfolding ensure_scan_initialized ensure_snapshot_initialized
ensure_scan_ready k s y = simp (ensure_scan_initialized, ensure_snapshot_initialized, y.0, y.1)

pub resolved_bound :
    (k : Kernel) (s : DeltaMultiFileList) (total : List Str)
    → IsListing k total s
    → length s.resolved_files ≤ length total
resolved_bound k s total (all_read y e h) = omega (arith, ap length h)
resolved_bound k s total (some_left bs y e q g h) =
    omega (arith, length-append s.resolved_files (listing k s.path bs), ap length h)

pub IsListing-IsReady :
    (k : Kernel) (s : DeltaMultiFileList) (total : List Str) → IsListing k total s → IsReady s
IsListing-IsReady k s total (all_read y e h) = y
IsListing-IsReady k s total (some_left bs y e q g h) = y

pub get_file_internal-Reads :
    (k : Kernel) (i : ℕ) (s : DeltaMultiFileList) (total : List Str)
    → IsListing k total s
    → Reads k total i (get_file_internal k i s)
unfolding get_file_internal
get_file_internal-Reads k i s total h =
    rw (ensure_scan_ready k s (IsListing-IsReady k s total h))
      (get_file_expanded-Reads k i s total h)

-- Calls of `GetFileInternal` one after the other.
unfoldable pub get_files : Kernel → List ℕ → DeltaMultiFileList → List (Result Str)
get_files k [] s = []
get_files k (i ∷ is) s = let (r, t) = get_file_internal k i s in r ∷ get_files k is t

-- On a list that is ready, whose batches the kernel all reads without an error, calls of
-- `GetFileInternal` with any numbers in any order return the files of the complete list that have
-- these numbers, and the empty path past its end: the lazy list is the eager one.
pub get_files-path_at :
    (k : Kernel) (is : List ℕ) (s : DeltaMultiFileList) (total : List Str)
    → IsListing k total s
    → get_files k is s ≡ map (λ i. ok (path_at total i)) is
unfolding get_files
get_files-path_at k [] s total h = refl
get_files-path_at k (i ∷ is) s total h =
    let r = get_file_internal-Reads k i s total h in
    ap (λ x. x ∷ get_files k is ((get_file_internal k i s).1)) (r.0)
    ∙ ap (◌∷◌ (ok (path_at total i)))
        (get_files-path_at k is ((get_file_internal k i s).1) total ((r.1).0))
