-- ===== src/Reader/Transform.antt =====
-- The partition values of a file, from the transform that the kernel reported of it to the constants of
-- its columns.
use mathlib.Core.Path.{subst}
use mathlib.Core.Option.{none-ne-some, some_inj}
use duckdb_delta.Prelude.{
  ℕ, zero, suc, ◌≡◌, refl, sym, ap, ◌∙◌, Bool-cases, inl, inr, true, false, Option, some, List, [],
  ◌∷◌, Str, lower, str_eq, eq_of-str_eq, is_empty, All, get_elem?, ok, ok_inj, bind_ok, ok-ne-err,
  if◌then◌else◌,
}
use duckdb_delta.Types.{LogicalType}
use duckdb_delta.Values.{Value, Exprs}
use duckdb_delta.Columns.{ColumnDefs}
use duckdb_delta.Expression.Kernel.{KernelExprs, visit_kernel_expression}
use duckdb_delta.FileList.State.{ScanFile, DeltaFileMetaData, DeltaMultiFileList, Kernel}
use duckdb_delta.FileList.Callback.{assign, get_partition_value_from_expression, constant_map}
use duckdb_delta.FileList.Expand.{get_file_internal}
use duckdb_delta.FileList.Described.{HasPartitions}
use duckdb_delta.FileList.Attributed.{IsReading, get_file_internal-IsAttributed}
use duckdb_delta.Reader.Host.{Host, FileReader, ReaderData, ci_equals, find_value}
use duckdb_delta.Reader.Constants.{column_at, finalize_bind}
use duckdb_delta.Reader.Bound.{constants_of}
use duckdb_delta.Reader.Files.{OfTable, IsCast, finalize_bind-partition}

-- A test of names sees them in lower case.
ci_equals-left : (m n q : Str) → ci_equals m n ≡ true → ci_equals m q ≡ ci_equals n q
ci_equals-left m n q h = ap (λ z. str_eq z (lower q)) (eq_of-str_eq (lower m) (lower n) h)

ci_equals-right : (m n q : Str) → ci_equals n q ≡ true → ci_equals m q ≡ ci_equals m n
ci_equals-right m n q h = ap (str_eq (lower m)) (sym (eq_of-str_eq (lower n) (lower q) h))

find_value-assign :
    (n q : Str) (v : Value) (l : List (Str × Value))
    → ci_equals n q ≡ true
    → find_value q (assign n v l) ≡ some v
unfolding find_value assign
find_value-assign n q v [] h = rw h refl
find_value-assign n q v ((m, w) ∷ l) h = elim (Bool-cases (ci_equals m n)) [
  | inl e ↦ rw e (rw (ci_equals-right m n q h ∙ e) refl)
  | inr e ↦ rw e (rw (ci_equals-right m n q h ∙ e) (find_value-assign n q v l h))
]

find_value-assign_other :
    (n q : Str) (v : Value) (l : List (Str × Value))
    → ci_equals n q ≡ false
    → find_value q (assign n v l) ≡ find_value q l
unfolding find_value assign
find_value-assign_other n q v [] h = rw h refl
find_value-assign_other n q v ((m, w) ∷ l) h = elim (Bool-cases (ci_equals m n)) [
  | inl e ↦ rw e (rw (ci_equals-left m n q e ∙ h) refl)
  | inr e ↦ rw e (ap (λ z. if ci_equals m q then some w else z) (find_value-assign_other n q v l h))
]

-- No name is another one in some case.
abbrev pub IsDistinct : List Str → Type 0
IsDistinct [] = Unit
IsDistinct (n ∷ ns) = All (λ m. ci_equals m n ≡ false) ns × IsDistinct ns

distinct_from :
    (n q : Str) (ns : List Str)
    → ci_equals n q ≡ true
    → All (λ m. ci_equals m n ≡ false) ns
    → All (λ m. ci_equals m q ≡ false) ns
distinct_from n q [] h g = tt
distinct_from n q (m ∷ ns) h (e, g) = (ci_equals-right m n q h ∙ e, distinct_from n q ns h g)

constant_map_other :
    (es : Exprs) (q : Str) (names : List Str) (ids : List ℕ) (m r : List (Str × Value))
    → constant_map es names ids m ≡ ok r
    → All (λ n. ci_equals n q ≡ false) names
    → find_value q r ≡ find_value q m
unfolding constant_map
constant_map_other es q [] ids m r h g = ap (find_value q) (sym (ok_inj m r h))
constant_map_other es q (n ∷ names) [] m r h g = ok-ne-err _ r h
constant_map_other es q (n ∷ names) (id ∷ ids) m r h (e, g) =
    let (v, (x, y)) = bind_ok (get_partition_value_from_expression es id) _ r h in
    constant_map_other es q names ids (assign n v m) r y g ∙ find_value-assign_other n q v m e

-- The value of the `i`-th partition.
constant_map_at :
    (es : Exprs) (n q : Str) (names : List Str) (ids : List ℕ) (m r : List (Str × Value)) (i id : ℕ)
    → constant_map es names ids m ≡ ok r
    → IsDistinct names
    → get_elem? names i ≡ some n
    → get_elem? ids i ≡ some id
    → ci_equals n q ≡ true
    → (v : Value) × ((get_partition_value_from_expression es id ≡ ok v) × (find_value q r ≡ some v))
unfolding constant_map
constant_map_at es n q [] ids m r i id h d a b c = absurd (none-ne-some n a)
constant_map_at es n q (o ∷ names) [] m r i id h d a b c = absurd (none-ne-some id b)
constant_map_at es n q (o ∷ names) (j ∷ ids) m r zero id h (f, d) a b c =
    let (v, (x, y)) = bind_ok (get_partition_value_from_expression es j) _ r h in
    let named : ci_equals o q ≡ true = subst (λ z. ci_equals z q ≡ true) (sym (some_inj.0 a)) c in
    (
      v,
      (
        ap (get_partition_value_from_expression es) (sym (some_inj.0 b)) ∙ x,
        constant_map_other es q names ids (assign o v m) r y (distinct_from o q names named f)
            ∙ find_value-assign o q v m named,
      ),
    )
constant_map_at es n q (o ∷ names) (j ∷ ids) m r (suc i) id h (f, d) a b c =
    let (v, (x, y)) = bind_ok (get_partition_value_from_expression es j) _ r h in
    constant_map_at es n q names ids (assign o v m) r i id y d a b c

transform-values :
    (k : Kernel) (partitions : List Str) (ids : List ℕ) (transform : KernelExprs) (es : Exprs)
    (x : Option KernelExprs) (m : DeltaFileMetaData)
    → x ≡ some transform
    → visit_kernel_expression k.library transform ≡ ok (some es)
    → HasPartitions k partitions ids x m
    → constant_map es partitions ids [] ≡ ok m.partition_map
transform-values k partitions ids transform es x m e visited h =
    let (es', (w, g)) = subst (λ z. HasPartitions k partitions ids z m) e h in
    let same = some_inj.0 (ok_inj (some es') (some es) (sym w ∙ visited)) in
    ap (λ z. constant_map z partitions ids []) (sym same) ∙ g

-- `GetFileInternal` has returned a file of a list that reads what the kernel reports, the kernel reported a
-- transform of this file, and `FinalizeBind` of its reader succeeds without `union_by_name`. No two of the
-- table's partitions have the same name in some case. Then a column of the table that is read at place `j`
-- and has the name of a partition, in any case, gets one constant: the value that stands in the transform at
-- the partition's column number, cast to the column's type.
pub finalize_bind-transform :
    (k : Kernel) (total : List ScanFile) (s t : DeltaMultiFileList) (p : Str) (file : ScanFile)
    (transform : KernelExprs) (es : Exprs) (host : Host) (filename_idx : Option ℕ)
    (reader : FileReader) (cols : ColumnDefs) (ids : List ℕ) (d : ReaderData) (i id j c : ℕ)
    (n q : Str) (type : LogicalType)
    → IsReading k s total s
    → get_file_internal k reader.file_list_idx s ≡ (ok p, t)
    → is_empty p ≡ false
    → get_elem? total reader.file_list_idx ≡ some file
    → file.transform ≡ some transform
    → visit_kernel_expression k.library transform ≡ ok (some es)
    → finalize_bind host false filename_idx reader cols ids t ≡ ok d
    → IsDistinct s.partitions
    → get_elem? s.partitions i ≡ some n
    → get_elem? s.partition_ids i ≡ some id
    → get_elem? ids j ≡ some c
    → OfTable host filename_idx c
    → column_at cols c ≡ ok (q, type)
    → ci_equals n q ≡ true
    → (v : Value) × ((get_partition_value_from_expression es id ≡ ok v)
        × IsCast host type (some v) (constants_of j d.constant_map))
finalize_bind-transform k total s t p file transform es host f reader cols ids d i id j c n q type h
      e x g has_transform visited b distinct at_name at_id at_place of_table named same =
    let (read, (found, (a, (r, (m, (o, described)))))) =
      get_file_internal-IsAttributed k total reader.file_list_idx s t p h e x in
    let is_file : found ≡ file = some_inj.0 (sym a ∙ g) in
    let values =
      transform-values k s.partitions s.partition_ids transform es found.transform m
        (ap (λ (z : ScanFile). z.transform) is_file ∙ has_transform) visited
        described.partition_values in
    let (v, (y, w)) =
      constant_map_at es n q s.partitions s.partition_ids [] m.partition_map i id values distinct
        at_name at_id same in
    (
      v,
      (
        y,
        subst (λ z. IsCast host type z (constants_of j d.constant_map)) w
            (finalize_bind-partition host f reader cols ids t d m j c q type b o at_place of_table
              named),
      ),
    )
