-- ===== src/Reader/Files.antt =====
-- The constants of a table's columns in one file.
use duckdb_delta.Prelude.{
  ℕ, ◌==◌, ◌≡◌, refl, Bool, true, false, ◌||◌, Option, none, some, List, [], ◌∷◌, Str, get_elem?,
  ok, inl, inr, Option-cases, bind_ok,
}
use duckdb_delta.Types.{LogicalType}
use duckdb_delta.Values.{Value, ubigint_value}
use duckdb_delta.Columns.{ColumnDefs}
use duckdb_delta.FileList.State.{DeltaFileMetaData, DeltaMultiFileList}
use duckdb_delta.FileList.Expand.{get_metadata}
use duckdb_delta.Reader.Host.{Host, FileReader, ReaderData, delta_file_number_column, find_value}
use duckdb_delta.Reader.Constants.{
  column_at, is_index, base_constant, partition_constant, partition_value, finalize_bind,
}
use duckdb_delta.Reader.Bound.{constants_of, finalize_bind_at, finalize_bind_round}

-- The column is neither the name of the file nor its index.
abbrev pub NotOfFile : Host → Option ℕ → ℕ → Type 0
NotOfFile host filename_idx c =
    ((is_index c filename_idx || c == host.filename_column) ≡ false)
    × ((c == host.file_index_column) ≡ false)

-- The column is one of the table's.
abbrev pub OfTable : Host → Option ℕ → ℕ → Type 0
OfTable host filename_idx c =
    NotOfFile host filename_idx c
    × ((c == delta_file_number_column) ≡ false)
    × (host.is_virtual_column c ≡ false)

pub base_constant-OfTable :
    (host : Host) (filename_idx : Option ℕ) (reader : FileReader) (cols : ColumnDefs) (c : ℕ)
    → OfTable host filename_idx c
    → base_constant host false filename_idx reader cols c ≡ ok none
unfolding base_constant
base_constant-OfTable host f reader cols c h =
    rw (h.0.0, base_constant)
      (rw (h.0.1, base_constant) (rw (h.1, base_constant) (rw (h.2, base_constant) refl)))

partition_constant-found :
    (host : Host) (cols : ColumnDefs) (pm : List (Str × Value)) (c : ℕ) (n : Str) (t : LogicalType)
    (v w : Value)
    → host.is_virtual_column c ≡ false
    → column_at cols c ≡ ok (n, t)
    → find_value n pm ≡ some v
    → host.default_cast_as t v ≡ ok w
    → partition_constant host cols pm c ≡ ok (some w)
unfolding partition_constant partition_value
partition_constant-found host cols pm c n t v w h hc hf hw =
    rw (h, partition_constant) (rw hc (rw hf (rw hw refl)))

partition_constant-missing :
    (host : Host) (cols : ColumnDefs) (pm : List (Str × Value)) (c : ℕ) (n : Str) (t : LogicalType)
    → host.is_virtual_column c ≡ false
    → column_at cols c ≡ ok (n, t)
    → find_value n pm ≡ none
    → partition_constant host cols pm c ≡ ok none
unfolding partition_constant partition_value
partition_constant-missing host cols pm c n t h hc hf =
    rw (h, partition_constant) (rw hc (rw hf refl))

-- One constant if there is a value, that value cast to the type, and none otherwise.
abbrev pub IsCast : Host → LogicalType → Option Value → List Value → Type 0
IsCast host t none constants = constants ≡ []
IsCast host t (some v) constants =
    (w : Value) × (host.default_cast_as t v ≡ ok w) × (constants ≡ w ∷ [])

-- The round for a column that has a value succeeds only where the cast does.
partition_constant-cast :
    (host : Host) (cols : ColumnDefs) (pm : List (Str × Value)) (c : ℕ) (n : Str) (t : LogicalType)
    (v : Value) (p : Option Value)
    → host.is_virtual_column c ≡ false
    → column_at cols c ≡ ok (n, t)
    → find_value n pm ≡ some v
    → partition_constant host cols pm c ≡ ok p
    → (w : Value) × (host.default_cast_as t v ≡ ok w)
unfolding partition_constant partition_value
partition_constant-cast host cols pm c n t v p h hc hf r =
    let (w, (q, g)) = bind_ok (host.default_cast_as t v) _ p (rw (h, hc, hf) at r) in (w, q)

-- Where `FinalizeBind` succeeds without `union_by_name`, a column of the table that is read at place `j`
-- gets one constant if the file's own metadata has a partition value for its name (in any case), namely
-- that value cast to the column's type, and none otherwise, so that it is read from the file.
pub finalize_bind-partition :
    (host : Host) (filename_idx : Option ℕ) (reader : FileReader) (cols : ColumnDefs) (ids : List ℕ)
    (s : DeltaMultiFileList) (d : ReaderData) (metadata : DeltaFileMetaData) (j c : ℕ) (n : Str)
    (t : LogicalType)
    → finalize_bind host false filename_idx reader cols ids s ≡ ok d
    → get_metadata reader.file_list_idx s ≡ ok metadata
    → get_elem? ids j ≡ some c
    → OfTable host filename_idx c
    → column_at cols c ≡ ok (n, t)
    → IsCast host t (find_value n metadata.partition_map) (constants_of j d.constant_map)
finalize_bind-partition host f reader cols ids s d md j c n t h hm e o hc =
    let base = base_constant-OfTable host f reader cols c o in
    let pm = md.partition_map in
    elim (Option-cases (find_value n pm)) [
      | inl hf ↦ rw hf (
          finalize_bind_at host false f reader cols ids s d md j c none none h hm e base
            (partition_constant-missing host cols pm c n t (o.2) hc hf))
      | inr (v, hf) ↦
          let (p, r) = finalize_bind_round host false f reader cols ids s d md j c n v h hm e hf in
          let (w, hw) = partition_constant-cast host cols pm c n t v p (o.2) hc hf r in
          rw hf (
            w,
            hw,
            finalize_bind_at host false f reader cols ids s d md j c none (some w) h hm e base
                (partition_constant-found host cols pm c n t v w (o.2) hc hf hw),
          )
    ]

-- The virtual column `delta_file_number` reads 7 for every file, whatever the file's number is, where
-- `FinalizeBind` succeeds and the column is virtual, and neither the name of the file nor its index.
pub delta_file_number_is_seven :
    (host : Host) (union_by_name : Bool) (filename_idx : Option ℕ) (reader : FileReader)
    (cols : ColumnDefs) (ids : List ℕ) (s : DeltaMultiFileList) (d : ReaderData)
    (metadata : DeltaFileMetaData) (j : ℕ)
    → finalize_bind host union_by_name filename_idx reader cols ids s ≡ ok d
    → get_metadata reader.file_list_idx s ≡ ok metadata
    → get_elem? ids j ≡ some delta_file_number_column
    → NotOfFile host filename_idx delta_file_number_column
    → host.is_virtual_column delta_file_number_column ≡ true
    → constants_of j d.constant_map ≡ ubigint_value 7 ∷ []
unfolding base_constant partition_constant
delta_file_number_is_seven host u f reader cols ids s d md j h hm e o v =
    finalize_bind_at host u f reader cols ids s d md j delta_file_number_column
      (some (ubigint_value 7)) none h hm e (rw (o.0, base_constant) (rw (o.1, base_constant) refl))
      (rw (v, partition_constant) refl)
