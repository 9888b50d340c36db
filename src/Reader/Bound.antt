-- ===== src/Reader/Bound.antt =====
-- Which constants a file's columns get.
use mathlib.Core.List.{append-nil}
use mathlib.Core.Path.{subst}
use mathlib.Core.Option.{none-ne-some, some_inj}
use duckdb_delta.Prelude.{
  ℕ, zero, suc, ◌+◌, ◌<◌, ◌==◌, ◌++◌, ◌≡◌, ◌∙◌, refl, sym, ap, Bool, Option, none, some, List, [],
  ◌∷◌, Str, get_elem?, Result, ok, ok_inj, bind_ok, if◌then◌else◌, arith, Bool-cases, inl, inr,
}
use duckdb_delta.Values.{Value}
use duckdb_delta.Columns.{ColumnDefs}
use duckdb_delta.FileList.State.{DeltaFileMetaData, DeltaMultiFileList}
use duckdb_delta.FileList.Expand.{get_metadata}
use duckdb_delta.Reader.Host.{Host, FileReader, Constants, ReaderData, find_value}
use duckdb_delta.Reader.Constants.{
  column_at, base_constant, partition_constant, partition_value, entry, each_column,
  partition_constants, finalize_bind,
}

-- The constants at a place, in the order in which they were added.
abbrev pub constants_of : ℕ → Constants → List Value
constants_of j [] = []
constants_of j ((i, v) ∷ m) = if i == j then v ∷ constants_of j m else constants_of j m

abbrev pub to_list : Option Value → List Value
to_list none = []
to_list (some v) = v ∷ []

constants_of-append :
    (j : ℕ) (m n : Constants) → constants_of j (m ++ n) ≡ constants_of j m ++ constants_of j n
constants_of-append j [] n = refl
constants_of-append j ((i, v) ∷ m) n = ground (arith, constants_of-append j m n)

constants_of-entry : (i : ℕ) (o : Option Value) → constants_of i (entry i o) ≡ to_list o
constants_of-entry i none = refl
constants_of-entry i (some v) = ground arith

constants_of-entry_other : (i j : ℕ) (o : Option Value) → i < j → constants_of j (entry i o) ≡ []
constants_of-entry_other i j none h = refl
constants_of-entry_other i j (some v) h = ground arith

constants_of-entry_before : (i j : ℕ) (o : Option Value) → j < i → constants_of j (entry i o) ≡ []
constants_of-entry_before i j none h = refl
constants_of-entry_before i j (some v) h = ground arith

-- The loop changes no place before the one where it starts.
each_column_before :
    (round : ℕ → Result (Option Value)) (i : ℕ) (ids : List ℕ) (m n : Constants) (j : ℕ)
    → each_column round i ids m ≡ ok n
    → j < i
    → constants_of j n ≡ constants_of j m
unfolding each_column
each_column_before round i [] m n j h l = ap (constants_of j) (sym (ok_inj m n h))
each_column_before round i (c ∷ ids) m n j h l =
    let (v, (e, g)) = bind_ok (round c) _ n h in
    each_column_before round (suc i) ids _ n j g (omega arith)
    ∙ constants_of-append j m (entry i v)
    ∙ ap (◌++◌ (constants_of j m)) (constants_of-entry_before i j v l)
    ∙ append-nil (constants_of j m)

-- At its own place, the loop adds what its round gives.
pub each_column_at :
    (round : ℕ → Result (Option Value)) (i : ℕ) (ids : List ℕ) (m n : Constants) (j c : ℕ)
    → each_column round i ids m ≡ ok n
    → get_elem? ids j ≡ some c
    → (v : Option Value) × ((round c ≡ ok v)
        × (constants_of (i + j) n ≡ constants_of (i + j) m ++ to_list v))
unfolding each_column
each_column_at round i [] m n j c h e = absurd (none-ne-some c e)
each_column_at round i (c ∷ ids) m n zero d h e =
    let (v, (r, g)) = bind_ok (round c) _ n h in
    let same : c ≡ d = some_inj.0 e in
    let here : i + 0 ≡ i = omega arith in
    (
      v,
      (
        ap round (sym same) ∙ r,
        rw here (
            each_column_before round (suc i) ids _ n i g (omega arith)
            ∙ constants_of-append i m (entry i v)
            ∙ ap (◌++◌ (constants_of i m)) (constants_of-entry i v)),
      ),
    )
each_column_at round i (c ∷ ids) m n (suc j) d h e =
    let (v, (r, g)) = bind_ok (round c) _ n h in
    let (w, (s, q)) = each_column_at round (suc i) ids _ n j d g e in
    let place : suc i + j ≡ i + suc j = omega arith in
    let rest =
      constants_of-append (suc i + j) m (entry i v)
      ∙ ap (◌++◌ (constants_of (suc i + j) m))
          (constants_of-entry_other i (suc i + j) v (omega arith))
      ∙ append-nil (constants_of (suc i + j) m) in
    (
      w,
      (
        s,
        subst (λ k. constants_of k n ≡ constants_of k m ++ to_list w) place
            (q ∙ ap (λ l. l ++ to_list w) rest),
      ),
    )

each_column_lem :
    (round : ℕ → Result (Option Value)) (ids : List ℕ) (m n : Constants) (j c : ℕ)
    (v : Option Value)
    → each_column round 0 ids m ≡ ok n
    → get_elem? ids j ≡ some c
    → round c ≡ ok v
    → constants_of j n ≡ constants_of j m ++ to_list v
each_column_lem round ids m n j c v h e r =
    let (w, (s, q)) = each_column_at round 0 ids m n j c h e in
    let same = ok_inj w v (sym s ∙ r) in
    let place : 0 + j ≡ j = omega arith in
    subst (λ k. constants_of k n ≡ constants_of k m ++ to_list v) place
      (q ∙ ap (λ x. constants_of (0 + j) m ++ to_list x) same)

-- Without partitions there is nothing to add.
partition_constant-none :
    (host : Host) (cols : ColumnDefs) (c : ℕ) (p : Option Value)
    → partition_constant host cols [] c ≡ ok p
    → p ≡ none
unfolding partition_constant partition_value find_value
partition_constant-none host cols c p h = elim (Bool-cases (host.is_virtual_column c)) [
  | inl v ↦ sym (ok_inj none p (sym (rw (v, partition_constant) refl) ∙ h))
  | inr v ↦
      let (col, (r, g)) = bind_ok (column_at cols c) _ p (rw (v, partition_constant) at h) in
      sym (ok_inj none p g)
]

partition_constants_at :
    (host : Host) (cols : ColumnDefs) (pm : List (Str × Value)) (ids : List ℕ) (m n : Constants)
    (j c : ℕ) (p : Option Value)
    → partition_constants host cols pm ids m ≡ ok n
    → get_elem? ids j ≡ some c
    → partition_constant host cols pm c ≡ ok p
    → constants_of j n ≡ constants_of j m ++ to_list p
unfolding partition_constants
partition_constants_at host cols [] ids m n j c p h e hp =
    rw (partition_constant-none host cols c p hp)
      (ap (constants_of j) (sym (ok_inj m n h)) ∙ sym (append-nil (constants_of j m)))
partition_constants_at host cols (q ∷ pm) ids m n j c p h e hp =
    each_column_lem (partition_constant host cols (q ∷ pm)) ids m n j c p h e hp

-- The constants of a column: what the base class's round adds, then the partition's.
pub finalize_bind_at :
    (host : Host) (union_by_name : Bool) (filename_idx : Option ℕ) (reader : FileReader)
    (cols : ColumnDefs) (ids : List ℕ) (s : DeltaMultiFileList) (d : ReaderData)
    (metadata : DeltaFileMetaData) (j c : ℕ) (b p : Option Value)
    → finalize_bind host union_by_name filename_idx reader cols ids s ≡ ok d
    → get_metadata reader.file_list_idx s ≡ ok metadata
    → get_elem? ids j ≡ some c
    → base_constant host union_by_name filename_idx reader cols c ≡ ok b
    → partition_constant host cols metadata.partition_map c ≡ ok p
    → constants_of j d.constant_map ≡ to_list b ++ to_list p
unfolding finalize_bind
finalize_bind_at host u f reader cols ids s d md j c b p h hm e hb hp =
    let round = base_constant host u f reader cols in
    let (m, (r, g)) = bind_ok (each_column round 0 ids []) _ d h in
    let g2 = rw hm at g in
    let (n, (r3, g3)) = bind_ok (partition_constants host cols md.partition_map ids m) _ d g2 in
    let same : n ≡ d.constant_map = ap (λ x. x.constant_map) (ok_inj _ d g3) in
    ap (constants_of j) (sym same)
    ∙ partition_constants_at host cols md.partition_map ids m n j c p r3 e hp
    ∙ ap (λ l. l ++ to_list p) (each_column_lem round ids [] m j c b r e hb)

-- Where there are partition values, the round for a column succeeded.
partition_constants_round :
    (host : Host) (cols : ColumnDefs) (pm : List (Str × Value)) (ids : List ℕ) (m n : Constants)
    (j c : ℕ) (k : Str) (v : Value)
    → partition_constants host cols pm ids m ≡ ok n
    → get_elem? ids j ≡ some c
    → find_value k pm ≡ some v
    → (p : Option Value) × (partition_constant host cols pm c ≡ ok p)
unfolding partition_constants find_value
partition_constants_round host cols [] ids m n j c k v h e f = absurd (none-ne-some v f)
partition_constants_round host cols (q ∷ pm) ids m n j c k v h e f =
    let (p, (r, g)) = each_column_at (partition_constant host cols (q ∷ pm)) 0 ids m n j c h e in
    (p, r)

pub finalize_bind_round :
    (host : Host) (union_by_name : Bool) (filename_idx : Option ℕ) (reader : FileReader)
    (cols : ColumnDefs) (ids : List ℕ) (s : DeltaMultiFileList) (d : ReaderData)
    (metadata : DeltaFileMetaData) (j c : ℕ) (k : Str) (v : Value)
    → finalize_bind host union_by_name filename_idx reader cols ids s ≡ ok d
    → get_metadata reader.file_list_idx s ≡ ok metadata
    → get_elem? ids j ≡ some c
    → find_value k metadata.partition_map ≡ some v
    → (p : Option Value) × (partition_constant host cols metadata.partition_map c ≡ ok p)
unfolding finalize_bind
finalize_bind_round host u f reader cols ids s d md j c k v h hm e hf =
    let (m, (r, g)) = bind_ok (each_column (base_constant host u f reader cols) 0 ids []) _ d h in
    let (n, (r3, g3)) =
      bind_ok (partition_constants host cols md.partition_map ids m) _ d (rw hm at g) in
    partition_constants_round host cols md.partition_map ids m n j c k v r3 e hf
