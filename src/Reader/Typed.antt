-- ===== src/Reader/Typed.antt =====
-- The types of the constants.
use mathlib.Core.Path.{subst}
use duckdb_delta.Prelude.{
  ℕ, ◌≡◌, ◌∙◌, refl, sym, Bool, Bool-cases, inl, inr, true, false, Option, none, some, List, [],
  ◌∷◌, ◌++◌, All, Str, get_elem?, ok, ok_inj, bind_ok, if◌then◌else◌,
}
use duckdb_delta.Types.{LogicalType}
use duckdb_delta.Values.{Value, type_of, typed_null}
use duckdb_delta.Columns.{ColumnDefs}
use duckdb_delta.FileList.State.{DeltaMultiFileList}
use duckdb_delta.FileList.Expand.{get_metadata}
use duckdb_delta.Reader.Host.{Host, FileReader, Constants, ReaderData, find_value}
use duckdb_delta.Reader.Constants.{
  column_at, has_name, missing_constant, base_constant, partition_constant, partition_value, cast,
  each_column, partition_constants, finalize_bind,
}
use duckdb_delta.Reader.Bound.{constants_of, to_list, each_column_at, finalize_bind_at}
use duckdb_delta.Reader.Files.{OfTable, base_constant-OfTable}

-- A constant, if there is one, has the type.
abbrev HasType : LogicalType → Option Value → Type 0
HasType t none = Unit
HasType t (some v) = type_of v ≡ t

All-append : {A : Type 0} (P : A → Type 0) (xs ys : List A) → All P xs → All P ys → All P (xs ++ ys)
All-append P [] ys h g = g
All-append P (x ∷ xs) ys h g = (h.0, All-append P xs ys (h.1) g)

to_list-HasType :
    (t : LogicalType) (o : Option Value) → HasType t o → All (λ v. type_of v ≡ t) (to_list o)
to_list-HasType t none h = tt
to_list-HasType t (some v) h = (h, tt)

base_constant-HasType :
    (host : Host) (u : Bool) (f : Option ℕ) (reader : FileReader) (cols : ColumnDefs) (c : ℕ)
    (n : Str) (t : LogicalType) (b : Option Value)
    → OfTable host f c
    → column_at cols c ≡ ok (n, t)
    → base_constant host u f reader cols c ≡ ok b
    → HasType t b
unfolding base_constant missing_constant
base_constant-HasType host false f reader cols c n t b o hc h =
    subst (HasType t) (ok_inj none b (sym (base_constant-OfTable host f reader cols c o) ∙ h)) tt
base_constant-HasType host true f reader cols c n t b o hc h =
    let given : Option Value = if has_name n reader.columns then none else some (typed_null t) in
    let missing : base_constant host true f reader cols c ≡ ok given =
      rw (o.0.0, base_constant)
        (rw (o.0.1, base_constant)
          (rw (o.1, base_constant) (rw (o.2, base_constant) (rw hc refl)))) in
    subst (HasType t) (ok_inj given b (sym missing ∙ h))
      (elim (Bool-cases (has_name n reader.columns)) [ inl e ↦ rw e tt | inr e ↦ rw e refl ])

-- A cast gives values of the type that it casts to.
abbrev pub CastsToType : Host → Type 0
CastsToType host = (t : LogicalType) (v w : Value) → host.default_cast_as t v ≡ ok w → type_of w ≡ t

cast-HasType :
    (host : Host) (t : LogicalType) (o p : Option Value)
    → CastsToType host
    → cast host t o ≡ ok p
    → HasType t p
cast-HasType host t none p k h = subst (HasType t) (ok_inj none p h) tt
cast-HasType host t (some v) p k h =
    let (w, (e, g)) = bind_ok (host.default_cast_as t v) _ p h in
    subst (HasType t) (ok_inj (some w) p g) (k t v w e)

partition_constant-HasType :
    (host : Host) (cols : ColumnDefs) (pm : List (Str × Value)) (c : ℕ) (n : Str) (t : LogicalType)
    (p : Option Value)
    → CastsToType host
    → host.is_virtual_column c ≡ false
    → column_at cols c ≡ ok (n, t)
    → partition_constant host cols pm c ≡ ok p
    → HasType t p
unfolding partition_constant partition_value
partition_constant-HasType host cols pm c n t p k v hc h =
    let opened : partition_constant host cols pm c ≡ cast host t (find_value n pm) =
      rw (v, partition_constant) (rw hc refl) in
    cast-HasType host t (find_value n pm) p k (sym opened ∙ h)

-- The round for a column of the table gave something, where the loop succeeded.
partition_constant-ok :
    (host : Host) (cols : ColumnDefs) (pm : List (Str × Value)) (ids : List ℕ) (m k : Constants)
    (j c : ℕ) (n : Str) (t : LogicalType)
    → partition_constants host cols pm ids m ≡ ok k
    → get_elem? ids j ≡ some c
    → host.is_virtual_column c ≡ false
    → column_at cols c ≡ ok (n, t)
    → (p : Option Value) × (partition_constant host cols pm c ≡ ok p)
unfolding partition_constants partition_constant partition_value find_value
partition_constant-ok host cols [] ids m k j c n t h e v hc =
    (none, rw (v, partition_constant) (rw hc refl))
partition_constant-ok host cols (q ∷ pm) ids m k j c n t h e v hc =
    let (p, (r, g)) = each_column_at (partition_constant host cols (q ∷ pm)) 0 ids m k j c h e in
    (p, r)

-- Where `FinalizeBind` succeeds, every constant of a column of the table has that column's type, with
-- `union_by_name` too: a cast gives values of the type that it casts to.
pub finalize_bind-type_of :
    (host : Host) (union_by_name : Bool) (filename_idx : Option ℕ) (reader : FileReader)
    (cols : ColumnDefs) (ids : List ℕ) (s : DeltaMultiFileList) (d : ReaderData) (j c : ℕ) (n : Str)
    (t : LogicalType)
    → CastsToType host
    → finalize_bind host union_by_name filename_idx reader cols ids s ≡ ok d
    → get_elem? ids j ≡ some c
    → OfTable host filename_idx c
    → column_at cols c ≡ ok (n, t)
    → All (λ v. type_of v ≡ t) (constants_of j d.constant_map)
unfolding finalize_bind
finalize_bind-type_of host u f reader cols ids s d j c n t casts h e o hc =
    let round = base_constant host u f reader cols in
    let (m, (r, g)) = bind_ok (each_column round 0 ids []) _ d h in
    let (md, (r2, g2)) = bind_ok (get_metadata reader.file_list_idx s) _ d g in
    let (k, (r3, g3)) = bind_ok (partition_constants host cols md.partition_map ids m) _ d g2 in
    let (b, (hb, q)) = each_column_at round 0 ids [] m j c r e in
    let (p, hp) = partition_constant-ok host cols md.partition_map ids m k j c n t r3 e (o.2) hc in
    let all = finalize_bind_at host u f reader cols ids s d md j c b p h r2 e hb hp in
    subst (All (λ v. type_of v ≡ t)) (sym all) (
      All-append (λ v. type_of v ≡ t) (to_list b) (to_list p)
        (to_list-HasType t b (base_constant-HasType host u f reader cols c n t b o hc hb))
        (to_list-HasType t p
          (partition_constant-HasType host cols md.partition_map c n t p casts (o.2) hc hp)))
