-- ===== src/Functions/Injected.antt =====
-- What `delta_scan` keeps of the Parquet scan, and that the reader takes the parameters that it adds.
use mathlib.Core.Path.{subst}
use mathlib.Core.Option.{none-ne-some}
use duckdb_delta.Prelude.{
  ◌≡◌, ◌∙◌, refl, sym, Bool, true, false, none, some, List, [], ◌∷◌, map, Str, codes, Bool-cases,
  inl, inr, if◌then◌else◌, lower, Result, ok, ok_inj, bind_ok, arith,
}
use duckdb_delta.Types.{LogicalType, boolean, varchar}
use duckdb_delta.Values.{Value}
use duckdb_delta.Reader.Host.{Host, MultiFileOptions}
use duckdb_delta.Reader.Options.{parse_option}
use duckdb_delta.Functions.{
  null_pointer, delta_create_instance, delta_virtual_columns, Parameters, find_parameter,
  TableFunction, TableFunctionSet, inject, get_delta_scan_function,
}
use duckdb_delta.Functions.Parameters.{IsKeyEquality, find-erase, find-assign}

module _ (same_key : Str → Str → Bool) where
  -- The parameters of `delta_scan`, from those of the Parquet scan.
  abbrev HasParameters : Parameters → Parameters → Type 0
  HasParameters ps qs =
      (k : Str)
      → find_parameter same_key k qs ≡ (
          if same_key (codes "pushdown_filters") k
          then some varchar
          else (if same_key (codes "pushdown_partition_info") k
              then some boolean
              else (if same_key (codes "schema") k then none else find_parameter same_key k ps)))

  -- A function of `delta_scan` and the function of the Parquet scan that it is made from.
  pub record IsInjected (f g : TableFunction) : Type 0 where
    pub same_bind : g.bind_function ≡ f.bind_function
    pub reader : g.get_multi_file_reader ≡ delta_create_instance
    pub virtual_columns : g.get_virtual_columns ≡ delta_virtual_columns
    pub not_serialized : (g.serialize ≡ null_pointer) × (g.deserialize ≡ null_pointer)
    pub no_statistics : g.statistics ≡ null_pointer
    pub at_once : g.late_materialization ≡ false
    pub parameters : HasParameters f.named_parameters g.named_parameters

  -- One for each, in their order.
  abbrev pub ArePairs : List TableFunction → List TableFunction → Type 0
  ArePairs [] [] = Unit
  ArePairs [] (g ∷ gs) = ⊥
  ArePairs (f ∷ fs) [] = ⊥
  ArePairs (f ∷ fs) (g ∷ gs) = IsInjected f g × ArePairs fs gs

  module _ (laws : IsKeyEquality same_key) where
    inject-HasParameters :
        (f : TableFunction) → HasParameters f.named_parameters (inject same_key f).named_parameters
    unfolding inject
    inject-HasParameters f k =
        rw (find-assign same_key laws, find-assign same_key laws, find-erase same_key laws) refl

    inject-ArePairs : (fs : List TableFunction) → ArePairs fs (map (inject same_key) fs)
    unfolding inject
    inject-ArePairs [] = tt
    inject-ArePairs (f ∷ fs) = (
      record {
        same_bind = refl;
        reader = refl;
        virtual_columns = refl;
        not_serialized = (refl, refl);
        no_statistics = refl;
        at_once = refl;
        parameters = inject-HasParameters f;
      },
      inject-ArePairs fs,
    )

    not_added :
        (f : TableFunction) (k : Str)
        → find_parameter same_key k f.named_parameters ≡ none
        → same_key (codes "pushdown_filters") k ≡ false
        → same_key (codes "pushdown_partition_info") k ≡ false
        → none ≡ find_parameter same_key k (inject same_key f).named_parameters
    not_added f k h e q = sym (inject-HasParameters f k ∙ ground (arith, e, q, h))

    -- A `delta_scan` that is made has one function for each of the Parquet scan that the catalog had once
    -- `parquet` was loaded: with the same bind, the extension's reader and virtual columns, nothing to
    -- serialize or to estimate, and the same parameters but for `schema`, which is gone unless another
    -- of its key is set, and the two that are added.
    pub get_delta_scan_function_lem :
        {I : Type 0} (auto_load_extension : Str → I → Result I)
        (get_table_function : Str → I → Result TableFunctionSet) (i j : I) (d : TableFunctionSet)
        → get_delta_scan_function same_key auto_load_extension get_table_function i ≡ ok (d, j)
        → (d.name ≡ codes "delta_scan")
          × (auto_load_extension (codes "parquet") i ≡ ok j)
          × ((set : TableFunctionSet) × (get_table_function (codes "parquet_scan") j ≡ ok set)
              × ArePairs set.functions d.functions)
    unfolding get_delta_scan_function
    get_delta_scan_function_lem auto get i j d h =
        let (loaded, (a, h1)) = bind_ok (auto (codes "parquet") i) _ (d, j) h in
        let (set, (b, h2)) = bind_ok (get (codes "parquet_scan") loaded) _ (d, j) h1 in
        subst
          (λ p.
            ((p.0).name ≡ codes "delta_scan")
            × (auto (codes "parquet") i ≡ ok (p.1))
            × ((set : TableFunctionSet) × (get (codes "parquet_scan") (p.1) ≡ ok set)
                × ArePairs set.functions (p.0).functions))
          (ok_inj _ (d, j) h2) (refl, a, (set, b, inject-ArePairs set.functions))

    -- The reader's `ParseOption` captures every parameter that `delta_scan` has and the Parquet scan had
    -- not, in any case of letters, where the map's keys are the same exactly up to case.
    pub inject-parse_option :
        (host : Host) (f : TableFunction) (k : Str) (t : LogicalType) (v : Value)
        (o : MultiFileOptions)
        → ((m n : Str) → same_key m n ≡ true → lower m ≡ lower n)
        → find_parameter same_key k f.named_parameters ≡ none
        → find_parameter same_key k (inject same_key f).named_parameters ≡ some t
        → (p : MultiFileOptions) × (parse_option host k v o ≡ ok (true, p))
    unfolding parse_option
    inject-parse_option host f k t v o ci h g =
        elim (Bool-cases (same_key (codes "pushdown_filters") k)) [
          | inl e ↦ rw (sym (ci (codes "pushdown_filters") k e)) (_, refl)
          | inr e ↦ elim (Bool-cases (same_key (codes "pushdown_partition_info") k)) [
            | inl q ↦ rw (sym (ci (codes "pushdown_partition_info") k q)) (_, refl)
            | inr q ↦ absurd (none-ne-some t (not_added f k h e q ∙ g))
          ]
        ]
