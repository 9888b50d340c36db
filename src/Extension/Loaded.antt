-- ===== src/Extension/Loaded.antt =====
-- The settings of an instance in which the extension was loaded, and the report of a pushdown there.
use duckdb_delta.Prelude.{
  ℕ, ◌≡◌, ◌∙◌, refl, sym, ap, Bool, true, false, Option, none, some, List, [], ◌∷◌, Str, codes,
  str_eq, All, Result, ok, ok_inj, bind_ok,
}
use duckdb_delta.Values.{Value}
use duckdb_delta.Logging.{initially}
use duckdb_delta.Pushdown.Report.{Reported}
use duckdb_delta.Extension.{
  ExtensionOption, DefaultMacro, TableMacro, Loader, register_each, delta_macros,
  delta_filter_pushdown_macro, delta_filter_pushdown_macro_tpcds, register_query, register_macros,
  load_functions, add_options, load_internal,
}

abbrev explain_setting : Str
explain_setting = codes "delta_scan_explain_files_filtered"

abbrev logging_setting : Str
logging_setting = codes "delta_kernel_logging"

abbrev log_macro : Str
log_macro = codes "delta_filter_pushdown_log"

abbrev log_macro_tpcds : Str
log_macro_tpcds = codes "delta_filter_pushdown_log_tpcds"

-- An option is found with its default until it is set, and what is registered beside it leaves it alone.
pub record KeepsOptions {I Node : Type 0} (l : Loader I Node) (find : Str → I → Option Value)
    : Type 0 where
  pub added :
      (n : Str) (o : ExtensionOption) (i : I)
      → find n (l.add_extension_option n o i) ≡ some o.default_value
  pub added_other :
      (m n : Str) (o : ExtensionOption) (i : I)
      → str_eq n m ≡ false
      → find m (l.add_extension_option n o i) ≡ find m i
  pub default_macro :
      (n : Str) (m : DefaultMacro) (i j : I)
      → l.register_default_macro m i ≡ ok j
      → find n j ≡ find n i
  pub table_macro :
      (n : Str) (m : TableMacro Node) (i j : I)
      → l.register_table_macro m i ≡ ok j
      → find n j ≡ find n i
  pub log_type : (n t : Str) (i : I) → find n (l.register_log_type t i) ≡ find n i
  pub logger : (n : Str) (i : I) → find n (l.initialize_logger i) ≡ find n i

module _ {I Node : Type 0} (l : Loader I Node) (find : Str → I → Option Value)
    (laws : KeepsOptions l find) where
  register_each-find :
      {A : Type 0} (f : A → I → Result I) (n : Str)
      → ((a : A) (i j : I) → f a i ≡ ok j → find n j ≡ find n i)
      → (xs : List A) (i j : I) → register_each l f xs i ≡ ok j
      → find n j ≡ find n i
  unfolding register_each
  register_each-find f n h [] i j e = ap (find n) (sym (ok_inj i j e))
  register_each-find f n h (a ∷ xs) i j e =
      let (i1, (p, q)) = bind_ok (f a i) _ j e in register_each-find f n h xs i1 j q ∙ h a i i1 p

  register_query-find :
      (n name query : Str) (i j : I)
      → register_query l name query [] [] i ≡ ok j
      → find n j ≡ find n i
  unfolding register_query
  register_query-find n name query i j e =
      let (node, (p, q)) = bind_ok (l.parse_query query) _ j e in laws.table_macro n _ i j q

  register_macros-find : (n : Str) (i j : I) → register_macros l i ≡ ok j → find n j ≡ find n i
  unfolding register_macros
  register_macros-find n i j e =
      let (i1, (p, e1)) = bind_ok (register_each l l.register_default_macro delta_macros i) _ j e in
      let (i2, (q, e2)) =
        bind_ok (register_query l log_macro delta_filter_pushdown_macro [] [] i1) _ j e1 in
      register_query-find n log_macro_tpcds delta_filter_pushdown_macro_tpcds i2 j e2
      ∙ register_query-find n log_macro delta_filter_pushdown_macro i1 i2 q
      ∙ register_each-find l.register_default_macro n (λ m a b. laws.default_macro n m a b)
          delta_macros i i1 p

  add_options-find :
      (i : I)
      → (find explain_setting (add_options l i) ≡ some (Value.boolean true))
        × (find logging_setting (add_options l i) ≡ some (Value.boolean initially.setting))
  unfolding add_options
  add_options-find i = (
    laws.added_other explain_setting logging_setting _ _ refl ∙ laws.added explain_setting _ i,
    laws.added logging_setting _ _,
  )

  -- After a load that succeeds both settings are there with their defaults.
  pub load_internal-find :
      (i j : I)
      → load_internal l i ≡ ok j
      → (find explain_setting j ≡ some (Value.boolean true))
        × (find logging_setting j ≡ some (Value.boolean initially.setting))
  unfolding load_internal
  load_internal-find i j e =
      let (i1, (p, e1)) = bind_ok (load_functions l i) _ j e in
      let added = add_options l (l.set_storage_extension (codes "delta") i1) in
      let (i2, (q, e2)) = bind_ok (register_macros l added) _ j e1 in
      let kept = λ (n : Str).
        ap (find n) (sym (ok_inj _ j e2))
        ∙ laws.logger n (l.register_log_type (codes "DeltaKernel") i2)
        ∙ laws.log_type n (codes "DeltaKernel") i2
        ∙ register_macros-find n added i2 q in
      let found = add_options-find (l.set_storage_extension (codes "delta") i1) in
      (kept explain_setting ∙ found.0, kept logging_setting ∙ found.1)

-- A setting as a Boolean.
abbrev pub bool_of : Option Value → Option Bool
bool_of (some (Value.boolean b)) = some b
bool_of v = none

-- What EXPLAIN and the log are told: the number of files before and after.
abbrev pub TellsCounts : ℕ → ℕ → Reported → Type 0
TellsCounts old new (some (ok (some info, some entry), p)) =
    (info.total_files ≡ some old)
    × ((info.filtered_files ≡ some new) × (entry.files ≡ some (old, new)))
TellsCounts old new o = ⊥
