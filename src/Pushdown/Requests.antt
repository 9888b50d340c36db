-- ===== src/Pushdown/Requests.antt =====
-- The pushdowns that DuckDB asks for one after another, each of the list that the last one left: a
-- null pointer leaves the list as it is.
use mathlib.Core.Path.{subst}
use mathlib.Core.Bool.{true≢false}
use mathlib.Core.Option.{none-ne-some, some_inj}
use duckdb_delta.Paths.Slash.{to_delta_path_ends}
use duckdb_delta.Prelude.{ok_inj, ok-ne-err, true, false, ◌∙◌, ◌⊎◌, is_empty, get_last?, ErrorData}
use duckdb_delta.Prelude.{
  ℕ, ◌≡◌, refl, sym, Bool-cases, inl, inr, Option, Option-cases, none, some, List, [], ◌∷◌, Str,
  Result, ok, err, ◌>>=◌, get_elem?, All,
}
use duckdb_delta.Types.{Fields}
use duckdb_delta.Paths.{FileSystem, to_delta_path}
use duckdb_delta.Filters.{TableFilter, TableFilterSet}
use duckdb_delta.FileList.State.{DeltaMultiFileList, create}
use duckdb_delta.Predicate.{PredicateKernel, PredicateVisitor, nth_name}
use duckdb_delta.Predicate.Semantics.{Row, Values, Meaning, IsMeaning}
use duckdb_delta.Pushdown.{
  DeltaFilterPushdownMode, FilterLibrary, get_pushdown_mode, pushdown_internal, new_dynamic_filters,
  push_constant, push_dynamic, already_pushed, find_filter, takes_constant, takes_dynamic,
  unless_empty, or_undefined, filtered, new_list, push_new, push_all, count_fields,
}
use duckdb_delta.Pushdown.Sound.{
  AreColumns, SatisfiesName, SatisfiesSet, IsPush, IsPushed, Scans, push_new-push_all,
  IsPushed-Scans,
}

-- The filters that the combiner made, or dynamic filters with the columns they are numbered by.
pub data Request : Type 0 where
  complex : TableFilterSet → Request
  dynamic : List ℕ → TableFilterSet → Request

abbrev pub or_same :
    DeltaMultiFileList → Result (Option DeltaMultiFileList) → Result DeltaMultiFileList
or_same s (err e) = err e
or_same s (ok none) = ok s
or_same s (ok (some t)) = ok t

unfoldable pub push_request :
    FilterLibrary
    → FileSystem
    → Option Str
    → Request
    → DeltaMultiFileList
    → Result DeltaMultiFileList
unfolding push_constant push_dynamic
push_request lib files option (complex filters) s =
    or_same s (push_constant lib files option filters s)
push_request lib files option (dynamic ids filters) s =
    or_same s (push_dynamic lib files option ids filters s)

unfoldable pub push_requests :
    FilterLibrary
    → FileSystem
    → Option Str
    → List Request
    → DeltaMultiFileList
    → Result DeltaMultiFileList
unfolding push_request
push_requests lib files option [] s = ok s
push_requests lib files option (r ∷ rs) s =
    push_request lib files option r s >>= push_requests lib files option rs

-- The filter is at the place of a column that is read, and the row satisfies the filter on this column.
abbrev pub SatisfiesAt : Values → Row → Fields → TableFilter → Option ℕ → Type 0
SatisfiesAt values row columns f none = ⊥
SatisfiesAt values row columns f (some i) = SatisfiesName values row (nth_name columns i) f

unfoldable pub SatisfiesDynamic : Values → Row → Fields → List ℕ → TableFilterSet → Type 0
SatisfiesDynamic values row columns ids [] = Unit
SatisfiesDynamic values row columns ids ((i, f) ∷ fs) =
    SatisfiesAt values row columns f (get_elem? ids i) × SatisfiesDynamic values row columns ids fs

-- The row satisfies the filters of a request.
abbrev pub SatisfiesRequest : Values → Row → Fields → Request → Type 0
SatisfiesRequest values row columns (complex filters) = SatisfiesSet values row columns filters
SatisfiesRequest values row columns (dynamic ids filters) =
    SatisfiesDynamic values row columns ids filters

-- Only an empty path cannot be made a path of a list.
to_delta_path-none :
    (files : FileSystem) (p : Str) → to_delta_path files p ≡ none → is_empty p ≡ true
to_delta_path-none files [] h = refl
to_delta_path-none files (c ∷ s) h =
    let (q, e, l) = to_delta_path_ends files c s in absurd (none-ne-some q (sym h ∙ e))

-- A path of a list is not empty.
to_delta_path-some :
    (files : FileSystem) (p q : Str)
    → to_delta_path files p ≡ some q
    → is_empty q ≡ true
    → is_empty p ≡ true
to_delta_path-some files [] q h e = refl
to_delta_path-some files (c ∷ s) (b ∷ q) h e = absurd (true≢false (sym e))
to_delta_path-some files (c ∷ s) [] h e =
    let (q, f, l) = to_delta_path_ends files c s in
    let same = some_inj.0 (sym f ∙ h) in
    absurd (none-ne-some b'/' (subst (λ z. get_last? z ≡ some b'/') same l))

module _ (values : Values) (row : Row) (lib : FilterLibrary) (columns : Fields)
    (push : IsPush lib values row columns) (files : FileSystem) (Also : DeltaMultiFileList → Type 0)
    (filtered-Also : (filters : TableFilterSet) (s : DeltaMultiFileList) (path : Str)
      → Also s
      → Also (filtered lib filters s path)) where
  -- What every pushdown keeps.
  abbrev pub IsKept : DeltaMultiFileList → Type 0
  IsKept s = Also s × ((s.columns ≡ columns) × IsPushed values row columns s.table_filters)

  -- A list, kept; or the path of the first one was empty, which is undefined behaviour.
  abbrev pub Gives : DeltaMultiFileList → Result DeltaMultiFileList → Type 0
  Gives s r =
      ((t : DeltaMultiFileList) × ((r ≡ ok t)
          × (IsKept t × (is_empty t.path ≡ true → is_empty s.path ≡ true))))
      ⊎ ((is_empty s.path ≡ true) × ((e : ErrorData) × (r ≡ err e)))

  abbrev GivesSet : Result TableFilterSet → Type 0
  GivesSet r = (fs : TableFilterSet) × ((r ≡ ok fs) × SatisfiesSet values row columns fs)

  new_dynamic_filters-SatisfiesSet :
      (ids : List ℕ) (pushed fs result : TableFilterSet)
      → SatisfiesDynamic values row columns ids fs
      → SatisfiesSet values row columns result
      → GivesSet (new_dynamic_filters lib ids pushed fs result)
  unfolding new_dynamic_filters SatisfiesDynamic
  new_dynamic_filters-SatisfiesSet ids pushed [] result h g = (result, (refl, g))
  new_dynamic_filters-SatisfiesSet ids pushed ((i, f) ∷ fs) result (x, h) g =
      elim (Option-cases (get_elem? ids i)) [
        | inr (c, e) ↦
            let y : SatisfiesAt values row columns f (some c) =
              subst (SatisfiesAt values row columns f) e x in
            rw (new_dynamic_filters, e)
              (elim (Bool-cases (already_pushed lib f (find_filter lib c pushed))) [
                | inl b ↦ rw b (new_dynamic_filters-SatisfiesSet ids pushed fs result h g)
                | inr b ↦ rw b (
                    new_dynamic_filters-SatisfiesSet ids pushed fs (lib.push_filter c f result) h
                      (push.push_satisfied c f result y g))
              ])
        | inl e ↦ absurd (subst (SatisfiesAt values row columns f) e x)
      ]

  new_list-Gives :
      (filters : TableFilterSet) (s : DeltaMultiFileList) (path : Option Str)
      → to_delta_path files s.path ≡ path
      → IsKept s
      → SatisfiesSet values row columns filters
      → Gives s (or_same s (or_undefined lib (new_list lib filters s path)))
  unfolding create
  new_list-Gives filters s none q h g = inr (to_delta_path-none files s.path q, (_, refl))
  new_list-Gives filters s (some p) q (a, (e, h)) g =
      let together = push_new-push_all values row lib columns push filters s.table_filters h g in
      inl (
        filtered lib filters s p,
        (
          refl,
          (
            (
              filtered-Also filters s p a,
              (
                e,
                subst
                    (λ c.
                      IsPushed values row columns
                        (push_new lib (count_fields c) filters (push_all lib s.table_filters [])))
                    (sym e) together,
              ),
            ),
            to_delta_path-some files s.path p q,
          ),
        ),
      )

  unless_empty-Gives :
      (filters : TableFilterSet) (s : DeltaMultiFileList)
      → IsKept s
      → SatisfiesSet values row columns filters
      → Gives s (or_same s (unless_empty lib files s filters))
  unfolding pushdown_internal
  unless_empty-Gives [] s h g = inl (s, (refl, (h, λ x. x)))
  unless_empty-Gives (f ∷ fs) s h g =
      new_list-Gives (f ∷ fs) s (to_delta_path files s.path) refl h g

  module _ (option : Option Str) (mode : DeltaFilterPushdownMode)
      (known : get_pushdown_mode option ≡ ok mode) where
    push_request-Gives :
        (r : Request) (s : DeltaMultiFileList)
        → IsKept s
        → SatisfiesRequest values row columns r
        → Gives s (push_request lib files option r s)
    unfolding push_request push_constant push_dynamic SatisfiesSet
    push_request-Gives (complex filters) s h g =
        rw known (elim (Bool-cases (takes_constant lib mode)) [
          | inl b ↦ rw b (unless_empty-Gives filters s h g)
          | inr b ↦ rw b (inl (s, (refl, (h, λ x. x))))
        ])
    push_request-Gives (dynamic ids filters) s h g =
        rw known (elim (Bool-cases (takes_dynamic lib mode)) [
          | inl b ↦
              let (new, (e, n)) =
                new_dynamic_filters-SatisfiesSet ids s.table_filters filters [] g tt in
              rw (b, e) (unless_empty-Gives new s h n)
          | inr b ↦ rw b (inl (s, (refl, (h, λ x. x))))
        ])

    pub push_requests-Gives :
        (rs : List Request) (s : DeltaMultiFileList)
        → IsKept s
        → All (SatisfiesRequest values row columns) rs
        → Gives s (push_requests lib files option rs s)
    unfolding push_requests
    push_requests-Gives [] s h g = inl (s, (refl, (h, λ x. x)))
    push_requests-Gives (r ∷ rs) s h (x, g) = elim (push_request-Gives r s h x) [
      | inr (n, (e, q)) ↦ rw q (inr (n, (e, refl)))
      | inl (t, (e, (y, back))) ↦ rw e (elim (push_requests-Gives rs t y g) [
        | inl (u, (q, (z, forth))) ↦ inl (u, (q, (z, λ b. back (forth b))))
        | inr (n, q) ↦ inr (back n, q)
      ])
    ]

    -- Pushdowns that end in a list keep it, also where a path is empty.
    pub push_requests-IsKept :
        (rs : List Request) (s t : DeltaMultiFileList)
        → IsKept s
        → All (SatisfiesRequest values row columns) rs
        → push_requests lib files option rs s ≡ ok t
        → IsKept t
    push_requests-IsKept rs s t h g e = elim (push_requests-Gives rs s h g) [
      | inl (u, (q, (z, back))) ↦ subst IsKept (ok_inj u t (sym q ∙ e)) z
      | inr (n, (d, q)) ↦ ok-ne-err d t (sym q ∙ e)
    ]

-- Where the list's path is not empty, the mode is known and the filters are as below, the pushdowns succeed.
pub push_requests-Scans :
    {S : Type 0} (k : PredicateKernel S) (values : Values) (m : Meaning S)
    (laws : IsMeaning k values m) (row : Row) (lib : FilterLibrary) (files : FileSystem)
    (option : Option Str) (mode : DeltaFilterPushdownMode) (rs : List Request)
    (s : DeltaMultiFileList) (v : PredicateVisitor S)
    → IsPush lib values row s.columns
    → get_pushdown_mode option ≡ ok mode
    → is_empty s.path ≡ false
    → AreColumns s.columns s.table_filters
    → SatisfiesSet values row s.columns s.table_filters
    → All (SatisfiesRequest values row s.columns) rs
    → (t : DeltaMultiFileList) × ((push_requests lib files option rs s ≡ ok t) × Scans k m row v t)
push_requests-Scans k values m laws row lib files option mode rs s v push known named a x y =
    elim (push_requests-Gives values row lib s.columns push files (λ t. Unit) (λ fs t p u. tt)
      option mode known rs s (tt, (refl, (a, x))) y) [
        | inr (n, q) ↦ absurd (true≢false (sym n ∙ named))
        | inl (t, (e, ((u, (c, h)), back))) ↦ (
          t,
          (
            e,
            IsPushed-Scans k values m laws row v t
                (subst (λ d. IsPushed values row d t.table_filters) (sym c) h),
          ),
        )
      ]
