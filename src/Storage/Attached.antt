-- ===== src/Storage/Attached.antt =====
-- What the options of `ATTACH` make of the catalog.
use mathlib.Core.Path.{subst}
use duckdb_delta.Prelude.{
  Option, none, some, Bool-cases, inl, inr, if◌then◌else◌, ◌≡◌, ◌∙◌, refl, sym, ap, Bool, true,
  false, List, [], ◌∷◌, Str, codes, str_eq, lower, Result, ok, ok_inj, bind_ok,
}
use duckdb_delta.Values.{Value}
use duckdb_delta.Pushdown.{DeltaFilterPushdownMode, all_filters, from_string}
use duckdb_delta.Reader.Host.{Host}
use duckdb_delta.Storage.{Catalog}
use duckdb_delta.Storage.Attach.{
  create_catalog, attach_option, attach_options, attach, when, pin_snapshot, push_partition_info,
  push_filters,
}

when-off : (b : Bool) (f : Catalog → Result Catalog) (c : Catalog) → b ≡ false → when b f c ≡ ok c
when-off b f c h = rw h refl

when-on : (b : Bool) (f : Catalog → Result Catalog) (c : Catalog) → b ≡ true → when b f c ≡ f c
when-on b f c h = rw h refl

-- Neither of the first two settings is the mode.
pin_snapshot-mode :
    (host : Host) (v : Value) (b : Bool) (c d : Catalog)
    → when b (pin_snapshot host v) c ≡ ok d
    → d.filter_pushdown_mode ≡ c.filter_pushdown_mode
pin_snapshot-mode host v true c d h =
    let (b, (r, g)) = bind_ok (host.get_bool v) _ d h in
    sym (ap (λ x. x.filter_pushdown_mode) (ok_inj _ d g))
pin_snapshot-mode host v false c d h = sym (ap (λ x. x.filter_pushdown_mode) (ok_inj c d h))

push_partition_info-mode :
    (host : Host) (v : Value) (b : Bool) (c d : Catalog)
    → when b (push_partition_info host v) c ≡ ok d
    → d.filter_pushdown_mode ≡ c.filter_pushdown_mode
push_partition_info-mode host v true c d h =
    let (b, (r, g)) = bind_ok (host.get_bool v) _ d h in
    sym (ap (λ x. x.filter_pushdown_mode) (ok_inj _ d g))
push_partition_info-mode host v false c d h = sym (ap (λ x. x.filter_pushdown_mode) (ok_inj c d h))

-- The string that an option's value holds names the catalog's mode.
abbrev pub IsNamed : Host → Value → Catalog → Type 0
IsNamed host v d =
    (s : Str) × (host.get_string v ≡ ok s) × (from_string s ≡ ok d.filter_pushdown_mode)

push_filters-IsNamed :
    (host : Host) (v : Value) (c d : Catalog) → push_filters host v c ≡ ok d → IsNamed host v d
push_filters-IsNamed host v c d h =
    let (str, (r, g)) = bind_ok (host.get_string v) _ d h in
    let (mode, (q, f)) = bind_ok (from_string str) _ d g in
    (str, r, q ∙ ap (λ x. ok x.filter_pushdown_mode) (ok_inj _ d f))

-- An option of another name keeps the mode.
attach_option_other :
    (host : Host) (key : Str) (v : Value) (c d : Catalog)
    → attach_option host key v c ≡ ok d
    → str_eq (lower key) (codes "pushdown_filters") ≡ false
    → d.filter_pushdown_mode ≡ c.filter_pushdown_mode
unfolding attach_option
attach_option_other host key v c d h n =
    let (c1, (r1, g1)) =
      bind_ok (when (str_eq (lower key) (codes "pin_snapshot")) (pin_snapshot host v) c) _ d h in
    let (c2, (r2, g2)) =
      bind_ok
        (when (str_eq (lower key) (codes "pushdown_partition_info")) (push_partition_info host v)
          c1)
        _ d g1 in
    let last =
      sym (when-off (str_eq (lower key) (codes "pushdown_filters")) (push_filters host v) c2 n)
      ∙ g2 in
    sym (ap (λ x. x.filter_pushdown_mode) (ok_inj c2 d last))
    ∙ push_partition_info-mode host v _ c1 c2 r2
    ∙ pin_snapshot-mode host v _ c c1 r1

attach_option-IsNamed :
    (host : Host) (key : Str) (v : Value) (c d : Catalog)
    → attach_option host key v c ≡ ok d
    → str_eq (lower key) (codes "pushdown_filters") ≡ true
    → IsNamed host v d
unfolding attach_option
attach_option-IsNamed host key v c d h n =
    let (c1, (r1, g1)) =
      bind_ok (when (str_eq (lower key) (codes "pin_snapshot")) (pin_snapshot host v) c) _ d h in
    let (c2, (r2, g2)) =
      bind_ok
        (when (str_eq (lower key) (codes "pushdown_partition_info")) (push_partition_info host v)
          c1)
        _ d g1 in
    push_filters-IsNamed host v c2 d (
      sym (when-on (str_eq (lower key) (codes "pushdown_filters")) (push_filters host v) c2 n) ∙ g2)

-- The value of the last option for the mode, under its name in any case.
unfoldable pub last_filters : List (Str × Value) → Option Value
last_filters [] = none
last_filters ((key, v) ∷ options) = elim (last_filters options) [
  | some w ↦ some w
  | none ↦ if str_eq (lower key) (codes "pushdown_filters") then some v else none
]

-- The catalog has the mode that the option names, or else the one that it had.
abbrev pub HasMode : Host → DeltaFilterPushdownMode → Catalog → Option Value → Type 0
HasMode host mode d none = d.filter_pushdown_mode ≡ mode
HasMode host mode d (some v) = IsNamed host v d

attach_option-HasMode :
    (host : Host) (key : Str) (v : Value) (c c1 d : Catalog) (later : Option Value)
    → attach_option host key v c ≡ ok c1
    → HasMode host c1.filter_pushdown_mode d later
    → HasMode host c.filter_pushdown_mode d (elim later [
      | some w ↦ some w
      | none ↦ if str_eq (lower key) (codes "pushdown_filters") then some v else none
    ])
attach_option-HasMode host key v c c1 d (some w) r h = h
attach_option-HasMode host key v c c1 d none r h =
    elim (Bool-cases (str_eq (lower key) (codes "pushdown_filters"))) [
      | inl e ↦
          let (s, hs, q) = attach_option-IsNamed host key v c c1 r e in
          rw e (s, hs, q ∙ ap ok (sym h))
      | inr e ↦ rw e (h ∙ attach_option_other host key v c c1 r e)
    ]

attach_options-HasMode :
    (host : Host) (options : List (Str × Value)) (c d : Catalog)
    → attach_options host options c ≡ ok d
    → HasMode host c.filter_pushdown_mode d (last_filters options)
unfolding attach_options last_filters
attach_options-HasMode host [] c d h = sym (ap (λ x. x.filter_pushdown_mode) (ok_inj c d h))
attach_options-HasMode host ((key, v) ∷ options) c d h =
    let (c1, (r, g)) = bind_ok (attach_option host key v c) _ d h in
    attach_option-HasMode host key v c c1 d (last_filters options) r
      (attach_options-HasMode host options c1 d g)

-- The name that is set at the end does not change the mode.
HasMode-named :
    (host : Host) (mode : DeltaFilterPushdownMode) (d : Catalog) (name : Str) (o : Option Value)
    → HasMode host mode d o
    → HasMode host mode (record d { default_table = name }) o
HasMode-named host mode d name none h = h
HasMode-named host mode d name (some v) h = h

-- Where attaching succeeds, the last option named `pushdown_filters` (in any case) decides the catalog's
-- mode: its value is a string, and the mode is the one that this names. Without such an option the mode is
-- the default.
pub attach-mode :
    (host : Host) (name path : Str) (options : List (Str × Value)) (c : Catalog)
    → attach host name path options ≡ ok c
    → HasMode host all_filters c (last_filters options)
unfolding attach create_catalog
attach-mode host name path options c h =
    let (d, (r, g)) = bind_ok (attach_options host options (create_catalog name path)) _ c h in
    subst (λ (x : Catalog). HasMode host all_filters x (last_filters options)) (ok_inj _ c g)
      (HasMode-named host all_filters d name (last_filters options)
        (attach_options-HasMode host options (create_catalog name path) d r))
