-- ===== src/Reader/Binding.antt =====
-- The columns that a file is read with.
use duckdb_delta.Prelude.{
  ℕ, zero, suc, ◌+◌, ◌-◌, ◌<◌, ◌≤◌, ◌==◌, ◌≡◌, ◌∙◌, refl, ap, Bool-cases, inl, inr, arith, ==_iff,
}
use duckdb_delta.Columns.{ColumnDefs, no_columns, then_column, column_def}
use duckdb_delta.Reader.Constants.{column_at}
use duckdb_delta.Reader.Columns.{size, columns_to_use, append_columns, drop_columns}

column_at-append_left :
    (cs ds : ColumnDefs) (i : ℕ) → i < size cs → column_at (append_columns cs ds) i ≡ column_at cs i
unfolding column_at size
column_at-append_left no_columns ds i h = absurd (omega arith)
column_at-append_left (then_column (column_def n t d id cs') cs) ds zero h = refl
column_at-append_left (then_column (column_def n t d id cs') cs) ds (suc i) h =
    column_at-append_left cs ds i (omega arith)

column_at-append_right :
    (cs ds : ColumnDefs) (j : ℕ) → column_at (append_columns cs ds) (size cs + j) ≡ column_at ds j
unfolding column_at size
column_at-append_right no_columns ds j =
    let here : 0 + j ≡ j = omega arith in ap (column_at ds) here
column_at-append_right (then_column (column_def n t d id cs') cs) ds j =
    let there : suc (size cs) + j ≡ suc (size cs + j) = omega arith in
    rw there (column_at-append_right cs ds j)

column_at-drop :
    (n : ℕ) (cs : ColumnDefs) (j : ℕ) → column_at (drop_columns n cs) j ≡ column_at cs (n + j)
unfolding column_at
column_at-drop zero cs j = let here : j ≡ 0 + j = omega arith in ap (column_at cs) here
column_at-drop (suc n) no_columns j = refl
column_at-drop (suc n) (then_column (column_def m t d id cs') cs) j =
    let there : suc n + j ≡ suc (n + j) = omega arith in rw there (column_at-drop n cs j)

-- A file is read with the scan's columns, which know the file's own names for them, where the scan has
-- a column at the place, and with the query's extra columns at the places after them.
pub columns_to_use-column_at :
    (scan_columns global_columns : ColumnDefs) (i : ℕ)
    → (i < size scan_columns
        → column_at (columns_to_use scan_columns global_columns) i ≡ column_at scan_columns i)
      × (size scan_columns ≤ i
          → i < size global_columns
          → column_at (columns_to_use scan_columns global_columns) i ≡ column_at global_columns i)
unfolding columns_to_use
columns_to_use-column_at scan global i = elim (Bool-cases (size scan == size global)) [
  | inl e ↦
      rw e (
        λ h. refl,
        λ h l. absurd (let same = (==_iff (size scan) (size global)).0 e in omega arith),
      )
  | inr e ↦ rw e (
    λ h. column_at-append_left scan (drop_columns (size scan) global) i h,
    λ h l.
        let place : size scan + (i - size scan) ≡ i = omega arith in
        let both =
          column_at-append_right scan (drop_columns (size scan) global) (i - size scan)
          ∙ column_at-drop (size scan) global (i - size scan) in
        rw place at both,
  )
]
