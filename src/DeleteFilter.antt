-- ===== src/DeleteFilter.antt =====
-- `DeltaDeleteFilter` (functions/delta_scan/delta_multi_file_reader.cpp): the deletion vector of a file,
-- applied to a chunk of its rows.
pub mod Selection
mod Tests
use duckdb_delta.Prelude.{
  ℕ, zero, suc, ◌+◌, ◌%◌, ◌^◌, ◌==◌, Bool, true, none, some, List, get_elem?, set, if◌then◌else◌,
}

-- A row past the end of the deletion vector is selected.
unfoldable pub is_selected : List Bool → ℕ → Bool
is_selected dv row_id = elim (get_elem? dv row_id) [ none ↦ true | some b ↦ b ]

abbrev to_number : Bool → ℕ
to_number b = if b then 1 else 0

-- The loop, with `n` rounds left: every round writes, and a row that is not selected is written over.
unfoldable pub filter_from : List Bool → ℕ → ℕ → ℕ → List ℕ → ℕ → ℕ × List ℕ
unfolding is_selected
filter_from dv start_row_index i zero result_sel current_select = (current_select, result_sel)
filter_from dv start_row_index i (suc n) result_sel current_select =
    filter_from dv start_row_index (suc i) n (set result_sel current_select i)
      (current_select + to_number (is_selected dv ((i + start_row_index) % 2 ^ 64)))

-- `Filter`: the number of rows that are selected, and the selection vector; `result_sel` is what the
-- fresh vector holds.
unfoldable pub filter : List Bool → ℕ → ℕ → List ℕ → ℕ × List ℕ
unfolding filter_from
filter dv start_row_index count result_sel =
    if count == 0 then (0, result_sel) else filter_from dv start_row_index 0 count result_sel 0
