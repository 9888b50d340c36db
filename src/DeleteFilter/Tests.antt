-- ===== src/DeleteFilter/Tests.antt =====
-- A chunk of five rows behind a short deletion vector, and the theorem there.
use duckdb_delta.Prelude.{ℕ, ◌≡◌, true, false, List, [], ◌∷◌, Bool, length, take, arith}
use duckdb_delta.DeleteFilter.{is_selected, filter}
use duckdb_delta.DeleteFilter.Selection.{kept, filter-kept}

abbrev deletion_vector : List Bool
deletion_vector = true ∷ false ∷ true ∷ false ∷ []

abbrev fresh : List ℕ
fresh = 9 ∷ 9 ∷ 9 ∷ 9 ∷ 9 ∷ 9 ∷ []

filter-kept_runs :
    let (selected, result) = filter deletion_vector 1 5 fresh in
    (selected ≡ 3) × ((take selected result ≡ 1 ∷ 3 ∷ 4 ∷ []) × (length result ≡ 6))
unfolding kept is_selected
filter-kept_runs = filter-kept deletion_vector 1 5 fresh (omega arith) (omega arith)
