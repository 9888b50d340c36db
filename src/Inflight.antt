-- ===== src/Inflight.antt =====
-- The lists under construction of `SchemaVisitor` and `ExpressionVisitor` (delta_utils.hpp and
-- delta_utils.cpp): both classes hold `inflight_lists` and `next_id` and number their lists alike.
pub mod Laws
use duckdb_delta.Prelude.{ℕ, ◌+◌, ◌%◌, ◌^◌, Option, none, some, List, [], ◌∷◌, ◌==◌, if◌then◌else◌}

-- `unordered_map<uintptr_t, unique_ptr<FieldList>>`, one entry for each key; `V` is the list type.
abbrev pub Lists {ℓ} : Type ℓ → Type ℓ
Lists V = List (ℕ × V)

pub record Inflight {ℓ} (V : Type ℓ) : Type ℓ where
  pub inflight_lists : Lists V
  pub next_id : ℕ

module _ {ℓ} {V : Type ℓ} where
  unfoldable pub lookup : ℕ → Lists V → Option V
  lookup id [] = none
  lookup id ((k, v) ∷ l) = if k == id then some v else lookup id l

  -- `it->second` changed in place.
  unfoldable pub update : ℕ → (V → V) → Lists V → Lists V
  update id f [] = []
  update id f ((k, v) ∷ l) = if k == id then (k, f v) ∷ l else (k, v) ∷ update id f l

  unfoldable pub erase : ℕ → Lists V → Lists V
  erase id [] = []
  erase id ((k, v) ∷ l) = if k == id then l else (k, v) ∷ erase id l

  -- `emplace` leaves an entry that is there already.
  unfoldable pub emplace : ℕ → V → Lists V → Lists V
  unfolding lookup
  emplace id v l = elim (lookup id l) [ none ↦ (id, v) ∷ l | some _ ↦ l ]

  -- `MakeFieldListImpl`: `next_id` is a `uintptr_t`. The capacity hint changes nothing observable.
  unfoldable pub make_field_list : V → Inflight V → ℕ × Inflight V
  unfolding emplace
  make_field_list empty s = (
    s.next_id,
    record {
      inflight_lists = emplace s.next_id empty s.inflight_lists;
      next_id = (s.next_id + 1) % 2 ^ 64;
    },
  )

  -- `AppendToList` where the list is found; `none` where it is not.
  unfoldable pub append_to_list : ℕ → (V → V) → Inflight V → Option (Inflight V)
  unfolding lookup update
  append_to_list id push s = elim (lookup id s.inflight_lists) [
    | none ↦ none
    | some _ ↦ some (record s { inflight_lists = update id push s.inflight_lists })
  ]

  -- `TakeFieldList` where the list is found; `none` where it is not.
  unfoldable pub take_field_list : ℕ → Inflight V → Option (V × Inflight V)
  unfolding lookup erase
  take_field_list id s = elim (lookup id s.inflight_lists) [
    | none ↦ none
    | some v ↦ some (v, record s { inflight_lists = erase id s.inflight_lists })
  ]

unfoldable pub start {ℓ} : {V : Type ℓ} → Inflight V
start = record { inflight_lists = []; next_id = 1 }
