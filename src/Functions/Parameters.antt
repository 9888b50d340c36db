-- ===== src/Functions/Parameters.antt =====
-- The laws of the map of named parameters.
use duckdb_delta.Prelude.{
  ◌≡◌, refl, Bool, true, none, some, [], ◌∷◌, Str, Bool-cases, inl, inr, if◌then◌else◌, arith,
}
use duckdb_delta.Types.{LogicalType}
use duckdb_delta.Functions.{Parameters, erase, assign, find_parameter}

-- The map's keys are compared by an equivalence.
pub record IsKeyEquality (same_key : Str → Str → Bool) : Type 0 where
  pub key_refl : (n : Str) → same_key n n ≡ true
  pub key_same : (m n k : Str) → same_key m n ≡ true → same_key m k ≡ same_key n k

module _ (same_key : Str → Str → Bool) (laws : IsKeyEquality same_key) where
  pub find-erase :
      (n k : Str) (ps : Parameters)
      → find_parameter same_key k (erase same_key n ps)
        ≡ (if same_key n k then none else find_parameter same_key k ps)
  unfolding find_parameter erase
  find-erase n k [] = elim (Bool-cases (same_key n k)) [ inl e ↦ rw e refl | inr e ↦ rw e refl ]
  find-erase n k ((m, t) ∷ ps) = elim (Bool-cases (same_key m n)) [
    | inl e ↦ rw (e, laws.key_same m n k e) (ground (arith, find-erase n k ps))
    | inr e ↦ rw e (
        ground
          (arith, find-erase n k ps, laws.key_same m k n, laws.key_same n k n, laws.key_refl n))
  ]

  pub find-assign :
      (n k : Str) (t : LogicalType) (ps : Parameters)
      → find_parameter same_key k (assign same_key n t ps)
        ≡ (if same_key n k then some t else find_parameter same_key k ps)
  unfolding find_parameter assign
  find-assign n k t [] = refl
  find-assign n k t ((m, u) ∷ ps) = elim (Bool-cases (same_key m n)) [
    | inl e ↦ rw (e, laws.key_same m n k e) (ground arith)
    | inr e ↦ rw e (
        ground
          (arith, find-assign n k t ps, laws.key_same m k n, laws.key_same n k n, laws.key_refl n))
  ]
