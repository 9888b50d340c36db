-- ===== src/DeleteFilter/Selection.antt =====
-- The selection vector holds exactly the rows that are not deleted.
use mathlib.Core.List.{append-nil, append_assoc}
use duckdb_delta.Prelude.{
  ℕ, zero, suc, ◌+◌, ◌%◌, ◌^◌, ◌≤◌, ◌<◌, ◌≡◌, refl, sym, ap, ◌∙◌, ◌==◌, Bool, false, List, [], ◌∷◌,
  ◌++◌, length, get_elem?, not, none, some, take, set, if◌then◌else◌, arith, Bool-cases, inl, inr,
}
use duckdb_delta.DeleteFilter.{is_selected, filter_from, filter}

-- The deletion vector has an entry for the row, which is false.
abbrev is_deleted : List Bool → ℕ → Bool
is_deleted dv row_id = elim (get_elem? dv row_id) [ none ↦ false | some b ↦ not b ]

deleted_lem : (dv : List Bool) (row_id : ℕ) → is_deleted dv row_id ≡ not (is_selected dv row_id)
unfolding is_selected
deleted_lem dv row_id = ground arith

-- The positions from `i` on, `n` in number, whose rows are not deleted.
unfoldable pub kept : List Bool → ℕ → ℕ → ℕ → List ℕ
kept dv start i zero = []
kept dv start i (suc n) =
    let rest = kept dv start (suc i) n in if is_deleted dv (i + start) then rest else i ∷ rest

length-set : (xs : List ℕ) (i v : ℕ) → length (set xs i v) ≡ length xs
length-set [] i v = refl
length-set (x ∷ xs) zero v = refl
length-set (x ∷ xs) (suc i) v = omega (arith, length-set xs i v)

take-set : (xs : List ℕ) (i v : ℕ) → take i (set xs i v) ≡ take i xs
take-set [] i v = refl
take-set (x ∷ xs) zero v = refl
take-set (x ∷ xs) (suc i) v = ap (◌∷◌ x) (take-set xs i v)

take-set_self :
    (xs : List ℕ) (i v : ℕ) → i < length xs → take (suc i) (set xs i v) ≡ take i xs ++ v ∷ []
take-set_self [] i v h = elim h [ ]
take-set_self (x ∷ xs) zero v h = refl
take-set_self (x ∷ xs) (suc i) v h = ap (◌∷◌ x) (take-set_self xs i v (omega arith))

-- What a run of the loop has written.
abbrev Selects : List ℕ → List ℕ → ℕ → ℕ × List ℕ → Type 0
Selects sel rows current (c, s) =
    (c ≡ current + length rows) × ((take c s ≡ take current sel ++ rows) × (length s ≡ length sel))

-- A round that selects, and one that does not.
Selects-write :
    (sel rows : List ℕ) (current i : ℕ) (r : ℕ × List ℕ)
    → current < length sel
    → Selects (set sel current i) rows (current + 1) r
    → Selects sel (i ∷ rows) current r
Selects-write sel rows current i (c, s) h (e, (t, l)) =
    let next : current + 1 ≡ suc current = omega arith in
    (
      omega (arith, e),
      (
        t
            ∙ ap (λ z. take z (set sel current i) ++ rows) next
            ∙ ap (λ z. z ++ rows) (take-set_self sel current i h)
            ∙ append_assoc (take current sel) (i ∷ []) rows,
        l ∙ length-set sel current i,
      ),
    )

Selects-skip :
    (sel rows : List ℕ) (current i : ℕ) (r : ℕ × List ℕ)
    → Selects (set sel current i) rows (current + 0) r
    → Selects sel rows current r
Selects-skip sel rows current i (c, s) (e, (t, l)) =
    let same : current + 0 ≡ current = omega arith in
    (
      omega (arith, e),
      (
        t
            ∙ ap (λ z. take z (set sel current i) ++ rows) same
            ∙ ap (λ z. z ++ rows) (take-set sel current i),
        l ∙ length-set sel current i,
      ),
    )

filter_from-Selects :
    (dv : List Bool) (start i n : ℕ) (sel : List ℕ) (current : ℕ)
    → current + n ≤ length sel
    → start + (i + n) < 2 ^ 64
    → Selects sel (kept dv start i n) current (filter_from dv start i n sel current)
unfolding filter_from kept
filter_from-Selects dv start i zero sel current h w =
    (omega arith, (sym (append-nil (take current sel)), refl))
filter_from-Selects dv start i (suc n) sel current h w =
    let row : (i + start) % 2 ^ 64 ≡ i + start = omega arith in
    elim (Bool-cases (is_selected dv (i + start))) [
      | inl b ↦
          let r =
            filter_from-Selects dv start (suc i) n (set sel current i) (current + 1)
              (omega (arith, length-set sel current i)) (omega arith) in
          rw (filter_from, kept, row, b, deleted_lem dv (i + start) ∙ ap not b)
            (Selects-write sel (kept dv start (suc i) n) current i _ (omega arith) r)
      | inr b ↦
          let r =
            filter_from-Selects dv start (suc i) n (set sel current i) (current + 0)
              (omega (arith, length-set sel current i)) (omega arith) in
          rw (filter_from, kept, row, b, deleted_lem dv (i + start) ∙ ap not b)
            (Selects-skip sel (kept dv start (suc i) n) current i _ r)
    ]

zero_add : (n : ℕ) → 0 + n ≡ n
zero_add n = omega arith

not_empty : (n : ℕ) → (suc n == 0) ≡ false
not_empty n = ground arith

-- For a chunk that fits the selection vector and whose row numbers fit 64 bits, `Filter` returns how
-- many rows of the chunk are not deleted, and the vector begins with their positions, in order; a
-- row past the end of the deletion vector is not deleted. No write is out of bounds: the vector keeps
-- its length.
pub filter-kept :
    (dv : List Bool) (start count : ℕ) (sel : List ℕ)
    → count ≤ length sel
    → start + count < 2 ^ 64
    → let (selected, result) = filter dv start count sel in
      (selected ≡ length (kept dv start 0 count))
      × ((take selected result ≡ kept dv start 0 count) × (length result ≡ length sel))
unfolding filter kept
filter-kept dv start zero sel h w = (refl, (refl, refl))
filter-kept dv start (suc n) sel h w =
    let e : (suc n == 0) ≡ false = not_empty n in
    let r = filter_from-Selects dv start 0 (suc n) sel 0 (omega arith) (omega arith) in
    rw (filter, e) (r.0 ∙ zero_add (length (kept dv start 0 (suc n))), r.1)
