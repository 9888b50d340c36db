-- ===== src/Expression/Decimals.antt =====
-- The 64-bit path of decimal literals, against the number that the two halves stand for.
use duckdb_delta.Prelude.{
  ℕ, suc, ◌-◌, ◌^◌, ◌<◌, ◌≡◌, ◌⊎◌, inl, inr, false, ltb, refl, arith, ℤ, pos, negsuc,
}
use duckdb_delta.Expression.Literals.{
  get_truncated_decimal_value, hugeint, decimal_argument, max_width_int64,
}

-- A decimal from 0 to 2^63 - 1, whose upper half is 0, is passed on as it is. A negative decimal -(m + 1)
-- that is greater than -2^63 loses its sign: what is passed on is its absolute value, where the two
-- halves stand for the number itself. For -2^63 the negation overflows, and what is passed on is undefined.
pub get_truncated_decimal_value_lem :
    (overflow : ℤ) (n m : ℕ)
    → n < 2 ^ 63
    → suc m < 2 ^ 63
    → (get_truncated_decimal_value overflow (pos 0) n ≡ hugeint (pos 0) n)
      × ((get_truncated_decimal_value overflow (negsuc 0) (2 ^ 64 - 1 - m) ≡ pos (suc m))
          × (hugeint (negsuc 0) (2 ^ 64 - 1 - m) ≡ negsuc m))
      × (get_truncated_decimal_value overflow (negsuc 0) (2 ^ 63) ≡ overflow)
unfolding get_truncated_decimal_value hugeint
get_truncated_decimal_value_lem o n m h g =
    (ground arith, (ground arith, ground arith), ground arith)

-- Where the precision is 18 or more, and for the decimals that the 64-bit path keeps, the number itself is
-- handed on.
pub decimal_argument-hugeint :
    (overflow ms : ℤ) (ls p : ℕ)
    → (ltb p max_width_int64 ≡ false) ⊎ ((ms ≡ pos 0) × (ls < 2 ^ 63))
    → decimal_argument overflow ms ls p ≡ hugeint ms ls
unfolding decimal_argument get_truncated_decimal_value hugeint
decimal_argument-hugeint o ms ls p (inl h) = rw h refl
decimal_argument-hugeint o ms ls p (inr (e, h)) = rw e (ground (arith, h))
