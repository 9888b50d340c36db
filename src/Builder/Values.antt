-- ===== src/Builder/Values.antt =====
-- What a connection string and a list of options say of a key.
use duckdb_delta.Prelude.{
  ℕ, ◌≡◌, ◌∙◌, refl, ap, ◌++◌, false, [], ◌∷◌, Str, codes, starts_with, starts_with-append, Avoids,
  drop-append, arith,
}
use duckdb_delta.Builder.Connection.{
  until_semicolon, match_here, search_value, parse_from_connection_string,
}

-- `pattern` begins at no place of the first part of `before ++ after`.
abbrev pub NoneBefore : Str → Str → Str → Type 0
NoneBefore pattern [] after = Unit
NoneBefore pattern (a ∷ before) after =
    (starts_with (a ∷ before ++ after) pattern ≡ false) × NoneBefore pattern before after

-- The end of a value: of the string, or a semicolon.
abbrev pub Ends : Str → Type 0
Ends [] = Unit
Ends (a ∷ s) = a ≡ b';'

until_semicolon-append :
    (value tail : Str) → Avoids b';' value → Ends tail → until_semicolon (value ++ tail) ≡ value
until_semicolon-append [] [] h e = refl
until_semicolon-append [] (a ∷ tail) h e = ground arith
until_semicolon-append (a ∷ value) tail h e =
    rw (h.0) (ap (◌∷◌ a) (until_semicolon-append value tail (h.1) e))

match_here-append :
    (pattern value tail : Str)
    → Avoids b';' value
    → Ends tail
    → match_here pattern (pattern ++ (value ++ tail)) ≡ value
unfolding match_here
match_here-append p v t h e =
    rw (starts_with-append p (v ++ t))
      (rw (drop-append p (v ++ t)) (until_semicolon-append v t h e))

search_value_head :
    (pattern s : Str) (a : ℕ) (v : Str)
    → match_here pattern s ≡ a ∷ v
    → search_value pattern s ≡ a ∷ v
unfolding search_value
search_value_head p [] a v h = h
search_value_head p (b ∷ s) a v h = rw h refl

search_value_skip :
    (pattern before after : Str)
    → NoneBefore pattern before after
    → search_value pattern (before ++ after) ≡ search_value pattern after
unfolding search_value match_here
search_value_skip p [] after h = refl
search_value_skip p (a ∷ before) after h = rw (h.0) (search_value_skip p before after (h.1))

-- A value that is not empty, has no semicolon, and ends at one or at the end of the connection string
-- is read back whole, where `key=` does not occur before it.
pub parse_from_connection_string_reads :
    (key before value tail : Str) (a : ℕ)
    → Avoids b';' (a ∷ value)
    → Ends tail
    → NoneBefore (key ++ codes "=") before ((key ++ codes "=") ++ (a ∷ value ++ tail))
    → parse_from_connection_string (before ++ ((key ++ codes "=") ++ (a ∷ value ++ tail))) key
      ≡ a ∷ value
unfolding parse_from_connection_string
parse_from_connection_string_reads key before value tail a h e n =
    let p = key ++ codes "=" in
    let m = match_here-append p (a ∷ value) tail h e in
    search_value_skip p before _ n ∙ search_value_head p _ a value m
