-- ===== src/Prelude/Text.antt =====
-- `std::string` as the list of its bytes, with the operations that the sources use.
use Prim.Native.Nat.{ℕ, zero, suc, ◌+◌, ◌/◌, ◌%◌}
use Prim.Native.Char.{code}
use Prim.Native.String.{String}
use mathlib.Core.Path.{◌≡◌, refl}
use mathlib.Core.Bool.{Bool, true, false, ◌&&◌, ◌||◌}
use mathlib.Core.Option.{Option, none, some}
use mathlib.Core.List.{List, [], ◌∷◌, ◌++◌, map}
use native.Mathlib.Omega.{arith}
use duckdb_delta.Prelude.Tests.{ltb, leb, ◌==◌, if◌then◌else◌}
use duckdb_delta.Prelude.Lists.{length, drop, All}

abbrev pub Str : Type 0
Str = List ℕ

-- The bytes of a literal.
abbrev pub codes : String → Str
codes String.[] = []
codes (String.◌∷◌ c s) = code c ∷ codes s

-- `operator==` on strings.
abbrev pub str_eq : Str → Str → Bool
str_eq [] [] = true
str_eq [] (b ∷ t) = false
str_eq (a ∷ s) [] = false
str_eq (a ∷ s) (b ∷ t) = (a == b) && str_eq s t

pub str_eq_refl : (s : Str) → str_eq s s ≡ true
str_eq_refl [] = refl
str_eq_refl (a ∷ s) = ground (arith, str_eq_refl s)

pub eq_of-str_eq : (s t : Str) → str_eq s t ≡ true → s ≡ t
eq_of-str_eq [] [] h = refl
eq_of-str_eq [] (b ∷ t) h = ground arith
eq_of-str_eq (a ∷ s) [] h = ground arith
eq_of-str_eq (a ∷ s) (b ∷ t) h = ground (arith, eq_of-str_eq s t)

-- `StringUtil::StartsWith(s, prefix)`.
abbrev pub starts_with : Str → Str → Bool
starts_with s [] = true
starts_with [] (p ∷ ps) = false
starts_with (a ∷ s) (p ∷ ps) = (a == p) && starts_with s ps

pub starts_with-append : (p s : Str) → starts_with (p ++ s) p ≡ true
starts_with-append [] s = refl
starts_with-append (a ∷ p) s = ground (arith, starts_with-append p s)

abbrev shift : Option ℕ → Option ℕ
shift none = none
shift (some i) = some (suc i)

-- The first position of a byte.
abbrev pub index_of : ℕ → Str → Option ℕ
index_of c [] = none
index_of c (a ∷ s) = if a == c then some 0 else shift (index_of c s)

abbrev plus : ℕ → Option ℕ → Option ℕ
plus n none = none
plus n (some i) = some (n + i)

-- `s.find(c, from)`; `none` is `npos`.
abbrev pub find : Str → ℕ → ℕ → Option ℕ
find s c from = plus from (index_of c (drop from s))

abbrev pub contains : Str → Str → Bool
contains [] p = starts_with [] p
contains (a ∷ s) p = starts_with (a ∷ s) p || contains s p

abbrev pub is_empty : Str → Bool
is_empty [] = true
is_empty (a ∷ s) = false

abbrev drop_head_while : ℕ → Str → Str
drop_head_while c [] = []
drop_head_while c (a ∷ s) = if a == c then drop_head_while c s else a ∷ s

-- `StringUtil::RTrim(s, c)` with one character.
abbrev snoc_trim : ℕ → ℕ → Str → Str
snoc_trim c a [] = if a == c then [] else a ∷ []
snoc_trim c a (b ∷ s) = a ∷ b ∷ s

abbrev pub rtrim : ℕ → Str → Str
rtrim c [] = []
rtrim c (a ∷ s) = snoc_trim c a (rtrim c s)

-- The last byte.
abbrev pub get_last? : Str → Option ℕ
get_last? [] = none
get_last? (a ∷ []) = some a
get_last? (a ∷ b ∷ s) = get_last? (b ∷ s)

pub get_last?-append : (s : Str) (a : ℕ) → get_last? (s ++ a ∷ []) ≡ some a
get_last?-append [] a = refl
get_last?-append (x ∷ []) a = refl
get_last?-append (x ∷ y ∷ s) a = get_last?-append (y ∷ s) a

abbrev lower_char : ℕ → ℕ
lower_char c = if leb b'A' c && leb c b'Z' then c + 32 else c

-- `StringUtil::Lower` (ASCII).
abbrev pub lower : Str → Str
lower = map lower_char

-- `c` does not occur in `s`.
abbrev pub Avoids : ℕ → Str → Type 0
Avoids c = All (λ a. (a == c) ≡ false)

pub index_of-append : (c : ℕ) (s t : Str) → Avoids c s → index_of c (s ++ c ∷ t) ≡ some (length s)
index_of-append c [] t h = ground arith
index_of-append c (a ∷ s) t h = ground (arith, index_of-append c s t h.1)

pub index_of-none : (c : ℕ) (s : Str) → Avoids c s → index_of c s ≡ none
index_of-none c [] h = refl
index_of-none c (a ∷ s) h = ground (arith, index_of-none c s h.1)

-- Decimal digits; `fuel` bounds their number.
abbrev digits : ℕ → ℕ → Str
digits zero n = []
digits (suc fuel) n =
    let rest = digits fuel (n / 10) in
    if ltb n 10 then (n + 48) ∷ [] else rest ++ (n % 10 + 48) ∷ []

-- A number of at most 64 bits as `std::to_string` prints it: twenty digits are enough.
unfoldable pub to_decimal : ℕ → Str
to_decimal n = digits 20 n
