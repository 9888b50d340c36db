-- ===== src/Paths.antt =====
-- The path helpers of functions/delta_scan/delta_multi_file_list.cpp: `url_decode`, `ToDuckDBPath`,
-- `ToDeltaPath`, and the path that `ScanDataCallBack::VisitCallbackInternal` gives a data file.
pub mod Decode
pub mod Slash
mod Tests
use duckdb_delta.Prelude.{
  ℕ, zero, suc, ◌+◌, ◌-◌, ◌*◌, ◌%◌, ◌^◌, Bool, ◌&&◌, ◌||◌, Option, none, some, List, [], ◌∷◌, ◌++◌,
  ◌==◌, leb, if◌then◌else◌, Str, codes, starts_with, get_last?, rtrim, take, drop,
}

-- `isxdigit` with the digit's value.
unfoldable pub hex_value : ℕ → Option ℕ
hex_value c =
    if leb b'0' c && leb c b'9'
    then some (c - 48)
    else if leb b'A' c && leb c b'F'
    then some (c - 55)
    else if leb b'a' c && leb c b'f'
    then some (c - 87)
    else none

unfoldable pub is_space : ℕ → Bool
is_space c = c == 32 || (leb 9 c && leb c 13)

-- Further hexadecimal digits, up to the first byte that is none.
unfoldable pub hex_run : ℕ → Str → ℕ
hex_run acc [] = acc
hex_run acc (c ∷ s) = elim (hex_value c) [ none ↦ acc | some v ↦ hex_run (acc * 16 + v) s ]

unfoldable pub scan_digits : Str → Option ℕ
unfolding hex_value hex_run
scan_digits [] = none
scan_digits (c ∷ s) = elim (hex_value c) [ none ↦ none | some v ↦ some (hex_run v s) ]

unfoldable pub scan_prefixed : Str → Option ℕ
unfolding scan_digits
scan_prefixed (c ∷ x ∷ s) =
    if c == b'0' && (x == b'x' || x == b'X') then scan_digits s else scan_digits (c ∷ x ∷ s)
scan_prefixed s = scan_digits s

abbrev negate : Option ℕ → Option ℕ
negate none = none
negate (some v) = some ((2 ^ 32 - v) % 2 ^ 32)

unfoldable pub scan_signed : Str → Option ℕ
unfolding scan_prefixed
scan_signed [] = none
scan_signed (c ∷ s) =
    if c == b'-'
    then negate (scan_prefixed s)
    else if c == b'+'
    then scan_prefixed s
    else scan_prefixed (c ∷ s)

-- `sscanf(s, "%x", &ii)` on a short string: white space, a sign, a prefix `0x`, digits. `none` is a
-- matching failure, which leaves `ii` as it was.
unfoldable pub scan_hex : Str → Option ℕ
unfolding scan_signed is_space
scan_hex [] = none
scan_hex (c ∷ s) = let rest = scan_hex s in if is_space c then rest else scan_signed (c ∷ s)

abbrev or_else : ℕ → Option ℕ → ℕ
or_else g none = g
or_else g (some v) = v

-- The loop of `url_decode`; `skip` bytes are still to be passed over (`i += 2`). `garbage` is the
-- value that the uninitialised `ii` happens to hold.
unfoldable pub url_decode_from : ℕ → ℕ → Str → Str
unfolding scan_hex
url_decode_from garbage skip [] = []
url_decode_from garbage (suc skip) (c ∷ s) = url_decode_from garbage skip s
url_decode_from garbage zero (c ∷ s) =
    (if c == 37 then or_else garbage (scan_hex (take 2 s)) % 256 else c)
    ∷ url_decode_from garbage (if c == 37 then 2 else 0) s

unfoldable pub url_decode : ℕ → Str → Str
unfolding url_decode_from
url_decode garbage input = url_decode_from garbage 0 input

unfoldable pub to_duckdb_path : Str → Str
to_duckdb_path raw_path =
    if starts_with raw_path (codes "file://") then drop 7 raw_path else raw_path

-- DuckDB's `LocalFileSystem`.
pub record FileSystem : Type 0 where
  pub working_directory : Str
  pub join_path : Str → Str → Str

-- `none`: `path[path.size() - 1]` reads outside the string.
unfoldable pub with_slash : Str → Option Str
with_slash path = elim (get_last? path) [
  | none ↦ none
  | some c ↦ some (if c == b'/' then path else path ++ b'/' ∷ [])
]

unfoldable pub to_delta_path : FileSystem → Str → Option Str
unfolding with_slash
to_delta_path fs raw_path = with_slash (
    if starts_with raw_path (codes "./")
    then codes "file://" ++ fs.join_path fs.working_directory (drop 2 raw_path)
    else raw_path)

-- `path_string` of `VisitCallbackInternal`, from the snapshot's path and the file's path.
unfoldable pub resolve_file : ℕ → Str → Str → Str
unfolding url_decode to_duckdb_path
resolve_file garbage snapshot_path path =
    to_duckdb_path (url_decode garbage (rtrim b'/' snapshot_path ++ b'/' ∷ path))
