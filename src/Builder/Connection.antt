-- ===== src/Builder/Connection.antt =====
-- Azure's connection strings and endpoints.
use duckdb_delta.Prelude.{
  ◌-◌, ◌++◌, ◌==◌, none, some, [], ◌∷◌, Str, codes, starts_with, find, take, drop, length, is_empty,
  if◌then◌else◌,
}

-- `ParseAccountNameFromEndpoint`.
unfoldable pub parse_account_name_from_endpoint : Str → Str
parse_account_name_from_endpoint endpoint =
    if starts_with endpoint (codes "https://")
    then elim (find endpoint b'.' 8) [
      | none ↦ []
      | some result ↦ take (result - 8) (drop 8 endpoint)
    ]
    else []

-- `[^;]*`, as long as it goes.
abbrev pub until_semicolon : Str → Str
until_semicolon [] = []
until_semicolon (a ∷ s) = if a == b';' then [] else a ∷ until_semicolon s

-- The value that `key=([^;]+)(?=;|$)` captures at the beginning; an empty one is no match. The longest
-- value ends before a semicolon or at the end, so that the lookahead holds.
unfoldable pub match_here : Str → Str → Str
match_here pattern s =
    if starts_with s pattern then until_semicolon (drop (length pattern) s) else []

-- `std::regex_search`: the first match from the left.
unfoldable pub search_value : Str → Str → Str
unfolding match_here
search_value pattern [] = match_here pattern []
search_value pattern (a ∷ s) =
    let rest = search_value pattern s in
    let here = match_here pattern (a ∷ s) in if is_empty here then rest else here

-- `parseFromConnectionString`; the key has no character that is special in a pattern.
unfoldable pub parse_from_connection_string : Str → Str → Str
unfolding search_value
parse_from_connection_string connection_string key =
    search_value (key ++ codes "=") connection_string
