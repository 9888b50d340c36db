-- ===== src/Builder/Url.antt =====
-- The bucket of an URL, and the path that the kernel is given.
use duckdb_delta.Prelude.{
  ℕ, ◌+◌, ◌-◌, ◌%◌, ◌^◌, ◌++◌, ◌||◌, Bool, none, some, [], Str, codes, starts_with, find, take,
  drop, Result, ok, throw, io, if◌then◌else◌,
}

-- `s.substr(pos, end - pos)`, whose difference wraps around; here `pos` is at most the length of `s`.
unfoldable pub substr_between : Str → ℕ → ℕ → Str
substr_between s pos end = take ((end + 2 ^ 64 - pos) % 2 ^ 64) (drop pos s)

-- `bucket`, `path_in_bucket` and `secret_type`.
pub record Location : Type 0 where
  pub bucket : Str
  pub path_in_bucket : Str
  pub secret_type : Str

-- The slash is searched from `from` on, and the bucket is cut from `start` on.
unfoldable pub cut : ℕ → ℕ → Str → Str → Str → Result Location
unfolding substr_between
cut from start message secret_type path = elim (find path b'/' from) [
  | none ↦ throw io (message ++ path)
  | some end_of_container ↦ ok (record {
    bucket = substr_between path start end_of_container;
    path_in_bucket = drop end_of_container path;
    secret_type = secret_type;
  })
]

abbrev pub invalid_s3 : Str
invalid_s3 = codes "Invalid s3 url passed to delta scan: "

abbrev pub invalid_gcs : Str
invalid_gcs = codes "Invalid gcs url passed to delta scan: "

abbrev pub invalid_azure : Str
invalid_azure = codes "Invalid azure url passed to delta scan: "

-- The chain of tests on the scheme. Its last case, which no path that gets here reaches, leaves the
-- three strings empty.
unfoldable pub parse_location : Str → Result Location
unfolding cut
parse_location path =
    if starts_with path (codes "s3://")
    then cut 5 5 invalid_s3 (codes "s3") path
    else if starts_with path (codes "gcs://")
    then cut 6 6 invalid_gcs (codes "gcs") path
    else if starts_with path (codes "gs://")
    then cut 5 5 invalid_gcs (codes "gcs") path
    else if starts_with path (codes "r2://")
    then cut 5 5 invalid_gcs (codes "r2") path
    else if starts_with path (codes "azure://") || starts_with path (codes "abfss://")
    then cut 8 8 invalid_azure (codes "azure") path
    else if starts_with path (codes "az://")
    then cut 5 5 invalid_azure (codes "azure") path
    else if starts_with path (codes "abfs://")
    then cut 7 8 invalid_azure (codes "azure") path
    else ok (record { bucket = []; path_in_bucket = []; secret_type = [] })

-- The path for the kernel, which takes these services for S3.
unfoldable pub cleaned_path : Str → Str
cleaned_path path =
    if starts_with path (codes "r2://") || starts_with path (codes "gs://")
    then codes "s3://" ++ drop 5 path
    else if starts_with path (codes "gcs://")
    then codes "s3://" ++ drop 6 path
    else path

-- Any other path takes the default engine.
unfoldable pub is_remote : Str → Bool
is_remote path =
    starts_with path (codes "s3://")
    || starts_with path (codes "gcs://")
    || starts_with path (codes "gs://")
    || starts_with path (codes "r2://")
    || starts_with path (codes "azure://")
    || starts_with path (codes "az://")
    || starts_with path (codes "abfs://")
    || starts_with path (codes "abfss://")
