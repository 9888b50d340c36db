-- ===== src/Builder/Create.antt =====
-- `CreateBuilder`.
use duckdb_delta.Prelude.{
  ℕ, ◌++◌, ◌||◌, Bool, Option, none, some, [], Str, codes, str_eq, starts_with, Result, ok, throw,
  not_implemented, ◌>>=◌, if◌then◌else◌,
}
use duckdb_delta.Errors.{ExternResult, try_unpack_result}
use duckdb_delta.Builder.Options.{Secret, Options}
use duckdb_delta.Builder.Url.{Location, parse_location, cleaned_path, is_remote}
use duckdb_delta.Builder.S3.{s3_options}
use duckdb_delta.Builder.Azure.{azure_options}

-- `get_engine_builder` of the kernel, and `SecretManager::LookupSecret` by path and type.
pub record Services : Type 0 where
  pub get_engine_builder : Str → ExternResult ℕ
  pub lookup_secret : Str → Str → Option Secret

-- A path of a service whose endpoint only a secret gives.
unfoldable pub needs_secret : Str → Bool
needs_secret path =
    starts_with path (codes "r2://")
    || starts_with path (codes "gs://")
    || starts_with path (codes "gcs://")

abbrev is_s3 : Str → Bool
is_s3 secret_type =
    str_eq secret_type (codes "s3")
    || str_eq secret_type (codes "gcs")
    || str_eq secret_type (codes "r2")

-- The options that a secret gives, by its type.
unfoldable pub secret_options : Str → Location → Secret → Result Options
unfolding s3_options azure_options
secret_options path l secret =
    if is_s3 l.secret_type
    then ok (s3_options path secret)
    else if str_eq l.secret_type (codes "azure")
    then azure_options l.bucket secret
    else ok []

unfoldable pub options_for : Str → Location → Option Secret → Result Options
unfolding secret_options needs_secret
options_for path l none =
    if needs_secret path
    then throw not_implemented (
        codes
          "Can not scan a gcs:// gs:// or r2:// url without a secret providing its endpoint currently. Please "
        ++ codes
            "create an R2 or GCS secret containing the credentials for this endpoint and try again.")
    else ok []
options_for path l (some secret) = secret_options path l secret

-- The default builder.
unfoldable pub local_builder : Services → Str → Result (ℕ × Options)
unfolding try_unpack_result
local_builder services path = do
  builder ← try_unpack_result (services.get_engine_builder path)
  ok (builder, [])

unfoldable pub remote_builder : Services → Str → Result (ℕ × Options)
unfolding parse_location cleaned_path options_for try_unpack_result
remote_builder services path = do
  l ← parse_location path
  builder ← try_unpack_result (services.get_engine_builder (cleaned_path path))
  options ← options_for path l (services.lookup_secret path l.secret_type)
  ok (builder, options)

-- The builder and the options set on it.
unfoldable pub create_builder : Services → Str → Result (ℕ × Options)
unfolding is_remote local_builder remote_builder
create_builder services path =
    if is_remote path then remote_builder services path else local_builder services path
