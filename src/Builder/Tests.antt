-- ===== src/Builder/Tests.antt =====
-- URLs and secrets, and the theorems at them.
use duckdb_delta.Prelude.{
  ◌⊎◌, ◌≡◌, refl, none, some, false, [], ◌∷◌, codes, ok, str_eq, throw, invalid_input,
  if◌then◌else◌, arith,
}
use duckdb_delta.Errors.{ok_result, try_unpack_result}
use duckdb_delta.Builder.Options.{Options, Secret, value_of}
use duckdb_delta.Builder.Connection.{parse_from_connection_string, parse_account_name_from_endpoint}
use duckdb_delta.Builder.Url.{parse_location}
use duckdb_delta.Builder.S3.{s3_options}
use duckdb_delta.Builder.Azure.{azure_options}
use duckdb_delta.Builder.Create.{Services, options_for, create_builder}
use duckdb_delta.Builder.Locations.{gs, abfss, create_builder-Scheme, abfs_loses_character}
use duckdb_delta.Builder.Values.{parse_from_connection_string_reads}
use duckdb_delta.Builder.Settings.{HasCredentials}
use duckdb_delta.Builder.Endpoint.{MayHaveProtocol, s3_options_lem}
use duckdb_delta.Builder.Container.{Refused, azure_options-container, create_builder-container}

abbrev local_secret : Secret
local_secret = record {
  provider = codes "config";
  value = λ key.
      if str_eq key (codes "endpoint")
      then codes "localhost:9000"
      else if str_eq key (codes "key_id")
      then codes "minio"
      else [];
  use_ssl = some false;
}

abbrev services : Services
services = record {
  get_engine_builder = λ path. ok_result 1;
  lookup_secret = λ path secret_type. some local_secret;
}

account :
    parse_account_name_from_endpoint (codes "https://account.blob.core.windows.net")
    ≡ codes "account"
unfolding parse_account_name_from_endpoint
account = refl

create_builder-Scheme_example :
    create_builder services (codes "gs://b/t")
    ≡ ok (
      1,
      (codes "aws_access_key_id", codes "minio")
          ∷ (codes "allow_http", codes "true")
          ∷ (codes "aws_endpoint", codes "http://localhost:9000")
          ∷ (codes "aws_region", [])
          ∷ [],
    )
unfolding try_unpack_result options_for
create_builder-Scheme_example =
    create_builder-Scheme services gs (codes "b") (codes "t") (refl, tt) (omega arith)

abfs_loses_character_runs :
    parse_location (codes "abfs://data/t")
    ≡ ok (record { bucket = codes "ata"; path_in_bucket = codes "/t"; secret_type = codes "azure" })
abfs_loses_character_runs =
    abfs_loses_character b'd' (codes "ata") (codes "t") (refl, (refl, (refl, (refl, tt))))
      (omega arith)

parse_from_connection_string_reads_example :
    parse_from_connection_string (codes "AccountName=me;AccountKey=a+b==;X=1") (codes "AccountKey")
    ≡ codes "a+b=="
parse_from_connection_string_reads_example =
    parse_from_connection_string_reads (codes "AccountKey") (codes "AccountName=me;") (codes "+b==")
      (codes ";X=1") b'a' (refl, (refl, (refl, (refl, (refl, tt))))) refl
      (
        refl,
        (
          refl,
          (
            refl,
            (
              refl,
              (
                refl,
                (refl, (refl, (refl, (refl, (refl, (refl, (refl, (refl, (refl, (refl, tt)))))))))),
              ),
            ),
          ),
        ),
      )

gives_endpoint :
    value_of (codes "aws_endpoint") (s3_options (codes "s3://b/t") local_secret)
    ≡ some (codes "http://localhost:9000")
unfolding s3_options value_of
gives_endpoint = refl

s3_options_lem_example :
    HasCredentials
      (local_secret.value (codes "key_id"))
      (local_secret.value (codes "secret"))
      (local_secret.value (codes "session_token"))
      (s3_options (codes "s3://b/t") local_secret)
    × (value_of (codes "aws_region") (s3_options (codes "s3://b/t") local_secret)
        ≡ some (local_secret.value (codes "region")))
    × MayHaveProtocol
        (value_of (codes "aws_endpoint") (s3_options (codes "s3://b/t") local_secret))
        (s3_options (codes "s3://b/t") local_secret)
s3_options_lem_example = s3_options_lem (codes "s3://b/t") local_secret

abbrev no_token : Secret
no_token = record { provider = codes "access_token"; value = λ key. []; use_ssl = none }

abbrev with_token : Secret
with_token = record { provider = codes "access_token"; value = λ key. key; use_ssl = none }

abbrev azure_services : Services
azure_services = record services { lookup_secret = λ path type. some with_token }

create_builder-container_example :
    let made = create_builder azure_services (codes "abfss://b/t") in
    (Refused with_token
      × (made ≡ throw invalid_input (codes "No access_token value not found in secret provider!")))
    ⊎ ((¬ Refused with_token)
        × ((o : Options) × (made ≡ ok (1, o))
            × (value_of (codes "container_name") o ≡ some (codes "b"))))
unfolding try_unpack_result
create_builder-container_example =
    create_builder-container azure_services abfss (codes "b") (codes "t") with_token 1 refl
      (refl, tt) (omega arith) refl refl

azure_options-container_runs :
    (Refused no_token
      × (azure_options (codes "b") no_token
          ≡ throw invalid_input (codes "No access_token value not found in secret provider!")))
    ⊎ ((¬ Refused no_token)
        × ((o : Options) × (azure_options (codes "b") no_token ≡ ok o)
            × (value_of (codes "container_name") o ≡ some (codes "b"))))
azure_options-container_runs = azure_options-container (codes "b") no_token
