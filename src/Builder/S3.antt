-- ===== src/Builder/S3.antt =====
-- The options for S3, GCS and R2.
use duckdb_delta.Prelude.{
  ◌++◌, ◌||◌, ◌&&◌, Bool, true, not, Option, none, some, Str, codes, str_eq, starts_with, is_empty,
  if◌then◌else◌,
}
use duckdb_delta.Builder.Options.{Secret, Options, option, only_if, unless_empty}

abbrev or_true : Option Bool → Bool
or_true none = true
or_true (some b) = b

-- The endpoint with its protocol.
unfoldable pub with_protocol : Bool → Str → Str
with_protocol use_ssl endpoint =
    if starts_with endpoint (codes "https://") || starts_with endpoint (codes "http://")
    then endpoint
    else (if use_ssl then codes "https://" ++ endpoint else codes "http://" ++ endpoint)

unfoldable pub endpoint_options : Str → Bool → Str → Options
unfolding with_protocol
endpoint_options path use_ssl endpoint =
    if not (is_empty endpoint) && not (str_eq endpoint (codes "s3.amazonaws.com"))
    then only_if (starts_with (with_protocol use_ssl endpoint) (codes "http://"))
        (option (codes "allow_http") (codes "true"))
      ++ option (codes "aws_endpoint") (with_protocol use_ssl endpoint)
    else only_if (starts_with path (codes "gs://") || starts_with path (codes "gcs://"))
        (option (codes "aws_endpoint") (codes "https://storage.googleapis.com"))

unfoldable pub credential_options : Str → Str → Str → Options
credential_options key_id secret session_token =
    only_if (is_empty key_id && is_empty secret) (option (codes "skip_signature") (codes "true"))
    ++ (unless_empty (codes "aws_access_key_id") key_id
        ++ (unless_empty (codes "aws_secret_access_key") secret
            ++ unless_empty (codes "aws_session_token") session_token))

unfoldable pub s3_options : Str → Secret → Options
unfolding credential_options endpoint_options
s3_options path secret =
    credential_options (secret.value (codes "key_id")) (secret.value (codes "secret"))
      (secret.value (codes "session_token"))
    ++ (endpoint_options path (or_true secret.use_ssl) (secret.value (codes "endpoint"))
        ++ option (codes "aws_region") (secret.value (codes "region")))
