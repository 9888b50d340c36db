-- ===== src/Builder/Azure.antt =====
-- The options for Azure.
use duckdb_delta.Prelude.{
  ◌++◌, ◌||◌, ◌&&◌, not, Str, codes, str_eq, contains, is_empty, Result, ok, throw, invalid_input,
  ◌>>=◌, if◌then◌else◌,
}
use duckdb_delta.Builder.Connection.{parse_from_connection_string, parse_account_name_from_endpoint}
use duckdb_delta.Builder.Options.{Secret, Options, option, only_if, unless_empty}

-- The options of a way to authenticate, and what it makes of `account_name` and `endpoint`.
pub record Authentication : Type 0 where
  pub options : Options
  pub account_name : Str
  pub endpoint : Str

abbrev or_from_endpoint : Str → Str → Str
or_from_endpoint account_name endpoint =
    if is_empty account_name then parse_account_name_from_endpoint endpoint else account_name

-- A connection string, with an account key or a SAS token.
unfoldable pub from_connection_string : Str → Str → Authentication
unfolding parse_from_connection_string parse_account_name_from_endpoint
from_connection_string connection_string endpoint =
    let account_key = parse_from_connection_string connection_string (codes "AccountKey") in
    let account_name = parse_from_connection_string connection_string (codes "AccountName") in
    let blob_endpoint = parse_from_connection_string connection_string (codes "BlobEndpoint") in
    let sas_token =
      parse_from_connection_string connection_string (codes "SharedAccessSignature") in
    if not (is_empty account_name) && not (is_empty account_key)
    then record {
      options = option (codes "account_key") account_key;
      account_name = account_name;
      endpoint = endpoint;
    }
    else record {
      options = unless_empty (codes "sas_token") sas_token;
      account_name = or_from_endpoint account_name blob_endpoint;
      endpoint = blob_endpoint;
    }

-- The account and the endpoint of the secret.
abbrev keep : Secret → Options → Authentication
keep secret options = record {
  options = options;
  account_name = secret.value (codes "account_name");
  endpoint = secret.value (codes "endpoint");
}

-- The branches that no missing value stops.
unfoldable pub other_authentication : Secret → Authentication
unfolding from_connection_string
other_authentication secret =
    let connection_string = secret.value (codes "connection_string") in
    if str_eq secret.provider (codes "credential_chain")
    then keep secret (
        only_if (contains (secret.value (codes "chain")) (codes "cli"))
          (option (codes "use_azure_cli") (codes "true")))
    else if not (is_empty connection_string) && not (str_eq connection_string (codes "NULL"))
    then from_connection_string connection_string (secret.value (codes "endpoint"))
    else if str_eq secret.provider (codes "service_principal")
    then keep secret (
        unless_empty (codes "azure_client_id") (secret.value (codes "client_id"))
        ++ (unless_empty (codes "azure_client_secret") (secret.value (codes "client_secret"))
            ++ unless_empty (codes "azure_tenant_id") (secret.value (codes "tenant_id"))))
    else keep secret (option (codes "azure_skip_signature") (codes "true"))

-- The branches on the secret's provider.
unfoldable pub authenticate : Secret → Result Authentication
unfolding other_authentication
authenticate secret =
    let access_token = secret.value (codes "access_token") in
    if str_eq secret.provider (codes "access_token")
    then (if is_empty access_token
        then throw invalid_input (codes "No access_token value not found in secret provider!")
        else ok (keep secret (option (codes "bearer_token") access_token)))
    else ok (other_authentication secret)

-- What is set whatever the authentication.
unfoldable pub account_options : Str → Str → Authentication → Options
account_options bucket connection_string a =
    only_if
      (str_eq a.account_name (codes "devstoreaccount1")
        || contains connection_string (codes "devstoreaccount1"))
      (option (codes "use_emulator") (codes "true"))
    ++ (unless_empty (codes "account_name") a.account_name
        ++ (unless_empty (codes "azure_endpoint") a.endpoint
            ++ option (codes "container_name") bucket))

unfoldable pub azure_options : Str → Secret → Result Options
unfolding authenticate account_options
azure_options bucket secret = do
  a ← authenticate secret
  ok (
      only_if (str_eq (secret.value (codes "account_name")) (codes "onelake"))
        (option (codes "use_fabric_endpoint") (codes "true"))
      ++ (a.options ++ account_options bucket (secret.value (codes "connection_string")) a))
