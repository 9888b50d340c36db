-- ===== src/Builder/Container.antt =====
-- Azure: when a secret is refused, and the account and the container that the engine ends up with.
use duckdb_delta.Prelude.{
  ◌⊎◌, arith, ℕ, ◌<◌, ◌^◌, ◌∷◌, Avoids, length, ◌≡◌, refl, ◌++◌, inl, inr, Bool-cases, true, some,
  Str, codes, str_eq, is_empty, ◌||◌, contains, Result, ok, throw, invalid_input,
}
use duckdb_delta.Builder.Options.{Secret, Options, option, only_if, unless_empty, value_of}
use duckdb_delta.Builder.Azure.{Authentication, authenticate, account_options, azure_options}
use duckdb_delta.Errors.{try_unpack_result}
use duckdb_delta.Builder.Url.{Location}
use duckdb_delta.Builder.Create.{Services, secret_options, options_for, create_builder}
use duckdb_delta.Builder.Locations.{
  Scheme, prefix_of, type_of, kernel_prefix, create_builder-Scheme,
}
use duckdb_delta.Builder.Settings.{value_of-append_some, value_of-option}

-- An access token is asked for, and there is none.
abbrev pub Refused : Secret → Type 0
Refused secret =
    (str_eq secret.provider (codes "access_token") ≡ true)
    × (is_empty (secret.value (codes "access_token")) ≡ true)

authenticate-Refused :
    (secret : Secret)
    → Refused secret
    → authenticate secret
      ≡ throw invalid_input (codes "No access_token value not found in secret provider!")
unfolding authenticate
authenticate-Refused secret h = rw (h.0, authenticate) (rw (h.1, authenticate) refl)

abbrev IsOk : Result Authentication → Type 0
IsOk r = (a : Authentication) × (r ≡ ok a)

authenticate-IsOk : (secret : Secret) → ¬ Refused secret → IsOk (authenticate secret)
unfolding authenticate
authenticate-IsOk secret n = elim (Bool-cases (str_eq secret.provider (codes "access_token"))) [
  | inl h ↦ elim (Bool-cases (is_empty (secret.value (codes "access_token")))) [
    | inl g ↦ absurd (n (h, g))
    | inr g ↦ rw (h, authenticate) (rw (g, authenticate) (_, refl))
  ]
  | inr h ↦ rw (h, authenticate) (_, refl)
]

account_options-container :
    (front : Options) (bucket connection_string : Str) (a : Authentication)
    → value_of (codes "container_name") (front ++ account_options bucket connection_string a)
      ≡ some bucket
unfolding account_options
account_options-container front bucket c a =
    let key = codes "container_name" in
    value_of-append_some key bucket front _ (
      value_of-append_some key bucket
        (only_if
          (str_eq a.account_name (codes "devstoreaccount1")
            || contains c (codes "devstoreaccount1"))
          (option (codes "use_emulator") (codes "true")))
        _
        (value_of-append_some key bucket (unless_empty (codes "account_name") a.account_name) _ (
          value_of-append_some key bucket (unless_empty (codes "azure_endpoint") a.endpoint) _
            (value_of-option key bucket))))

azure_options-Refused :
    (bucket : Str) (secret : Secret)
    → Refused secret
    → azure_options bucket secret
      ≡ throw invalid_input (codes "No access_token value not found in secret provider!")
unfolding azure_options
azure_options-Refused bucket secret h = rw (authenticate-Refused secret h) refl

azure_options-accepted :
    (bucket : Str) (secret : Secret)
    → ¬ Refused secret
    → (o : Options) × (azure_options bucket secret ≡ ok o)
      × (value_of (codes "container_name") o ≡ some bucket)
unfolding azure_options
azure_options-accepted bucket secret n =
    let (a, e) = authenticate-IsOk secret n in
    let c = secret.value (codes "connection_string") in
    let fabric =
      only_if (str_eq (secret.value (codes "account_name")) (codes "onelake"))
        (option (codes "use_fabric_endpoint") (codes "true")) in
    rw e (
      _,
      refl,
      value_of-append_some (codes "container_name") bucket fabric _
          (account_options-container a.options bucket c a),
    )

Refused-cases : (secret : Secret) → Refused secret ⊎ (¬ Refused secret)
Refused-cases secret = elim (Bool-cases (str_eq secret.provider (codes "access_token"))) [
  | inl h ↦ elim (Bool-cases (is_empty (secret.value (codes "access_token")))) [
    | inl g ↦ inl (h, g)
    | inr g ↦ inr (λ r. ground (arith, r.1, g))
  ]
  | inr h ↦ inr (λ r. ground (arith, r.0, h))
]

-- An Azure secret of the provider `access_token` that has no token is refused; any other gives options
-- with the container that they are made for.
pub azure_options-container :
    (bucket : Str) (secret : Secret)
    → (Refused secret
        × (azure_options bucket secret
            ≡ throw invalid_input (codes "No access_token value not found in secret provider!")))
      ⊎ ((¬ Refused secret)
          × ((o : Options) × (azure_options bucket secret ≡ ok o)
              × (value_of (codes "container_name") o ≡ some bucket)))
azure_options-container bucket secret = elim (Refused-cases secret) [
  | inl h ↦ inl (h, azure_options-Refused bucket secret h)
  | inr n ↦ inr (n, azure_options-accepted bucket secret n)
]

secret_options-azure :
    (path : Str) (l : Location) (secret : Secret)
    → l.secret_type ≡ codes "azure"
    → options_for path l (some secret) ≡ azure_options l.bucket secret
unfolding options_for secret_options
secret_options-azure path l secret h = rw h refl

-- A URL of the schemes azure, abfss or az, whose bucket has no slash and is shorter than 2^64, finds a secret,
-- and the kernel makes a builder for it. A secret of the provider `access_token` that has no token is
-- refused; with any other, the builder's options have the bucket of the URL for the container.
pub create_builder-container :
    (services : Services) (scheme : Scheme) (bucket rest : Str) (secret : Secret) (builder : ℕ)
    → type_of scheme ≡ codes "azure"
    → Avoids b'/' bucket
    → length bucket < 2 ^ 64
    → services.lookup_secret (prefix_of scheme ++ (bucket ++ b'/' ∷ rest)) (type_of scheme)
      ≡ some secret
    → try_unpack_result
        (services.get_engine_builder (kernel_prefix scheme ++ (bucket ++ b'/' ∷ rest)))
      ≡ ok builder
    → let made = create_builder services (prefix_of scheme ++ (bucket ++ b'/' ∷ rest)) in
      (Refused secret
        × (made
            ≡ throw invalid_input (codes "No access_token value not found in secret provider!")))
      ⊎ ((¬ Refused secret)
          × ((o : Options) × (made ≡ ok (builder, o))
              × (value_of (codes "container_name") o ≡ some bucket)))
create_builder-container services scheme bucket rest secret builder azure a l found made =
    let path = prefix_of scheme ++ (bucket ++ b'/' ∷ rest) in
    let location : Location = record {
      bucket = bucket;
      path_in_bucket = b'/' ∷ rest;
      secret_type = type_of scheme;
    } in
    rw
      (
        create_builder-Scheme services scheme bucket rest a l,
        made,
        found,
        secret_options-azure path location secret azure,
      )
      (elim (azure_options-container bucket secret) [
        | inl (h, e) ↦ inl (h, rw e refl)
        | inr (n, (o, e, c)) ↦ inr (n, (o, rw e refl, c))
      ])
