-- ===== src/Builder/Settings.antt =====
-- The settings that the kernel's engine ends up with.
use duckdb_delta.Prelude.{
  ◌≡◌, ◌∙◌, refl, ◌++◌, inl, inr, Bool, Bool-cases, Option, false, true, none, some, [], ◌∷◌, Str,
  codes, str_eq, str_eq_refl, starts_with, is_empty, not, ◌&&◌, arith, if◌then◌else◌,
}
use duckdb_delta.Builder.Options.{Secret, Options, option, only_if, value_of}
use duckdb_delta.Builder.S3.{with_protocol, endpoint_options, credential_options, s3_options}

value_of-cons :
    (key k v : Str) (xs : Options)
    → value_of key ((k, v) ∷ xs) ≡ none
    → (value_of key xs ≡ none) × (str_eq k key ≡ false)
unfolding value_of
value_of-cons key k v xs h = ground arith

pub value_of-front :
    (key : Str) (xs ys : Options)
    → value_of key xs ≡ none
    → value_of key (xs ++ ys) ≡ value_of key ys
unfolding value_of
value_of-front key [] ys h = refl
value_of-front key ((k, v) ∷ xs) ys h =
    let facts = value_of-cons key k v xs h in
    rw (value_of-front key xs ys (facts.0), value_of) (ground (facts, arith))

pub value_of-back :
    (key : Str) (xs ys : Options)
    → value_of key ys ≡ none
    → value_of key (xs ++ ys) ≡ value_of key xs
unfolding value_of
value_of-back key [] ys h = h
value_of-back key ((k, v) ∷ xs) ys h = rw (value_of-back key xs ys h, value_of) refl

-- The last value wins, whatever stands before it.
pub value_of-append_some :
    (key v : Str) (xs ys : Options) → value_of key ys ≡ some v → value_of key (xs ++ ys) ≡ some v
unfolding value_of
value_of-append_some key v [] ys h = h
value_of-append_some key v ((k, w) ∷ xs) ys h =
    rw (value_of-append_some key v xs ys h, value_of) refl

pub value_of-option : (key v : Str) → value_of key (option key v) ≡ some v
unfolding value_of
value_of-option key v = rw (str_eq_refl key) refl

pub value_of-only_if_other :
    (key k v : Str) (b : Bool) → str_eq k key ≡ false → value_of key (only_if b (option k v)) ≡ none
unfolding value_of
value_of-only_if_other key k v true h = rw h refl
value_of-only_if_other key k v false h = refl

-- The value if there is one.
abbrev pub given : Str → Option Str
given s = if is_empty s then none else some s

-- The settings of the credentials, in a list of options.
abbrev pub HasCredentials : Str → Str → Str → Options → Type 0
HasCredentials key_id secret session_token o =
    (value_of (codes "skip_signature") o
      ≡ (if is_empty key_id && is_empty secret then some (codes "true") else none))
    × (value_of (codes "aws_access_key_id") o ≡ given key_id)
    × (value_of (codes "aws_secret_access_key") o ≡ given secret)
    × (value_of (codes "aws_session_token") o ≡ given session_token)

credential_options_lem : (k s t : Str) → HasCredentials k s t (credential_options k s t)
unfolding credential_options value_of
credential_options_lem [] [] [] = (refl, refl, refl, refl)
credential_options_lem [] [] (c ∷ t) = (refl, refl, refl, refl)
credential_options_lem [] (b ∷ s) [] = (refl, refl, refl, refl)
credential_options_lem [] (b ∷ s) (c ∷ t) = (refl, refl, refl, refl)
credential_options_lem (a ∷ k) [] [] = (refl, refl, refl, refl)
credential_options_lem (a ∷ k) [] (c ∷ t) = (refl, refl, refl, refl)
credential_options_lem (a ∷ k) (b ∷ s) [] = (refl, refl, refl, refl)
credential_options_lem (a ∷ k) (b ∷ s) (c ∷ t) = (refl, refl, refl, refl)

-- The endpoint's options set no key but two.
endpoint_options_other :
    (key path endpoint : Str) (use_ssl : Bool)
    → str_eq (codes "allow_http") key ≡ false
    → str_eq (codes "aws_endpoint") key ≡ false
    → value_of key (endpoint_options path use_ssl endpoint) ≡ none
unfolding endpoint_options
endpoint_options_other key path endpoint use_ssl h e =
    let e1 = with_protocol use_ssl endpoint in
    elim (Bool-cases
      (not (is_empty endpoint) && not (str_eq endpoint (codes "s3.amazonaws.com")))) [
        | inl c ↦ rw c (
            value_of-front key
              (only_if (starts_with e1 (codes "http://"))
                (option (codes "allow_http") (codes "true")))
              (option (codes "aws_endpoint") e1)
              (value_of-only_if_other key (codes "allow_http") (codes "true") _ h)
            ∙ value_of-only_if_other key (codes "aws_endpoint") e1 true e)
        | inr c ↦ rw c (value_of-only_if_other key (codes "aws_endpoint") _ _ e)
      ]

-- A key that only the credentials set.
pub s3_options_credential :
    (key path : Str) (secret : Secret)
    → str_eq (codes "allow_http") key ≡ false
    → str_eq (codes "aws_endpoint") key ≡ false
    → str_eq (codes "aws_region") key ≡ false
    → value_of key (s3_options path secret)
      ≡ value_of key (
          credential_options
            (secret.value (codes "key_id"))
            (secret.value (codes "secret"))
            (secret.value (codes "session_token")))
unfolding s3_options
s3_options_credential key path secret h e r = value_of-back key _ _ (
    value_of-front key _ (option (codes "aws_region") (secret.value (codes "region")))
      (endpoint_options_other key path (secret.value (codes "endpoint")) _ h e)
    ∙ value_of-only_if_other key (codes "aws_region") (secret.value (codes "region")) true r)

-- The credentials and the region.
pub s3_options_credentials :
    (path : Str) (secret : Secret)
    → HasCredentials
        (secret.value (codes "key_id"))
        (secret.value (codes "secret"))
        (secret.value (codes "session_token"))
        (s3_options path secret)
      × (value_of (codes "aws_region") (s3_options path secret)
          ≡ some (secret.value (codes "region")))
unfolding s3_options
s3_options_credentials path secret =
    let c =
      credential_options_lem (secret.value (codes "key_id")) (secret.value (codes "secret"))
        (secret.value (codes "session_token")) in
    (
      (
        s3_options_credential (codes "skip_signature") path secret refl refl refl ∙ c.0,
        s3_options_credential (codes "aws_access_key_id") path secret refl refl refl ∙ c.1,
        s3_options_credential (codes "aws_secret_access_key") path secret refl refl refl ∙ c.2,
        s3_options_credential (codes "aws_session_token") path secret refl refl refl ∙ c.3,
      ),
      value_of-append_some (codes "aws_region") _ _ _ (
          value_of-append_some (codes "aws_region") _ _ _ (value_of-option (codes "aws_region") _)),
    )
