-- ===== src/Builder/Endpoint.antt =====
-- The endpoint that the kernel's engine ends up with.
use mathlib.Core.Path.{subst}
use mathlib.Core.Option.{none-ne-some, some_inj}
use duckdb_delta.Prelude.{
  ◌≡◌, ◌∙◌, refl, sym, ◌++◌, inl, inr, Bool, Bool-cases, false, true, Option, none, some, [], ◌∷◌,
  Str, codes, str_eq, starts_with, is_empty, not, ◌&&◌, ◌||◌, if◌then◌else◌,
}
use duckdb_delta.Builder.Options.{Secret, Options, option, only_if, value_of}
use duckdb_delta.Builder.S3.{with_protocol, endpoint_options, credential_options, s3_options}
use duckdb_delta.Builder.Settings.{
  HasCredentials, s3_options_credentials, value_of-front, value_of-back, value_of-append_some,
  value_of-option, value_of-only_if_other,
}

with_protocol_lem :
    (use_ssl : Bool) (endpoint : Str)
    → (starts_with (with_protocol use_ssl endpoint) (codes "https://")
        || starts_with (with_protocol use_ssl endpoint) (codes "http://"))
      ≡ true
unfolding with_protocol
with_protocol_lem true endpoint =
    elim (Bool-cases
      (starts_with endpoint (codes "https://") || starts_with endpoint (codes "http://"))) [
        | inl c ↦ rw (c, with_protocol) c
        | inr c ↦ rw (c, with_protocol) refl
      ]
with_protocol_lem false endpoint =
    elim (Bool-cases
      (starts_with endpoint (codes "https://") || starts_with endpoint (codes "http://"))) [
        | inl c ↦ rw (c, with_protocol) c
        | inr c ↦ rw (c, with_protocol) refl
      ]

-- The endpoint has a protocol, and plain HTTP is allowed where it is `http`.
abbrev pub HasProtocol : Str → Options → Type 0
HasProtocol e o =
    ((starts_with e (codes "https://") || starts_with e (codes "http://")) ≡ true)
    × (value_of (codes "allow_http") o
        ≡ (if starts_with e (codes "http://") then some (codes "true") else none))

own_endpoint :
    (e : Str)
    → (starts_with e (codes "https://") || starts_with e (codes "http://")) ≡ true
    → HasProtocol e (
        only_if (starts_with e (codes "http://")) (option (codes "allow_http") (codes "true"))
        ++ option (codes "aws_endpoint") e)
unfolding value_of
own_endpoint e h = (
  h,
  value_of-back (codes "allow_http")
        (only_if (starts_with e (codes "http://")) (option (codes "allow_http") (codes "true")))
        (option (codes "aws_endpoint") e) refl
      ∙ elim (Bool-cases (starts_with e (codes "http://"))) [
        | inl c ↦ rw c refl
        | inr c ↦ rw c refl
      ],
)

default_endpoint :
    (b : Bool) (e : Str)
    → value_of
        (codes "aws_endpoint")
        (only_if b (option (codes "aws_endpoint") (codes "https://storage.googleapis.com")))
      ≡ some e
    → HasProtocol e
        (only_if b (option (codes "aws_endpoint") (codes "https://storage.googleapis.com")))
unfolding value_of
default_endpoint true e h =
    subst
      (λ x. HasProtocol x (option (codes "aws_endpoint") (codes "https://storage.googleapis.com")))
      (some_inj.0 h) (refl, refl)
default_endpoint false e h = absurd (none-ne-some e h)

endpoint_options_protocol :
    (path : Str) (use_ssl : Bool) (endpoint e : Str)
    → value_of (codes "aws_endpoint") (endpoint_options path use_ssl endpoint) ≡ some e
    → HasProtocol e (endpoint_options path use_ssl endpoint)
unfolding endpoint_options
endpoint_options_protocol path use_ssl endpoint e =
    elim (Bool-cases
      (not (is_empty endpoint) && not (str_eq endpoint (codes "s3.amazonaws.com")))) [
        | inl c ↦ rw c (λ h.
            let e1 = with_protocol use_ssl endpoint in
            let same =
              sym (
                value_of-append_some (codes "aws_endpoint") e1 _ _
                  (value_of-option (codes "aws_endpoint") e1))
              ∙ h in
            subst
              (λ x. HasProtocol x (
                only_if (starts_with e1 (codes "http://"))
                  (option (codes "allow_http") (codes "true"))
                ++ option (codes "aws_endpoint") e1))
              (some_inj.0 same) (own_endpoint e1 (with_protocol_lem use_ssl endpoint)))
        | inr c ↦ rw c (default_endpoint _ e)
      ]

-- The credentials set neither of the endpoint's keys.
credential_options_other :
    (k s t : Str)
    → (value_of (codes "allow_http") (credential_options k s t) ≡ none)
      × (value_of (codes "aws_endpoint") (credential_options k s t) ≡ none)
unfolding credential_options value_of
credential_options_other [] [] [] = (refl, refl)
credential_options_other [] [] (c ∷ t) = (refl, refl)
credential_options_other [] (b ∷ s) [] = (refl, refl)
credential_options_other [] (b ∷ s) (c ∷ t) = (refl, refl)
credential_options_other (a ∷ k) [] [] = (refl, refl)
credential_options_other (a ∷ k) [] (c ∷ t) = (refl, refl)
credential_options_other (a ∷ k) (b ∷ s) [] = (refl, refl)
credential_options_other (a ∷ k) (b ∷ s) (c ∷ t) = (refl, refl)

between :
    (key r : Str) (xs ys : Options)
    → value_of key xs ≡ none
    → str_eq (codes "aws_region") key ≡ false
    → value_of key (xs ++ (ys ++ option (codes "aws_region") r)) ≡ value_of key ys
between key r xs ys h e =
    value_of-front key xs _ h
    ∙ value_of-back key ys _ (value_of-only_if_other key (codes "aws_region") r true e)

-- The endpoint, if there is one.
s3_options_protocol :
    (path : Str) (secret : Secret) (e : Str)
    → value_of (codes "aws_endpoint") (s3_options path secret) ≡ some e
    → HasProtocol e (s3_options path secret)
unfolding s3_options
s3_options_protocol path secret e h =
    let region = secret.value (codes "region") in
    let none_of =
      credential_options_other (secret.value (codes "key_id")) (secret.value (codes "secret"))
        (secret.value (codes "session_token")) in
    let protocol =
      endpoint_options_protocol path _ (secret.value (codes "endpoint")) e
        (sym (between (codes "aws_endpoint") region _ _ (none_of.1) refl) ∙ h) in
    (protocol.0, between (codes "allow_http") region _ _ (none_of.0) refl ∙ protocol.1)

-- The endpoint, if one is given, has a protocol.
abbrev pub MayHaveProtocol : Option Str → Options → Type 0
MayHaveProtocol none o = Unit
MayHaveProtocol (some e) o = HasProtocol e o

MayHaveProtocol-some :
    (given : Option Str) (o : Options)
    → ((e : Str) → given ≡ some e → HasProtocol e o)
    → MayHaveProtocol given o
MayHaveProtocol-some none o h = tt
MayHaveProtocol-some (some e) o h = h e refl

-- The engine for S3, GCS or R2 gets each credential of the secret that is not empty, is told not to sign
-- exactly when neither the key's id nor the secret is there, and gets the secret's region. Where it is
-- given an endpoint at all, this begins with a protocol, and plain HTTP is allowed exactly where that
-- protocol is `http`.
pub s3_options_lem :
    (path : Str) (secret : Secret)
    → HasCredentials
        (secret.value (codes "key_id"))
        (secret.value (codes "secret"))
        (secret.value (codes "session_token"))
        (s3_options path secret)
      × (value_of (codes "aws_region") (s3_options path secret)
          ≡ some (secret.value (codes "region")))
      × MayHaveProtocol
          (value_of (codes "aws_endpoint") (s3_options path secret))
          (s3_options path secret)
s3_options_lem path secret =
    let (c, r) = s3_options_credentials path secret in
    (
      c,
      r,
      MayHaveProtocol-some (value_of (codes "aws_endpoint") (s3_options path secret))
          (s3_options path secret) (s3_options_protocol path secret),
    )
