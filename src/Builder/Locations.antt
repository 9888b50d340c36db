-- ===== src/Builder/Locations.antt =====
-- Where the URLs of each scheme lead: the bucket and the path for the kernel.
use mathlib.Core.List.{append_assoc}
use duckdb_delta.Prelude.{
  ℕ, ◌+◌, ◌-◌, ◌%◌, ◌^◌, ◌<◌, ◌≡◌, ◌∙◌, refl, sym, ap, ◌++◌, true, some, [], ◌∷◌, Str, codes,
  Avoids, find, drop, length, length-append, take-append, drop-append, index_of-append, ok, ◌>>=◌,
  arith,
}
use duckdb_delta.Errors.{try_unpack_result}
use duckdb_delta.Builder.Url.{
  Location, substr_between, cut, invalid_s3, invalid_gcs, invalid_azure, parse_location,
  cleaned_path, is_remote,
}
use duckdb_delta.Builder.Options.{Options}
use duckdb_delta.Builder.Create.{Services, options_for, remote_builder, create_builder}

-- The schemes of the chain of tests, but for abfs.
pub data Scheme : Type 0 where
  s3 gcs gs r2 azure abfss az : Scheme

-- How an URL of the scheme begins.
abbrev pub prefix_of : Scheme → Str
prefix_of s3 = codes "s3://"
prefix_of gcs = codes "gcs://"
prefix_of gs = codes "gs://"
prefix_of r2 = codes "r2://"
prefix_of azure = codes "azure://"
prefix_of abfss = codes "abfss://"
prefix_of az = codes "az://"

-- The type of its secrets.
abbrev pub type_of : Scheme → Str
type_of s3 = codes "s3"
type_of gcs = codes "gcs"
type_of gs = codes "gcs"
type_of r2 = codes "r2"
type_of azure = codes "azure"
type_of abfss = codes "azure"
type_of az = codes "azure"

-- How the kernel's URL begins.
abbrev pub kernel_prefix : Scheme → Str
kernel_prefix s3 = codes "s3://"
kernel_prefix gcs = codes "s3://"
kernel_prefix gs = codes "s3://"
kernel_prefix r2 = codes "s3://"
kernel_prefix azure = codes "azure://"
kernel_prefix abfss = codes "abfss://"
kernel_prefix az = codes "az://"

find-append :
    (p s t : Str) (c : ℕ)
    → Avoids c s
    → find (p ++ (s ++ c ∷ t)) c (length p) ≡ some (length p + length s)
find-append p s t c h = rw (drop-append p (s ++ c ∷ t)) (rw (index_of-append c s t h))

drop-plus : (p s t : Str) → drop (length p + length s) (p ++ (s ++ t)) ≡ t
drop-plus p s t =
    ap (drop (length p + length s)) (sym (append_assoc p s t))
    ∙ ap (λ n. drop n ((p ++ s) ++ t)) (sym (length-append p s))
    ∙ drop-append (p ++ s) t

substr_between-append :
    (p s t : Str)
    → length s < 2 ^ 64
    → substr_between (p ++ (s ++ t)) (length p) (length p + length s) ≡ s
unfolding substr_between
substr_between-append p s t h =
    let n : (length p + length s + 2 ^ 64 - length p) % 2 ^ 64 ≡ length s = omega arith in
    rw n (rw (drop-append p (s ++ t)) (take-append s t))

cut_lem :
    (message secret_type p bucket rest : Str)
    → Avoids b'/' bucket
    → length bucket < 2 ^ 64
    → cut (length p) (length p) message secret_type (p ++ (bucket ++ b'/' ∷ rest))
      ≡ ok (record { bucket = bucket; path_in_bucket = b'/' ∷ rest; secret_type = secret_type })
unfolding cut
cut_lem m t p bucket rest ha hl =
    rw (find-append p bucket rest b'/' ha, cut)
      (rw (substr_between-append p bucket (b'/' ∷ rest) hl) (rw (drop-plus p bucket (b'/' ∷ rest))))

-- The decision and the location, for every scheme.
Scheme-parse :
    (scheme : Scheme) (bucket rest : Str)
    → Avoids b'/' bucket
    → length bucket < 2 ^ 64
    → let path = prefix_of scheme ++ (bucket ++ b'/' ∷ rest) in
      (is_remote path ≡ true)
      × (cleaned_path path ≡ kernel_prefix scheme ++ (bucket ++ b'/' ∷ rest))
      × (parse_location path
          ≡ ok (record {
            bucket = bucket;
            path_in_bucket = b'/' ∷ rest;
            secret_type = type_of scheme;
          }))
unfolding is_remote cleaned_path parse_location
Scheme-parse s3 bucket rest h l =
    (refl, refl, cut_lem invalid_s3 (type_of s3) (prefix_of s3) bucket rest h l)
Scheme-parse gcs bucket rest h l =
    (refl, refl, cut_lem invalid_gcs (type_of gcs) (prefix_of gcs) bucket rest h l)
Scheme-parse gs bucket rest h l =
    (refl, refl, cut_lem invalid_gcs (type_of gs) (prefix_of gs) bucket rest h l)
Scheme-parse r2 bucket rest h l =
    (refl, refl, cut_lem invalid_gcs (type_of r2) (prefix_of r2) bucket rest h l)
Scheme-parse azure bucket rest h l =
    (refl, refl, cut_lem invalid_azure (type_of azure) (prefix_of azure) bucket rest h l)
Scheme-parse abfss bucket rest h l =
    (refl, refl, cut_lem invalid_azure (type_of abfss) (prefix_of abfss) bucket rest h l)
Scheme-parse az bucket rest h l =
    (refl, refl, cut_lem invalid_azure (type_of az) (prefix_of az) bucket rest h l)

-- For an URL of a scheme but abfs, whose bucket has no slash and is shorter than 2^64: the kernel's
-- builder is made for the same bucket and path, under `s3://` for R2 and Google's schemes; the secret
-- is looked up by the user's own URL and the scheme's type; its options are set on that builder.
pub create_builder-Scheme :
    (services : Services) (scheme : Scheme) (bucket rest : Str)
    → Avoids b'/' bucket
    → length bucket < 2 ^ 64
    → let path = prefix_of scheme ++ (bucket ++ b'/' ∷ rest) in
      let l : Location = record {
        bucket = bucket;
        path_in_bucket = b'/' ∷ rest;
        secret_type = type_of scheme;
      } in
      create_builder services path ≡ (
        try_unpack_result
          (services.get_engine_builder (kernel_prefix scheme ++ (bucket ++ b'/' ∷ rest)))
        >>= λ builder.
            (options_for path l (services.lookup_secret path (type_of scheme))
              >>= λ (options : Options). ok (builder, options)))
unfolding create_builder remote_builder
create_builder-Scheme services scheme bucket rest h l =
    let facts = Scheme-parse scheme bucket rest h l in
    rw (facts.0) (rw (facts.2) (rw (facts.1) refl))

cut_one_late :
    (message secret_type p : Str) (c : ℕ) (container rest : Str)
    → Avoids b'/' (c ∷ container)
    → length container < 2 ^ 64
    → cut
        (length p)
        (length (p ++ c ∷ []))
        message
        secret_type
        (p ++ (c ∷ container ++ b'/' ∷ rest))
      ≡ ok (record { bucket = container; path_in_bucket = b'/' ∷ rest; secret_type = secret_type })
unfolding cut
cut_one_late m t p c container rest h l =
    let p1 = p ++ c ∷ [] in
    let tail = container ++ b'/' ∷ rest in
    let one : length p + length (c ∷ container) ≡ length p1 + length container =
      omega (arith, length-append p (c ∷ [])) in
    let shifted : p1 ++ tail ≡ p ++ (c ∷ tail) = append_assoc p (c ∷ []) tail in
    let bucket =
      ap (λ s. substr_between s (length p1) (length p1 + length container)) (sym shifted)
      ∙ substr_between-append p1 container (b'/' ∷ rest) l in
    let rest_of =
      ap (drop (length p1 + length container)) (sym shifted)
      ∙ drop-plus p1 container (b'/' ∷ rest) in
    rw (find-append p (c ∷ container) rest b'/' h, cut) (rw one (rw bucket (rw rest_of)))

-- An abfs URL loses the first character of its container (the bucket is cut one place too far), where
-- the container has no slash and is shorter than 2^64.
pub abfs_loses_character :
    (c : ℕ) (container rest : Str)
    → Avoids b'/' (c ∷ container)
    → length container < 2 ^ 64
    → parse_location (codes "abfs://" ++ c ∷ (container ++ b'/' ∷ rest))
      ≡ ok
          (record { bucket = container; path_in_bucket = b'/' ∷ rest; secret_type = codes "azure" })
unfolding parse_location
abfs_loses_character c container rest h l =
    cut_one_late invalid_azure (codes "azure") (codes "abfs://") c container rest h l
