-- ===== src/Prelude/Results.antt =====
-- DuckDB's exceptions and `ErrorData` as values, and the two monads of the model.
use mathlib.Core.Path.{◌≡◌, refl, sym, ap}
use mathlib.Core.Bool.{Bool, true, false, true≢false}
use mathlib.Core.Logic.{◌⊎◌, inl, inr}
use duckdb_delta.Prelude.Text.{Str}

-- The exception types that the extension throws.
pub data ExceptionType : Type 0 where
  io internal invalid_input not_implemented binder other : ExceptionType

pub record ErrorData : Type 0 where
  pub exception_type : ExceptionType
  pub message : Str

pub data Result {ℓ} (A : Type ℓ) : Type ℓ where
  ok : A → Result A
  err : ErrorData → Result A

abbrev pub throw {ℓ} : {A : Type ℓ} → ExceptionType → Str → Result A
throw t m = err (record { exception_type = t; message = m })

infixl 5 ◌>>=◌ ◌>>◌
abbrev pub ◌>>=◌ {ℓ κ} : {A : Type ℓ} {B : Type κ} → Result A → (A → Result B) → Result B
ok a >>= f = f a
err e >>= f = err e

abbrev pub ◌>>◌ {ℓ κ} : {A : Type ℓ} {B : Type κ} → Result A → Result B → Result B
m >> k = m >>= λ _. k

abbrev is_ok {ℓ} : {A : Type ℓ} → Result A → Bool
is_ok (ok a) = true
is_ok (err e) = false

abbrev value_or {ℓ} : {A : Type ℓ} → A → Result A → A
value_or a (ok b) = b
value_or a (err e) = a

pub ok_inj {ℓ} : {A : Type ℓ} (a b : A) → ok a ≡ ok b → a ≡ b
ok_inj a b h = ap (value_or a) h

pub ok-ne-err {ℓ κ} : {A : Type ℓ} {B : Type κ} (e : ErrorData) (a : A) → err e ≡ ok a → B
ok-ne-err e a h = absurd (true≢false (sym (ap is_ok h)))

-- A result that a bind gives comes from one of its first part.
pub bind_ok {ℓ κ} :
    {A : Type ℓ} {B : Type κ} (r : Result A) (f : A → Result B) (b : B)
    → (r >>= f) ≡ ok b
    → (a : A) × ((r ≡ ok a) × (f a ≡ ok b))
bind_ok (ok a) f b h = (a, (refl, h))
bind_ok (err e) f b h = ok-ne-err e b h

pub Result-cases {ℓ} :
    {A : Type ℓ} (r : Result A) → ((a : A) × (r ≡ ok a)) ⊎ ((e : ErrorData) × (r ≡ err e))
Result-cases (ok a) = inl (a, refl)
Result-cases (err e) = inr (e, refl)
