-- ===== src/Errors.antt =====
-- Errors of the Delta kernel (delta_utils.hpp, delta_utils.cpp): `DuckDBEngineError` and
-- `KernelUtils::TryUnpackResult`.
mod Tests
use duckdb_delta.Prelude.{
  ℕ, ◌++◌, Option, none, some, List, [], ◌∷◌, Str, codes, ErrorData, io, Result, ok, err, get_elem?,
  to_decimal,
}

-- `etype` is the number of the kernel's error.
pub record EngineError : Type 0 where
  pub etype : ℕ
  pub error_message : Str

-- `AllocateError`, the allocator that the kernel is given.
unfoldable pub allocate_error : ℕ → Str → EngineError
allocate_error etype msg = record { etype = etype; error_message = msg }

abbrev pub kernel_error_enum_strings : List Str
kernel_error_enum_strings =
    codes "UnknownError"
    ∷ codes "FFIError"
    ∷ codes "ArrowError"
    ∷ codes "EngineDataTypeError"
    ∷ codes "ExtractError"
    ∷ codes "GenericError"
    ∷ codes "IOErrorError"
    ∷ codes "ParquetError"
    ∷ codes "ObjectStoreError"
    ∷ codes "ObjectStorePathError"
    ∷ codes "ReqwestError"
    ∷ codes "FileNotFoundError"
    ∷ codes "MissingColumnError"
    ∷ codes "UnexpectedColumnTypeError"
    ∷ codes "MissingDataError"
    ∷ codes "MissingVersionError"
    ∷ codes "DeletionVectorError"
    ∷ codes "InvalidUrlError"
    ∷ codes "MalformedJsonError"
    ∷ codes "MissingMetadataError"
    ∷ codes "MissingProtocolError"
    ∷ codes "InvalidProtocolError"
    ∷ codes "MissingMetadataAndProtocolError"
    ∷ codes "ParseError"
    ∷ codes "JoinFailureError"
    ∷ codes "Utf8Error"
    ∷ codes "ParseIntError"
    ∷ codes "InvalidColumnMappingModeError"
    ∷ codes "InvalidTableLocationError"
    ∷ codes "InvalidDecimalError"
    ∷ codes "InvalidStructDataError"
    ∷ codes "InternalError"
    ∷ codes "InvalidExpression"
    ∷ codes "InvalidLogPath"
    ∷ codes "InvalidCommitInfo"
    ∷ codes "FileAlreadyExists"
    ∷ codes "MissingCommitInfo"
    ∷ codes "UnsupportedError"
    ∷ codes "ParseIntervalError"
    ∷ codes "ChangeDataFeedUnsupported"
    ∷ codes "ChangeDataFeedIncompatibleSchema"
    ∷ codes "InvalidCheckpoint"
    ∷ []

unfoldable pub kernel_error_enum_to_string : ℕ → Str
kernel_error_enum_to_string e = elim (get_elem? kernel_error_enum_strings e) [
  | none ↦ codes "EnumOutOfRange (enum val out of range: " ++ to_decimal e ++ codes ")"
  | some s ↦ s
]

-- `IntoString`; the error is consumed.
unfoldable pub into_string : EngineError → Str
unfolding kernel_error_enum_to_string
into_string e =
    codes "DeltKernel "
    ++ (kernel_error_enum_to_string e.etype
        ++ (codes " (" ++ (to_decimal e.etype ++ (codes "): " ++ e.error_message))))

-- `ffi::ExternResult<T>`: a tag, and a value or a pointer to an error, which may be null.
pub data ExternResult {ℓ} (A : Type ℓ) : Type ℓ where
  ok_result : A → ExternResult A
  err_result : Option EngineError → ExternResult A
  invalid_tag : ExternResult A

abbrev pub io_error : Str → ErrorData
io_error message = record { exception_type = io; message = message }

-- `TryUnpackResult`: the value, or the error data that it returns in its place.
unfoldable pub try_unpack_result {ℓ} : {A : Type ℓ} → ExternResult A → Result A
unfolding into_string
try_unpack_result (ok_result a) = ok a
try_unpack_result (err_result none) = err (io_error (codes "Unknown Delta kernel error"))
try_unpack_result (err_result (some e)) = err (io_error (into_string e))
try_unpack_result invalid_tag = err (io_error (codes "Invalid Delta kernel ExternResult"))
