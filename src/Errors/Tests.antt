-- ===== src/Errors/Tests.antt =====
-- A kernel error as the user sees it.
use duckdb_delta.Prelude.{to_decimal, ◌≡◌, refl, some, codes, err, ℕ}
use duckdb_delta.Errors.{err_result, io_error, try_unpack_result}

unpacked :
    try_unpack_result {A = ℕ}
      (err_result (some (record { etype = 16; error_message = codes "bad" })))
    ≡ err (io_error (codes "DeltKernel DeletionVectorError (16): bad"))
unfolding try_unpack_result to_decimal
unpacked = refl
