-- ===== src/Paths/Tests.antt =====
-- Runs of the path helpers, and their theorems at concrete paths.
use duckdb_delta.Prelude.{ℕ, ◌≡◌, refl, ◌==◌, Bool, some, ◌∷◌, ◌++◌, arith, Str, codes, get_last?}
use duckdb_delta.Paths.{
  FileSystem, hex_value, is_space, url_decode, to_duckdb_path, to_delta_path, resolve_file,
}
use duckdb_delta.Paths.Decode.{
  percent_encode, url_decode-percent_encode, malformed_escape, resolve_file-percent_encode,
  resolve_file_rewrites_root,
}
use duckdb_delta.Paths.Slash.{to_delta_path_lem}

abbrev spaces : ℕ → Bool
spaces a = a == 32

abbrev no_dots : FileSystem
no_dots = record { working_directory = codes "/home"; join_path = λ a b. a ++ b'/' ∷ b }

decode_runs : url_decode 0 (codes "a%20b%2Fc") ≡ codes "a b/c"
unfolding url_decode
decode_runs = refl

decode_odd : url_decode 65 (codes "%zz%+7%") ≡ codes "A" ++ (7 ∷ codes "A")
unfolding url_decode
decode_odd = refl

relative_path : to_delta_path no_dots (codes "./t") ≡ some (codes "file:///home/t/")
unfolding to_delta_path
relative_path = refl

resolve_runs : resolve_file 0 (codes "file:///t/") (codes "p%3D1/x") ≡ codes "/t/p=1/x"
unfolding resolve_file
resolve_runs = refl

round_trip_runs : url_decode 9 (percent_encode spaces (codes "a %b")) ≡ codes "a %b"
round_trip_runs = url_decode-percent_encode 9 spaces (codes "a %b") (omega arith)

malformed_escape_runs : url_decode 300 (codes "%zz!") ≡ 44 ∷ url_decode 300 (codes "!")
unfolding hex_value is_space
malformed_escape_runs = malformed_escape 300 b'z' b'z' (codes "!") (refl, refl, refl, refl)

resolve_file-percent_encode_example :
    resolve_file 0 (codes "file:///t/") (percent_encode spaces (codes "x y"))
    ≡ to_duckdb_path (codes "file:///t/x y")
resolve_file-percent_encode_example =
    resolve_file-percent_encode 0 spaces (codes "file:///t/") (codes "x y")
      (refl, (refl, (refl, (refl, (refl, (refl, (refl, (refl, (refl, tt))))))))) (omega arith)

resolve_file_rewrites_root_example :
    resolve_file 0 (codes "/a%41b/") (percent_encode spaces (codes "x"))
    ≡ to_duckdb_path (codes "/aAb/x")
resolve_file_rewrites_root_example =
    resolve_file_rewrites_root 0 4 1 spaces (codes "/a%41b/") (codes "/a") (codes "b") (codes "x")
      refl (refl, (refl, tt)) (refl, tt) (omega arith) (omega arith) (omega arith)

to_delta_path_lem_example :
    (p : Str) × (to_delta_path no_dots (codes "./t") ≡ some p)
    × (get_last? p ≡ some b'/')
    × (to_delta_path no_dots p ≡ some p)
to_delta_path_lem_example = to_delta_path_lem no_dots b'.' (codes "/t") (λ e. cc)
