-- ===== src/Paths/Decode.antt =====
-- What `url_decode` computes, against percent-encoding.
use mathlib.Core.List.{append_assoc}
use duckdb_delta.Prelude.{
  ℕ, ◌+◌, ◌*◌, ◌/◌, ◌%◌, ◌<◌, ◌≡◌, refl, ap, ◌∙◌, Bool, ◌||◌, none, some, [], ◌∷◌, ◌++◌, ◌==◌, ltb,
  if◌then◌else◌, arith, Bool-cases, inl, inr, Str, Avoids, All, false, rtrim,
}
use duckdb_delta.Paths.{
  hex_value, is_space, scan_hex, url_decode_from, url_decode, to_duckdb_path, resolve_file,
}

-- An upper-case hexadecimal digit.
abbrev pub hex_digit : ℕ → ℕ
hex_digit n = if ltb n 10 then n + 48 else n + 55

-- Percent-encoding: `%` and the reserved bytes become escapes.
abbrev pub percent_encode : (ℕ → Bool) → Str → Str
percent_encode reserved [] = []
percent_encode reserved (a ∷ s) =
    let rest = percent_encode reserved s in
    if a == 37 || reserved a then 37 ∷ hex_digit (a / 16) ∷ hex_digit (a % 16) ∷ rest else a ∷ rest

hex_value-hex_digit : (n : ℕ) → n < 16 → hex_value (hex_digit n) ≡ some n
unfolding hex_value
hex_value-hex_digit n h = ground arith

scan_hex-digits :
    (h l : ℕ) → h < 16 → l < 16 → scan_hex (hex_digit h ∷ hex_digit l ∷ []) ≡ some (h * 16 + l)
unfolding scan_hex
scan_hex-digits h l hh hl = ground (arith)

abbrev pub IsByte : ℕ → Type 0
IsByte a = a < 256

decode_escape :
    (g h l : ℕ) (s : Str)
    → h < 16
    → l < 16
    → url_decode_from g 0 (37 ∷ hex_digit h ∷ hex_digit l ∷ s)
      ≡ (h * 16 + l) % 256 ∷ url_decode_from g 0 s
unfolding url_decode_from
decode_escape g h l s hh hl = rw (scan_hex-digits h l hh hl)

decode_plain :
    (g c : ℕ) (s : Str)
    → (c == 37) ≡ false
    → url_decode_from g 0 (c ∷ s) ≡ c ∷ url_decode_from g 0 s
unfolding url_decode_from
decode_plain g c s h = rw h

decode-encode :
    (g : ℕ) (reserved : ℕ → Bool) (s : Str)
    → All IsByte s
    → url_decode_from g 0 (percent_encode reserved s) ≡ s
unfolding url_decode_from
decode-encode g reserved [] h = refl
decode-encode g reserved (a ∷ s) h = elim (Bool-cases (a == 37 || reserved a)) [
  | inl e ↦ rw e (
      decode_escape g (a / 16) (a % 16) _ (omega arith) (omega arith)
      ∙ ground (arith, decode-encode g reserved s h.1))
  | inr e ↦ rw e (decode_plain g a _ (ground arith) ∙ ap (◌∷◌ a) (decode-encode g reserved s h.1))
]

-- Decoding undoes percent-encoding on every byte string, whichever bytes the encoder escapes
-- besides `%`, and whatever the uninitialised variable holds.
pub url_decode-percent_encode :
    (garbage : ℕ) (reserved : ℕ → Bool) (s : Str)
    → All IsByte s
    → url_decode garbage (percent_encode reserved s) ≡ s
unfolding url_decode
url_decode-percent_encode g reserved s h = decode-encode g reserved s h

pub decode-append :
    (g : ℕ) (s t : Str) → Avoids 37 s → url_decode_from g 0 (s ++ t) ≡ s ++ url_decode_from g 0 t
decode-append g [] t h = refl
decode-append g (c ∷ s) t h = decode_plain g c (s ++ t) h.0 ∙ ap (◌∷◌ c) (decode-append g s t h.1)

-- Neither byte after the `%` may begin a number: no digit, sign or white space.
abbrev pub IsMalformed : ℕ → Type 0
IsMalformed b =
    (hex_value b ≡ none) × (is_space b ≡ false) × ((b == b'-') ≡ false) × ((b == b'+') ≡ false)

scan_hex-malformed : (b c : ℕ) → IsMalformed b → scan_hex (b ∷ c ∷ []) ≡ none
unfolding scan_hex
scan_hex-malformed b c h = ground arith

-- A `%` that no number follows decodes to the low byte of an uninitialised variable.
pub malformed_escape :
    (garbage b c : ℕ) (s : Str)
    → IsMalformed b
    → url_decode garbage (37 ∷ b ∷ c ∷ s) ≡ garbage % 256 ∷ url_decode garbage s
unfolding url_decode url_decode_from
malformed_escape g b c s h = rw (scan_hex-malformed b c h)

-- Under a snapshot path without `%`, a file whose kernel path is the percent-encoding of `name` gets
-- the snapshot's path, one slash and exactly `name`, less a leading `file://`.
pub resolve_file-percent_encode :
    (garbage : ℕ) (reserved : ℕ → Bool) (snapshot_path name : Str)
    → Avoids 37 (rtrim b'/' snapshot_path)
    → All IsByte name
    → resolve_file garbage snapshot_path (percent_encode reserved name)
      ≡ to_duckdb_path (rtrim b'/' snapshot_path ++ b'/' ∷ name)
unfolding resolve_file url_decode
resolve_file-percent_encode g reserved root name h hb = ap to_duckdb_path (
    decode-append g (rtrim b'/' root) (b'/' ∷ percent_encode reserved name) h
    ∙ ap (◌++◌ (rtrim b'/' root))
        (decode_plain g b'/' _ refl ∙ ap (◌∷◌ b'/') (decode-encode g reserved name hb)))

-- A snapshot path that itself spells an escape `%hl` is rewritten: its files are looked for under
-- another directory, the one with that escape decoded.
pub resolve_file_rewrites_root :
    (garbage h l : ℕ) (reserved : ℕ → Bool) (root dir rest name : Str)
    → rtrim b'/' root ≡ dir ++ (37 ∷ hex_digit h ∷ hex_digit l ∷ rest)
    → Avoids 37 dir
    → Avoids 37 rest
    → h < 16
    → l < 16
    → All IsByte name
    → resolve_file garbage root (percent_encode reserved name)
      ≡ to_duckdb_path (dir ++ ((h * 16 + l) ∷ (rest ++ b'/' ∷ name)))
unfolding resolve_file url_decode
resolve_file_rewrites_root g h l reserved root dir rest name hr hd hs hh hl hb =
    let tail = percent_encode reserved name in
    let p = decode_plain g b'/' tail refl ∙ ap (◌∷◌ b'/') (decode-encode g reserved name hb) in
    let q = decode-append g rest (b'/' ∷ tail) hs ∙ ap (◌++◌ rest) p in
    let e = decode_escape g h l (rest ++ b'/' ∷ tail) hh hl in
    let byte : (h * 16 + l) % 256 ≡ h * 16 + l = omega arith in
    ap to_duckdb_path (
      ap (λ r. url_decode_from g 0 (r ++ b'/' ∷ tail)) hr
      ∙ ap (url_decode_from g 0) (append_assoc dir _ (b'/' ∷ tail))
      ∙ decode-append g dir _ hd
      ∙ ap (◌++◌ dir)
          (e ∙ ap (◌∷◌ ((h * 16 + l) % 256)) q ∙ ap (λ x. x ∷ (rest ++ b'/' ∷ name)) byte))
