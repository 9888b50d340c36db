-- ===== src/Paths/Slash.antt =====
-- The trailing slash and the schemes: `ToDeltaPath` and `ToDuckDBPath`.
use mathlib.Core.Path.{subst}
use duckdb_delta.Prelude.{
  ℕ, ◌≡◌, ◌≢◌, refl, sym, ap, false, some, [], ◌∷◌, ◌++◌, ◌==◌, ◌∙◌, if◌then◌else◌, arith,
  Bool-cases, inl, inr, Str, codes, starts_with, get_last?, get_last?-append, drop, ◌⊎◌,
}
use duckdb_delta.Paths.{FileSystem, with_slash, to_delta_path}

get_last?-some : (c : ℕ) (s : Str) → (a : ℕ) × (get_last? (c ∷ s) ≡ some a)
get_last?-some c [] = (c, refl)
get_last?-some c (b ∷ s) = get_last?-some b s

-- Either the path ends in a slash already, or one is appended.
abbrev Slashed : Str → Str → Type 0
Slashed path p = (p ≡ path) ⊎ (p ≡ path ++ b'/' ∷ [])

with_slash_lem :
    (c : ℕ) (s : Str)
    → (p : Str) × (with_slash (c ∷ s) ≡ some p) × (get_last? p ≡ some b'/') × Slashed (c ∷ s) p
unfolding with_slash
with_slash_lem c s =
    let (a, e) = get_last?-some c s in
    elim (Bool-cases (a == b'/')) [
      | inl t ↦ (c ∷ s, rw (e, with_slash) (rw t), ground arith, inl refl)
      | inr t ↦
          (c ∷ s ++ b'/' ∷ [], rw (e, with_slash) (rw t), get_last?-append (c ∷ s) b'/', inr refl)
    ]

with_slash-slash : (p : Str) → get_last? p ≡ some b'/' → with_slash p ≡ some p
unfolding with_slash
with_slash-slash p h = rw (h, with_slash)

-- What `ToDeltaPath` makes of a raw path before it looks at the slash.
abbrev expand : FileSystem → Str → Str
expand fs raw_path =
    if starts_with raw_path (codes "./")
    then codes "file://" ++ fs.join_path fs.working_directory (drop 2 raw_path)
    else raw_path

expand-ne-nil :
    (fs : FileSystem) (c : ℕ) (s : Str) → (a : ℕ) × (r : Str) × (expand fs (c ∷ s) ≡ a ∷ r)
expand-ne-nil fs c s = elim (Bool-cases (starts_with (c ∷ s) (codes "./"))) [
  | inl t ↦ (b'f', codes "ile://" ++ fs.join_path fs.working_directory (drop 2 (c ∷ s)), rw t)
  | inr t ↦ (c, s, rw t)
]

-- Every non-empty path gets a snapshot path that ends in a slash: the read before the first byte
-- happens on the empty path only.
pub to_delta_path_ends :
    (fs : FileSystem) (c : ℕ) (s : Str)
    → (p : Str) × (to_delta_path fs (c ∷ s) ≡ some p) × (get_last? p ≡ some b'/')
unfolding to_delta_path
to_delta_path_ends fs c s =
    let (a, r, e) = expand-ne-nil fs c s in
    let (p, w, l, _) = with_slash_lem a r in (p, ap with_slash e ∙ w, l)

-- A path that is its own expansion and ends in a slash is left alone.
stable :
    (fs : FileSystem) (p : Str)
    → starts_with p (codes "./") ≡ false
    → get_last? p ≡ some b'/'
    → to_delta_path fs p ≡ some p
unfolding to_delta_path
stable fs p h l = let e : expand fs p ≡ p = rw h in ap with_slash e ∙ with_slash-slash p l

no_dot_prefix :
    (fs : FileSystem) (raw p : Str)
    → raw ≢ codes "."
    → Slashed (expand fs raw) p
    → get_last? p ≡ some b'/'
    → starts_with p (codes "./") ≡ false
no_dot_prefix fs [] p h (inl e) l = ground arith
no_dot_prefix fs [] p h (inr e) l = ground arith
no_dot_prefix fs (c ∷ []) p h (inl e) l = ground arith
no_dot_prefix fs (c ∷ []) p h (inr e) l = ground arith
no_dot_prefix fs (c ∷ d ∷ s) p h (inl e) l = ground arith
no_dot_prefix fs (c ∷ d ∷ s) p h (inr e) l = ground arith

-- A snapshot path is stable: making a file list from the path of another one, as filter pushdown
-- does, gives the same path. The raw path `.` alone is excepted.
pub to_delta_path_idem :
    (fs : FileSystem) (raw p : Str)
    → raw ≢ codes "."
    → to_delta_path fs raw ≡ some p
    → to_delta_path fs p ≡ some p
unfolding to_delta_path with_slash
to_delta_path_idem fs [] p h e = ground arith
to_delta_path_idem fs (c ∷ s) p h e =
    let (a, r, x) = expand-ne-nil fs c s in
    let (q, w, l, sl) = with_slash_lem a r in
    let o : some q ≡ some p = sym w ∙ sym (ap with_slash x) ∙ e in
    let same : q ≡ p = cc in
    subst (λ k. to_delta_path fs k ≡ some k) same
      (stable fs q (no_dot_prefix fs (c ∷ s) q h (subst (λ k. Slashed k q) (sym x) sl) l) l)

-- The snapshot path of a non-empty raw path, `.` alone excepted, ends in a slash and is stable: making a file
-- list from the path of another one, as filter pushdown does, gives the same path.
pub to_delta_path_lem :
    (fs : FileSystem) (c : ℕ) (s : Str)
    → (c ∷ s) ≢ codes "."
    → (p : Str) × (to_delta_path fs (c ∷ s) ≡ some p)
      × (get_last? p ≡ some b'/')
      × (to_delta_path fs p ≡ some p)
to_delta_path_lem fs c s h =
    let (p, e, l) = to_delta_path_ends fs c s in (p, e, l, to_delta_path_idem fs (c ∷ s) p h e)
