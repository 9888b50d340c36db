-- ===== src/Handles/Locked.antt =====
-- Who holds the mutexes.
use mathlib.Core.Option.{none-ne-some, some_inj}
use duckdb_delta.Prelude.{
  ℕ, zero, suc, ◌<◌, ◌≡◌, ◌≢◌, ◌∙◌, refl, sym, none, some, length, get_elem?, arith,
}
use duckdb_delta.Handles.{
  Mutex, own_lock, other_lock, acquire, release, move_pointer, move_constructor, SharedPointers,
  set_owner, swap_pointers, Step, acquires, releases, moves, other_acquires, other_releases, Steps,
  stop, then_step,
}

-- A thread in the move constructor: it holds the new pointer's mutex after the second statement, and does
-- not get past the fourth.
abbrev Moving : ℕ → ℕ × SharedPointers → Type 0
Moving t (zero, s) = Unit
Moving t (suc zero, s) = Unit
Moving t (suc (suc zero), s) = s.owner own_lock ≡ some t
Moving t (suc (suc (suc zero)), s) = s.owner own_lock ≡ some t
Moving t (suc (suc (suc (suc n))), s) = ⊥

-- What others do keeps it.
Moving-owner :
    (t n : ℕ) (s r : SharedPointers)
    → (s.owner own_lock ≡ some t → r.owner own_lock ≡ some t)
    → Moving t (n, s)
    → Moving t (n, r)
Moving-owner t zero s r h g = tt
Moving-owner t (suc zero) s r h g = tt
Moving-owner t (suc (suc zero)) s r h g = h g
Moving-owner t (suc (suc (suc zero))) s r h g = h g
Moving-owner t (suc (suc (suc (suc n)))) s r h g = g

pub kept_if_acquired :
    (t u : ℕ) (m : Mutex) (s : SharedPointers)
    → s.owner m ≡ none
    → s.owner own_lock ≡ some t
    → (set_owner m (some u) s).owner own_lock ≡ some t
kept_if_acquired t u own_lock s h g = absurd (none-ne-some t (sym h ∙ g))
kept_if_acquired t u other_lock s h g = g

pub kept_if_released :
    (t u : ℕ) (m : Mutex) (s : SharedPointers)
    → u ≢ t
    → s.owner m ≡ some u
    → s.owner own_lock ≡ some t
    → (set_owner m none s).owner own_lock ≡ some t
kept_if_released t u own_lock s d h g = absurd (d (some_inj.0 (sym h ∙ g)))
kept_if_released t u other_lock s d h g = g

Moving-acquires :
    (t n : ℕ) (m : Mutex) (s : SharedPointers)
    → get_elem? move_constructor n ≡ some (acquire m)
    → s.owner m ≡ none
    → Moving t (n, s)
    → Moving t (suc n, set_owner m (some t) s)
Moving-acquires t zero m s e h g = tt
Moving-acquires t (suc zero) own_lock s e h g = refl
Moving-acquires t (suc zero) other_lock s e h g = ground (e, arith)
Moving-acquires t (suc (suc zero)) m s e h g = ground (e, arith)
Moving-acquires t (suc (suc (suc zero))) own_lock s e h g = none-ne-some t (sym h ∙ g)
Moving-acquires t (suc (suc (suc zero))) other_lock s e h g = ground (e, arith)
Moving-acquires t (suc (suc (suc (suc n)))) m s e h g = absurd g

Moving-releases :
    (t n : ℕ) (m : Mutex) (s : SharedPointers)
    → get_elem? move_constructor n ≡ some (release m)
    → Moving t (n, s)
    → Moving t (suc n, set_owner m none s)
Moving-releases t zero m s e g = ground (e, arith)
Moving-releases t (suc zero) m s e g = ground (e, arith)
Moving-releases t (suc (suc zero)) m s e g = ground (e, arith)
Moving-releases t (suc (suc (suc zero))) m s e g = ground (e, arith)
Moving-releases t (suc (suc (suc (suc n)))) m s e g = absurd g

Moving-moves :
    (t n : ℕ) (s : SharedPointers)
    → get_elem? move_constructor n ≡ some move_pointer
    → Moving t (n, s)
    → Moving t (suc n, swap_pointers s)
Moving-moves t zero s e g = tt
Moving-moves t (suc zero) s e g = ground (e, arith)
Moving-moves t (suc (suc zero)) s e g = g
Moving-moves t (suc (suc (suc zero))) s e g = ground (e, arith)
Moving-moves t (suc (suc (suc (suc n)))) s e g = absurd g

Moving-Step :
    (t : ℕ) (c d : ℕ × SharedPointers) → Step t move_constructor c d → Moving t c → Moving t d
Moving-Step t c d (acquires n m s e h) g = Moving-acquires t n m s e h g
Moving-Step t c d (releases n m s e h) g = Moving-releases t n m s e g
Moving-Step t c d (moves n s e) g = Moving-moves t n s e g
Moving-Step t c d (other_acquires u m n s x h) g =
    Moving-owner t n s _ (kept_if_acquired t u m s h) g
Moving-Step t c d (other_releases u m n s x h) g =
    Moving-owner t n s _ (kept_if_released t u m s x h) g

Moving-Steps :
    (t : ℕ) (c d : ℕ × SharedPointers) → Steps t move_constructor c d → Moving t c → Moving t d
Moving-Steps t c d (stop e) g = g
Moving-Steps t c d (then_step b e f x xs) g = Moving-Steps t e f xs (Moving-Step t b e x g)

before_end : (t n : ℕ) (s : SharedPointers) → Moving t (n, s) → n < length move_constructor
before_end t zero s g = omega arith
before_end t (suc zero) s g = omega arith
before_end t (suc (suc zero)) s g = omega arith
before_end t (suc (suc (suc zero))) s g = omega arith
before_end t (suc (suc (suc (suc n)))) s g = absurd g

-- The move constructor of a shared pointer never returns, whatever other threads do meanwhile and
-- whoever holds the mutexes at first: a thread in it never gets past its last statement.
pub move_constructor_never_returns :
    (t n : ℕ) (s r : SharedPointers)
    → Steps t move_constructor (0, s) (n, r)
    → n < length move_constructor
move_constructor_never_returns t n s r xs = before_end t n r (Moving-Steps t (0, s) (n, r) xs tt)
