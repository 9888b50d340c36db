-- ===== src/Handles/Referenced.antt =====
-- The life of a reference to a shared pointer.
use duckdb_delta.Prelude.{ℕ, zero, suc, ◌≡◌, refl, none, some, get_elem?, arith}
use duckdb_delta.Handles.{
  Mutex, own_lock, other_lock, acquire, release, move_pointer, locking_ref, SharedPointers,
  set_owner, swap_pointers, Step, acquires, releases, moves, other_acquires, other_releases, Steps,
  stop, then_step,
}
use duckdb_delta.Handles.Locked.{kept_if_acquired, kept_if_released}

-- The mutex is held between the constructor and the destructor.
abbrev Referring : ℕ → ℕ × SharedPointers → Type 0
Referring t (zero, s) = Unit
Referring t (suc zero, s) = s.owner own_lock ≡ some t
Referring t (suc (suc n), s) = Unit

Referring-owner :
    (t n : ℕ) (s r : SharedPointers)
    → (s.owner own_lock ≡ some t → r.owner own_lock ≡ some t)
    → Referring t (n, s)
    → Referring t (n, r)
Referring-owner t zero s r h g = tt
Referring-owner t (suc zero) s r h g = h g
Referring-owner t (suc (suc n)) s r h g = tt

Referring-acquires :
    (t n : ℕ) (m : Mutex) (s : SharedPointers)
    → get_elem? locking_ref n ≡ some (acquire m)
    → Referring t (suc n, set_owner m (some t) s)
Referring-acquires t zero own_lock s e = refl
Referring-acquires t zero other_lock s e = ground (e, arith)
Referring-acquires t (suc n) m s e = tt

Referring-moves :
    (t n : ℕ) (s : SharedPointers)
    → get_elem? locking_ref n ≡ some move_pointer
    → Referring t (suc n, swap_pointers s)
Referring-moves t zero s e = ground (e, arith)
Referring-moves t (suc n) s e = tt

Referring-releases :
    (t n : ℕ) (m : Mutex) (s : SharedPointers)
    → get_elem? locking_ref n ≡ some (release m)
    → Referring t (suc n, set_owner m none s)
Referring-releases t zero m s e = ground (e, arith)
Referring-releases t (suc n) m s e = tt

Referring-Step :
    (t : ℕ) (c d : ℕ × SharedPointers) → Step t locking_ref c d → Referring t c → Referring t d
Referring-Step t c d (acquires n m s e h) g = Referring-acquires t n m s e
Referring-Step t c d (releases n m s e h) g = Referring-releases t n m s e
Referring-Step t c d (moves n s e) g = Referring-moves t n s e
Referring-Step t c d (other_acquires u m n s x h) g =
    Referring-owner t n s _ (kept_if_acquired t u m s h) g
Referring-Step t c d (other_releases u m n s x h) g =
    Referring-owner t n s _ (kept_if_released t u m s x h) g

Referring-Steps :
    (t : ℕ) (c d : ℕ × SharedPointers) → Steps t locking_ref c d → Referring t c → Referring t d
Referring-Steps t c d (stop e) g = g
Referring-Steps t c d (then_step b e f x xs) g = Referring-Steps t e f xs (Referring-Step t b e x g)

-- While a thread has a reference, it is the one that holds the pointer's mutex, whatever the other threads
-- did meanwhile; and it can give the reference up, with the mutex free again.
pub locking_ref_exclusive :
    (t : ℕ) (s r : SharedPointers)
    → Steps t locking_ref (0, s) (1, r)
    → (r.owner own_lock ≡ some t)
      × ((q : SharedPointers) × (Steps t locking_ref (1, r) (2, q)) × (q.owner own_lock ≡ none))
locking_ref_exclusive t s r xs =
    let held = Referring-Steps t (0, s) (1, r) xs tt in
    (
      held,
      (set_owner own_lock none r, then_step _ _ _ (releases 1 own_lock r refl held) (stop _), refl),
    )
