-- ===== src/Handles.antt =====
-- The kernel's pointers (delta_utils.hpp): `UniqueKernelPointer`, and `SharedKernelPointer` with its mutex and
-- its references.
pub mod Freed
pub mod Locked
pub mod Referenced
mod Tests
use duckdb_delta.Prelude.{
  ℕ, suc, ◌==◌, Bool, true, false, ◌&&◌, ◌++◌, Option, none, some, List, [], ◌∷◌, set, get_elem?,
  if◌then◌else◌, ◌≡◌, ◌≢◌,
}

-- A pointer, and whether there is a function that frees it.
pub record UniqueKernelPointer : Type 0 where
  pub ptr : Option ℕ
  pub free : Bool

unfoldable pub default_pointer : UniqueKernelPointer
default_pointer = record { ptr = none; free = false }

-- The constructor that takes ownership.
unfoldable pub take_ownership : ℕ → UniqueKernelPointer
take_ownership p = record { ptr = some p; free = true }

-- The move constructor, and what it leaves; the function is not taken over.
unfoldable pub move_construct : UniqueKernelPointer → UniqueKernelPointer × UniqueKernelPointer
move_construct other = (record { ptr = other.ptr; free = false }, record other { ptr = none })

-- The move assignment swaps.
unfoldable pub move_assign :
    UniqueKernelPointer → UniqueKernelPointer → UniqueKernelPointer × UniqueKernelPointer
move_assign this other =
    (record { ptr = other.ptr; free = other.free }, record { ptr = this.ptr; free = this.free })

abbrev freed_if : Option ℕ → Bool → List ℕ
freed_if none free = []
freed_if (some p) free = if free then p ∷ [] else []

-- The destructor: the handles that it frees.
unfoldable pub destroy : UniqueKernelPointer → List ℕ
destroy p = freed_if p.ptr p.free

-- The two mutexes of a move: the one of the new pointer, and the other's.
pub data Mutex : Type 0 where
  own_lock other_lock : Mutex

pub data Action : Type 0 where
  acquire release : Mutex → Action
  move_pointer : Action

-- The move constructor of `SharedKernelPointer`, statement by statement.
abbrev pub move_constructor : List Action
move_constructor =
    acquire other_lock
    ∷ acquire own_lock
    ∷ move_pointer
    ∷ acquire own_lock
    ∷ acquire other_lock
    ∷ []

-- The life of a `SharedKernelRef`: its constructor and its destructor.
abbrev pub locking_ref : List Action
locking_ref = acquire own_lock ∷ release own_lock ∷ []

-- Which thread holds each mutex, and the two pointers.
pub record SharedPointers : Type 0 where
  pub owner : Mutex → Option ℕ
  pub own_pointer : UniqueKernelPointer
  pub other_pointer : UniqueKernelPointer

abbrev same_mutex : Mutex → Mutex → Bool
same_mutex own_lock own_lock = true
same_mutex own_lock other_lock = false
same_mutex other_lock own_lock = false
same_mutex other_lock other_lock = true

abbrev pub set_owner : Mutex → Option ℕ → SharedPointers → SharedPointers
set_owner m o s = record s { owner = λ n. if same_mutex m n then o else s.owner n }

abbrev pub swap_pointers : SharedPointers → SharedPointers
swap_pointers s =
    let (p, q) = move_assign s.own_pointer s.other_pointer in
    record s { own_pointer = p; other_pointer = q }

-- One step of the thread `t`, which runs a program and is at its statement `n`, or of any other thread. A
-- mutex is not recursive: it is acquired only while nobody holds it, and released only by the thread
-- that does.
pub data Step (t : ℕ) (program : List Action)
    : ℕ × SharedPointers → ℕ × SharedPointers → Type 0 where
  acquires :
      (n : ℕ) (m : Mutex) (s : SharedPointers)
      → get_elem? program n ≡ some (acquire m)
      → s.owner m ≡ none
      → Step t program (n, s) (suc n, set_owner m (some t) s)
  releases :
      (n : ℕ) (m : Mutex) (s : SharedPointers)
      → get_elem? program n ≡ some (release m)
      → s.owner m ≡ some t
      → Step t program (n, s) (suc n, set_owner m none s)
  moves :
      (n : ℕ) (s : SharedPointers)
      → get_elem? program n ≡ some move_pointer
      → Step t program (n, s) (suc n, swap_pointers s)
  other_acquires :
      (u : ℕ) (m : Mutex) (n : ℕ) (s : SharedPointers)
      → u ≢ t
      → s.owner m ≡ none
      → Step t program (n, s) (n, set_owner m (some u) s)
  other_releases :
      (u : ℕ) (m : Mutex) (n : ℕ) (s : SharedPointers)
      → u ≢ t
      → s.owner m ≡ some u
      → Step t program (n, s) (n, set_owner m none s)

pub data Steps (t : ℕ) (program : List Action)
    : ℕ × SharedPointers → ℕ × SharedPointers → Type 0 where
  stop : (c : ℕ × SharedPointers) → Steps t program c c
  then_step :
      (c d e : ℕ × SharedPointers) → Step t program c d → Steps t program d e → Steps t program c e
