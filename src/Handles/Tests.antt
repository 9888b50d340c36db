-- ===== src/Handles/Tests.antt =====
-- A handle that is moved and freed, and a pointer that is moved under its mutex.
use duckdb_delta.Prelude.{◌≡◌, ◌≤◌, ◌<◌, refl, none, some, [], ◌∷◌}
use duckdb_delta.Handles.{
  take_ownership, default_pointer, own_lock, other_lock, move_constructor, locking_ref,
  SharedPointers, Steps, acquires, moves, stop, then_step, set_owner, swap_pointers,
}
use duckdb_delta.Handles.Freed.{
  takes, assigns, ends, operate_all, nothing, count, operate_all-freed,
}
use duckdb_delta.Handles.Locked.{move_constructor_never_returns}
use duckdb_delta.Handles.Referenced.{locking_ref_exclusive}

operate_all-freed_example :
    count 7
      (operate_all (takes 7 ∷ takes 8 ∷ assigns 0 1 ∷ ends 0 ∷ ends 1 ∷ ends 1 ∷ []) nothing).freed
    ≤ 1
operate_all-freed_example =
    operate_all-freed 7 (takes 7 ∷ takes 8 ∷ assigns 0 1 ∷ ends 0 ∷ ends 1 ∷ ends 1 ∷ [])

both_freed :
    (operate_all (takes 7 ∷ takes 8 ∷ assigns 0 1 ∷ ends 0 ∷ ends 1 ∷ ends 1 ∷ []) nothing).freed
    ≡ 8 ∷ 7 ∷ []
unfolding operate_all
both_freed = refl

abbrev pointers : SharedPointers
pointers = record {
  owner = λ m. none;
  own_pointer = default_pointer;
  other_pointer = take_ownership 7;
}

abbrev locked : SharedPointers
locked = set_owner own_lock (some 1) (set_owner other_lock (some 1) pointers)

moved_under_locks : Steps 1 move_constructor (0, pointers) (3, swap_pointers locked)
moved_under_locks = then_step _ _ _ (acquires 0 other_lock pointers refl refl) (
    then_step _ _ _ (acquires 1 own_lock (set_owner other_lock (some 1) pointers) refl refl)
      (then_step _ _ _ (moves 2 locked refl) (stop _)))

move_constructor_never_returns_example : 3 < 5
move_constructor_never_returns_example =
    move_constructor_never_returns 1 3 pointers (swap_pointers locked) moved_under_locks

abbrev referred : SharedPointers
referred = set_owner own_lock (some 1) pointers

locking_ref_exclusive_example :
    (referred.owner own_lock ≡ some 1)
    × ((q : SharedPointers) × (Steps 1 locking_ref (1, referred) (2, q))
        × (q.owner own_lock ≡ none))
locking_ref_exclusive_example =
    locking_ref_exclusive 1 pointers referred
      (then_step _ _ _ (acquires 0 own_lock pointers refl refl) (stop _))
