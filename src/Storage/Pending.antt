-- ===== src/Storage/Pending.antt =====
-- The state that a transaction ends in.
use mathlib.Core.Path.{subst}
use duckdb_delta.Prelude.{
  ℕ, ◌==◌, ◌≡◌, refl, ◌∙◌, Option, none, some, Str, inl, inr, arith, Bool-cases,
}
use duckdb_delta.Storage.{
  Transaction, not_yet_started, Database, lookup_entry, put, CatalogType, start_transaction,
  commit_transaction, rollback_transaction, ClientContext, Catalog, commit, rollback, change,
}
use duckdb_delta.Storage.Isolation.{
  Step, Steps, starts, looks_up, commits, rolls_back, stop, then_step,
}

abbrev pub AllPending : Option Transaction → Type 0
AllPending none = Unit
AllPending (some t) = t.transaction_state ≡ not_yet_started

-- No transaction is past the state in which it was created.
abbrev pub IsPending : Database → Type 0
IsPending d = (j : ℕ) → AllPending (d.transactions j)

put-AllPending :
    (i : ℕ) (t : Option Transaction) (f : ℕ → Option Transaction)
    → AllPending t
    → ((j : ℕ) → AllPending (f j))
    → (j : ℕ) → AllPending (put i t f j)
put-AllPending i t f h g j = elim (Bool-cases (i == j)) [ inl q ↦ rw q h | inr q ↦ rw q (g j) ]

lookup_entry-state :
    (x : ClientContext) (type : CatalogType) (name : Str) (c : Catalog) (t : Transaction)
    → (((lookup_entry x type name c t).1).1).transaction_state ≡ t.transaction_state
unfolding lookup_entry
lookup_entry-state x type name c t = ground arith

Step-IsPending : (i : ℕ) (d d' : Database) → Step i d d' → IsPending d → IsPending d'
unfolding start_transaction commit_transaction rollback_transaction
Step-IsPending i _ _ (starts j d h) p = put-AllPending j _ d.transactions refl p
Step-IsPending i _ _ (commits j d h) p = put-AllPending j none d.transactions tt p
Step-IsPending i _ _ (rolls_back j d h) p = put-AllPending j none d.transactions tt p
Step-IsPending i _ _ (looks_up j x ty n s d h) p =
    put-AllPending j _ d.transactions
      (lookup_entry-state x ty n d.catalog s ∙ subst AllPending h (p j)) p

Steps-IsPending : (i : ℕ) (d d' : Database) → Steps i d d' → IsPending d → IsPending d'
Steps-IsPending i _ _ (stop d) p = p
Steps-IsPending i _ _ (then_step d w d' s ss) p =
    Steps-IsPending i w d' ss (Step-IsPending i d w s p)

-- Where every transaction is in the state in which `Start` leaves it, as it is where there is none yet,
-- a transaction that is committed or rolled back later ends in that state, never as finished.
pub ends_pending :
    (i j : ℕ) (d d' : Database)
    → IsPending d
    → Steps i d d'
    → AllPending ((commit_transaction j d').0) × AllPending ((rollback_transaction j d').0)
unfolding commit_transaction rollback_transaction commit rollback
ends_pending i j d d' p ss = go (d'.transactions j) (Steps-IsPending i d d' ss p j)
  where
    go :
        (t : Option Transaction)
        → AllPending t
        → AllPending (change commit t) × AllPending (change rollback t)
    go none h = (tt, tt)
    go (some t) h = (rw h refl, rw h refl)
