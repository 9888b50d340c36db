-- ===== src/Inflight/Laws.antt =====
-- Lists under construction behave like a stack of fresh names.
use duckdb_delta.Prelude.{ℕ, ◌+◌, ◌^◌, ◌<◌, ◌≤◌, ◌≡◌, refl, none, some, [], ◌∷◌, arith}
use duckdb_delta.Inflight.{
  Lists, Inflight, lookup, update, make_field_list, append_to_list, take_field_list,
}

module _ {ℓ} {V : Type ℓ} where
  -- Every identifier in use is below `n`.
  abbrev pub Below : ℕ → Lists V → Type 0
  Below n [] = Unit
  Below n ((k, v) ∷ l) = (k < n) × Below n l

  pub Below-mono : (m n : ℕ) (l : Lists V) → m ≤ n → Below m l → Below n l
  Below-mono m n [] h b = tt
  Below-mono m n ((k, v) ∷ l) h b = (omega arith, Below-mono m n l h b.1)

  pub Below-update : (n id : ℕ) (f : V → V) (l : Lists V) → Below n l → Below n (update id f l)
  unfolding update
  Below-update n id f [] b = tt
  Below-update n id f ((k, v) ∷ l) b = ground (arith, Below-update n id f l b.1)

  pub lookup-fresh : (n : ℕ) (l : Lists V) → Below n l → lookup n l ≡ none
  unfolding lookup
  lookup-fresh n [] b = refl
  lookup-fresh n ((k, v) ∷ l) b = ground (arith, lookup-fresh n l b.1)

  pub lookup-lt : (n id : ℕ) (v : V) (l : Lists V) → Below n l → lookup id l ≡ some v → id < n
  unfolding lookup
  lookup-lt n id v [] b h = ground arith
  lookup-lt n id v ((k, w) ∷ l) b h = ground (arith, lookup-lt n id v l b.1)

  pub lookup-update_self :
      (id : ℕ) (f : V → V) (v : V) (l : Lists V)
      → lookup id l ≡ some v
      → lookup id (update id f l) ≡ some (f v)
  unfolding lookup update
  lookup-update_self id f v [] h = ground arith
  lookup-update_self id f v ((k, w) ∷ l) h = ground (arith, lookup-update_self id f v l)

  pub update-update :
      (id : ℕ) (f g : V → V) (l : Lists V)
      → update id g (update id f l) ≡ update id (λ v. g (f v)) l
  unfolding update
  update-update id f g [] = refl
  update-update id f g ((k, w) ∷ l) = ground (arith, update-update id f g l)

  -- A fresh list: its identifier is the next one, and nothing else changes.
  pub make_lem :
      (empty : V) (s : Inflight V)
      → Below s.next_id s.inflight_lists
      → s.next_id + 1 < 2 ^ 64
      → make_field_list empty s ≡ (
        s.next_id,
        record { inflight_lists = (s.next_id, empty) ∷ s.inflight_lists; next_id = s.next_id + 1 },
      )
  unfolding make_field_list
  make_lem empty s b h = ground (arith, lookup-fresh s.next_id s.inflight_lists b)

  pub append_lem :
      (id : ℕ) (push : V → V) (v : V) (s : Inflight V)
      → lookup id s.inflight_lists ≡ some v
      → append_to_list id push s
        ≡ some (record s { inflight_lists = update id push s.inflight_lists })
  unfolding append_to_list
  append_lem id push v s h = ground arith

  pub take_head :
      (id n : ℕ) (v : V) (l : Lists V)
      → take_field_list id (record { inflight_lists = (id, v) ∷ l; next_id = n })
        ≡ some (v, record { inflight_lists = l; next_id = n })
  unfolding take_field_list
  take_head id n v l = ground arith

  pub update_head :
      (id : ℕ) (f : V → V) (v : V) (l : Lists V) → update id f ((id, v) ∷ l) ≡ (id, f v) ∷ l
  unfolding update
  update_head id f v l = ground arith

  pub lookup_head : (id : ℕ) (v : V) (l : Lists V) → lookup id ((id, v) ∷ l) ≡ some v
  unfolding lookup
  lookup_head id v l = ground arith

  pub update-same : (id : ℕ) (f : V → V) (l : Lists V) → ((v : V) → f v ≡ v) → update id f l ≡ l
  unfolding update
  update-same id f [] h = refl
  update-same id f ((k, v) ∷ l) h = ground (arith, h v, update-same id f l h)
