-- ===== src/Store/Expiry.antt =====
-- What a reader of the store sees after a write, an expiry or a deletion.
use arbiter_backend.Base.{
  ℕ, zero, suc, ◌+◌, ◌≤◌, String, ◌≡◌, true, false, none, some, arith, eq_iff, str_eq, leb,
  if◌then◌else◌, lookup-insert, lookup-remove,
}
use arbiter_backend.Store.{MemoryStore, get, set, delete, set_nx, view}

module _ {ℓ} {V : Type ℓ} where
  -- `get` answers with the view of its key and changes no view, whatever it deletes.
  pub get-view :
      (k : String) (now : ℕ) (s : MemoryStore V)
      → ((get k now s).1 ≡ view s k now)
        × ((j : String) (t : ℕ) → now ≤ t → view (get k now s).0 j t ≡ view s j t)
  unfolding get view
  get-view k now s = (ground arith, λ j t h. ground (arith, lookup-remove k j s, eq_iff k j))

  -- A value is seen from its write until its expiry, that moment included, and not after it.
  pub view-set :
      (k j : String) (v : V) (ttl now t : ℕ) (s : MemoryStore V)
      → view (set k v ttl now s) j t ≡ (
          if str_eq k j
          then (if leb ttl 0 then some v else if leb t (now + ttl) then some v else none)
          else view s j t)
  unfolding set view
  view-set k j v zero now t s =
      ground (arith, lookup-insert k j (record { value = v; expires_at = none }) s)
  view-set k j v (suc n) now t s =
      ground (arith, lookup-insert k j (record { value = v; expires_at = some (now + suc n) }) s)

  pub view-delete :
      (k j : String) (t : ℕ) (s : MemoryStore V)
      → view (delete k s) j t ≡ (if str_eq k j then none else view s j t)
  unfolding delete view
  view-delete k j t s = ground (arith, lookup-remove k j s)

  -- `set_nx` writes exactly when nothing is seen under its key.
  pub set_nx-eq :
      (k : String) (v : V) (ttl now : ℕ) (s : MemoryStore V)
      → set_nx k v ttl now s
        ≡ (elim (view s k now) [ none ↦ (set k v ttl now s, true) | some _ ↦ (s, false) ])
  unfolding set_nx set view
  set_nx-eq k v ttl now s = ground arith
