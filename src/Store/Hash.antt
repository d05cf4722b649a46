-- ===== src/Store/Hash.antt =====
-- A hash under one key: `hsetnx` and `hgetall`.
use arbiter_backend.Base.{
  ℕ, zero, suc, String, ◌≡◌, refl, true, false, Option, none, some, [], arith, eq_iff, str_eq,
  if◌then◌else◌, Assoc, lookup, insert, lookup-insert,
}
use arbiter_backend.Store.{MemoryStore, hset_nx, view, hash_of, hash_expiry, expiry, alive_at}

fresh-alive : (now ttl : ℕ) → alive_at (expiry now ttl) now ≡ true
fresh-alive now zero = refl
fresh-alive now (suc t) = ground arith

module _ {ℓ} {V : Type ℓ} where
  -- What a reader sees in a field of the hash.
  abbrev pub field_at : MemoryStore (Assoc V) → String → String → ℕ → Option V
  field_at s key field now = lookup field (elim (view s key now) [ none ↦ [] | some h ↦ h ])

  -- The first writer of a field wins: a write succeeds exactly when the field is not there, and it
  -- changes no other field.
  pub hset_nx-first :
      (k f g : String) (v : V) (ttl now : ℕ) (s : MemoryStore (Assoc V))
      → ((hset_nx k f v ttl now s).1 ≡ (elim (field_at s k f now) [ none ↦ true | some _ ↦ false ]))
        × (field_at (hset_nx k f v ttl now s).0 k g now ≡ (
            if str_eq f g
            then (elim (field_at s k f now) [ none ↦ some v | some w ↦ some w ])
            else field_at s k g now))
  unfolding hset_nx view
  hset_nx-first k f g v ttl now s =
      let hash = hash_of (lookup k s) now in
      ground (
        arith,
        fresh-alive now ttl,
        eq_iff k k,
        eq_iff f g,
        lookup-insert f g v hash,
        lookup-insert k k
            (record { value = insert f v hash; expires_at = hash_expiry (lookup k s) ttl now }) s,
      )
