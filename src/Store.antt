-- ===== src/Store.antt =====
-- src/store.js, class MemoryStore: a map of entries with an optional expiry, one function for each
-- method. A method returns the new store with its result, and `now` is the time of the call. A
-- missing or zero `ttlMs` is 0: both are falsy in `ttlMs ? … : null`.
pub mod Expiry
pub mod Counter
pub mod Hash
use arbiter_backend.Base.{
  ℕ, zero, suc, ◌+◌, ◌-◌, String, Bool, true, false, Option, none, some, List, [], Assoc, lookup,
  insert, remove, ltb, leb, is_some, if◌then◌else◌,
}

pub record Entry {ℓ} (V : Type ℓ) : Type ℓ where
  pub value : V
  pub expires_at : Option ℕ

abbrev pub MemoryStore {ℓ} : Type ℓ → Type ℓ
MemoryStore V = Assoc (Entry V)

-- `ttlMs ? now + ttlMs : null`
abbrev pub expiry : ℕ → ℕ → Option ℕ
expiry now zero = none
expiry now (suc t) = some (now + suc t)

-- `!entry.expiresAt || entry.expiresAt >= now`; an expiry of 0 is falsy.
abbrev pub alive_at : Option ℕ → ℕ → Bool
alive_at none now = true
alive_at (some zero) now = true
alive_at (some (suc e)) now = leb now (suc e)

module _ {ℓ} {V : Type ℓ} where
  abbrev pub alive : Option (Entry V) → ℕ → Option V
  alive none now = none
  alive (some e) now = if alive_at e.expires_at now then some e.value else none

  drop_expired : String → ℕ → Option (Entry V) → MemoryStore V → MemoryStore V × Option V
  drop_expired key now none s = (s, none)
  drop_expired key now (some e) s =
      if alive_at e.expires_at now then (s, some e.value) else (remove key s, none)

  -- An expired entry is deleted when it is read.
  unfoldable pub get : String → ℕ → MemoryStore V → MemoryStore V × Option V
  unfolding drop_expired
  get key now s = drop_expired key now (lookup key s) s

  unfoldable pub set : String → V → ℕ → ℕ → MemoryStore V → MemoryStore V
  set key value ttl now s = insert key (record { value = value; expires_at = expiry now ttl }) s

  unfoldable pub delete : String → MemoryStore V → MemoryStore V
  delete key s = remove key s

  -- Set if not there: true only for the call that wrote.
  unfoldable pub set_nx : String → V → ℕ → ℕ → MemoryStore V → MemoryStore V × Bool
  set_nx key value ttl now s =
      if is_some (alive (lookup key s) now)
      then (s, false)
      else (insert key (record { value = value; expires_at = expiry now ttl }) s, true)

  -- What a reader sees under a key at a time.
  unfoldable pub view : MemoryStore V → String → ℕ → Option V
  view s key now = alive (lookup key s) now

abbrev pub or_zero : Option ℕ → ℕ
or_zero none = 0
or_zero (some n) = n

abbrev pub raw : Option (Entry ℕ) → ℕ
raw none = 0
raw (some e) = e.value

-- Each call writes a new expiry.
unfoldable pub incr : String → ℕ → ℕ → MemoryStore ℕ → MemoryStore ℕ × ℕ
incr key ttl now s =
    let next = or_zero (alive (lookup key s) now) + 1 in
    (insert key (record { value = next; expires_at = expiry now ttl }) s, next)

-- A balance has no expiry: the entry is read without a test of its expiry.
unfoldable pub incr_by : String → ℕ → MemoryStore ℕ → MemoryStore ℕ × ℕ
incr_by key delta s =
    let next = raw (lookup key s) + delta in
    (insert key (record { value = next; expires_at = none }) s, next)

unfoldable pub decr_if_at_least : String → ℕ → MemoryStore ℕ → MemoryStore ℕ × Bool
decr_if_at_least key amount s =
    let current = raw (lookup key s) in
    if ltb current amount
    then (s, false)
    else (insert key (record { value = current - amount; expires_at = none }) s, true)

-- The balance under a key: what the two methods above read.
unfoldable pub balance : MemoryStore ℕ → String → ℕ
balance s key = raw (lookup key s)

module _ {ℓ} {V : Type ℓ} where
  abbrev pub hash_of : Option (Entry (Assoc V)) → ℕ → Assoc V
  hash_of e now = elim (alive e now) [ none ↦ [] | some h ↦ h ]

  -- The first field sets the expiry, and later fields keep it.
  abbrev pub hash_expiry : Option (Entry (Assoc V)) → ℕ → ℕ → Option ℕ
  hash_expiry none ttl now = expiry now ttl
  hash_expiry (some e) ttl now = if alive_at e.expires_at now then e.expires_at else expiry now ttl

  -- A hash under one key: a field is written by its first writer only.
  unfoldable pub hset_nx :
      String → String → V → ℕ → ℕ → MemoryStore (Assoc V) → MemoryStore (Assoc V) × Bool
  hset_nx key field value ttl now s =
      let entry = lookup key s in
      let hash = hash_of entry now in
      if is_some (lookup field hash) then (s, false) else (
        insert key
            (record { value = insert field value hash; expires_at = hash_expiry entry ttl now }) s,
        true,
      )

  -- The fields, an expired hash being deleted.
  unfoldable pub hget_all : String → ℕ → MemoryStore (Assoc V) → MemoryStore (Assoc V) × Assoc V
  unfolding get
  hget_all key now s =
      let (s', found) = get key now s in (s', elim found [ none ↦ [] | some h ↦ h ])
