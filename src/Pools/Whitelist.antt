-- ===== src/Pools/Whitelist.antt =====
-- The pools: at most 500 workers, none twice, and what an addition and a removal do to them.
use arbiter_backend.Base.{
  eq_iff, ◌≤◌, String, ◌≡◌, refl, Bool, true, false, not, ◌&&◌, ◌||◌, List, [], ◌∷◌, ◌++◌, arith,
  keep, includes, distinct, unique, length, lookup, lookup-insert, lookup-remove, includes-append,
  includes-keep, includes-unique, distinct-keep, distinct-unique, length-keep, if◌then◌else◌,
  str_eq, ltb, eq_refl,
}
use arbiter_backend.Pools.{
  Pools, pool, add_pool_workers, remove_pool_workers, are_valid, or_none, max_pool_size,
}

abbrev pub IsPool : List String → Type 0
IsPool ws = (distinct ws ≡ true) × (length ws ≤ max_pool_size)

abbrev pub pool_of : String → Pools → List String
pool_of payer s = or_none (lookup payer s.pools)

distinct-append :
    (xs ys : List String)
    → distinct xs ≡ true
    → distinct ys ≡ true
    → ((a : String) → includes xs a ≡ true → includes ys a ≡ false)
    → distinct (xs ++ ys) ≡ true
distinct-append [] ys d e f = e
distinct-append (x ∷ xs) ys d e f = ground (
  arith,
  distinct-append xs ys (ground arith) e (λ a h. f a (ground arith)),
  includes-append xs ys x,
  f x (ground (arith, eq_refl x)),
)

keep-same : (p : String → Bool) (xs : List String) → length (keep p xs) ≡ length xs → keep p xs ≡ xs
keep-same p [] h = refl
keep-same p (x ∷ xs) h = ground (arith, keep-same p xs, length-keep p xs)

length-nil : (xs ys : List String) → length xs ≡ 0 → xs ++ ys ≡ ys
length-nil [] ys h = refl
length-nil (x ∷ xs) ys h = absurd (omega arith)

nothing-kept : (xs : List String) → length xs ≡ 0 → xs ≡ []
nothing-kept [] h = refl
nothing-kept (x ∷ xs) h = absurd (omega arith)

abbrev additions : List String → List String → List String
additions ws existing = keep (λ a. not (includes existing a)) (unique ws)

includes-additions :
    (ws existing : List String) (a : String)
    → includes (additions ws existing ++ existing) a ≡ (includes ws a || includes existing a)
includes-additions ws existing a = ground (
  arith,
  includes-append (additions ws existing) existing a,
  includes-keep (λ b. not (includes existing b)) (unique ws) a,
  includes-unique ws a,
)

additions-distinct :
    (ws existing : List String)
    → distinct existing ≡ true
    → distinct (additions ws existing ++ existing) ≡ true
additions-distinct ws existing d =
    distinct-append (additions ws existing) existing
      (distinct-keep (λ a. not (includes existing a)) (unique ws) (distinct-unique ws)) d
      (λ a h. ground (arith, includes-keep (λ b. not (includes existing b)) (unique ws) a))

module _ (is_valid_address : String → Bool) where
  added-pool :
      (payer : String) (ws : List String) (s : Pools)
      → let next = additions ws (pool_of payer s) ++ pool_of payer s in
        pool_of payer (add_pool_workers is_valid_address payer ws s).0 ≡ (
          if are_valid is_valid_address ws && not (ltb max_pool_size (length next))
          then next
          else pool_of payer s)
  unfolding add_pool_workers
  added-pool payer ws s = ground (
    arith,
    eq_refl payer,
    lookup-insert payer payer (additions ws (pool_of payer s) ++ pool_of payer s) s.pools,
    length-nil (additions ws (pool_of payer s)) (pool_of payer s),
  )

  added-other :
      (payer other : String) (ws : List String) (s : Pools)
      → str_eq payer other ≡ false
      → pool_of other (add_pool_workers is_valid_address payer ws s).0 ≡ pool_of other s
  unfolding add_pool_workers
  added-other payer other ws s ne =
      ground (
        arith,
        lookup-insert payer other (additions ws (pool_of payer s) ++ pool_of payer s) s.pools,
      )

  added-accepted :
      (payer : String) (ws : List String) (s : Pools) (out : List String)
      → (add_pool_workers is_valid_address payer ws s).1 ≡ pool out
      → (are_valid is_valid_address ws
          && not (ltb max_pool_size (length (additions ws (pool_of payer s) ++ pool_of payer s))))
        ≡ true
  unfolding add_pool_workers
  added-accepted payer ws s out e = ground arith

  removed-pool :
      (payer : String) (ws : List String) (s : Pools)
      → pool_of payer (remove_pool_workers is_valid_address payer ws s).0 ≡ (
          if are_valid is_valid_address ws
          then keep (λ a. not (includes ws a)) (pool_of payer s)
          else pool_of payer s)
  unfolding remove_pool_workers
  removed-pool payer ws s = ground (
    arith,
    eq_refl payer,
    lookup-insert payer payer (keep (λ a. not (includes ws a)) (pool_of payer s)) s.pools,
    lookup-remove payer payer s.pools,
    keep-same (λ a. not (includes ws a)) (pool_of payer s),
    nothing-kept (keep (λ a. not (includes ws a)) (pool_of payer s)),
  )

  removed-other :
      (payer other : String) (ws : List String) (s : Pools)
      → str_eq payer other ≡ false
      → pool_of other (remove_pool_workers is_valid_address payer ws s).0 ≡ pool_of other s
  unfolding remove_pool_workers
  removed-other payer other ws s ne = ground (
    arith,
    lookup-insert payer other (keep (λ a. not (includes ws a)) (pool_of payer s)) s.pools,
    lookup-remove payer other s.pools,
  )

  removed-accepted :
      (payer : String) (ws : List String) (s : Pools) (out : List String)
      → (remove_pool_workers is_valid_address payer ws s).1 ≡ pool out
      → are_valid is_valid_address ws ≡ true
  unfolding remove_pool_workers
  removed-accepted payer ws s out e = ground arith

  -- An addition that is accepted keeps the pool well formed, gives the payer exactly the workers
  -- that were there and those that were named, and leaves every other payer's pool alone.
  pub add_pool_workers_lem :
      (payer : String) (ws next : List String) (s : Pools)
      → IsPool (pool_of payer s)
      → (add_pool_workers is_valid_address payer ws s).1 ≡ pool next
      → IsPool (pool_of payer (add_pool_workers is_valid_address payer ws s).0)
        × ((other a : String)
            → includes (pool_of other (add_pool_workers is_valid_address payer ws s).0) a
              ≡ ((str_eq payer other && includes ws a) || includes (pool_of other s) a))
  add_pool_workers_lem payer ws next s (d, n) e =
      let existing = pool_of payer s in
      (
        ground (arith, added-pool payer ws s, additions-distinct ws existing d),
        λ other a. ground (
          arith,
          added-pool payer ws s,
          added-other payer other ws s,
          includes-additions ws existing a,
          added-accepted payer ws s next e,
          eq_iff payer other,
        ),
      )

  -- A removal that is accepted leaves the payer exactly the workers that were not named, in a pool
  -- that is still well formed, and every other payer's pool alone.
  pub remove_pool_workers_lem :
      (payer : String) (ws next : List String) (s : Pools)
      → IsPool (pool_of payer s)
      → (remove_pool_workers is_valid_address payer ws s).1 ≡ pool next
      → IsPool (pool_of payer (remove_pool_workers is_valid_address payer ws s).0)
        × ((other a : String)
            → includes (pool_of other (remove_pool_workers is_valid_address payer ws s).0) a
              ≡ (not (str_eq payer other && includes ws a) && includes (pool_of other s) a))
  remove_pool_workers_lem payer ws next s (d, n) e =
      let existing = pool_of payer s in
      (
        ground (
          arith,
          removed-pool payer ws s,
          distinct-keep (λ a. not (includes ws a)) existing,
          length-keep (λ a. not (includes ws a)) existing,
        ),
        λ other a. ground (
          arith,
          removed-pool payer ws s,
          removed-other payer other ws s,
          includes-keep (λ b. not (includes ws b)) existing a,
          removed-accepted payer ws s next e,
          eq_iff payer other,
        ),
      )
