-- ===== src/Routing/Targets.antt =====
-- selectTargets: a private pool fails closed, every other filter fails open.
use arbiter_backend.Base.{
  ℕ, ◌≤◌, String, ◌≡◌, refl, Bool, true, false, Option, none, some, List, [], ◌∷◌, arith, includes,
  exists, keep, length, leb, All, if◌then◌else◌, ◌==◌,
}
use arbiter_backend.Routing.{
  Worker, Gate, Reputations, select_targets, soft_filters, in_category, preferring, non_empty_or,
  is_established_worker,
}

All-if {ℓ κ} :
    {A : Type ℓ} (P : A → Type κ) (b : Bool) (x : A) (xs : List A)
    → P x
    → All P xs
    → All P (if b then x ∷ xs else xs)
All-if P true x xs h a = (h, a)
All-if P false x xs h a = a

All-keep {ℓ κ} :
    {A : Type ℓ} (P : A → Type κ) (p : A → Bool) (xs : List A) → All P xs → All P (keep p xs)
All-keep P p [] a = tt
All-keep P p (x ∷ xs) (h, a) = All-if P (p x) x (keep p xs) h (All-keep P p xs a)

keep-All {ℓ} : {A : Type ℓ} (p : A → Bool) (xs : List A) → All (λ x. p x ≡ true) (keep p xs)
keep-All p [] = tt
keep-All p (x ∷ xs) = ground (arith, keep-All p xs)

All-non_empty_or {ℓ κ} :
    {A : Type ℓ} (P : A → Type κ) (xs ys : List A)
    → All P xs
    → All P ys
    → All P (non_empty_or xs ys)
All-non_empty_or P [] ys a b = b
All-non_empty_or P (x ∷ xs) ys a b = a

length-non_empty_or {ℓ} :
    {A : Type ℓ} (xs ys : List A) → 1 ≤ length ys → 1 ≤ length (non_empty_or xs ys)
length-non_empty_or [] ys h = h
length-non_empty_or (x ∷ xs) ys h = omega arith

chosen-All {ℓ κ} :
    {A : Type ℓ} (P : A → Type κ) (b : Bool) (xs ys : List A)
    → All P xs
    → All P ys
    → All P (if b then xs else ys)
chosen-All P true xs ys a b = a
chosen-All P false xs ys a b = b

-- Nothing passes the test, or something is kept.
keep-exists {ℓ} :
    {A : Type ℓ} (p : A → Bool) (xs : List A) → exists p xs ≡ (leb 1 (length (keep p xs)))
keep-exists p [] = refl
keep-exists p (x ∷ xs) = ground (arith, keep-exists p xs)

module _ (suspended : String → Bool) (stake_of : String → Option ℕ) (gate : Gate)
    (s : Reputations) where
  category-All :
      (P : Worker → Type 0) (category : Option String) (ws : List Worker)
      → All P ws
      → All P (in_category suspended stake_of gate s category ws)
  category-All P none ws a = a
  category-All P (some c) ws a = All-non_empty_or P _ _ (All-keep P _ ws a) a

  preferring-All :
      (P : Worker → Type 0) (prefer : Bool) (q : ℕ) (ws : List Worker)
      → All P ws
      → All P (preferring suspended stake_of gate s prefer q ws)
  preferring-All P false q ws a = a
  preferring-All P true q ws a =
      chosen-All P
        (leb q (length (keep (λ w. is_established_worker suspended stake_of gate s w.id) ws))) _ ws
        (All-keep P _ ws a) a

  length-category :
      (category : Option String) (ws : List Worker)
      → 1 ≤ length ws
      → 1 ≤ length (in_category suspended stake_of gate s category ws)
  length-category none ws n = n
  length-category (some c) ws n = length-non_empty_or _ _ n

  length-preferring :
      (prefer : Bool) (q : ℕ) (ws : List Worker)
      → 1 ≤ q
      → 1 ≤ length ws
      → 1 ≤ length (preferring suspended stake_of gate s prefer q ws)
  length-preferring false q ws h n = n
  length-preferring true q ws h n = ground arith

  length-soft_filters :
      (category : Option String) (prefer : Bool) (q : ℕ) (ws : List Worker)
      → 1 ≤ q
      → 1 ≤ length ws
      → 1 ≤ length (soft_filters suspended stake_of gate s category prefer q ws)
  length-soft_filters category prefer q ws h n =
      length-preferring prefer q _ h (length-non_empty_or _ _ (length-category category ws n))

  soft-All :
      (P : Worker → Type 0) (category : Option String) (prefer : Bool) (q : ℕ) (ws : List Worker)
      → All P ws
      → All P (soft_filters suspended stake_of gate s category prefer q ws)
  soft-All P category prefer q ws a = preferring-All P prefer q _ (
      All-non_empty_or P _ _ (All-keep P _ _ (category-All P category ws a))
        (category-All P category ws a))

  -- A question with a private pool goes to workers of the pool only, whatever the category, the
  -- reputations and the preference, and with a quorum of at least one it goes to somebody exactly
  -- when a worker of the pool is connected.
  pub private_pool_fails_closed :
      (category : Option String) (prefer : Bool) (q : ℕ) (pool : List String) (ws : List Worker)
      → 1 ≤ q
      → All
          (λ w. includes pool w.id ≡ true)
          (select_targets suspended stake_of gate s category prefer q (some pool) ws)
        × (leb 1
              (length (select_targets suspended stake_of gate s category prefer q (some pool) ws))
            ≡ exists (λ w. includes pool w.id) ws)
  unfolding select_targets
  private_pool_fails_closed category prefer q pool ws h =
      let allowed = keep (λ w. includes pool w.id) ws in
      (
        chosen-All _ (length allowed == 0) [] _ tt
            (soft-All _ category prefer q _ (keep-All (λ w. includes pool w.id) ws)),
        ground (
          arith,
          keep-exists (λ w. includes pool w.id) ws,
          length-soft_filters category prefer q allowed h,
        ),
      )

  -- Without a private pool, whenever a worker is connected somebody gets the question: no category,
  -- no reputation and no preference empties the list, for a quorum of at least one.
  pub routing_never_strands :
      (category : Option String) (prefer : Bool) (q : ℕ) (ws : List Worker)
      → 1 ≤ q
      → 1 ≤ length ws
      → 1 ≤ length (select_targets suspended stake_of gate s category prefer q none ws)
  unfolding select_targets
  routing_never_strands category prefer q ws h = length-soft_filters category prefer q ws h
