-- ===== src/Earnings/Redriven.antt =====
-- A settlement that is driven again within the year.
use arbiter_backend.Base.{
  ℕ, String, ◌≡◌, refl, Bool, true, ◌&&◌, ◌||◌, Option, List, [], ◌∷◌, ◌++◌, arith, exists, length,
  ◌==◌, str_eq, eq_iff, eq_refl, Bool-cases, inl, inr,
}
use arbiter_backend.Earnings.{
  Credit, Earnings, worker_share_stroops, index_worker_year, is_credit_of, add_credit, add_credits,
  record_worker_credits,
}

-- A line for the question stands in the worker's list of the year.
abbrev pub credited_for : String → String → ℕ → Earnings → Bool
credited_for id worker year s = exists (is_credit_of id) (s.credits worker year)

exists-append :
    {A : Type 0} (p : A → Bool) (xs ys : List A)
    → exists p (xs ++ ys) ≡ (exists p xs || exists p ys)
exists-append p [] ys = refl
exists-append p (x ∷ xs) ys = ground (arith, exists-append p xs ys)

credited-add_credit :
    (worker : String) (year : ℕ) (c : Credit) (s : Earnings)
    → credited_for c.question_id worker year (add_credit worker year c s) ≡ true
unfolding add_credit index_worker_year
credited-add_credit worker year c s =
    elim (Bool-cases (exists (is_credit_of c.question_id) (s.credits worker year))) [
      | inl t ↦ rw t t
      | inr n ↦
          rw (n, eq_refl worker)
            (ground (
              arith,
              exists-append (is_credit_of c.question_id) (s.credits worker year) (c ∷ []),
              eq_refl c.question_id,
            ))
    ]

credited-kept :
    (id w worker : String) (year : ℕ) (c : Credit) (s : Earnings)
    → credited_for id w year s ≡ true
    → credited_for id w year (add_credit worker year c s) ≡ true
unfolding add_credit index_worker_year
credited-kept id w worker year c s h =
    elim (Bool-cases (exists (is_credit_of c.question_id) (s.credits worker year))) [
      | inl t ↦ rw t h
      | inr n ↦ rw n (elim (Bool-cases (str_eq worker w)) [
        | inl e ↦
            let same : worker ≡ w = (eq_iff worker w).0 e in
            rw same (ground (arith, exists-append (is_credit_of id) (s.credits w year) (c ∷ [])))
        | inr e ↦ rw e h
      ])
    ]

credited-kept_all :
    (id w : String) (workers : List String) (year : ℕ) (c : Credit) (s : Earnings)
    → credited_for id w year s ≡ true
    → credited_for id w year (add_credits workers year c s) ≡ true
unfolding add_credits
credited-kept_all id w [] year c s h = h
credited-kept_all id w (v ∷ vs) year c s h =
    credited-kept_all id w vs year c (add_credit v year c s) (credited-kept id w v year c s h)

all_credited : String → List String → ℕ → Earnings → Bool
all_credited id [] year s = true
all_credited id (w ∷ ws) year s = credited_for id w year s && all_credited id ws year s

all_credited-kept :
    (id : String) (ws : List String) (worker : String) (year : ℕ) (c : Credit) (s : Earnings)
    → all_credited id ws year s ≡ true
    → all_credited id ws year (add_credit worker year c s) ≡ true
unfolding all_credited
all_credited-kept id [] worker year c s h = refl
all_credited-kept id (w ∷ ws) worker year c s h =
    ground (arith, all_credited-kept id ws worker year c s, credited-kept id w worker year c s)

add_credits-credited :
    (workers : List String) (year : ℕ) (c : Credit) (s : Earnings)
    → all_credited c.question_id workers year (add_credits workers year c s) ≡ true
unfolding add_credits all_credited
add_credits-credited [] year c s = refl
add_credits-credited (w ∷ ws) year c s =
    let s' = add_credit w year c s in
    let first = credited-kept_all c.question_id w ws year c s' (credited-add_credit w year c s) in
    rw (first, add_credits-credited ws year c s') refl

add_credit-credited :
    (worker : String) (year : ℕ) (c : Credit) (s : Earnings)
    → credited_for c.question_id worker year s ≡ true
    → add_credit worker year c s ≡ s
unfolding add_credit
add_credit-credited worker year c s h = rw h refl

add_credits-again :
    (workers : List String) (year : ℕ) (c : Credit) (s : Earnings)
    → all_credited c.question_id workers year s ≡ true
    → add_credits workers year c s ≡ s
unfolding add_credits all_credited
add_credits-again [] year c s h = refl
add_credits-again (w ∷ ws) year c s h =
    let first = add_credit-credited w year c s (ground arith) in
    rw first (add_credits-again ws year c s (ground arith))

module _ (year_of : ℕ → ℕ) where
  -- A question settled again in the same calendar year, for the same workers and amount, changes
  -- nothing in the ledger, whatever transaction and time the second settlement has.
  pub redriven_in_year :
      (id : String) (workers : List String) (amount : ℕ) (tx tx' : Option String) (at at' : ℕ)
      (s : Earnings)
      → year_of at' ≡ year_of at
      → record_worker_credits year_of id workers amount tx' at'
          (record_worker_credits year_of id workers amount tx at s)
        ≡ record_worker_credits year_of id workers amount tx at s
  unfolding record_worker_credits
  redriven_in_year id workers amount tx tx' at at' s y =
      elim (Bool-cases (worker_share_stroops amount (length workers) == 0)) [
        | inl t ↦ rw t refl
        | inr n ↦
            rw (n, y)
              (add_credits-again workers (year_of at) _ _
                (add_credits-credited workers (year_of at) _ s))
      ]
