-- ===== src/Earnings/Ledger.antt =====
-- The ledger of credits and withdrawals: no line twice, and every line found from the indexes.
use arbiter_backend.Base.{
  ℕ, String, ◌≡◌, refl, sym, ◌∙◌, Bool, true, false, ◌&&◌, ◌||◌, Option, List, [], ◌∷◌, ◌++◌, map,
  arith, exists, includes, distinct, length, ◌==◌, str_eq, eq_iff, includes-append, Bool-cases, inl,
  inr,
}
use arbiter_backend.Earnings.{
  Credit, Withdrawal, Earnings, worker_share_stroops, has_year, insert_year, put, index_worker_year,
  is_credit_of, is_withdrawal_of, add_credit, add_credits, record_worker_credits,
  record_worker_withdrawal,
}

abbrev question_ids : List Credit → List String
question_ids cs = map (λ (c : Credit). c.question_id) cs

abbrev tx_hashes : List Withdrawal → List String
tx_hashes ws = map (λ (w : Withdrawal). w.tx_hash) ws

abbrev is_empty {ℓ} : {A : Type ℓ} → List A → Bool
is_empty [] = true
is_empty (x ∷ xs) = false

-- Nothing of a worker in a year, or both indexes name the year and the worker.
abbrev pub indexed : Earnings → String → ℕ → Bool
indexed s w y =
    (is_empty (s.credits w y) && is_empty (s.withdrawals w y))
    || (has_year (s.years w) y && includes (s.earners y) w)

-- No question is credited twice to a worker in one year, no withdrawal stands twice, and the indexes
-- name every worker and year with a line.
pub record IsLedger (s : Earnings) : Type 0 where
  pub credited_once : (w : String) (y : ℕ) → distinct (question_ids (s.credits w y)) ≡ true
  pub withdrawn_once : (w : String) (y : ℕ) → distinct (tx_hashes (s.withdrawals w y)) ≡ true
  pub found : (w : String) (y : ℕ) → indexed s w y ≡ true

exists-credit :
    (id : String) (cs : List Credit) → exists (is_credit_of id) cs ≡ includes (question_ids cs) id
exists-credit id [] = refl
exists-credit id (c ∷ cs) = ground (arith, exists-credit id cs)

exists-withdrawal :
    (tx : String) (ws : List Withdrawal)
    → exists (is_withdrawal_of tx) ws ≡ includes (tx_hashes ws) tx
exists-withdrawal tx [] = refl
exists-withdrawal tx (w ∷ ws) = ground (arith, exists-withdrawal tx ws)

distinct-snoc :
    (ids : List String) (id : String)
    → distinct ids ≡ true
    → includes ids id ≡ false
    → distinct (ids ++ id ∷ []) ≡ true
distinct-snoc [] id d n = refl
distinct-snoc (x ∷ xs) id d n =
    ground (arith, distinct-snoc xs id, includes-append xs (id ∷ []) x, eq_iff x id, eq_iff id x)

question_ids-snoc :
    (cs : List Credit) (c : Credit)
    → question_ids (cs ++ c ∷ []) ≡ question_ids cs ++ c.question_id ∷ []
question_ids-snoc [] c = refl
question_ids-snoc (d ∷ ds) c = λ i. d.question_id ∷ question_ids-snoc ds c i

tx_hashes-snoc :
    (ws : List Withdrawal) (w : Withdrawal)
    → tx_hashes (ws ++ w ∷ []) ≡ tx_hashes ws ++ w.tx_hash ∷ []
tx_hashes-snoc [] w = refl
tx_hashes-snoc (v ∷ vs) w = λ i. v.tx_hash ∷ tx_hashes-snoc vs w i

has_year-insert :
    (y z : ℕ) (ys : List ℕ) → has_year (insert_year y ys) z ≡ (y == z || has_year ys z)
has_year-insert y z [] = refl
has_year-insert y z (x ∷ xs) = ground (arith, has_year-insert y z xs)

-- After indexing, every pair that was found still is, and so is the new one.
index-years :
    (worker w : String) (year y : ℕ) (s : Earnings)
    → has_year ((index_worker_year worker year s).years w) y
      ≡ (has_year (s.years w) y || (str_eq worker w && year == y))
unfolding index_worker_year
index-years worker w year y s = elim (Bool-cases (str_eq worker w)) [
  | inr n ↦ rw n (ground arith)
  | inl t ↦
      let same : worker ≡ w = (eq_iff worker w).0 t in
      rw (t, same) (ground (arith, has_year-insert year y (s.years w)))
]

index-earners :
    (worker w : String) (year y : ℕ) (s : Earnings)
    → includes ((index_worker_year worker year s).earners y) w
      ≡ (includes (s.earners y) w || (str_eq worker w && year == y))
unfolding index_worker_year
index-earners worker w year y s = elim (Bool-cases (year == y)) [
  | inr n ↦ rw n (ground arith)
  | inl t ↦
      let same : year ≡ y = ground arith in
      rw (t, same) (ground (arith, includes-append (s.earners y) (worker ∷ []) w, eq_iff worker w))
]

-- A list is kept or written at one pair, so a property of each list is kept by a new value that has
-- it.
put-All :
    {A : Type 0} (P : A → Type 0) (worker : String) (year : ℕ) (v : A) (f : String → ℕ → A)
    → P v
    → ((w : String) (y : ℕ) → P (f w y))
    → (w : String) (y : ℕ) → P (put worker year v f w y)
put-All P worker year v f new old w y = elim (Bool-cases (str_eq worker w && year == y)) [
  | inl t ↦ rw t new
  | inr n ↦ rw n (old w y)
]

-- Where only the pair that is indexed got a line, the indexes name every pair with one.
index-indexed :
    (worker w : String) (year y : ℕ) (cs : String → ℕ → List Credit)
    (ws : String → ℕ → List Withdrawal) (s : Earnings)
    → ((str_eq worker w && year == y) ≡ false
        → (cs w y ≡ s.credits w y) × (ws w y ≡ s.withdrawals w y))
    → indexed s w y ≡ true
    → indexed (index_worker_year worker year (record s { credits = cs; withdrawals = ws })) w y
      ≡ true
unfolding index_worker_year
index-indexed worker w year y cs ws s k f =
    let t : Earnings = record s { credits = cs; withdrawals = ws } in
    elim (Bool-cases (str_eq worker w && year == y)) [
      | inl e ↦ ground (arith, index-years worker w year y t, index-earners worker w year y t)
      | inr e ↦
          let (c, v) = k e in
          rw (index-years worker w year y t, index-earners worker w year y t, e, c, v)
            (ground arith)
    ]

credit-IsLedger :
    (worker : String) (year : ℕ) (c : Credit) (s : Earnings)
    → IsLedger s
    → IsLedger (add_credit worker year c s)
unfolding add_credit index_worker_year
credit-IsLedger worker year c s l =
    let lines = s.credits worker year in
    let cs = put worker year (lines ++ c ∷ []) s.credits in
    elim (Bool-cases (exists (is_credit_of c.question_id) lines)) [
      | inl t ↦ rw t l
      | inr n ↦ rw n (record {
        credited_once =
            put-All (λ ds. distinct (question_ids ds) ≡ true) worker year (lines ++ c ∷ [])
              s.credits
              (rw (question_ids-snoc lines c) (
                distinct-snoc (question_ids lines) c.question_id (l.credited_once worker year)
                  (sym (exists-credit c.question_id lines) ∙ n)))
              l.credited_once;
        withdrawn_once = l.withdrawn_once;
        found = λ w y.
            index-indexed worker w year y cs s.withdrawals s (λ e. rw e (refl, refl)) (l.found w y);
      })
    ]

module _ (year_of : ℕ → ℕ) where
  withdrawal-IsLedger :
      (worker : String) (w : Withdrawal) (s : Earnings)
      → IsLedger s
      → IsLedger (record_worker_withdrawal year_of worker w s)
  unfolding record_worker_withdrawal index_worker_year
  withdrawal-IsLedger worker w s l =
      let year = year_of w.withdrawn_at in
      let lines = s.withdrawals worker year in
      let ws = put worker year (lines ++ w ∷ []) s.withdrawals in
      elim (Bool-cases (exists (is_withdrawal_of w.tx_hash) lines)) [
        | inl t ↦ rw t l
        | inr n ↦ rw n (record {
          credited_once = l.credited_once;
          withdrawn_once =
              put-All (λ vs. distinct (tx_hashes vs) ≡ true) worker year (lines ++ w ∷ [])
                s.withdrawals
                (rw (tx_hashes-snoc lines w) (
                  distinct-snoc (tx_hashes lines) w.tx_hash (l.withdrawn_once worker year)
                    (sym (exists-withdrawal w.tx_hash lines) ∙ n)))
                l.withdrawn_once;
          found = λ v y.
              index-indexed worker v year y s.credits ws s (λ e. rw e (refl, refl)) (l.found v y);
        })
      ]

  add_credits-IsLedger :
      (workers : List String) (year : ℕ) (c : Credit) (s : Earnings)
      → IsLedger s
      → IsLedger (add_credits workers year c s)
  unfolding add_credits
  add_credits-IsLedger [] year c s l = l
  add_credits-IsLedger (worker ∷ workers) year c s l =
      add_credits-IsLedger workers year c _ (credit-IsLedger worker year c s l)

  credits-IsLedger :
      (id : String) (workers : List String) (amount : ℕ) (tx : Option String) (at : ℕ)
      (s : Earnings)
      → IsLedger s
      → IsLedger (record_worker_credits year_of id workers amount tx at s)
  unfolding record_worker_credits
  credits-IsLedger id workers amount tx at s l =
      elim (Bool-cases (worker_share_stroops amount (length workers) == 0)) [
        | inl t ↦ rw t l
        | inr n ↦ rw n (add_credits-IsLedger workers (year_of at) _ s l)
      ]

pub data Entry : Type 0 where
  settled : (id : String) (workers : List String) (amount : ℕ) (tx : Option String) (at : ℕ) → Entry
  withdrew : (worker : String) (w : Withdrawal) → Entry

module _ (year_of : ℕ → ℕ) where
  unfoldable pub record_entries : List Entry → Earnings → Earnings
  record_entries [] s = s
  record_entries (settled id workers amount tx at ∷ es) s =
      record_entries es (record_worker_credits year_of id workers amount tx at s)
  record_entries (withdrew worker w ∷ es) s =
      record_entries es (record_worker_withdrawal year_of worker w s)

  -- Whatever settlements and withdrawals are recorded, in any order and however often: within a year
  -- no worker is credited twice for a question and no withdrawal stands twice, and every worker and
  -- year with a line is named by the list of the worker's years and the list of the year's earners.
  pub earnings_stay_consistent :
      (entries : List Entry) (s : Earnings) → IsLedger s → IsLedger (record_entries entries s)
  unfolding record_entries
  earnings_stay_consistent [] s l = l
  earnings_stay_consistent (settled id workers amount tx at ∷ es) s l =
      earnings_stay_consistent es _ (credits-IsLedger year_of id workers amount tx at s l)
  earnings_stay_consistent (withdrew worker w ∷ es) s l =
      earnings_stay_consistent es _ (withdrawal-IsLedger year_of worker w s l)
