-- ===== src/Payers/Spend.antt =====
-- bucketPayerSpend of src/payerIndex.js: a payer's spend by category and by day. `normalized` is
-- `trim().toLowerCase()` and `day_of` the UTC day of a time, both of the JavaScript runtime; a
-- missing or empty category is the bucket none. `Array.prototype.sort` is a stable insertion sort.
pub mod Keys
pub mod Totals
pub mod Exact
use arbiter_backend.Base.{
  ℕ, suc, ◌+◌, String, ◌≡◌, refl, sym, ◌∙◌, Bool, true, false, not, ◌&&◌, ◌||◌, Option, none, some,
  List, [], ◌∷◌, arith, ltb, ◌==◌, if◌then◌else◌, str_eq, eq_iff, is_some, Bool-cases, inl, inr,
}
use arbiter_backend.Payers.{PaidJob, is_text}

pub record Bucket : Type 0 where
  pub key : Option String
  pub questions : ℕ
  pub resolved : ℕ
  pub spend_stroops : ℕ

abbrev pub is_key : Option String → Option String → Bool
is_key none none = true
is_key none (some b) = false
is_key (some a) none = false
is_key (some a) (some b) = str_eq a b

abbrev pub resolved_one : PaidJob → ℕ
resolved_one job = if is_text "resolved" job.outcome then 1 else 0

abbrev pub bucket_with : PaidJob → Bucket → Bucket
bucket_with job b = record b {
  questions = suc b.questions;
  resolved = b.resolved + resolved_one job;
  spend_stroops = b.spend_stroops + job.amount_stroops;
}

-- The inner `add`, on a map in insertion order.
abbrev pub add_to : Option String → PaidJob → List Bucket → List Bucket
add_to key job [] =
    bucket_with job (record { key = key; questions = 0; resolved = 0; spend_stroops = 0 }) ∷ []
add_to key job (b ∷ bs) = if is_key b.key key then bucket_with job b ∷ bs else b ∷ add_to key job bs

abbrev pub insert_by : (Bucket → Bucket → Bool) → Bucket → List Bucket → List Bucket
insert_by before b [] = b ∷ []
insert_by before b (c ∷ cs) = if before c b then c ∷ insert_by before b cs else b ∷ c ∷ cs

-- Later elements are inserted first, so equal ones keep their order.
abbrev pub sort_by : (Bucket → Bucket → Bool) → List Bucket → List Bucket
sort_by before [] = []
sort_by before (b ∷ bs) = insert_by before b (sort_by before bs)

-- A larger spend first, and among equals a category before none.
abbrev pub bigger_spend : Bucket → Bucket → Bool
bigger_spend a b =
    ltb b.spend_stroops a.spend_stroops
    || (a.spend_stroops == b.spend_stroops && is_some a.key && not (is_some b.key))

module _ (normalized : String → String) (day_of : ℕ → String)
    (earlier_day : Bucket → Bucket → Bool) where
  abbrev pub category_of : Option String → Option String
  category_of none = none
  category_of (some c) = if str_eq c "" then none else some (normalized c)

  abbrev pub by_category : List PaidJob → List Bucket → List Bucket
  by_category [] m = m
  by_category (job ∷ jobs) m = by_category jobs (add_to (category_of job.category) job m)

  abbrev pub add_day : Option ℕ → PaidJob → List Bucket → List Bucket
  add_day none job m = m
  add_day (some t) job m = add_to (some (day_of t)) job m

  abbrev pub by_day : List PaidJob → List Bucket → List Bucket
  by_day [] m = m
  by_day (job ∷ jobs) m = by_day jobs (add_day job.created_at job m)

  unfoldable pub bucket_payer_spend : List PaidJob → List Bucket × List Bucket
  bucket_payer_spend jobs =
      (sort_by bigger_spend (by_category jobs []), sort_by earlier_day (by_day jobs []))

-- A total over the buckets of one key: `f` picks the field.
abbrev pub held_in : (Bucket → ℕ) → Option String → List Bucket → ℕ
held_in f key [] = 0
held_in f key (b ∷ bs) = (if is_key b.key key then f b else 0) + held_in f key bs

abbrev pub held : (Bucket → ℕ) → List Bucket → ℕ
held f [] = 0
held f (b ∷ bs) = f b + held f bs

-- No two buckets of one key.
abbrev pub has_key : Option String → List Bucket → Bool
has_key key [] = false
has_key key (b ∷ bs) = is_key b.key key || has_key key bs

abbrev pub keys_distinct : List Bucket → Bool
keys_distinct [] = true
keys_distinct (b ∷ bs) = not (has_key b.key bs) && keys_distinct bs

-- What a question adds to a field: one question, a resolved one, its amount.
pub data Field : Type 0 where
  questions_field resolved_field spend_field : Field

abbrev pub in_bucket : Field → Bucket → ℕ
in_bucket questions_field b = b.questions
in_bucket resolved_field b = b.resolved
in_bucket spend_field b = b.spend_stroops

abbrev pub of_job : Field → PaidJob → ℕ
of_job questions_field job = 1
of_job resolved_field job = resolved_one job
of_job spend_field job = job.amount_stroops
