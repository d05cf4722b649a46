-- ===== src/Payers/Spend/Exact.antt =====
-- bucketPayerSpend (src/payerIndex.js) against sums taken straight over the questions.
use arbiter_backend.Base.{
  ℕ, ◌+◌, String, ◌≡◌, refl, ◌∙◌, Bool, true, false, Option, none, some, List, [], ◌∷◌, arith,
  if◌then◌else◌, str_eq,
}
use arbiter_backend.Payers.{PaidJob}
use arbiter_backend.Payers.Spend.{
  Bucket, Field, add_day, add_to, bigger_spend, bucket_payer_spend, by_category, by_day,
  category_of, held, held_in, in_bucket, is_key, keys_distinct, of_job,
}
use arbiter_backend.Payers.Spend.Keys.{keys_distinct-add_to, keys_distinct-sort_by}
use arbiter_backend.Payers.Spend.Totals.{held-add_to, held-sort_by, held_in-add_to, held_in-sort_by}

module _ (normalized : String → String) (day_of : ℕ → String)
    (earlier_day : Bucket → Bucket → Bool) where
  -- The field summed straight from the questions: those of one category, those of one day.
  abbrev pub on_category : Field → Option String → List PaidJob → ℕ
  on_category f k [] = 0
  on_category f k (job ∷ jobs) =
      (if is_key (category_of normalized day_of earlier_day job.category) k
        then of_job f job
        else 0)
      + on_category f k jobs

  abbrev pub dated : Option ℕ → String → Bool
  dated none day = false
  dated (some t) day = str_eq (day_of t) day

  abbrev pub on_day : Field → String → List PaidJob → ℕ
  on_day f day [] = 0
  on_day f day (job ∷ jobs) =
      (if dated job.created_at day then of_job f job else 0) + on_day f day jobs

  by_category-exact :
      (f : Field) (k : Option String) (jobs : List PaidJob) (m : List Bucket)
      → held_in (in_bucket f) k (by_category normalized day_of earlier_day jobs m)
        ≡ on_category f k jobs + held_in (in_bucket f) k m
  by_category-exact f k [] m = omega arith
  by_category-exact f k (job ∷ jobs) m = ground (
    arith,
    by_category-exact f k jobs
        (add_to (category_of normalized day_of earlier_day job.category) job m),
    held_in-add_to f (category_of normalized day_of earlier_day job.category) k job m,
  )

  add_day-exact :
      (f : Field) (day : String) (job : PaidJob) (t : Option ℕ) (m : List Bucket)
      → held_in (in_bucket f) (some day) (add_day normalized day_of earlier_day t job m)
        ≡ (if dated t day then of_job f job else 0) + held_in (in_bucket f) (some day) m
  add_day-exact f day job none m = omega arith
  add_day-exact f day job (some t) m = held_in-add_to f (some (day_of t)) (some day) job m

  by_day-exact :
      (f : Field) (day : String) (jobs : List PaidJob) (m : List Bucket)
      → held_in (in_bucket f) (some day) (by_day normalized day_of earlier_day jobs m)
        ≡ on_day f day jobs + held_in (in_bucket f) (some day) m
  by_day-exact f day [] m = omega arith
  by_day-exact f day (job ∷ jobs) m = ground (
    arith,
    by_day-exact f day jobs (add_day normalized day_of earlier_day job.created_at job m),
    add_day-exact f day job job.created_at m,
  )

  abbrev pub total_of : Field → List PaidJob → ℕ
  total_of f [] = 0
  total_of f (job ∷ jobs) = of_job f job + total_of f jobs

  by_category-held :
      (f : Field) (jobs : List PaidJob) (m : List Bucket)
      → held (in_bucket f) (by_category normalized day_of earlier_day jobs m)
        ≡ total_of f jobs + held (in_bucket f) m
  by_category-held f [] m = omega arith
  by_category-held f (job ∷ jobs) m = ground (
    arith,
    by_category-held f jobs (add_to (category_of normalized day_of earlier_day job.category) job m),
    held-add_to f (category_of normalized day_of earlier_day job.category) job m,
  )

  by_category-distinct :
      (jobs : List PaidJob) (m : List Bucket)
      → keys_distinct m ≡ true
      → keys_distinct (by_category normalized day_of earlier_day jobs m) ≡ true
  by_category-distinct [] m h = h
  by_category-distinct (job ∷ jobs) m h =
      by_category-distinct jobs _ (keys_distinct-add_to _ job m h)

  add_day-distinct :
      (job : PaidJob) (t : Option ℕ) (m : List Bucket)
      → keys_distinct m ≡ true
      → keys_distinct (add_day normalized day_of earlier_day t job m) ≡ true
  add_day-distinct job none m h = h
  add_day-distinct job (some t) m h = keys_distinct-add_to _ job m h

  by_day-distinct :
      (jobs : List PaidJob) (m : List Bucket)
      → keys_distinct m ≡ true
      → keys_distinct (by_day normalized day_of earlier_day jobs m) ≡ true
  by_day-distinct [] m h = h
  by_day-distinct (job ∷ jobs) m h =
      by_day-distinct jobs _ (add_day-distinct job job.created_at m h)

  -- Each category and each UTC day has one bucket at most, and a bucket's number of questions, of
  -- resolved ones and its spend are those summed straight over the questions of that category or
  -- day; over all categories together they are those of all the questions.
  pub bucket_payer_spend_exact :
      (f : Field) (k : Option String) (day : String) (jobs : List PaidJob)
      → held_in (in_bucket f) k (bucket_payer_spend normalized day_of earlier_day jobs).0
          ≡ on_category f k jobs
        × (held_in
              (in_bucket f)
              (some day)
              (bucket_payer_spend normalized day_of earlier_day jobs).1
            ≡ on_day f day jobs)
        × (held (in_bucket f) (bucket_payer_spend normalized day_of earlier_day jobs).0
            ≡ total_of f jobs)
        × (keys_distinct (bucket_payer_spend normalized day_of earlier_day jobs).0 ≡ true)
        × (keys_distinct (bucket_payer_spend normalized day_of earlier_day jobs).1 ≡ true)
  unfolding bucket_payer_spend
  bucket_payer_spend_exact f k day jobs = (
    held_in-sort_by bigger_spend (in_bucket f) k _ ∙ (by_category-exact f k jobs [] ∙ omega arith),
    held_in-sort_by earlier_day (in_bucket f) (some day) _
        ∙ (by_day-exact f day jobs [] ∙ omega arith),
    held-sort_by bigger_spend (in_bucket f) _ ∙ (by_category-held f jobs [] ∙ omega arith),
    keys_distinct-sort_by bigger_spend (by_category normalized day_of earlier_day jobs [])
        ∙ by_category-distinct jobs [] refl,
    keys_distinct-sort_by earlier_day (by_day normalized day_of earlier_day jobs [])
        ∙ by_day-distinct jobs [] refl,
  )
