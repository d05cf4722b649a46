-- ===== src/Payers/Spend/Totals.antt =====
-- The totals over the buckets of bucketPayerSpend (src/payerIndex.js), as a question is added and
-- as the buckets are sorted.
use arbiter_backend.Base.{
  ℕ, ◌+◌, String, ◌≡◌, refl, sym, ◌∙◌, Bool, Option, List, [], ◌∷◌, arith, if◌then◌else◌,
  Bool-cases, inl, inr,
}
use arbiter_backend.Payers.{PaidJob}
use arbiter_backend.Payers.Spend.{
  Bucket, Field, add_to, bucket_with, held, held_in, in_bucket, insert_by, is_key, of_job,
  questions_field, resolved_field, sort_by, spend_field,
}
use arbiter_backend.Payers.Spend.Keys.{is_key-eq}

in_bucket-with :
    (f : Field) (job : PaidJob) (b : Bucket)
    → in_bucket f (bucket_with job b) ≡ in_bucket f b + of_job f job
in_bucket-with questions_field job b = omega arith
in_bucket-with resolved_field job b = refl
in_bucket-with spend_field job b = refl

held_in-new :
    (f : Field) (key k : Option String) (job : PaidJob)
    → held_in (in_bucket f) k (add_to key job []) ≡ (if is_key key k then of_job f job else 0)
held_in-new questions_field key k job = ground arith
held_in-new resolved_field key k job = ground arith
held_in-new spend_field key k job = ground arith

pub held_in-add_to :
    (f : Field) (key k : Option String) (job : PaidJob) (m : List Bucket)
    → held_in (in_bucket f) k (add_to key job m)
      ≡ (if is_key key k then of_job f job else 0) + held_in (in_bucket f) k m
held_in-add_to f key k job [] = ground (arith, held_in-new f key k job)
held_in-add_to f key k job (b ∷ bs) = elim (Bool-cases (is_key b.key key)) [
  | inl t ↦
      let same : key ≡ b.key = sym (is_key-eq b.key key t) in
      rw (t, same) (ground (arith, in_bucket-with f job b))
  | inr t ↦ rw t (ground (arith, held_in-add_to f key k job bs))
]

held_in-insert_by :
    (before : Bucket → Bucket → Bool) (f : Bucket → ℕ) (k : Option String) (b : Bucket)
    (bs : List Bucket)
    → held_in f k (insert_by before b bs) ≡ held_in f k (b ∷ bs)
held_in-insert_by before f k b [] = refl
held_in-insert_by before f k b (c ∷ cs) = ground (arith, held_in-insert_by before f k b cs)

pub held_in-sort_by :
    (before : Bucket → Bucket → Bool) (f : Bucket → ℕ) (k : Option String) (bs : List Bucket)
    → held_in f k (sort_by before bs) ≡ held_in f k bs
held_in-sort_by before f k [] = refl
held_in-sort_by before f k (b ∷ bs) =
    held_in-insert_by before f k b (sort_by before bs)
    ∙ ground (arith, held_in-sort_by before f k bs)

pub held-add_to :
    (f : Field) (key : Option String) (job : PaidJob) (m : List Bucket)
    → held (in_bucket f) (add_to key job m) ≡ of_job f job + held (in_bucket f) m
held-add_to questions_field key job [] = omega arith
held-add_to resolved_field key job [] = omega arith
held-add_to spend_field key job [] = omega arith
held-add_to f key job (b ∷ bs) = ground (arith, held-add_to f key job bs, in_bucket-with f job b)

held-insert_by :
    (before : Bucket → Bucket → Bool) (f : Bucket → ℕ) (b : Bucket) (bs : List Bucket)
    → held f (insert_by before b bs) ≡ held f (b ∷ bs)
held-insert_by before f b [] = refl
held-insert_by before f b (c ∷ cs) = ground (arith, held-insert_by before f b cs)

pub held-sort_by :
    (before : Bucket → Bucket → Bool) (f : Bucket → ℕ) (bs : List Bucket)
    → held f (sort_by before bs) ≡ held f bs
held-sort_by before f [] = refl
held-sort_by before f (b ∷ bs) =
    held-insert_by before f b (sort_by before bs) ∙ ground (arith, held-sort_by before f bs)
