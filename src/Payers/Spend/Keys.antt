-- ===== src/Payers/Spend/Keys.antt =====
-- The keys of the buckets of bucketPayerSpend (src/payerIndex.js): one bucket for each.
use arbiter_backend.Base.{
  String, ◌≡◌, refl, sym, ◌∙◌, Bool, true, ◌||◌, Option, none, some, List, [], ◌∷◌, arith, eq_iff,
  Bool-cases, inl, inr,
}
use arbiter_backend.Payers.{PaidJob}
use arbiter_backend.Payers.Spend.{
  Bucket, add_to, has_key, insert_by, is_key, keys_distinct, sort_by,
}

pub is_key-eq : (a b : Option String) → is_key a b ≡ true → a ≡ b
is_key-eq none none e = refl
is_key-eq none (some b) e = ground arith
is_key-eq (some a) none e = ground arith
is_key-eq (some a) (some b) e = λ i. some ((eq_iff a b).0 e i)

is_key_refl : (a : Option String) → is_key a a ≡ true
is_key_refl none = refl
is_key_refl (some a) = ground (arith, eq_iff a a)

has_key-add_to :
    (key k : Option String) (job : PaidJob) (m : List Bucket)
    → has_key k (add_to key job m) ≡ (is_key key k || has_key k m)
has_key-add_to key k job [] = ground arith
has_key-add_to key k job (b ∷ bs) = elim (Bool-cases (is_key b.key key)) [
  | inl t ↦ let same : key ≡ b.key = sym (is_key-eq b.key key t) in rw (t, same) (ground arith)
  | inr t ↦ rw t (ground (arith, has_key-add_to key k job bs))
]

is_key-sym : (a b : Option String) → is_key a b ≡ is_key b a
is_key-sym none none = refl
is_key-sym none (some b) = refl
is_key-sym (some a) none = refl
is_key-sym (some a) (some b) = ground (arith, eq_iff a b, eq_iff b a)

pub keys_distinct-add_to :
    (key : Option String) (job : PaidJob) (m : List Bucket)
    → keys_distinct m ≡ true
    → keys_distinct (add_to key job m) ≡ true
keys_distinct-add_to key job [] h = refl
keys_distinct-add_to key job (b ∷ bs) h =
    ground (
      arith,
      keys_distinct-add_to key job bs,
      has_key-add_to key b.key job bs,
      is_key-sym key b.key,
    )

has_key-insert_by :
    (before : Bucket → Bucket → Bool) (k : Option String) (b : Bucket) (bs : List Bucket)
    → has_key k (insert_by before b bs) ≡ has_key k (b ∷ bs)
has_key-insert_by before k b [] = refl
has_key-insert_by before k b (c ∷ cs) = ground (arith, has_key-insert_by before k b cs)

keys_distinct-insert_by :
    (before : Bucket → Bucket → Bool) (b : Bucket) (bs : List Bucket)
    → keys_distinct (insert_by before b bs) ≡ keys_distinct (b ∷ bs)
keys_distinct-insert_by before b [] = refl
keys_distinct-insert_by before b (c ∷ cs) = ground (
  arith,
  keys_distinct-insert_by before b cs,
  has_key-insert_by before c.key b cs,
  is_key-sym b.key c.key,
)

has_key-sort_by :
    (before : Bucket → Bucket → Bool) (k : Option String) (bs : List Bucket)
    → has_key k (sort_by before bs) ≡ has_key k bs
has_key-sort_by before k [] = refl
has_key-sort_by before k (b ∷ bs) =
    has_key-insert_by before k b (sort_by before bs) ∙ ground (arith, has_key-sort_by before k bs)

pub keys_distinct-sort_by :
    (before : Bucket → Bucket → Bool) (bs : List Bucket)
    → keys_distinct (sort_by before bs) ≡ keys_distinct bs
keys_distinct-sort_by before [] = refl
keys_distinct-sort_by before (b ∷ bs) =
    keys_distinct-insert_by before b (sort_by before bs)
    ∙ ground (arith, keys_distinct-sort_by before bs, has_key-sort_by before b.key bs)
