-- ===== src/Vote/Groups.antt =====
-- What the groups of the exact-match vote hold, and who wins it.
use arbiter_backend.Base.{
  String, ◌≡◌, refl, sym, ◌∙◌, true, false, Option, none, some, List, [], ◌∷◌, ◌++◌, ◌||◌, arith,
  str_eq, eq_iff, eq_refl, keep, All, Assoc, lookup, insert, lookup-insert, Bool-cases, inl, inr,
  includes, distinct,
}
use mathlib.Core.Path.{subst}
use mathlib.Core.Option.{some-injective}
use mathlib.Core.List.{append-nil, append_assoc}
use arbiter_backend.Vote.{Submission, Group, joined, add_answer, group_answers, values}

abbrev pub ids : List Submission → List String
ids [] = []
ids (s ∷ ss) = s.worker_id ∷ ids ss

module _ (normalize : String → String) where
  -- The submissions whose answer normalizes to `norm`, in their order.
  abbrev pub answering : String → List Submission → List Submission
  answering norm = keep (λ s. str_eq (normalize s.answer) norm)

  -- A group that `ss` are added to.
  abbrev grown : Option Group → List Submission → Option Group
  grown none [] = none
  grown none (s ∷ ss) =
      some (record { representative = s.answer; worker_ids = s.worker_id ∷ ids ss })
  grown (some g) ss = some (record g { worker_ids = g.worker_ids ++ ids ss })

  grown-nil : (o : Option Group) → grown o [] ≡ o
  grown-nil none = refl
  grown-nil (some g) = rw append-nil

  grown-joined :
      (o : Option Group) (s : Submission) (ss : List Submission)
      → grown (some (joined normalize o s)) ss ≡ grown o (s ∷ ss)
  grown-joined none s ss = refl
  grown-joined (some g) s ss = rw append_assoc

  lookup-group_answers :
      (norm : String) (ss : List Submission) (m : Assoc Group)
      → lookup norm (group_answers normalize ss m) ≡ grown (lookup norm m) (answering norm ss)
  unfolding group_answers
  lookup-group_answers norm [] m = sym (grown-nil (lookup norm m))
  lookup-group_answers norm (s ∷ ss) m =
      let k = normalize s.answer in
      lookup-group_answers norm ss (add_answer normalize s m)
      ∙ ground (
        arith,
        lookup-insert k norm (joined normalize (lookup k m) s) m,
        grown-joined (lookup k m) s (answering norm ss),
        eq_iff k norm,
      )

abbrev pub keys : Assoc Group → List String
keys [] = []
keys ((k, g) ∷ m) = k ∷ keys m

includes-keys-insert :
    (k j : String) (g : Group) (m : Assoc Group)
    → includes (keys (insert k g m)) j ≡ (includes (keys m) j || str_eq k j)
unfolding insert
includes-keys-insert k j g [] = ground arith
includes-keys-insert k j g ((i, h) ∷ m) =
    ground (arith, includes-keys-insert k j g m, eq_iff i k, eq_iff i j, eq_iff k j)

distinct-keys-insert :
    (k : String) (g : Group) (m : Assoc Group)
    → distinct (keys m) ≡ true
    → distinct (keys (insert k g m)) ≡ true
unfolding insert
distinct-keys-insert k g [] d = refl
distinct-keys-insert k g ((i, h) ∷ m) d =
    ground (arith, distinct-keys-insert k g m, includes-keys-insert k i g m, eq_iff i k, eq_iff k i)

-- Every entry is found under its key.
abbrev pub Found : Assoc Group → Assoc Group → Type 0
Found whole = All (λ e. lookup e.0 whole ≡ some e.1)

Found-cons :
    (k : String) (g : Group) (whole m : Assoc Group)
    → includes (keys m) k ≡ false
    → Found whole m
    → Found ((k, g) ∷ whole) m
unfolding lookup
Found-cons k g whole [] n f = tt
Found-cons k g whole ((j, h) ∷ m) n f =
    (ground (arith, f.0, eq_iff k j, eq_iff j k), Found-cons k g whole m (ground arith) f.1)

pub Found-self : (m : Assoc Group) → distinct (keys m) ≡ true → Found m m
unfolding lookup
Found-self [] d = tt
Found-self ((k, g) ∷ m) d =
    (ground (arith, eq_refl k), Found-cons k g m m (ground arith) (Found-self m (ground arith)))

pub lookup-values {ℓ} :
    (P : Group → Type ℓ) (n : String) (g : Group) (m : Assoc Group)
    → All P (values m)
    → lookup n m ≡ some g
    → P g
unfolding lookup
lookup-values P n g [] a e = cc
lookup-values P n g ((k, h) ∷ m) a e = elim (Bool-cases (str_eq k n)) [
  | inl q ↦ subst P (some-injective h g (rw q at e)) a.0
  | inr q ↦ lookup-values P n g m a.1 (rw q at e)
]

module _ (normalize : String → String) where
  pub distinct-group_answers :
      (ss : List Submission) (m : Assoc Group)
      → distinct (keys m) ≡ true
      → distinct (keys (group_answers normalize ss m)) ≡ true
  unfolding group_answers
  distinct-group_answers [] m d = d
  distinct-group_answers (s ∷ ss) m d = distinct-group_answers ss (add_answer normalize s m) (
      distinct-keys-insert (normalize s.answer) (joined normalize (lookup (normalize s.answer) m) s)
        m d)

  -- The group that submissions of one normalized answer make: the first answer, all their workers.
  abbrev pub ballot : List Submission → Option Group
  ballot [] = none
  ballot (s ∷ ss) = some (record { representative = s.answer; worker_ids = s.worker_id ∷ ids ss })

  pub lookup-ballot :
      (n : String) (ss : List Submission)
      → lookup n (group_answers normalize ss []) ≡ ballot (answering normalize n ss)
  unfolding lookup
  lookup-ballot n ss = lookup-group_answers normalize n ss [] ∙ to_ballot (answering normalize n ss)
    where
      to_ballot : (l : List Submission) → grown normalize none l ≡ ballot l
      to_ballot [] = refl
      to_ballot (s ∷ l) = refl

  pub ballot-representative :
      (n : String) (ss : List Submission) (g : Group)
      → ballot (answering normalize n ss) ≡ some g
      → normalize g.representative ≡ n
  ballot-representative n [] g e = cc
  ballot-representative n (s ∷ ss) g e =
      ground (arith, ballot-representative n ss g, eq_iff (normalize s.answer) n)
