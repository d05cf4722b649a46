-- ===== src/Vote.antt =====
-- The votes over submitted answers: exactMatchVote of src/vote.js (and groupByNormalizedAnswer, the
-- same grouping, of src/reconcile.js), clusterVote of src/reconcile.js. `normalize` and `tokenize`
-- are the runtime's text functions that the code chains. A confidence is the exact ratio of
-- `agreeing` to `total`. An empty list of submissions makes the code throw, which is `none`.
pub mod Groups
pub mod Winner
pub mod Exact
pub mod Cluster
use arbiter_backend.Base.{
  ℕ, zero, suc, ◌+◌, ◌-◌, ◌*◌, String, Bool, true, false, not, ◌||◌, ◌&&◌, Option, none, some, List,
  [], ◌∷◌, ◌++◌, map, ltb, leb, ◌==◌, str_eq, keep, length, includes, unique, if◌then◌else◌, Assoc,
  lookup, insert,
}

pub record Submission : Type 0 where
  pub worker_id : String
  pub answer : String

pub record Group : Type 0 where
  pub representative : String
  pub worker_ids : List String

pub record VoteResult : Type 0 where
  pub consensus : String
  pub agreeing : ℕ
  pub total : ℕ
  pub matching_worker_ids : List String
  pub all_agree : Bool

-- The first of the longest groups.
unfoldable pub best_group : Option Group → List Group → Option Group
best_group winner [] = winner
best_group none (g ∷ gs) = best_group (some g) gs
best_group (some w) (g ∷ gs) =
    best_group (if ltb (length w.worker_ids) (length g.worker_ids) then some g else some w) gs

abbrev pub result_of : ℕ → Option Group → Option VoteResult
result_of total none = none
result_of total (some w) = some (record {
  consensus = w.representative;
  agreeing = length w.worker_ids;
  total = total;
  matching_worker_ids = w.worker_ids;
  all_agree = length w.worker_ids == total;
})

-- `groups.values()`
abbrev pub values : Assoc Group → List Group
values [] = []
values ((k, g) ∷ m) = g ∷ values m

module _ (normalize : String → String) where
  abbrev pub joined : Option Group → Submission → Group
  joined none s = record { representative = s.answer; worker_ids = s.worker_id ∷ [] }
  joined (some g) s = record g { worker_ids = g.worker_ids ++ s.worker_id ∷ [] }

  -- One round of the loop: the group is made if the answer is new, and the worker is added to it.
  unfoldable pub add_answer : Submission → Assoc Group → Assoc Group
  add_answer s groups =
      let norm = normalize s.answer in insert norm (joined (lookup norm groups) s) groups

  unfoldable pub group_answers : List Submission → Assoc Group → Assoc Group
  unfolding add_answer
  group_answers [] groups = groups
  group_answers (s ∷ ss) groups = group_answers ss (add_answer s groups)

  unfoldable pub group_by_normalized_answer : List Submission → List Group
  unfolding group_answers
  group_by_normalized_answer submissions = values (group_answers submissions [])

  unfoldable pub exact_match_vote : List Submission → Option VoteResult
  unfolding group_answers best_group
  exact_match_vote submissions =
      result_of (length submissions) (best_group none (values (group_answers submissions [])))

-- How many of the first list are in the second.
abbrev pub common : List String → List String → ℕ
common [] ys = 0
common (x ∷ xs) ys = let rest = common xs ys in if includes ys x then suc rest else rest

-- Jaccard similarity of the token sets against the threshold 0.6, both sides multiplied out.
module _ (tokenize : String → List String) where
  unfoldable pub is_similar : String → String → Bool
  is_similar a b =
      let set_a = unique (tokenize a) in
      let set_b = unique (tokenize b) in
      let intersection = common set_a set_b in
      let union = length set_a + length set_b - intersection in
      if length (tokenize a) == 0 && length (tokenize b) == 0
      then true
      else if length (tokenize a) == 0 || length (tokenize b) == 0
      then false
      else leb (6 * union) (10 * intersection) && not (union == 0)

  -- The first cluster whose representative is similar takes the worker; else a new one is last.
  unfoldable pub join_cluster : Submission → List Group → List Group
  unfolding is_similar
  join_cluster s [] = record { representative = s.answer; worker_ids = s.worker_id ∷ [] } ∷ []
  join_cluster s (c ∷ cs) =
      let rest = join_cluster s cs in
      if is_similar s.answer c.representative
      then record c { worker_ids = c.worker_ids ++ s.worker_id ∷ [] } ∷ cs
      else c ∷ rest

  unfoldable pub cluster_answers : List Submission → List Group → List Group
  unfolding join_cluster
  cluster_answers [] clusters = clusters
  cluster_answers (s ∷ ss) clusters = cluster_answers ss (join_cluster s clusters)

  -- The result with its `clusterCount`.
  unfoldable pub cluster_vote : List Submission → Option (VoteResult × ℕ)
  unfolding cluster_answers best_group
  cluster_vote submissions =
      let clusters = cluster_answers submissions [] in
      elim (result_of (length submissions) (best_group none clusters)) [
        | none ↦ none
        | some r ↦ some (r, length clusters)
      ]
