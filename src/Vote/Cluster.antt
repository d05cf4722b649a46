-- ===== src/Vote/Cluster.antt =====
-- The vote over clusters of similar answers.
use arbiter_backend.Base.{
  ℕ, suc, ◌+◌, ◌*◌, ◌≤◌, String, ◌≡◌, refl, none, some, List, [], ◌∷◌, ◌++◌, arith, ltb, str_eq,
  length, All, if◌then◌else◌, Bool-cases, inl, inr, Option-cases,
}
use arbiter_backend.Vote.{
  Submission, Group, VoteResult, best_group, is_similar, join_cluster, cluster_answers,
  cluster_vote,
}
use arbiter_backend.Vote.Groups.{ids}
use arbiter_backend.Vote.Winner.{size, best_group-longest}

-- How often a worker stands in a list of ids, and in the clusters.
abbrev pub occurrences : String → List String → ℕ
occurrences w [] = 0
occurrences w (x ∷ xs) = let rest = occurrences w xs in if str_eq x w then suc rest else rest

abbrev pub in_clusters : String → List Group → ℕ
in_clusters w [] = 0
in_clusters w (c ∷ cs) = occurrences w c.worker_ids + in_clusters w cs

occurrences-snoc :
    (w x : String) (xs : List String)
    → occurrences w (xs ++ x ∷ []) ≡ occurrences w xs + (if str_eq x w then 1 else 0)
occurrences-snoc w x [] = ground arith
occurrences-snoc w x (y ∷ xs) = ground (arith, occurrences-snoc w x xs)

abbrev pub sizes : List Group → ℕ
sizes [] = 0
sizes (c ∷ cs) = size c + sizes cs

length-snoc : (x : String) (xs : List String) → length (xs ++ x ∷ []) ≡ length xs + 1
length-snoc x [] = omega arith
length-snoc x (y ∷ xs) = omega (arith, length-snoc x xs)

module _ (tokenize : String → List String) where
  in_clusters-join_cluster :
      (w : String) (s : Submission) (cs : List Group)
      → in_clusters w (join_cluster tokenize s cs)
        ≡ in_clusters w cs + (if str_eq s.worker_id w then 1 else 0)
  unfolding join_cluster
  in_clusters-join_cluster w s [] = ground arith
  in_clusters-join_cluster w s (c ∷ cs) =
      elim (Bool-cases (is_similar tokenize s.answer c.representative)) [
        | inl e ↦ rw e (omega (arith, occurrences-snoc w s.worker_id c.worker_ids))
        | inr e ↦ rw e (omega (arith, in_clusters-join_cluster w s cs))
      ]

  in_clusters-cluster_answers :
      (w : String) (ss : List Submission) (cs : List Group)
      → in_clusters w (cluster_answers tokenize ss cs) ≡ in_clusters w cs + occurrences w (ids ss)
  unfolding cluster_answers
  in_clusters-cluster_answers w [] cs = omega arith
  in_clusters-cluster_answers w (s ∷ ss) cs = ground (
    arith,
    in_clusters-cluster_answers w ss (join_cluster tokenize s cs),
    in_clusters-join_cluster w s cs,
  )

  sizes-join_cluster :
      (s : Submission) (cs : List Group) → sizes (join_cluster tokenize s cs) ≡ sizes cs + 1
  unfolding join_cluster
  sizes-join_cluster s [] = refl
  sizes-join_cluster s (c ∷ cs) =
      elim (Bool-cases (is_similar tokenize s.answer c.representative)) [
        | inl e ↦ rw e (omega (arith, length-snoc s.worker_id c.worker_ids))
        | inr e ↦ rw e (omega (arith, sizes-join_cluster s cs))
      ]

  sizes-cluster_answers :
      (ss : List Submission) (cs : List Group)
      → sizes (cluster_answers tokenize ss cs) ≡ sizes cs + length ss
  unfolding cluster_answers
  sizes-cluster_answers [] cs = omega arith
  sizes-cluster_answers (s ∷ ss) cs =
      omega (arith, sizes-cluster_answers ss (join_cluster tokenize s cs), sizes-join_cluster s cs)

  -- Every submission is counted in exactly one cluster: a worker stands in the clusters as often as
  -- among the submissions, and the cluster sizes add up to the number of submissions.
  pub clusters_partition :
      (ss : List Submission)
      → ((w : String) → in_clusters w (cluster_answers tokenize ss []) ≡ occurrences w (ids ss))
        × (sizes (cluster_answers tokenize ss []) ≡ length ss)
  clusters_partition ss = (
    (λ w. omega (arith, in_clusters-cluster_answers w ss [])),
    omega (arith, sizes-cluster_answers ss []),
  )

  sizes-le :
      (bound : ℕ) (cs : List Group) → All (λ c. size c ≤ bound) cs → sizes cs ≤ length cs * bound
  sizes-le bound [] a = omega arith
  sizes-le bound (c ∷ cs) a = grind (arith, sizes-le bound cs a.1)

  winner-sizes :
      (w g : Group) (gs : List Group)
      → best_group (some w) gs ≡ some g
      → (size g ≤ size w + sizes gs) × (All (λ c. size c ≤ size g) (w ∷ gs))
  unfolding best_group
  winner-sizes w g [] e = ground arith
  winner-sizes w g (x ∷ gs) e =
      let all = best_group-longest w g (x ∷ gs) e in
      elim (Bool-cases (ltb (size w) (size x))) [
        | inl l ↦ (omega (arith, (winner-sizes x g gs (rw l at e)).0), all)
        | inr l ↦ (omega (arith, (winner-sizes w g gs (rw l at e)).0), all)
      ]

  winner_bounds :
      (cs : List Group) (g : Group)
      → best_group none cs ≡ some g
      → (size g ≤ sizes cs) × (sizes cs ≤ length cs * size g)
  unfolding best_group
  winner_bounds [] g e = cc
  winner_bounds (w ∷ gs) g e =
      let (a, b) = winner-sizes w g gs e in (a, sizes-le (size g) (w ∷ gs) b)

  -- The winning cluster is one of at least average size and never larger than the vote.
  pub cluster_vote_bounds :
      (ss : List Submission) (r : VoteResult) (n : ℕ)
      → cluster_vote tokenize ss ≡ some (r, n)
      → (r.total ≡ length ss) × (r.agreeing ≤ r.total) × (r.total ≤ n * r.agreeing)
  unfolding cluster_vote
  cluster_vote_bounds ss r n e =
      let cs = cluster_answers tokenize ss [] in
      elim (Option-cases (best_group none cs)) [
        | inl q ↦ ground (arith, q)
        | inr (g, q) ↦ ground (
          arith,
          q,
          (winner_bounds cs g q).0,
          (winner_bounds cs g q).1,
          (clusters_partition ss).1,
        )
      ]
