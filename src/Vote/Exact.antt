-- ===== src/Vote/Exact.antt =====
-- The exact-match vote against the votes of its submissions.
use arbiter_backend.Base.{
  ℕ, suc, ◌≤◌, String, ◌≡◌, ◌≢◌, ◌↔◌, refl, sym, ap, ◌∙◌, true, none, some, List, [], ◌∷◌, arith,
  ◌==◌, eq_refl, length, All, Assoc, inl, inr, Option-cases,
}
use arbiter_backend.Vote.{
  Submission, Group, VoteResult, best_group, result_of, group_answers, values, exact_match_vote,
}
use arbiter_backend.Vote.Winner.{size, best_group-some, best_group-All, best_group-longest}
use arbiter_backend.Vote.Groups.{
  ids, answering, ballot, Found, Found-self, lookup-values, distinct-group_answers, lookup-ballot,
  ballot-representative,
}

length-ids : (ss : List Submission) → length (ids ss) ≡ length ss
length-ids [] = refl
length-ids (s ∷ ss) = ap suc (length-ids ss)

module _ (normalize : String → String) where
  -- The ballot of the winner's own answer is the winner.
  abbrev IsBallot : List Submission → Group → Type 0
  IsBallot ss g = ballot normalize (answering normalize (normalize g.representative) ss) ≡ some g

  Found-IsBallot :
      (ss : List Submission) (m : Assoc Group)
      → Found (group_answers normalize ss []) m
      → All (IsBallot ss) (values m)
  Found-IsBallot ss [] f = tt
  Found-IsBallot ss ((k, g) ∷ m) f =
      let here = sym (lookup-ballot normalize k ss) ∙ f.0 in
      (rw (ballot-representative normalize k ss g here) here, Found-IsBallot ss m f.1)

  values-IsBallot :
      (ss : List Submission) → All (IsBallot ss) (values (group_answers normalize ss []))
  values-IsBallot ss =
      let m = group_answers normalize ss [] in
      Found-IsBallot ss m (Found-self m (distinct-group_answers normalize ss [] refl))

  size-ballot : (l : List Submission) (g : Group) → ballot normalize l ≡ some g → size g ≡ length l
  size-ballot [] g e = cc
  size-ballot (s ∷ l) g e = ground (arith, length-ids l)

  abbrev pub votes : String → List Submission → ℕ
  votes norm ss = length (answering normalize norm ss)

  ballot-none : (l : List Submission) → ballot normalize l ≡ none → length l ≡ 0
  ballot-none [] e = refl
  ballot-none (s ∷ l) e = cc

  votes-le :
      (ss : List Submission) (bound : ℕ)
      → All (λ g. size g ≤ bound) (values (group_answers normalize ss []))
      → (norm : String) → votes norm ss ≤ bound
  votes-le ss bound a norm = elim (Option-cases (ballot normalize (answering normalize norm ss))) [
    | inl e ↦ omega (arith, ballot-none (answering normalize norm ss) e)
    | inr (g, e) ↦ omega (
      arith,
      size-ballot (answering normalize norm ss) g e,
      lookup-values (λ x. size x ≤ bound) norm g (group_answers normalize ss []) a
          (lookup-ballot normalize norm ss ∙ e),
    )
  ]

  winner_lem :
      (ss : List Submission) (gs : List Group) (g : Group)
      → best_group none gs ≡ some g
      → All (IsBallot ss) gs
      → IsBallot ss g × All (λ x. size x ≤ size g) gs
  unfolding best_group
  winner_lem ss [] g e a = cc
  winner_lem ss (w ∷ gs) g e a =
      let (w_le, rest) = best_group-longest w g gs e in
      (best_group-All (IsBallot ss) w g gs a.0 a.1 e, (w_le, rest))

  best_group-none : (gs : List Group) → best_group none gs ≡ none → gs ≡ []
  unfolding best_group
  best_group-none [] e = refl
  best_group-none (w ∷ gs) e = let (g, q) = best_group-some w gs in cc

  no-winner :
      (s : Submission) (ss : List Submission)
      → best_group none (values (group_answers normalize (s ∷ ss) [])) ≢ none
  no-winner s ss e =
      let empty = best_group-none (values (group_answers normalize (s ∷ ss) [])) e in
      ground (
        arith,
        eq_refl (normalize s.answer),
        votes-le (s ∷ ss) 0 (rw empty tt) (normalize s.answer),
      )

  -- Every vote over at least one submission has a result.
  pub exact_match_vote-some :
      (s : Submission) (ss : List Submission)
      → (r : VoteResult) × (exact_match_vote normalize (s ∷ ss) ≡ some r)
  unfolding exact_match_vote
  exact_match_vote-some s ss =
      elim (Option-cases (best_group none (values (group_answers normalize (s ∷ ss) [])))) [
        | inl e ↦ absurd (no-winner s ss e)
        | inr (g, e) ↦ (
          record {
            consensus = g.representative;
            agreeing = size g;
            total = length (s ∷ ss);
            matching_worker_ids = g.worker_ids;
            all_agree = size g == length (s ∷ ss);
          },
          ap (result_of (length (s ∷ ss))) e,
        )
      ]

  -- The result of the vote: the consensus is the first submitted of the answers that normalize as it
  -- does, the matching workers are those who gave one of these, in order, no other normalized answer
  -- has more votes, and all agree exactly if every submission is among them.
  pub exact_match_vote_lem :
      (ss : List Submission) (r : VoteResult)
      → exact_match_vote normalize ss ≡ some r
      → (ballot normalize (answering normalize (normalize r.consensus) ss)
          ≡ some (record { representative = r.consensus; worker_ids = r.matching_worker_ids }))
        × ((norm : String) → votes norm ss ≤ r.agreeing)
        × (r.agreeing ≡ votes (normalize r.consensus) ss)
        × (r.total ≡ length ss)
        × ((r.all_agree ≡ true) ↔ (votes (normalize r.consensus) ss ≡ length ss))
  unfolding exact_match_vote
  exact_match_vote_lem ss r e =
      let m = values (group_answers normalize ss []) in
      elim (Option-cases (best_group none m)) [
        | inl n ↦ cc (ap (result_of (length ss)) n)
        | inr (g, q) ↦
            let found = ap (result_of (length ss)) q in
            let (b, most) = winner_lem ss m g q (values-IsBallot ss) in
            let sized = size-ballot (answering normalize (normalize g.representative) ss) g b in
            (
              ground (arith, found, b),
              (λ norm. ground (arith, found, votes-le ss (size g) most norm)),
              ground (arith, found, sized),
              ground (arith, found),
              (ground (arith, found, sized), ground (arith, found, sized)),
            )
      ]
