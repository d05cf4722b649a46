-- ===== src/Examples/Money.antt =====
-- Credit, webhooks, prices, votes, dispatch and settlement, limits and maintenance windows.
use arbiter_backend.Base.{
  if◌then◌else◌, ltb, ℕ, ◌+◌, ◌-◌, ◌≤◌, ◌<◌, String, ◌≡◌, ◌↔◌, refl, true, false, none, some, List,
  [], ◌∷◌, arith, length, lookup, insert,
}
use arbiter_backend.Store.{balance, view}
use arbiter_backend.Pricing.{resolve_tier, price_for_tier}
use arbiter_backend.Credit.{
  Credits, insufficient_credit, accepted, ask_with_credit, StripeEvent, checkout_completed, Ledger,
  handle_stripe_webhook,
}
use arbiter_backend.Credit.Reservation.{
  due, told, ceiling_of, ask_with_credit_lem, priority_shortfall,
}
use arbiter_backend.Credit.Webhook.{deliver_all, webhook_once}
use arbiter_backend.Vote.{VoteResult, exact_match_vote, cluster_answers, cluster_vote}
use arbiter_backend.Vote.Groups.{ids, answering, ballot}
use arbiter_backend.Vote.Exact.{votes, exact_match_vote_lem}
use arbiter_backend.Vote.Cluster.{in_clusters, occurrences, sizes, clusters_partition}
use arbiter_backend.Maintenance.{Window}
use arbiter_backend.RateLimit.{Budget}
use arbiter_backend.RateLimit.Window.{check_all, admitted, rate_limit_admits}
use arbiter_backend.Vote

abbrev rich : Credits
rich = ("acc", record { value = 900_000_000; expires_at = none }) ∷ []

ask_with_credit_lem_example :
    let (after, answer) = ask_with_credit "acc" "standard" (some 1_200_000) rich in
    let refused = ltb (balance rich "acc") (ceiling_of "standard") in
    let paid = if refused then 0 else due (some 1_200_000) (ceiling_of "standard") in
    (answer ≡ (if refused then insufficient_credit else told (some 1_200_000)))
    × (balance after "acc" ≡ balance rich "acc" - paid)
    × (paid ≤ balance rich "acc")
ask_with_credit_lem_example = ask_with_credit_lem "acc" "standard" (some 1_200_000) rich "acc"

priority_shortfall_example :
    ((ask_with_credit "acc" "priority" (some (price_for_tier "priority" 0).price_stroops) rich).1
      ≡ accepted (price_for_tier "priority" 0).price_stroops)
    × (balance
            (ask_with_credit "acc" "priority"
              (some (price_for_tier "priority" 0).price_stroops)
              rich).0
            "acc"
          + ceiling_of "priority"
        ≡ balance rich "acc")
    × (ceiling_of "priority" < (price_for_tier "priority" 0).price_stroops)
unfolding balance lookup resolve_tier
priority_shortfall_example = priority_shortfall "acc" 0 rich (omega arith) (omega arith)

abbrev quiet : ℕ → Credits → Credits
quiet n c = c

abbrev a_checkout : StripeEvent
a_checkout = record {
  id = "evt";
  type = checkout_completed;
  metadata_account = some "acc";
  payment_intent = some "pi";
  amount_total = 500;
  amount_refunded = 0;
  amount = 0;
}

abbrev a_credit_ledger : Ledger
a_credit_ledger = record {
  credits = rich;
  events = [];
  intents = [];
  reversals = λ a. [];
  reversal_accounts = [];
}

webhook_once_example :
    deliver_all 10_000_000 quiet a_checkout
      (2 ∷ 3 ∷ [])
      (handle_stripe_webhook 10_000_000 quiet a_checkout 1 a_credit_ledger)
    ≡ handle_stripe_webhook 10_000_000 quiet a_checkout 1 a_credit_ledger
unfolding view lookup
webhook_once_example =
    webhook_once 10_000_000 quiet a_checkout 1 (2 ∷ 3 ∷ []) a_credit_ledger refl refl
      (omega arith, (omega arith, tt))

abbrev same : String → String
same t = t

abbrev one_word : String → List String
one_word t = t ∷ []

abbrev three_votes : List Vote.Submission
three_votes =
    record { worker_id = "w1"; answer = "yes" }
    ∷ record { worker_id = "w2"; answer = "no" }
    ∷ record { worker_id = "w3"; answer = "yes" }
    ∷ []

abbrev yes_wins : VoteResult
yes_wins = record {
  consensus = "yes";
  agreeing = 2;
  total = 3;
  matching_worker_ids = "w1" ∷ "w3" ∷ [];
  all_agree = false;
}

exact_match_vote_lem_example :
    (ballot same (answering same "yes" three_votes)
      ≡ some (record { representative = "yes"; worker_ids = "w1" ∷ "w3" ∷ [] }))
    × ((norm : String) → votes same norm three_votes ≤ 2)
    × (2 ≡ votes same "yes" three_votes)
    × (3 ≡ length three_votes)
    × ((false ≡ true) ↔ (votes same "yes" three_votes ≡ length three_votes))
unfolding exact_match_vote insert lookup
exact_match_vote_lem_example = exact_match_vote_lem same three_votes yes_wins refl

clusters_partition_example :
    ((w : String)
      → in_clusters w (cluster_answers one_word three_votes []) ≡ occurrences w (ids three_votes))
    × (sizes (cluster_answers one_word three_votes []) ≡ length three_votes)
clusters_partition_example = clusters_partition one_word three_votes

abbrev a_window : ℕ → ℕ → Window
a_window starts ends = record {
  id = "mw";
  starts_at = starts;
  ends_at = ends;
  reason = none;
  created_at = 0;
  created_by = "admin";
}

abbrev a_ten : String → ℕ
a_ten t = 10

rate_limit_admits_example : admitted (check_all "ip" 2 60 (5 ∷ 50 ∷ 100 ∷ []) []) ≡ 2
unfolding view lookup
rate_limit_admits_example =
    rate_limit_admits "ip" 2 60 5 (5 ∷ 50 ∷ 100 ∷ []) [] (omega arith) (λ t h. refl)
      (omega arith, (omega arith, (omega arith, tt)))

abbrev an_hour : Budget
an_hour = record { cents = 1000; window_ms = 3_600_000 }

abbrev same_key : ℕ → String
same_key n = "1"
