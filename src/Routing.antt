-- ===== src/Routing.antt =====
-- src/dispatch.js, who gets a question: reputation, eligibility and the targets of a broadcast. A
-- ratio is in hundredths. `suspended` is isCollusionSuspended of src/collusion.js, `stake_of` the
-- cache of stakes, and a worker without a record is one with no outcome.
pub mod Targets
pub mod Reputation
use arbiter_backend.Base.{
  ℕ, zero, suc, ◌+◌, ◌*◌, ◌/◌, String, Bool, true, false, not, ◌||◌, Option, none, some, List, [],
  ◌∷◌, includes, exists, keep, length, leb, ltb, ◌==◌, Assoc, lookup, insert, if◌then◌else◌,
}
use arbiter_backend.Index.{push_bounded}
use arbiter_backend.Pricing.{round_div}

pub record Rep : Type 0 where
  pub matched : ℕ
  pub total : ℕ

pub record Reputations : Type 0 where
  pub reps : Assoc Rep  -- `rep:{workerId}`
  pub known_worker_ids : List String

abbrev pub max_tracked_workers : ℕ
max_tracked_workers = 5_000

abbrev pub or_fresh : Option Rep → Rep
or_fresh none = record { matched = 0; total = 0 }
or_fresh (some r) = r

unfoldable pub get_reputation : String → Reputations → Rep
get_reputation worker_id s = or_fresh (lookup worker_id s.reps)

-- The analytics that follow are observability only, and not modelled.
unfoldable pub record_outcome : String → Bool → Reputations → Reputations
unfolding get_reputation
record_outcome worker_id matched s =
    let rec = get_reputation worker_id s in
    let next : Rep = record {
      matched = if matched then rec.matched + 1 else rec.matched;
      total = rec.total + 1;
    } in
    record {
      reps = insert worker_id next s.reps;
      known_worker_ids =
          if rec.total == 0
          then push_bounded worker_id max_tracked_workers s.known_worker_ids
          else s.known_worker_ids;
    }

unfoldable pub stake_gate_allows : Option ℕ → ℕ → Bool
stake_gate_allows cached_stake zero = true
stake_gate_allows none (suc _) = true
stake_gate_allows (some stake) (suc least) = leb (suc least) stake

pub record Gate : Type 0 where
  pub min_answers : ℕ  -- minAnswersBeforeReputationGate
  pub min_match_ratio : ℕ  -- in hundredths
  pub min_stake : ℕ

pub record Worker : Type 0 where
  pub id : String
  pub categories : List String

abbrev pub non_empty_or {ℓ} : {A : Type ℓ} → List A → List A → List A
non_empty_or [] other = other
non_empty_or (x ∷ xs) other = x ∷ xs

module _ (suspended : String → Bool) (stake_of : String → Option ℕ) (gate : Gate)
    (s : Reputations) where
  unfoldable pub is_eligible : String → Bool
  unfolding stake_gate_allows get_reputation
  is_eligible worker_id =
      let rep = get_reputation worker_id s in
      if suspended worker_id
      then false
      else if ltb rep.total gate.min_answers
      then true
      else if ltb (100 * rep.matched) (gate.min_match_ratio * rep.total)
      then false
      else stake_gate_allows (stake_of worker_id) gate.min_stake

  unfoldable pub is_established_worker : String → Bool
  unfolding get_reputation
  is_established_worker worker_id = leb gate.min_answers (get_reputation worker_id s).total

  -- `category` is normalized.
  abbrev pub takes : String → Worker → Bool
  takes category w = (length w.categories == 0) || includes w.categories category

  abbrev pub in_category : Option String → List Worker → List Worker
  in_category none ws = ws
  in_category (some category) ws = non_empty_or (keep (takes category) ws) ws

  abbrev pub preferring : Bool → ℕ → List Worker → List Worker
  preferring false quorum_size pool = pool
  preferring true quorum_size pool =
      let established = keep (λ w. is_established_worker w.id) pool in
      if leb quorum_size (length established) then established else pool

  abbrev pub soft_filters : Option String → Bool → ℕ → List Worker → List Worker
  soft_filters category prefer_established quorum_size targets =
      let matching = in_category category targets in
      let eligible = keep (λ w. is_eligible w.id) matching in
      preferring prefer_established quorum_size (non_empty_or eligible matching)

  -- A list of no worker, once the whitelist is applied, is answered at once.
  unfoldable pub select_targets :
      Option String → Bool → ℕ → Option (List String) → List Worker → List Worker
  unfolding is_eligible is_established_worker
  select_targets category prefer_established quorum_size none workers =
      soft_filters category prefer_established quorum_size workers
  select_targets category prefer_established quorum_size (some whitelist) workers =
      let allowed = keep (λ w. includes whitelist w.id) workers in
      if length allowed == 0
      then []
      else soft_filters category prefer_established quorum_size allowed

abbrev pub sum : List ℕ → ℕ
sum [] = 0
sum (n ∷ ns) = n + sum ns

unfoldable pub compute_smoothed_count : List ℕ → ℕ → ℕ
compute_smoothed_count [] current_count = current_count
compute_smoothed_count (n ∷ ns) current_count = round_div (sum (n ∷ ns)) (length (n ∷ ns))
