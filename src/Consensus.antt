-- ===== src/Consensus.antt =====
-- src/consensus.js and src/retry.js: the consensus rule of a payer, the vote with a tolerance, and
-- calls that are retried. A number of an answer or a tolerance is a whole number of units, of which
-- `one` make 1: with units of 2 ^ -1074 each finite number of JavaScript is such a one. Differences,
-- sums and products are exact, where JavaScript rounds. `parse` is parseNumericAnswer.
pub mod Near
pub mod Leading
use arbiter_backend.Base.{
  ℕ, zero, suc, ◌+◌, ◌-◌, ◌*◌, ℤ, abs, distance, String, Bool, true, false, not, ◌&&◌, ◌||◌, Option,
  none, some, List, [], ◌∷◌, map, keep, length, leb, ltb, ◌==◌, str_eq, if◌then◌else◌,
}
use arbiter_backend.Vote.{Submission, Group, VoteResult, result_of, best_group}

pub data Tolerance : Type 0 where
  percent : ℕ → Tolerance
  absolute : ℕ → Tolerance

-- `tolerance` as it comes: missing, no object, an object with other keys, one key with a value that
-- is no number or negative, or a tolerance.
pub data ToleranceInput : Type 0 where
  missing no_object other_keys no_number : ToleranceInput
  given : Tolerance → ToleranceInput

pub data RuleError : Type 0 where
  only_with_tolerance unknown_mode not_an_object not_one_key not_a_number over_hundred : RuleError

-- The rule of the default mode is null.
pub data Rule : Type 0 where
  null_rule : Rule
  numeric : Tolerance → Rule

pub data Parsed : Type 0 where
  parsed : Rule → Parsed
  bad : RuleError → Parsed

abbrev parse_default : ToleranceInput → Parsed
parse_default missing = parsed null_rule
parse_default _ = bad only_with_tolerance

module _ (one : ℕ) where
  parse_tolerance : ToleranceInput → Parsed
  parse_tolerance missing = parsed (numeric (absolute 0))
  parse_tolerance no_object = bad not_an_object
  parse_tolerance other_keys = bad not_one_key
  parse_tolerance no_number = bad not_a_number
  parse_tolerance (given (percent p)) =
      if ltb (100 * one) p then bad over_hundred else parsed (numeric (percent p))
  parse_tolerance (given (absolute d)) = parsed (numeric (absolute d))

  -- `mode`: `none` where it is missing.
  unfoldable pub parse_consensus_rule : Option String → ToleranceInput → Parsed
  unfolding parse_tolerance
  parse_consensus_rule none tolerance = parse_default tolerance
  parse_consensus_rule (some mode) tolerance =
      if str_eq mode "exact"
      then parse_default tolerance
      else if str_eq mode "numeric-tolerance"
      then parse_tolerance tolerance
      else bad unknown_mode

pub record Entry : Type 0 where
  pub worker_id : String
  pub answer : String
  pub value : ℤ

pub record Best : Type 0 where
  pub center : Entry
  pub members : List Entry
  pub spread : ℕ

abbrev pub spread_of : ℤ → List Entry → ℕ
spread_of center [] = 0
spread_of center (e ∷ es) = distance e.value center + spread_of center es

abbrev pub is_better : Best → Best → Bool
is_better b best =
    ltb (length best.members) (length b.members)
    || ((length b.members == length best.members) && ltb b.spread best.spread)

module _ (one : ℕ) where
  unfoldable pub within_tolerance : ℤ → ℤ → Tolerance → Bool
  within_tolerance value center (percent p) =
      leb ((100 * one) * distance value center) (abs center * p)
  within_tolerance value center (absolute d) = leb (distance value center) d

  abbrev pub around : Entry → List Entry → Tolerance → Best
  around c entries t =
      let members = keep (λ (e : Entry). within_tolerance e.value c.value t) entries in
      record { center = c; members = members; spread = spread_of c.value members }

  unfoldable pub best_around : Option Best → List Entry → List Entry → Tolerance → Option Best
  unfolding within_tolerance
  best_around best [] entries t = best
  best_around none (c ∷ cs) entries t = best_around (some (around c entries t)) cs entries t
  best_around (some best) (c ∷ cs) entries t =
      let b = around c entries t in
      best_around (some (if is_better b best then b else best)) cs entries t

  unfoldable pub largest_tolerance_cluster : List Entry → Tolerance → Option Best
  unfolding best_around
  largest_tolerance_cluster entries t = best_around none entries entries t

module _ (one : ℕ) (parse : String → Option ℤ) where
  abbrev pub numeric_of : List Submission → List Entry
  numeric_of [] = []
  numeric_of (s ∷ ss) = elim (parse s.answer) [
    | none ↦ numeric_of ss
    | some v ↦ record { worker_id = s.worker_id; answer = s.answer; value = v } ∷ numeric_of ss
  ]

  abbrev pub non_numeric_of : List Submission → List Submission
  non_numeric_of [] = []
  non_numeric_of (s ∷ ss) = elim (parse s.answer) [
    | none ↦ s ∷ non_numeric_of ss
    | some v ↦ non_numeric_of ss
  ]

  abbrev pub numeric_group : Option Best → Option Group
  numeric_group none = none
  numeric_group (some b) = some (record {
    representative = b.center.answer;
    worker_ids = map (λ (e : Entry). e.worker_id) b.members;
  })

  -- No group at all makes the code throw, which is `none`.
  unfoldable pub numeric_tolerance_vote :
      List Submission → Tolerance → (List Submission → List Group) → Option VoteResult
  unfolding largest_tolerance_cluster best_group
  numeric_tolerance_vote ss t string_grouper = result_of (length ss) (
      best_group (numeric_group (largest_tolerance_cluster one (numeric_of ss) t))
        (string_grouper (non_numeric_of ss)))

-- A call's outcome: a result, or an error with the test whether to try again.
pub data Attempt {ℓ} (A : Type ℓ) : Type ℓ where
  returned : A → Attempt A
  threw : (retryable : Bool) → Attempt A

-- withRetry: `call n` is the call made when n attempts are left, validation and timeout included.
-- The answer is with the number of calls made; the waits between them are left out.
unfoldable pub with_retry {ℓ} : {A : Type ℓ} → (ℕ → Attempt A) → ℕ → Attempt A × ℕ
with_retry call zero = (threw false, 0)
with_retry call (suc left) =
    let (rest, made) = with_retry call left in
    elim (call (suc left)) [
      | returned a ↦ (returned a, 1)
      | threw retryable ↦ if ltb 0 left && retryable then (rest, suc made) else (threw retryable, 1)
    ]

-- Validation of a customer's policy: `none` is a value that is no integer from 0 upwards.
unfoldable pub validate_webhook_retry_policy : Option ℕ → Option ℕ → Option (ℕ × ℕ)
validate_webhook_retry_policy none base = none
validate_webhook_retry_policy (some attempts) none = none
validate_webhook_retry_policy (some attempts) (some base) =
    if ltb attempts 1 || ltb 10 attempts
    then none
    else if ltb 60_000 base
    then none
    else some (attempts, base)
