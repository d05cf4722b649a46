-- ===== src/Admission.antt =====
-- src/oracle.js, verifyPayment and cancelJob; src/adminAuth.js and src/canary.js, who may do what.
pub mod Guarded
use arbiter_backend.Base.{
  ℕ, zero, suc, String, Bool, true, false, not, ◌&&◌, ◌||◌, Option, none, some, List, [], ◌∷◌,
  includes, is_some, leb, ltb, ◌==◌, str_eq, length, if◌then◌else◌,
}
use arbiter_backend.Settle.{ChainStatus, chain_pending}
use arbiter_backend.Jobs.{Status, holding}

-- The question on the chain, and the one that was quoted.
pub record OnChain : Type 0 where
  pub status : ChainStatus
  pub amount : ℕ
  pub payer : String

pub data Payment : Type 0 where
  unknown_question not_visible not_pending underpaid : Payment
  paid_by : (payer : String) (price : ℕ) → Payment

abbrev is_pending : ChainStatus → Bool
is_pending chain_pending = true
is_pending _ = false

-- `quoted`: the price in the stash, `none` where the question is not stashed.
unfoldable pub verify_payment : Option ℕ → Option OnChain → Payment
verify_payment none on_chain = unknown_question
verify_payment (some price) none = not_visible
verify_payment (some price) (some q) =
    if not (is_pending q.status)
    then not_pending
    else if ltb q.amount price
    then underpaid
    else paid_by q.payer price

-- What cancelJob reads of a job: its tier, payer, status and whether it is a sandbox one.
pub record Held : Type 0 where
  pub sandbox : Bool
  pub is_instant : Bool
  pub status : Option Status
  pub payer : Option String

pub data Cancel : Type 0 where
  unknown_job unauthorized no_undo_window not_cancellable already_dispatched cancelled : Cancel

abbrev equals : Option String → Option String → Bool
equals none b = false
equals (some a) none = false
equals (some a) (some b) = str_eq a b

-- `owner` is the account that paid by API key, `session` what verifySession makes of the token.
unfoldable pub authorized : Option String → Option String → Option String → Held → Bool
authorized (some owner) api_key session job = equals api_key (some owner)
authorized none api_key session job = equals session job.payer

abbrev is_holding : Option Status → Bool
is_holding (some holding) = true
is_holding _ = false

-- `wins` is whether cancelHeld claims the decision, in which case the refund runs.
unfoldable pub cancel_job :
    Option Held → Option String → Option String → Option String → Bool → Cancel
unfolding authorized
cancel_job none owner api_key session wins = unknown_job
cancel_job (some job) owner api_key session wins =
    if job.sandbox
    then unknown_job
    else if not (authorized owner api_key session job)
    then unauthorized
    else if job.is_instant
    then no_undo_window
    else if not (is_holding job.status)
    then not_cancellable
    else if wins
    then cancelled
    else already_dispatched

pub data AdminRole : Type 0 where
  full readonly : AdminRole

unfoldable pub role_satisfies : AdminRole → AdminRole → Bool
role_satisfies full required = true
role_satisfies readonly readonly = true
role_satisfies readonly full = false

-- 0 lets the request through.
abbrev gate_status : Option AdminRole → AdminRole → ℕ
gate_status none required = 401
gate_status (some role) required = if role_satisfies role required then 0 else 403

-- `configured`: there is an admin token.
unfoldable pub require_admin_role : Bool → Option AdminRole → AdminRole → ℕ
unfolding role_satisfies
require_admin_role configured credential required =
    if not configured then 503 else gate_status credential required

-- createReadOnlyGate: true lets the request through.
unfoldable pub read_only_gate : Bool → List String → String → String → Bool
read_only_gate is_canary read_paths method path =
    if not is_canary
    then true
    else (str_eq method "GET" || (str_eq method "HEAD" || str_eq method "OPTIONS"))
      && includes read_paths path
