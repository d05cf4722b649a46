-- ===== src/Canary.antt =====
-- src/canary.js: the signer lock shared by all instances, the wait for in-flight questions on
-- shutdown, and the comparison of two deployments before a promotion. A process here is one call of
-- `run`, on whichever instance; its token is new (`randomUUID`), and releasing is one step, as in
-- the script that Redis runs.
pub mod Signer
pub mod Drain
use arbiter_backend.Base.{
  ℕ, zero, suc, ◌+◌, ◌-◌, String, ◌≡◌, Bool, true, false, not, ◌&&◌, ◌||◌, Option, none, some, List,
  [], ◌∷◌, ◌++◌, includes, ltb, leb, ◌==◌, str_eq, is_some, if◌then◌else◌,
}
use arbiter_backend.Store.{MemoryStore, get, delete, set_nx}

pub data Phase : Type 0 where
  idle : Phase
  waiting : (deadline : ℕ) → Phase
  signing : (token : String) (since : ℕ) → Phase

pub record Signers : Type 0 where
  pub now : ℕ
  pub lock : MemoryStore String
  pub phases : ℕ → Phase
  pub used : List String  -- the tokens drawn so far

abbrev pub signer_lock_key : String
signer_lock_key = "lock:platform-signer"

abbrev pub in_phase : ℕ → Phase → (ℕ → Phase) → ℕ → Phase
in_phase p phase phases q = if p == q then phase else phases q

module _ (is_canary : ℕ → Bool) (ttl_ms wait_ms : ℕ) where
  requested : ℕ → Phase → Signers → Signers
  requested p idle s =
      if is_canary p
      then s
      else record s { phases = in_phase p (waiting (s.now + wait_ms)) s.phases }
  requested p (waiting deadline) s = s
  requested p (signing token since) s = s

  -- `run` up to its first try: a canary is refused at once.
  unfoldable pub request : ℕ → Signers → Signers
  unfolding requested
  request p s = requested p (s.phases p) s

  tried : ℕ → String → ℕ → MemoryStore String × Bool → Signers → Signers
  tried p token deadline (lock, won) s =
      let drawn = record s { lock = lock; used = token ∷ s.used } in
      if won
      then record drawn { phases = in_phase p (signing token s.now) s.phases }
      else if leb deadline s.now
      then record drawn { phases = in_phase p idle s.phases }
      else drawn

  try_to_sign : ℕ → String → Phase → Signers → Signers
  unfolding tried
  try_to_sign p token idle s = s
  try_to_sign p token (signing held since) s = s
  try_to_sign p token (waiting deadline) s =
      tried p token deadline (set_nx signer_lock_key token ttl_ms s.now s.lock) s

  -- One turn of the loop in `acquire`: past the deadline it gives up.
  unfoldable pub acquire : ℕ → String → Signers → Signers
  unfolding try_to_sign
  acquire p token s = try_to_sign p token (s.phases p) s

  is_own : Option String → String → Bool
  is_own none token = false
  is_own (some held) token = str_eq held token

  freed : ℕ → Phase → Signers → Signers
  unfolding is_own
  freed p idle s = s
  freed p (waiting deadline) s = s
  freed p (signing token since) s =
      let (lock, held) = get signer_lock_key s.now s.lock in
      record s {
        lock = if is_own held token then delete signer_lock_key lock else lock;
        phases = in_phase p idle s.phases;
      }

  -- The `finally` of `run`.
  unfoldable pub release : ℕ → Signers → Signers
  unfolding freed
  release p s = freed p (s.phases p) s

  -- A release that fails leaves the lease to its expiry.
  unfoldable pub release_failed : ℕ → Signers → Signers
  release_failed p s = record s { phases = in_phase p idle s.phases }

-- `createDrainController`: `in_flight t` is how many fulfilments are tracked at time `t`, and
-- `late t` by how much a sleep begun at `t` overruns.
module _ (in_flight late : ℕ → ℕ) (poll_ms timeout_ms min_wait_ms start : ℕ) where
  unfoldable pub wait_loop : ℕ → ℕ → Option (Bool × ℕ)
  wait_loop zero now = none
  wait_loop (suc fuel) now =
      let later = wait_loop fuel (now + poll_ms + late now) in
      if ltb now (start + timeout_ms)
      then (if (in_flight now == 0) && leb min_wait_ms (now - start) then some (true, 0) else later)
      else some (in_flight now == 0, in_flight now)

  unfoldable pub wait_for_idle : ℕ → Option (Bool × ℕ)
  unfolding wait_loop
  wait_for_idle fuel = wait_loop fuel start

pub record Fingerprint : Type 0 where
  pub instance_id : String
  pub contract_id : Option String
  pub contract_ids : List String
  pub platform_address : Option String
  pub network_passphrase : Option String
  pub compatible_contract_version : Option String
  pub store : String
  pub store_reachable : Bool

pub data Problem : Type 0 where
  no_primary no_canary contract_id_differs contract_ids_differ platform_address_differs : Problem
  network_passphrase_differs contract_version_differs canary_without_contract : Problem
  canary_without_address primary_not_redis canary_not_redis primary_unreachable : Problem
  canary_unreachable same_instance : Problem

-- Equality of the JSON texts of two values.
abbrev pub same_json : Option String → Option String → Bool
same_json none none = true
same_json none (some b) = false
same_json (some a) none = false
same_json (some a) (some b) = str_eq a b

abbrev pub same_list : List String → List String → Bool
same_list [] [] = true
same_list [] (b ∷ bs) = false
same_list (a ∷ as') [] = false
same_list (a ∷ as') (b ∷ bs) = str_eq a b && same_list as' bs

abbrev pub problem_if : Bool → Problem → List Problem → List Problem
problem_if b p rest = if b then p ∷ rest else rest

-- Neither null nor the empty string.
abbrev pub is_given : Option String → Bool
is_given none = false
is_given (some a) = not (str_eq a "")

abbrev pub redis_problem : Problem → Problem → Fingerprint → List Problem → List Problem
redis_problem not_redis unreachable f rest =
    if not (str_eq f.store "redis")
    then not_redis ∷ rest
    else problem_if (not f.store_reachable) unreachable rest

compare_fingerprints : Fingerprint → Fingerprint → List Problem
compare_fingerprints primary canary =
    problem_if (not (same_json primary.contract_id canary.contract_id)) contract_id_differs (
      problem_if (not (same_list primary.contract_ids canary.contract_ids)) contract_ids_differ (
        problem_if (not (same_json primary.platform_address canary.platform_address))
          platform_address_differs
          (problem_if (not (same_json primary.network_passphrase canary.network_passphrase))
            network_passphrase_differs
            (problem_if
              (not
                (same_json primary.compatible_contract_version canary.compatible_contract_version))
              contract_version_differs
              (problem_if (not (is_given canary.contract_id)) canary_without_contract (
                problem_if (not (is_given canary.platform_address)) canary_without_address (
                  redis_problem primary_not_redis primary_unreachable primary (
                    redis_problem canary_not_redis canary_unreachable canary (
                      problem_if
                        (not (str_eq primary.instance_id "")
                          && str_eq primary.instance_id canary.instance_id)
                        same_instance [])))))))))

unfoldable pub compare_preflight : Option Fingerprint → Option Fingerprint → List Problem
unfolding compare_fingerprints
compare_preflight none canary = no_primary ∷ []
compare_preflight (some primary) none = no_canary ∷ []
compare_preflight (some primary) (some canary) = compare_fingerprints primary canary
