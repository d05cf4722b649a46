-- ===== src/Canary/Drain.antt =====
-- The wait on shutdown ends with a true answer, and when a promotion is reported as safe.
use arbiter_backend.Base.{
  ℕ, zero, suc, ◌+◌, ◌-◌, ◌<◌, ◌≤◌, ◌≡◌, ◌↔◌, refl, Bool, true, false, not, ◌&&◌, some, [], arith,
  ltb, leb, ◌==◌, str_eq, Bool-cases, inl, inr,
}
use arbiter_backend.Canary.{
  wait_loop, wait_for_idle, Fingerprint, compare_preflight, compare_fingerprints, same_json,
  same_list, is_given,
}

module _ (in_flight late : ℕ → ℕ) (poll_ms timeout_ms min_wait_ms start : ℕ) where
  -- An answer is about a moment from the start on: it gives the number in flight then, says drained
  -- if that is none, and before the deadline it is given only after the least wait.
  abbrev pub IsHonest : Bool × ℕ → ℕ → Type 0
  IsHonest answer t =
      (start ≤ t)
      × ((in_flight t ≡ answer.1)
          × ((answer.0 ≡ (answer.1 == 0))
              × ((ltb t (start + timeout_ms) && not (answer.0 && leb min_wait_ms (t - start)))
                  ≡ false)))

  told_now :
      (now : ℕ)
      → start ≤ now
      → ltb now (start + timeout_ms) ≡ false
      → IsHonest (in_flight now == 0, in_flight now) now
  told_now now s l = (s, (refl, (refl, ground arith)))

  wait_loop_lem :
      (fuel now : ℕ)
      → 0 < poll_ms
      → start ≤ now
      → start + timeout_ms - now < fuel
      → (answer : Bool × ℕ) × (t : ℕ) × (wait_loop in_flight late poll_ms timeout_ms min_wait_ms
            start fuel now
          ≡ some answer)
        × IsHonest answer t
  unfolding wait_loop
  wait_loop_lem zero now p s f = absurd (omega arith)
  wait_loop_lem (suc fuel) now p s f = elim (Bool-cases (ltb now (start + timeout_ms))) [
    | inr l ↦ rw l ((in_flight now == 0, in_flight now), now, refl, told_now now s l)
    | inl l ↦ elim (Bool-cases ((in_flight now == 0) && leb min_wait_ms (now - start))) [
      | inl d ↦ rw (l, d) ((true, 0), now, refl, (s, (ground arith, (refl, ground arith))))
      | inr d ↦
          rw (l, d) (wait_loop_lem fuel (now + poll_ms + late now) p (omega arith) (ground arith))
    ]
  ]

  -- With a poll interval above 0 and a turn for each millisecond up to the timeout and one more,
  -- however late each sleep wakes: the wait ends with an answer that was true at some moment since
  -- the start, and which came at the timeout or, after the least wait, with nothing in flight.
  pub wait_for_idle_ends :
      (fuel : ℕ)
      → 0 < poll_ms
      → timeout_ms < fuel
      → (answer : Bool × ℕ) × (t : ℕ) × (wait_for_idle in_flight late poll_ms timeout_ms min_wait_ms
            start fuel
          ≡ some answer)
        × IsHonest answer t
  unfolding wait_for_idle
  wait_for_idle_ends fuel p f = wait_loop_lem fuel start p (omega arith) (omega arith)

-- Two deployments are reported as safe to promote exactly when contract, contracts, account, network
-- and contract version agree, the canary has a contract and an account, both use a Redis that they
-- reach, and they are not one instance.
pub compare_preflight_lem :
    (primary canary : Fingerprint)
    → (compare_preflight (some primary) (some canary) ≡ []) ↔ (
        (same_json primary.contract_id canary.contract_id
          && same_list primary.contract_ids canary.contract_ids
          && same_json primary.platform_address canary.platform_address
          && same_json primary.network_passphrase canary.network_passphrase
          && same_json primary.compatible_contract_version canary.compatible_contract_version
          && is_given canary.contract_id
          && is_given canary.platform_address
          && str_eq primary.store "redis"
          && primary.store_reachable
          && str_eq canary.store "redis"
          && canary.store_reachable
          && not (
              not (str_eq primary.instance_id "") && str_eq primary.instance_id canary.instance_id))
        ≡ true)
unfolding compare_preflight compare_fingerprints
compare_preflight_lem primary canary = ground arith
