-- ===== src/Examples/Signing.antt =====
-- The signer lock, the wait on shutdown and the comparison of deployments.
use arbiter_backend.Base.{
  ℕ, String, ◌≡◌, refl, Bool, true, false, none, some, [], arith, ◌==◌, ltb, ◌∷◌, includes, lookup,
  insert, if◌then◌else◌,
}
use arbiter_backend.Store.{set_nx}
use arbiter_backend.Canary.{
  same_instance, idle, signing, Signers, request, acquire, wait_for_idle, Fingerprint,
  compare_preflight,
}
use arbiter_backend.Canary.Signer.{Reach, start, after, requests, tries, in_time, lease}
use arbiter_backend.Canary.Signer.Freed.{one_signer_at_a_time}
use arbiter_backend.Canary.Drain.{IsHonest, wait_for_idle_ends}

abbrev second_is_canary : ℕ → Bool
second_is_canary p = p == 2

abbrev quiet_start : Signers
quiet_start = record { now = 100; lock = []; phases = λ p. idle; used = [] }

abbrev one_asked : Signers
one_asked = request second_is_canary 60_000 90_000 1 quiet_start

abbrev one_signs : Signers
one_signs = acquire second_is_canary 60_000 90_000 1 "first" one_asked

one_signs-phase : one_signs.phases 1 ≡ signing "first" 100
unfolding acquire request set_nx lookup insert
one_signs-phase = refl

first_is_new : includes one_asked.used "first" ≡ false
unfolding request
first_is_new = refl

one_signs-Reach : Reach second_is_canary 60_000 90_000 one_signs
one_signs-Reach = after (after (start 100) (requests 1)) (tries 1 "first" first_is_new)

one_signs-in_time : in_time second_is_canary 60_000 90_000 one_signs.now 100 ≡ true
unfolding acquire request set_nx lookup insert
one_signs-in_time = refl

one_signer_at_a_time_example :
    ◌≡◌ {A = ℕ} 1 1
    × (lease one_signs.lock one_signs.now ≡ some "first")
    × (second_is_canary 1 ≡ false)
one_signer_at_a_time_example =
    one_signer_at_a_time second_is_canary 60_000 90_000 one_signs 1 1 "first" "first" 100 100
      one_signs-Reach one_signs-phase one_signs-phase one_signs-in_time one_signs-in_time

-- Two questions until time 30, then none; sleeps overrun by 2.
abbrev settling : ℕ → ℕ
settling t = if ltb t 30 then 2 else 0

abbrev two_late : ℕ → ℕ
two_late t = 2

waited : wait_for_idle settling two_late 10 100 0 0 101 ≡ some (true, 0)
unfolding wait_for_idle
waited = refl

wait_for_idle_ends_example :
    (answer : Bool × ℕ) × (t : ℕ) × (wait_for_idle settling two_late 10 100 0 0 101 ≡ some answer)
    × IsHonest settling two_late 10 100 0 0 answer t
wait_for_idle_ends_example =
    wait_for_idle_ends settling two_late 10 100 0 0 101 (omega arith) (omega arith)

abbrev a_print : String → Fingerprint
a_print id = record {
  instance_id = id;
  contract_id = some "C1";
  contract_ids = "C1" ∷ [];
  platform_address = some "G1";
  network_passphrase = some "test";
  compatible_contract_version = none;
  store = "redis";
  store_reachable = true;
}

safe_pair : compare_preflight (some (a_print "old")) (some (a_print "new")) ≡ []
unfolding compare_preflight
safe_pair = refl

same_pair : compare_preflight (some (a_print "old")) (some (a_print "old")) ≡ same_instance ∷ []
unfolding compare_preflight
same_pair = refl
