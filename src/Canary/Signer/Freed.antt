-- ===== src/Canary/Signer/Freed.antt =====
-- Freeing the signer lock (src/canary.js), and every state that the processes reach.
use arbiter_backend.Base.{
  ℕ, ◌≤◌, String, ◌≡◌, refl, sym, ◌∙◌, Bool, true, false, some, arith, ◌==◌, str_eq, if◌then◌else◌,
  eq_iff, Bool-cases, inl, inr,
}
use arbiter_backend.Store.{MemoryStore, get, delete}
use arbiter_backend.Store.Expiry.{get-view}
use arbiter_backend.Canary.{
  Phase, idle, waiting, signing, Signers, signer_lock_key, is_own, freed, release, release_failed,
}
use arbiter_backend.Canary.Signer.{
  tick, requests, tries, releases, loses_release, start, after, Inv, Reach, Step, idle-Inv, in_time,
  lease, quiet, quiet-Inv, request-Inv, tick-Inv,
}
use arbiter_backend.Canary.Signer.Taken.{acquire-Inv}

module _ (is_canary : ℕ → Bool) (ttl_ms wait_ms : ℕ) where
  -- What is left of the lock after a process frees its own lease.
  left_lock : String → Signers → MemoryStore String
  left_lock token s =
      let (lock, held) = get signer_lock_key s.now s.lock in
      if is_own is_canary ttl_ms wait_ms held token then delete signer_lock_key lock else lock

  left_lock-kept :
      (token other : String) (t : ℕ) (s : Signers)
      → str_eq other token ≡ false
      → s.now ≤ t
      → lease s.lock s.now ≡ some other
      → lease s.lock t ≡ some other
      → lease (left_lock token s) t ≡ some other
  unfolding left_lock is_own
  left_lock-kept token other t s n le now later =
      let seen = get-view signer_lock_key s.now s.lock in
      rw (seen.0, now, n) (seen.1 signer_lock_key t le ∙ later)

  another_token :
      (p q : ℕ) (token other : String) (a b : ℕ) (s : Signers)
      → Inv is_canary ttl_ms wait_ms s
      → s.phases p ≡ signing token a
      → s.phases q ≡ signing other b
      → (p == q) ≡ false
      → str_eq other token ≡ false
  another_token p q token other a b s w e f n = elim (Bool-cases (str_eq other token)) [
    | inr t ↦ t
    | inl t ↦
        let tok : token ≡ other = sym ((eq_iff other token).0 t) in
        let same = w.own p q other a b (e ∙ (λ i. signing (tok i) a)) f in absurd (ground arith)
  ]

  freed-Inv :
      (p : ℕ) (phase : Phase) (s : Signers)
      → s.phases p ≡ phase
      → Inv is_canary ttl_ms wait_ms s
      → Inv is_canary ttl_ms wait_ms (freed is_canary ttl_ms wait_ms p phase s)
  unfolding freed quiet left_lock
  freed-Inv p idle s e w = w
  freed-Inv p (waiting deadline) s e w = w
  freed-Inv p (signing token since) s e w =
      quiet-Inv is_canary ttl_ms wait_ms p idle (left_lock token s) s.used s refl (λ k. refl)
        (λ o h. h)
        (λ q other b t n f le live.
          left_lock-kept token other t s (another_token p q token other since b s w e f n) le
            (w.held q other b s.now f (omega arith) (ground arith)) (w.held q other b t f le live))
        w

  Step-Inv :
      (s t : Signers)
      → Step is_canary ttl_ms wait_ms s t
      → Inv is_canary ttl_ms wait_ms s
      → Inv is_canary ttl_ms wait_ms t
  unfolding release release_failed
  Step-Inv s _ (tick d) w = tick-Inv is_canary ttl_ms wait_ms s d w
  Step-Inv s _ (requests p) w = request-Inv is_canary ttl_ms wait_ms p s w
  Step-Inv s _ (tries p token new) w = acquire-Inv is_canary ttl_ms wait_ms p token s w new
  Step-Inv s _ (releases p) w = freed-Inv p (s.phases p) s refl w
  Step-Inv s _ (loses_release p) w = idle-Inv is_canary ttl_ms wait_ms p s w

  Reach-Inv : (s : Signers) → Reach is_canary ttl_ms wait_ms s → Inv is_canary ttl_ms wait_ms s
  Reach-Inv _ (start now) = record {
    held = λ p token since t e. absurd (ground arith);
    drawn = λ p token since e. absurd (ground arith);
    own = λ p q token a b e. absurd (ground arith);
    primary = λ p k. refl;
  }
  Reach-Inv _ (after {s} {t} r step) = Step-Inv s t step (Reach-Inv s r)

  -- In every state that any interleaving of processes reaches, whatever leases ran out and whatever
  -- releases failed: two processes that sign within the lifetime of their leases are the same one,
  -- the lock then shows that process's token, and a process on a canary never signs.
  pub one_signer_at_a_time :
      (s : Signers) (p q : ℕ) (token other : String) (a b : ℕ)
      → Reach is_canary ttl_ms wait_ms s
      → s.phases p ≡ signing token a
      → s.phases q ≡ signing other b
      → in_time is_canary ttl_ms wait_ms s.now a ≡ true
      → in_time is_canary ttl_ms wait_ms s.now b ≡ true
      → (p ≡ q) × (lease s.lock s.now ≡ some token) × (is_canary p ≡ false)
  one_signer_at_a_time s p q token other a b r e f m n =
      let w = Reach-Inv s r in
      let mine = w.held p token a s.now e (omega arith) m in
      let theirs = w.held q other b s.now f (omega arith) n in
      let tok : other ≡ token = ground arith in
      (
        w.own p q token a b e (f ∙ (λ i. signing (tok i) b)),
        mine,
        elim (Bool-cases (is_canary p)) [
          | inl c ↦ let stopped = w.primary p c in absurd (ground arith)
          | inr c ↦ c
        ],
      )
