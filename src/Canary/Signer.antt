-- ===== src/Canary/Signer.antt =====
-- The signer lock under any interleaving of the processes that sign.
pub mod Taken
pub mod Freed
use arbiter_backend.Base.{
  ℕ, ◌+◌, ◌≤◌, String, ◌≡◌, refl, sym, ◌∙◌, ◌⊎◌, Bool, true, false, ◌||◌, Option, none, some, List,
  [], ◌∷◌, arith, includes, leb, ◌==◌, str_eq, if◌then◌else◌, eq_iff, Bool-cases, inl, inr,
}
use arbiter_backend.Store.{MemoryStore, get, set, delete, view}
use arbiter_backend.Store.Expiry.{get-view, view-set, set_nx-eq}
use arbiter_backend.Canary.{
  Phase, idle, waiting, signing, Signers, signer_lock_key, in_phase, requested, request, tried,
  try_to_sign, acquire, is_own, freed, release, release_failed,
}

-- What a reader of the lock sees at a time.
abbrev pub lease : MemoryStore String → ℕ → Option String
lease lock t = view lock signer_lock_key t

module _ (is_canary : ℕ → Bool) (ttl_ms wait_ms : ℕ) where
  -- The lease taken at `since` has not run out; a lifetime of 0 never does.
  abbrev pub in_time : ℕ → ℕ → Bool
  in_time t since = leb ttl_ms 0 || leb t (since + ttl_ms)

  -- A turn of the world: time passes, or one process takes its next step. A token is new.
  pub data Step (s : Signers) : Signers → Type 0 where
    tick : (d : ℕ) → Step s (record s { now = s.now + d })
    requests : (p : ℕ) → Step s (request is_canary ttl_ms wait_ms p s)
    tries :
        (p : ℕ) (token : String)
        → includes s.used token ≡ false
        → Step s (acquire is_canary ttl_ms wait_ms p token s)
    releases : (p : ℕ) → Step s (release is_canary ttl_ms wait_ms p s)
    loses_release : (p : ℕ) → Step s (release_failed is_canary ttl_ms wait_ms p s)

  pub data Reach : Signers → Type 0 where
    start : (now : ℕ) → Reach (record { now = now; lock = []; phases = λ p. idle; used = [] })
    after : {s t : Signers} → Reach s → Step s t → Reach t

  pub record Inv (s : Signers) : Type 0 where
    pub held :
        (p : ℕ) (token : String) (since t : ℕ)
        → s.phases p ≡ signing token since
        → s.now ≤ t
        → in_time t since ≡ true
        → lease s.lock t ≡ some token
    pub drawn :
        (p : ℕ) (token : String) (since : ℕ)
        → s.phases p ≡ signing token since
        → includes s.used token ≡ true
    pub own :
        (p q : ℕ) (token : String) (a b : ℕ)
        → s.phases p ≡ signing token a
        → s.phases q ≡ signing token b
        → p ≡ q
    pub primary : (p : ℕ) → is_canary p ≡ true → s.phases p ≡ idle

  pub tick-Inv : (s : Signers) (d : ℕ) → Inv s → Inv (record s { now = s.now + d })
  tick-Inv s d w = record {
    held = λ p token since t e le. w.held p token since t e (omega arith);
    drawn = w.drawn;
    own = w.own;
    primary = w.primary;
  }

  pub quiet : Phase → Bool
  quiet idle = true
  quiet (waiting deadline) = true
  quiet (signing token since) = false

  -- Whoever signs after a process left its phase was signing before, and is another.
  others_sign :
      (p q : ℕ) (phase : Phase) (phases : ℕ → Phase) (token : String) (since : ℕ)
      → quiet phase ≡ true
      → in_phase p phase phases q ≡ signing token since
      → ((p == q) ≡ false) × (phases q ≡ signing token since)
  unfolding quiet
  others_sign p q idle phases token since h e = ground arith
  others_sign p q (waiting d) phases token since h e = ground arith
  others_sign p q (signing a b) phases token since h e = ground arith

  same-canary : (p q : ℕ) → (p == q) ≡ true → is_canary q ≡ true → is_canary p ≡ true
  same-canary p q e k = let same : p ≡ q = ground arith in rw same k

  -- A phase that no canary is in but when it is idle.
  pub primary-kept :
      (p q : ℕ) (phase : Phase) (phases : ℕ → Phase)
      → (is_canary p ≡ true → phase ≡ idle)
      → ((r : ℕ) → is_canary r ≡ true → phases r ≡ idle)
      → is_canary q ≡ true
      → in_phase p phase phases q ≡ idle
  primary-kept p q phase phases c w k = elim (Bool-cases (p == q)) [
    | inl e ↦ rw e (c (same-canary p q e k))
    | inr e ↦ rw e (w q k)
  ]

  -- The lock may change, as long as the other processes' leases stand.
  pub quiet-Inv :
      (p : ℕ) (phase : Phase) (lock : MemoryStore String) (used : List String) (s : Signers)
      → quiet phase ≡ true
      → (is_canary p ≡ true → phase ≡ idle)
      → ((token : String) → includes s.used token ≡ true → includes used token ≡ true)
      → ((q : ℕ) (token : String) (since t : ℕ)
          → (p == q) ≡ false
          → s.phases q ≡ signing token since
          → s.now ≤ t
          → in_time t since ≡ true
          → lease lock t ≡ some token)
      → Inv s
      → Inv (record s { lock = lock; used = used; phases = in_phase p phase s.phases })
  quiet-Inv p phase lock used s h c u l w = record {
    held = λ q token since t e le live.
        let other = others_sign p q phase s.phases token since h e in
        l q token since t other.0 other.1 le live;
    drawn = λ q token since e.
        u token (w.drawn q token since (others_sign p q phase s.phases token since h e).1);
    own = λ a b token m n e f.
        w.own a b token m n (others_sign p a phase s.phases token m h e).1
          (others_sign p b phase s.phases token n h f).1;
    primary = λ q k. primary-kept p q phase s.phases c w.primary k;
  }

  -- Where the lock and the tokens stay, so do the others' leases.
  pub idle-Inv :
      (p : ℕ) (s : Signers) → Inv s → Inv (record s { phases = in_phase p idle s.phases })
  unfolding quiet
  idle-Inv p s w =
      quiet-Inv p idle s.lock s.used s refl (λ k. refl) (λ token h. h)
        (λ q token since t n e. w.held q token since t e) w

  requested-Inv :
      (p : ℕ) (phase : Phase) (s : Signers)
      → Inv s
      → Inv (requested is_canary ttl_ms wait_ms p phase s)
  unfolding requested quiet
  requested-Inv p idle s w = elim (Bool-cases (is_canary p)) [
    | inl c ↦ rw c w
    | inr c ↦ rw c (
        quiet-Inv p (waiting (s.now + wait_ms)) s.lock s.used s refl (λ k. ground arith)
          (λ token h. h) (λ q token since t n e. w.held q token since t e) w)
  ]
  requested-Inv p (waiting d) s w = w
  requested-Inv p (signing token since) s w = w

  pub request-Inv : (p : ℕ) (s : Signers) → Inv s → Inv (request is_canary ttl_ms wait_ms p s)
  unfolding request
  request-Inv p s w = requested-Inv p (s.phases p) s w
