-- ===== src/Canary/Signer/Taken.antt =====
-- Taking the signer lock (src/canary.js) keeps what the leases promise.
use arbiter_backend.Base.{
  ℕ, ◌≤◌, String, ◌≡◌, refl, sym, ◌∙◌, ◌⊎◌, Bool, true, false, Option, none, some, ◌∷◌, arith,
  includes, leb, ◌==◌, eq_iff, Bool-cases, inl, inr,
}
use arbiter_backend.Store.{set}
use arbiter_backend.Store.Expiry.{view-set, set_nx-eq}
use arbiter_backend.Canary.{
  Phase, idle, waiting, signing, Signers, signer_lock_key, in_phase, tried, try_to_sign, acquire,
}
use arbiter_backend.Canary.Signer.{Inv, in_time, lease, primary-kept, quiet, quiet-Inv}

module _ (is_canary : ℕ → Bool) (ttl_ms wait_ms : ℕ) where
  -- A lease that nobody sees now is not in time for anybody.
  free-no_signer :
      (q : ℕ) (token : String) (since t : ℕ) (s : Signers)
      → Inv is_canary ttl_ms wait_ms s
      → lease s.lock s.now ≡ none
      → s.phases q ≡ signing token since
      → s.now ≤ t
      → in_time is_canary ttl_ms wait_ms t since ≡ false
  free-no_signer q token since t s w free e le =
      let live = w.held q token since s.now e (omega arith) in ground arith

  -- Who signs after a process began to: that process, or another that did already.
  signs_after :
      (p q : ℕ) (token other : String) (now since : ℕ) (phases : ℕ → Phase)
      → in_phase p (signing token now) phases q ≡ signing other since
      → ((p ≡ q) × ((token ≡ other) × (now ≡ since))) ⊎ (phases q ≡ signing other since)
  signs_after p q token other now since phases e = elim (Bool-cases (p == q)) [
    | inl t ↦ inl (ground arith, (ground arith, ground arith))
    | inr t ↦ inr (ground arith)
  ]

  won-Inv :
      (p : ℕ) (token : String) (s : Signers)
      → Inv is_canary ttl_ms wait_ms s
      → is_canary p ≡ false
      → includes s.used token ≡ false
      → lease s.lock s.now ≡ none
      → Inv is_canary ttl_ms wait_ms (record s {
        lock = set signer_lock_key token ttl_ms s.now s.lock;
        used = token ∷ s.used;
        phases = in_phase p (signing token s.now) s.phases;
      })
  won-Inv p token s w c new free = record {
    held = λ q other since t e le live. elim (signs_after p q token other s.now since s.phases e) [
      | inl (same, (tok, at)) ↦
          let mine : in_time is_canary ttl_ms wait_ms t s.now ≡ true = rw at live in
          ground (
            arith,
            view-set signer_lock_key signer_lock_key token ttl_ms s.now t s.lock,
            eq_iff signer_lock_key signer_lock_key,
          )
      | inr before ↦
          let dead = free-no_signer q other since t s w free before le in absurd (ground arith)
    ];
    drawn = λ q other since e. elim (signs_after p q token other s.now since s.phases e) [
      | inl (same, (tok, at)) ↦ ground (arith, eq_iff token other)
      | inr before ↦ let known = w.drawn q other since before in ground arith
    ];
    own = λ q r other m n e f. elim (signs_after p q token other s.now m s.phases e) [
      | inl (same, (tok, at)) ↦ elim (signs_after p r token other s.now n s.phases f) [
        | inl (same', rest) ↦ sym same ∙ same'
        | inr g ↦ let known = w.drawn r other n g in absurd (ground arith)
      ]
      | inr g ↦ elim (signs_after p r token other s.now n s.phases f) [
        | inl (same, (tok, at)) ↦ let known = w.drawn q other m g in absurd (ground arith)
        | inr g' ↦ w.own q r other m n g g'
      ]
    ];
    primary = λ q.
        primary-kept is_canary ttl_ms wait_ms p q (signing token s.now) s.phases (λ k. ground arith)
          w.primary;
  }

  tried-Inv :
      (p : ℕ) (token : String) (deadline : ℕ) (s : Signers) (found : Option String)
      → Inv is_canary ttl_ms wait_ms s
      → is_canary p ≡ false
      → includes s.used token ≡ false
      → lease s.lock s.now ≡ found
      → Inv is_canary ttl_ms wait_ms (
          tried is_canary ttl_ms wait_ms p token deadline
            (elim found [
              | none ↦ (set signer_lock_key token ttl_ms s.now s.lock, true)
              | some _ ↦ (s.lock, false)
            ])
            s)
  unfolding tried quiet
  tried-Inv p token deadline s none w c new e = won-Inv p token s w c new e
  tried-Inv p token deadline s (some other) w c new e = elim (Bool-cases (leb deadline s.now)) [
    | inl t ↦ rw t (
        quiet-Inv is_canary ttl_ms wait_ms p idle s.lock (token ∷ s.used) s refl (λ k. refl)
          (λ o h. ground arith) (λ q o since at n f. w.held q o since at f) w)
    | inr t ↦ rw t (record {
      held = w.held;
      drawn = λ q o since f. let known = w.drawn q o since f in ground arith;
      own = w.own;
      primary = w.primary;
    })
  ]

  waiting-primary :
      (p deadline : ℕ) (s : Signers)
      → s.phases p ≡ waiting deadline
      → Inv is_canary ttl_ms wait_ms s
      → is_canary p ≡ false
  waiting-primary p deadline s e w = elim (Bool-cases (is_canary p)) [
    | inl c ↦ let stopped = w.primary p c in absurd (ground arith)
    | inr c ↦ c
  ]

  try_to_sign-Inv :
      (p : ℕ) (token : String) (phase : Phase) (s : Signers)
      → s.phases p ≡ phase
      → Inv is_canary ttl_ms wait_ms s
      → includes s.used token ≡ false
      → Inv is_canary ttl_ms wait_ms (try_to_sign is_canary ttl_ms wait_ms p token phase s)
  unfolding try_to_sign
  try_to_sign-Inv p token idle s e w new = w
  try_to_sign-Inv p token (signing held since) s e w new = w
  try_to_sign-Inv p token (waiting deadline) s e w new =
      rw (set_nx-eq signer_lock_key token ttl_ms s.now s.lock) (
        tried-Inv p token deadline s (lease s.lock s.now) w (waiting-primary p deadline s e w) new
          refl)

  pub acquire-Inv :
      (p : ℕ) (token : String) (s : Signers)
      → Inv is_canary ttl_ms wait_ms s
      → includes s.used token ≡ false
      → Inv is_canary ttl_ms wait_ms (acquire is_canary ttl_ms wait_ms p token s)
  unfolding acquire
  acquire-Inv p token s w new = try_to_sign-Inv p token (s.phases p) s refl w new
