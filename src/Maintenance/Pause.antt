-- ===== src/Maintenance/Pause.antt =====
-- The pause that the windows make: it lasts exactly until no window is active.
use arbiter_backend.Base.{
  ℕ, ◌≤◌, ◌<◌, ◌≡◌, ◌↔◌, refl, Bool, true, false, none, some, List, [], ◌∷◌, arith, ltb, exists,
  keep, All, if◌then◌else◌, ◌∙◌, Bool-cases, inl, inr, sym,
}
use arbiter_backend.Maintenance.{
  Window, PauseInfo, is_active, max_ends_at, extend, sort_by_start, compute_pause, pause_of,
}
use arbiter_backend.Maintenance.Sorted.{IsSorted, sort_by_start-IsSorted, exists-sort_by_start}

extend-covers :
    (r t : ℕ) (ws : List Window) → r ≤ t → t < extend r ws → exists (is_active t) ws ≡ true
unfolding extend
extend-covers r t [] l u = absurd (omega arith)
extend-covers r t (w ∷ ws) l u =
    ground (arith, extend-covers (if ltb r w.ends_at then w.ends_at else r) t ws)

le-extend : (r : ℕ) (ws : List Window) → r ≤ extend r ws
unfolding extend
le-extend r [] = omega arith
le-extend r (w ∷ ws) = ground (arith, le-extend (if ltb r w.ends_at then w.ends_at else r) ws)

later-not_active :
    (t n : ℕ) (ws : List Window)
    → t < n
    → All (λ v. n ≤ v.starts_at) ws
    → exists (is_active t) ws ≡ false
later-not_active t n [] h a = refl
later-not_active t n (w ∷ ws) h a = ground (arith, later-not_active t n ws h a.1)

extend-stops :
    (r : ℕ) (ws : List Window) → IsSorted ws → exists (is_active (extend r ws)) ws ≡ false
unfolding extend
extend-stops r [] s = refl
extend-stops r (w ∷ ws) s = ground (
  arith,
  extend-stops (if ltb r w.ends_at then w.ends_at else r) ws s.1,
  le-extend (if ltb r w.ends_at then w.ends_at else r) ws,
  later-not_active r w.starts_at ws,
)

max_ends_at-covers :
    (now t : ℕ) (w : Window) (ws : List Window)
    → All (λ v. is_active now v ≡ true) (w ∷ ws)
    → now ≤ t
    → t < max_ends_at w ws
    → exists (is_active t) (w ∷ ws) ≡ true
max_ends_at-covers now t w [] a l u = ground arith
max_ends_at-covers now t w (v ∷ vs) a l u = ground (arith, max_ends_at-covers now t v vs a.1)

All-keep : (p : Window → Bool) (ws : List Window) → All (λ v. p v ≡ true) (keep p ws)
All-keep p [] = tt
All-keep p (w ∷ ws) = ground (arith, All-keep p ws)

exists-keep :
    (p q : Window → Bool) (ws : List Window) → exists q (keep p ws) ≡ true → exists q ws ≡ true
exists-keep p q [] h = h
exists-keep p q (w ∷ ws) h = ground (arith, exists-keep p q ws)

keep-nil_iff : (p : Window → Bool) (ws : List Window) → (keep p ws ≡ []) ↔ (exists p ws ≡ false)
keep-nil_iff p [] = (λ e. refl, λ e. refl)
keep-nil_iff p (w ∷ ws) = elim (Bool-cases (p w)) [
  | inl e ↦ rw e ((λ q. cc), (λ q. cc))
  | inr e ↦ rw e (keep-nil_iff p ws)
]

pause_of-nil_iff : (ws l : List Window) → (pause_of ws l ≡ none) ↔ (l ≡ [])
unfolding pause_of
pause_of-nil_iff ws [] = (λ e. refl, λ e. refl)
pause_of-nil_iff ws (w ∷ l) = ((λ q. cc), (λ q. cc))

-- Dispatch is paused exactly while some window is active.
pub compute_pause-none_iff :
    (ws : List Window) (now : ℕ)
    → (compute_pause ws now ≡ none) ↔ (exists (is_active now) ws ≡ false)
unfolding compute_pause
compute_pause-none_iff ws now =
    let (a, b) = pause_of-nil_iff ws (keep (is_active now) ws) in
    let (c, d) = keep-nil_iff (is_active now) ws in (λ h. c (a h), λ h. b (d h))

ends_at-le-max : (w : Window) (ws : List Window) → w.ends_at ≤ max_ends_at w ws
ends_at-le-max w [] = omega arith
ends_at-le-max w (v ∷ vs) = ground arith

active-before-end : (now : ℕ) (w : Window) → is_active now w ≡ true → now < w.ends_at
active-before-end now w h = ground arith

abbrev pub EndsRight : List Window → ℕ → PauseInfo → Type 0
EndsRight ws now p =
    (now < p.resumes_at)
    × ((t : ℕ) → now ≤ t → t < p.resumes_at → exists (is_active t) ws ≡ true)
    × (exists (is_active p.resumes_at) ws ≡ false)

pause_of_lem :
    (ws l : List Window) (now : ℕ) (p : PauseInfo)
    → All (λ v. is_active now v ≡ true) l
    → ((t : ℕ) → exists (is_active t) l ≡ true → exists (is_active t) ws ≡ true)
    → pause_of ws l ≡ some p
    → EndsRight ws now p
unfolding pause_of
pause_of_lem ws [] now p a sub e = cc
pause_of_lem ws (w ∷ l) now p a sub e =
    let r = max_ends_at w l in
    let end : p.resumes_at ≡ extend r (sort_by_start ws) = cc in
    (
      omega (
        arith,
        end,
        ends_at-le-max w l,
        le-extend r (sort_by_start ws),
        active-before-end now w a.0,
      ),
      (λ t lo hi. elim (Bool-cases (ltb t r)) [
        | inl before ↦ sub t (max_ends_at-covers now t w l a lo (ground arith))
        | inr after ↦
            sym (exists-sort_by_start (is_active t) ws)
            ∙ extend-covers r t (sort_by_start ws) (ground arith) (omega arith)
      ]),
      rw end (
          sym (exists-sort_by_start (is_active (extend r (sort_by_start ws))) ws)
          ∙ extend-stops r (sort_by_start ws) (sort_by_start-IsSorted ws)),
    )

-- A pause lasts until after now, some window is active at every moment before it ends, and none is
-- when it ends: adjacent and overlapping windows are one pause.
pub compute_pause_exact :
    (ws : List Window) (now : ℕ) (p : PauseInfo)
    → compute_pause ws now ≡ some p
    → EndsRight ws now p
unfolding compute_pause
compute_pause_exact ws now p e =
    pause_of_lem ws (keep (is_active now) ws) now p (All-keep (is_active now) ws)
      (λ t. exists-keep (is_active now) (is_active t) ws) e
