-- ===== src/Badges/Latched.antt =====
-- When a badge is earned, and that it stays so.
use arbiter_backend.Base.{
  ℕ, String, ◌≡◌, refl, ap, ◌∙◌, Bool, true, false, not, ◌&&◌, ◌||◌, Option, none, some, List, [],
  ◌∷◌, arith, Assoc, str_eq, eq_iff, includes, is_some, lookup, lookup-insert, or_else,
  if◌then◌else◌, Bool-cases, Option-cases, inl, inr,
}
use arbiter_backend.Badges.{
  Context, Badge, Shown, badges, is_reached, date_of, shown, evaluate_each, evaluate_badges,
  with_date, save_new, sync_badges, sync_all,
}

-- A badge of this id that the context reaches.
abbrev pub reaches : String → List Badge → Context → Bool
reaches id [] ctx = false
reaches id (b ∷ bs) ctx = (str_eq b.id id && is_reached ctx b) || reaches id bs ctx

newly-includes :
    (id : String) (bs : List Badge) (ctx : Context) (m : Assoc ℕ) (now : ℕ)
    → includes (evaluate_each ctx m now bs).1 id
      ≡ (not (is_some (lookup id m)) && reaches id bs ctx)
newly-includes id [] ctx m now = ground arith
newly-includes id (b ∷ bs) ctx m now = elim (Bool-cases (str_eq b.id id)) [
  | inl e ↦
      let same : b.id ≡ id = (eq_iff b.id id).0 e in
      let known : lookup b.id m ≡ lookup id m = ap (λ x. lookup x m) same in
      ground (arith, newly-includes id bs ctx m now)
  | inr e ↦ ground (arith, newly-includes id bs ctx m now)
]

lookup-with_date :
    (id other : String) (date : Option ℕ) (m : Assoc ℕ)
    → lookup id (with_date other date m)
      ≡ (if str_eq other id then or_else date (lookup id m) else lookup id m)
lookup-with_date id other none m = ground arith
lookup-with_date id other (some t) m = lookup-insert other id t m

-- Nothing is written for an id that is not newly earned.
lookup-save_new_old :
    (id : String) (newly : List String) (rows : List Shown) (m : Assoc ℕ)
    → includes newly id ≡ false
    → lookup id (save_new newly rows m) ≡ lookup id m
lookup-save_new_old id newly [] m h = refl
lookup-save_new_old id newly (row ∷ rows) m h = elim (Bool-cases (includes newly row.id)) [
  | inl e ↦ rw e (
      lookup-save_new_old id newly rows (with_date row.id row.earned_at m) h
      ∙ ground (arith, lookup-with_date id row.id row.earned_at m, eq_iff row.id id))
  | inr e ↦ rw e (lookup-save_new_old id newly rows m h)
]

-- For one that is, the time is, unless it has been written already.
lookup-save_new :
    (id : String) (newly : List String) (bs : List Badge) (ctx : Context) (now : ℕ)
    (known m : Assoc ℕ)
    → includes newly id ≡ true
    → lookup id known ≡ none
    → lookup id (save_new newly (evaluate_each ctx known now bs).0 m)
      ≡ (if reaches id bs ctx then some now else lookup id m)
lookup-save_new id newly [] ctx now known m h k = refl
lookup-save_new id newly (b ∷ bs) ctx now known m h k = elim (Bool-cases (str_eq b.id id)) [
  | inl e ↦
      let same : b.id ≡ id = (eq_iff b.id id).0 e in
      let unknown : lookup b.id known ≡ none = ap (λ x. lookup x known) same ∙ k in
      let is_new : includes newly b.id ≡ true = ap (includes newly) same ∙ h in
      let reached = is_reached ctx b in
      let date : Option ℕ = date_of none reached now in
      rw (unknown, is_new)
        (lookup-save_new id newly bs ctx now known (with_date b.id date m) h k
          ∙ ground (arith, lookup-with_date id b.id date m))
  | inr e ↦ elim (Bool-cases (includes newly b.id)) [
    | inl f ↦
        let row = shown ctx known now b in
        rw (save_new, f)
          (lookup-save_new id newly bs ctx now known (with_date b.id row.earned_at m) h k
            ∙ ground (arith, lookup-with_date id b.id row.earned_at m))
    | inr f ↦ rw (save_new, f) (lookup-save_new id newly bs ctx now known m h k ∙ ground arith)
  ]
]

lookup-sync :
    (id : String) (min_answers : ℕ) (ctx : Context) (now : ℕ) (m : Assoc ℕ)
    → lookup id (sync_badges min_answers ctx now m).0
      ≡ or_else (lookup id m) (if reaches id (badges min_answers) ctx then some now else none)
unfolding sync_badges evaluate_badges
lookup-sync id k ctx now m =
    let found = newly-includes id (badges k) ctx m now in
    let newly = (evaluate_each ctx m now (badges k)).1 in
    let rows = (evaluate_each ctx m now (badges k)).0 in
    elim (Option-cases (lookup id m)) [
      | inl none_yet ↦ elim (Bool-cases (reaches id (badges k) ctx)) [
        | inl r ↦
            rw (none_yet, r)
              (lookup-save_new id newly (badges k) ctx now m m (found ∙ ground arith) none_yet
                ∙ rw r refl)
        | inr r ↦
            rw (none_yet, r) (lookup-save_new_old id newly rows m (found ∙ ground arith) ∙ none_yet)
      ]
      | inr (t, held) ↦ rw held (lookup-save_new_old id newly rows m (found ∙ ground arith) ∙ held)
    ]

-- The time of the first context that reaches a badge of this id.
abbrev pub first_reached : String → ℕ → List (Context × ℕ) → Option ℕ
first_reached id k [] = none
first_reached id k ((ctx, now) ∷ rest) =
    if reaches id (badges k) ctx then some now else first_reached id k rest

-- Whatever contexts a worker's outcomes leave, in any order, a badge's date is the one it had before
-- them, or else the time of the first of them that reaches its target, and it has none if none does:
-- no later context takes a badge away or dates it again.
pub badges_latch :
    (id : String) (min_answers : ℕ) (history : List (Context × ℕ)) (earned_at : Assoc ℕ)
    → lookup id (sync_all min_answers history earned_at)
      ≡ or_else (lookup id earned_at) (first_reached id min_answers history)
badges_latch id k [] m = elim (Option-cases (lookup id m)) [
  | inl e ↦ rw e refl
  | inr (t, e) ↦ rw e refl
]
badges_latch id k ((ctx, now) ∷ rest) m =
    let one = lookup-sync id k ctx now m in
    let later = badges_latch id k rest (sync_badges k ctx now m).0 in
    elim (Option-cases (lookup id m)) [
      | inl e ↦ elim (Bool-cases (reaches id (badges k) ctx)) [
        | inl r ↦ rw (later, one, e, r) refl
        | inr r ↦ rw (later, one, e, r) refl
      ]
      | inr (t, e) ↦ rw (later, one, e) refl
    ]
