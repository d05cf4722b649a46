-- ===== src/Maintenance/Sorted.antt =====
-- The sort by start time: it is sorted, and holds the same windows.
use arbiter_backend.Base.{ℕ, ◌≤◌, ◌≡◌, refl, Bool, List, [], ◌∷◌, arith, exists, All, ◌||◌}
use arbiter_backend.Maintenance.{Window, insert_by_start, sort_by_start}

abbrev pub IsSorted : List Window → Type 0
IsSorted [] = Unit
IsSorted (w ∷ ws) = All (λ v. w.starts_at ≤ v.starts_at) ws × IsSorted ws

All-insert :
    (n : ℕ) (w : Window) (ws : List Window)
    → n ≤ w.starts_at
    → All (λ v. n ≤ v.starts_at) ws
    → All (λ v. n ≤ v.starts_at) (insert_by_start w ws)
unfolding insert_by_start
All-insert n w [] h a = (h, tt)
All-insert n w (v ∷ vs) h a = ground (arith, All-insert n w vs h a.1)

All-le :
    (n m : ℕ) (ws : List Window)
    → n ≤ m
    → All (λ v. m ≤ v.starts_at) ws
    → All (λ v. n ≤ v.starts_at) ws
All-le n m [] h a = tt
All-le n m (v ∷ vs) h a = (omega arith, All-le n m vs h a.1)

insert_by_start-IsSorted :
    (w : Window) (ws : List Window) → IsSorted ws → IsSorted (insert_by_start w ws)
unfolding insert_by_start
insert_by_start-IsSorted w [] s = (tt, tt)
insert_by_start-IsSorted w (v ∷ vs) s = ground (
  arith,
  insert_by_start-IsSorted w vs s.1,
  All-insert v.starts_at w vs,
  All-le w.starts_at v.starts_at vs,
)

pub sort_by_start-IsSorted : (ws : List Window) → IsSorted (sort_by_start ws)
unfolding sort_by_start
sort_by_start-IsSorted [] = tt
sort_by_start-IsSorted (w ∷ ws) =
    insert_by_start-IsSorted w (sort_by_start ws) (sort_by_start-IsSorted ws)

exists-insert :
    (p : Window → Bool) (w : Window) (ws : List Window)
    → exists p (insert_by_start w ws) ≡ (p w || exists p ws)
unfolding insert_by_start
exists-insert p w [] = refl
exists-insert p w (v ∷ vs) = ground (arith, exists-insert p w vs)

pub exists-sort_by_start :
    (p : Window → Bool) (ws : List Window) → exists p (sort_by_start ws) ≡ exists p ws
unfolding sort_by_start
exists-sort_by_start p [] = refl
exists-sort_by_start p (w ∷ ws) =
    ground (arith, exists-insert p w (sort_by_start ws), exists-sort_by_start p ws)
