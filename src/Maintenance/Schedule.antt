-- ===== src/Maintenance/Schedule.antt =====
-- Adding, pruning and removing windows.
use arbiter_backend.Base.{
  ℕ, ◌+◌, ◌≤◌, ◌<◌, String, ◌≡◌, refl, inl, inr, Bool-cases, Bool, false, not, List, [], ◌∷◌, ◌++◌,
  arith, leb, ◌==◌, str_eq, exists, keep, length, length-append, length-keep,
}
use arbiter_backend.Maintenance.{
  Window, Fields, WindowInput, Result, ok, err, is_active, max_windows, max_window_ms,
  max_reason_length, trimmed_reason, parse_window_input, prune, add_fields, add_window,
  remove_window,
}

module _ (trim : String → String) (text_length : String → ℕ) where
  -- What the parser accepts: a window that ends after it starts and after now, no longer than the
  -- limit, with a reason no longer than its limit.
  abbrev pub Accepts : WindowInput → ℕ → Fields → Type 0
  Accepts input now f =
      (f.starts_at < f.ends_at)
      × (now < f.ends_at)
      × (f.ends_at ≤ f.starts_at + max_window_ms)
      × (text_length (trimmed_reason trim text_length input.reason) ≤ max_reason_length)

  pub parse_window_input-ok :
      (input : WindowInput) (now : ℕ) (f : Fields)
      → parse_window_input trim text_length input now ≡ ok f
      → Accepts input now f
  unfolding parse_window_input
  parse_window_input-ok input now f h = ground arith

  -- A refused window leaves the stored list as it was. An added one is the last of a list within
  -- the limit, behind the windows that were not pruned.
  abbrev pub AddedRight : ℕ → List Window → List Window × Result Window → Type 0
  AddedRight now stored (next, err e) = next ≡ stored
  AddedRight now stored (next, ok w) =
      (next ≡ prune stored now ++ w ∷ [])
      × (length next ≤ max_windows)
      × (w.starts_at < w.ends_at)
      × (now < w.ends_at)
      × (w.ends_at ≤ w.starts_at + max_window_ms)

  add_fields_lem :
      (r : Result Fields) (id by : String) (now : ℕ) (stored : List Window)
      → ((f : Fields)
          → r ≡ ok f
          → (f.starts_at < f.ends_at)
            × (now < f.ends_at)
            × (f.ends_at ≤ f.starts_at + max_window_ms))
      → AddedRight now stored (add_fields trim text_length r id by now stored)
  unfolding add_fields
  add_fields_lem (err e) id by now stored good = refl
  add_fields_lem (ok f) id by now stored good =
      elim (Bool-cases (leb max_windows (length (prune stored now)))) [
        | inl full ↦ rw full refl
        | inr room ↦
            let w : Window = record {
              id = id;
              starts_at = f.starts_at;
              ends_at = f.ends_at;
              reason = f.reason;
              created_at = now;
              created_by = by;
            } in
            let (a, b, c) = good f refl in
            rw room (refl, ground (arith, room, length-append (prune stored now) (w ∷ [])), a, b, c)
      ]

  -- A window that is added stands last after the pruned ones, of which there are then at most 100, with
  -- a start before its end, an end after now and at most 31 days; a refusal changes nothing.
  pub add_window_lem :
      (input : WindowInput) (id by : String) (now : ℕ) (stored : List Window)
      → AddedRight now stored (add_window trim text_length input id by now stored)
  unfolding add_window
  add_window_lem input id by now stored =
      add_fields_lem (parse_window_input trim text_length input now) id by now stored
        (λ f e. let (a, b, c, d) = parse_window_input-ok input now f e in (a, b, c))

-- Pruning forgets no window that is active now or later.
pub prune-active :
    (ws : List Window) (now t : ℕ)
    → now ≤ t
    → exists (is_active t) (prune ws now) ≡ exists (is_active t) ws
unfolding prune
prune-active [] now t h = refl
prune-active (w ∷ ws) now t h = ground (arith, prune-active ws now t h)

abbrev pub has_id : String → Window → Bool
has_id id w = str_eq w.id id

keep-ne :
    (id : String) (ws : List Window)
    → exists (has_id id) (keep (λ w. not (str_eq w.id id)) ws) ≡ false
keep-ne id [] = refl
keep-ne id (w ∷ ws) = ground (arith, keep-ne id ws)

keep-ne-shorter :
    (id : String) (ws : List Window)
    → (length (keep (λ w. not (str_eq w.id id)) ws) == length ws) ≡ not (exists (has_id id) ws)
keep-ne-shorter id [] = refl
keep-ne-shorter id (w ∷ ws) =
    ground (arith, keep-ne-shorter id ws, length-keep (λ (v : Window). not (str_eq v.id id)) ws)

exists-prune :
    (p : Window → Bool) (ws : List Window) (now : ℕ)
    → exists p ws ≡ false
    → exists p (prune ws now) ≡ false
unfolding prune
exists-prune p [] now h = refl
exists-prune p (w ∷ ws) now h = ground (arith, exists-prune p ws now)

-- Removal answers whether a window has the id, and none has it afterwards.
pub remove_window_lem :
    (id : String) (now : ℕ) (ws : List Window)
    → ((remove_window id now ws).1 ≡ exists (has_id id) ws)
      × (exists (has_id id) (remove_window id now ws).0 ≡ false)
unfolding remove_window
remove_window_lem id now ws = ground (
  arith,
  keep-ne-shorter id ws,
  exists-prune (has_id id) (keep (λ (w : Window). not (str_eq w.id id)) ws) now (keep-ne id ws),
)
