-- ===== src/Maintenance.antt =====
-- src/maintenanceWindows.js: scheduled pauses of dispatch. The stored list of windows is the state.
-- Times are milliseconds. The runtime's `trim`, the length of a text and the fresh id are parameters.
pub mod Sorted
pub mod Pause
pub mod Schedule
use arbiter_backend.Base.{
  ℕ, suc, ◌+◌, ◌*◌, String, Bool, true, false, not, ◌&&◌, Option, none, some, List, [], ◌∷◌, ◌++◌,
  leb, ltb, str_eq, ◌==◌, keep, length, if◌then◌else◌,
}

abbrev pub max_windows : ℕ
max_windows = 100

abbrev pub max_window_ms : ℕ
max_window_ms = 31 * (24 * 60 * 60 * 1000)

abbrev pub max_reason_length : ℕ
max_reason_length = 200

abbrev pub expired_retention_ms : ℕ
expired_retention_ms = 7 * (24 * 60 * 60 * 1000)

pub record Window : Type 0 where
  pub id : String
  pub starts_at : ℕ
  pub ends_at : ℕ
  pub reason : Option String
  pub created_at : ℕ
  pub created_by : String

-- `input.reason`: undefined or null, a text, or a value of another type.
pub data ReasonInput : Type 0 where
  absent : ReasonInput
  text : String → ReasonInput
  other : ReasonInput

-- The two times as `toMs` reads them: `none` is NaN.
pub record WindowInput : Type 0 where
  pub starts_at : Option ℕ
  pub ends_at : Option ℕ
  pub reason : ReasonInput

pub data MaintenanceWindowError : Type 0 where
  times_required end_not_after_start already_past too_long reason_not_text : MaintenanceWindowError
  reason_too_long too_many_windows : MaintenanceWindowError

pub data Result {ℓ} (A : Type ℓ) : Type ℓ where
  ok : A → Result A
  err : MaintenanceWindowError → Result A

pub record Fields : Type 0 where
  pub starts_at : ℕ
  pub ends_at : ℕ
  pub reason : Option String

abbrev pub is_active : ℕ → Window → Bool
is_active now w = leb w.starts_at now && ltb now w.ends_at

-- `sort((a, b) => a.startsAt - b.startsAt)`, which is stable.
unfoldable pub insert_by_start : Window → List Window → List Window
insert_by_start w [] = w ∷ []
insert_by_start w (v ∷ vs) =
    let rest = insert_by_start w vs in if leb w.starts_at v.starts_at then w ∷ v ∷ vs else v ∷ rest

unfoldable pub sort_by_start : List Window → List Window
unfolding insert_by_start
sort_by_start [] = []
sort_by_start (w ∷ ws) = insert_by_start w (sort_by_start ws)

-- `Math.max(...active.map((w) => w.endsAt))` of a list that is not empty.
abbrev pub max_ends_at : Window → List Window → ℕ
max_ends_at w [] = w.ends_at
max_ends_at w (v ∷ vs) = let m = max_ends_at v vs in if leb m w.ends_at then w.ends_at else m

-- The loop over the sorted windows, left at the first that starts after the current end.
unfoldable pub extend : ℕ → List Window → ℕ
extend resumes_at [] = resumes_at
extend resumes_at (w ∷ ws) =
    let rest = extend (if ltb resumes_at w.ends_at then w.ends_at else resumes_at) ws in
    if ltb resumes_at w.starts_at then resumes_at else rest

pub record PauseInfo : Type 0 where
  pub window_id : String
  pub reason : Option String
  pub starts_at : ℕ
  pub resumes_at : ℕ

abbrev head_or : Window → List Window → Window
head_or w [] = w
head_or w (v ∷ vs) = v

pause_of : List Window → List Window → Option PauseInfo
pause_of windows [] = none
pause_of windows (w ∷ ws) =
    let primary = head_or w (sort_by_start (w ∷ ws)) in
    some (record {
      window_id = primary.id;
      reason = primary.reason;
      starts_at = primary.starts_at;
      resumes_at = extend (max_ends_at w ws) (sort_by_start windows);
    })

unfoldable pub compute_pause : List Window → ℕ → Option PauseInfo
unfolding pause_of
compute_pause windows now = pause_of windows (keep (is_active now) windows)

-- `endsAt > now - EXPIRED_RETENTION_MS`
unfoldable pub prune : List Window → ℕ → List Window
prune windows now = keep (λ w. ltb now (w.ends_at + expired_retention_ms)) windows

unfoldable pub list_upcoming_windows : ℕ → List Window → List Window
list_upcoming_windows now windows = keep (λ w. ltb now w.ends_at) (sort_by_start windows)

module _ (trim : String → String) (text_length : String → ℕ) where
  abbrev pub trimmed_reason : ReasonInput → String
  trimmed_reason absent = ""
  trimmed_reason (text t) = trim t
  trimmed_reason other = ""

  abbrev is_other : ReasonInput → Bool
  is_other other = true
  is_other _ = false

  abbrev pub or_null : String → Option String
  or_null t = if str_eq t "" then none else some t

  check_times : ℕ → ℕ → ReasonInput → ℕ → Result Fields
  check_times start end reason now =
      if leb end start
      then err end_not_after_start
      else if leb end now
      then err already_past
      else if ltb (start + max_window_ms) end
      then err too_long
      else if is_other reason
      then err reason_not_text
      else if ltb max_reason_length (text_length (trimmed_reason reason))
      then err reason_too_long
      else ok
          (record { starts_at = start; ends_at = end; reason = or_null (trimmed_reason reason) })

  parse_times : Option ℕ → Option ℕ → ReasonInput → ℕ → Result Fields
  parse_times (some start) (some end) reason now = check_times start end reason now
  parse_times _ _ reason now = err times_required

  unfoldable pub parse_window_input : WindowInput → ℕ → Result Fields
  unfolding parse_times check_times
  parse_window_input input now = parse_times input.starts_at input.ends_at input.reason now

  add_fields : Result Fields → String → String → ℕ → List Window → List Window × Result Window
  add_fields (err e) id created_by now stored = (stored, err e)
  add_fields (ok f) id created_by now stored =
      let windows = prune stored now in
      let window : Window = record {
        id = id;
        starts_at = f.starts_at;
        ends_at = f.ends_at;
        reason = f.reason;
        created_at = now;
        created_by = created_by;
      } in
      if leb max_windows (length windows)
      then (stored, err too_many_windows)
      else (windows ++ window ∷ [], ok window)

  -- `id` is the fresh `mw_{uuid}`.
  unfoldable pub add_window :
      WindowInput → String → String → ℕ → List Window → List Window × Result Window
  unfolding add_fields parse_window_input prune
  add_window input id created_by now stored =
      add_fields (parse_window_input input now) id created_by now stored

unfoldable pub remove_window : String → ℕ → List Window → List Window × Bool
unfolding prune
remove_window id now windows =
    let next = keep (λ w. not (str_eq w.id id)) windows in
    if length next == length windows then (windows, false) else (prune next now, true)
