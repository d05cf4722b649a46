-- ===== src/AutoWithdraw/Interleaved.antt =====
-- Checks of src/autoWithdraw.js that are under way while settings are changed and other checks run.
use arbiter_backend.Base.{
  ℕ, String, ◌≡◌, refl, sym, ap, ◌∙◌, Bool, true, false, not, ◌&&◌, Option, none, some, List, [],
  ◌∷◌, arith, str_eq, eq_iff, is_some, All, Assoc, lookup, insert, remove, lookup-insert,
  lookup-remove, if◌then◌else◌, Bool-cases, inl, inr,
}
use arbiter_backend.AutoWithdraw.{
  Settings, AutoStore, ThresholdInput, Builder, Changed, saved, refused, save, saving,
  set_auto_withdraw_settings, delete_auto_withdraw_settings, locked_check, unlocked,
}
use arbiter_backend.AutoWithdraw.Terms.{IsAutoStore, set-IsAutoStore, delete-IsAutoStore}
use arbiter_backend.AutoWithdraw.Checks.{locks-IsAutoStore, locked-IsAutoStore}
use arbiter_backend.AutoWithdraw.Overtaken.{
  begin_check, end_check, begin_check-locks, begin_check-read,
}
use arbiter_backend.AutoWithdraw.Stale.{locked_check-settings}

-- The store, and the checks that wait for the chain, each with the settings that it read.
pub record Checking : Type 0 where
  pub store : AutoStore
  pub flying : Assoc Settings

-- What can happen next: settings are saved or deleted, or a check begins or ends.
pub data Turn : Type 0 where
  change :
      (worker : String) (enabled : Option Bool) (threshold : ThresholdInput)
      (beneficiary : Option String) (now : ℕ)
      → Turn
  forget : (worker : String) → Turn
  begins_check : (worker : String) (now : ℕ) → Turn
  ends_check : (worker : String) (owed : Option ℕ) (build : Builder) (now : ℕ) → Turn

abbrev pub without_first : String → Assoc Settings → Assoc Settings
without_first worker [] = []
without_first worker ((w, read) ∷ fs) =
    if str_eq w worker then fs else (w, read) ∷ without_first worker fs

abbrev pub launched : String → AutoStore × Option Settings → Assoc Settings → Checking
launched worker (s, none) fs = record { store = s; flying = fs }
launched worker (s, some read) fs = record { store = s; flying = (worker, read) ∷ fs }

abbrev pub landed : String → Option Settings → Option ℕ → Builder → ℕ → Checking → Checking
landed worker none owed build now c = c
landed worker (some read) owed build now c = record {
  store = (end_check worker read owed build now c.store).0;
  flying = without_first worker c.flying;
}

-- No settings of a worker change while a check of that worker is under way.
abbrev pub is_calm : Turn → Checking → Bool
is_calm (change worker enabled threshold beneficiary now) c = not (is_some (lookup worker c.flying))
is_calm (forget worker) c = not (is_some (lookup worker c.flying))
is_calm (begins_check worker now) c = true
is_calm (ends_check worker owed build now) c = true

none_flying :
    (worker : String) (c : Checking)
    → not (is_some (lookup worker c.flying)) ≡ true
    → lookup worker c.flying ≡ none
none_flying worker c h = ground arith

abbrev is_on : Option Settings → Bool
is_on none = false
is_on (some st) = st.enabled

-- What the checks under way have read still stands, and is on.
abbrev Reads : Assoc Settings → Assoc Settings → Type 0
Reads m fs = All (λ (f : String × Settings). (lookup f.0 m ≡ some f.1) × (f.1.enabled ≡ true)) fs

Reads-insert :
    (worker : String) (next : Settings) (m fs : Assoc Settings)
    → lookup worker fs ≡ none
    → Reads m fs
    → Reads (insert worker next m) fs
unfolding lookup
Reads-insert worker next m [] n h = tt
Reads-insert worker next m ((w, read) ∷ fs) n ((seen, on), hs) = (
  (ground (arith, lookup-insert worker w next m, eq_iff worker w, eq_iff w worker), on),
  Reads-insert worker next m fs (ground arith) hs,
)

Reads-remove :
    (worker : String) (m fs : Assoc Settings)
    → lookup worker fs ≡ none
    → Reads m fs
    → Reads (remove worker m) fs
unfolding lookup
Reads-remove worker m [] n h = tt
Reads-remove worker m ((w, read) ∷ fs) n ((seen, on), hs) = (
  (ground (arith, lookup-remove worker w m, eq_iff worker w, eq_iff w worker), on),
  Reads-remove worker m fs (ground arith) hs,
)

Reads-without_first :
    (worker : String) (m fs : Assoc Settings) → Reads m fs → Reads m (without_first worker fs)
Reads-without_first worker m [] h = tt
Reads-without_first worker m ((w, read) ∷ fs) (h, hs) = elim (Bool-cases (str_eq w worker)) [
  | inl e ↦ rw e hs
  | inr e ↦ rw e (h, Reads-without_first worker m fs hs)
]

Reads-lookup :
    (worker : String) (read : Settings) (m fs : Assoc Settings)
    → lookup worker fs ≡ some read
    → Reads m fs
    → (lookup worker m ≡ some read) × (read.enabled ≡ true)
unfolding lookup
Reads-lookup worker read m [] e h = absurd (ground arith)
Reads-lookup worker read m ((w, r) ∷ fs) e ((seen, on), hs) = elim (Bool-cases (str_eq w worker)) [
  | inl t ↦
      let same : worker ≡ w = sym ((eq_iff w worker).0 t) in
      let here : lookup worker ((w, r) ∷ fs) ≡ some r = rw t refl in
      let first : some r ≡ some read = sym here ∙ e in
      (ap (λ x. lookup x m) same ∙ (seen ∙ first), ap is_on (sym first) ∙ on)
  | inr t ↦
      let there : lookup worker ((w, r) ∷ fs) ≡ lookup worker fs = rw t refl in
      Reads-lookup worker read m fs (sym there ∙ e) hs
]

-- Every prepared withdrawal is on terms, and every check under way on settings that stand.
pub record IsChecking (c : Checking) : Type 0 where
  pub auto : IsAutoStore c.store
  pub reads : Reads c.store.settings c.flying

launched-IsChecking :
    (worker : String) (r : AutoStore × Option Settings) (fs : Assoc Settings)
    → IsAutoStore r.0
    → Reads r.0.settings fs
    → ((read : Settings)
        → r.1 ≡ some read
        → (lookup worker r.0.settings ≡ some read) × (read.enabled ≡ true))
    → IsChecking (launched worker r fs)
launched-IsChecking worker (s, none) fs a h seen = record { auto = a; reads = h }
launched-IsChecking worker (s, some read) fs a h seen = record {
  auto = a;
  reads = (seen read refl, h);
}

begins-IsChecking :
    (worker : String) (now : ℕ) (c : Checking)
    → IsChecking c
    → IsChecking (launched worker (begin_check worker now c.store) c.flying)
begins-IsChecking worker now c w =
    let locks = (begin_check worker now c.store).0.locks in
    let same = begin_check-locks worker now c.store in
    let kept : (begin_check worker now c.store).0.settings ≡ c.store.settings =
      ap (λ (x : AutoStore). x.settings) same in
    launched-IsChecking worker (begin_check worker now c.store) c.flying
      (rw same (locks-IsAutoStore locks c.store w.auto)) (rw kept w.reads)
      (λ read e. let (seen, on) = begin_check-read worker now read c.store e in (rw kept seen, on))

landed-IsChecking :
    (worker : String) (o : Option Settings) (owed : Option ℕ) (build : Builder) (now : ℕ)
    (c : Checking)
    → lookup worker c.flying ≡ o
    → IsChecking c
    → IsChecking (landed worker o owed build now c)
unfolding unlocked
landed-IsChecking worker none owed build now c e w = w
landed-IsChecking worker (some read) owed build now c e w =
    let (seen, on) = Reads-lookup worker read c.store.settings c.flying e w.reads in
    let after = (locked_check worker read owed build now c.store).0 in
    record {
      auto =
          locks-IsAutoStore _ after
            (locked-IsAutoStore worker read owed now build c.store seen on w.auto);
      reads =
          rw (locked_check-settings worker read owed now build c.store)
            (Reads-without_first worker c.store.settings c.flying w.reads);
    }

module _ (is_address is_beneficiary : String → Bool) (min_threshold_stroops : ℕ) where
  unfoldable pub turn : Turn → Checking → Checking
  turn (change worker enabled threshold beneficiary now) c = record c {
    store =
        (set_auto_withdraw_settings is_address is_beneficiary min_threshold_stroops worker enabled
          threshold beneficiary now c.store).0;
  }
  turn (forget worker) c = record c { store = delete_auto_withdraw_settings worker c.store }
  turn (begins_check worker now) c = launched worker (begin_check worker now c.store) c.flying
  turn (ends_check worker owed build now) c =
      landed worker (lookup worker c.flying) owed build now c

  unfoldable pub run_turns : List Turn → Checking → Checking
  unfolding turn
  run_turns [] c = c
  run_turns (t ∷ ts) c = run_turns ts (turn t c)

  unfoldable pub are_calm : List Turn → Checking → Bool
  unfolding turn
  are_calm [] c = true
  are_calm (t ∷ ts) c = is_calm t c && are_calm ts (turn t c)

  saving-Reads :
      (worker : String) (o : Changed) (s : AutoStore) (fs : Assoc Settings)
      → lookup worker fs ≡ none
      → Reads s.settings fs
      → Reads (saving is_address is_beneficiary min_threshold_stroops worker o s).0.settings fs
  unfolding saving save
  saving-Reads worker (refused e) s fs n h = h
  saving-Reads worker (saved next) s fs n h = Reads-insert worker next s.settings fs n h

  turn-IsChecking :
      (t : Turn) (c : Checking) → is_calm t c ≡ true → IsChecking c → IsChecking (turn t c)
  unfolding turn set_auto_withdraw_settings delete_auto_withdraw_settings
  turn-IsChecking (change worker enabled threshold beneficiary now) c h w = record {
    auto =
        set-IsAutoStore is_address is_beneficiary min_threshold_stroops worker enabled threshold
          beneficiary now c.store w.auto;
    reads = saving-Reads worker _ c.store c.flying (none_flying worker c h) w.reads;
  }
  turn-IsChecking (forget worker) c h w = record {
    auto = delete-IsAutoStore worker c.store w.auto;
    reads = Reads-remove worker c.store.settings c.flying (none_flying worker c h) w.reads;
  }
  turn-IsChecking (begins_check worker now) c h w = begins-IsChecking worker now c w
  turn-IsChecking (ends_check worker owed build now) c h w =
      landed-IsChecking worker (lookup worker c.flying) owed build now c refl w

  run_turns-IsChecking :
      (ts : List Turn) (c : Checking)
      → are_calm ts c ≡ true
      → IsChecking c
      → IsChecking (run_turns ts c)
  unfolding run_turns are_calm
  run_turns-IsChecking [] c h w = w
  run_turns-IsChecking (t ∷ ts) c h w =
      run_turns-IsChecking ts (turn t c) (ground arith) (turn-IsChecking t c (ground arith) w)

  -- As long as no worker's settings change while a check of that worker waits for the chain, but with
  -- checks and changes of different workers, failing ones included, interleaved in any way: a prepared
  -- withdrawal is of a worker whose settings are on, for at least the threshold and for the
  -- beneficiary they now name; the list of workers to sweep holds only such as are on, nobody twice,
  -- and at most 5,000.
  pub withdrawals_on_terms :
      (turns : List Turn) (s : AutoStore)
      → IsAutoStore s
      → are_calm turns (record { store = s; flying = [] }) ≡ true
      → IsAutoStore (run_turns turns (record { store = s; flying = [] })).store
  withdrawals_on_terms turns s a h =
      let ready : Checking = record { store = s; flying = [] } in
      let held = run_turns-IsChecking turns ready h (record { auto = a; reads = tt }) in held.auto
