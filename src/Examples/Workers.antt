-- ===== src/Examples/Workers.antt =====
-- Withdrawals that are prepared for workers, the codes that workers refer others by, and the days on
-- which they answer and the badges they earn.
use arbiter_backend.Base.{
  ℕ, ◌+◌, ◌≤◌, String, ◌≡◌, refl, Bool, true, false, Option, none, some, List, [], ◌∷◌, arith,
  includes, is_some, insert, lookup, if◌then◌else◌,
}
use arbiter_backend.Store.{set_nx, view}
use arbiter_backend.Activity.{
  DayCount, day_key, compute_streak, apply_outcome, empty_activity, record_outcomes,
}
use arbiter_backend.Activity.Streaks.{all_active}
use arbiter_backend.Activity.Exact.{Attained, IsStreak, last_day, streaks_exact}
use arbiter_backend.Badges.{Context, sync_all}
use arbiter_backend.Badges.Latched.{badges_latch}
use arbiter_backend.AutoWithdraw.{
  Settings, AutoStore, Changed, saved, absent, of_stroops, set_auto_withdraw_settings,
  next_settings, sweep_auto_withdraw,
}
use arbiter_backend.AutoWithdraw.Terms.{IsAutoStore}
use arbiter_backend.AutoWithdraw.Interleaved.{
  Checking, Turn, change, forget, begins_check, ends_check, turn, run_turns, are_calm,
  withdrawals_on_terms,
}
use arbiter_backend.AutoWithdraw.Overtaken.{
  begin_check, end_check, terms_and_pending, prepared_on, settings_overtake_check,
}
use arbiter_backend.AutoWithdraw.Sweep.{IsDue, sweep_prepares_for_all}
use arbiter_backend.Referrals.{Code, Referrals, uses_of, check_redemption, passed, reserve_use}
use arbiter_backend.Referrals.Calls.{
  Call, Running, with_call, after_reserve, begins, reserves, Reach, start, next, redeemed, holding,
  sum_calls,
}
use arbiter_backend.Referrals.Capped.Reached.{redemptions_within_cap}

abbrev yes : String → Bool
yes a = true

abbrev no_withdrawals : AutoStore
no_withdrawals = record { settings = []; pending = []; locks = []; workers = [] }

no_withdrawals-IsAutoStore : IsAutoStore no_withdrawals
unfolding lookup
no_withdrawals-IsAutoStore = record {
  terms = λ w. refl;
  listed = λ w. refl;
  index = (refl, omega arith);
}

abbrev builds_one : ℕ → Option String → Option (String × ℕ)
builds_one owed b = some ("tx", 400)

-- Bob's settings change while a check of Ann's waits for the chain, Ann's once it has ended.
abbrev some_turns : List Turn
some_turns =
    change "ann" (some true) (of_stroops 50) none 10
    ∷ begins_check "ann" 20
    ∷ change "bob" (some true) (of_stroops 60) none 30
    ∷ ends_check "ann" (some 70) builds_one 40
    ∷ change "ann" (some true) (of_stroops 60) none 50
    ∷ forget "bob"
    ∷ []

abbrev nothing_yet : Checking
nothing_yet = record { store = no_withdrawals; flying = [] }

calm_turns : are_calm yes yes 5 some_turns nothing_yet ≡ true
unfolding are_calm turn set_auto_withdraw_settings next_settings begin_check lookup insert set_nx
calm_turns = refl

withdrawals_on_terms_example : IsAutoStore (run_turns yes yes 5 some_turns nothing_yet).store
withdrawals_on_terms_example =
    withdrawals_on_terms yes yes 5 some_turns no_withdrawals no_withdrawals-IsAutoStore calm_turns

abbrev fifty : Settings
fifty = record {
  enabled = true;
  threshold_stroops = 50;
  beneficiary_address = none;
  updated_at = 10;
}

abbrev ann_on : AutoStore
ann_on = record { settings = ("ann", fifty) ∷ []; pending = []; locks = []; workers = "ann" ∷ [] }

-- Ann turns the withdrawals off while a check of hers waits for the chain.
abbrev ann_off : AutoStore × Changed
ann_off =
    set_auto_withdraw_settings yes yes 5 "ann" (some false) absent none 30
      (begin_check "ann" 20 ann_on).0

abbrev turned_off : Settings
turned_off = record fifty { enabled = false; updated_at = 30 }

ann_begins : (begin_check "ann" 20 ann_on).1 ≡ some fifty
unfolding begin_check lookup set_nx
ann_begins = refl

ann_saves : ann_off.1 ≡ saved turned_off
unfolding set_auto_withdraw_settings next_settings begin_check lookup set_nx
ann_saves = refl

settings_overtake_check_example :
    terms_and_pending "ann" (end_check "ann" fifty (some 90) builds_one 30 ann_off.0).0
    ≡ (some turned_off, some (prepared_on fifty "tx" 90 30 400))
settings_overtake_check_example =
    settings_overtake_check yes yes 5 "ann" "tx" fifty turned_off (some false) absent none 90 20 30
      400 builds_one ann_on ann_begins ann_saves refl (omega arith) refl

abbrev ann_and_bob : AutoStore
ann_and_bob = record {
  settings = ("bob", fifty) ∷ ("ann", fifty) ∷ [];
  pending = [];
  locks = [];
  workers = "bob" ∷ "ann" ∷ [];
}

-- Bob's balance cannot be read.
abbrev owed_to_ann : String → Option ℕ
owed_to_ann w = if includes ("ann" ∷ []) w then some 80 else none

ann-IsDue : IsDue "ann" (owed_to_ann "ann") builds_one 500 ann_and_bob
unfolding lookup view
ann-IsDue = record {
  settings = fifty;
  amount = 80;
  built = ("tx", 400);
  stored = refl;
  on = refl;
  free = refl;
  balance = refl;
  reached = omega arith;
  builds = refl;
}

sweep_prepares_for_all_example :
    is_some
      (lookup "ann" (sweep_auto_withdraw owed_to_ann (λ w. builds_one) 500 ann_and_bob).0.pending)
    ≡ true
sweep_prepares_for_all_example =
    sweep_prepares_for_all owed_to_ann (λ w. builds_one) 500 "ann" ann_and_bob refl refl ann-IsDue

abbrev anns_code : Code
anns_code = record { code = "ARB-1"; owner = "ann"; created_at = 1 }

abbrev with_code : Referrals
with_code = record {
  codes = ("ARB-1", anns_code) ∷ [];
  uses = [];
  owners = ("ann", "ARB-1") ∷ [];
  redemptions = [];
  referees = [];
  referrers = "ann" ∷ [];
  links = [];
}

bob_passes : check_redemption yes some "bob" "ARB-1" 0 with_code ≡ passed anns_code
unfolding check_redemption lookup
bob_passes = refl

abbrev bob_began : Running
bob_began = record { store = with_code; calls = Call.checked "bob" anns_code ∷ [] }

bob_began-Reach : Reach yes some 1 bob_began
bob_began-Reach = next (start with_code refl refl) (begins "bob" "ARB-1" 0 anns_code bob_passes)

-- One use is allowed, and Bob's call has reserved it.
abbrev bob_reserved : Running
bob_reserved = record {
  store = (reserve_use 1 "ARB-1" with_code).0;
  calls = with_call [] (after_reserve "bob" anns_code (reserve_use 1 "ARB-1" with_code).1) [];
}

bob_reserved-Reach : Reach yes some 1 bob_reserved
bob_reserved-Reach = next bob_began-Reach (reserves [] [] "bob" anns_code refl)

one_held : sum_calls (holding "ARB-1") bob_reserved.calls ≡ 1
unfolding reserve_use lookup
one_held = refl

redemptions_within_cap_example :
    (redeemed "ARB-1" bob_reserved.store.redemptions ≤ 1)
    × (redeemed "ARB-1" bob_reserved.store.redemptions
          + sum_calls (holding "ARB-1") bob_reserved.calls
        ≡ uses_of "ARB-1" bob_reserved.store)
redemptions_within_cap_example =
    redemptions_within_cap yes some 1 "ARB-1" bob_reserved bob_reserved-Reach

-- Outcomes on the days 3, 2 and 5, in this order, and one more on day 5.
abbrev four_outcomes : List (Bool × ℕ)
four_outcomes = (true, 259200000) ∷ (false, 172800000) ∷ (true, 432000000) ∷ (true, 432000009) ∷ []

abbrev three_days : List (ℕ × DayCount)
three_days = (record_outcomes four_outcomes empty_activity).days

two_in_a_row : all_active three_days 2 2 ≡ true
unfolding apply_outcome
two_in_a_row = refl

streaks_of_three_days :
    ((compute_streak three_days 518400000).current ≡ 1)
    × ((compute_streak three_days 518400000).longest ≡ 2)
unfolding apply_outcome compute_streak
streaks_of_three_days = (refl, refl)

streaks_exact_example :
    IsStreak three_days
      (last_day three_days (day_key 518400000))
      (compute_streak three_days 518400000).current
    × (2 ≤ (compute_streak three_days 518400000).longest)
    × Attained three_days (compute_streak three_days 518400000).longest
streaks_exact_example = streaks_exact four_outcomes 518400000 2 2 two_in_a_row

abbrev context_of : ℕ → ℕ → Context
context_of total matched = record {
  total = total;
  matched = matched;
  current_streak = 0;
  longest_streak = 0;
  perfect_days = 0;
}

-- Sharpshooter is reached at 50 answers with 45 matched, and kept when the ratio falls.
abbrev rise_and_fall : List (Context × ℕ)
rise_and_fall = (context_of 49 45, 100) ∷ (context_of 50 45, 200) ∷ (context_of 51 45, 300) ∷ []

badges_latch_example : lookup "sharpshooter" (sync_all 20 rise_and_fall []) ≡ some 200
unfolding lookup
badges_latch_example = badges_latch "sharpshooter" 20 rise_and_fall []
