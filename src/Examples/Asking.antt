-- ===== src/Examples/Asking.antt =====
-- A quote, and the start of a question that is paid for.
use arbiter_backend.Base.{
  ℕ, ◌+◌, String, ◌≡◌, refl, true, Option, none, some, List, [], ◌∷◌, Assoc, arith, leb, is_some,
  lookup, if◌then◌else◌,
}
use arbiter_backend.Store.{MemoryStore, view}
use arbiter_backend.Consensus.{percent, numeric}
use arbiter_backend.Pricing.{standard}
use arbiter_backend.Settle.{ChainStatus}
use arbiter_backend.Maintenance.{
  Window, PauseInfo, compute_pause, sort_by_start, insert_by_start, extend,
}
use arbiter_backend.UndoWindow.{undo_window_for}
use arbiter_backend.Credit.{get_credit_balance_stroops}
use arbiter_backend.Quotes.{Pending, Challenge, QuoteDesk, Ask, issue_challenge}
use arbiter_backend.Intake.{Desk, Started, repeated, threw, Paid}
use arbiter_backend.Quotes.Stashed.{Agrees, Stashed, asked, quoted-Stashed, repeated_request}
use arbiter_backend.Intake.Starts.{start, starts_once, referral_code_strands}
use arbiter_backend.Intake.Paused.{paused_start_gives_back}

abbrev some_id : ℕ → String
some_id n = if leb n 1 then "q1" else "q2"

abbrev an_ask : Ask
an_ask = record {
  question = "how many?";
  tier_key = "standard";
  category = none;
  rule = numeric (percent 5);
  referral_code = none;
}

abbrev no_quotes : QuoteDesk
no_quotes = record { sequence = []; stash = []; idempotency = [] }

abbrev the_quote : QuoteDesk × Challenge
the_quote = issue_challenge some_id 4 600 an_ask 10 no_quotes

quoted-Stashed_example :
    Stashed
      (Agrees an_ask 4 10 the_quote.1)
      (leb 500 610)
      (view the_quote.0.stash the_quote.1.question_id 500)
quoted-Stashed_example = quoted-Stashed some_id 4 600 an_ask 10 500 no_quotes (omega arith)

no_keys : view no_quotes.idempotency "k" 10 ≡ none
unfolding view lookup
no_keys = refl

repeated_request_example :
    ((asked some_id 4 600 "k" an_ask 90 (asked some_id 4 600 "k" an_ask 10 no_quotes).0).1
      ≡ (asked some_id 4 600 "k" an_ask 10 no_quotes).1)
    × ((asked some_id 4 600 "k" an_ask 90
          (asked some_id 4 600 "k" an_ask 10 no_quotes).0).0.sequence
        ≡ (asked some_id 4 600 "k" an_ask 10 no_quotes).0.sequence)
    × ((asked some_id 4 600 "k" an_ask 90 (asked some_id 4 600 "k" an_ask 10 no_quotes).0).0.stash
        ≡ (asked some_id 4 600 "k" an_ask 10 no_quotes).0.stash)
repeated_request_example =
    repeated_request some_id 4 600 "k" an_ask an_ask 10 90 no_quotes (omega arith) refl no_keys
      (omega arith)

abbrev a_stash : Pending
a_stash = record {
  question = "how many?";
  tier_key = "standard";
  price_stroops = 500;
  quorum_size = 3;
  timeout_ms = 100;
  category = none;
  created_at = 10;
  mode = none;
  tolerance = none;
  referral_code = none;
}

abbrev paid_as : String → Option String → Option String → Paid
paid_as payer account code = record {
  question_id = "q1";
  pending = a_stash;
  tier = standard;
  price_stroops = 500;
  payer = payer;
  owner_account = account;
  referral_code = code;
}

abbrev a_window : Window
a_window = record {
  id = "w1";
  starts_at = 20;
  ends_at = 90;
  reason = none;
  created_at = 1;
  created_by = "op";
}

abbrev a_desk : List Window → Desk ℕ
a_desk windows = record {
  state = record {
    chain = 0;
    jobs = record {
      jobs = [];
      known_job_ids = [];
      pending_reviews = [];
      escalated = [];
      synthetic = [];
      settlements = [];
    };
    reputations = record { reps = []; known_worker_ids = [] };
    resolved_count = 0;
    refunded_count = 0;
    dropped = [];
    announced = [];
  };
  job_owners = [];
  webhook_owners = [];
  payers = record { questions = []; known = []; loyalty = [] };
  pools = record { pools = []; owners = [] };
  credits = [];
  windows = windows;
  timers = [];
  fulfilling = [];
}

abbrev refunds : String → ℕ → ℕ × Option String
refunds id c = (c, some "tx")

abbrev resolves : String → List String → List String → ℕ → ℕ × Option String
resolves id winners losers c = (c, some "tx")

abbrev unread : String → ℕ → Option ChainStatus
unread id c = none

abbrev no_texts : Paid → Assoc String
no_texts p = []

abbrev starts : Paid → ℕ → MemoryStore ℕ → Desk ℕ → (MemoryStore ℕ × Desk ℕ) × Started
starts p now claims d = start refunds resolves unread no_texts 0 900 p now claims d

abbrev by_pat : Paid
by_pat = paid_as "pat" none none

starts_once_example :
    ((starts by_pat 50
        (starts by_pat 30 [] (a_desk [])).0.0
        (starts by_pat 30 [] (a_desk [])).0.1).1
      ≡ repeated)
    × ((starts by_pat 50
          (starts by_pat 30 [] (a_desk [])).0.0
          (starts by_pat 30 [] (a_desk [])).0.1).0.1
        ≡ (starts by_pat 30 [] (a_desk [])).0.1)
starts_once_example =
    starts_once refunds resolves unread no_texts 0 900 by_pat by_pat 30 50 [] (a_desk [])
      (omega arith) refl (omega arith)

abbrev with_code : Paid
with_code = paid_as "pat" none (some "ARB-1")

unclaimed : view {V = ℕ} [] "q1" 30 ≡ none
unfolding view lookup
unclaimed = refl

referral_code_strands_example :
    let ((claims, d), first) = starts with_code 30 [] (a_desk []) in
    let ((claims', d'), second) = starts with_code 40 claims d in
    (first ≡ threw)
    × (second ≡ repeated)
    × (d'.fulfilling ≡ [])
    × (d'.timers ≡ [])
    × (d'.payers ≡ (a_desk []).payers)
    × (is_some (view d'.state.jobs.jobs "q1" 30) ≡ true)
referral_code_strands_example =
    referral_code_strands refunds resolves unread no_texts 0 900 with_code with_code "ARB-1" 30 40
      [] (a_desk []) (omega arith) unclaimed refl refl refl refl (omega arith)

abbrev by_account : Paid
by_account = paid_as "pool" (some "acct") none

abbrev the_pause : PauseInfo
the_pause = record { window_id = "w1"; reason = none; starts_at = 20; resumes_at = 90 }

paused_at_30 : compute_pause (a_window ∷ []) 30 ≡ some the_pause
unfolding compute_pause sort_by_start insert_by_start extend
paused_at_30 = refl

not_held : undo_window_for (some standard) 0 ≡ 0
unfolding undo_window_for
not_held = refl

paused_start_gives_back_example :
    (get_credit_balance_stroops "acct"
        (starts by_account 30 [] (a_desk (a_window ∷ []))).0.1.credits
      ≡ 500 + get_credit_balance_stroops "acct" [])
    × ((starts by_account 30 [] (a_desk (a_window ∷ []))).0.1.fulfilling ≡ [])
    × ((starts by_account 30 [] (a_desk (a_window ∷ []))).0.1.timers ≡ [])
paused_start_gives_back_example =
    paused_start_gives_back refunds resolves unread no_texts 0 900 by_account "acct" "acct"
      the_pause 30 [] (a_desk (a_window ∷ [])) unclaimed refl not_held paused_at_30
