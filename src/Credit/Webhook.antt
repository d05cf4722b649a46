-- ===== src/Credit/Webhook.antt =====
-- Stripe's redeliveries, and what a first delivery does.
use arbiter_backend.Base.{
  ℕ, ◌+◌, ◌≤◌, String, ◌≡◌, refl, true, Option, none, some, arith, str_eq, eq_refl, eq_iff,
  if◌then◌else◌, All, List, [], ◌∷◌, or_else,
}
use arbiter_backend.Store.{set_nx, view, balance}
use arbiter_backend.Store.Expiry.{set_nx-eq, view-set}
use arbiter_backend.Store.Counter.{balance-incr_by}
use arbiter_backend.Credit.{
  Credits, Ledger, StripeEvent, EventType, checkout_completed, other_type, thirty_days_ms,
  cents_to_stroops, credit_checkout, note_intent, credit_account, apply_event, reverse_account,
  mapped_account, handle_stripe_webhook, record_payment_reversal, is_handled,
}

module _ (usd_to_stroops : ℕ) (between : ℕ → Credits → Credits) where
  events-reverse_account :
      (o : Option String) (e : StripeEvent) (now : ℕ) (l : Ledger)
      → (reverse_account usd_to_stroops between o e now l).events ≡ l.events
  unfolding reverse_account record_payment_reversal
  events-reverse_account none e now l = refl
  events-reverse_account (some a) e now l = refl

  events-apply_event :
      (ty : EventType) (e : StripeEvent) (now : ℕ) (l : Ledger)
      → (apply_event usd_to_stroops between ty e now l).events ≡ l.events
  unfolding apply_event
  events-apply_event checkout_completed e now l = ground arith
  events-apply_event other_type e now l = refl
  events-apply_event _ e now l =
      events-reverse_account (or_else (mapped_account e.payment_intent now l) e.metadata_account) e
        now l

  deliver : StripeEvent → ℕ → Ledger → Ledger
  deliver = handle_stripe_webhook usd_to_stroops between

  -- The event's mark is seen for thirty days after its first delivery.
  marked :
      (e : StripeEvent) (now t : ℕ) (l : Ledger)
      → is_handled e.type ≡ true
      → view l.events e.id now ≡ none
      → t ≤ now + thirty_days_ms
      → view (deliver e now l).events e.id t ≡ some 1
  unfolding handle_stripe_webhook deliver
  marked e now t l handled new hi =
      let events = (set_nx e.id 1 thirty_days_ms now l.events).0 in
      ground (
        arith,
        set_nx-eq e.id 1 thirty_days_ms now l.events,
        view-set e.id e.id 1 thirty_days_ms now t l.events,
        eq_refl e.id,
        events-apply_event e.type e now (record l { events = events }),
      )

  redelivered :
      (e : StripeEvent) (t : ℕ) (l : Ledger) → view l.events e.id t ≡ some 1 → deliver e t l ≡ l
  unfolding handle_stripe_webhook deliver
  redelivered e t l seen = ground (arith, set_nx-eq e.id 1 thirty_days_ms t l.events)

  pub deliver_all : StripeEvent → List ℕ → Ledger → Ledger
  deliver_all e [] l = l
  deliver_all e (t ∷ ts) l = deliver_all e ts (deliver e t l)

  stays :
      (e : StripeEvent) (ts : List ℕ) (l : Ledger)
      → All (λ t. view l.events e.id t ≡ some 1) ts
      → deliver_all e ts l ≡ l
  unfolding deliver_all
  stays e [] l a = refl
  stays e (t ∷ ts) l a = rw (redelivered e t l a.0) (stays e ts l a.1)

  All-marked :
      (e : StripeEvent) (now : ℕ) (ts : List ℕ) (l : Ledger)
      → is_handled e.type ≡ true
      → view l.events e.id now ≡ none
      → All (λ t. t ≤ now + thirty_days_ms) ts
      → All (λ t. view (deliver e now l).events e.id t ≡ some 1) ts
  All-marked e now [] l h new a = tt
  All-marked e now (t ∷ ts) l h new a =
      (marked e now t l h new a.0, All-marked e now ts l h new a.1)

  -- Any number of redeliveries of an event within thirty days of its first delivery leave the whole
  -- ledger as the first delivery left it.
  pub webhook_once :
      (e : StripeEvent) (now : ℕ) (ts : List ℕ) (l : Ledger)
      → is_handled e.type ≡ true
      → view l.events e.id now ≡ none
      → All (λ t. t ≤ now + thirty_days_ms) ts
      → deliver_all e ts (handle_stripe_webhook usd_to_stroops between e now l)
        ≡ handle_stripe_webhook usd_to_stroops between e now l
  unfolding deliver
  webhook_once e now ts l h new a = stays e ts (deliver e now l) (All-marked e now ts l h new a)

  credits-note_intent :
      (o : Option String) (a : String) (cents now : ℕ) (l : Ledger)
      → (note_intent usd_to_stroops o a cents now l).credits ≡ l.credits
  unfolding note_intent
  credits-note_intent none a cents now l = refl
  credits-note_intent (some i) a cents now l = refl

  balance-credit_account :
      (a b : String) (e : StripeEvent) (now : ℕ) (l : Ledger)
      → balance (credit_account usd_to_stroops (some a) e now l).credits b ≡ (
          if str_eq a b
          then balance l.credits a + cents_to_stroops usd_to_stroops e.amount_total
          else balance l.credits b)
  unfolding credit_account
  balance-credit_account a b e now l =
      rw (credits-note_intent e.payment_intent a e.amount_total now l)
        (balance-incr_by a b (cents_to_stroops usd_to_stroops e.amount_total) l.credits)

  -- The first delivery of a completed checkout credits its account with the amount, and no other.
  pub checkout_credits :
      (e : StripeEvent) (now : ℕ) (l : Ledger) (account b : String)
      → e.type ≡ checkout_completed
      → e.metadata_account ≡ some account
      → view l.events e.id now ≡ none
      → balance (handle_stripe_webhook usd_to_stroops between e now l).credits b ≡ (
          if str_eq account b
          then balance l.credits b + cents_to_stroops usd_to_stroops e.amount_total
          else balance l.credits b)
  unfolding handle_stripe_webhook apply_event credit_checkout
  checkout_credits e now l account b ty owner new =
      let marked_ledger : Ledger = record l {
        events = (set_nx e.id 1 thirty_days_ms now l.events).0;
      } in
      ground (
        arith,
        set_nx-eq e.id 1 thirty_days_ms now l.events,
        balance-credit_account account b e now marked_ledger,
        eq_iff account b,
      )
