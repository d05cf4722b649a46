-- ===== src/Quotes/Stashed.antt =====
-- What a quote leaves for the payment that follows it.
use arbiter_backend.Base.{
  ℕ, ◌+◌, ◌≤◌, ◌<◌, String, ◌≡◌, refl, ◌∙◌, Bool, true, false, not, ◌&&◌, Bool-cases, inl, inr,
  Option, none, some, arith, leb, str_eq, eq_refl, if◌then◌else◌,
}
use arbiter_backend.Store.{MemoryStore, set, view}
use arbiter_backend.Store.Expiry.{view-set, get-view}
use arbiter_backend.Consensus.{Tolerance, Rule, null_rule, numeric}
use arbiter_backend.Pricing.{price_for_tier}
use arbiter_backend.Quotes.{
  Pending, Challenge, QuoteDesk, Ask, consensus_stash_fields, consensus_rule_from_pending,
  given_text, issue_challenge, cached_or, read_cached, issue_challenge_idempotent,
}

-- The rule as reconcile takes it: null for the default mode, else its name and tolerance.
abbrev pub on_wire : Rule → Option (String × Option Tolerance)
on_wire null_rule = none
on_wire (numeric t) = some ("numeric-tolerance", some t)

stash-rule :
    (rule : Rule) → consensus_rule_from_pending (consensus_stash_fields rule) ≡ on_wire rule
unfolding consensus_stash_fields consensus_rule_from_pending
stash-rule null_rule = refl
stash-rule (numeric t) = refl

-- What was asked: a text that is missing or empty is none.
abbrev pub is_as_asked : Option String → Option String → Bool
is_as_asked none none = true
is_as_asked (some a) none = str_eq a ""
is_as_asked none (some b) = false
is_as_asked (some a) (some b) = str_eq a b && not (str_eq b "")

as_asked : (a : Option String) → is_as_asked a (given_text a) ≡ true
as_asked none = refl
as_asked (some a) = elim (Bool-cases (str_eq a "")) [
  | inl e ↦ rw e e
  | inr e ↦ rw e (rw (eq_refl a, e) refl)
]

-- What stands in the stash of a question asked at a time: what was asked, the terms that were
-- quoted, at the price of the tier that was asked for, and the rule of consensus.
pub record Agrees (ask : Ask) (online_workers now : ℕ) (c : Challenge) (p : Pending) : Type 0 where
  pub text : p.question ≡ ask.question
  pub category : is_as_asked ask.category p.category ≡ true
  pub code : is_as_asked ask.referral_code p.referral_code ≡ true
  pub time : p.created_at ≡ now
  pub price : p.price_stroops ≡ c.amount_stroops
  pub priced : c.amount_stroops ≡ (price_for_tier ask.tier_key online_workers).price_stroops
  pub tier : p.tier_key ≡ c.tier
  pub tiered : c.tier ≡ (price_for_tier ask.tier_key online_workers).key
  pub quorum : p.quorum_size ≡ c.quorum_size
  pub timeout : p.timeout_ms ≡ c.timeout_ms
  pub rule : consensus_rule_from_pending (p.mode, p.tolerance) ≡ on_wire ask.rule

-- In the stash until a time, and what stands there.
abbrev pub Stashed : (Pending → Type 0) → Bool → Option Pending → Type 0
Stashed P live none = live ≡ false
Stashed P live (some p) = (live ≡ true) × P p

seen-set :
    {V : Type 0} (id : String) (v : V) (ttl now t : ℕ) (s : MemoryStore V)
    → 0 < ttl
    → view (set id v ttl now s) id t ≡ (if leb t (now + ttl) then some v else none)
seen-set id v ttl now t s p = ground (arith, view-set id id v ttl now t s, eq_refl id)

if-Stashed :
    (P : Pending → Type 0) (b : Bool) (p : Pending) → P p → Stashed P b (if b then some p else none)
if-Stashed P true p a = (refl, a)
if-Stashed P false p a = refl

module _ (question_id_of : ℕ → String) (online_workers ttl : ℕ) where
  -- The store after a quote, and the quote.
  abbrev quoted : Ask → ℕ → QuoteDesk → QuoteDesk × Challenge
  quoted ask now q = issue_challenge question_id_of online_workers ttl ask now q

  -- From a quote until its lifetime ends, the stash holds under the id that was quoted the question
  -- that was asked, with its category and its referral code, the time of the quote, the quoted price,
  -- tier, quorum and time limit, where price and tier are those of the tier that was asked for, and
  -- fields that give back the very rule of consensus; after that it has no such question.
  pub quoted-Stashed :
      (ask : Ask) (now t : ℕ) (q : QuoteDesk)
      → 0 < ttl
      → let (desk, c) = issue_challenge question_id_of online_workers ttl ask now q in
        Stashed
          (Agrees ask online_workers now c)
          (leb t (now + ttl))
          (view desk.stash c.question_id t)
  unfolding issue_challenge
  quoted-Stashed ask now t q p = rw (seen-set _ _ ttl now t q.stash p) (
      if-Stashed (Agrees ask online_workers now (quoted ask now q).1) (leb t (now + ttl)) _
        (record {
          text = refl;
          category = as_asked ask.category;
          code = as_asked ask.referral_code;
          time = refl;
          price = refl;
          priced = refl;
          tier = refl;
          tiered = refl;
          quorum = refl;
          timeout = refl;
          rule = stash-rule ask.rule;
        }))

  -- A request under a key, as the route makes it.
  abbrev pub asked : String → Ask → ℕ → QuoteDesk → QuoteDesk × Challenge
  asked key ask now q =
      issue_challenge_idempotent question_id_of online_workers ttl (some key) ask now q

  asked-cached :
      (key : String) (ask : Ask) (t : ℕ) (q : QuoteDesk) (c : Challenge)
      → str_eq key "" ≡ false
      → view q.idempotency key t ≡ some c
      → ((asked key ask t q).1 ≡ c)
        × ((asked key ask t q).0.sequence ≡ q.sequence)
        × ((asked key ask t q).0.stash ≡ q.stash)
  unfolding issue_challenge_idempotent cached_or read_cached
  asked-cached key ask t q c k h =
      let seen = (get-view key t q.idempotency).0 ∙ h in rw (k, seen) (refl, refl, refl)

  asked-new :
      (key : String) (ask : Ask) (now t : ℕ) (q : QuoteDesk)
      → 0 < ttl
      → str_eq key "" ≡ false
      → view q.idempotency key now ≡ none
      → t ≤ now + ttl
      → view (asked key ask now q).0.idempotency key t ≡ some (asked key ask now q).1
  unfolding issue_challenge_idempotent cached_or read_cached
  asked-new key ask now t q p k free live =
      let seen = (get-view key now q.idempotency).0 ∙ free in
      let on_time : leb t (now + ttl) ≡ true = ground arith in
      rw (k, seen) (seen-set key _ ttl now t _ p ∙ rw on_time refl)

  -- A request repeated under the same key, while the lifetime of the first answer lasts, gets that
  -- answer again, whatever it asks; no question id is drawn for it and nothing is stashed.
  pub repeated_request :
      (key : String) (ask again : Ask) (now t : ℕ) (q : QuoteDesk)
      → 0 < ttl
      → str_eq key "" ≡ false
      → view q.idempotency key now ≡ none
      → t ≤ now + ttl
      → ((asked key again t (asked key ask now q).0).1 ≡ (asked key ask now q).1)
        × ((asked key again t (asked key ask now q).0).0.sequence
            ≡ (asked key ask now q).0.sequence)
        × ((asked key again t (asked key ask now q).0).0.stash ≡ (asked key ask now q).0.stash)
  repeated_request key ask again now t q p k free live =
      asked-cached key again t (asked key ask now q).0 (asked key ask now q).1 k
        (asked-new key ask now t q p k free live)
