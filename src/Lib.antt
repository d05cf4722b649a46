-- ===== src/Lib.antt =====
-- The Arbiter backend: a payer asks a question, workers answer it, and the escrow on the chain is paid
-- out or refunded. The code is JavaScript, in src/ of the repository.
--
-- How the parts interact. A question is quoted (Pricing, Quotes), its payment verified (Admission), its job
-- claimed, recorded and started (Jobs, Intake), held for the undo window (UndoWindow), dispatched to chosen workers
-- (Routing, Collector) unless dispatch is paused (Maintenance), reconciled by a vote (Vote, Consensus)
-- and settled (Settle), instant ones without workers. Customers with an API key pay from a credit (Credit); payers have private pools
-- and referrals (Pools) and teams (Teams). What a payer asked and a worker earned is kept by Payers and Earnings;
-- workers are paid out by AutoWithdraw and refer each other by Referrals; instances
-- that run side by side share the platform's key by a lock (Canary). All state lies in a key-value store (Store).
--
-- Which file models which part:
--   Store: src/store.js, class MemoryStore, one function for each method.
--   Index: the bounded indexes of ids in src/jobs.js, src/dispatch.js and src/payerReferrals.js.
--   Pricing: src/pricing.js. RateLimit: src/rateLimit.js. UndoWindow: src/undoWindow.js.
--   Maintenance: src/maintenanceWindows.js. Vote: src/vote.js, and clusterVote of src/reconcile.js.
--   Consensus: src/consensus.js, and withRetry of src/retry.js.
--   Credit: src/billing.js, src/paymentReversals.js, and POST /oracle by API key in src/server.js.
--   Payers: src/payerIndex.js. Earnings: src/earnings.js. AutoWithdraw: src/autoWithdraw.js.
--   Quotes: issueChallenge of src/oracle.js, with the stash of src/pendingQuestions.js.
--   Intake: startFulfillment and the pause of dispatch in src/oracle.js.
--   Activity: src/workerAnalytics.js, but for the dashboard and the rank.
--   Badges: the badges of src/gamification.js.
--   Referrals: src/referrals.js, and pairKey of src/collusion.js. Canary: src/canary.js, but for the gate.
--   Teams: src/teams.js. Jobs: src/jobs.js. Pools: src/privatePools.js and src/payerReferrals.js.
--   Collector and Routing: src/dispatch.js. Settle: fulfillOracleCall and the settle functions of
--   src/oracle.js. Admission: verifyPayment and cancelJob of src/oracle.js, roleSatisfies and
--   requireAdminRole of src/adminAuth.js, createReadOnlyGate of src/canary.js.
--
-- How state and operations correspond: a function of the code in camelCase has its name in snake_case
-- here, takes the part of the store it touches and the time of the call, and gives the new one with its
-- result. An error that the code throws is a value. Prices are stroops, ratios are in hundredths. Where
-- the code awaits in the middle of an operation and a property depends on what runs meanwhile, the
-- operation is cut into steps (Canary, Referrals, UndoWindow, AutoWithdraw); elsewhere it runs whole.
--
-- Bounds and fuel: loops are structural recursion, over lists or over the days back to the first one.
-- The counted loops are the five attempts of debitCreditFloored and the attempts of withRetry, which are
-- the code's own numbers, and the polls of waitForIdle, where one for each millisecond of the timeout
-- and one more is enough, since each poll sleeps for a millisecond at least.
--
-- Not modelled: the Redis store, the chain, the LLM providers, text normalization, hashing and address
-- checks are libraries or services, and are parameters; logging, metrics, tracing, notifications and
-- the HTTP wiring have no effect on the state. Of fulfillOracleCall the check of a quorum for collusion
-- and the provenance are left out, as are the earnings and withdrawals a settlement sets off. Other components of src/ are left out.
pub mod Base
pub mod Store
pub mod Pricing
pub mod RateLimit
pub mod UndoWindow
pub mod Maintenance
pub mod Vote
pub mod Credit
pub mod Teams
pub mod Index
pub mod Jobs
pub mod Collector
pub mod Routing
pub mod Settle
pub mod Payers
pub mod Intake
pub mod Earnings
pub mod AutoWithdraw
pub mod Quotes
pub mod Referrals
pub mod Pools
pub mod Consensus
pub mod Canary
pub mod Activity
pub mod Badges
pub mod Admission
pub mod Examples
