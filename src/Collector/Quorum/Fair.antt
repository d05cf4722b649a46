-- ===== src/Collector/Quorum/Fair.antt =====
-- The answers a question resolves with (src/dispatch.js): whose they are, and how many.
use Prim.Native.Nat.{max}
use arbiter_backend.Base.{
  ℕ, zero, suc, ◌≤◌, String, ◌≡◌, refl, sym, Bool, true, false, not, ◌||◌, ◌&&◌, Option, none, some,
  List, [], ◌∷◌, ◌++◌, arith, includes, distinct, is_some, leb, length, Assoc, lookup, insert,
  if◌then◌else◌, length-append, eq_iff, str_eq, Bool-cases, Option-cases, inl, inr,
}
use arbiter_backend.Collector.{
  Collector, Dispatch, may_answer, register_collector, finish, handle_answer, answer_to,
  add_submission, Event, answered, timed_out, broadcast, broadcast_failed, step, run,
  submissions_of,
}
use arbiter_backend.Collector.Quorum.{
  includes-workers, insert-new, not-false, resolved-kept, workers,
}

module _ (screen : String → Bool) (quorum_size : ℕ) (whitelist : Option (List String)) where
  abbrev passes : Assoc String → Bool
  passes [] = true
  passes ((w, a) ∷ m) = may_answer whitelist w && (screen a && passes m)

  -- No worker twice, and each one allowed and with an answer that passed the screening.
  abbrev pub IsFair : Assoc String → Type 0
  IsFair m = (distinct (workers m) ≡ true) × (passes m ≡ true)

  passes-snoc :
      (m : Assoc String) (w a : String)
      → passes (m ++ (w, a) ∷ []) ≡ (passes m && (may_answer whitelist w && screen a))
  passes-snoc [] w a = ground arith
  passes-snoc ((v, b) ∷ m) w a = ground (arith, passes-snoc m w a)

  workers-snoc :
      (m : Assoc String) (w a : String) (v : String)
      → includes (workers (m ++ (w, a) ∷ [])) v ≡ (includes (workers m) v || str_eq w v)
  workers-snoc [] w a v = ground arith
  workers-snoc ((u, b) ∷ m) w a v = ground (arith, workers-snoc m w a v)

  distinct-snoc :
      (m : Assoc String) (w a : String)
      → distinct (workers m) ≡ true
      → includes (workers m) w ≡ false
      → distinct (workers (m ++ (w, a) ∷ [])) ≡ true
  distinct-snoc [] w a d n = refl
  distinct-snoc ((v, b) ∷ m) w a d n =
      ground (arith, distinct-snoc m w a, workers-snoc m w a v, eq_iff v w, eq_iff w v)

  insert-IsFair :
      (m : Assoc String) (w a : String)
      → IsFair m
      → lookup w m ≡ none
      → may_answer whitelist w ≡ true
      → screen a ≡ true
      → IsFair (insert w a m) × (length (insert w a m) ≡ suc (length m))
  insert-IsFair m w a (d, p) n k s = rw (insert-new m w a n) (
    (
      distinct-snoc m w a d (ground (arith, includes-workers m w)),
      ground (arith, passes-snoc m w a),
    ),
    omega (arith, length-append m ((w, a) ∷ [])),
  )

  -- An unfinished collector holds fewer answers than its quorum, or none.
  abbrev pub IsOpen : Option Collector → Type 0
  IsOpen none = ⊥
  IsOpen (some c) =
      ((c.finished ≡ false) × ((c.quorum_size ≡ quorum_size) × (c.whitelist ≡ whitelist)))
      × (IsFair c.submissions
          × (leb quorum_size (length c.submissions) ≡ true → length c.submissions ≡ 0))

  abbrev pub IsDispatch : Dispatch → Type 0
  IsDispatch d = elim d.resolved [
    | none ↦ IsOpen d.collector
    | some m ↦ (d.collector ≡ none) × (IsFair m × (length m ≤ max 1 quorum_size))
  ]

  finish-IsDispatch :
      (m : Assoc String) (d : Dispatch)
      → IsDispatch d
      → IsFair m
      → length m ≤ max 1 quorum_size
      → IsDispatch (finish m d)
  unfolding finish
  finish-IsDispatch m d v f l = elim (Option-cases d.resolved) [
    | inl n ↦ rw n (refl, (f, l))
    | inr (r, e) ↦ ground (arith)
  ]

  add-IsDispatch :
      (c : Collector) (w a : String) (d : Dispatch)
      → d.resolved ≡ none
      → IsOpen (some c)
      → lookup w c.submissions ≡ none
      → may_answer whitelist w ≡ true
      → screen a ≡ true
      → IsDispatch (add_submission screen c w a d)
  unfolding add_submission finish
  add-IsDispatch c w a d e ((n, (q, l)), (f, small)) absent k s =
      let (fair, longer) = insert-IsFair c.submissions w a f absent k s in
      elim (Bool-cases (leb c.quorum_size (length (insert w a c.submissions)))) [
        | inl b ↦ rw (b, e) (refl, (fair, ground arith))
        | inr b ↦ rw (b, e) ((n, (q, l)), (fair, ground arith))
      ]

  same-whitelist :
      (c : Collector) (w : String)
      → IsOpen (some c)
      → not (may_answer c.whitelist w) ≡ false
      → may_answer whitelist w ≡ true
  same-whitelist c w ((n, (q, l)), fs) h = rw (sym l) (not-false (may_answer c.whitelist w) h)

  guard-IsDispatch :
      (b : Bool) (x y : Dispatch × Bool)
      → IsDispatch x.0
      → (b ≡ false → IsDispatch y.0)
      → IsDispatch (if b then x else y).0
  guard-IsDispatch true x y v w = v
  guard-IsDispatch false x y v w = w refl

  offered :
      (c : Collector) (w a : String) (d : Dispatch)
      → IsDispatch d
      → d.resolved ≡ none
      → IsOpen (some c)
      → IsDispatch (answer_to screen (some c) w a d).0
  unfolding answer_to
  offered c w a d v e o = guard-IsDispatch c.finished _ _ v (λ unfinished.
      guard-IsDispatch (is_some (lookup w c.submissions)) _ _ v (λ absent.
        guard-IsDispatch (not (may_answer c.whitelist w)) _ _ v (λ allowed.
          guard-IsDispatch (not (screen a)) _ _ v (λ screened.
            add-IsDispatch c w a d e o (ground arith) (same-whitelist c w o allowed)
              (ground arith)))))

  answer-IsDispatch :
      (w a : String) (k : Option Collector) (r : Option (Assoc String))
      → IsDispatch (record { collector = k; resolved = r })
      → IsDispatch (answer_to screen k w a (record { collector = k; resolved = r })).0
  unfolding answer_to
  answer-IsDispatch w a none r v = v
  answer-IsDispatch w a (some c) none v = offered c w a _ v refl v
  answer-IsDispatch w a (some c) (some m) v = absurd (ground arith)

  submissions-IsFair :
      (d : Dispatch)
      → IsDispatch d
      → IsFair (submissions_of d.collector)
        × (length (submissions_of d.collector) ≤ max 1 quorum_size)
  submissions-IsFair d v = ground arith

  step-IsDispatch : (e : Event) (d : Dispatch) → IsDispatch d → IsDispatch (step screen e d)
  unfolding step handle_answer
  step-IsDispatch (answered w a) d v = answer-IsDispatch w a d.collector d.resolved v
  step-IsDispatch timed_out d v =
      finish-IsDispatch _ d v (submissions-IsFair d v).0 (submissions-IsFair d v).1
  step-IsDispatch (broadcast zero) d v = finish-IsDispatch [] d v (refl, refl) (omega arith)
  step-IsDispatch (broadcast (suc n)) d v = v
  step-IsDispatch broadcast_failed d v = finish-IsDispatch [] d v (refl, refl) (omega arith)

  run-IsDispatch : (es : List Event) (d : Dispatch) → IsDispatch d → IsDispatch (run screen es d)
  unfolding run
  run-IsDispatch [] d v = v
  run-IsDispatch (e ∷ es) d v = run-IsDispatch es (step screen e d) (step-IsDispatch e d v)

  registered-IsDispatch : IsDispatch (register_collector quorum_size whitelist)
  unfolding register_collector
  registered-IsDispatch = ((refl, (refl, refl)), ((refl, refl), λ h. refl))

  resolved-IsDispatch :
      (d : Dispatch) (m : Assoc String)
      → IsDispatch d
      → d.resolved ≡ some m
      → (d.collector ≡ none) × (IsFair m × (length m ≤ max 1 quorum_size))
  resolved-IsDispatch d m v e = ground arith

  -- Whatever happens to a question after it is registered, if it resolves then with at most as many
  -- answers as its quorum (or one, for a quorum of none), from workers that are all different, all
  -- in the whitelist if there is one, and with answers that all passed the screening.
  pub collected_fairly :
      (es : List Event) (m : Assoc String)
      → (run screen es (register_collector quorum_size whitelist)).resolved ≡ some m
      → IsFair m × (length m ≤ max 1 quorum_size)
  collected_fairly es m e =
      (resolved-IsDispatch _ m (run-IsDispatch es _ registered-IsDispatch) e).1

  -- Once a question has resolved, nothing that happens later changes what it resolved with.
  pub resolved_once :
      (es later : List Event) (m : Assoc String)
      → (run screen es (register_collector quorum_size whitelist)).resolved ≡ some m
      → (run screen later (run screen es (register_collector quorum_size whitelist))).resolved
        ≡ some m
  resolved_once es later m e =
      resolved-kept screen later _ m e
        (resolved-IsDispatch _ m (run-IsDispatch es _ registered-IsDispatch) e).0
