-- ===== src/Jobs/Escalations.antt =====
-- escalateItem and unescalateItem: a flag that is set once and cleared.
use arbiter_backend.Base.{
  ℕ, ◌<◌, String, ◌≡◌, refl, Bool, true, false, not, List, [], ◌∷◌, arith, length, keep, exists,
  take-all, eq_refl, length-keep,
}
use arbiter_backend.Jobs.{
  Jobs, Escalation, is_item, escalate_item, unescalate_item, max_tracked_escalations,
}

abbrev pub is_escalated : String → String → Jobs → Bool
is_escalated kind id s = exists (is_item kind id) s.escalated

keep-absent :
    (kind id : String) (es : List Escalation)
    → exists (is_item kind id) es ≡ false
    → keep (λ e. not (is_item kind id e)) es ≡ es
keep-absent kind id [] n = refl
keep-absent kind id (e ∷ es) n = ground (arith, keep-absent kind id es)

keep-shorter :
    (kind id : String) (es : List Escalation)
    → exists (is_item kind id) es ≡ true
    → length (keep (λ e. not (is_item kind id e)) es) < length es
keep-shorter kind id [] n = ground arith
keep-shorter kind id (e ∷ es) n =
    ground (arith, keep-shorter kind id es, length-keep (λ e. not (is_item kind id e)) es)

exists-keep :
    (kind id : String) (es : List Escalation)
    → exists (is_item kind id) (keep (λ e. not (is_item kind id e)) es) ≡ false
exists-keep kind id [] = refl
exists-keep kind id (e ∷ es) = ground (arith, exists-keep kind id es)

-- Escalating answers true exactly when the item was not escalated and escalates it, and clearing
-- answers true exactly when it was and leaves it not escalated.
pub escalation_flags :
    (kind id : String) (now : ℕ) (s : Jobs)
    → ((escalate_item kind id now s).1 ≡ not (is_escalated kind id s))
      × ((is_escalated kind id (escalate_item kind id now s).0 ≡ true)
          × (((unescalate_item kind id s).1 ≡ is_escalated kind id s)
              × (is_escalated kind id (unescalate_item kind id s).0 ≡ false)))
unfolding escalate_item unescalate_item
escalation_flags kind id now s = (
  ground arith,
  (
    ground (arith, eq_refl kind, eq_refl id),
    (
      ground (arith, keep-absent kind id s.escalated, keep-shorter kind id s.escalated),
      ground (
        arith,
        exists-keep kind id s.escalated,
        keep-shorter kind id s.escalated,
        keep-absent kind id s.escalated,
      ),
    ),
  ),
)

-- Clearing an item right after it was newly escalated gives back the store, while fewer than 5000
-- items are escalated.
pub unescalate-escalate :
    (kind id : String) (now : ℕ) (s : Jobs)
    → is_escalated kind id s ≡ false
    → length s.escalated < max_tracked_escalations
    → (unescalate_item kind id (escalate_item kind id now s).0).0 ≡ s
unfolding escalate_item unescalate_item
unescalate-escalate kind id now s n h =
    let entry : Escalation = record { kind = kind; id = id; escalated_at = now } in
    ground (
      arith,
      eq_refl kind,
      eq_refl id,
      keep-absent kind id s.escalated,
      take-all max_tracked_escalations (entry ∷ s.escalated),
    )
