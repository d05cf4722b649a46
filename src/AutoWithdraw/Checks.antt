-- ===== src/AutoWithdraw/Checks.antt =====
-- What a check keeps, whatever it answers.
use arbiter_backend.Base.{
  ℕ, String, ◌≡◌, refl, true, Option, none, some, arith, ltb, leb, str_eq, eq_iff, lookup, insert,
  remove, lookup-insert, lookup-remove, Bool-cases, inl, inr,
}
use arbiter_backend.Store.{MemoryStore}
use arbiter_backend.AutoWithdraw.{
  Settings, Prepared, AutoStore, Builder, kept_as, prepare, unless_pending, locked_check,
}
use arbiter_backend.AutoWithdraw.Terms.{agrees, IsAutoStore, beneficiary_refl}

pub locks-IsAutoStore :
    (locks : MemoryStore ℕ) (s : AutoStore)
    → IsAutoStore s
    → IsAutoStore (record s { locks = locks })
locks-IsAutoStore locks s a = record { terms = a.terms; listed = a.listed; index = a.index }

dropped-IsAutoStore :
    (worker : String) (s : AutoStore)
    → IsAutoStore s
    → IsAutoStore (record s { pending = remove worker s.pending })
dropped-IsAutoStore worker s a = record {
  terms = λ w.
      rw (lookup-remove worker w s.pending)
        (elim (Bool-cases (str_eq worker w)) [ inl e ↦ rw e refl | inr n ↦ rw n (a.terms w) ]);
  listed = a.listed;
  index = a.index;
}

added-IsAutoStore :
    (worker : String) (p : Prepared) (s : AutoStore)
    → agrees (lookup worker s.settings) (some p) ≡ true
    → IsAutoStore s
    → IsAutoStore (record s { pending = insert worker p s.pending })
added-IsAutoStore worker p s h a = record {
  terms = λ w. rw (lookup-insert worker w p s.pending) (elim (Bool-cases (str_eq worker w)) [
    | inl e ↦ let same : worker ≡ w = (eq_iff worker w).0 e in rw e (rw same at h)
    | inr n ↦ rw n (a.terms w)
  ]);
  listed = a.listed;
  index = a.index;
}

kept-IsAutoStore :
    (worker : String) (st : Settings) (owed now : ℕ) (built : Option (String × ℕ)) (s : AutoStore)
    → lookup worker s.settings ≡ some st
    → st.enabled ≡ true
    → leb st.threshold_stroops owed ≡ true
    → IsAutoStore s
    → IsAutoStore (kept_as worker owed st.beneficiary_address now built s).0
unfolding kept_as
kept-IsAutoStore worker st owed now none s e on l a = a
kept-IsAutoStore worker st owed now (some (xdr, expires)) s e on l a =
    added-IsAutoStore worker _ s (rw e (ground (arith, beneficiary_refl st.beneficiary_address))) a

prepare-IsAutoStore :
    (worker : String) (st : Settings) (owed now : ℕ) (build : Builder) (s : AutoStore)
    → lookup worker s.settings ≡ some st
    → st.enabled ≡ true
    → IsAutoStore s
    → IsAutoStore (prepare worker st owed build now s).0
unfolding prepare
prepare-IsAutoStore worker st owed now build s e on a =
    elim (Bool-cases (ltb owed st.threshold_stroops)) [
      | inl t ↦ rw t a
      | inr t ↦ rw t (
          kept-IsAutoStore worker st owed now (build owed st.beneficiary_address) s e on
            (ground arith) a)
    ]

unless_pending-IsAutoStore :
    (worker : String) (st : Settings) (owed now : ℕ) (build : Builder) (o : Option Prepared)
    (s : AutoStore)
    → lookup worker s.settings ≡ some st
    → st.enabled ≡ true
    → IsAutoStore s
    → IsAutoStore (unless_pending worker st owed build now o s).0
unfolding unless_pending
unless_pending-IsAutoStore worker st owed now build none s e on a =
    prepare-IsAutoStore worker st owed now build s e on a
unless_pending-IsAutoStore worker st owed now build (some p) s e on a =
    elim (Bool-cases (leb p.amount_stroops owed)) [
      | inl t ↦ rw t a
      | inr t ↦ rw t (
          prepare-IsAutoStore worker st owed now build
            (record s { pending = remove worker s.pending }) e on (dropped-IsAutoStore worker s a))
    ]

pub locked-IsAutoStore :
    (worker : String) (st : Settings) (owed : Option ℕ) (now : ℕ) (build : Builder) (s : AutoStore)
    → lookup worker s.settings ≡ some st
    → st.enabled ≡ true
    → IsAutoStore s
    → IsAutoStore (locked_check worker st owed build now s).0
unfolding locked_check
locked-IsAutoStore worker st none now build s e on a = a
locked-IsAutoStore worker st (some owed) now build s e on a =
    unless_pending-IsAutoStore worker st owed now build (lookup worker s.pending) s e on a
