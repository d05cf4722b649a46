-- ===== src/AutoWithdraw/Terms.antt =====
-- A prepared withdrawal stands on the terms that the worker has set.
use arbiter_backend.Base.{
  ℕ, String, ◌≡◌, refl, Bool, true, false, not, ◌&&◌, ◌||◌, Option, none, some, List, arith,
  includes, leb, str_eq, eq_iff, eq_refl, lookup, if◌then◌else◌, lookup-insert, lookup-remove,
  includes-without, distinct-without, length-without, Bool-cases, inl, inr,
}
use arbiter_backend.Index.{push_bounded, IsIndex, push_bounded-IsIndex, includes-push_bounded}
use arbiter_backend.AutoWithdraw.{
  Settings, Prepared, AutoStore, ThresholdInput, Changed, saved, refused, max_indexed_workers,
  unindex_worker, same_beneficiary, terms_changed, save, saving, next_settings,
  set_auto_withdraw_settings, delete_auto_withdraw_settings,
}

-- What is prepared was prepared under settings that are on, for at least their threshold and for
-- their beneficiary.
abbrev pub agrees : Option Settings → Option Prepared → Bool
agrees st none = true
agrees none (some p) = false
agrees (some st) (some p) =
    st.enabled
    && leb st.threshold_stroops p.amount_stroops
    && same_beneficiary p.beneficiary_address st.beneficiary_address

abbrev pub is_on : Option Settings → Bool
is_on none = false
is_on (some st) = st.enabled

abbrev pub on_terms : AutoStore → String → Bool
on_terms s w = agrees (lookup w s.settings) (lookup w s.pending)

abbrev pub listed_on : AutoStore → String → Bool
listed_on s w = not (includes s.workers w) || is_on (lookup w s.settings)

-- Every prepared withdrawal is on its worker's terms, every listed worker's settings are on, and the
-- list holds nobody twice and at most 5,000.
pub record IsAutoStore (s : AutoStore) : Type 0 where
  pub terms : (w : String) → on_terms s w ≡ true
  pub listed : (w : String) → listed_on s w ≡ true
  pub index : IsIndex max_indexed_workers s.workers

beneficiary_trans :
    (a b c : Option String)
    → same_beneficiary a b ≡ true
    → same_beneficiary b c ≡ true
    → same_beneficiary a c ≡ true
beneficiary_trans none none none h k = refl
beneficiary_trans none none (some c) h k = k
beneficiary_trans none (some b) c h k = ground arith
beneficiary_trans (some a) none c h k = ground arith
beneficiary_trans (some a) (some b) none h k = ground arith
beneficiary_trans (some a) (some b) (some c) h k =
    ground (arith, eq_iff a b, eq_iff b c, eq_iff a c)

pub beneficiary_refl : (a : Option String) → same_beneficiary a a ≡ true
beneficiary_refl none = refl
beneficiary_refl (some a) = eq_refl a

agrees-saved :
    (current : Option Settings) (next : Settings) (p : Option Prepared)
    → agrees current p ≡ true
    → terms_changed current next ≡ false
    → agrees (some next) p ≡ true
agrees-saved none next p a c = ground arith
agrees-saved (some current) next none a c = refl
agrees-saved (some current) next (some p) a c = ground (
  arith,
  beneficiary_trans p.beneficiary_address current.beneficiary_address next.beneficiary_address,
)

includes-unindex :
    (worker w : String) (known : List String)
    → includes (unindex_worker worker known) w ≡ true
    → (includes known w && not (str_eq worker w)) ≡ true
includes-unindex worker w known h = ground (arith, includes-without worker known w, eq_iff worker w)

unindex-IsIndex :
    (max : ℕ) (worker : String) (known : List String)
    → IsIndex max known
    → IsIndex max (unindex_worker worker known)
unindex-IsIndex max worker known (d, n) =
    ground (arith, distinct-without worker known, length-without worker known)

settings-save :
    (worker w : String) (next : Settings) (s : AutoStore)
    → lookup w (save worker next s).settings
      ≡ (if str_eq worker w then some next else lookup w s.settings)
unfolding save
settings-save worker w next s = lookup-insert worker w next s.settings

pending-save :
    (worker w : String) (next : Settings) (s : AutoStore)
    → lookup w (save worker next s).pending ≡ (
        if str_eq worker w && terms_changed (lookup worker s.settings) next
        then none
        else lookup w s.pending)
unfolding save
pending-save worker w next s = elim (Bool-cases (terms_changed (lookup worker s.settings) next)) [
  | inl c ↦ rw (c, lookup-remove worker w s.pending) (ground arith)
  | inr c ↦ rw c (ground arith)
]

save-terms :
    (worker w : String) (next : Settings) (s : AutoStore)
    → IsAutoStore s
    → on_terms (save worker next s) w ≡ true
save-terms worker w next s a =
    rw (settings-save worker w next s, pending-save worker w next s)
      (elim (Bool-cases (str_eq worker w)) [
        | inr n ↦ rw n (a.terms w)
        | inl e ↦
            let same : worker ≡ w = (eq_iff worker w).0 e in
            rw (e, same)
              (elim (Bool-cases (terms_changed (lookup w s.settings) next)) [
                | inl c ↦ rw c refl
                | inr c ↦
                    rw c
                      (agrees-saved (lookup w s.settings) next (lookup w s.pending) (a.terms w) c)
              ])
      ])

-- A worker whose settings are saved is in the new list only if they are on, anyone else only if they
-- were in the old one.
list_saved :
    (max : ℕ) (on : Bool) (worker w : String) (known : List String)
    → includes (if on then push_bounded worker max known else unindex_worker worker known) w ≡ true
    → (if str_eq worker w then on else includes known w) ≡ true
list_saved max true worker w known h = ground (arith, includes-push_bounded worker max known w h)
list_saved max false worker w known h = ground (arith, includes-unindex worker w known h)

save-listed :
    (worker w : String) (next : Settings) (s : AutoStore)
    → IsAutoStore s
    → listed_on (save worker next s) w ≡ true
unfolding save
save-listed worker w next s a = elim (Bool-cases (includes (save worker next s).workers w)) [
  | inr n ↦ rw n refl
  | inl i ↦
      let before = list_saved max_indexed_workers next.enabled worker w s.workers i in
      rw (i, settings-save worker w next s)
        (elim (Bool-cases (str_eq worker w)) [
          | inl e ↦ rw e (rw e at before)
          | inr n ↦ let old = a.listed w in let was = (rw n at before) in rw n (rw was at old)
        ])
]

list_saved-IsIndex :
    (max : ℕ) (on : Bool) (worker : String) (known : List String)
    → IsIndex max known
    → IsIndex max (if on then push_bounded worker max known else unindex_worker worker known)
list_saved-IsIndex max true worker known i = push_bounded-IsIndex worker max known i
list_saved-IsIndex max false worker known i = unindex-IsIndex max worker known i

save-IsAutoStore :
    (worker : String) (next : Settings) (s : AutoStore)
    → IsAutoStore s
    → IsAutoStore (save worker next s)
unfolding save
save-IsAutoStore worker next s a = record {
  terms = λ w. save-terms worker w next s a;
  listed = λ w. save-listed worker w next s a;
  index = list_saved-IsIndex max_indexed_workers next.enabled worker s.workers a.index;
}

saving-IsAutoStore :
    (is_address is_beneficiary : String → Bool) (min : ℕ) (worker : String) (c : Changed)
    (s : AutoStore)
    → IsAutoStore s
    → IsAutoStore (saving is_address is_beneficiary min worker c s).0
unfolding saving
saving-IsAutoStore f g min worker (refused e) s a = a
saving-IsAutoStore f g min worker (saved next) s a = save-IsAutoStore worker next s a

pub set-IsAutoStore :
    (is_address is_beneficiary : String → Bool) (min : ℕ) (worker : String) (enabled : Option Bool)
    (threshold : ThresholdInput) (beneficiary : Option String) (now : ℕ) (s : AutoStore)
    → IsAutoStore s
    → IsAutoStore
        (set_auto_withdraw_settings is_address is_beneficiary min worker enabled threshold
          beneficiary now s).0
unfolding set_auto_withdraw_settings
set-IsAutoStore f g min worker enabled threshold beneficiary now s a =
    saving-IsAutoStore f g min worker
      (next_settings f g min worker enabled threshold beneficiary now (lookup worker s.settings)) s
      a

pub delete-IsAutoStore :
    (worker : String) (s : AutoStore)
    → IsAutoStore s
    → IsAutoStore (delete_auto_withdraw_settings worker s)
unfolding delete_auto_withdraw_settings
delete-IsAutoStore worker s a = record {
  terms = λ w.
      rw (lookup-remove worker w s.settings, lookup-remove worker w s.pending)
        (elim (Bool-cases (str_eq worker w)) [ inl e ↦ rw e refl | inr n ↦ rw n (a.terms w) ]);
  listed = λ w. elim (Bool-cases (includes (unindex_worker worker s.workers) w)) [
    | inr n ↦ rw n refl
    | inl i ↦
        let old = a.listed w in
        let was = includes-unindex worker w s.workers i in
        rw (i, lookup-remove worker w s.settings) (ground arith)
  ];
  index = unindex-IsIndex max_indexed_workers worker s.workers a.index;
}
