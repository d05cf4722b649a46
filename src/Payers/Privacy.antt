-- ===== src/Payers/Privacy.antt =====
-- What a payer's record holds, and what is left of it after an erasure.
use arbiter_backend.Base.{
  ℕ, ◌<◌, ◌≤◌, String, ◌≡◌, refl, Bool, true, false, not, ◌||◌, ◌&&◌, none, List, [], ◌∷◌, arith,
  take, length, includes, without, distinct, if◌then◌else◌, eq_iff, str_eq, Assoc, lookup, insert,
  remove, lookup-insert, lookup-remove, includes-without, distinct-take, distinct-without, take-all,
  length-take, length-without, Bool-cases, inl, inr,
}
use arbiter_backend.Index.{IsIndex, push_bounded-IsIndex}
use arbiter_backend.Payers.{
  PayerStore, max_tracked_per_payer, max_tracked_payers, or_no_ids, get_payer_question_ids,
  record_payer_question, payer_owns_question, erase_payer_records,
}

-- Every payer's list is one of at most 200 ids, no id twice, and the index one of at most 5,000.
abbrev pub IsPayerStore : PayerStore → Type 0
IsPayerStore s =
    ((payer : String) → IsIndex max_tracked_per_payer (get_payer_question_ids payer s))
    × IsIndex max_tracked_payers s.known

pub data Command : Type 0 where
  pay : (payer id : String) → Command
  erase : (payer : String) → Command

unfoldable pub execute : Command → PayerStore → PayerStore
execute (pay payer id) s = record_payer_question payer id s
execute (erase payer) s = (erase_payer_records payer s).0

unfoldable pub execute_all : List Command → PayerStore → PayerStore
execute_all [] s = s
execute_all (c ∷ cs) s = execute_all cs (execute c s)

ids-record :
    (payer id other : String) (s : PayerStore)
    → get_payer_question_ids other (record_payer_question payer id s) ≡ (
        if str_eq payer other
        then take max_tracked_per_payer (id ∷ without id (get_payer_question_ids payer s))
        else get_payer_question_ids other s)
unfolding get_payer_question_ids record_payer_question
ids-record payer id other s = ground (
  arith,
  lookup-insert payer other
      (take max_tracked_per_payer (id ∷ without id (or_no_ids (lookup payer s.questions))))
      s.questions,
)

newest_first-IsIndex :
    (max : ℕ) (id : String) (ids : List String)
    → IsIndex max ids
    → IsIndex max (take max (id ∷ without id ids))
newest_first-IsIndex max id ids (d, n) =
    let first = distinct-without id ids d in
    let front : distinct (id ∷ without id ids) ≡ true =
      ground (arith, first, includes-without id ids id, eq_iff id id) in
    (
      distinct-take max (id ∷ without id ids) front,
      ground (arith, length-take max (id ∷ without id ids)),
    )

without-IsIndex :
    (max : ℕ) (id : String) (ids : List String) → IsIndex max ids → IsIndex max (without id ids)
without-IsIndex max id ids (d, n) =
    (distinct-without id ids d, ground (arith, length-without id ids))

if-IsIndex :
    (max : ℕ) (b : Bool) (xs ys : List String)
    → IsIndex max xs
    → IsIndex max ys
    → IsIndex max (if b then xs else ys)
if-IsIndex max true xs ys x y = x
if-IsIndex max false xs ys x y = y

record-IsPayerStore :
    (payer id : String) (s : PayerStore)
    → IsPayerStore s
    → IsPayerStore (record_payer_question payer id s)
unfolding record_payer_question
record-IsPayerStore payer id s (each, known) = (
  λ other. rw (ids-record payer id other s) (
      if-IsIndex _ (str_eq payer other) _ _ (newest_first-IsIndex _ id _ (each payer))
        (each other)),
  if-IsIndex _ _ _ _ (push_bounded-IsIndex payer max_tracked_payers s.known known) known,
)

erase-IsPayerStore :
    (payer : String) (s : PayerStore)
    → IsPayerStore s
    → IsPayerStore (erase_payer_records payer s).0
unfolding erase_payer_records get_payer_question_ids
erase-IsPayerStore payer s (each, known) = elim (Bool-cases (str_eq payer "")) [
  | inl e ↦ rw e (each, known)
  | inr e ↦ rw e (
    λ other. rw (lookup-remove payer other s.questions) (elim (Bool-cases (str_eq payer other)) [
      | inl t ↦ rw t (refl, ground arith)
      | inr t ↦ rw t (each other)
    ]),
    if-IsIndex _ _ _ _ (without-IsIndex max_tracked_payers payer s.known known) known,
  )
]

-- Whatever questions are recorded and whatever payers are erased, each payer's list keeps at most
-- 200 ids, no id twice, and the index of payers at most 5,000 addresses, none twice.
pub payer_store_stays_bounded :
    (commands : List Command) (s : PayerStore)
    → IsPayerStore s
    → IsPayerStore (execute_all commands s)
unfolding execute_all execute
payer_store_stays_bounded [] s w = w
payer_store_stays_bounded (pay payer id ∷ cs) s w =
    payer_store_stays_bounded cs _ (record-IsPayerStore payer id s w)
payer_store_stays_bounded (erase payer ∷ cs) s w =
    payer_store_stays_bounded cs _ (erase-IsPayerStore payer s w)

includes-take_all :
    (n : ℕ) (xs : List String) (q : String) → length xs ≤ n → includes (take n xs) q ≡ includes xs q
includes-take_all n xs q h = λ i. includes (take-all n xs h i) q

newest_first-all :
    (n : ℕ) (id : String) (ids : List String) (q : String)
    → length ids < n
    → includes (take n (id ∷ without id ids)) q ≡ (str_eq id q || includes ids q)
newest_first-all n id ids q room = ground (
  arith,
  includes-take_all n (id ∷ without id ids) q,
  length-without id ids,
  includes-without id ids q,
)

-- A payer below the bound of 200: recording a question makes that payer own it, and changes no
-- other answer of the ownership check, for this payer or any other.
pub recorded_is_owned :
    (payer id other q : String) (s : PayerStore)
    → length (get_payer_question_ids payer s) < max_tracked_per_payer
    → str_eq other "" ≡ false
    → str_eq q "" ≡ false
    → payer_owns_question other q (record_payer_question payer id s)
      ≡ ((str_eq payer other && str_eq id q) || payer_owns_question other q s)
unfolding payer_owns_question
recorded_is_owned payer id other q s room o n =
    rw (o, n, ids-record payer id other s)
      (elim (Bool-cases (str_eq payer other)) [
        | inr t ↦ rw t refl
        | inl t ↦
            let same : payer ≡ other = (eq_iff payer other).0 t in
            rw
              (
                t,
                newest_first-all max_tracked_per_payer id (get_payer_question_ids payer s) q room,
                same,
              )
              refl
      ])

-- An erasure of a given address reports how many questions were held and whether the index had the
-- address; afterwards the address owns no question and is not in the index, and every other
-- address has the questions and the place in the index that it had.
pub erase_payer_records_lem :
    (payer other : String) (s : PayerStore)
    → str_eq payer "" ≡ false
    → (erase_payer_records payer s).1 ≡ record {
      deleted = true;
      question_ids = length (get_payer_question_ids payer s);
      removed_from_index = includes s.known payer;
    }
      × (get_payer_question_ids other (erase_payer_records payer s).0
          ≡ (if str_eq payer other then [] else get_payer_question_ids other s))
      × (includes (erase_payer_records payer s).0.known other
          ≡ (includes s.known other && not (str_eq payer other)))
unfolding erase_payer_records get_payer_question_ids
erase_payer_records_lem payer other s e = rw e (
  refl,
  ground (arith, lookup-remove payer other s.questions),
  ground (arith, includes-without payer s.known other, eq_iff payer other),
)

remove-insert :
    {V : Type 0} (name : String) (v : V) (entries : Assoc V)
    → lookup name entries ≡ none
    → remove name (insert name v entries) ≡ entries
unfolding remove insert lookup
remove-insert name v [] n = ground (arith, eq_iff name name)
remove-insert name v ((held, w) ∷ others) n = ground (arith, remove-insert name v others)

without-absent : (a : String) (xs : List String) → includes xs a ≡ false → without a xs ≡ xs
without-absent a [] n = refl
without-absent a (x ∷ xs) n = ground (arith, without-absent a xs)

-- The first question of a payer whom neither the records nor the index know, with room in the
-- index: erasing that payer gives back the store there was before, as a whole.
pub erase-record_payer_question :
    (payer id : String) (s : PayerStore)
    → str_eq payer "" ≡ false
    → lookup payer s.questions ≡ none
    → includes s.known payer ≡ false
    → length s.known < max_tracked_payers
    → (erase_payer_records payer (record_payer_question payer id s)).0 ≡ s
unfolding erase_payer_records record_payer_question get_payer_question_ids
erase-record_payer_question payer id s e n absent room = ground (
  arith,
  remove-insert payer (take max_tracked_per_payer (id ∷ [])) s.questions,
  without-absent payer s.known,
  take-all max_tracked_payers (payer ∷ s.known),
  eq_iff payer payer,
)
