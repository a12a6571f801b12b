-- ===== src/Imports/Batch/Referenced.antt =====
-- The results of a term against the table of terms, in `ingest` of apps/worker/ingestion.py.
use mathlib.Core.Path.{subst}
use mathlib.Core.Bool.{false≢true}
use meraipo.Prelude.{
  ℕ, ◌≤◌, ◌≡◌, ◌∙◌, ap, refl, sym, inl, inr, Bool, true, false, ◌&&◌, Option, none, some, List, [],
  ◌∷◌, ◌++◌, ◌==◌, any_of, any_of-append, all_of, first_where, count_where, count_where-append,
  Option-cases, Bool-cases, arith,
}
use meraipo.Imports.Quarters.{
  Term, Company, Quarterly, QuarterInput, Ledger, Outcome, raised, returned, Added, is_of,
  same_term, add_term, has_key, latest_where, revision_of, insert_quarter, add_revision, add_for,
  replay, same_values,
}
use meraipo.Imports.Quarters.Numbered.{latest-none, same_count, same_term_eq}
use meraipo.Imports.Batch.{prior_result, is_other_key}

-- The term of every result is a row of the table of terms.
abbrev pub IsReferenced : Ledger → Type 0
IsReferenced l = all_of (λ q. any_of (same_term q.term) l.terms) l.quarters ≡ true

missing_term :
    (c : ℕ) (t : Term) (ts : List Term) (qs : List Quarterly)
    → all_of (λ q. any_of (same_term q.term) ts) qs ≡ true
    → any_of (same_term t) ts ≡ false
    → latest_where (is_of c t) qs ≡ none
missing_term c t ts [] h m = refl
missing_term c t ts (q ∷ qs) h m = elim (Bool-cases (is_of c t q)) [
  | inr n ↦ rw n (missing_term c t ts qs (ground arith) m)
  | inl y ↦
      let e : q.term ≡ t = same_term_eq q.term t (ground arith) in
      let k : any_of (same_term q.term) ts ≡ true = ground arith in
      absurd (false≢true (sym m ∙ ap (λ x. any_of (same_term x) ts) (sym e) ∙ k))
]

pub prior-latest :
    (l : Ledger) (c : Company) (d : QuarterInput)
    → IsReferenced l
    → prior_result l c d ≡ latest_where (is_of c.id d.term) l.quarters
prior-latest l c d h = elim (Bool-cases (any_of (same_term d.term) l.terms)) [
  | inl y ↦ rw y refl
  | inr n ↦ rw n (sym (missing_term c.id d.term l.terms l.quarters h n))
]

latest_key :
    (p : Quarterly → Bool) (qs : List Quarterly) (r : Quarterly)
    → latest_where p qs ≡ some r
    → any_of (has_key r.import_key) qs ≡ true
latest_key p [] r h = ground arith
latest_key p (q ∷ qs) r h = elim (Option-cases (latest_where p qs)) [
  | inl e ↦ ground arith
  | inr (x, e) ↦ ground (arith, latest_key p qs x e)
]

any_first :
    (k : ℕ) (qs : List Quarterly)
    → any_of (has_key k) qs ≡ true
    → first_where (has_key k) qs ≡ none
    → ⊥
any_first k [] h e = absurd (false≢true h)
any_first k (q ∷ qs) h e = elim (Bool-cases (has_key k q)) [
  | inl y ↦ absurd (ground arith)
  | inr n ↦ any_first k qs (ground arith) (ground arith)
]

add_term-keeps :
    (s t : Term) (ts : List Term)
    → any_of (same_term s) ts ≡ true
    → any_of (same_term s) (add_term t ts) ≡ true
add_term-keeps s t ts h = elim (Bool-cases (any_of (same_term t) ts)) [
  | inl y ↦ rw y h
  | inr n ↦ rw (n, any_of-append (same_term s) ts (t ∷ []), h) refl
]

same_term_refl : (t : Term) → same_term t t ≡ true
same_term_refl t = ground arith

add_term-has : (t : Term) (ts : List Term) → any_of (same_term t) (add_term t ts) ≡ true
add_term-has t ts = elim (Bool-cases (any_of (same_term t) ts)) [
  | inl y ↦ rw (y, y) refl
  | inr n ↦ rw (n, any_of-append (same_term t) ts (t ∷ []), n, same_term_refl t) refl
]

terms-grow :
    (t : Term) (ts : List Term) (qs : List Quarterly)
    → all_of (λ q. any_of (same_term q.term) ts) qs ≡ true
    → all_of (λ q. any_of (same_term q.term) (add_term t ts)) qs ≡ true
terms-grow t ts [] h = refl
terms-grow t ts (q ∷ qs) h =
    rw (add_term-keeps q.term t ts (ground arith)) (terms-grow t ts qs (ground arith))

all_of-append :
    (p : Quarterly → Bool) (qs : List Quarterly) (q : Quarterly)
    → all_of p (qs ++ q ∷ []) ≡ (all_of p qs && p q)
all_of-append p [] q = ground arith
all_of-append p (x ∷ xs) q = ground (arith, all_of-append p xs q)

insert-IsReferenced :
    (l : Ledger) (o : Option Quarterly) (q : Quarterly)
    → IsReferenced l
    → IsReferenced (insert_quarter l o q)
insert-IsReferenced l o q h =
    rw
      (
        all_of-append (λ x. any_of (same_term x.term) (add_term q.term l.terms)) l.quarters q,
        terms-grow q.term l.terms l.quarters h,
      )
      (add_term-has q.term l.terms)

-- At most `n` results of the company `k` and the term `t`, where `n` is not zero.
module _ (k : ℕ) (t : Term) (n : ℕ) (positive : 1 ≤ n) where
  abbrev pub Fits : Ledger → Type 0
  Fits l = IsReferenced l × (count_where (is_of k t) l.quarters ≤ n)

  insert-Fits :
      (l : Ledger) (c : Company) (d : QuarterInput)
      → Fits l
      → latest_where (is_of c.id d.term) l.quarters ≡ none
      → Fits (insert_quarter l none (revision_of c d 1))
  insert-Fits l c d (r, h) e = (
    insert-IsReferenced l none (revision_of c d 1) r,
    rw (count_where-append (is_of k t) l.quarters (revision_of c d 1 ∷ []))
        (elim (Bool-cases (is_of k t (revision_of c d 1))) [
          | inl y ↦ ground (
            arith,
            same_count (revision_of c d 1) k t l.quarters y,
            latest-none (is_of c.id d.term) l.quarters e,
          )
          | inr m ↦ ground arith
        ]),
  )

  abbrev pub ledger_after : Ledger → Outcome Added → Ledger
  ledger_after l (raised e) = l
  ledger_after l (returned a) = a.ledger

  replay-ledger :
      (l : Ledger) (c : Company) (d : QuarterInput) (q : Quarterly)
      → ledger_after l (replay l c d q) ≡ l
  replay-ledger l c d q = elim (Bool-cases (q.company == c.id)) [
    | inr m ↦ rw m refl
    | inl y ↦ elim (Bool-cases (same_values q d)) [
      | inr m ↦ rw (y, m) refl
      | inl s ↦ rw (y, s) refl
    ]
  ]

  add_revision-Fits :
      (l : Ledger) (c : Company) (d : QuarterInput) (o : Option Quarterly)
      → Fits l
      → first_where (has_key d.import_key) l.quarters ≡ none
      → latest_where (is_of c.id d.term) l.quarters ≡ o
      → is_other_key d o ≡ false
      → Fits (ledger_after l (add_revision l c d o))
  add_revision-Fits l c d none h fresh e s = insert-Fits l c d h e
  add_revision-Fits l c d (some r) h fresh e s =
      let same : r.import_key ≡ d.import_key = ground arith in
      absurd (
        any_first d.import_key l.quarters
          (ap (λ x. any_of (has_key x) l.quarters) (sym same)
            ∙ latest_key (is_of c.id d.term) l.quarters r e)
          fresh)

  pub add_for-Fits :
      (l : Ledger) (c : Company) (d : QuarterInput) (o : Option Quarterly)
      → Fits l
      → first_where (has_key d.import_key) l.quarters ≡ o
      → is_other_key d (latest_where (is_of c.id d.term) l.quarters) ≡ false
      → Fits (ledger_after l (add_for l c d o))
  add_for-Fits l c d none h e s =
      add_revision-Fits l c d (latest_where (is_of c.id d.term) l.quarters) h e refl s
  add_for-Fits l c d (some q) h e s = subst Fits (sym (replay-ledger l c d q)) h
