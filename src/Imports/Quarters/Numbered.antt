-- ===== src/Imports/Quarters/Numbered.antt =====
-- The revisions that `add_quarter` of apps/api/services.py gives.
use mathlib.Core.Path.{subst}
use meraipo.Prelude.{
  ap, ◌∙◌, ℕ, ◌+◌, ◌≤◌, ◌≡◌, refl, sym, inl, inr, Bool, true, ◌&&◌, Option, none, some, List, [],
  ◌∷◌, ◌++◌, leb, ◌==◌, if◌then◌else◌, count_where, count_where-append, first_where, Option-cases,
  Bool-cases, arith,
}
use meraipo.Imports.Quarters.{
  Term, Company, Quarterly, QuarterInput, Ledger, Outcome, raised, returned, Added, same_term,
  is_of, latest_where, next_revision, revision_of, add_revision, add_for, add_quarter, has_key,
  has_slug, is_protected, replay,
}

-- The rows that pass a test, with a revision.
abbrev pub at_revision : (Quarterly → Bool) → ℕ → Quarterly → Bool
at_revision p k q = p q && q.revision == k

abbrev pub is_between : ℕ → ℕ → Bool
is_between k n = leb 1 k && leb k n

-- The revisions of each company's term are 1, 2, … up to their number, each once, and an import key is
-- used once.
abbrev pub IsNumbered : List Quarterly → Type 0
IsNumbered qs =
    ((c : ℕ) (t : Term) (k : ℕ)
      → count_where (at_revision (is_of c t) k) qs
        ≡ (if is_between k (count_where (is_of c t) qs) then 1 else 0))
    × ((k : ℕ) → count_where (has_key k) qs ≤ 1)

module _ (p : Quarterly → Bool) where
  pub latest-none : (qs : List Quarterly) → latest_where p qs ≡ none → count_where p qs ≡ 0
  latest-none [] h = refl
  latest-none (q ∷ qs) h = elim (Bool-cases (p q)) [
    | inr n ↦ rw n (latest-none qs (rw n at h))
    | inl y ↦ elim (Option-cases (latest_where p qs)) [
      | inl e ↦ absurd (ground arith)
      | inr (r, e) ↦ absurd (ground arith)
    ]
  ]

  pub at_revision-le :
      (k : ℕ) (qs : List Quarterly) → count_where (at_revision p k) qs ≤ count_where p qs
  at_revision-le k [] = omega arith
  at_revision-le k (q ∷ qs) = ground (arith, at_revision-le k qs)

  pub latest_present :
      (qs : List Quarterly) (r : Quarterly)
      → latest_where p qs ≡ some r
      → 1 ≤ count_where (at_revision p r.revision) qs
  latest_present [] r h = ground arith
  latest_present (q ∷ qs) r h = elim (Option-cases (latest_where p qs)) [
    | inl e ↦ ground arith
    | inr (x, e) ↦ ground (arith, latest_present qs x e)
  ]

  latest_greatest :
      (k : ℕ) (qs : List Quarterly) (r : Quarterly)
      → latest_where p qs ≡ some r
      → 1 ≤ count_where (at_revision p k) qs
      → k ≤ r.revision
  latest_greatest k [] r h e = ground arith
  latest_greatest k (q ∷ qs) r h e = elim (Option-cases (latest_where p qs)) [
    | inl n ↦ ground (arith, latest-none qs n, at_revision-le k qs)
    | inr (x, n) ↦ ground (arith, latest_greatest k qs x n)
  ]

  latest_revision :
      (qs : List Quarterly)
      → ((k : ℕ)
          → count_where (at_revision p k) qs ≡ (if is_between k (count_where p qs) then 1 else 0))
      → next_revision (latest_where p qs) ≡ count_where p qs + 1
  latest_revision qs h = elim (Option-cases (latest_where p qs)) [
    | inl e ↦ rw (e, latest-none qs e) refl
    | inr (r, e) ↦ rw e (
        ground (
          arith,
          latest_present qs r e,
          h r.revision,
          h (count_where p qs),
          latest_greatest (count_where p qs) qs r e,
        ))
  ]

pub same_term_eq : (s t : Term) → same_term s t ≡ true → s ≡ t
same_term_eq s t h = ground arith

pub same_count :
    (q : Quarterly) (c : ℕ) (t : Term) (qs : List Quarterly)
    → is_of c t q ≡ true
    → count_where (is_of q.company q.term) qs ≡ count_where (is_of c t) qs
same_count q c t qs h =
    let owned : q.company ≡ c = ground arith in
    let dated : q.term ≡ t = same_term_eq q.term t (ground arith) in
    ap (λ x. count_where (is_of x q.term) qs) owned ∙ ap (λ x. count_where (is_of c x) qs) dated

count-first_none :
    (k : ℕ) (qs : List Quarterly)
    → first_where (has_key k) qs ≡ none
    → count_where (has_key k) qs ≡ 0
count-first_none k [] h = refl
count-first_none k (q ∷ qs) h = ground (arith, count-first_none k qs)

extend-IsNumbered :
    (q : Quarterly) (qs : List Quarterly)
    → IsNumbered qs
    → q.revision ≡ count_where (is_of q.company q.term) qs + 1
    → first_where (has_key q.import_key) qs ≡ none
    → IsNumbered (qs ++ q ∷ [])
extend-IsNumbered q qs (v, u) next fresh = (
  λ c t k.
      rw
        (
          count_where-append (at_revision (is_of c t) k) qs (q ∷ []),
          count_where-append (is_of c t) qs (q ∷ []),
        )
        (elim (Bool-cases (is_of c t q)) [
          | inl y ↦ ground (arith, v c t k, same_count q c t qs y, next)
          | inr n ↦ ground (arith, v c t k)
        ]),
  λ k. rw (count_where-append (has_key k) qs (q ∷ [])) (elim (Bool-cases (has_key k q)) [
    | inl y ↦
        let e : q.import_key ≡ k = ground arith in
        ground
          (arith, ap (λ x. count_where (has_key x) qs) e, count-first_none q.import_key qs fresh)
    | inr n ↦ ground (arith, u k)
  ]),
)

-- The results that a call leaves.
abbrev pub quarters_of : Ledger → Outcome Added → List Quarterly
quarters_of l (raised e) = l.quarters
quarters_of l (returned a) = a.ledger.quarters

insert-IsNumbered :
    (l : Ledger) (c : Company) (d : QuarterInput)
    → IsNumbered l.quarters
    → first_where (has_key d.import_key) l.quarters ≡ none
    → IsNumbered (quarters_of l (add_revision l c d (latest_where (is_of c.id d.term) l.quarters)))
insert-IsNumbered l c d v fresh =
    let latest = latest_where (is_of c.id d.term) l.quarters in
    elim (Bool-cases (is_protected latest d)) [
      | inl y ↦ rw (add_revision, y) v
      | inr n ↦
          rw (add_revision, n)
            (extend-IsNumbered (revision_of c d (next_revision latest)) l.quarters v
              (latest_revision (is_of c.id d.term) l.quarters (λ k. v.0 c.id d.term k)) fresh)
    ]

pub replay-quarters :
    (l : Ledger) (c : Company) (d : QuarterInput) (q : Quarterly)
    → quarters_of l (replay l c d q) ≡ l.quarters
replay-quarters l c d q = ground arith

for-IsNumbered :
    (l : Ledger) (c : Company) (d : QuarterInput) (o : Option Quarterly)
    → IsNumbered l.quarters
    → first_where (has_key d.import_key) l.quarters ≡ o
    → IsNumbered (quarters_of l (add_for l c d o))
for-IsNumbered l c d none v e = insert-IsNumbered l c d v e
for-IsNumbered l c d (some q) v e = subst IsNumbered (sym (replay-quarters l c d q)) v

-- `add_quarter` keeps the revisions of each company's term 1, 2, … up to their number, each once, and
-- each import key used once, whether it adds a revision, finds the key in use or raises.
pub add_quarter-IsNumbered :
    (l : Ledger) (slug : ℕ) (d : QuarterInput)
    → IsNumbered l.quarters
    → IsNumbered (quarters_of l (add_quarter l slug d))
unfolding add_quarter
add_quarter-IsNumbered l slug d v = elim (Option-cases (first_where (has_slug slug) l.companies)) [
  | inl e ↦ rw (add_quarter, e) v
  | inr (c, e) ↦
      rw (add_quarter, e)
        (for-IsNumbered l c d (first_where (has_key d.import_key) l.quarters) v refl)
]
