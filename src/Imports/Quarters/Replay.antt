-- ===== src/Imports/Quarters/Replay.antt =====
-- What `add_quarter` of apps/api/services.py does with a key that is used again, and with a verified result.
use mathlib.Core.Path.{subst}
use mathlib.Core.Bool.{false≢true}
use meraipo.Prelude.{
  ℕ, ◌≡◌, ◌∙◌, ap, refl, sym, inl, inr, Bool, true, false, Option, none, some, List, [], ◌∷◌, ◌++◌,
  ◌==◌, if◌then◌else◌, first_where, Option-cases, Bool-cases, arith, ==_refl,
}
use meraipo.Imports.Quarters.{
  Term, Company, Quarterly, QuarterInput, Ledger, Outcome, raised, returned, Added, Verification,
  unverified, verified, partial, same_verification, is_verified, same_values, has_slug, has_key,
  is_of, latest_where, newest, is_protected, replay, add_revision, add_for, revision_of,
  next_revision, add_quarter,
}
use meraipo.Imports.Quarters.Numbered.{quarters_of, same_term_eq, replay-quarters}

same_verification_refl : (v : Verification) → same_verification v v ≡ true
same_verification_refl unverified = refl
same_verification_refl verified = refl
same_verification_refl partial = refl

new_values : (c : Company) (d : QuarterInput) (n : ℕ) → same_values (revision_of c d n) d ≡ true
new_values c d n = rw (same_verification_refl d.verification) (ground arith)

first_where-new :
    (k : ℕ) (qs : List Quarterly) (q : Quarterly)
    → first_where (has_key k) qs ≡ none
    → q.import_key ≡ k
    → first_where (has_key k) (qs ++ q ∷ []) ≡ some q
first_where-new k [] q h e = ground arith
first_where-new k (x ∷ xs) q h e = ground (arith, first_where-new k xs q)

-- A call of `add_quarter` after one that returned, and what it is to give: the same row, found.
abbrev pub called_twice : ℕ → QuarterInput → Outcome Added → Outcome Added
called_twice slug d (raised e) = raised e
called_twice slug d (returned a) = add_quarter a.ledger slug d

abbrev pub found : Outcome Added → Outcome Added
found (raised e) = raised e
found (returned a) = returned (record a { created = false })

module _ (l : Ledger) (slug : ℕ) (d : QuarterInput) (c : Company)
    (known : first_where (has_slug slug) l.companies ≡ some c) where
  replay_again :
      (q : Quarterly)
      → first_where (has_key d.import_key) l.quarters ≡ some q
      → called_twice slug d (replay l c d q) ≡ found (replay l c d q)
  unfolding add_quarter
  replay_again q e = elim (Bool-cases (q.company == c.id)) [
    | inr n ↦ rw n refl
    | inl y ↦ elim (Bool-cases (same_values q d)) [
      | inr n ↦ rw (y, n) refl
      | inl s ↦ rw (y, s, add_quarter, known, e, y, s) refl
    ]
  ]

  insert_again :
      (latest : Option Quarterly)
      → first_where (has_key d.import_key) l.quarters ≡ none
      → called_twice slug d (add_revision l c d latest) ≡ found (add_revision l c d latest)
  unfolding add_quarter
  insert_again latest e = elim (Bool-cases (is_protected latest d)) [
    | inl y ↦ rw y refl
    | inr n ↦
        let q = revision_of c d (next_revision latest) in
        rw
          (
            n,
            add_quarter,
            known,
            first_where-new d.import_key l.quarters q e refl,
            ==_refl c.id,
            new_values c d (next_revision latest),
          )
          refl
  ]

  for_again :
      (o : Option Quarterly)
      → first_where (has_key d.import_key) l.quarters ≡ o
      → called_twice slug d (add_for l c d o) ≡ found (add_for l c d o)
  for_again none e = insert_again (latest_where (is_of c.id d.term) l.quarters) e
  for_again (some q) e = replay_again q e

first_step :
    (l : Ledger) (slug : ℕ) (d : QuarterInput) (c : Company)
    → first_where (has_slug slug) l.companies ≡ some c
    → add_quarter l slug d ≡ add_for l c d (first_where (has_key d.import_key) l.quarters)
unfolding add_quarter
first_step l slug d c e = rw (add_quarter, e) refl

-- `add_quarter` called again with the same data, after a call that returned, gives the row of that call,
-- marked as found, and leaves every table as that call left it.
pub add_quarter_again :
    (l : Ledger) (slug : ℕ) (d : QuarterInput)
    → called_twice slug d (add_quarter l slug d) ≡ found (add_quarter l slug d)
unfolding add_quarter
add_quarter_again l slug d = elim (Option-cases (first_where (has_slug slug) l.companies)) [
  | inl e ↦ rw (add_quarter, e) refl
  | inr (c, e) ↦
      subst (λ o. called_twice slug d o ≡ found o) (sym (first_step l slug d c e))
        (for_again l slug d c e (first_where (has_key d.import_key) l.quarters) refl)
]

abbrev join : Option Quarterly → Quarterly → Option Quarterly
join none q = some q
join (some r) q = newest r (some q)

latest-append :
    (p : Quarterly → Bool) (qs : List Quarterly) (q : Quarterly)
    → latest_where p (qs ++ q ∷ [])
      ≡ (if p q then join (latest_where p qs) q else latest_where p qs)
latest-append p [] q = ground arith
latest-append p (x ∷ xs) q = ground (arith, latest-append p xs q)

abbrev pub is_verified_result : Option Quarterly → Bool
is_verified_result none = false
is_verified_result (some q) = is_verified q.verification

-- Whether the latest result of a company's term is a verified one.
abbrev pub is_verified_at : ℕ → Term → List Quarterly → Bool
is_verified_at c t qs = is_verified_result (latest_where (is_of c t) qs)

join-verified :
    (c : Company) (d : QuarterInput) (o : Option Quarterly)
    → is_protected o d ≡ false
    → is_verified_result o ≡ true
    → is_verified_result (join o (revision_of c d (next_revision o))) ≡ true
join-verified c d none n v = absurd (false≢true v)
join-verified c d (some r) n v = ground arith

same_latest :
    (c : Company) (d : QuarterInput) (k : ℕ) (t : Term) (n : ℕ) (qs : List Quarterly)
    → is_of k t (revision_of c d n) ≡ true
    → latest_where (is_of k t) qs ≡ latest_where (is_of c.id d.term) qs
same_latest c d k t n qs h =
    let owned : c.id ≡ k = ground arith in
    let dated : d.term ≡ t = same_term_eq d.term t (ground arith) in
    sym (
      ap (λ x. latest_where (is_of x d.term) qs) owned
      ∙ ap (λ x. latest_where (is_of k x) qs) dated)

insert-verified :
    (l : Ledger) (c : Company) (d : QuarterInput) (k : ℕ) (t : Term)
    → is_protected (latest_where (is_of c.id d.term) l.quarters) d ≡ false
    → is_verified_at k t l.quarters ≡ true
    → is_verified_at k t (
        l.quarters
        ++ revision_of c d (next_revision (latest_where (is_of c.id d.term) l.quarters)) ∷ [])
      ≡ true
insert-verified l c d k t n v =
    let latest = latest_where (is_of c.id d.term) l.quarters in
    let q = revision_of c d (next_revision latest) in
    rw (latest-append (is_of k t) l.quarters q) (elim (Bool-cases (is_of k t q)) [
      | inr o ↦ rw o v
      | inl s ↦
          let e = same_latest c d k t (next_revision latest) l.quarters s in
          rw (s, e) (join-verified c d latest n (rw e at v))
    ])

add_revision-verified :
    (l : Ledger) (c : Company) (d : QuarterInput) (k : ℕ) (t : Term)
    → is_verified_at k t l.quarters ≡ true
    → is_verified_at k t
        (quarters_of l (add_revision l c d (latest_where (is_of c.id d.term) l.quarters)))
      ≡ true
add_revision-verified l c d k t v =
    elim (Bool-cases (is_protected (latest_where (is_of c.id d.term) l.quarters) d)) [
      | inl y ↦ rw (add_revision, y) v
      | inr n ↦ rw (add_revision, n) (insert-verified l c d k t n v)
    ]

add_for-verified :
    (l : Ledger) (c : Company) (d : QuarterInput) (o : Option Quarterly) (k : ℕ) (t : Term)
    → is_verified_at k t l.quarters ≡ true
    → is_verified_at k t (quarters_of l (add_for l c d o)) ≡ true
add_for-verified l c d none k t v = add_revision-verified l c d k t v
add_for-verified l c d (some q) k t v =
    subst (λ x. is_verified_at k t x ≡ true) (sym (replay-quarters l c d q)) v

-- Once the latest result of a company's term is verified it stays verified, whatever `add_quarter` is
-- called with.
pub add_quarter_verified :
    (l : Ledger) (slug : ℕ) (d : QuarterInput) (k : ℕ) (t : Term)
    → is_verified_at k t l.quarters ≡ true
    → is_verified_at k t (quarters_of l (add_quarter l slug d)) ≡ true
unfolding add_quarter
add_quarter_verified l slug d k t v =
    elim (Option-cases (first_where (has_slug slug) l.companies)) [
      | inl e ↦ rw (add_quarter, e) v
      | inr (c, e) ↦
          rw (add_quarter, e)
            (add_for-verified l c d (first_where (has_key d.import_key) l.quarters) k t v)
    ]
