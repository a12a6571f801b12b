-- ===== src/Results/Store/Versions.antt =====
-- The versions of a result that `publish` of apps/worker/results.py keeps, against what a reader of
-- the current results sees.
use mathlib.Core.Path.{subst}
use meraipo.Prelude.{
  ℕ, ◌+◌, ◌≡◌, ◌≤◌, refl, inl, inr, true, false, Option, none, some, List, [], ◌∷◌, ◌++◌, arith,
  ◌==◌, if◌then◌else◌, first_where, update_first, count_where, Bool-cases,
}
use meraipo.Results.Store.{
  Period, Result, Item, same_period, is_current_of, new_result, retire, credit,
}

-- The current facts of a period with the number of their revision.
abbrev pub shown : Period → List Result → Option (ℕ × ℕ)
shown p rs = elim (first_where (is_current_of p) rs) [
  | none ↦ none
  | some r ↦ some (r.facts, r.revision)
]

-- At most one result of each period is current.
abbrev pub IsVersioned : List Result → Type 0
IsVersioned rs = (p : Period) → count_where (is_current_of p) rs ≤ 1

-- What publishing an item means to a reader: new facts are the next revision, the same facts change
-- nothing, and the other periods are left alone.
abbrev pub revise : ℕ → Option (ℕ × ℕ) → Option (ℕ × ℕ)
revise facts none = some (facts, 1)
revise facts (some (old, n)) = if old == facts then some (old, n) else some (facts, n + 1)

abbrev pub revise_item : Item → (Period → Option (ℕ × ℕ)) → Period → Option (ℕ × ℕ)
revise_item item view p = if same_period item.period p then revise item.facts (view p) else view p

abbrev pub revise_items : List Item → (Period → Option (ℕ × ℕ)) → Period → Option (ℕ × ℕ)
revise_items [] view = view
revise_items (item ∷ items) view = revise_items items (revise_item item view)

pub same_period_eq : (p q : Period) → same_period p q ≡ true → p ≡ q
same_period_eq p q h = ground arith

pub same_period_refl : (p : Period) → same_period p p ≡ true
same_period_refl p = ground arith

pub shown-append :
    (p : Period) (rs : List Result) (r : Result)
    → shown p (rs ++ r ∷ []) ≡ elim (shown p rs) [
      | some v ↦ some v
      | none ↦ if is_current_of p r then some (r.facts, r.revision) else none
    ]
shown-append p [] r = ground arith
shown-append p (x ∷ xs) r = ground (arith, shown-append p xs r)

pub count-append :
    (p : Period) (rs : List Result) (r : Result)
    → count_where (is_current_of p) (rs ++ r ∷ [])
      ≡ count_where (is_current_of p) rs + (if is_current_of p r then 1 else 0)
count-append p [] r = ground arith
count-append p (x ∷ xs) r = ground (arith, count-append p xs r)

pub shown-credit :
    (p q : Period) (k : ℕ) (rs : List Result)
    → shown p (update_first (is_current_of q) (credit k) rs) ≡ shown p rs
shown-credit p q k [] = refl
shown-credit p q k (x ∷ xs) = ground (arith, shown-credit p q k xs)

pub count-credit :
    (p q : Period) (k : ℕ) (rs : List Result)
    → count_where (is_current_of p) (update_first (is_current_of q) (credit k) rs)
      ≡ count_where (is_current_of p) rs
count-credit p q k [] = refl
count-credit p q k (x ∷ xs) = ground (arith, count-credit p q k xs)

pub shown-none :
    (p : Period) (rs : List Result) → count_where (is_current_of p) rs ≤ 0 → shown p rs ≡ none
shown-none p [] h = refl
shown-none p (x ∷ xs) h = ground (arith, shown-none p xs)

pub shown-retire :
    (p : Period) (rs : List Result)
    → count_where (is_current_of p) rs ≤ 1
    → shown p (update_first (is_current_of p) retire rs) ≡ none
shown-retire p [] h = refl
shown-retire p (x ∷ xs) h = ground (arith, shown-retire p xs, shown-none p xs)

pub shown-retire_other :
    (p q : Period) (rs : List Result)
    → same_period q p ≡ false
    → shown p (update_first (is_current_of q) retire rs) ≡ shown p rs
shown-retire_other p q [] h = refl
shown-retire_other p q (x ∷ xs) h = ground (arith, shown-retire_other p q xs h)

pub count-retire-le :
    (p q : Period) (rs : List Result)
    → count_where (is_current_of p) (update_first (is_current_of q) retire rs)
      ≤ count_where (is_current_of p) rs
count-retire-le p q [] = omega arith
count-retire-le p q (x ∷ xs) = ground (arith, count-retire-le p q xs)

pub count-retire :
    (p : Period) (rs : List Result)
    → count_where (is_current_of p) rs ≤ 1
    → count_where (is_current_of p) (update_first (is_current_of p) retire rs) ≡ 0
count-retire p [] h = refl
count-retire p (x ∷ xs) h = ground (arith, count-retire p xs)

pub shown-new :
    (item : Item) (f n : ℕ) (rs : List Result) (k : Period)
    → (same_period item.period k ≡ true → shown k rs ≡ none)
    → shown k (rs ++ new_result f n item ∷ [])
      ≡ (if same_period item.period k then some (item.facts, n) else shown k rs)
shown-new item f n rs k h = elim (Bool-cases (same_period item.period k)) [
  | inl s ↦ ground (arith, shown-append k rs (new_result f n item), h s, s)
  | inr d ↦ ground (arith, shown-append k rs (new_result f n item), d)
]

-- Where a period shows nothing, no equal period does.
pub shown-none_of :
    (p k : Period) (rs : List Result)
    → shown p rs ≡ none
    → same_period p k ≡ true
    → shown k rs ≡ none
shown-none_of p k rs h s = subst (λ x. shown x rs ≡ none) (same_period_eq p k s) h

pub shown-some :
    (p : Period) (rs : List Result) (c : Result)
    → first_where (is_current_of p) rs ≡ some c
    → shown p rs ≡ some (c.facts, c.revision)
shown-some p rs c e = ground arith

pub shown-missing :
    (p : Period) (rs : List Result) → first_where (is_current_of p) rs ≡ none → shown p rs ≡ none
shown-missing p rs e = ground arith

pub count-none :
    (p : Period) (rs : List Result) → shown p rs ≡ none → count_where (is_current_of p) rs ≡ 0
count-none p [] h = refl
count-none p (x ∷ xs) h = ground (arith, count-none p xs)

-- A new current result after a table in which its period has none.
pub new-IsVersioned :
    (item : Item) (f n : ℕ) (rs : List Result)
    → IsVersioned rs
    → shown item.period rs ≡ none
    → IsVersioned (rs ++ new_result f n item ∷ [])
new-IsVersioned item f n rs v h k = elim (Bool-cases (same_period item.period k)) [
  | inl s ↦ ground (
    arith,
    count-append k rs (new_result f n item),
    count-none k rs (shown-none_of item.period k rs h s),
    s,
  )
  | inr d ↦ ground (arith, count-append k rs (new_result f n item), v k, d)
]
