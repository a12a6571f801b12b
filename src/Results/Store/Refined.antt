-- ===== src/Results/Store/Refined.antt =====
-- `publish` of apps/worker/results.py, as a reader of the current results sees it.
use mathlib.Core.Path.{subst}
use meraipo.Prelude.{
  ℕ, ◌+◌, ◌≡◌, refl, ◌∙◌, ap, inl, inr, Bool, true, false, Option, none, some, List, [], ◌∷◌, ◌++◌,
  arith, ◌==◌, if◌then◌else◌, first_where, update_first, Bool-cases, Option-cases,
}
use meraipo.Results.Store.{
  Period, Result, Filing, Item, Attempt, raised, returned, timestamp_review_required, ◌>>=◌,
  same_period, is_current_of, new_result, retire, credit, may_revise, Published, publish_over,
  publish_items, publish, has_id,
}
use meraipo.Results.Store.Versions.{
  shown, IsVersioned, revise_item, revise_items, same_period_eq, shown-credit, count-credit,
  shown-retire, shown-retire_other, count-retire-le, shown-new, shown-none_of, shown-some,
  shown-missing, new-IsVersioned,
}

-- What one turn of the loop does, as a reader sees it.
abbrev Refines : Item → List Result → List Result → Type 0
Refines item rs rs' =
    IsVersioned rs' × ((k : Period) → shown k rs' ≡ revise_item item (λ p. shown p rs) k)

first-Refines :
    (item : Item) (f : ℕ) (rs : List Result)
    → IsVersioned rs
    → shown item.period rs ≡ none
    → Refines item rs (rs ++ new_result f 1 item ∷ [])
first-Refines item f rs v h = (
  new-IsVersioned item f 1 rs v h,
  λ k. ground (
    arith,
    shown-new item f 1 rs k (shown-none_of item.period k rs h),
    shown-none_of item.period k rs h,
  ),
)

kept_view :
    (item : Item) (rs : List Result) (c : Result) (k : Period)
    → shown item.period rs ≡ some (c.facts, c.revision)
    → (c.facts == item.facts) ≡ true
    → shown k rs ≡ revise_item item (λ p. shown p rs) k
kept_view item rs c k h same = elim (Bool-cases (same_period item.period k)) [
  | inr d ↦ rw d refl
  | inl s ↦
      let e : shown k rs ≡ some (c.facts, c.revision) =
        subst (λ x. shown x rs ≡ some (c.facts, c.revision)) (same_period_eq item.period k s) h in
      rw (s, e, same) refl
]

next_view :
    (item : Item) (rs : List Result) (c : Result) (k : Period)
    → shown item.period rs ≡ some (c.facts, c.revision)
    → (c.facts == item.facts) ≡ false
    → (if same_period item.period k
        then some (item.facts, c.revision + 1)
        else shown k (update_first (is_current_of item.period) retire rs))
      ≡ revise_item item (λ p. shown p rs) k
next_view item rs c k h other = elim (Bool-cases (same_period item.period k)) [
  | inr d ↦ rw (d, shown-retire_other k item.period rs d) refl
  | inl s ↦
      let e : shown k rs ≡ some (c.facts, c.revision) =
        subst (λ x. shown x rs ≡ some (c.facts, c.revision)) (same_period_eq item.period k s) h in
      rw (s, e, other) refl
]

credit-Refines :
    (item : Item) (f : ℕ) (rs : List Result) (c : Result)
    → IsVersioned rs
    → shown item.period rs ≡ some (c.facts, c.revision)
    → (c.facts == item.facts) ≡ true
    → Refines item rs (update_first (is_current_of item.period) (credit f) rs)
credit-Refines item f rs c v h same = (
  λ k. rw (count-credit k item.period f rs) (v k),
  λ k. rw (shown-credit k item.period f rs) (kept_view item rs c k h same),
)

next-Refines :
    (item : Item) (f : ℕ) (rs : List Result) (c : Result)
    → IsVersioned rs
    → shown item.period rs ≡ some (c.facts, c.revision)
    → (c.facts == item.facts) ≡ false
    → Refines item rs (
        update_first (is_current_of item.period) retire rs
        ++ new_result f (c.revision + 1) item ∷ [])
next-Refines item f rs c v h other =
    let rs' = update_first (is_current_of item.period) retire rs in
    let gone = shown-retire item.period rs (v item.period) in
    (
      new-IsVersioned item f (c.revision + 1) rs'
          (λ k. omega (arith, count-retire-le k item.period rs, v k)) gone,
      λ k.
          shown-new item f (c.revision + 1) rs' k (shown-none_of item.period k rs' gone)
          ∙ next_view item rs c k h other,
    )

-- The turn that `publish_over` takes is one of these.
abbrev results_of : Published → Attempt Published → List Result
results_of p (raised e) = p.results
results_of p (returned q) = q.results

revised_results :
    (a : Attempt Bool) (rs : List Result) (p q : Published)
    → (a >>= (λ b. returned (record { results = rs; count = p.count + 1 }))) ≡ returned q
    → rs ≡ q.results
revised_results (raised e) rs p q h = absurd (ground arith)
revised_results (returned b) rs p q h = ap (results_of p) h

publish_over-Refines :
    (filings : List Filing) (filing : Filing) (t : ℕ) (item : Item) (p q : Published)
    (o : Option Result)
    → IsVersioned p.results
    → first_where (is_current_of item.period) p.results ≡ o
    → publish_over filings filing t item p o ≡ returned q
    → Refines item p.results q.results
unfolding publish_over
publish_over-Refines filings filing t item p q none v e h =
    subst (Refines item p.results) (ap (results_of p) h)
      (first-Refines item filing.id p.results v (shown-missing item.period p.results e))
publish_over-Refines filings filing t item p q (some c) v e h =
    elim (Bool-cases (c.facts == item.facts)) [
      | inl same ↦
          subst (Refines item p.results) (ap (results_of p) (rw (publish_over, same) at h)) (
            credit-Refines item filing.id p.results c v (shown-some item.period p.results c e) same)
      | inr other ↦
          subst (Refines item p.results)
            (revised_results (may_revise filing t (first_where (has_id c.filing) filings)) _ p q
              (rw (publish_over, other) at h))
            (next-Refines item filing.id p.results c v (shown-some item.period p.results c e) other)
    ]

revise_items-cong :
    (items : List Item) (v w : Period → Option (ℕ × ℕ))
    → ((k : Period) → v k ≡ w k)
    → (k : Period) → revise_items items v k ≡ revise_items items w k
revise_items-cong [] v w h k = h k
revise_items-cong (item ∷ items) v w h k =
    revise_items-cong items (revise_item item v) (revise_item item w) (λ p. rw (h p) refl) k

none_returned : (q : Published) → raised timestamp_review_required ≡ returned q → ⊥
none_returned q h = ground arith

abbrev after : Published → Attempt Published → Published
after p (raised e) = p
after p (returned q) = q

bind_returned :
    (a : Attempt Published) (f : Published → Attempt Published) (q : Published)
    → (a >>= f) ≡ returned q
    → (m : Published) × ((a ≡ returned m) × (f m ≡ returned q))
bind_returned (raised e) f q h = absurd (ground arith)
bind_returned (returned m) f q h = (m, (refl, h))

-- What publishing items does, as a reader sees it.
abbrev pub RefinesAll : List Item → List Result → List Result → Type 0
RefinesAll items rs rs' =
    IsVersioned rs' × ((k : Period) → shown k rs' ≡ revise_items items (λ p. shown p rs) k)

publish_items-RefinesAll :
    (filings : List Filing) (filing : Filing) (t : ℕ) (items : List Item) (p q : Published)
    → IsVersioned p.results
    → publish_items filings filing t items p ≡ returned q
    → RefinesAll items p.results q.results
unfolding publish_items
publish_items-RefinesAll filings filing t [] p q v h =
    subst (λ (x : Published). RefinesAll [] p.results x.results) (ap (after p) h) (v, λ k. refl)
publish_items-RefinesAll filings filing t (item ∷ items) p q v h =
    let (m, (e, r)) = bind_returned _ _ q h in
    let (v', one) = publish_over-Refines filings filing t item p m _ v refl e in
    let (u, rest) = publish_items-RefinesAll filings filing t items m q v' r in
    (u, λ k. rest k ∙ revise_items-cong items _ _ one k)

-- `publish`, where it returns, keeps one current result of each period and refines the plain
-- meaning of publishing: facts that differ from the current ones of their period become its next
-- revision, the same facts leave it as it is, and no other period changes.
pub publish_refines :
    (filings : List Filing) (filing : Filing) (items : List Item) (results : List Result)
    (q : Published)
    → IsVersioned results
    → publish filings filing items results ≡ returned q
    → RefinesAll items results q.results
unfolding publish
publish_refines filings filing items results q v h = elim (Option-cases filing.announced_at) [
  | inl e ↦ absurd (none_returned q (rw (publish, e) at h))
  | inr (t, e) ↦ publish_items-RefinesAll filings filing t items _ q v (rw (publish, e) at h)
]
