-- ===== src/Imports/Maintained/Fixed.antt =====
-- What `maintain_ipo` of apps/api/services.py leaves as it is.
use meraipo.Prelude.{
  ℕ, ◌≤◌, ◌≡◌, refl, ap, inl, inr, Bool, false, Option, none, some, List, [], ◌∷◌, ◌++◌, ◌==◌,
  arith, is_some, any_of, count_where, count_where-append, rows_where, first_where, update_first,
  Bool-cases,
}
use meraipo.Imports.Quarters.{Company, has_slug}
use meraipo.Imports.Maintained.{
  Ipo, Baseline, Register, IpoInput, Outcome, refused, saved, has_id, is_ipo_of, company_of,
  change_company, add_baseline, save_ipo, create, change, create_over, change_over, maintain_ipo,
}

abbrev pub register_after : Register → Outcome → Register
register_after r (refused e) = r
register_after r (saved q) = q

abbrev pub is_baseline_of : ℕ → Baseline → Bool
is_baseline_of i b = b.ipo == i

-- A slug is one company's at most.
abbrev pub IsNamed : List Company → Type 0
IsNamed cs = (s : ℕ) → count_where (has_slug s) cs ≤ 1

changed_slugs :
    (s k : ℕ) (d : IpoInput) (cs : List Company)
    → count_where (has_slug s) (update_first (has_id k) (change_company d) cs)
      ≡ count_where (has_slug s) cs
changed_slugs s k d [] = refl
changed_slugs s k d (c ∷ cs) = ground (arith, changed_slugs s k d cs)

no_slug :
    (s : ℕ) (cs : List Company)
    → first_where (has_slug s) cs ≡ none
    → count_where (has_slug s) cs ≡ 0
no_slug s [] e = refl
no_slug s (c ∷ cs) e = ground (arith, no_slug s cs)

created-IsNamed :
    (k : ℕ) (d : IpoInput) (cs : List Company)
    → IsNamed cs
    → first_where (has_slug d.slug) cs ≡ none
    → IsNamed (cs ++ company_of k d ∷ [])
created-IsNamed k d cs v e s =
    rw (count_where-append (has_slug s) cs (company_of k d ∷ [])) (elim (Bool-cases (d.slug == s)) [
      | inr n ↦ ground (arith, v s)
      | inl y ↦
          let same : d.slug ≡ s = ground arith in
          ground (arith, ap (λ x. count_where (has_slug x) cs) same, no_slug d.slug cs e)
    ])

save-companies :
    (i k : ℕ) (d : IpoInput) (r : Register) (o : Option Ipo)
    → (save_ipo i k d r o).companies ≡ r.companies
save-companies i k d r none = refl
save-companies i k d r (some x) = refl

-- A baseline is added to one IPO.
other-baselines :
    (i j : ℕ) (o : Option ℕ) (bs : List Baseline)
    → (j == i) ≡ false
    → rows_where (is_baseline_of i) (add_baseline j o bs) ≡ rows_where (is_baseline_of i) bs
other-baselines i j none bs n = refl
other-baselines i j (some v) [] n = rw n refl
other-baselines i j (some v) (b ∷ bs) n = rw (other-baselines i j (some v) bs n) refl

no_baseline :
    (i : ℕ) (o : Option ℕ) (bs : List Baseline) → is_some o ≡ false → add_baseline i o bs ≡ bs
no_baseline i none bs h = refl
no_baseline i (some v) bs h = absurd (ground arith)

changed-baselines :
    (i k : ℕ) (d : IpoInput) (r : Register) (o : Option Ipo)
    → is_some d.baseline ≡ false
    → (save_ipo i k d r o).baselines ≡ r.baselines
changed-baselines i k d r none h = no_baseline i d.baseline r.baselines h
changed-baselines i k d r (some x) h = no_baseline x.id d.baseline r.baselines h

-- The names are unique, and the baselines of an IPO are those of before.
abbrev pub IsKept : ℕ → Register → Register → Type 0
IsKept i r q =
    IsNamed q.companies
    × (rows_where (is_baseline_of i) q.baselines ≡ rows_where (is_baseline_of i) r.baselines)

no_ipo :
    (k : ℕ) (is : List Ipo) → any_of (is_ipo_of k) is ≡ false → first_where (is_ipo_of k) is ≡ none
no_ipo k [] h = refl
no_ipo k (x ∷ xs) h = ground (arith, no_ipo k xs)

change-IsKept :
    (new_ipo i : ℕ) (k : ℕ) (d : IpoInput) (r : Register)
    → IsNamed r.companies
    → is_some d.baseline ≡ false
    → IsKept i r (change new_ipo k d r)
change-IsKept new_ipo i k d r v h =
    let q : Register = record r {
      companies = update_first (has_id k) (change_company d) r.companies;
    } in
    let o = first_where (is_ipo_of k) r.ipos in
    (
      λ s. rw (save-companies new_ipo k d q o, changed_slugs s k d r.companies) (v s),
      ap (rows_where (is_baseline_of i)) (changed-baselines new_ipo k d q o h),
    )

create_over-IsKept :
    (new_company new_ipo i : ℕ) (d : IpoInput) (r : Register) (o : Option Company)
    → IsNamed r.companies
    → any_of (is_ipo_of new_company) r.ipos ≡ false
    → (new_ipo == i) ≡ false
    → first_where (has_slug d.slug) r.companies ≡ o
    → IsKept i r (register_after r (create_over new_company new_ipo d r o))
create_over-IsKept new_company new_ipo i d r (some c) v f n e = (v, refl)
create_over-IsKept new_company new_ipo i d r none v f n e =
    rw (create, no_ipo new_company r.ipos f)
      (
        created-IsNamed new_company d r.companies v e,
        other-baselines i new_ipo d.baseline r.baselines n,
      )

change_over-IsKept :
    (new_ipo i slug : ℕ) (d : IpoInput) (r : Register) (o : Option Company)
    → IsNamed r.companies
    → IsKept i r (register_after r (change_over new_ipo slug d r o))
change_over-IsKept new_ipo i slug d r none v = (v, refl)
change_over-IsKept new_ipo i slug d r (some c) v = elim (Bool-cases (d.slug == slug)) [
  | inr n ↦ rw n (v, refl)
  | inl y ↦ elim (Bool-cases (is_some d.baseline)) [
    | inl b ↦ rw (y, b) (v, refl)
    | inr b ↦ rw (y, b) (change-IsKept new_ipo i c.id d r v b)
  ]
]

-- Whether `maintain_ipo` creates, changes or refuses, a slug stays one company's at most, and the
-- baselines of every IPO but the new one stay as they were, where the number of the new company is that
-- of no IPO's company.
pub maintain_ipo-IsKept :
    (new_company new_ipo i : ℕ) (slug : Option ℕ) (d : IpoInput) (r : Register)
    → IsNamed r.companies
    → any_of (is_ipo_of new_company) r.ipos ≡ false
    → (new_ipo == i) ≡ false
    → IsKept i r (register_after r (maintain_ipo new_company new_ipo slug d r))
unfolding maintain_ipo
maintain_ipo-IsKept new_company new_ipo i none d r v f n =
    create_over-IsKept new_company new_ipo i d r (first_where (has_slug d.slug) r.companies) v f n
      refl
maintain_ipo-IsKept new_company new_ipo i (some slug) d r v f n =
    change_over-IsKept new_ipo i slug d r (first_where (has_slug slug) r.companies) v
