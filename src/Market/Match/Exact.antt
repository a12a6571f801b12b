-- ===== src/Market/Match/Exact.antt =====
-- The company that `match_company` of apps/worker/market.py finds, against the identifiers.
use mathlib.Core.Bool.{false≢true}
use meraipo.Prelude.{
  ℕ, ◌≡◌, ◌∙◌, ap, refl, sym, inl, inr, Bool, true, false, Option, none, some, List, [], ◌∷◌, ◌==◌,
  is_some, any_of, all_of, any_of-append, first_where-holds, Bool-cases, arith, ==_refl,
}
use meraipo.Market.Match.{
  Company, Tables, Data, Issue, Candidate, Outcome, raised, returned, ◌>>=◌, add_match, add_found,
  find_isin, find_symbol, add_symbols, add_mirrors, is_mirror, legacy_for, candidates, add_legacy,
  exact_matches, pick, has_id, contradicts, check_isin, get_company, match_company,
}

abbrev holds : ℕ → List ℕ → Bool
holds k ks = any_of (λ x. x == k) ks

add_match-holds : (k : ℕ) (ks : List ℕ) → holds k (add_match k ks) ≡ true
add_match-holds k ks = elim (Bool-cases (holds k ks)) [
  | inl y ↦ rw (y, y) refl
  | inr n ↦ rw (n, any_of-append (λ x. x == k) ks (k ∷ []), n, ==_refl k) refl
]

add_match-keeps : (j k : ℕ) (ks : List ℕ) → holds j ks ≡ true → holds j (add_match k ks) ≡ true
add_match-keeps j k ks h = elim (Bool-cases (holds k ks)) [
  | inl y ↦ rw y h
  | inr n ↦ rw (n, any_of-append (λ x. x == j) ks (k ∷ []), h) refl
]

add_found-keeps :
    (j : ℕ) (o : Option ℕ) (ks : List ℕ) → holds j ks ≡ true → holds j (add_found o ks) ≡ true
add_found-keeps j none ks h = h
add_found-keeps j (some k) ks h = add_match-keeps j k ks h

add_found-holds :
    (k : ℕ) (o : Option ℕ) (ks : List ℕ) → o ≡ some k → holds k (add_found o ks) ≡ true
add_found-holds k o ks e = rw e (add_match-holds k ks)

-- Whether a company that was found, if any was, is this one.
abbrev pub agrees : Option ℕ → ℕ → Bool
agrees none c = true
agrees (some k) c = c == k

agrees_holding : (c : ℕ) (o : Option ℕ) → ((k : ℕ) → o ≡ some k → c ≡ k) → agrees o c ≡ true
agrees_holding c none h = refl
agrees_holding c (some k) h = ground (arith, h k refl)

module _ (t : Tables) where
  add_symbols-keeps :
      (j : ℕ) (ss : List (ℕ × Option ℕ)) (ks : List ℕ)
      → holds j ks ≡ true
      → holds j (add_symbols t ss ks) ≡ true
  add_symbols-keeps j [] ks h = h
  add_symbols-keeps j (s ∷ ss) ks h =
      add_symbols-keeps j ss (add_found (find_symbol t s) ks)
        (add_found-keeps j (find_symbol t s) ks h)

  -- Where every company that the symbols add is one, they agree on it.
  symbols_agree :
      (c : ℕ) (ss : List (ℕ × Option ℕ)) (ks : List ℕ)
      → ((k : ℕ) → holds k (add_symbols t ss ks) ≡ true → c ≡ k)
      → all_of (λ s. agrees (find_symbol t s) c) ss ≡ true
  symbols_agree c [] ks h = refl
  symbols_agree c (s ∷ ss) ks h =
      let one : agrees (find_symbol t s) c ≡ true = agrees_holding c (find_symbol t s) (λ k e. h k (
        add_symbols-keeps k ss (add_found (find_symbol t s) ks)
          (add_found-holds k (find_symbol t s) ks e))) in
      rw one (symbols_agree c ss (add_found (find_symbol t s) ks) h)

bind_returned :
    (a : Outcome (Option ℕ)) (f : Option ℕ → Outcome (Option Company)) (y : Option Company)
    → (a >>= f) ≡ returned y
    → (x : Option ℕ) × ((a ≡ returned x) × (f x ≡ returned y))
bind_returned (raised e) f y h = absurd (ground arith)
bind_returned (returned x) f y h = (x, (refl, h))

abbrev taken : Company → Outcome (Option Company) → Company
taken b (returned (some c)) = c
taken b _ = b

module _ (bse_symbol : ℕ) (fold company_key : ℕ → ℕ) where
  add_mirrors-keeps :
      (t : Tables) (i : Issue) (symbol j : ℕ) (cs : List Candidate) (ks : List ℕ)
      → holds j ks ≡ true
      → holds j (add_mirrors bse_symbol fold company_key t i symbol cs ks) ≡ true
  add_mirrors-keeps t i symbol j [] ks h = h
  add_mirrors-keeps t i symbol j (k ∷ cs) ks h =
      elim (Bool-cases (is_mirror bse_symbol fold company_key t i symbol k)) [
        | inl y ↦ rw y (
            add_mirrors-keeps t i symbol j cs (add_match k.company.id ks)
              (add_match-keeps j k.company.id ks h))
        | inr n ↦ rw n (add_mirrors-keeps t i symbol j cs ks h)
      ]

  legacy_for-keeps :
      (t : Tables) (i : Option Issue) (symbol : Option ℕ) (j : ℕ) (ks : List ℕ)
      → holds j ks ≡ true
      → holds j (legacy_for bse_symbol fold company_key t i symbol ks) ≡ true
  legacy_for-keeps t none symbol j ks h = h
  legacy_for-keeps t (some i) none j ks h = h
  legacy_for-keeps t (some i) (some s) j ks h =
      add_mirrors-keeps t i s j (candidates t.companies t.ipos t.dates) ks h

  add_legacy-keeps :
      (t : Tables) (d : Data) (j : ℕ) (ks : List ℕ)
      → holds j ks ≡ true
      → holds j (add_legacy bse_symbol fold company_key t d ks) ≡ true
  add_legacy-keeps t d j ks h = elim (Bool-cases (is_some d.namespace)) [
    | inl y ↦ rw y (legacy_for-keeps t d.issue d.nse_symbol j ks h)
    | inr n ↦ rw n h
  ]

  pick-exact :
      (t : Tables) (d : Data) (k : ℕ) (ks : List ℕ) (o : Option ℕ)
      → holds k ks ≡ true
      → pick bse_symbol fold company_key t d ks ≡ returned o
      → o ≡ some k
  pick-exact t d k [] o h e = absurd (false≢true h)
  pick-exact t d k (j ∷ []) o h e = ground arith
  pick-exact t d k (i ∷ j ∷ ks) o h e = absurd (ground arith)

  check_isin-exact :
      (d : Data) (o : Option Company) (c : Company)
      → check_isin bse_symbol fold company_key d o ≡ returned (some c)
      → (o ≡ some c) × (contradicts bse_symbol fold company_key d.isin c.isin ≡ false)
  check_isin-exact d none c e = absurd (ground arith)
  check_isin-exact d (some b) c e =
      elim (Bool-cases (contradicts bse_symbol fold company_key d.isin b.isin)) [
        | inl y ↦ absurd (ground arith)
        | inr n ↦
            let same : b ≡ c = ap (taken b) (rw n at e) in
            (
              ap some same,
              ap (λ x. contradicts bse_symbol fold company_key d.isin x.isin) (sym same) ∙ n,
            )
      ]

  get_company-id :
      (t : Tables) (k : ℕ) (c : Company)
      → get_company bse_symbol fold company_key t (some k) ≡ some c
      → c.id ≡ k
  get_company-id t k c e =
      let found = first_where-holds (has_id bse_symbol fold company_key k) t.companies c e in
      ground arith

  matched :
      (t : Tables) (d : Data) (k : ℕ) (c : Company)
      → holds k (exact_matches bse_symbol fold company_key t d) ≡ true
      → match_company bse_symbol fold company_key t d ≡ returned (some c)
      → c.id ≡ k
  unfolding match_company
  matched t d k c h e =
      let (o, (picked, checked)) =
        bind_returned
          (pick bse_symbol fold company_key t d (exact_matches bse_symbol fold company_key t d)) _
          (some c) e in
      let own : o ≡ some k =
        pick-exact t d k (exact_matches bse_symbol fold company_key t d) o h picked in
      get_company-id t k c (
        ap (get_company bse_symbol fold company_key t) (sym own)
        ∙ (check_isin-exact d _ c checked).0)

  -- The company that `match_company` returns is that of the record's ISIN, if a company has it, and of
  -- every identifier of the record that is in the table, and its own ISIN does not differ from the
  -- record's: a record whose identifiers lead to two companies is never given to either.
  pub match_company_exact :
      (t : Tables) (d : Data) (c : Company)
      → match_company bse_symbol fold company_key t d ≡ returned (some c)
      → (agrees (find_isin t d.isin) c.id ≡ true)
        × (all_of (λ s. agrees (find_symbol t s) c.id) d.identifiers ≡ true)
        × (contradicts bse_symbol fold company_key d.isin c.isin ≡ false)
  unfolding match_company
  match_company_exact t d c e =
      let first = add_found (find_isin t d.isin) [] in
      let all = add_symbols t d.identifiers first in
      let same : (k : ℕ) → holds k all ≡ true → c.id ≡ k =
        λ k h. matched t d k c (add_legacy-keeps t d k all h) e in
      (
        agrees_holding c.id (find_isin t d.isin) (λ k f. same k (
            add_symbols-keeps t k d.identifiers first
              (add_found-holds k (find_isin t d.isin) [] f))),
        symbols_agree t c.id d.identifiers first same,
        (check_isin-exact d _ c
            (bind_returned
              (pick bse_symbol fold company_key t d (exact_matches bse_symbol fold company_key t d))
              _ (some c) e).1.1).1,
      )
