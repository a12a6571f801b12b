-- ===== src/Market/Match/Unique.antt =====
-- When `remember_identifiers` of apps/worker/market.py breaks no constraint of the tables.
use meraipo.Market.Match.Exact.{agrees}
use meraipo.Prelude.{
  sym, first_where, ℕ, ◌≡◌, ◌∙◌, ap, refl, inl, inr, Bool, true, false, not, Option, none, some,
  List, [], ◌∷◌, any_of, all_of, Option-cases, arith,
}
use meraipo.Market.Match.{
  Identifier, is_known, is_new_symbol, repeats_symbol, is_other, Tables, find_symbol, is_symbol,
  company_of,
}

-- Whether every symbol is a row of the company.
abbrev pub all_known : ℕ → List (ℕ × Option ℕ) → List Identifier → Bool
all_known c ss is = all_of (λ s. not (is_new_symbol c s is)) ss

find_symbol_none :
    (x k : ℕ) (is : List Identifier)
    → company_of (first_where (is_symbol x k) is) ≡ none
    → any_of (is_symbol x k) is ≡ false
find_symbol_none x k [] h = refl
find_symbol_none x k (i ∷ is) h = ground (arith, find_symbol_none x k is)

find_symbol_some :
    (c x k : ℕ) (is : List Identifier)
    → company_of (first_where (is_symbol x k) is) ≡ some c
    → any_of (is_known c x k) is ≡ true
find_symbol_some c x k [] h = absurd (ground arith)
find_symbol_some c x k (i ∷ is) h = ground (arith, find_symbol_some c x k is)

-- A symbol that no other company has is not repeated.
agrees-repeats_symbol :
    (t : Tables) (c : ℕ) (s : ℕ × Option ℕ)
    → agrees (find_symbol t s) c ≡ true
    → repeats_symbol c t.identifiers s ≡ false
agrees-repeats_symbol t c (x, none) h = refl
agrees-repeats_symbol t c (x, some k) h =
    elim (Option-cases (company_of (first_where (is_symbol x k) t.identifiers))) [
      | inl e ↦ ground (arith, find_symbol_none x k t.identifiers e)
      | inr (j, e) ↦
          let same : c ≡ j = ground arith in
          ground (arith, find_symbol_some c x k t.identifiers (e ∙ ap some (sym same)))
    ]

pub agree-repeats_symbol :
    (t : Tables) (c : ℕ) (ss : List (ℕ × Option ℕ))
    → all_of (λ s. agrees (find_symbol t s) c) ss ≡ true
    → any_of (repeats_symbol c t.identifiers) ss ≡ false
agree-repeats_symbol t c [] h = refl
agree-repeats_symbol t c (s ∷ ss) h =
    let one = agrees-repeats_symbol t c s (ground arith) in
    rw one (agree-repeats_symbol t c ss (ground arith))

pub known-repeats_symbol :
    (c : ℕ) (ss : List (ℕ × Option ℕ)) (is : List Identifier)
    → all_known c ss is ≡ true
    → any_of (repeats_symbol c is) ss ≡ false
known-repeats_symbol c [] is h = refl
known-repeats_symbol c ((x, none) ∷ ss) is h = known-repeats_symbol c ss is (ground arith)
known-repeats_symbol c ((x, some k) ∷ ss) is h =
    let one : any_of (is_known c x k) is ≡ true = ground arith in
    rw one (known-repeats_symbol c ss is (ground arith))

pub agrees-is_other : (o : Option ℕ) (c : ℕ) → agrees o c ≡ true → is_other o c ≡ false
agrees-is_other o c h = ground arith
