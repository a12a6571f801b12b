-- ===== src/Market/Match/Recall.antt =====
-- What `remember_identifiers` of apps/worker/market.py leaves.
use meraipo.Market.Match.Exact.{agrees, match_company_exact}
use meraipo.Market.Match.Unique.{
  all_known, agree-repeats_symbol, known-repeats_symbol, agrees-is_other,
}
use meraipo.Prelude.{
  ℕ, ◌≡◌, ◌∙◌, ap, refl, inl, inr, Bool, true, false, ◌||◌, Option, none, some, List, [], ◌∷◌,
  any_of, all_of, any_of-append, Option-cases, Bool-cases, arith, ==_refl,
}
use meraipo.Market.Match.{
  Company, Identifier, Data, is_known, remember_symbol, is_new_symbol, Remembered, remember_symbols,
  remember_isin, remember_identifiers, write_identifiers, repeats_isin, tables_after, Tables,
  find_symbol, find_isin, match_company, returned,
}

remember_symbol-settles :
    (c : ℕ) (s : ℕ × Option ℕ) (is : List Identifier)
    → is_new_symbol c s (remember_symbol c s is) ≡ false
remember_symbol-settles c (e, none) is = refl
remember_symbol-settles c (e, some s) is = elim (Bool-cases (any_of (is_known c e s) is)) [
  | inl y ↦ rw (y, y) refl
  | inr n ↦
      rw
        (
          n,
          any_of-append (is_known c e s) is (record { company = c; exchange = e; ticker = s } ∷ []),
          n,
          ==_refl c,
          ==_refl e,
          ==_refl s,
        )
        refl
]

remember_symbol-keeps :
    (c : ℕ) (s x : ℕ × Option ℕ) (is : List Identifier)
    → is_new_symbol c s is ≡ false
    → is_new_symbol c s (remember_symbol c x is) ≡ false
remember_symbol-keeps c (e, none) x is h = refl
remember_symbol-keeps c (e, some s) (f, none) is h = h
remember_symbol-keeps c (e, some s) (f, some u) is h =
    elim (Bool-cases (any_of (is_known c f u) is)) [
      | inl y ↦ rw y h
      | inr n ↦
          let known : any_of (is_known c e s) is ≡ true = ground arith in
          rw
            (
              n,
              any_of-append (is_known c e s) is
                  (record { company = c; exchange = f; ticker = u } ∷ []),
              known,
            )
            refl
    ]

remember_symbols-company :
    (ss : List (ℕ × Option ℕ)) (r : Remembered) → (remember_symbols ss r).company ≡ r.company
remember_symbols-company [] r = refl
remember_symbols-company (s ∷ ss) r = remember_symbols-company ss (record r {
  identifiers = remember_symbol r.company.id s r.identifiers;
  changed = r.changed || is_new_symbol r.company.id s r.identifiers;
})

remember_symbols-keeps :
    (s : ℕ × Option ℕ) (ss : List (ℕ × Option ℕ)) (r : Remembered)
    → is_new_symbol r.company.id s r.identifiers ≡ false
    → is_new_symbol r.company.id s (remember_symbols ss r).identifiers ≡ false
remember_symbols-keeps s [] r h = h
remember_symbols-keeps s (x ∷ ss) r h =
    remember_symbols-keeps s ss
      (record r {
        identifiers = remember_symbol r.company.id x r.identifiers;
        changed = r.changed || is_new_symbol r.company.id x r.identifiers;
      })
      (remember_symbol-keeps r.company.id s x r.identifiers h)

remember_symbols-known :
    (ss : List (ℕ × Option ℕ)) (r : Remembered)
    → all_known r.company.id ss (remember_symbols ss r).identifiers ≡ true
remember_symbols-known [] r = refl
remember_symbols-known (s ∷ ss) r =
    let next = record r {
      identifiers = remember_symbol r.company.id s r.identifiers;
      changed = r.changed || is_new_symbol r.company.id s r.identifiers;
    } in
    rw (remember_symbols-keeps s ss next (remember_symbol-settles r.company.id s r.identifiers))
      (remember_symbols-known ss next)

known-symbol :
    (c : ℕ) (s : ℕ × Option ℕ) (is : List Identifier)
    → is_new_symbol c s is ≡ false
    → remember_symbol c s is ≡ is
known-symbol c (e, none) is h = refl
known-symbol c (e, some s) is h = elim (Bool-cases (any_of (is_known c e s) is)) [
  | inl y ↦ rw y refl
  | inr n ↦ absurd (ground arith)
]

or_false : (b : Bool) → (b || false) ≡ b
or_false true = refl
or_false false = refl

known_symbols :
    (ss : List (ℕ × Option ℕ)) (is : List Identifier) (c : Company) (b : Bool)
    → all_known c.id ss is ≡ true
    → remember_symbols ss (record { identifiers = is; company = c; changed = b })
      ≡ record { identifiers = is; company = c; changed = b }
known_symbols [] is c b h = refl
known_symbols (s ∷ ss) is c b h =
    let old : is_new_symbol c.id s is ≡ false = ground arith in
    rw (known-symbol c.id s is old, old, or_false b) (known_symbols ss is c b (ground arith))

isin_again :
    (i : Option ℕ) (r : Remembered)
    → remember_isin i (record (remember_isin i r) { changed = false })
      ≡ record (remember_isin i r) { changed = false }
isin_again none r = refl
isin_again (some i) r = elim (Option-cases r.company.isin) [
  | inl e ↦ rw e refl
  | inr (x, e) ↦ rw e refl
]

-- The company's number is not changed by its ISIN.
remember_isin-id : (i : Option ℕ) (r : Remembered) → (remember_isin i r).company.id ≡ r.company.id
remember_isin-id none r = refl
remember_isin-id (some i) r = elim (Option-cases r.company.isin) [
  | inl e ↦ rw e refl
  | inr (x, e) ↦ rw e refl
]

remember_isin-identifiers :
    (i : Option ℕ) (r : Remembered) → (remember_isin i r).identifiers ≡ r.identifiers
remember_isin-identifiers none r = refl
remember_isin-identifiers (some i) r = elim (Option-cases r.company.isin) [
  | inl e ↦ rw e refl
  | inr (x, e) ↦ rw e refl
]

-- What is written has a row of the company for every symbol, and writing it again changes nothing.
write_identifiers_again :
    (is : List Identifier) (c : Company) (d : Data)
    → (all_known
          (write_identifiers is c d).company.id
          d.identifiers
          (write_identifiers is c d).identifiers
        ≡ true)
      × (write_identifiers
            (write_identifiers is c d).identifiers
            (write_identifiers is c d).company
            d
          ≡ record (write_identifiers is c d) { changed = false })
unfolding write_identifiers
write_identifiers_again is c d =
    let start : Remembered = record { identifiers = is; company = c; changed = false } in
    let named = remember_symbols d.identifiers start in
    let last = remember_isin d.isin named in
    let same : last.company.id ≡ c.id =
      remember_isin-id d.isin named
      ∙ ap (λ x. x.id) (remember_symbols-company d.identifiers start) in
    let known : all_known last.company.id d.identifiers last.identifiers ≡ true =
      ap (λ k. all_known k d.identifiers last.identifiers) same
      ∙ ap (all_known c.id d.identifiers) (remember_isin-identifiers d.isin named)
      ∙ remember_symbols-known d.identifiers start in
    (
      known,
      ap (remember_isin d.isin)
            (known_symbols d.identifiers last.identifiers last.company false known)
          ∙ isin_again d.isin named,
    )

-- Once the ISIN is written it is not written again.
written-repeats_isin :
    (t u : Tables) (i : Option ℕ) (r : Remembered)
    → repeats_isin u (remember_isin i r).company i ≡ false
written-repeats_isin t u none r = ground arith
written-repeats_isin t u (some i) r = elim (Option-cases r.company.isin) [
  | inl e ↦ rw e refl
  | inr (x, e) ↦ ground arith
]

-- For a record whose symbols and ISIN no other company has, nothing fails.
agrees-remember_identifiers :
    (t : Tables) (c : Company) (d : Data)
    → agrees (find_isin t d.isin) c.id ≡ true
    → all_of (λ s. agrees (find_symbol t s) c.id) d.identifiers ≡ true
    → remember_identifiers t c d ≡ some (write_identifiers t.identifiers c d)
unfolding remember_identifiers
agrees-remember_identifiers t c d i s =
    rw (agree-repeats_symbol t c.id d.identifiers s, agrees-is_other (find_isin t d.isin) c.id i)
      (ground arith)

no_isin :
    (t : Tables) (is : List Identifier) (c : Company) (d : Data)
    → repeats_isin
        (tables_after t (write_identifiers is c d))
        (write_identifiers is c d).company
        d.isin
      ≡ false
unfolding write_identifiers
no_isin t is c d =
    written-repeats_isin t (tables_after t (write_identifiers is c d)) d.isin
      (remember_symbols d.identifiers (record { identifiers = is; company = c; changed = false }))

written-remember_identifiers :
    (t : Tables) (is : List Identifier) (c : Company) (d : Data)
    → remember_identifiers
        (tables_after t (write_identifiers is c d))
        (write_identifiers is c d).company
        d
      ≡ some (record (write_identifiers is c d) { changed = false })
unfolding remember_identifiers
written-remember_identifiers t is c d =
    let r = write_identifiers is c d in
    let again = write_identifiers_again is c d in
    rw
      (
        known-repeats_symbol r.company.id d.identifiers r.identifiers again.0,
        no_isin t is c d,
        again.1,
      )
      refl

module _ (bse_symbol : ℕ) (fold company_key : ℕ → ℕ) where
  -- For the company that `match_company` returned for a record, `remember_identifiers` does not fail:
  -- it leaves a row of the company for every identifier that the record has, and a second call with
  -- the same record changes nothing and says so.
  pub remember_identifiers_again :
      (t : Tables) (d : Data) (c : Company)
      → match_company bse_symbol fold company_key t d ≡ returned (some c)
      → let r = write_identifiers t.identifiers c d in
        (remember_identifiers t c d ≡ some r)
        × (all_known r.company.id d.identifiers r.identifiers ≡ true)
        × (remember_identifiers (tables_after t r) r.company d
            ≡ some (record r { changed = false }))
  remember_identifiers_again t d c m =
      let (i, s, x) = match_company_exact bse_symbol fold company_key t d c m in
      (
        agrees-remember_identifiers t c d i s,
        (write_identifiers_again t.identifiers c d).0,
        written-remember_identifiers t t.identifiers c d,
      )
