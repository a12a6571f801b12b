-- ===== src/Market/Match.antt =====
-- `match_company` and `remember_identifiers` of apps/worker/market.py. Names, symbols and exchanges are
-- numbers; what makes two names one is given: `fold` stands for `strip().casefold()`, `company_key` for
-- the function of that name.
pub mod Exact
pub mod Recall
pub mod Unique
use meraipo.Prelude.{
  ℕ, ◌+◌, Bool, true, false, not, ◌&&◌, ◌||◌, Option, none, some, List, [], ◌∷◌, ◌++◌, ltb, ◌==◌,
  if◌then◌else◌, is_some, any_of, length, rows_where, first_where, update_first,
}

pub data Board : Type 0 where
  mainboard sme unknown : Board

pub data Provider : Type 0 where
  nse ipoweb : Provider
  other : ℕ → Provider

pub record Company : Type 0 where
  pub id : ℕ
  pub name : ℕ
  pub isin : Option ℕ
  pub board : Board

pub record Identifier : Type 0 where
  pub company : ℕ
  pub exchange : ℕ
  pub ticker : ℕ

pub record Ipo : Type 0 where
  pub id : ℕ
  pub company : ℕ
  pub source_provider : Option Provider

pub record IpoDate : Type 0 where
  pub ipo : ℕ
  pub open_date : Option ℕ
  pub close_date : Option ℕ

pub record Tables : Type 0 where
  pub companies : List Company
  pub identifiers : List Identifier
  pub ipos : List Ipo
  pub dates : List IpoDate

pub record Issue : Type 0 where
  pub name : ℕ
  pub board : Board
  pub open_date : Option ℕ
  pub close_date : Option ℕ

-- What a record of a feed says of its company.
pub record Data : Type 0 where
  pub isin : Option ℕ
  pub nse_symbol : Option ℕ
  pub namespace : Option Provider
  pub identifiers : List (ℕ × Option ℕ)
  pub issue : Option Issue

pub data FeedError : Type 0 where
  identifier_conflict ipoweb_identity_review_required unmapped_identifier ipo_mapping_missing
        source_conflict :
      FeedError

pub data Outcome {ℓ} (A : Type ℓ) : Type ℓ where
  raised : FeedError → Outcome A
  returned : A → Outcome A

infixl 10 ◌>>=◌
abbrev pub ◌>>=◌ {ℓ κ} : {A : Type ℓ} {B : Type κ} → Outcome A → (A → Outcome B) → Outcome B
raised e >>= f = raised e
returned a >>= f = f a

abbrev pub same_board : Board → Board → Bool
same_board mainboard mainboard = true
same_board sme sme = true
same_board unknown unknown = true
same_board _ _ = false

abbrev pub is_unknown : Board → Bool
is_unknown unknown = true
is_unknown _ = false

abbrev pub is_nse : Option Provider → Bool
is_nse (some nse) = true
is_nse _ = false

abbrev pub is_ipoweb : Option Provider → Bool
is_ipoweb (some ipoweb) = true
is_ipoweb _ = false

-- `matches.add(k)`.
abbrev pub add_match : ℕ → List ℕ → List ℕ
add_match k ks = if any_of (λ x. x == k) ks then ks else ks ++ k ∷ []

abbrev pub add_found : Option ℕ → List ℕ → List ℕ
add_found none ks = ks
add_found (some k) ks = add_match k ks

abbrev has_isin : ℕ → Company → Bool
has_isin i c = elim c.isin [ none ↦ false | some x ↦ x == i ]

abbrev id_of : Option Company → Option ℕ
id_of none = none
id_of (some c) = some c.id

abbrev pub company_of : Option Identifier → Option ℕ
company_of none = none
company_of (some i) = some i.company

abbrev pub find_isin : Tables → Option ℕ → Option ℕ
find_isin t none = none
find_isin t (some i) = id_of (first_where (has_isin i) t.companies)

abbrev pub is_symbol : ℕ → ℕ → Identifier → Bool
is_symbol exchange symbol i = i.exchange == exchange && i.ticker == symbol

abbrev pub find_symbol : Tables → ℕ × Option ℕ → Option ℕ
find_symbol t (exchange, none) = none
find_symbol t (exchange, some symbol) =
    company_of (first_where (is_symbol exchange symbol) t.identifiers)

abbrev pub add_symbols : Tables → List (ℕ × Option ℕ) → List ℕ → List ℕ
add_symbols t [] ks = ks
add_symbols t (s ∷ ss) ks = add_symbols t ss (add_found (find_symbol t s) ks)

-- The companies with an IPO and its dates.
pub record Candidate : Type 0 where
  pub company : Company
  pub ipo : Ipo
  pub dates : IpoDate

abbrev with_dates : Company → Ipo → List IpoDate → List Candidate
with_dates c i [] = []
with_dates c i (d ∷ ds) =
    let rest = with_dates c i ds in
    if d.ipo == i.id then record { company = c; ipo = i; dates = d } ∷ rest else rest

abbrev with_ipos : Company → List Ipo → List IpoDate → List Candidate
with_ipos c [] ds = []
with_ipos c (i ∷ is) ds =
    let rest = with_ipos c is ds in if i.company == c.id then with_dates c i ds ++ rest else rest

abbrev pub candidates : List Company → List Ipo → List IpoDate → List Candidate
candidates [] is ds = []
candidates (c ∷ cs) is ds = with_ipos c is ds ++ candidates cs is ds

-- Whether a date is given, and is that of the row.
abbrev pub is_date : Option ℕ → Option ℕ → Bool
is_date none d = false
is_date (some x) none = false
is_date (some x) (some y) = x == y

abbrev pub in_window : Issue → IpoDate → Bool
in_window i d = is_date i.open_date d.open_date && is_date i.close_date d.close_date

module _ (bse_symbol : ℕ) (fold company_key : ℕ → ℕ) where
  -- A mirror of the NSE's catalogue that was stored as the BSE's.
  abbrev pub is_mirror : Tables → Issue → ℕ → Candidate → Bool
  is_mirror t i symbol k =
      (any_of (λ x. x.company == k.company.id && is_symbol bse_symbol symbol x) t.identifiers
        && is_nse k.ipo.source_provider)
      && ((fold k.company.name == fold i.name && same_board k.company.board i.board)
          && in_window i k.dates)

  abbrev add_mirrors : Tables → Issue → ℕ → List Candidate → List ℕ → List ℕ
  add_mirrors t i symbol [] ks = ks
  add_mirrors t i symbol (k ∷ cs) ks =
      add_mirrors t i symbol cs (if is_mirror t i symbol k then add_match k.company.id ks else ks)

  abbrev pub legacy_for : Tables → Option Issue → Option ℕ → List ℕ → List ℕ
  legacy_for t (some i) (some symbol) ks =
      add_mirrors t i symbol (candidates t.companies t.ipos t.dates) ks
  legacy_for t _ _ ks = ks

  abbrev pub add_legacy : Tables → Data → List ℕ → List ℕ
  add_legacy t d ks = if is_some d.namespace then legacy_for t d.issue d.nse_symbol ks else ks

  abbrev pub exact_matches : Tables → Data → List ℕ
  exact_matches t d =
      add_legacy t d (add_symbols t d.identifiers (add_found (find_isin t d.isin) []))

  -- A company of the same name that IPOWEB's catalogue is or gave.
  abbrev pub is_possible : Data → Issue → Candidate → Bool
  is_possible d i k =
      (is_ipoweb d.namespace || is_ipoweb k.ipo.source_provider)
      && company_key k.company.name == company_key i.name

  abbrev pub is_compatible : Issue → Candidate → Bool
  is_compatible i k =
      in_window i k.dates
      && (same_board k.company.board i.board || (is_unknown k.company.board || is_unknown i.board))

  abbrev pub bridge_over : Issue → List Candidate → Outcome (Option ℕ)
  bridge_over i [] = returned none
  bridge_over i (k ∷ []) =
      if is_compatible i k
      then returned (some k.company.id)
      else raised ipoweb_identity_review_required
  bridge_over i (k ∷ l ∷ ks) = raised ipoweb_identity_review_required

  -- The match by name, where nothing else matches.
  abbrev pub bridge : Tables → Data → Outcome (Option ℕ)
  bridge t d = elim d.issue [
    | none ↦ returned none
    | some i ↦ bridge_over i (rows_where (is_possible d i) (candidates t.companies t.ipos t.dates))
  ]

  abbrev pub pick : Tables → Data → List ℕ → Outcome (Option ℕ)
  pick t d [] = bridge t d
  pick t d (k ∷ []) = returned (some k)
  pick t d (k ∷ l ∷ ks) = raised identifier_conflict

  abbrev pub has_id : ℕ → Company → Bool
  has_id k c = c.id == k

  abbrev pub contradicts : Option ℕ → Option ℕ → Bool
  contradicts (some x) (some y) = not (x == y)
  contradicts _ _ = false

  abbrev pub check_isin : Data → Option Company → Outcome (Option Company)
  check_isin d none = returned none
  check_isin d (some c) =
      if contradicts d.isin c.isin then raised identifier_conflict else returned (some c)

  abbrev pub get_company : Tables → Option ℕ → Option Company
  get_company t none = none
  get_company t (some k) = first_where (has_id k) t.companies

  unfoldable pub match_company : Tables → Data → Outcome (Option Company)
  match_company t d = pick t d (exact_matches t d) >>= (λ k. check_isin d (get_company t k))

-- `remember_identifiers`, for the company's row.
abbrev pub is_known : ℕ → ℕ → ℕ → Identifier → Bool
is_known c exchange symbol i = i.company == c && is_symbol exchange symbol i

abbrev pub remember_symbol : ℕ → ℕ × Option ℕ → List Identifier → List Identifier
remember_symbol c (exchange, none) is = is
remember_symbol c (exchange, some symbol) is =
    if any_of (is_known c exchange symbol) is
    then is
    else is ++ record { company = c; exchange = exchange; ticker = symbol } ∷ []

abbrev pub is_new_symbol : ℕ → ℕ × Option ℕ → List Identifier → Bool
is_new_symbol c (exchange, none) is = false
is_new_symbol c (exchange, some symbol) is = not (any_of (is_known c exchange symbol) is)

-- What `remember_identifiers` leaves and returns.
pub record Remembered : Type 0 where
  pub identifiers : List Identifier
  pub company : Company
  pub changed : Bool

abbrev pub remember_symbols : List (ℕ × Option ℕ) → Remembered → Remembered
remember_symbols [] r = r
remember_symbols (s ∷ ss) r = remember_symbols ss (record r {
  identifiers = remember_symbol r.company.id s r.identifiers;
  changed = r.changed || is_new_symbol r.company.id s r.identifiers;
})

abbrev pub remember_isin : Option ℕ → Remembered → Remembered
remember_isin none r = r
remember_isin (some i) r = elim r.company.isin [
  | some x ↦ r
  | none ↦ record r { company = record r.company { isin = some i }; changed = true }
]

-- The rows that `remember_identifiers` adds and changes.
unfoldable pub write_identifiers : List Identifier → Company → Data → Remembered
write_identifiers is c d =
    remember_isin d.isin
      (remember_symbols d.identifiers (record { identifiers = is; company = c; changed = false }))

-- `UniqueConstraint("ticker", "exchange")`: a row that would be added has the symbol of a row that
-- there is.
abbrev pub repeats_symbol : ℕ → List Identifier → ℕ × Option ℕ → Bool
repeats_symbol c is (exchange, none) = false
repeats_symbol c is (exchange, some symbol) =
    not (any_of (is_known c exchange symbol) is) && any_of (is_symbol exchange symbol) is

abbrev pub is_other : Option ℕ → ℕ → Bool
is_other none c = false
is_other (some k) c = not (c == k)

-- `isin` is unique: the company would get the ISIN that another one has.
abbrev pub repeats_isin : Tables → Company → Option ℕ → Bool
repeats_isin t c isin = not (is_some c.isin) && is_other (find_isin t isin) c.id

-- `none` is the error of the database when the rows are flushed: nothing of them is stored.
unfoldable pub remember_identifiers : Tables → Company → Data → Option Remembered
unfolding write_identifiers
remember_identifiers t c d =
    if any_of (repeats_symbol c.id t.identifiers) d.identifiers || repeats_isin t c d.isin
    then none
    else some (write_identifiers t.identifiers c d)

-- The tables once the rows are stored.
abbrev pub tables_after : Tables → Remembered → Tables
tables_after t r = record t {
  companies = update_first (λ c. c.id == r.company.id) (λ c. r.company) t.companies;
  identifiers = r.identifiers;
}
