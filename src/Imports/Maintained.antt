-- ===== src/Imports/Maintained.antt =====
-- `maintain_ipo` of apps/api/services.py: an IPO that an administrator or an import creates or changes.
-- The fields that the code copies together are one number (`offer` for the status, the price band and
-- the issue price, which an import compares, `sizes` for the listing price, the lot and the sizes,
-- `dates` for the three dates); a sector's id is its name, which is unique. The numbers of new
-- rows are given; the rows of `field_provenance` and of the audit are left out, and so are the errors of
-- the unique constraints of the tables.
pub mod Fixed
use meraipo.Prelude.{
  ℕ, ◌+◌, Bool, true, false, not, ◌&&◌, Option, none, some, List, [], ◌∷◌, ◌++◌, ◌==◌,
  if◌then◌else◌, is_some, any_of, first_where, update_first,
}
use meraipo.Imports.Quarters.{Verification, Company, has_slug}

pub record Ipo : Type 0 where
  pub id : ℕ
  pub company : ℕ
  pub offer : ℕ
  pub sizes : ℕ
  pub quality : Verification

pub record IpoDate : Type 0 where
  pub ipo : ℕ
  pub dates : ℕ

pub record Identifier : Type 0 where
  pub company : ℕ
  pub exchange : ℕ
  pub ticker : ℕ

pub record Baseline : Type 0 where
  pub ipo : ℕ
  pub values : ℕ

pub record Document : Type 0 where
  pub ipo : ℕ
  pub kind : ℕ
  pub url : ℕ

pub record Register : Type 0 where
  pub companies : List Company
  pub ipos : List Ipo
  pub dates : List IpoDate
  pub identifiers : List Identifier
  pub baselines : List Baseline
  pub documents : List Document

pub record IpoInput : Type 0 where
  pub slug : ℕ
  pub name : ℕ
  pub sector : ℕ
  pub board : ℕ
  pub screener_url : Option ℕ
  pub exchange_url : Option ℕ
  pub offer : ℕ
  pub sizes : ℕ
  pub verification : Verification
  pub dates : ℕ
  pub ticker : Option ℕ
  pub exchange : ℕ
  pub baseline : Option ℕ
  pub rhp_url : Option ℕ

pub data Refusal : Type 0 where
  slug_exists company_not_found slug_fixed baseline_immutable : Refusal

pub data Outcome : Type 0 where
  refused : Refusal → Outcome
  saved : Register → Outcome

abbrev pub has_id : ℕ → Company → Bool
has_id k c = c.id == k

abbrev pub is_ipo_of : ℕ → Ipo → Bool
is_ipo_of k i = i.company == k

abbrev pub company_of : ℕ → IpoInput → Company
company_of k d = record {
  id = k;
  slug = d.slug;
  name = d.name;
  sector = d.sector;
  board = d.board;
  screener_url = d.screener_url;
  exchange_url = d.exchange_url;
}

-- The fields that an update writes.
abbrev pub change_company : IpoInput → Company → Company
change_company d c = record c {
  name = d.name;
  sector = d.sector;
  board = d.board;
  screener_url = d.screener_url;
  exchange_url = d.exchange_url;
}

abbrev put_dates : ℕ → ℕ → List IpoDate → List IpoDate
put_dates i dates ds =
    if any_of (λ x. x.ipo == i) ds
    then update_first (λ x. x.ipo == i) (λ x. record x { dates = dates }) ds
    else ds ++ record { ipo = i; dates = dates } ∷ []

abbrev is_identifier : ℕ → ℕ → Identifier → Bool
is_identifier k exchange x = x.company == k && x.exchange == exchange

abbrev put_identifier : ℕ → ℕ → Option ℕ → List Identifier → List Identifier
put_identifier k exchange none xs = xs
put_identifier k exchange (some t) xs =
    if any_of (is_identifier k exchange) xs
    then update_first (is_identifier k exchange) (λ x. record x { ticker = t }) xs
    else xs ++ record { company = k; exchange = exchange; ticker = t } ∷ []

abbrev pub add_baseline : ℕ → Option ℕ → List Baseline → List Baseline
add_baseline i none bs = bs
add_baseline i (some v) bs = bs ++ record { ipo = i; values = v } ∷ []

-- The kind "RHP".
abbrev pub rhp : ℕ
rhp = 0

abbrev add_document : ℕ → Option ℕ → List Document → List Document
add_document i none ds = ds
add_document i (some u) ds =
    if any_of (λ x. x.ipo == i && x.kind == rhp && x.url == u) ds
    then ds
    else ds ++ record { ipo = i; kind = rhp; url = u } ∷ []

-- What follows once the company's row and the IPO's are there.
abbrev pub save_rest : ℕ → ℕ → IpoInput → Register → Register
save_rest k i d r = record r {
  dates = put_dates i d.dates r.dates;
  identifiers = put_identifier k d.exchange d.ticker r.identifiers;
  baselines = add_baseline i d.baseline r.baselines;
  documents = add_document i d.rhp_url r.documents;
}

abbrev pub save_ipo : ℕ → ℕ → IpoInput → Register → Option Ipo → Register
save_ipo new_ipo k d r none = save_rest k new_ipo d (record r {
  ipos =
      r.ipos
      ++ record {
        id = new_ipo;
        company = k;
        offer = d.offer;
        sizes = d.sizes;
        quality = d.verification;
      }
        ∷ [];
})
save_ipo new_ipo k d r (some i) = save_rest k i.id d (record r {
  ipos =
      update_first (is_ipo_of k)
        (λ x. record x { offer = d.offer; sizes = d.sizes; quality = d.verification }) r.ipos;
})

abbrev pub create : ℕ → ℕ → IpoInput → Register → Register
create new_company new_ipo d r =
    save_ipo new_ipo new_company d
      (record r { companies = r.companies ++ company_of new_company d ∷ [] })
      (first_where (is_ipo_of new_company) r.ipos)

abbrev pub change : ℕ → ℕ → IpoInput → Register → Register
change new_ipo k d r =
    save_ipo new_ipo k d
      (record r { companies = update_first (has_id k) (change_company d) r.companies })
      (first_where (is_ipo_of k) r.ipos)

-- A creation, where `slug` is missing, and a change of the company with the slug.
abbrev pub create_over : ℕ → ℕ → IpoInput → Register → Option Company → Outcome
create_over new_company new_ipo d r (some c) = refused slug_exists
create_over new_company new_ipo d r none = saved (create new_company new_ipo d r)

abbrev pub change_over : ℕ → ℕ → IpoInput → Register → Option Company → Outcome
change_over new_ipo slug d r none = refused company_not_found
change_over new_ipo slug d r (some c) =
    if not (d.slug == slug)
    then refused slug_fixed
    else if is_some d.baseline
    then refused baseline_immutable
    else saved (change new_ipo c.id d r)

unfoldable pub maintain_ipo : ℕ → ℕ → Option ℕ → IpoInput → Register → Outcome
maintain_ipo new_company new_ipo none d r =
    create_over new_company new_ipo d r (first_where (has_slug d.slug) r.companies)
maintain_ipo new_company new_ipo (some slug) d r =
    change_over new_ipo slug d r (first_where (has_slug slug) r.companies)
