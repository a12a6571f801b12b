-- ===== src/Email/Bands.antt =====
-- packages/shared/email_preferences.py: the bands of grey-market premium and who hears of an IPO.
pub mod Audience
use meraipo.Prelude.{
  ℕ, ◌+◌, ◌*◌, Bool, true, false, not, ◌&&◌, ◌||◌, Option, none, some, List, [], ◌∷◌, ltb, leb,
  ◌==◌, if◌then◌else◌, take, suc,
}
use meraipo.Email.Rows.{Band, white, light_green, strong_green, gold}

-- A premium or a price, in ten-thousandths of a rupee; a premium may be negative.
pub data Amount : Type 0 where
  rupees minus : ℕ → Amount

-- `value / price * 100 <= bound`, for a positive price. The quotient has more digits than the
-- values, so rounding it cannot change the comparison with a whole bound.
abbrev pub at_most : ℕ → Amount → ℕ → Bool
at_most bound (rupees v) price = leb (v * 100) (bound * price)
at_most bound (minus v) price = true

-- `band_for_percent`, of the percentage that a premium is of a positive price.
unfoldable pub band_for_percent : Option (Amount × ℕ) → Band
band_for_percent none = white
band_for_percent (some (value, price)) =
    if at_most 20 value price
    then white
    else if at_most 40 value price
    then light_green
    else if at_most 100 value price
    then strong_green
    else gold

pub record Gmp : Type 0 where
  pub ipo_id : ℕ
  pub value : Option Amount
  pub observed_at : ℕ
  pub created_at : ℕ
  pub id : ℕ

-- `ORDER BY observed_at DESC, created_at DESC, id DESC`: whether `a` stands before `b`.
abbrev pub newer : Gmp → Gmp → Bool
newer a b =
    ltb b.observed_at a.observed_at
    || a.observed_at == b.observed_at
      && (ltb b.created_at a.created_at || a.created_at == b.created_at && ltb b.id a.id)

abbrev newest : Gmp → Option Gmp → Gmp
newest g none = g
newest g (some best) = if newer best g then best else g

-- The first row of the query of `current_band`.
unfoldable pub latest_gmp : ℕ → ℕ → List Gmp → Option Gmp
latest_gmp ipo now [] = none
latest_gmp ipo now (g ∷ gs) =
    let rest = latest_gmp ipo now gs in
    if g.ipo_id == ipo && leb g.observed_at now then some (newest g rest) else rest

-- A quote that is missing, too old, or of an IPO with no positive price gives no percentage.
unfoldable pub quoted_percent : ℕ → ℕ → Option ℕ → Option Gmp → Option (Amount × ℕ)
quoted_percent now ttl_hours price none = none
quoted_percent now ttl_hours none (some g) = none
quoted_percent now ttl_hours (some price) (some g) = elim g.value [
  | none ↦ none
  | some v ↦
      if price == 0 || ltb (g.observed_at + ttl_hours * 3600) now then none else some (v, price)
]

unfoldable pub current_band : ℕ → ℕ → ℕ → Option ℕ → List Gmp → Band
unfolding band_for_percent latest_gmp quoted_percent
current_band now ttl_hours ipo price gmps =
    band_for_percent (quoted_percent now ttl_hours price (latest_gmp ipo now gmps))

abbrev pub bands : List Band
bands = white ∷ light_green ∷ strong_green ∷ gold ∷ []

-- `BANDS.index`
abbrev pub index : Band → ℕ
index white = 0
index light_green = 1
index strong_green = 2
index gold = 3

unfoldable pub matching_preferences : Band → List Band
matching_preferences band = take (index band + 1) bands
