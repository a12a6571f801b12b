-- ===== src/Email/Bands/Audience.antt =====
-- Who is alerted, by the labels of packages/shared/email_preferences.py ("Above 20%", …).
use meraipo.Prelude.{ℕ, ◌*◌, ◌<◌, ◌≡◌, ◌↔◌, Bool, true, some, List, arith, ◌==◌, any_of}
use meraipo.Email.Rows.{Band, white, light_green, strong_green, gold}
use meraipo.Email.Bands.{Amount, rupees, minus, band_for_percent, index, matching_preferences}

abbrev pub chooses : Band → List Band → Bool
chooses b = any_of (λ c. index c == index b)

-- The percentage of each label of `CATEGORY_LABELS`; "All IPOs" has none.
abbrev pub threshold : Band → ℕ
threshold white = 0
threshold light_green = 20
threshold strong_green = 40
threshold gold = 100

-- Whether a premium is above a percentage of a price.
abbrev pub Above : ℕ → Amount → ℕ → Type 0
Above bound (rupees v) price = bound * price < v * 100
Above bound (minus v) price = ⊥

-- A subscriber of a labelled band is among those alerted exactly when the premium is above the
-- label's percentage of the price.
pub matching_preferences_iff :
    (choice : Band) (value : Amount) (price : ℕ)
    → 0 < threshold choice
    → (chooses choice (matching_preferences (band_for_percent (some (value, price)))) ≡ true)
      ↔ Above (threshold choice) value price
unfolding matching_preferences band_for_percent
matching_preferences_iff white value price h = absurd (omega arith)
matching_preferences_iff light_green (rupees v) price h = (ground arith, ground arith)
matching_preferences_iff strong_green (rupees v) price h = (ground arith, ground arith)
matching_preferences_iff gold (rupees v) price h = (ground arith, ground arith)
matching_preferences_iff _ (minus v) price h = (ground arith, ground arith)
