-- ===== src/Bhavcopy/Fields.antt =====
-- The fields of a line of an exchange's end-of-day file and how packages/providers/bhavcopy.py reads
-- them: the inner `try` of `parse`.
use meraipo.Prelude.{
  ℕ, ◌-◌, ◌*◌, ◌^◌, Bool, true, false, not, ◌&&◌, ◌||◌, Option, none, some, ltb, ◌==◌,
  if◌then◌else◌,
}
use meraipo.Schedule.Slots.{Exchange, nse, bse}

-- A price or volume as written: blank, a text that is no number, a number that is negative or not
-- finite, or digits with a number of decimal places.
pub data Field : Type 0 where
  blank not_a_number out_of_range : Field
  decimal : ℕ → ℕ → Field

pub data Series : Type 0 where
  eq_series be bz sm st sz : Series
  other_series : ℕ → Series

pub data Code : Type 0 where
  invalid_decimal unsupported_instrument invalid_identifier invalid_price invalid_precision
        missing_close invalid_price_range ambiguous_security_rows identifier_conflict isin_conflict
        ambiguous_company_rows :
      Code

-- A line of the file with its fields stripped. A date is `none` where it is not in ISO form, a source
-- where it names neither exchange; a security identifier may be empty.
pub record Line : Type 0 where
  pub intact : Bool
  pub trade_date : Option ℕ
  pub source : Option Exchange
  pub cash_market : Bool
  pub isin : ℕ
  pub isin_valid : Bool
  pub symbol : ℕ
  pub security_id : Option ℕ
  pub series : Series
  pub stock : Bool
  pub first_session : Bool
  pub opening : Field
  pub high : Field
  pub low : Field
  pub close : Field
  pub previous_close : Field
  pub volume : Field

-- Prices in units of 0.0001, as the database stores them.
pub record Prices : Type 0 where
  pub opening : Option ℕ
  pub high : Option ℕ
  pub low : Option ℕ
  pub close : ℕ
  pub previous_close : Option ℕ
  pub volume : Option ℕ

pub record Row : Type 0 where
  pub line : ℕ
  pub isin : ℕ
  pub symbol : ℕ
  pub security_id : ℕ
  pub series : Series
  pub prices : Prices

pub record Reject : Type 0 where
  pub line : ℕ
  pub isin : ℕ
  pub code : Code

pub data Checked {ℓ} (A : Type ℓ) : Type ℓ where
  bad : Code → Checked A
  good : A → Checked A

infixl 10 ◌>>=◌
abbrev pub ◌>>=◌ {ℓ κ} : {A : Type ℓ} {B : Type κ} → Checked A → (A → Checked B) → Checked B
bad c >>= f = bad c
good a >>= f = f a

abbrev pub demand : Bool → Code → Checked Bool
demand true c = good true
demand false c = bad c

-- Less than 1e16, which the columns can hold.
abbrev fits_column : ℕ → ℕ → Bool
fits_column digits places = ltb digits (10 ^ 16 * 10 ^ places)

-- A price: a zero counts as no price, and more than four places are refused.
unfoldable pub read_price : Field → Checked (Option ℕ)
read_price blank = good none
read_price not_a_number = bad invalid_decimal
read_price out_of_range = bad invalid_price
read_price (decimal digits places) =
    if not (fits_column digits places)
    then bad invalid_price
    else if digits == 0
    then good none
    else if ltb 4 places
    then bad invalid_precision
    else good (some (digits * 10 ^ (4 - places)))

-- A volume: a whole number, which may be zero.
unfoldable pub read_volume : Field → Checked (Option ℕ)
read_volume blank = good none
read_volume not_a_number = bad invalid_decimal
read_volume out_of_range = bad invalid_price
read_volume (decimal digits places) =
    if not (fits_column digits places)
    then bad invalid_price
    else if ltb 0 places
    then bad invalid_precision
    else good (some digits)

abbrev pub below : ℕ → Option ℕ → Bool
below n none = false
below n (some low) = ltb n low

abbrev pub above : ℕ → Option ℕ → Bool
above n none = false
above n (some high) = ltb high n

-- The range test on the opening and on the closing price.
abbrev pub in_range : Option ℕ → Option ℕ → Option ℕ → Bool
in_range low high none = true
in_range low high (some n) = not (below n low || above n high)

-- `values["close"] is None`
abbrev required : Option ℕ → Checked ℕ
required none = bad missing_close
required (some n) = good n

unfoldable pub read_prices : Line → Checked Prices
read_prices l = do
  opening ← read_price l.opening
  high ← read_price l.high
  low ← read_price l.low
  closing ← read_price l.close
  previous ← read_price l.previous_close
  volume ← read_volume l.volume
  close ← required closing
  _ ← demand (in_range low high opening && in_range low high (some close)) invalid_price_range
  good (record {
    opening = opening;
    high = high;
    low = low;
    close = close;
    previous_close = previous;
    volume = volume;
  })

abbrev pub known_series : Series → Bool
known_series (other_series s) = false
known_series _ = true

abbrev pub is_nse : Exchange → Bool
is_nse nse = true
is_nse bse = false

-- What becomes of a line whose date, exchange and segment are right.
pub data Verdict : Type 0 where
  skipped : Verdict
  taken : Row → Verdict
  refused : Reject → Verdict

abbrev verdict_of : ℕ → Line → ℕ → Checked Prices → Verdict
verdict_of n l security (good p) = taken (record {
  line = n;
  isin = l.isin;
  symbol = l.symbol;
  security_id = security;
  series = l.series;
  prices = p;
})
verdict_of n l security (bad c) = refused (record { line = n; isin = l.isin; code = c })

-- The inner `try`, on the line with the number `n` of the file.
unfoldable pub judge : Exchange → ℕ → Line → Verdict
unfolding read_prices
judge exchange n l =
    if not (l.stock && l.first_session)
    then refused (record { line = n; isin = l.isin; code = unsupported_instrument })
    else if not l.isin_valid
    then refused (record { line = n; isin = l.isin; code = invalid_identifier })
    else elim l.security_id [
      | none ↦ refused (record { line = n; isin = l.isin; code = invalid_identifier })
      | some security ↦
          if is_nse exchange && not (known_series l.series)
          then skipped
          else verdict_of n l security (read_prices l)
    ]
