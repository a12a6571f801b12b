-- ===== src/Ipo.antt =====
-- The dates that decide what state an IPO is in (packages/shared/ipo_lifecycle.py), the rows that
-- the scheduler reconciles with them (`reconcile_lifecycle` of apps/worker/market.py) and the tests
-- that an email alert makes on them (packages/shared/email_template.py). A date is a day number.
mod Progress
mod Tests
use meraipo.Prelude.{
  ℕ, ◌+◌, Bool, true, false, not, ◌&&◌, Option, none, some, List, [], ◌∷◌, ltb, leb, is_some,
  holds_of, opt_is, if◌then◌else◌,
}

-- The names that the code compares a source's status text with; `other` is any other text.
pub data RawName : Type 0 where
  withdrawn cancelled postponed listed opened upcoming closed allotment_pending allotment_completed
        other :
      RawName

-- A status text: the name that its upper case spells, and whether it is in upper case itself.
pub record RawStatus : Type 0 where
  pub name : RawName
  pub is_upper : Bool

pub data State : Type 0 where
  announced upcoming opened closed allotment_pending allotment_completed listing_today listed
        withdrawn cancelled :
      State

pub data ScheduleStatus : Type 0 where
  tentative confirmed : ScheduleStatus

pub data Verification : Type 0 where
  unverified partly verified : Verification

pub record Ipo : Type 0 where
  pub raw_status : Option RawStatus
  pub status : State
  pub lifecycle : Option State
  pub source_provider : Option ℕ

pub record IpoDates : Type 0 where
  pub open_date : Option ℕ
  pub close_date : Option ℕ
  pub allotment_date : Option ℕ
  pub listing_date : Option ℕ

pub record Guide : Type 0 where
  pub schedule_status : ScheduleStatus
  pub verification_status : Verification
  pub allotment_date : Option ℕ

-- `row and row.field`, for a row that may be missing.
abbrev pub date_of : Option IpoDates → (IpoDates → Option ℕ) → Option ℕ
date_of none f = none
date_of (some d) f = f d

-- The name that a text is compared with as it stands, and in upper case.
abbrev pub exact_name : Option RawStatus → RawName
exact_name none = RawName.other
exact_name (some r) = if r.is_upper then r.name else RawName.other

abbrev pub upper_name : Option RawStatus → RawName
upper_name none = RawName.other
upper_name (some r) = r.name

abbrev pub is_void : RawName → Bool
is_void RawName.withdrawn = true
is_void RawName.cancelled = true
is_void _ = false

abbrev pub is_listed : RawName → Bool
is_listed RawName.listed = true
is_listed _ = false

-- The last `return` of `lifecycle`, and its first for the two void states.
abbrev pub fallback : RawName → State
fallback RawName.withdrawn = withdrawn
fallback RawName.cancelled = cancelled
fallback RawName.listed = listed
fallback RawName.opened = opened
fallback RawName.upcoming = upcoming
fallback RawName.closed = closed
fallback RawName.allotment_pending = allotment_pending
fallback RawName.allotment_completed = allotment_completed
fallback _ = announced

abbrev pub is_confirmed : Guide → Bool
is_confirmed g = elim g.schedule_status [ confirmed ↦ true | tentative ↦ false ]

abbrev pub is_verified : Guide → Bool
is_verified g = elim g.verification_status [ verified ↦ true | _ ↦ false ]

abbrev pub guide_date : Option Guide → Option ℕ
guide_date none = none
guide_date (some g) = if is_confirmed g then g.allotment_date else none

abbrev allotment_state : ℕ → ℕ → State
allotment_state today a = if leb a today then allotment_completed else allotment_pending

-- The states after the close: the exchange's allotment date, or a confirmed guide's.
pub after_close : Option ℕ → Option Guide → ℕ → State
after_close (some a) guide today = allotment_state today a
after_close none guide today = elim (guide_date guide) [
  | some a ↦ allotment_state today a
  | none ↦ closed
]

unfoldable pub lifecycle : Ipo → Option IpoDates → Option Guide → ℕ → State
lifecycle ipo dates guide today =
    let raw = exact_name ipo.raw_status in
    let listing = date_of dates (λ d. d.listing_date) in
    let opens = date_of dates (λ d. d.open_date) in
    let closes = date_of dates (λ d. d.close_date) in
    if is_void raw
    then fallback raw
    else if holds_of listing (λ d. leb d today)
    then (if opt_is listing today then listing_today else listed)
    else if is_listed raw
    then listed
    else if holds_of opens (λ d. ltb today d)
    then upcoming
    else if holds_of opens (λ d. leb d today) && holds_of closes (λ d. leb today d)
    then opened
    else if holds_of closes (λ d. ltb d today)
    then after_close (date_of dates (λ d. d.allotment_date)) guide today
    else fallback raw

unfoldable pub public_status : State → State
public_status listing_today = listed
public_status announced = upcoming
public_status allotment_pending = closed
public_status allotment_completed = closed
public_status withdrawn = closed
public_status cancelled = closed
public_status s = s

-- One row of the outer join: an IPO with its dates and its applicant guide, where it has them.
pub record Row : Type 0 where
  pub ipo : Ipo
  pub dates : Option IpoDates
  pub guide : Option Guide

reconcile_row : ℕ → Row → Row
reconcile_row today r =
    let s = lifecycle r.ipo r.dates r.guide today in
    if is_some r.ipo.source_provider
    then record r { ipo = record r.ipo { lifecycle = some s; status = public_status s } }
    else r

pub reconcile_lifecycle : ℕ → List Row → List Row
unfolding reconcile_row
reconcile_lifecycle today [] = []
reconcile_lifecycle today (r ∷ rows) = reconcile_row today r ∷ reconcile_lifecycle today rows

-- `(ipo.raw_status or "").upper() not in ("CANCELLED", "POSTPONED", "WITHDRAWN")`
abbrev pub is_live : RawName → Bool
is_live RawName.cancelled = false
is_live RawName.postponed = false
is_live RawName.withdrawn = false
is_live _ = true

abbrev pub before_listing : State → Bool
before_listing closed = true
before_listing upcoming = true
before_listing opened = true
before_listing _ = false

abbrev pub before_close : State → Bool
before_close opened = true
before_close upcoming = true
before_close _ = false

abbrev pub is_settled : Option Guide → Bool
is_settled guide = holds_of guide (λ g. is_confirmed g && is_verified g)

unfoldable pub eligible_listing : Ipo → Option IpoDates → Option Guide → ℕ → Bool
eligible_listing ipo dates guide today =
    opt_is (date_of dates (λ d. d.listing_date)) (today + 1)
    && before_listing ipo.status
    && is_live (upper_name ipo.raw_status)
    && is_settled guide

unfoldable pub eligible_opening : Ipo → Option IpoDates → Option Guide → ℕ → Bool
eligible_opening ipo dates guide today =
    opt_is (date_of dates (λ d. d.open_date)) today
    && before_close ipo.status
    && is_live (upper_name ipo.raw_status)
    && is_settled guide
