-- ===== src/Schedule/Clock.antt =====
-- A local Indian time, as `at.astimezone(ZoneInfo("Asia/Kolkata"))` gives it: the date's ordinal,
-- the minute of the day (below 1440) and the rest of the minute in microseconds. India has no
-- daylight saving, so a wall clock is an instant and the order of the clocks is that of the instants.
use meraipo.Prelude.{ℕ, ◌+◌, ◌-◌, ◌*◌, ◌/◌, ◌%◌, Bool, ◌&&◌, ◌||◌, ltb, ◌==◌, if◌then◌else◌}

pub record Local : Type 0 where
  pub day : ℕ
  pub minute : ℕ
  pub micros : ℕ

-- `date.weekday()`: ordinal 1 is a Monday, and Monday is 0.
abbrev pub weekday : ℕ → ℕ
weekday day = (day + 6) % 7

-- `date.year`, from the ordinal, by cycles of 400, 100, 4 and 1 years.
unfoldable pub year_of : ℕ → ℕ
year_of day =
    let n = day - 1 in
    let in_400 = n % 146097 in
    let in_100 = in_400 % 36524 in
    let in_4 = in_100 % 1461 in
    let year = n / 146097 * 400 + in_400 / 36524 * 100 + in_100 / 1461 * 4 + in_4 / 365 in
    if in_4 / 365 == 4 || in_400 / 36524 == 4 then year else year + 1

-- `a < b` on two clocks.
abbrev pub earlier : Local → Local → Bool
earlier a b =
    ltb a.day b.day
    || a.day == b.day && (ltb a.minute b.minute || a.minute == b.minute && ltb a.micros b.micros)

-- `day.replace(hour=…, minute=…, second=0, microsecond=0)`
abbrev pub at_slot : ℕ → ℕ → Local
at_slot day slot = record { day = day; minute = slot; micros = 0 }

-- `candidate + timedelta(hours=1)`, of a candidate on a whole minute.
abbrev pub plus_hour : Local → Local
plus_hour c =
    if ltb (c.minute + 60) 1440
    then record c { minute = c.minute + 60 }
    else record c { day = c.day + 1; minute = c.minute + 60 - 1440 }
