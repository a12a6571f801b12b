-- ===== src/Schedule/Slots/Next.antt =====
-- `next_slot` of packages/shared/job_schedules.py finds the first minute at which `is_due` holds.
use mathlib.Core.Bool.{false≢true}
use mathlib.Core.Option.{none-ne-some, some-injective}
use meraipo.Prelude.{
  ℕ, zero, suc, ◌+◌, ◌-◌, ◌%◌, ◌≤◌, ◌<◌, ◌≡◌, refl, ap, sym, ◌∙◌, Bool, true, false, none, some,
  List, ◌∷◌, arith, ==_iff, ◌⊎◌, ◌==◌, Bool-cases, Option-cases, inl, inr,
}
use meraipo.Schedule.Clock.{Local, weekday, earlier, at_slot}
use meraipo.Schedule.Slots.{
  Frequency, hourly, daily, weekly, day_fits, has_slot, is_due, sorted, first_slot, scan_days,
  hourly_slot, next_slot,
}
use meraipo.Schedule.Slots.First.{
  IsSorted, first_slot-IsFirst, first_slot-none, has_slot-sorted, sorted-IsSorted,
}

-- What the outer loop finds over the days from `start` on: a slot after `at` of a day that is let
-- through, such that no slot after `at` of such a day is earlier.
pub record IsNext (open_day : ℕ → Bool) (slots : List ℕ) (start : ℕ) (at c : Local) : Type 0 where
  pub not_before : start ≤ c.day
  pub day_open : open_day c.day ≡ true
  pub whole : c.micros ≡ 0
  pub listed : has_slot c.minute slots ≡ true
  pub later : earlier at c ≡ true
  pub least :
      (d m : ℕ)
      → start ≤ d
      → open_day d ≡ true
      → has_slot m slots ≡ true
      → earlier at (at_slot d m) ≡ true
      → earlier (at_slot d m) c ≡ false

not_earlier :
    (d m : ℕ) (c : Local)
    → c.micros ≡ 0
    → (c.day < d) ⊎ ((c.day ≡ d) × (c.minute ≤ m))
    → earlier (at_slot d m) c ≡ false
not_earlier d m c w h = ground arith

module _ (open_day : ℕ → Bool) (slots : List ℕ) (ordered : IsSorted slots) (at : Local) where
  first-IsNext :
      (day : ℕ) (c : Local)
      → open_day day ≡ true
      → first_slot slots day at ≡ some c
      → IsNext open_day slots day at c
  first-IsNext day c o h =
      let f = first_slot-IsFirst slots day at c ordered h in
      let same : c.day ≡ day = ap (λ (l : Local). l.day) f.on_day in
      record {
        not_before = omega arith;
        day_open = rw same o;
        whole = ap (λ (l : Local). l.micros) f.on_day;
        listed = f.listed;
        later = f.later;
        least = λ d m s o' k l. elim (Bool-cases (d == day)) [
          | inl e ↦
              not_earlier d m c (ap (λ (l' : Local). l'.micros) f.on_day)
                (inr (ground arith, f.least m k (rw (← (==_iff d day).0 e) l)))
          | inr e ↦ not_earlier d m c (ap (λ (l' : Local). l'.micros) f.on_day) (inl (ground arith))
        ];
      }

  -- A day without a slot after `at` changes nothing.
  skip-IsNext :
      (day : ℕ) (c : Local)
      → ((m : ℕ)
          → open_day day ≡ true
          → has_slot m slots ≡ true
          → earlier at (at_slot day m) ≡ false)
      → IsNext open_day slots (day + 1) at c
      → IsNext open_day slots day at c
  skip-IsNext day c empty x = record {
    not_before = omega (arith, x.not_before);
    day_open = x.day_open;
    whole = x.whole;
    listed = x.listed;
    later = x.later;
    least = λ d m s o k l. elim (Bool-cases (d == day)) [
      | inl e ↦
          let q : d ≡ day = (==_iff d day).0 e in
          absurd (false≢true (sym (empty m (rw (← q) o) k) ∙ rw (← q) l))
      | inr e ↦ x.least d m (ground arith) o k l
    ];
  }

  pub scan_days-IsNext :
      (n day : ℕ) (c : Local)
      → scan_days open_day slots n day at ≡ some c
      → IsNext open_day slots day at c
  unfolding scan_days
  scan_days-IsNext zero day c h = absurd (none-ne-some c h)
  scan_days-IsNext (suc n) day c h = elim (Bool-cases (open_day day)) [
    | inr shut ↦
        skip-IsNext day c (λ m o _. absurd (false≢true (sym shut ∙ o)))
          (scan_days-IsNext n (day + 1) c (rw shut at h))
    | inl o ↦ elim (Option-cases (first_slot slots day at)) [
      | inl e ↦
          skip-IsNext day c (λ m _ k. first_slot-none slots day at m e k)
            (scan_days-IsNext n (day + 1) c (rw (o, e) at h))
      | inr (b, e) ↦ let q : some b ≡ some c = rw (o, e) at h in first-IsNext day c o (e ∙ q)
    ]
  ]

  scan_days-none :
      (n day d m : ℕ)
      → scan_days open_day slots n day at ≡ none
      → day ≤ d
      → d < day + n
      → open_day d ≡ true
      → has_slot m slots ≡ true
      → earlier at (at_slot d m) ≡ false
  unfolding scan_days
  scan_days-none zero day d m h s t o k = absurd (omega arith)
  scan_days-none (suc n) day d m h s t o k = elim (Bool-cases (open_day day)) [
    | inr shut ↦ elim (Bool-cases (d == day)) [
      | inl e ↦ absurd (false≢true (sym shut ∙ rw (← (==_iff d day).0 e) o))
      | inr e ↦ scan_days-none n (day + 1) d m (rw shut at h) (ground arith) (omega arith) o k
    ]
    | inl o' ↦ elim (Option-cases (first_slot slots day at)) [
      | inr (b, e) ↦ let q : some b ≡ none = rw (o', e) at h in absurd (none-ne-some b (sym q))
      | inl e ↦ elim (Bool-cases (d == day)) [
        | inl same ↦ rw ((==_iff d day).0 same) (first_slot-none slots day at m e k)
        | inr other ↦
            scan_days-none n (day + 1) d m (rw (o', e) at h) (ground arith) (omega arith) o k
      ]
    ]
  ]

  -- Some slot of the `n` days is after `at`: the search finds the first.
  scan_days_found :
      (n day d m : ℕ)
      → day ≤ d
      → d < day + n
      → open_day d ≡ true
      → has_slot m slots ≡ true
      → earlier at (at_slot d m) ≡ true
      → (c : Local) × (scan_days open_day slots n day at ≡ some c) × IsNext open_day slots day at c
  scan_days_found n day d m s t o k l = elim (Option-cases (scan_days open_day slots n day at)) [
    | inl e ↦ absurd (false≢true (sym (scan_days-none n day d m e s t o k) ∙ l))
    | inr (c, e) ↦ (c, e, scan_days-IsNext n day c e)
  ]

-- The slot `c` is after `at`, it is due, and no minute after `at` that is due is earlier.
pub record IsNextDue (f : Frequency) (wd : ℕ) (times : List ℕ) (at c : Local) : Type 0 where
  pub later : earlier at c ≡ true
  pub due : is_due f wd times c ≡ some true
  pub least :
      (d m : ℕ)
      → m < 1440
      → earlier at (at_slot d m) ≡ true
      → is_due f wd times (at_slot d m) ≡ some true
      → earlier (at_slot d m) c ≡ false

hourly-IsNextDue :
    (wd t : ℕ) (ts : List ℕ) (at : Local)
    → at.minute < 1440
    → IsNextDue hourly wd (t ∷ ts) at (hourly_slot (t % 60) at)
unfolding is_due hourly_slot
hourly-IsNextDue wd t ts at h = record {
  later = ground arith;
  due = ground arith;
  least = λ d m k l e. ground arith;
}

daily-IsNextDue :
    (wd : ℕ) (times : List ℕ) (at c : Local)
    → IsNext (day_fits daily wd) (sorted times) at.day at c
    → IsNextDue daily wd times at c
unfolding is_due
daily-IsNextDue wd times at c x = record {
  later = x.later;
  due = ap some (sym (has_slot-sorted c.minute times) ∙ x.listed);
  least = λ d m k l e.
      x.least d m (ground arith) refl (has_slot-sorted m times ∙ some-injective _ _ e) l;
}

weekly-IsNextDue :
    (wd : ℕ) (times : List ℕ) (at c : Local)
    → IsNext (day_fits weekly wd) (sorted times) at.day at c
    → IsNextDue weekly wd times at c
unfolding is_due
weekly-IsNextDue wd times at c x = record {
  later = x.later;
  due = ground (arith, has_slot-sorted c.minute times, x.day_open, x.listed);
  least = λ d m k l e.
      x.least d m (ground arith) (ground arith) (ground (arith, has_slot-sorted m times)) l;
}

-- For every frequency, at any time, with at least one slot and a proper weekday, `next_slot` returns
-- a slot; it is after the time, it is due, and no minute in between is due.
pub next_slot_first :
    (f : Frequency) (wd t : ℕ) (ts : List ℕ) (at : Local)
    → wd < 7
    → at.minute < 1440
    → (c : Local) × (next_slot f wd (t ∷ ts) at ≡ some c) × IsNextDue f wd (t ∷ ts) at c
unfolding next_slot
next_slot_first hourly wd t ts at w h =
    (hourly_slot (t % 60) at, refl, hourly-IsNextDue wd t ts at h)
next_slot_first daily wd t ts at w h =
    let (c, e, x) =
      scan_days_found (day_fits daily wd) (sorted (t ∷ ts)) (sorted-IsSorted (t ∷ ts)) at 8 at.day
        (at.day + 1) t (omega arith) (omega arith) refl (has_slot-sorted t (t ∷ ts) ∙ ground arith)
        (ground arith) in
    (c, e, daily-IsNextDue wd (t ∷ ts) at c x)
next_slot_first weekly wd t ts at w h =
    let d : ℕ = at.day + 1 + (wd + 7 - weekday (at.day + 1)) % 7 in
    let (c, e, x) =
      scan_days_found (day_fits weekly wd) (sorted (t ∷ ts)) (sorted-IsSorted (t ∷ ts)) at 8 at.day
        d t (omega arith) (omega arith) (ground arith) (has_slot-sorted t (t ∷ ts) ∙ ground arith)
        (ground arith) in
    (c, e, weekly-IsNextDue wd (t ∷ ts) at c x)
