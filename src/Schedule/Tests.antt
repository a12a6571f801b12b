-- ===== src/Schedule/Tests.antt =====
-- Tests and instances of packages/shared/job_schedules.py, packages/shared/market_freshness.py and
-- `latest_trading_day` at concrete times. Ordinal 739918 is Thursday, 29 October 2026.
use meraipo.Prelude.{ℕ, ◌+◌, ◌*◌, ◌≡◌, refl, true, false, none, some, List, [], ◌∷◌, arith}
use meraipo.Schedule.Clock.{Local, weekday, year_of, at_slot}
use meraipo.Schedule.Slots.{
  Controls, Control, hourly, daily, weekly, is_due, next_slot, schedule_state,
}
use meraipo.Schedule.Saving.{
  ScheduleInput, IsSaved, store_schedule, save_schedule, save_schedule_read,
}
use meraipo.Schedule.Slots.{sync_prices_nse}
use meraipo.Schedule.Slots.Next.{IsNext, IsNextDue, next_slot_first}
use meraipo.Schedule.Trading.{
  expected_day, latest_trading_day, ok, next_scheduled, collect_results, slots_of, runs_on,
}
use meraipo.Schedule.Trading.Days.{IsLatest, expected_day-IsLatest, next_scheduled-IsNext}

abbrev thursday : ℕ
thursday = 739918

abbrev evening : Local
evening = record { day = thursday; minute = 20 * 60; micros = 5 }

calendar_day : (weekday thursday ≡ 3) × (year_of thursday ≡ 2026) × (year_of 738885 ≡ 2023)
unfolding year_of
calendar_day = (refl, refl, refl)

slots :
    (next_slot daily 0 ((20 * 60) ∷ (19 * 60) ∷ []) evening
      ≡ some (at_slot (thursday + 1) (19 * 60)))
    × (next_slot weekly 3 ((20 * 60) ∷ []) evening ≡ some (at_slot (thursday + 7) (20 * 60)))
    × (next_slot hourly 0 ((7 * 60 + 30) ∷ []) evening ≡ some (at_slot thursday (20 * 60 + 30)))
    × (is_due hourly 0 ((7 * 60) ∷ []) evening ≡ some true)
unfolding next_slot is_due
slots = (refl, refl, refl, refl)

next_slot_first_example :
    (c : Local) × (next_slot daily 0 ((20 * 60) ∷ (19 * 60) ∷ []) evening ≡ some c)
    × IsNextDue daily 0 ((20 * 60) ∷ (19 * 60) ∷ []) evening c
next_slot_first_example =
    next_slot_first daily 0 (20 * 60) ((19 * 60) ∷ []) evening (omega arith) (omega arith)

abbrev weekly_control : Control
weekly_control = record {
  paused = false;
  schedule_times = (21 * 60) ∷ [];
  frequency = weekly;
  weekday = 4;
}

abbrev stored : Controls
stored = record {
  job_control = λ j. some weekly_control;
  kind_control = λ k. none;
  result_source = λ e. none;
  price_source_enabled = λ e. true;
}

-- Monday the 26th is a holiday, so on Monday the last trading day is Friday the 23rd.
abbrev holidays : List ℕ
holidays = 739915 ∷ []

expected_day-IsLatest_example :
    (d : ℕ) × (expected_day 6 holidays 739915 ≡ some d) × IsLatest holidays 739915 d
expected_day-IsLatest_example = expected_day-IsLatest holidays 739915 (omega arith)

monday : latest_trading_day 2026 holidays thursday 739915 ≡ ok 739912
unfolding latest_trading_day year_of
monday = refl

friday_results :
    next_scheduled collect_results evening holidays ≡ some (at_slot (thursday + 1) (21 * 60))
unfolding next_scheduled
friday_results = refl

next_scheduled-IsNext_example :
    IsNext
      (runs_on collect_results holidays)
      (slots_of collect_results)
      thursday
      evening
      (at_slot (thursday + 1) (21 * 60))
next_scheduled-IsNext_example =
    next_scheduled-IsNext collect_results evening holidays (at_slot (thursday + 1) (21 * 60))
      friday_results

abbrev seven_daily : ScheduleInput
seven_daily = record {
  times = (20 * 60) ∷ (7 * 60) ∷ [];
  paused = false;
  frequency = daily;
  weekday = 0;
}

abbrev no_controls : Controls
no_controls = record {
  job_control = λ j. none;
  kind_control = λ k. none;
  result_source = λ e. none;
  price_source_enabled = λ e. true;
}

abbrev saved_controls : Controls
saved_controls = store_schedule sync_prices_nse seven_daily no_controls

saved : save_schedule sync_prices_nse seven_daily no_controls ≡ some saved_controls
unfolding save_schedule
saved = refl

save_schedule_read_example : IsSaved seven_daily (schedule_state saved_controls sync_prices_nse)
save_schedule_read_example =
    save_schedule_read sync_prices_nse seven_daily no_controls saved_controls refl saved
