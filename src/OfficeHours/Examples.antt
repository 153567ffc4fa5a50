-- ===== src/OfficeHours/Examples.antt =====
-- Runs of the office-hours calculation on a Monday-to-Friday week, 8:00 to 17:00, break at noon.
use udm_doctrack.Base.{ℕ, ◌-◌, ◌+◌, ◌*◌, ◌≡◌, refl, true, false, none, some, [], ◌∷◌, arith, exists}
use udm_doctrack.OfficeHours.{
  Schedule, usec, no_holidays, contains, is_working_day, overlap_seconds, walk, business_seconds,
  business_seconds_between, sample_monday, day_seconds,
}
use udm_doctrack.OfficeHours.Calendar.{month_day}
use udm_doctrack.OfficeHours.Scope.{Site, load_holidays, row_closes, load_holidays-contains}
use udm_doctrack.OfficeHours.Window.{count}
use udm_doctrack.OfficeHours.Seconds.{WholeSeconds, to_schedule, office_time}
use udm_doctrack.OfficeHours.Laws.{counts_office_time, interval_adds_up}
use udm_doctrack.OfficeHours.Loop.{Loops, business_seconds-Loops}

-- 29 February 2000 is day 730178.
leap_day : month_day 730178 ≡ (2, 29)
unfolding month_day
leap_day = refl

-- 31 December 2026 is day 739980, a Thursday.
new_year_eve : month_day 739980 ≡ (12, 31)
unfolding month_day
new_year_eve = refl

abbrev week : WholeSeconds
week = record { opens = 28800; closes = 61200; lunch = 43200; lunch_over = 46800; week = 5 }

abbrev hours : Schedule
hours = to_schedule week

-- Seconds since midnight of 0001-01-01: the sample Monday at 8:00, 10:00 and 17:00.
abbrev opening : ℕ
opening = 63082483200

abbrev morning : ℕ
morning = 63082490400

abbrev closing : ℕ
closing = 63082515600

-- Eight hours, the break left out.
whole_day :
    business_seconds_between hours no_holidays (some (usec * opening)) (some (usec * closing)) none
    ≡ 28800
unfolding business_seconds_between business_seconds walk is_working_day day_seconds overlap_seconds
    contains
whole_day = refl

counts_office_time_example :
    business_seconds_between hours no_holidays (some (usec * opening)) (some (usec * closing)) none
    ≡ count (office_time hours no_holidays week) opening (closing - opening)
counts_office_time_example =
    counts_office_time hours no_holidays none week (omega arith) refl opening closing

interval_adds_up_example :
    business_seconds_between hours no_holidays (some (usec * opening)) (some (usec * closing)) none
    ≡ business_seconds_between hours no_holidays
        (some (usec * opening))
        (some (usec * morning))
        none
      + business_seconds_between hours no_holidays
          (some (usec * morning))
          (some (usec * closing))
          none
interval_adds_up_example =
    interval_adds_up hours no_holidays none week (omega arith) refl opening morning closing
      (omega arith) (omega arith)

business_seconds-Loops_example :
    Loops hours no_holidays
      (usec * opening)
      (usec * closing)
      sample_monday
      0
      (business_seconds hours no_holidays (usec * opening) (usec * closing))
business_seconds-Loops_example =
    business_seconds-Loops hours no_holidays (usec * opening) (usec * closing) (omega arith)

-- A schedule without working days closes every day.
abbrev shut : Schedule
shut = to_schedule (record week { week = 0 })

always_shut : (d : ℕ) → is_working_day shut d no_holidays ≡ false
unfolding is_working_day
always_shut d = ground arith

-- A site with one recurring holiday, on the last day of the year.
abbrev site : Site
site = record { configured = hours; saved_row = none; holidays = (739980, true) ∷ [] }

load_holidays-contains_example :
    contains (load_holidays site none).0 739615 ≡ exists (row_closes 739615) site.holidays
load_holidays-contains_example = load_holidays-contains site none 739615
