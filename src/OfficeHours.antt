-- ===== src/OfficeHours.antt =====
-- apps/core/business_time.py: elapsed time counted in office hours.
--
-- A datetime is the number of microseconds of local wall-clock time since midnight of 0001-01-01
-- (which was a Monday), a date the number of days since then, a time of day its microseconds since
-- midnight. Python subtracts two datetimes of one time zone on the wall clock, so no zone is needed.
mod Calendar
pub mod Scope
pub mod Window
pub mod Seconds
pub mod Laws
pub mod Loop
pub mod Examples
use udm_doctrack.Base.{
  ℕ, zero, suc, ◌+◌, ◌-◌, ◌*◌, ◌/◌, min, max, Bool, true, false, not, ◌&&◌, ◌||◌, Option, none,
  some, List, [], ◌∷◌, leb, ◌==◌, if◌then◌else◌, exists, elem, get_or,
}
use Calendar.{month_day, weekday}

-- Microseconds in a second and in a day.
abbrev pub usec : ℕ
usec = 1000000

abbrev pub day_usec : ℕ
day_usec = 86400000000

-- The working window of an office day, as `configured_schedule` and `saved_schedule` return it.
pub record Schedule : Type 0 where
  pub opens_at : ℕ
  pub closes_at : ℕ
  pub break_start : ℕ
  pub break_end : ℕ
  pub working_days : ℕ

-- The closed days, as dates and as every-year month-and-day pairs.
pub record Holidays : Type 0 where
  pub dates : List ℕ
  pub every_year : List (ℕ × ℕ)
  pub schedule : Option Schedule

abbrev pub no_holidays : Holidays
no_holidays = record { dates = []; every_year = []; schedule = none }

abbrev pub same_month_day : ℕ × ℕ → ℕ × ℕ → Bool
same_month_day p q = (p.0 == q.0) && (p.1 == q.1)

-- `day in holidays`
unfoldable pub contains : Holidays → ℕ → Bool
unfolding month_day
contains h day = elem day h.dates || exists (same_month_day (month_day day)) h.every_year

-- `holidays.schedule or current_schedule()`
abbrev pub schedule_of : Schedule → Holidays → Schedule
schedule_of current h = get_or h.schedule current

unfoldable pub office_day_bounds : Schedule → ℕ × ℕ
office_day_bounds s = (s.opens_at, s.closes_at)

unfoldable pub lunch_bounds : Schedule → ℕ × ℕ
lunch_bounds s = (s.break_start, s.break_end)

-- `max(0, int((min(end, window_end) - max(start, window_start)).total_seconds()))`: the truncated
-- difference is the `max` with 0, and `int` drops the fraction of a second.
unfoldable pub overlap_seconds : ℕ → ℕ → ℕ → ℕ → ℕ
overlap_seconds start end window_start window_end =
    (min end window_end - max start window_start) / usec

unfoldable pub is_working_day : Schedule → ℕ → Holidays → Bool
is_working_day current day h =
    if leb (schedule_of current h).working_days (weekday day) then false else not (contains h day)

-- The body of the loop for one working day: the office window less the part of the break inside it.
-- `-` stands for Python's: see `lunch_within_window` in Laws.
unfoldable pub day_seconds : Schedule → ℕ → ℕ → ℕ → ℕ
unfolding office_day_bounds lunch_bounds overlap_seconds
day_seconds s start end day =
    let at = λ (clock : ℕ). day * day_usec + clock in
    let opens : ℕ = at (office_day_bounds s).0 in
    let closes : ℕ = at (office_day_bounds s).1 in
    let lunch_start : ℕ = min (max (at (lunch_bounds s).0) opens) closes in
    let lunch_end : ℕ = min (max (at (lunch_bounds s).1) lunch_start) closes in
    overlap_seconds start end opens closes - overlap_seconds start end lunch_start lunch_end

-- `while day <= end.date()`, with fuel; a day that is closed is skipped.
unfoldable pub walk : Schedule → Holidays → ℕ → ℕ → ℕ → ℕ → ℕ → ℕ
unfolding is_working_day day_seconds
walk current h start end zero day total = total
walk current h start end (suc fuel) day total =
    let rest = walk current h start end fuel (suc day) (
      if is_working_day current day h
      then total + day_seconds (schedule_of current h) start end day
      else total) in
    if leb day (end / day_usec) then rest else total

-- The fuel is one more than the days that the loop visits: see Loop.
unfoldable pub business_seconds : Schedule → Holidays → ℕ → ℕ → ℕ
business_seconds current h start end =
    if leb end start
    then 0
    else walk current h start end (suc (suc (end / day_usec) - start / day_usec)) (start / day_usec)
        0

-- `current` is what `current_schedule()` and `loaded` what `load_holidays()` returns.
unfoldable pub business_seconds_between :
    Schedule → Holidays → Option ℕ → Option ℕ → Option Holidays → ℕ
business_seconds_between current loaded none end h = 0
business_seconds_between current loaded (some start) none h = 0
business_seconds_between current loaded (some start) (some end) h =
    business_seconds current (get_or h loaded) start end

-- 3 January 2000, a Monday.
abbrev pub sample_monday : ℕ
sample_monday = 730121

unfoldable pub working_day_seconds : Schedule → ℕ
unfolding office_day_bounds
working_day_seconds current =
    business_seconds current no_holidays (sample_monday * day_usec + (office_day_bounds current).0)
      (sample_monday * day_usec + (office_day_bounds current).1)
