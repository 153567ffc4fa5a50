-- ===== src/OfficeHours/Laws.antt =====
-- apps/core/business_time.py: `business_seconds_between` and `working_day_seconds` for their callers.
use udm_doctrack.Base.{
  ℕ, zero, suc, ◌+◌, ◌-◌, ◌*◌, ◌/◌, ◌≤◌, ◌<◌, min, max, ◌≡◌, refl, true, false, Option, some,
  get_or, leb, arith, dec_lt,
}
use udm_doctrack.OfficeHours.{
  Schedule, Holidays, contains, usec, day_usec, schedule_of, is_working_day, overlap_seconds,
  day_seconds, walk, business_seconds, business_seconds_between, working_day_seconds, no_holidays,
  sample_monday,
}
use udm_doctrack.OfficeHours.Window.{count, count-add, count-le}
use udm_doctrack.OfficeHours.Seconds.{
  WholeSeconds, to_schedule, office_time, business_seconds-count, lunch_from, lunch_to,
  day_seconds-whole,
}

-- For any schedule, also a misconfigured one, the part of the break that a day subtracts is at most
-- what the day's window counts, so no day's figure falls below zero.
pub lunch_within_window :
    (start end opens closes lunch lunch_over : ℕ)
    → overlap_seconds start end
        (min (max lunch opens) closes)
        (min (max lunch_over (min (max lunch opens) closes)) closes)
      ≤ overlap_seconds start end opens closes
unfolding overlap_seconds
lunch_within_window start end opens closes lunch lunch_over = omega arith

-- An interval that ends at or before its start counts nothing.
pub business_seconds_backwards :
    (current : Schedule) (h : Holidays) (start end : ℕ)
    → end ≤ start
    → business_seconds current h start end ≡ 0
unfolding business_seconds
business_seconds_backwards current h start end back = ground arith

module _ (current : Schedule) (loaded : Holidays) (given : Option Holidays) (w : WholeSeconds)
    (fits : w.closes ≤ 86400)
    (agrees : schedule_of current (get_or given loaded) ≡ to_schedule w) where
  -- Where the schedule in use is one of whole seconds that closes by midnight, the figure for two
  -- datetimes on whole seconds is the number of seconds of office time between them: on a working
  -- day, inside the window, outside the break.
  pub counts_office_time :
      (a b : ℕ)
      → business_seconds_between current loaded (some (usec * a)) (some (usec * b)) given
        ≡ count (office_time current (get_or given loaded) w) a (b - a)
  unfolding business_seconds_between
  counts_office_time a b = elim (dec_lt a b) [
    | yes ahead ↦
        let e : a + (b - a) ≡ b = omega arith in
        rw e at (business_seconds-count current (get_or given loaded) w fits agrees a (b - a))
    | no reached ↦
        let none_left : b - a ≡ 0 = omega arith in
        rw none_left (
          omega (
            arith,
            business_seconds_backwards current (get_or given loaded) (usec * a) (usec * b),
            count-le (office_time current (get_or given loaded) w) a 0,
          ))
  ]

  -- Where the schedule in use is one of whole seconds that closes by midnight, splitting an interval
  -- at a whole second in between loses and invents no office time.
  pub interval_adds_up :
      (a b c : ℕ)
      → a ≤ b
      → b ≤ c
      → business_seconds_between current loaded (some (usec * a)) (some (usec * c)) given
        ≡ business_seconds_between current loaded (some (usec * a)) (some (usec * b)) given
          + business_seconds_between current loaded (some (usec * b)) (some (usec * c)) given
  interval_adds_up a b c ab bc =
      let whole : b - a + (c - b) ≡ c - a = omega arith in
      let middle : a + (b - a) ≡ b = omega arith in
      let split = count-add (office_time current (get_or given loaded) w) a (b - a) (c - b) in
      rw (counts_office_time a c, counts_office_time a b, counts_office_time b c)
        (rw (whole, middle) at split)

  -- Where the schedule in use is one of whole seconds that closes by midnight, the office time
  -- between two datetimes on whole seconds is at most the calendar time between them.
  pub within_calendar_time :
      (a b : ℕ)
      → business_seconds_between current loaded (some (usec * a)) (some (usec * b)) given ≤ b - a
  within_calendar_time a b =
      rw (counts_office_time a b) (count-le (office_time current (get_or given loaded) w) a (b - a))

-- The loop adds nothing on closed days.
walk_closed :
    (current : Schedule) (h : Holidays) (start end fuel day total : ℕ)
    → ((d : ℕ) → day ≤ d → d ≤ end / day_usec → is_working_day current d h ≡ false)
    → walk current h start end fuel day total ≡ total
unfolding walk
walk_closed current h start end zero day total closed = refl
walk_closed current h start end (suc fuel) day total closed = elim (dec_lt (end / day_usec) day) [
  | yes late ↦ ground arith
  | no still ↦ ground (
    arith,
    closed day,
    walk_closed current h start end fuel (suc day) total
        (λ d from upto. closed d (omega arith) upto),
  )
]

-- An interval all of whose days are closed counts nothing, whatever the schedule and to the
-- microsecond.
pub closed_days_count_nothing :
    (current : Schedule) (loaded : Holidays) (given : Option Holidays) (start end : ℕ)
    → ((d : ℕ)
        → start / day_usec ≤ d
        → d ≤ end / day_usec
        → is_working_day current d (get_or given loaded) ≡ false)
    → business_seconds_between current loaded (some start) (some end) given ≡ 0
unfolding business_seconds_between business_seconds
closed_days_count_nothing current loaded given start end closed = ground (
  arith,
  walk_closed current (get_or given loaded) start end
      (suc (suc (end / day_usec) - start / day_usec)) (start / day_usec) 0 closed,
)

-- The sample Monday is a working day of every week that has one.
sample_working :
    (w : WholeSeconds)
    → 0 < w.week
    → is_working_day (to_schedule w) sample_monday no_holidays ≡ true
unfolding is_working_day contains
sample_working w open_week = ground arith

clear_overlap :
    (base o p q c : ℕ)
    → o ≤ p
    → p ≤ q
    → q ≤ c
    → min (base + c) (base + c)
        - max (base + o) (base + o)
        - (min (base + c) (base + q) - max (base + o) (base + p))
      ≡ c - o - (q - p)
clear_overlap base o p q c op pq qc = omega arith

-- One whole day of the window, in the walk's own figure.
sample_day :
    (w : WholeSeconds)
    → w.opens < w.closes
    → day_seconds
        (to_schedule w)
        (sample_monday * day_usec + usec * w.opens)
        (sample_monday * day_usec + usec * w.closes)
        sample_monday
      ≡ w.closes - w.opens - (lunch_to w - lunch_from w)
sample_day w opens_first =
    let opening : sample_monday * day_usec + usec * w.opens
        ≡ usec * (sample_monday * 86400 + w.opens) =
      omega arith in
    let closing : sample_monday * day_usec + usec * w.closes
        ≡ usec * (sample_monday * 86400 + w.closes) =
      omega arith in
    rw (opening, closing)
      (rw
        (day_seconds-whole w (sample_monday * 86400 + w.opens) (sample_monday * 86400 + w.closes)
          sample_monday)
        (clear_overlap (sample_monday * 86400) w.opens (lunch_from w) (lunch_to w) w.closes
          (omega arith) (omega arith) (omega arith)))

-- In a schedule of whole seconds that closes before midnight and has a working day in its week, the
-- length of a working day is the window less the part of the break inside it.
pub working_day_length :
    (w : WholeSeconds)
    → w.closes < 86400
    → 0 < w.week
    → working_day_seconds (to_schedule w) ≡ w.closes - w.opens - (lunch_to w - lunch_from w)
unfolding working_day_seconds business_seconds
working_day_length w fits open_week = elim (dec_lt w.opens w.closes) [
  | yes opens_first ↦
      let first : (sample_monday * day_usec + usec * w.opens) / day_usec ≡ sample_monday =
        omega arith in
      let last : (sample_monday * day_usec + usec * w.closes) / day_usec ≡ sample_monday =
        omega arith in
      let ahead : leb (sample_monday * day_usec + usec * w.closes)
            (sample_monday * day_usec + usec * w.opens)
          ≡ false =
        ground arith in
      rw (ahead, first, last)
        (unfold walk in
          rw (sample_working w open_week, last) (omega (arith, sample_day w opens_first)))
  | no never ↦ ground arith
]
