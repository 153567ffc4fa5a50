-- ===== src/OfficeHours/Seconds.antt =====
-- apps/core/business_time.py: the day-by-day walk beside a count of single seconds.
use udm_doctrack.Base.{
  ℕ, zero, suc, ◌+◌, ◌-◌, ◌*◌, ◌/◌, ◌%◌, ◌≤◌, ◌<◌, min, max, ◌≡◌, refl, ◌∙◌, Bool, true, false, not,
  ◌&&◌, ◌⊎◌, dec_lt, leb, if◌then◌else◌, arith, inl, inr, Bool-cases,
}
use udm_doctrack.OfficeHours.{
  Schedule, Holidays, usec, day_usec, schedule_of, is_working_day, overlap_seconds, day_seconds,
  walk, business_seconds,
}
use udm_doctrack.OfficeHours.Window.{
  bit, count, within, count_split, count_cong, count_none, count-le, count-within, count_without,
}

-- A schedule whose times of day are whole seconds, as the settings write them (HH:MM), within a day.
pub record WholeSeconds : Type 0 where
  pub opens : ℕ
  pub closes : ℕ
  pub lunch : ℕ
  pub lunch_over : ℕ
  pub week : ℕ

-- The same in microseconds.
abbrev pub to_schedule : WholeSeconds → Schedule
to_schedule w = record {
  opens_at = usec * w.opens;
  closes_at = usec * w.closes;
  break_start = usec * w.lunch;
  break_end = usec * w.lunch_over;
  working_days = w.week;
}

abbrev pub in_office : WholeSeconds → ℕ → Bool
in_office w clock = within w.opens w.closes clock

abbrev pub lunch_from : WholeSeconds → ℕ
lunch_from w = min (max w.lunch w.opens) w.closes

abbrev pub lunch_to : WholeSeconds → ℕ
lunch_to w = min (max w.lunch_over (lunch_from w)) w.closes

-- An independent reading of the rules: is the second of the day `clock` office time?
abbrev pub at_desk : WholeSeconds → ℕ → Bool
at_desk w clock = in_office w clock && not (within w.lunch w.lunch_over clock)

-- Is the second `t`, counted from midnight of 0001-01-01, office time?
abbrev pub office_time : Schedule → Holidays → WholeSeconds → ℕ → Bool
office_time current h w t = is_working_day current (t / 86400) h && at_desk w (t % 86400)

-- The clamped break of the code leaves the same seconds as the plain reading.
at_desk_clamped :
    (w : WholeSeconds) (base t : ℕ)
    → (within (base + w.opens) (base + w.closes) t
        && not (within (base + lunch_from w) (base + lunch_to w) t))
      ≡ (within (base + w.opens) (base + w.closes) t
          && not (within (base + w.lunch) (base + w.lunch_over) t))
at_desk_clamped w base t = ground arith

-- The part of a window of day `d` that lies in an interval of whole seconds.
overlap_whole :
    (a b d lo hi : ℕ)
    → overlap_seconds (usec * a) (usec * b) (d * day_usec + usec * lo) (d * day_usec + usec * hi)
      ≡ min b (d * 86400 + hi) - max a (d * 86400 + lo)
unfolding overlap_seconds
overlap_whole a b d lo hi = omega arith

-- The clamped bounds of the break, in whole seconds.
clamp_whole :
    (d x o c : ℕ)
    → min (max (d * day_usec + usec * x) (d * day_usec + usec * o)) (d * day_usec + usec * c)
      ≡ d * day_usec + usec * min (max x o) c
clamp_whole d x o c = omega arith

-- The tests of the office window and of the clamped break on day `d`.
abbrev office_on : WholeSeconds → ℕ → ℕ → Bool
office_on w d = within (d * 86400 + w.opens) (d * 86400 + w.closes)

abbrev break_on : WholeSeconds → ℕ → ℕ → Bool
break_on w d = within (d * 86400 + lunch_from w) (d * 86400 + lunch_to w)

break_in_office : (w : WholeSeconds) (d t : ℕ) → break_on w d t ≡ true → office_on w d t ≡ true
break_in_office w d t h = ground arith

-- One day's figure in whole seconds: the window's overlap less the clamped break's.
pub day_seconds-whole :
    (w : WholeSeconds) (a b d : ℕ)
    → day_seconds (to_schedule w) (usec * a) (usec * b) d
      ≡ min b (d * 86400 + w.closes)
        - max a (d * 86400 + w.opens)
        - (min b (d * 86400 + lunch_to w) - max a (d * 86400 + lunch_from w))
unfolding day_seconds
day_seconds-whole w a b d = simp (clamp_whole, overlap_whole)

-- One day's figure is the count of the desk seconds of that day in the interval.
day_seconds-count :
    (w : WholeSeconds) (a n d : ℕ)
    → day_seconds (to_schedule w) (usec * a) (usec * (a + n)) d
      ≡ count (λ t. office_on w d t && not (break_on w d t)) a n
day_seconds-count w a n d = rw (day_seconds-whole w a (a + n) d) (
    rw
      (
        count_without (office_on w d) (break_on w d) a n (break_in_office w d),
        count-within (d * 86400 + w.opens) (d * 86400 + w.closes) a n,
        count-within (d * 86400 + lunch_from w) (d * 86400 + lunch_to w) a n,
      )
      refl)

-- Below, the schedule in force is `w`, and its window does not pass midnight.
module _ (current : Schedule) (h : Holidays) (w : WholeSeconds) (fits : w.closes ≤ 86400) where
  -- The office time of day `d`, and that of day `d` and the days after it.
  abbrev on_day : ℕ → ℕ → Bool
  on_day d t = is_working_day current d h && (office_on w d t && not (break_on w d t))

  abbrev from_day : ℕ → ℕ → Bool
  from_day d t = leb (d * 86400) t && office_time current h w t

  within_day :
      (d t : ℕ) → t / 86400 ≡ d → (office_on w d t && not (break_on w d t)) ≡ at_desk w (t % 86400)
  within_day d t e = ground arith

  outside_day : (d t : ℕ) → (t < d * 86400) ⊎ (suc d * 86400 ≤ t) → office_on w d t ≡ false
  outside_day d t (inl before) = ground arith
  outside_day d t (inr after) = ground arith

  from_day-split : (d t : ℕ) → bit (from_day d t) ≡ bit (on_day d t) + bit (from_day (suc d) t)
  from_day-split d t = elim (dec_lt t (d * 86400)) [
    | yes before ↦ rw (outside_day d t (inl before)) (ground arith)
    | no from ↦ elim (dec_lt t (suc d * 86400)) [
      | yes upto ↦
          let day : t / 86400 ≡ d = omega arith in rw (day, within_day d t day) (ground arith)
      | no past ↦ rw (outside_day d t (inr (omega arith))) (ground arith)
    ]
  ]

  past_last : (a n d : ℕ) → (a + n) / 86400 < d → count (from_day d) a n ≡ 0
  past_last a n d late =
      count_cong (from_day d) (λ _. false) a n (λ t from upto. not_reached t upto) ∙ count_none a n
    where
      not_reached : (t : ℕ) → t < a + n → from_day d t ≡ false
      not_reached t upto = ground arith

  module _ (agrees : schedule_of current h ≡ to_schedule w) where
    on_working_day :
        (a n d : ℕ)
        → is_working_day current d h ≡ true
        → count (on_day d) a n ≡ count (λ t. office_on w d t && not (break_on w d t)) a n
    on_working_day a n d working = count_cong (on_day d) _ a n (λ t _ _. rw working)

    on_closed_day : (a n d : ℕ) → is_working_day current d h ≡ false → count (on_day d) a n ≡ 0
    on_closed_day a n d closed =
        count_cong (on_day d) (λ _. false) a n (λ t _ _. rw closed) ∙ count_none a n

    -- What the loop's body adds for day `d`.
    body-count :
        (a n d total : ℕ)
        → (if is_working_day current d h
            then total + day_seconds (schedule_of current h) (usec * a) (usec * (a + n)) d
            else total)
          ≡ total + count (on_day d) a n
    body-count a n d total = elim (Bool-cases (is_working_day current d h)) [
      | inl working ↦
          rw (working, agrees) (rw (day_seconds-count w a n d, on_working_day a n d working) refl)
      | inr closed ↦ rw closed (omega (arith, on_closed_day a n d closed))
    ]

    -- With enough fuel the loop adds the office time of its day and of all later days.
    walk-count :
        (a n fuel d total : ℕ)
        → (a + n) / 86400 < d + fuel
        → walk current h (usec * a) (usec * (a + n)) fuel d total ≡ total + count (from_day d) a n
    unfolding walk
    walk-count a n zero d total enough = omega (arith, past_last a n d)
    walk-count a n (suc fuel) d total enough = elim (dec_lt ((a + n) / 86400) d) [
      | yes late ↦ ground (arith, past_last a n d late)
      | no still ↦ rw (body-count a n d total) (
          ground (
            arith,
            walk-count a n fuel (suc d) (total + count (on_day d) a n),
            count_split (from_day d) (on_day d) (from_day (suc d)) a n (from_day-split d),
          ))
    ]

    all_from_first :
        (a n : ℕ) → count (from_day (a / 86400)) a n ≡ count (office_time current h w) a n
    all_from_first a n =
        count_cong (from_day (a / 86400)) (office_time current h w) a n (λ t from _. reached t from)
      where
        reached : (t : ℕ) → a ≤ t → from_day (a / 86400) t ≡ office_time current h w t
        reached t from = ground arith

    -- On whole seconds the walk counts exactly the seconds of office time from `a` up to `a + n`.
    pub business_seconds-count :
        (a n : ℕ)
        → business_seconds current h (usec * a) (usec * (a + n))
          ≡ count (office_time current h w) a n
    unfolding business_seconds
    business_seconds-count a n =
        let first : usec * a / day_usec ≡ a / 86400 = omega arith in
        let last : usec * (a + n) / day_usec ≡ (a + n) / 86400 = omega arith in
        elim (dec_lt 0 n) [
          | yes some_time ↦
              let ahead : leb (usec * (a + n)) (usec * a) ≡ false = ground arith in
              rw (ahead, first, last)
                (omega (
                  arith,
                  walk-count a n (suc (suc ((a + n) / 86400) - a / 86400)) (a / 86400) 0,
                  all_from_first a n,
                ))
          | no empty ↦
              let reached : leb (usec * (a + n)) (usec * a) ≡ true = ground arith in
              rw reached (omega (arith, count-le (office_time current h w) a n))
        ]
