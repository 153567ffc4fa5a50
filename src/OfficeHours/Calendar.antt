-- ===== src/OfficeHours/Calendar.antt =====
-- The month and the day of a date, and its weekday: what business_time.py uses of Python's `date`.
use udm_doctrack.Base.{
  ℕ, ◌+◌, ◌-◌, ◌/◌, ◌%◌, Bool, not, ◌&&◌, ◌||◌, List, [], ◌∷◌, ltb, ◌==◌, if◌then◌else◌,
}

abbrev month_lengths : Bool → List ℕ
month_lengths leap =
    31 ∷ (if leap then 29 else 28) ∷ 31 ∷ 30 ∷ 31 ∷ 30 ∷ 31 ∷ 31 ∷ 30 ∷ 31 ∷ 30 ∷ 31 ∷ []

-- The month that the `n`-th day of a year (from 0) falls in, and the day of that month (from 1).
find_month : ℕ → ℕ → List ℕ → ℕ × ℕ
find_month m n [] = (m, n + 1)
find_month m n (l ∷ ls) =
    let rest = find_month (m + 1) (n - l) ls in if ltb n l then (m, n + 1) else rest

-- `(day.month, day.day)` of the proleptic Gregorian calendar.
unfoldable pub month_day : ℕ → ℕ × ℕ
unfolding find_month
month_day day =
    let n400 = day % 146097 in
    let n100 = n400 / 36524 in
    let r100 = n400 % 36524 in
    let n4 = r100 / 1461 in
    let r4 = r100 % 1461 in
    let n1 = r4 / 365 in
    let leap = (n1 == 3) && (not (n4 == 24) || (n100 == 3)) in
    if (n1 == 4) || (n100 == 4) then (12, 31) else find_month 1 (r4 % 365) (month_lengths leap)

-- `day.weekday()`, 0 for Monday
abbrev pub weekday : ℕ → ℕ
weekday day = day % 7
