-- ===== src/Tracking/Numbers.antt =====
-- apps/tracking/services.py: tracking numbers, one counter per office, year and month.
pub mod Unique
use udm_doctrack.Base.{
  ℕ, ◌+◌, Bool, ◌&&◌, List, [], ◌∷◌, ◌++◌, ◌==◌, if◌then◌else◌, Text, decimal, zero_padded,
}
use udm_doctrack.Base.Texts.Decimal.{dash}

-- A row of `TrackingNumberSequence`, unique by office, year and month.
pub record NumberSequence : Type 0 where
  pub office : ℕ
  pub year : ℕ
  pub month : ℕ
  pub last_number : ℕ

abbrev pub is_for : ℕ → ℕ → ℕ → NumberSequence → Bool
is_for office year month row =
    (row.office == office) && ((row.year == year) && (row.month == month))

-- The last number issued for the key; a row that is not there yet counts as 0.
unfoldable pub issued : ℕ → ℕ → ℕ → List NumberSequence → ℕ
issued office year month [] = 0
issued office year month (row ∷ rows) =
    let rest = issued office year month rows in
    if is_for office year month row then row.last_number else rest

-- `get_or_create`, then one more: the table afterwards.
unfoldable pub advance : ℕ → ℕ → ℕ → List NumberSequence → List NumberSequence
advance office year month [] =
    record { office = office; year = year; month = month; last_number = 1 } ∷ []
advance office year month (row ∷ rows) =
    let rest = advance office year month rows in
    if is_for office year month row
    then record row { last_number = row.last_number + 1 } ∷ rows
    else row ∷ rest

-- `{a}-{b}`
abbrev pub field : Text → Text → Text
field a b = a ++ dash ∷ b

-- PREFIX-OFFICE-YEAR-MONTH-SEQ
unfoldable pub number_text : Text → ℕ → Text → ℕ → ℕ → ℕ → Text
number_text prefix width code year month number =
    field (field (field (field prefix code) (decimal year)) (zero_padded 2 month))
      (zero_padded width number)

-- The number, and the counters afterwards.
unfoldable pub generate_tracking_number :
    Text → ℕ → ℕ → Text → ℕ → ℕ → List NumberSequence → Text × List NumberSequence
generate_tracking_number prefix width office code year month rows =
    let rows' = advance office year month rows in
    (number_text prefix width code year month (issued office year month rows'), rows')
