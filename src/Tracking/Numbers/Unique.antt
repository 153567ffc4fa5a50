-- ===== src/Tracking/Numbers/Unique.antt =====
-- apps/tracking/services.py: the texts of several calls of `generate_tracking_number`.
use udm_doctrack.Base.{
  ℕ, ◌+◌, ◌≤◌, ◌&&◌, List, [], ◌∷◌, ◌≡◌, ◌≢◌, ◌==◌, if◌then◌else◌, Text, decimal, zero_padded,
  arith,
}
use udm_doctrack.Base.Texts.Decimal.{
  decimal_injective, zero_padded_injective, decimal-has_dash, zero_padded-has_dash,
  last_field_injective, append_cancel,
}
use udm_doctrack.Tracking.Numbers.{
  NumberSequence, issued, advance, number_text, generate_tracking_number,
}

-- One call raises the counter of its own key by one and leaves every other counter.
pub issued-advance :
    (o y m o' y' m' : ℕ) (rows : List NumberSequence)
    → issued o y m (advance o' y' m' rows)
      ≡ (if (o' == o) && ((y' == y) && (m' == m)) then issued o y m rows + 1 else issued o y m rows)
unfolding issued advance
issued-advance o y m o' y' m' [] = ground arith
issued-advance o y m o' y' m' (row ∷ rows) = ground (arith, issued-advance o y m o' y' m' rows)

-- The text determines the office's code, the year, the month and the number in the sequence.
pub number_text_injective :
    (prefix : Text) (width : ℕ) (c c' : Text) (y y' m m' n n' : ℕ)
    → number_text prefix width c y m n ≡ number_text prefix width c' y' m' n'
    → (c ≡ c') × (y ≡ y') × (m ≡ m') × (n ≡ n')
unfolding number_text
number_text_injective prefix width c c' y y' m m' n n' e =
    let (front, last) =
      last_field_injective _ _ (zero_padded width n) (zero_padded width n')
        (zero_padded-has_dash width n) (zero_padded-has_dash width n') e in
    let (front', month) =
      last_field_injective _ _ (zero_padded 2 m) (zero_padded 2 m') (zero_padded-has_dash 2 m)
        (zero_padded-has_dash 2 m') front in
    let (front'', year) =
      last_field_injective _ _ (decimal y) (decimal y') (decimal-has_dash y) (decimal-has_dash y')
        front' in
    (
      tail_eq (append_cancel prefix _ _ front''),
      decimal_injective y y' year,
      zero_padded_injective 2 m m' month,
      zero_padded_injective width n n' last,
    )
  where
    tail_eq : {a b : ℕ} {s t : Text} → a ∷ s ≡ b ∷ t → s ≡ t
    tail_eq e = cc

-- A call for an office, in a year and month.
pub record Call : Type 0 where
  pub office : ℕ
  pub year : ℕ
  pub month : ℕ

abbrev pub after : List Call → List NumberSequence → List NumberSequence
after [] rows = rows
after (c ∷ calls) rows = after calls (advance c.office c.year c.month rows)

issued-after :
    (o y m : ℕ) (calls : List Call) (rows : List NumberSequence)
    → issued o y m rows ≤ issued o y m (after calls rows)
issued-after o y m [] rows = omega arith
issued-after o y m (c ∷ calls) rows = ground (
  arith,
  issued-after o y m calls (advance c.office c.year c.month rows),
  issued-advance o y m c.office c.year c.month rows,
)

-- Two calls never return the same number, whatever calls come in between and whatever the counters
-- were, if the two offices, should they have the same code, are the same office.
pub numbers_unique :
    (prefix : Text) (width : ℕ) (code : ℕ → Text) (first later : Call) (between : List Call)
    (rows : List NumberSequence)
    → (code first.office ≡ code later.office → first.office ≡ later.office)
    → let (number, rows') =
        generate_tracking_number prefix width first.office
          (code first.office)
          first.year
          first.month
          rows in
      let (number', _) =
        generate_tracking_number prefix width later.office
          (code later.office)
          later.year
          later.month
          (after between rows') in
      number ≢ number'
unfolding generate_tracking_number
numbers_unique prefix width code first later between rows distinct e =
    let rows' = advance first.office first.year first.month rows in
    let rows'' = after between rows' in
    let n = issued first.office first.year first.month rows' in
    let n' =
      issued later.office later.year later.month
        (advance later.office later.year later.month rows'') in
    let (codes, years, months, numbers) =
      number_text_injective prefix width (code first.office) (code later.office) first.year
        later.year first.month later.month n n' e in
    later_is_larger first later rows' rows'' (distinct codes) years months
      (issued-after first.office first.year first.month between rows') numbers
  where
    later_is_larger :
        (first later : Call) (rows' rows'' : List NumberSequence)
        → first.office ≡ later.office
        → first.year ≡ later.year
        → first.month ≡ later.month
        → issued first.office first.year first.month rows'
          ≤ issued first.office first.year first.month rows''
        → issued first.office first.year first.month rows'
          ≢ issued later.office later.year later.month
              (advance later.office later.year later.month rows'')
    later_is_larger first later rows' rows'' o y m grows e = ground (
      arith,
      issued-advance later.office later.year later.month later.office later.year later.month rows'',
    )
