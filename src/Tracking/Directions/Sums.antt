-- ===== src/Tracking/Directions/Sums.antt =====
-- apps/tracking/services.py: the direction counts add up, and agree with the record's own tests.
use udm_doctrack.Base.{
  ℕ, suc, ◌+◌, Bool, true, false, not, ◌&&◌, Option, none, some, List, [], ◌∷◌, ◌≡◌, refl, sym, ◌∙◌,
  ap, ◌==◌, if◌then◌else◌, is_key, exists-keep, length, All, ltb, arith,
}
use udm_doctrack.Tracking.{
  Status, draft, pending_receipt, received, in_process, completed_pending_upload, completed,
  TrackingRecord, RoutingStep, is_incoming_for, is_outgoing_for,
}
use udm_doctrack.Tracking.Stage.{stage_for}
use udm_doctrack.Tracking.Directions.{
  Direction, incoming, outgoing, unset, direction_annotation, is_incoming, is_outgoing, is_unset,
  Totals, count, direction_totals, same_status, live, at_stage, StatusRow, row_for, statuses,
  rows_of, by_status_direction,
}

abbrev pub sum : Totals → ℕ
sum t = t.incoming + (t.outgoing + t.other)

-- The annotation by the record's own tests.
annotated :
    (office : ℕ) (r : TrackingRecord)
    → direction_annotation office r ≡ (
        if is_incoming_for r (some office)
        then incoming
        else if is_outgoing_for r (some office)
        then outgoing
        else unset)
unfolding direction_annotation is_incoming_for is_outgoing_for
annotated office r =
    chosen _ _ _ _
      (sym (exists-keep (λ (s : RoutingStep). s.to_office == office) in_current r.routing_steps))
      (sym
        (exists-keep (λ (s : RoutingStep). is_key s.from_office office) in_current r.routing_steps))
  where
    in_current : RoutingStep → Bool
    in_current s = s.batch == r.current_batch

    chosen :
        (a a' b b' : Bool)
        → a ≡ a'
        → b ≡ b'
        → (if a then incoming else if b then outgoing else unset)
          ≡ (if a' then incoming else if b' then outgoing else unset)
    chosen a a' b b' e k = rw (e, k) refl

-- Every direction is one of three.
count-directions :
    (office : ℕ) (records : List TrackingRecord)
    → count (λ r. is_incoming (direction_annotation office r)) records
        + (count (λ r. is_outgoing (direction_annotation office r)) records
            + count (λ r. is_unset (direction_annotation office r)) records)
      ≡ length records
count-directions office [] = omega arith
count-directions office (r ∷ records) =
    one (direction_annotation office r) _ _ _ (count-directions office records)
  where
    one :
        (d : Direction) (xs ys zs : List TrackingRecord)
        → length xs + (length ys + length zs) ≡ length records
        → length (if is_incoming d then r ∷ xs else xs)
            + (length (if is_outgoing d then r ∷ ys else ys)
                + length (if is_unset d then r ∷ zs else zs))
          ≡ suc (length records)
    one incoming xs ys zs h = omega (arith, h)
    one outgoing xs ys zs h = omega (arith, h)
    one unset xs ys zs h = omega (arith, h)

abbrev pub total_of : List StatusRow → ℕ
total_of [] = 0
total_of (row ∷ rows) = row.total + total_of rows

-- Each record is at one of the stages.
stages-add :
    (office : Option ℕ) (records : List TrackingRecord)
    → length (at_stage office draft records)
        + (length (at_stage office pending_receipt records)
            + (length (at_stage office received records)
                + (length (at_stage office in_process records)
                    + (length (at_stage office completed_pending_upload records)
                        + length (at_stage office completed records)))))
      ≡ length records
stages-add office [] = omega arith
stages-add office (r ∷ records) = one (stage_for r office) _ _ _ _ _ _ (stages-add office records)
  where
    one :
        (st : Status) (a b c d e f : List TrackingRecord)
        → length a + (length b + (length c + (length d + (length e + length f)))) ≡ length records
        → length (if same_status st draft then r ∷ a else a)
            + (length (if same_status st pending_receipt then r ∷ b else b)
                + (length (if same_status st received then r ∷ c else c)
                    + (length (if same_status st in_process then r ∷ d else d)
                        + (length (if same_status st completed_pending_upload then r ∷ e else e)
                            + length (if same_status st completed then r ∷ f else f)))))
          ≡ suc (length records)
    one draft a b c d e f h = omega (arith, h)
    one pending_receipt a b c d e f h = omega (arith, h)
    one received a b c d e f h = omega (arith, h)
    one in_process a b c d e f h = omega (arith, h)
    one completed_pending_upload a b c d e f h = omega (arith, h)
    one completed a b c d e f h = omega (arith, h)

-- A stage without records has no row, and would add nothing.
rows_of-cons :
    (records : List TrackingRecord) (office : Option ℕ) (status : Status) (rest : List Status)
    → total_of (rows_of records office (status ∷ rest))
      ≡ length (at_stage office status (live records)) + total_of (rows_of records office rest)
rows_of-cons records office status rest =
    shown (length (at_stage office status (live records))) (row_for records office status)
      (rows_of records office rest) refl
  where
    shown :
        (n : ℕ) (row : StatusRow) (rows : List StatusRow)
        → row.total ≡ n
        → total_of (if ltb 0 row.total then row ∷ rows else rows) ≡ n + total_of rows
    shown n row rows e = ground (arith, e)

abbrev pub Adds : Option ℕ → StatusRow → Type 0
Adds none row = sum row.totals ≡ 0
Adds (some office) row = sum row.totals ≡ row.total

row_for-Adds :
    (records : List TrackingRecord) (office : Option ℕ) (status : Status)
    → Adds office (row_for records office status)
unfolding direction_totals
row_for-Adds records none status = refl
row_for-Adds records (some office) status =
    count-directions office (at_stage (some office) status (live records))

rows_of-Adds :
    (records : List TrackingRecord) (office : Option ℕ) (list : List Status)
    → All (Adds office) (rows_of records office list)
rows_of-Adds records office [] = tt
rows_of-Adds records office (status ∷ list) =
    shown (ltb 0 (row_for records office status).total) (rows_of-Adds records office list)
  where
    shown :
        (t : Bool)
        → All (Adds office) (rows_of records office list)
        → All (Adds office) (
            if t
            then row_for records office status ∷ rows_of records office list
            else rows_of records office list)
    shown true h = (row_for-Adds records office status, h)
    shown false h = h

-- The table of statuses and directions loses and repeats nothing: its totals add up to the live
-- records, and in each row the three directions add up to the row's total, or to nothing when no
-- office is given.
pub by_status_direction-total :
    (records : List TrackingRecord) (office : Option ℕ)
    → (total_of (by_status_direction records office) ≡ length (live records))
      × All (Adds office) (by_status_direction records office)
unfolding by_status_direction
by_status_direction-total records office = (
  omega (
    arith,
    stages-add office (live records),
    rows_of-cons records office draft
        (pending_receipt ∷ received ∷ in_process ∷ completed_pending_upload ∷ completed ∷ []),
    rows_of-cons records office pending_receipt
        (received ∷ in_process ∷ completed_pending_upload ∷ completed ∷ []),
    rows_of-cons records office received (in_process ∷ completed_pending_upload ∷ completed ∷ []),
    rows_of-cons records office in_process (completed_pending_upload ∷ completed ∷ []),
    rows_of-cons records office completed_pending_upload (completed ∷ []),
    rows_of-cons records office completed [],
  ),
  rows_of-Adds records office statuses,
)

-- The totals that an office sees: they add up to the records, and the two sides are counted by the
-- record's own tests, incoming first.
pub direction_totals-sum :
    (records : List TrackingRecord) (office : ℕ)
    → (sum (direction_totals records (some office)) ≡ length records)
      × ((direction_totals records (some office)).incoming
          ≡ count (λ r. is_incoming_for r (some office)) records)
      × ((direction_totals records (some office)).outgoing
          ≡ count
              (λ r. is_outgoing_for r (some office) && not (is_incoming_for r (some office)))
              records)
unfolding direction_totals
direction_totals-sum records office = (
  count-directions office records,
  count_cong (λ r. is_incoming (direction_annotation office r))
      (λ r. is_incoming_for r (some office)) records
      (λ r.
        ap is_incoming (annotated office r)
        ∙ first_side (is_incoming_for r (some office)) (is_outgoing_for r (some office))),
  count_cong (λ r. is_outgoing (direction_annotation office r))
      (λ r. is_outgoing_for r (some office) && not (is_incoming_for r (some office))) records
      (λ r.
        ap is_outgoing (annotated office r)
        ∙ second_side (is_incoming_for r (some office)) (is_outgoing_for r (some office))),
)
  where
    first_side :
        (a b : Bool) → is_incoming (if a then incoming else if b then outgoing else unset) ≡ a
    first_side true b = refl
    first_side false true = refl
    first_side false false = refl

    second_side :
        (a b : Bool)
        → is_outgoing (if a then incoming else if b then outgoing else unset) ≡ (b && not a)
    second_side true true = refl
    second_side true false = refl
    second_side false true = refl
    second_side false false = refl

    count_cong :
        (p q : TrackingRecord → Bool) (xs : List TrackingRecord)
        → ((r : TrackingRecord) → p r ≡ q r)
        → count p xs ≡ count q xs
    count_cong p q [] h = refl
    count_cong p q (x ∷ xs) h = chosen (p x) (q x) (h x) _ _ (count_cong p q xs h)
      where
        chosen :
            (a b : Bool)
            → a ≡ b
            → (ys zs : List TrackingRecord) → length ys ≡ length zs
            → length (if a then x ∷ ys else ys) ≡ length (if b then x ∷ zs else zs)
        chosen a b e ys zs l = ground (arith, e, l)
