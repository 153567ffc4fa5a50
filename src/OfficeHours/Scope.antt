-- ===== src/OfficeHours/Scope.antt =====
-- Which schedule a calculation reads: the context variable of apps/core/business_time.py.
use udm_doctrack.Base.{
  ℕ, Bool, true, false, Option, none, some, List, [], ◌∷◌, ◌≡◌, refl, get_or, if◌then◌else◌,
  is_some, exists, ◌==◌, arith,
}
use udm_doctrack.OfficeHours.{Schedule, Holidays, contains, same_month_day}
use udm_doctrack.OfficeHours.Calendar.{month_day}

-- What the settings and the database hold: the configured schedule, the saved row if there is one,
-- and the active holidays with their `recurring` flags.
pub record Site : Type 0 where
  pub configured : Schedule
  pub saved_row : Option Schedule
  pub holidays : List (ℕ × Bool)

-- `_schedule_scope`: outside any context, or inside one whose snapshot may be taken already.
abbrev pub ScheduleScope : Type 0
ScheduleScope = Option (Option Schedule)

pub saved_schedule : Site → Schedule
saved_schedule site = get_or site.saved_row site.configured

-- The schedule, and the scope with its snapshot filled in.
unfoldable pub current_schedule : Site → ScheduleScope → Schedule × ScheduleScope
unfolding saved_schedule
current_schedule site none = (site.configured, none)
current_schedule site (some none) = (saved_schedule site, some (some (saved_schedule site)))
current_schedule site (some (some s)) = (s, some (some s))

-- `with office_schedule_context():` around a block that takes a scope and returns a value and the
-- scope it leaves. A context inside another one does nothing; the outermost one resets the variable.
unfoldable pub office_schedule_context {ℓ} :
    {A : Type ℓ} → (ScheduleScope → A × ScheduleScope) → ScheduleScope → A × ScheduleScope
office_schedule_context block (some scope) = block (some scope)
office_schedule_context block none = ((block (some none)).0, none)

abbrev add_holiday : ℕ × Bool → Holidays → Holidays
add_holiday (day, recurring) h =
    if recurring
    then record h { every_year = month_day day ∷ h.every_year }
    else record h { dates = day ∷ h.dates }

abbrev collect : Schedule → List (ℕ × Bool) → Holidays
collect s [] = record { dates = []; every_year = []; schedule = some s }
collect s (row ∷ rows) = add_holiday row (collect s rows)

-- Outside a context the saved schedule is attached, inside one its snapshot.
unfoldable pub load_holidays : Site → ScheduleScope → Holidays × ScheduleScope
unfolding current_schedule
load_holidays site none = (collect (saved_schedule site) site.holidays, none)
load_holidays site (some scope) =
    let (s, scope') = current_schedule site (some scope) in (collect s site.holidays, scope')

-- Does the row close the day?
abbrev pub row_closes : ℕ → ℕ × Bool → Bool
row_closes day (d, recurring) =
    if recurring then same_month_day (month_day day) (month_day d) else day == d

collect-contains :
    (s : Schedule) (rows : List (ℕ × Bool)) (day : ℕ)
    → contains (collect s rows) day ≡ exists (row_closes day) rows
unfolding contains
collect-contains s [] day = refl
collect-contains s ((d, true) ∷ rows) day = ground (arith, collect-contains s rows day)
collect-contains s ((d, false) ∷ rows) day = ground (arith, collect-contains s rows day)

-- A day is off exactly when an active row names it: that very date, or its month and day if the row
-- recurs. The scope decides only which schedule comes along.
pub load_holidays-contains :
    (site : Site) (scope : ScheduleScope) (day : ℕ)
    → contains (load_holidays site scope).0 day ≡ exists (row_closes day) site.holidays
unfolding load_holidays
load_holidays-contains site none day = collect-contains (saved_schedule site) site.holidays day
load_holidays-contains site (some scope) day =
    collect-contains (current_schedule site (some scope)).0 site.holidays day

-- Two readings in a row inside a context agree, although the site may change in between; outside a
-- context each reading takes the configured schedule of its moment.
pub schedule_snapshot :
    (before after : Site) (scope : ScheduleScope)
    → let (s, scope') = current_schedule before scope in
      (current_schedule after scope').0 ≡ (elim scope [ none ↦ after.configured | some _ ↦ s ])
unfolding current_schedule
schedule_snapshot before after none = refl
schedule_snapshot before after (some none) = refl
schedule_snapshot before after (some (some s)) = refl

-- The outermost context leaves no snapshot behind, an inner one keeps the outer's: after the block
-- the variable is unset exactly when it was unset before, if the block itself never unsets it.
pub context_restores {ℓ} :
    {A : Type ℓ} (block : ScheduleScope → A × ScheduleScope) (scope : ScheduleScope)
    → ((s : Option Schedule) → is_some (block (some s)).1 ≡ true)
    → is_some (office_schedule_context block scope).1 ≡ is_some scope
unfolding office_schedule_context
context_restores block none keeps = refl
context_restores block (some s) keeps = keeps s
