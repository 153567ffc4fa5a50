-- ===== src/Tracking/Sla.antt =====
-- apps/tracking/services.py: how many days an office has to act, from the SLA table.
use udm_doctrack.Base.{
  ℕ, ◌≤◌, Bool, true, false, ◌&&◌, ◌||◌, Option, none, some, List, [], ◌∷◌, ◌≡◌, refl, sym, subst,
  ◌∙◌, ◌⊎◌, min, exists, first-keep, first_cong, first-false, ◌==◌, ltb, if◌then◌else◌, is_some,
  is_none, is_key, first, keep, arith, All, All-imp, ==_refl, dec_lt, Bool-cases, inl, inr,
}

-- A row of `RoutingSLA`; a rule with neither office nor type is refused by the table.
pub record RoutingSla : Type 0 where
  pub office : Option ℕ
  pub document_type : Option ℕ
  pub due_days : ℕ
  pub is_active : Bool

-- The disjuncts of `scopes`, the first two tests false where a key is missing.
abbrev pub exact : Option ℕ → Option ℕ → RoutingSla → Bool
exact (some office) (some kind) row = is_key row.office office && is_key row.document_type kind
exact _ _ row = false

abbrev pub house_rule : Option ℕ → RoutingSla → Bool
house_rule (some office) row = is_key row.office office && is_none row.document_type
house_rule none row = false

abbrev pub kind_rule : Option ℕ → RoutingSla → Bool
kind_rule (some kind) row = is_none row.office && is_key row.document_type kind
kind_rule none row = false

abbrev pub in_scope : Option ℕ → Option ℕ → RoutingSla → Bool
in_scope office kind row =
    (exact office kind row || (house_rule office row || kind_rule kind row)) && row.is_active

-- The annotation that the query is ordered by.
unfoldable pub specificity : RoutingSla → ℕ
specificity row =
    if is_some row.office && is_some row.document_type
    then 0
    else if is_some row.office
    then 1
    else 2

-- `.order_by("specificity").first()`: the first of the lowest.
unfoldable pub most_specific : List RoutingSla → Option RoutingSla
most_specific [] = none
most_specific (row ∷ rows) = elim (most_specific rows) [
  | none ↦ some row
  | some best ↦ if ltb (specificity best) (specificity row) then some best else some row
]

abbrev pub days_or : ℕ → Option RoutingSla → ℕ
days_or default none = default
days_or default (some row) = row.due_days

unfoldable pub resolve_sla_due_days : List RoutingSla → ℕ → Option ℕ → Option ℕ → ℕ
resolve_sla_due_days table default office kind =
    if is_none office && is_none kind
    then default
    else days_or default (most_specific (keep (in_scope office kind) table))

-- The shortest rule among the receiving offices.
unfoldable pub sla_due_days_for : List RoutingSla → ℕ → List ℕ → Option ℕ → ℕ
sla_due_days_for table default [] kind = default
sla_due_days_for table default (office ∷ []) kind =
    resolve_sla_due_days table default (some office) kind
sla_due_days_for table default (office ∷ next ∷ offices) kind =
    min (resolve_sla_due_days table default (some office) kind)
      (sla_due_days_for table default (next ∷ offices) kind)

-- The documented precedence, read top down.
abbrev active : (RoutingSla → Bool) → RoutingSla → Bool
active rule row = rule row && row.is_active

abbrev or_next : Option RoutingSla → Option RoutingSla → Option RoutingSla
or_next none next = next
or_next (some row) next = some row

abbrev pub by_tiers : List RoutingSla → ℕ → Option ℕ → Option ℕ → ℕ
by_tiers table default office kind = days_or default (
    or_next (first (active (exact office kind)) table)
      (or_next (first (active (house_rule office)) table) (first (active (kind_rule kind)) table)))

-- The best row by rank is the first of rank 0, else the first of rank 1, else the first of rank 2.
rank_is : ℕ → RoutingSla → Bool
rank_is n row = specificity row == n

specificity_cases :
    (row : RoutingSla) → (specificity row ≡ 0) ⊎ (specificity row ≡ 1) ⊎ (specificity row ≡ 2)
unfolding specificity
specificity_cases row = ground arith

-- The rank of what was found, or the rank that was looked for.
found_rank : ℕ → Option RoutingSla → ℕ
found_rank n none = n
found_rank n (some row) = specificity row

first-rank : (n : ℕ) (rows : List RoutingSla) → found_rank n (first (rank_is n) rows) ≡ n
unfolding found_rank rank_is
first-rank n [] = refl
first-rank n (row ∷ rows) = ground (arith, first-rank n rows)

-- Putting one more row in front of what the three searches found.
in_front :
    (row : RoutingSla) (f g h : Option RoutingSla)
    → found_rank 0 f ≡ 0
    → found_rank 1 g ≡ 1
    → found_rank 2 h ≡ 2
    → (elim (or_next f (or_next g h)) [
      | none ↦ some row
      | some best ↦ if ltb (specificity best) (specificity row) then some best else some row
    ])
      ≡ or_next (if specificity row == 0 then some row else f) (
          or_next
            (if specificity row == 1 then some row else g)
            (if specificity row == 2 then some row else h))
unfolding found_rank
in_front row f g h ef eg eh = ground (arith, specificity_cases row)

most_specific-first :
    (rows : List RoutingSla)
    → most_specific rows
      ≡ or_next (first (rank_is 0) rows) (or_next (first (rank_is 1) rows) (first (rank_is 2) rows))
unfolding most_specific
most_specific-first [] = refl
most_specific-first (row ∷ rows) = rw (most_specific-first rows) (
    unfold rank_is in
    in_front row (first (rank_is 0) rows) (first (rank_is 1) rows) (first (rank_is 2) rows)
      (first-rank 0 rows) (first-rank 1 rows) (first-rank 2 rows))

-- A row in scope of rank 0, 1 or 2 is an active row of that tier.
exact_tier :
    (office kind : Option ℕ) (row : RoutingSla)
    → (in_scope office kind row && rank_is 0 row) ≡ active (exact office kind) row
unfolding rank_is specificity
exact_tier office kind row = ground arith

house_tier :
    (office kind : Option ℕ) (row : RoutingSla)
    → (in_scope office kind row && rank_is 1 row) ≡ active (house_rule office) row
unfolding rank_is specificity
house_tier office kind row = ground arith

kind_tier :
    (office kind : Option ℕ) (row : RoutingSla)
    → (in_scope office kind row && rank_is 2 row) ≡ active (kind_rule kind) row
unfolding rank_is specificity
kind_tier office kind row = ground arith

tier :
    (office kind : Option ℕ) (n : ℕ) (rule : RoutingSla → Bool) (table : List RoutingSla)
    → ((row : RoutingSla) → (in_scope office kind row && rank_is n row) ≡ active rule row)
    → first (rank_is n) (keep (in_scope office kind) table) ≡ first (active rule) table
tier office kind n rule table h =
    first-keep (rank_is n) (in_scope office kind) table ∙ first_cong _ (active rule) table h

-- The single query gives the documented precedence: a rule for this office and type, else the
-- office's own rule, else the type's rule, else the default; inactive rows count for nothing.
pub resolve_sla_due_days-by_tiers :
    (table : List RoutingSla) (default : ℕ) (office kind : Option ℕ)
    → resolve_sla_due_days table default office kind ≡ by_tiers table default office kind
unfolding resolve_sla_due_days
resolve_sla_due_days-by_tiers table default none none = simp first-false
resolve_sla_due_days-by_tiers table default (some office) kind =
    rw
      (
        most_specific-first (keep (in_scope (some office) kind) table),
        tier (some office) kind 0 (exact (some office) kind) table (exact_tier (some office) kind),
        tier (some office) kind 1 (house_rule (some office)) table (house_tier (some office) kind),
        tier (some office) kind 2 (kind_rule kind) table (kind_tier (some office) kind),
      )
      refl
resolve_sla_due_days-by_tiers table default none (some kind) =
    rw
      (
        most_specific-first (keep (in_scope none (some kind)) table),
        tier none (some kind) 0 (exact none (some kind)) table (exact_tier none (some kind)),
        tier none (some kind) 1 (house_rule none) table (house_tier none (some kind)),
        tier none (some kind) 2 (kind_rule (some kind)) table (kind_tier none (some kind)),
      )
      refl

-- The days are those of one of the offices and at most those of each.
abbrev pub Smallest : List RoutingSla → ℕ → Option ℕ → ℕ → List ℕ → Type 0
Smallest table default kind days offices =
    All (λ office. days ≤ resolve_sla_due_days table default (some office) kind) offices
    × (exists (λ office. days == resolve_sla_due_days table default (some office) kind) offices
        ≡ true)

or_right : (a b : Bool) → b ≡ true → (a || b) ≡ true
or_right a b h = ground arith

or_left : (a b : Bool) → a ≡ true → (a || b) ≡ true
or_left a b h = ground arith

-- One more office in front of a batch whose days are known.
add_office :
    (table : List RoutingSla) (default : ℕ) (kind : Option ℕ) (office : ℕ) (rest : List ℕ) (m : ℕ)
    → Smallest table default kind m rest
    → Smallest table default kind
        (min (resolve_sla_due_days table default (some office) kind) m)
        (office ∷ rest)
add_office table default kind office rest m (each, one) =
    let d = resolve_sla_due_days table default (some office) kind in
    elim (dec_lt m d) [
      | yes shorter ↦
          let least : min d m ≡ m = omega arith in
          subst (λ x. Smallest table default kind x (office ∷ rest)) (sym least)
            ((omega arith, each), or_right (m == d) _ one)
      | no longer ↦
          let least : min d m ≡ d = omega arith in
          subst (λ x. Smallest table default kind x (office ∷ rest)) (sym least)
            (
              (omega arith, All-imp _ _ rest (λ o below. omega arith) each),
              or_left (d == d) _ (==_refl d),
            )
    ]

-- A figure that is at most each, with a 0 among them, is 0.
least_zero :
    (table : List RoutingSla) (default : ℕ) (kind : Option ℕ) (m : ℕ) (offices : List ℕ)
    → All (λ o. m ≤ resolve_sla_due_days table default (some o) kind) offices
    → exists (λ o. 0 == resolve_sla_due_days table default (some o) kind) offices ≡ true
    → m ≡ 0
least_zero table default kind m [] h e = cc
least_zero table default kind m (o ∷ offices) h e =
    elim (Bool-cases (0 == resolve_sla_due_days table default (some o) kind)) [
      | inl here ↦ zero_below h.0 here
      | inr later ↦ least_zero table default kind m offices h.1 (rw later at e)
    ]
  where
    zero_below : {k n : ℕ} → k ≤ n → (0 == n) ≡ true → k ≡ 0
    zero_below h e = ground arith

-- The figure of a batch.
for_batch :
    (table : List RoutingSla) (default : ℕ) (office : ℕ) (offices : List ℕ) (kind : Option ℕ)
    → Smallest table default kind
        (sla_due_days_for table default (office ∷ offices) kind)
        (office ∷ offices)
unfolding sla_due_days_for
for_batch table default office [] kind = ground arith
for_batch table default office (next ∷ offices) kind =
    add_office table default kind office (next ∷ offices)
      (sla_due_days_for table default (next ∷ offices) kind)
      (for_batch table default next offices kind)

-- For a batch of at least one office, the days are those that the table gives one of its offices and
-- at most those that it gives each; so they are 0, which is no deadline, exactly if the table gives
-- one of the offices 0 days, however short the other offices' rules are.
pub sla_due_days_for-Smallest :
    (table : List RoutingSla) (default : ℕ) (office : ℕ) (offices : List ℕ) (kind : Option ℕ)
    → Smallest table default kind
        (sla_due_days_for table default (office ∷ offices) kind)
        (office ∷ offices)
      × ((sla_due_days_for table default (office ∷ offices) kind == 0)
          ≡ exists (λ o. 0 == resolve_sla_due_days table default (some o) kind) (office ∷ offices))
sla_due_days_for-Smallest table default office offices kind =
    let least = for_batch table default office offices kind in
    let zero_rule =
      exists (λ o. 0 == resolve_sla_due_days table default (some o) kind) (office ∷ offices) in
    let days = sla_due_days_for table default (office ∷ offices) kind in
    (
      least,
      same (days == 0) zero_rule
          (λ none_left.
            is_zero (least_zero table default kind days (office ∷ offices) least.0 none_left))
          (λ zero_left.
            subst
              (λ m.
                exists (λ o. m == resolve_sla_due_days table default (some o) kind)
                  (office ∷ offices)
                ≡ true)
              (of_zero zero_left) least.1),
    )
  where
    same : (x y : Bool) → (y ≡ true → x ≡ true) → (x ≡ true → y ≡ true) → x ≡ y
    same true true f g = refl
    same false false f g = refl
    same true false f g = sym (g refl)
    same false true f g = f refl

    is_zero : {n : ℕ} → n ≡ 0 → (n == 0) ≡ true
    is_zero e = ground arith

    of_zero : {n : ℕ} → (n == 0) ≡ true → n ≡ 0
    of_zero e = ground arith
