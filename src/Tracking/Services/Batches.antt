-- ===== src/Tracking/Services/Batches.antt =====
-- What routing and receipt do to the current batch of steps.
pub mod Sent
pub mod Got
use udm_doctrack.Base.{
  ℕ, suc, ◌+◌, ◌≤◌, max, Bool, true, false, not, ◌&&◌, ◌||◌, Option, none, some, List, [], ◌∷◌,
  ◌++◌, map, ◌≡◌, refl, ◌∙◌, ap, sym, ◌==◌, keep, keep-append, exists, elem, length, Text, arith,
  if◌then◌else◌,
}
use udm_doctrack.Accounts.{User, Office}
use udm_doctrack.Tracking.{
  Action, RoutingStep, TrackingRecord, in_batch, is_pending, is_received, current_steps,
  recalculate_status, settle, settle_received, is_draft, is_completed, has_custody, addressed_to,
}
use udm_doctrack.Tracking.Services.{Env, Desk, active_office, add_activity}
use udm_doctrack.Tracking.Services.Route.{
  Route, RouteRequest, new_steps, max_batch, active_offices, pks, enter_batch, announce, route_with,
}

-- No step lies beyond the highest batch, so a fresh number marks none of them.
pub fresh_batch :
    (batch : ℕ) (steps : List RoutingStep)
    → suc (max_batch steps) ≤ batch
    → keep (in_batch batch) steps ≡ []
fresh_batch batch [] h = refl
fresh_batch batch (s ∷ steps) h = ground (arith, fresh_batch batch steps)

-- The new steps are all of their batch, none received, and go to the offices in order.
module _ (env : Env) (r : TrackingRecord) (u : User) (action : Action) (from_office batch : ℕ)
    (instructions : Text) (due : Option ℕ) where
  abbrev sent : ℕ → List ℕ → List RoutingStep
  sent = new_steps env r u action from_office batch instructions due

  pub new_steps-batch :
      (sequence : ℕ) (offices : List ℕ)
      → keep (in_batch batch) (sent sequence offices) ≡ sent sequence offices
  unfolding new_steps
  new_steps-batch sequence [] = refl
  new_steps-batch sequence (o ∷ offices) = ground (arith, new_steps-batch (suc sequence) offices)

  pub new_steps-pending :
      (sequence : ℕ) (offices : List ℕ)
      → keep is_pending (sent sequence offices) ≡ sent sequence offices
  unfolding new_steps
  new_steps-pending sequence [] = refl
  new_steps-pending sequence (o ∷ offices) = rw (new_steps-pending (suc sequence) offices)

  pub new_steps-received :
      (sequence : ℕ) (offices : List ℕ) → keep is_received (sent sequence offices) ≡ []
  unfolding new_steps
  new_steps-received sequence [] = refl
  new_steps-received sequence (o ∷ offices) = new_steps-received (suc sequence) offices

  pub new_steps-offices :
      (sequence : ℕ) (offices : List ℕ)
      → map (λ (s : RoutingStep). s.to_office) (sent sequence offices) ≡ offices
  unfolding new_steps
  new_steps-offices sequence [] = refl
  new_steps-offices sequence (o ∷ offices) =
      ap (λ l. o ∷ l) (new_steps-offices (suc sequence) offices)

active_office-pk :
    (rows : List Office) (pk : ℕ) (o : Office) → active_office rows pk ≡ some o → o.pk ≡ pk
unfolding active_office
active_office-pk [] pk o h = cc
active_office-pk (x ∷ rows) pk o h = ground (arith, active_office-pk rows pk o)

-- The two lookups of a list that was found.
both_found :
    (one : Option Office) (rest : Option (List Office)) (found : List Office)
    → (elim one [
      | none ↦ none
      | some office ↦ elim rest [ none ↦ none | some more ↦ some (office ∷ more) ]
    ])
      ≡ some found
    → (o : Office) × (os : List Office) × (one ≡ some o) × (rest ≡ some os) × (found ≡ o ∷ os)
both_found none rest found h = cc
both_found (some o) none found h = cc
both_found (some o) (some os) found h = (o, os, refl, refl, cc)

-- The active rows that were found carry the keys that were asked for.
pub active_offices-pks :
    (rows : List Office) (keys : List ℕ) (found : List Office)
    → active_offices rows keys ≡ some found
    → pks found ≡ keys
unfolding active_offices
active_offices-pks rows [] found h = ground arith
active_offices-pks rows (k ∷ keys) found h =
    let (o, os, one, rest, e) =
      both_found (active_office rows k) (active_offices rows keys) found h in
    let here = active_office-pk rows k o one in
    let later = active_offices-pks rows keys os rest in rw (e, here, later)
