-- ===== src/Tracking/Services/Button.antt =====
-- `confirm_receipt` of apps/tracking/services.py beside the page's test for its button,
-- `can_user_confirm_receipt` of apps/tracking/models.py.
use udm_doctrack.Base.{
  ℕ, Bool, true, false, not, ◌&&◌, ◌||◌, Option, none, some, ◌≡◌, refl, ◌∙◌, ap, sym, is_some, Text,
  arith, if◌then◌else◌, Bool-cases, inl, inr, Outcome, success, raised, guard, ◌>>=◌, ◌>>◌,
  permission_denied, validation_error,
}
use udm_doctrack.Accounts.{
  User, is_records_staff, can_start_work, is_system_admin, known_role, active_user,
}
use udm_doctrack.Accounts.Capabilities.{
  Area, tracking, Capability, receive, Directory, active_writer, require_capability,
  capability_allowed, current_actor, request_policy,
}
use udm_doctrack.Tracking.{
  TrackingRecord, RoutingStep, is_draft, is_completed, pending_step_for_office,
}
use udm_doctrack.Tracking.Access.Laws.{starts_known}
use udm_doctrack.Tracking.Access.{can_user_confirm_receipt, can_actor_confirm_receipt}
use udm_doctrack.Tracking.Services.{
  Env, Desk, guarded, locked_mutation, requires_capability, refuse_viewers,
}
use udm_doctrack.Tracking.Services.Route.{or_invalid}
use udm_doctrack.Tracking.Services.Receive.{
  office_of, check_receipt, receive_with, receive_body, confirm_receipt,
}

-- Did the call return?
abbrev pub is_success {ℓ} : {A : Type ℓ} → Outcome A → Bool
is_success (success a) = true
is_success (raised e) = false

active_writer-current :
    (dir : Directory) (u : User)
    → active_user dir.users u.pk ≡ some u
    → active_writer dir u
      ≡ (if u.is_authenticated && can_start_work u then success u else raised permission_denied)
unfolding active_writer can_start_work
active_writer-current dir u current =
    rw current
      (ladder u u.is_authenticated (is_records_staff u) (is_some u.office_id || is_system_admin u))
  where
    ladder :
        (u : User) (signed_in staff placed : Bool)
        → (if not signed_in || not staff
            then raised permission_denied
            else if staff && placed
            then success u
            else raised permission_denied)
          ≡ (if signed_in && (staff && placed) then success u else raised permission_denied)
    ladder u signed_in staff placed = ground arith

-- For a caller that holds the current row of its account, the two decorators together are one test:
-- the account may start work and holds the capability, and else the call is refused.
pub guarded-current :
    (env : Env) (action : Capability) (body : User → Outcome Desk) (u : User)
    → active_user env.dir.users u.pk ≡ some u
    → guarded env action body u ≡ (
        if (u.is_authenticated && can_start_work u)
          && capability_allowed env.dir none u tracking action true
        then body u
        else raised permission_denied)
unfolding guarded locked_mutation requires_capability require_capability
guarded-current env action body u current =
    let writer = active_writer-current env.dir u current in
    elim (Bool-cases (u.is_authenticated && can_start_work u)) [
      | inr out ↦ rw (writer, out)
      | inl in_ ↦ elim (Bool-cases (capability_allowed env.dir none u tracking action true)) [
        | inl may ↦ rw (writer, in_, writer, in_, may)
        | inr refused ↦ rw (writer, in_, writer, in_, refused)
      ]
    ]

-- Without a web request there is no snapshot: a fresh reading and a cached one are the same.
capability_allowed-fresh :
    (dir : Directory) (u : User) (area : Area) (action : Capability)
    → capability_allowed dir none u area action true
      ≡ capability_allowed dir none u area action false
unfolding capability_allowed request_policy
capability_allowed-fresh dir u area action = refl

-- The five conditions of a receipt, the capability aside.
may_receive : TrackingRecord → User → Bool
may_receive r u =
    is_some u.office_id
    && (not (is_draft r.status || is_completed r.status)
        && is_some (pending_step_for_office r u.office_id))

office_first {ℓ} :
    {B : Type ℓ} (r : TrackingRecord) (k : ℕ → RoutingStep → B) (office : Option ℕ)
    → is_success (
        (elim office [ none ↦ raised permission_denied | some o ↦ success o ]) >>= λ o.
        (guard (not (is_completed r.status || is_draft r.status)) validation_error
          >> (or_invalid (pending_step_for_office r (some o)) >>= λ s. success (k o s))))
      ≡ (is_some office
          && (not (is_draft r.status || is_completed r.status)
              && is_some (pending_step_for_office r office)))
unfolding pending_step_for_office
office_first r k none = refl
office_first r k (some o) =
    waiting (is_completed r.status) (is_draft r.status) (pending_step_for_office r (some o))
  where
    waiting :
        (over drafted : Bool) (step : Option RoutingStep)
        → is_success (
            guard (not (over || drafted)) validation_error
            >> (or_invalid step >>= λ s. success (k o s)))
          ≡ (not (drafted || over) && is_some step)
    waiting true drafted step = ground arith
    waiting false true step = refl
    waiting false false none = refl
    waiting false false (some s) = refl

is_success_pure {ℓ κ} :
    {A : Type ℓ} {B : Type κ} (m : Outcome A) (k : A → B)
    → is_success (m >>= λ a. success (k a)) ≡ is_success m
is_success_pure (success a) k = refl
is_success_pure (raised e) k = refl

receive_body-is_success :
    (env : Env) (d : Desk) (u : User) (note : Text)
    → (u.is_authenticated && can_start_work u) ≡ true
    → is_success (receive_body env d note u) ≡ may_receive d.doc u
unfolding receive_body check_receipt refuse_viewers may_receive
receive_body-is_success env d u note working =
    is_success_pure (check_receipt d.doc u) (λ at. receive_with env u at.0 at.1 note d)
    ∙ ap
        (λ t. is_success {A = ℕ × RoutingStep} (
          guard t permission_denied
          >> (office_of u >>= λ office.
              (guard (not (is_completed d.doc.status || is_draft d.doc.status)) validation_error
                >> (or_invalid (pending_step_for_office d.doc (some office)) >>= λ step.
                    success (office, step))))))
        working
    ∙ office_first {B = ℕ × RoutingStep} d.doc (λ o s. (o, s)) u.office_id

offered :
    (dir : Directory) (r : TrackingRecord) (u : User)
    → active_user dir.users u.pk ≡ some u
    → can_user_confirm_receipt dir none r u ≡ (
        ((u.is_authenticated && can_start_work u)
          && capability_allowed dir none u tracking receive true)
        && may_receive r u)
unfolding can_user_confirm_receipt current_actor request_policy can_actor_confirm_receipt
    may_receive
offered dir r u current =
    ap
      (λ row. can_actor_confirm_receipt dir none r (
        if not u.is_authenticated || (not u.is_active || not (known_role u.role))
        then none
        else row))
      current
    ∙ seen (not u.is_authenticated || (not u.is_active || not (known_role u.role)))
    ∙ ladder u.is_authenticated u.is_active (known_role u.role) (can_start_work u)
        (capability_allowed dir none u tracking receive false) (is_some u.office_id)
        (is_draft r.status || is_completed r.status)
        (is_some (pending_step_for_office r u.office_id)) (starts_known u)
    ∙ ap (λ c. ((u.is_authenticated && can_start_work u) && c) && may_receive r u)
        (sym (capability_allowed-fresh dir u tracking receive))
  where
    seen :
        (away : Bool)
        → can_actor_confirm_receipt dir none r (if away then none else some u) ≡ (
            if away
            then false
            else if not (capability_allowed dir none u tracking receive false)
            then false
            else if not u.is_authenticated || (not (can_start_work u) || not (is_some u.office_id))
            then false
            else if is_draft r.status || is_completed r.status
            then false
            else is_some (pending_step_for_office r u.office_id))
    seen true = refl
    seen false = refl

    ladder :
        (signed_in active known starts may placed over waits : Bool)
        → (starts ≡ true → (active ≡ true) × (known ≡ true))
        → (if not signed_in || (not active || not known)
            then false
            else if not may
            then false
            else if not signed_in || (not starts || not placed)
            then false
            else if over
            then false
            else waits)
          ≡ (((signed_in && starts) && may) && (placed && (not over && waits)))
    ladder signed_in active known starts may placed over waits h = ground arith

-- For a caller that holds the current row of its account, outside a web request's snapshot: a
-- receipt call returns exactly when the page offers its button.
pub confirm_receipt-can_user_confirm_receipt :
    (env : Env) (d : Desk) (u : User) (note : Text)
    → active_user env.dir.users u.pk ≡ some u
    → is_success (confirm_receipt env d u note) ≡ can_user_confirm_receipt env.dir none d.doc u
unfolding confirm_receipt
confirm_receipt-can_user_confirm_receipt env d u note current =
    ap is_success (guarded-current env receive (receive_body env d note) u current)
    ∙ tested (u.is_authenticated && can_start_work u)
        (capability_allowed env.dir none u tracking receive true)
        (receive_body-is_success env d u note)
    ∙ sym (offered env.dir d.doc u current)
  where
    tested :
        (working may : Bool)
        → (working ≡ true → is_success (receive_body env d note u) ≡ may_receive d.doc u)
        → is_success
            (if working && may then receive_body env d note u else raised permission_denied)
          ≡ ((working && may) && may_receive d.doc u)
    tested true true h = h refl
    tested true false h = refl
    tested false may h = refl
