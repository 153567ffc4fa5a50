-- ===== src/Tracking/Services/Authority.antt =====
-- What the decorators have established when a service's body runs.
use udm_doctrack.Base.{
  Bool, true, not, ◌||◌, Option, none, some, ◌≡◌, subst, if◌then◌else◌, Outcome, success, raised,
  permission_denied, >>=-returned, guard, guard-success, arith,
}
use udm_doctrack.Accounts.{User, is_records_staff, can_start_work, active_user}
use udm_doctrack.Accounts.Capabilities.{
  tracking, Capability, Directory, active_writer, writer_row, require_capability,
  capability_allowed,
}
use udm_doctrack.Tracking.Access.Laws.{active_user-pk}
use udm_doctrack.Tracking.Services.{Env, Desk, guarded, locked_mutation, requires_capability}

writer_row-success :
    (row : Option User) {actor : User}
    → writer_row row ≡ success actor
    → (row ≡ some actor) × (can_start_work actor ≡ true)
writer_row-success row h = ground arith

-- The account that `active_writer` returns is the current row, and may start work.
pub active_writer-success :
    (dir : Directory) (u : User) {actor : User}
    → active_writer dir u ≡ success actor
    → (active_user dir.users u.pk ≡ some actor) × (can_start_work actor ≡ true)
unfolding active_writer
active_writer-success dir u h = writer_row-success (active_user dir.users u.pk) (
    passed (not u.is_authenticated || not (is_records_staff u))
      (writer_row (active_user dir.users u.pk)) h)
  where
    passed :
        (t : Bool) (k : Outcome User) {a : User}
        → (if t then raised permission_denied else k) ≡ success a
        → k ≡ success a
    passed t k h = ground arith

-- A service that returned ran its body for the current row of the account; that row may start work
-- and holds the capability.
pub record Authorised (env : Env) (action : Capability) (body : User → Outcome Desk) (u : User)
    (d' : Desk) : Type 0 where
  pub actor : User
  pub current : active_user env.dir.users u.pk ≡ some actor
  pub working : can_start_work actor ≡ true
  pub capable : capability_allowed env.dir none actor tracking action true ≡ true
  pub returned : body actor ≡ success d'

pub guarded-success :
    (env : Env) (action : Capability) (body : User → Outcome Desk) (u : User) {d' : Desk}
    → guarded env action body u ≡ success d'
    → Authorised env action body u d'
unfolding guarded locked_mutation requires_capability require_capability
guarded-success env action body u h =
    >>=-returned (active_writer env.dir u) _ h (λ actor first rest.
      >>=-returned (active_writer env.dir actor) _ rest (λ again second rest'.
        >>=-returned
          (guard (capability_allowed env.dir none again tracking action true) permission_denied) _
          rest'
          (λ _ allowed returned.
            let (found, working) = active_writer-success env.dir u first in
            let (found', working') = active_writer-success env.dir actor second in
            let (same, active) = active_user-pk env.dir.users u.pk actor found in
            record {
              actor = again;
              current = subst (λ k. active_user env.dir.users k ≡ some again) same found';
              working = working';
              capable =
                  guard-success (capability_allowed env.dir none again tracking action true)
                    permission_denied allowed;
              returned = returned;
            })))
