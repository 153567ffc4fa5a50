-- ===== src/Tracking/Services/Run/Authorised.antt =====
-- apps/tracking/services.py and apps/core/permissions.py: for whom a service call returns.
use udm_doctrack.Base.{true, none, some, ◌≡◌, refl, sym, ◌∙◌, Outcome, success}
use udm_doctrack.Accounts.{User, can_start_work, active_user}
use udm_doctrack.Accounts.Capabilities.{tracking, capability_allowed}
use udm_doctrack.Tracking.Services.{Env, Desk, guarded}
use udm_doctrack.Tracking.Services.Authority.{Authorised, guarded-success}
use udm_doctrack.Tracking.Services.Route.{route_record, route_body}
use udm_doctrack.Tracking.Services.Share.{grant_access, share_body}
use udm_doctrack.Tracking.Services.Receive.{confirm_receipt, receive_body}
use udm_doctrack.Tracking.Services.Work.{
  add_remark, remark_body, mark_in_process, in_process_body, complete_record, complete_body,
  reopen_record, reopen_body,
}
use udm_doctrack.Tracking.Services.Run.{
  Call, route_call, share_call, receive_call, remark_call, in_process_call, complete_call,
  reopen_call, perform, capability_of,
}

-- The body that each service runs behind its decorators.
abbrev pub body_of : Env → Call → Desk → User → Outcome Desk
body_of env (route_call q) d = route_body env d q
body_of env (share_call q) d = share_body env d q
body_of env (receive_call note) d = receive_body env d note
body_of env (remark_call remark) d = remark_body env d remark
body_of env (in_process_call note) d = in_process_body env d note
body_of env (complete_call note) d = complete_body env d note
body_of env (reopen_call reason) d = reopen_body env d reason

pub perform-guarded :
    (env : Env) (u : User) (call : Call) (d : Desk)
    → perform env u call d ≡ guarded env (capability_of call) (body_of env call d) u
unfolding perform grant_access route_record confirm_receipt add_remark mark_in_process
    complete_record reopen_record
perform-guarded env u (route_call q) d = refl
perform-guarded env u (share_call q) d = refl
perform-guarded env u (receive_call note) d = refl
perform-guarded env u (remark_call remark) d = refl
perform-guarded env u (in_process_call note) d = refl
perform-guarded env u (complete_call note) d = refl
perform-guarded env u (reopen_call reason) d = refl

pub perform-Authorised :
    (env : Env) (u : User) (call : Call) (d : Desk) {d' : Desk}
    → perform env u call d ≡ success d'
    → Authorised env (capability_of call) (body_of env call d) u d'
perform-Authorised env u call d h =
    guarded-success env (capability_of call) (body_of env call d) u
      (sym (perform-guarded env u call d) ∙ h)

-- A call that returned acted for an account whose current row exists, is active, may start work and
-- holds the call's capability, whatever the object the caller held.
pub perform-allowed :
    (env : Env) (u : User) (call : Call) (d d' : Desk)
    → perform env u call d ≡ success d'
    → (actor : User) × (active_user env.dir.users u.pk ≡ some actor)
      × (can_start_work actor ≡ true)
      × (capability_allowed env.dir none actor tracking (capability_of call) true ≡ true)
perform-allowed env u call d d' h =
    let done = perform-Authorised env u call d h in
    (done.actor, done.current, done.working, done.capable)
