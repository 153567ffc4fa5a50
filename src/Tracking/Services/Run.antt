-- ===== src/Tracking/Services/Run.antt =====
-- A sequence of service calls on one record, each with what it reads and the account it acts for.
--
-- A call that raises rolls its transaction back: the desk stays as it was.
pub mod Authorised
pub mod Keeps
use udm_doctrack.Base.{ℕ, List, [], ◌∷◌, Text, Outcome, success, raised}
use udm_doctrack.Accounts.{User}
use udm_doctrack.Accounts.Capabilities.{Capability, endorse, receive, work, complete, reopen, share}
use udm_doctrack.Tracking.Services.{Env, Desk}
use udm_doctrack.Tracking.Services.Route.{RouteRequest, route_record}
use udm_doctrack.Tracking.Services.Share.{ShareRequest, grant_access}
use udm_doctrack.Tracking.Services.Receive.{confirm_receipt}
use udm_doctrack.Tracking.Services.Work.{
  add_remark, mark_in_process, complete_record, reopen_record,
}

-- The services that move or share a record, with their arguments.
pub data Call : Type 0 where
  route_call : RouteRequest → Call
  share_call : ShareRequest → Call
  receive_call remark_call in_process_call complete_call reopen_call : Text → Call

unfoldable pub perform : Env → User → Call → Desk → Outcome Desk
perform env u (route_call q) d = route_record env d u q
perform env u (share_call q) d = grant_access env d u q
perform env u (receive_call note) d = confirm_receipt env d u note
perform env u (remark_call remark) d = add_remark env d u remark
perform env u (in_process_call note) d = mark_in_process env d u note
perform env u (complete_call note) d = complete_record env d u note
perform env u (reopen_call reason) d = reopen_record env d u reason

-- The capability that each service requires.
abbrev pub capability_of : Call → Capability
capability_of (route_call q) = endorse
capability_of (share_call q) = share
capability_of (receive_call note) = receive
capability_of (remark_call remark) = work
capability_of (in_process_call note) = work
capability_of (complete_call note) = complete
capability_of (reopen_call reason) = reopen

abbrev pub or_before : Desk → Outcome Desk → Desk
or_before d (success d') = d'
or_before d (raised e) = d

-- One request: what it reads, who makes it, and the service called.
pub record Turn : Type 0 where
  pub env : Env
  pub user : User
  pub call : Call

unfoldable pub run : List Turn → Desk → Desk
run [] d = d
run (t ∷ turns) d = run turns (or_before d (perform t.env t.user t.call d))
