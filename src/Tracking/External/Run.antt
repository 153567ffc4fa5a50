-- ===== src/Tracking/External/Run.antt =====
-- apps/tracking/external_services.py: a sequence of service calls on one external record, each with
-- the revision that its caller had read.
--
-- A call that raises rolls its transaction back: the ledger stays as it was.
pub mod Guarded
pub mod Chain
pub mod Times
pub mod Sent
pub mod Received
pub mod Changed
pub mod Replaced
pub mod Latest
pub mod Accepted
pub mod Corrected
pub mod Ledgers
pub mod Trace
pub mod Traces
pub mod Revisions
pub mod Confirmed
pub mod Created
pub mod Kept
pub mod Witnessed
use udm_doctrack.Base.{ℕ, Option, List, [], ◌∷◌, Text, Outcome, success, raised}
use udm_doctrack.Accounts.{User}
use udm_doctrack.Accounts.Capabilities.{
  Capability, endorse, receive, work, complete, reopen, edit_metadata,
}
use udm_doctrack.Tracking.Services.{Env}
use udm_doctrack.Tracking.External.{ExternalOffice}
use udm_doctrack.Tracking.External.Calls.{Ledger}
use udm_doctrack.Tracking.External.Moves.{
  ExternalRoute, route_record, confirm_receipt, record_external_receipt,
}
use udm_doctrack.Tracking.External.Work.{
  add_remark, record_external_work, complete_record, reopen_record, annotate_record,
}
use udm_doctrack.Tracking.External.Correct.{Changes, correct_step}

-- The services that change an external record, with their arguments.
pub data Call : Type 0 where
  route_call : ExternalRoute → Call
  confirm_call : Text → Call
  receipt_call : Option ℕ → Text → Call
  remark_call annotate_call reopen_call : Text → Call
  work_call : Option ℕ → Text → Call
  complete_call : Text → Option ℕ → Call
  correct_call : ℕ → Text → Changes → Call

-- What the call reads, who makes it, and the revision that it was prepared from.
pub record Turn : Type 0 where
  pub env : Env
  pub entries : List ExternalOffice
  pub expected : Option ℕ
  pub user : User

unfoldable pub perform : Turn → Call → Ledger → Outcome Ledger
perform t (route_call q) d = route_record t.env t.entries t.expected t.user q d
perform t (confirm_call note) d = confirm_receipt t.env t.expected t.user note d
perform t (receipt_call at note) d = record_external_receipt t.env t.expected t.user at note d
perform t (remark_call message) d = add_remark t.env t.expected t.user message d
perform t (annotate_call message) d = annotate_record t.env t.expected t.user message d
perform t (reopen_call note) d = reopen_record t.env t.expected t.user note d
perform t (work_call at message) d = record_external_work t.env t.expected t.user at message d
perform t (complete_call note at) d = complete_record t.env t.expected t.user note at d
perform t (correct_call step reason c) d =
    correct_step t.env t.entries t.expected t.user step reason c d

abbrev pub capability_of : Call → Capability
capability_of (route_call q) = endorse
capability_of (confirm_call note) = receive
capability_of (receipt_call at note) = receive
capability_of (remark_call message) = work
capability_of (annotate_call message) = work
capability_of (reopen_call note) = reopen
capability_of (work_call at message) = work
capability_of (complete_call note at) = complete
capability_of (correct_call step reason c) = edit_metadata

abbrev pub or_before : Ledger → Outcome Ledger → Ledger
or_before d (success d') = d'
or_before d (raised e) = d

unfoldable pub run : List (Turn × Call) → Ledger → Ledger
run [] d = d
run (t ∷ turns) d = run turns (or_before d (perform t.0 t.1 d))
