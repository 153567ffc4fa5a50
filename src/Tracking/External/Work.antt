-- ===== src/Tracking/External/Work.antt =====
-- apps/tracking/external_services.py: `add_remark`, `record_external_work`, `complete_record`,
-- `reopen_record` and `annotate_record`.
use udm_doctrack.Base.{
  ℕ, Bool, true, false, not, ◌&&◌, Option, none, some, if◌then◌else◌, is_some, is_key, is_empty,
  Text, text, Outcome, success, guard, ◌>>=◌, ◌>>◌, permission_denied, validation_error,
}
use udm_doctrack.Accounts.{User}
use udm_doctrack.Accounts.Capabilities.{work, complete, reopen}
use udm_doctrack.Tracking.{
  Status, in_process, completed_pending_upload, is_draft, is_pending_upload,
}
use udm_doctrack.Tracking.Notices.{Kind, notify_external}
use udm_doctrack.Tracking.Services.{Env}
use udm_doctrack.Tracking.External.{
  is_external_party, ExternalEvent, remark, external_work, finished, reopened, annotation,
  ExternalRecord, current_step, responsible_office, can_act,
}
use udm_doctrack.Tracking.External.Calls.{
  Ledger, require_manager, text_within, actual, later_of, latest_entry, latest_actual, add_event,
  require_unfrozen, guarded_mutation,
}
use udm_doctrack.Tracking.External.Moves.{resolved}

abbrev pub with_status : Status → Ledger → Ledger
with_status status d = record d { doc = record d.doc { status = status } }

abbrev pub not_blank : Text → Outcome (Unit {0})
not_blank message = guard (not (is_empty message)) validation_error

-- Work by the confirmed internal custodian.
abbrev pub work_started : ExternalRecord → Bool
work_started r = not (is_draft r.status) && not (is_external_party r.custodian)

unfoldable pub remark_body : Env → Text → User → Ledger → Outcome Ledger
remark_body env message u d = do
  require_unfrozen d.doc
  guard (can_act env.dir d.doc u) permission_denied
  note ← text_within 2000 message
  not_blank note
  add_event env u remark (text "Remark added") note
      (if is_external_party d.doc.custodian then none else some env.now) none
      (if work_started d.doc then with_status in_process d else d)

unfoldable pub add_remark : Env → Option ℕ → User → Text → Ledger → Outcome Ledger
unfolding guarded_mutation
add_remark env expected u message d =
    guarded_mutation env work expected (remark_body env message) u d

abbrev pub is_reopened : ExternalEvent → Bool
is_reopened reopened = true
is_reopened _ = false

-- Nothing before the receipt, or before the step's latest reopening.
unfoldable pub work_boundary : ExternalRecord → Option ℕ
work_boundary r = elim (current_step r) [
  | none ↦ none
  | some s ↦
      later_of s.received_at
        (latest_entry (λ a. is_key a.step s.sequence && is_reopened a.event) r.activities)
]

unfoldable pub external_work_body : Env → Option ℕ → Text → User → Ledger → Outcome Ledger
external_work_body env actual_at message u d = do
  require_unfrozen d.doc
  require_manager u (responsible_office d.doc)
  guard (not (is_draft d.doc.status)) validation_error
  guard (is_external_party d.doc.custodian && can_act env.dir d.doc u) validation_error
  time ← actual env.now actual_at (work_boundary d.doc)
  note ← text_within 2000 message
  add_event env u external_work (text "External work recorded") note (some time) none
      (with_status in_process d)

unfoldable pub record_external_work :
    Env → Option ℕ → User → Option ℕ → Text → Ledger → Outcome Ledger
unfolding guarded_mutation
record_external_work env expected u actual_at message d =
    guarded_mutation env work expected (external_work_body env actual_at message) u d

abbrev pub complete_doc : ℕ → ExternalRecord → ExternalRecord
complete_doc time r = record r { status = completed_pending_upload; completed_at = some time }

unfoldable pub complete_body : Env → Text → Option ℕ → User → Ledger → Outcome Ledger
complete_body env note completed_at u d = do
  require_unfrozen d.doc
  guard (not (is_draft d.doc.status) && can_act env.dir d.doc u) permission_denied
  guard (not (is_some completed_at && not (is_external_party d.doc.custodian))) validation_error
  time ← actual env.now completed_at (latest_actual d.doc)
  written ← text_within 2000 note
  d' ←
      add_event env u finished (text "Completed, pending filing") written (some time) none
        (record d { doc = complete_doc time d.doc })
  success (record (resolved env d') {
    notifications =
        notify_external (responsible_office d'.doc) Kind.completed
          (text "External slip awaiting filing") d'.doc.title d'.doc.pk
          (resolved env d').notifications;
  })

unfoldable pub complete_record : Env → Option ℕ → User → Text → Option ℕ → Ledger → Outcome Ledger
unfolding guarded_mutation
complete_record env expected u note completed_at d =
    guarded_mutation env complete expected (complete_body env note completed_at) u d

abbrev pub reopen_doc : ExternalRecord → ExternalRecord
reopen_doc r = record r { status = Status.received; completed_at = none }

unfoldable pub reopen_body : Env → Text → User → Ledger → Outcome Ledger
reopen_body env note u d = do
  require_manager u (responsible_office d.doc)
  guard (is_pending_upload d.doc.status) validation_error
  written ← text_within 2000 note
  d' ←
      add_event env u reopened (text "Reopened for continued work") written (some env.now) none
        (record d { doc = reopen_doc d.doc })
  success (resolved env d')

unfoldable pub reopen_record : Env → Option ℕ → User → Text → Ledger → Outcome Ledger
unfolding guarded_mutation
reopen_record env expected u note d =
    guarded_mutation env reopen expected (reopen_body env note) u d

unfoldable pub annotate_body : Env → Text → User → Ledger → Outcome Ledger
annotate_body env message u d = do
  require_manager u (responsible_office d.doc)
  note ← text_within 2000 message
  not_blank note
  add_event env u annotation (text "Annotation added") note none none d

unfoldable pub annotate_record : Env → Option ℕ → User → Text → Ledger → Outcome Ledger
unfolding guarded_mutation
annotate_record env expected u message d =
    guarded_mutation env work expected (annotate_body env message) u d
