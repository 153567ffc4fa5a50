-- ===== src/Tracking/Services/Work.antt =====
-- `add_remark`, `mark_in_process`, `complete_record` and `reopen_record`.
use udm_doctrack.Base.{
  ℕ, ◌-◌, false, not, ◌&&◌, ◌||◌, Option, none, some, [], ◌∷◌, ◌++◌, leb, if◌then◌else◌, is_some,
  opt_eq, exists, Text, take, text, strip, strip_right, is_empty, text_length, Outcome, success,
  raised, guard, ◌>>◌, permission_denied, validation_error,
}
use udm_doctrack.Accounts.{User, is_system_admin}
use udm_doctrack.Accounts.Capabilities.{work, complete, reopen}
use udm_doctrack.Tracking.{
  completed_pending_upload, received, Event, TrackingRecord, is_draft, is_completed,
  is_pending_upload, is_filed, current_steps, is_received, has_custody, has_activity_after_receipt,
  recalculate_status, touch_movement,
}
use udm_doctrack.Tracking.Access.{can_user_act, can_user_view, can_user_reopen}
use udm_doctrack.Tracking.Notices.{Kind, resolve_for_record, notify_office}
use udm_doctrack.Tracking.Services.{
  Env, Desk, refuse_viewers, guarded, add_activity, log_action, with_doc, AuditAction,
}

-- apps/core/utils.py; the last character of a cut text is an ellipsis.
unfoldable pub truncate : Text → ℕ → Text
truncate value limit =
    let s = strip value in
    if leb (text_length s) limit then s else strip_right (take (limit - 1) s) ++ 0x2026 ∷ []

-- `ensure_received(record)`
unfoldable pub ensure_received : TrackingRecord → Outcome (Unit {0})
ensure_received r = guard (exists is_received (current_steps r)) validation_error

-- A timeline entry, then the summary and the movement time.
abbrev pub note_work : Env → Text → Text → User → TrackingRecord → TrackingRecord
note_work env message detail u r =
    touch_movement env.now
      (recalculate_status (add_activity env.now Event.remark message u detail none r))

unfoldable pub remark_with : Env → User → Text → Desk → Desk
remark_with env u remark d =
    log_action AuditAction.update_action
      (text "Remark on " ++ (d.doc.tracking_number ++ (text ": " ++ truncate remark 80))) u
      (with_doc d (note_work env (u.display_name ++ text " added a remark") remark u d.doc))

unfoldable pub remark_body : Env → Desk → Text → User → Outcome Desk
remark_body env d remark u = do
  refuse_viewers u
  guard (can_user_act env.dir none d.doc u) permission_denied
  guard (not (is_empty (strip remark))) validation_error
  success (remark_with env u (take 2000 (strip remark)) d)

unfoldable pub add_remark : Env → Desk → User → Text → Outcome Desk
unfolding guarded
add_remark env d u remark = guarded env work (remark_body env d remark) u

unfoldable pub in_process_with : Env → User → Text → Desk → Desk
in_process_with env u note d =
    log_action AuditAction.update_action (d.doc.tracking_number ++ text " marked In Process") u (
      with_doc d
        (note_work env (u.display_name ++ text " marked the document In Process") note u d.doc))

-- The office that the mark is for.
abbrev pub marking_office : TrackingRecord → User → Option ℕ
marking_office r u = if has_custody r u.office_id then u.office_id else r.current_office

unfoldable pub in_process_body : Env → Desk → Text → User → Outcome Desk
in_process_body env d note u = do
  refuse_viewers u
  guard (not (is_completed d.doc.status)) validation_error
  guard (not (is_draft d.doc.status)) validation_error
  ensure_received d.doc
  guard (can_user_act env.dir none d.doc u) permission_denied
  success (
      if has_activity_after_receipt d.doc (marking_office d.doc u)
      then d
      else in_process_with env u note d)

unfoldable pub mark_in_process : Env → Desk → User → Text → Outcome Desk
unfolding guarded
mark_in_process env d u note = guarded env work (in_process_body env d note) u

unfoldable pub complete_doc : Env → User → Text → TrackingRecord → TrackingRecord
complete_doc env u note r =
    add_activity env.now Event.finished (text "Marked completed by " ++ u.display_name) u note none
      (record r {
        status = completed_pending_upload;
        completed_at = some env.now;
        completed_by = some u.pk;
        completion_note = take 2000 note;
        last_movement_at = env.now;
      })

unfoldable pub complete_with : Env → User → Text → Desk → Desk
complete_with env u note d =
    let logged =
      log_action AuditAction.complete_action (text "Completed " ++ d.doc.tracking_number) u
        (with_doc d (complete_doc env u note d.doc)) in
    record logged {
      notifications =
          notify_office (some d.doc.originating_office) Kind.completed
            (text "A document you originated is complete")
            (d.doc.tracking_number ++ text " has been marked completed.") d.doc.pk
            (resolve_for_record d.doc.pk
              (Kind.routed ∷ Kind.received ∷ Kind.overdue ∷ Kind.unreceived ∷ []) env.now
              d.notifications);
    }

-- Completing a finished record again returns it, to those who may hear of it.
unfoldable pub already_completed : Env → Desk → User → Outcome Desk
already_completed env d u =
    if is_system_admin u
      || (can_user_view env.dir none d.doc u && opt_eq u.office_id d.doc.current_office)
    then success d
    else raised permission_denied

unfoldable pub finish_body : Env → Desk → Text → User → Outcome Desk
finish_body env d note u = do
  guard (can_user_act env.dir none d.doc u) permission_denied
  guard (not (is_draft d.doc.status)) validation_error
  ensure_received d.doc
  success (complete_with env u note d)

unfoldable pub complete_body : Env → Desk → Text → User → Outcome Desk
complete_body env d note u = do
  refuse_viewers u
  if is_completed d.doc.status then already_completed env d u else finish_body env d note u

unfoldable pub complete_record : Env → Desk → User → Text → Outcome Desk
unfolding guarded
complete_record env d u note = guarded env complete (complete_body env d note) u

unfoldable pub reopen_doc : Env → User → Text → TrackingRecord → TrackingRecord
reopen_doc env u reason r = touch_movement env.now (
    add_activity env.now Event.reopened (text "Returned to tracking by " ++ u.display_name) u reason
      none
      (recalculate_status (record r {
        status = received;
        completed_at = none;
        completed_by = none;
        is_archived = false;
        archived_at = none;
      })))

unfoldable pub reopen_with : Env → User → Text → Desk → Desk
reopen_with env u reason d =
    log_action AuditAction.update_action
      (text "Returned " ++ (d.doc.tracking_number ++ text " to tracking")) u
      (with_doc d (reopen_doc env u reason d.doc))

unfoldable pub reopen_body : Env → Desk → Text → User → Outcome Desk
reopen_body env d reason u = do
  refuse_viewers u
  guard (not (is_filed d.doc.status || (d.doc.is_archived || is_some d.doc.archived_document)))
      validation_error
  if not (is_pending_upload d.doc.status) then success d else do
    guard (can_user_reopen env.dir none d.doc u) permission_denied
    success (reopen_with env u reason d)

unfoldable pub reopen_record : Env → Desk → User → Text → Outcome Desk
unfolding guarded
reopen_record env d u reason = guarded env reopen (reopen_body env d reason) u
