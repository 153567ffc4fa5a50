-- ===== src/Tracking/Services/Receive.antt =====
-- `confirm_receipt`: the office of the account confirms that it has the document.
use udm_doctrack.Base.{
  ℕ, Bool, not, ◌&&◌, ◌||◌, Option, none, some, List, [], ◌∷◌, ◌++◌, map, ◌==◌, ltb, if◌then◌else◌,
  opt_eq, exists, keep, Text, take, text, text_length, text_eq, Outcome, success, raised, guard,
  ◌>>=◌, ◌>>◌, permission_denied, validation_error,
}
use udm_doctrack.Accounts.{User}
use udm_doctrack.Accounts.Capabilities.{receive}
use udm_doctrack.Tracking.{
  Event, RoutingStep, TrackingRecord, is_draft, is_completed, current_steps, in_batch, is_pending,
  addressed_to, pending_step_for_office, recalculate_status, touch_movement,
}
use udm_doctrack.Tracking.Deadline.{is_overdue}
use udm_doctrack.Tracking.Notices.{
  Kind, Notification, open_notice, update_where, resolve, reword, notify_office,
  overdue_notice_text,
}
use udm_doctrack.Tracking.Services.{
  Env, Desk, office_row, code_of, name_of, refuse_viewers, guarded, add_activity, log_action,
  with_doc, AuditAction,
}
use udm_doctrack.Tracking.Services.Route.{or_invalid}

-- The step that the call looks for: of the current batch, to the office, not received.
abbrev pub awaits : TrackingRecord → ℕ → RoutingStep → Bool
awaits r office s = in_batch r.current_batch s && (addressed_to office s && is_pending s)

abbrev pub stamp_step : ℕ → ℕ → Text → RoutingStep → RoutingStep
stamp_step now user note s = record s {
  received_by = some user;
  received_at = some now;
  receipt_note = take 2000 note;
}

-- The first step that awaits the office is stamped.
unfoldable pub stamp_first :
    (RoutingStep → Bool) → (RoutingStep → RoutingStep) → List RoutingStep → List RoutingStep
stamp_first test stamp [] = []
stamp_first test stamp (s ∷ steps) =
    let rest = stamp_first test stamp steps in if test s then stamp s ∷ steps else s ∷ rest

abbrev pub first_time : Option ℕ → ℕ → Option ℕ
first_time none now = some now
first_time (some t) now = some t

abbrev pub office_of : User → Outcome ℕ
office_of u = elim u.office_id [ none ↦ raised permission_denied | some office ↦ success office ]

-- The checks, in the order of the code: the office and its pending step.
unfoldable pub check_receipt : TrackingRecord → User → Outcome (ℕ × RoutingStep)
check_receipt r u = do
  refuse_viewers u
  office ← office_of u
  guard (not (is_completed r.status || is_draft r.status)) validation_error
  step ← or_invalid (pending_step_for_office r (some office))
  success (office, step)

-- The record with the step stamped, the timeline entry, and the summary brought up to date.
unfoldable pub receive_doc : Env → User → ℕ → Text → TrackingRecord → TrackingRecord
receive_doc env u office note r =
    let stamped = record r {
      routing_steps = stamp_first (awaits r office) (stamp_step env.now u.pk note) r.routing_steps;
      first_received_at = first_time r.first_received_at env.now;
    } in
    touch_movement env.now (
      recalculate_status (
        add_activity env.now Event.receipt
          (text "Receipt confirmed by "
            ++ (u.display_name
                ++ (text " (" ++ (code_of (office_row env.offices office) ++ text ")"))))
          u note none stamped))

-- Names joined by commas, each once: `", ".join(dict.fromkeys(…))`.
abbrev distinct_texts : List Text → List Text → List Text
distinct_texts seen [] = []
distinct_texts seen (t ∷ ts) =
    let later = distinct_texts (t ∷ seen) ts in
    let known = distinct_texts seen ts in if exists (text_eq t) seen then known else t ∷ later

abbrev join_texts : List Text → Text
join_texts [] = []
join_texts (t ∷ []) = t
join_texts (t ∷ u ∷ ts) = t ++ (text ", " ++ join_texts (u ∷ ts))

abbrev awaiting_text : Text → Text → Text
awaiting_text number recipients =
    number ++ (text " is awaiting receipt from " ++ (recipients ++ text "."))

-- The sender's reminder: by the recipients' names, or by their codes where that is too long.
unfoldable pub reminder_text : Env → TrackingRecord → List RoutingStep → Text
reminder_text env r steps =
    let by_name = awaiting_text r.tracking_number (
      join_texts (
        distinct_texts []
          (map (λ (s : RoutingStep). name_of (office_row env.offices s.to_office)) steps))) in
    let by_code = awaiting_text r.tracking_number (
      join_texts (
        distinct_texts []
          (map (λ (s : RoutingStep). code_of (office_row env.offices s.to_office)) steps))) in
    take 255 (if ltb 255 (text_length by_name) then by_code else by_name)

-- The steps that the same sender still waits for.
abbrev pub still_awaited : TrackingRecord → Option ℕ → List RoutingStep
still_awaited r sender = keep (λ s. opt_eq s.from_office sender && is_pending s) (current_steps r)

unfoldable pub remind_sender :
    Env → TrackingRecord → Option ℕ → List RoutingStep → List Notification → List Notification
remind_sender env r none steps rows = rows
remind_sender env r (some sender) [] rows =
    update_where (λ n. (n.office == sender) && open_notice r.pk Kind.unreceived n) (resolve env.now)
      rows
remind_sender env r (some sender) (s ∷ steps) rows =
    update_where (λ n. (n.office == sender) && open_notice r.pk Kind.unreceived n)
      (λ n. record n { message = reminder_text env r (s ∷ steps) }) rows

abbrev due_text : Env → Option ℕ → Text
due_text env none = []
due_text env (some due) = env.date_text due

unfoldable pub update_overdue : Env → TrackingRecord → ℕ → List Notification → List Notification
update_overdue env r office rows =
    let (title, message) = overdue_notice_text r.tracking_number (due_text env r.due_at) in
    if is_overdue env.now r
    then update_where (λ n. (n.office == office) && open_notice r.pk Kind.overdue n)
        (reword title message) rows
    else update_where (open_notice r.pk Kind.overdue) (resolve env.now) rows

unfoldable pub receive_notices :
    Env → TrackingRecord → ℕ → RoutingStep → List Notification → List Notification
receive_notices env r office step rows =
    notify_office step.from_office Kind.received (text "A document you sent was received")
      (r.tracking_number
        ++ (text " was received by " ++ (name_of (office_row env.offices office) ++ text ".")))
      r.pk
      (update_overdue env r office (
        remind_sender env r step.from_office (still_awaited r step.from_office) (
          update_where (λ n. (n.office == office) && open_notice r.pk Kind.routed n)
            (resolve env.now) rows)))

unfoldable pub receive_with : Env → User → ℕ → RoutingStep → Text → Desk → Desk
receive_with env u office step note d =
    let logged =
      log_action AuditAction.receive_action
        (code_of (office_row env.offices office)
          ++ (text " confirmed receipt of " ++ d.doc.tracking_number))
        u (with_doc d (receive_doc env u office note d.doc)) in
    record logged { notifications = receive_notices env logged.doc office step d.notifications }

unfoldable pub receive_body : Env → Desk → Text → User → Outcome Desk
receive_body env d note u = do
  (office, step) ← check_receipt d.doc u
  success (receive_with env u office step note d)

unfoldable pub confirm_receipt : Env → Desk → User → Text → Outcome Desk
unfolding guarded
confirm_receipt env d u note = guarded env receive (receive_body env d note) u
