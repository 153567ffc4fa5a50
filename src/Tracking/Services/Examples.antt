-- ===== src/Tracking/Services/Examples.antt =====
-- A document goes from the registry to two offices, is received, completed and returned.
use udm_doctrack.Base.{
  ℕ, suc, exists, ◌&&◌, true, false, none, some, List, [], ◌∷◌, ◌≡◌, refl, text, length, success,
}
use udm_doctrack.Accounts.{
  User, active_user, can_start_work, is_system_admin, is_records_staff, is_viewer, is_office_admin,
}
use udm_doctrack.Accounts.Capabilities.{
  view_record, tracking, capability_allowed, endorse, active_writer, require_capability,
  decide_with, role_default, dependencies, request_policy, current_actor,
}
use udm_doctrack.Tracking.{
  is_pending, current_steps, addressed_to, is_draft, pending_receipt, receiving_offices,
  pending_receipt_offices, pending_step_for_office, has_custody, recalculate_status, settle,
  settle_received, latest, has_activity_after_receipt, touch_movement,
}
use udm_doctrack.Tracking.Access.{
  can_user_grant_access, can_actor_grant_access, can_user_act, can_actor_act, may_act,
  can_user_view, visible_to_actor, visible_from, visible_in_office, can_user_confirm_receipt,
  can_user_reopen, can_actor_reopen,
}
use udm_doctrack.Tracking.Stage.{stage_for, local_stage, aggregate_stage}
use udm_doctrack.Tracking.Services.{
  Desk, guarded, locked_mutation, requires_capability, refuse_viewers, add_activity, active_office,
}
use udm_doctrack.Tracking.Services.Route.{
  route_record, route_body, route_with, check_route, distinct_offices, active_offices, enter_batch,
  announce, new_steps,
}
use udm_doctrack.Tracking.Services.Receive.{
  confirm_receipt, receive_body, check_receipt, receive_with, receive_doc, stamp_first,
}
use udm_doctrack.Tracking.Services.Work.{
  complete_record, complete_body, finish_body, complete_with, complete_doc, ensure_received,
  reopen_record, reopen_body,
}
use udm_doctrack.Tracking.Services.Run.{
  Turn, share_call, route_call, receive_call, complete_call, reopen_call, remark_call, perform, run,
  or_before,
}
use udm_doctrack.Tracking.Services.Run.Authorised.{perform-allowed}
use udm_doctrack.Tracking.Services.Run.Keeps.{run-stage, run-history}
use udm_doctrack.Tracking.Services.History.{Continues}
use udm_doctrack.Tracking.Services.Batches.Sent.{route_record-sends}
use udm_doctrack.Tracking.Services.Batches.Got.{confirm_receipt-custody}
use udm_doctrack.Tracking.Services.Undo.{reopen_record-complete_record}
use udm_doctrack.Tracking.Services.Button.{is_success, confirm_receipt-can_user_confirm_receipt}
use udm_doctrack.Tracking.Services.Share.{
  ShareRequest, grant_access, share_body, check_share, grantee_of, within_reach,
}
use udm_doctrack.Tracking.Services.Share.Granted.{grant_access-can_user_view}
use udm_doctrack.Tracking.Sample.{guest, env, desk, request, sender, recipient}

abbrev routed : Desk
routed = or_before desk (route_record env desk sender request)

routes : route_record env desk sender request ≡ success routed
unfolding route_record route_body guarded locked_mutation requires_capability active_writer
    require_capability capability_allowed decide_with role_default dependencies request_policy
    active_user is_system_admin is_records_staff can_start_work is_viewer is_office_admin
    check_route refuse_viewers can_user_act can_actor_act may_act can_user_view visible_to_actor
    visible_from visible_in_office current_actor distinct_offices active_offices active_office
routes = refl

route_record-sends_example :
    (routed.doc.status ≡ pending_receipt)
    × (receiving_offices routed.doc ≡ distinct_offices [] request.offices)
    × (pending_receipt_offices routed.doc ≡ distinct_offices [] request.offices)
route_record-sends_example = route_record-sends env desk sender request routed routes

perform-allowed_example :
    (actor : User) × (active_user env.dir.users sender.pk ≡ some actor)
    × (can_start_work actor ≡ true)
    × (capability_allowed env.dir none actor tracking endorse true ≡ true)
unfolding perform
perform-allowed_example = perform-allowed env sender (route_call request) desk routed routes

-- The budget office receives its copy.
abbrev got : Desk
got = or_before routed (confirm_receipt env routed recipient (text "success"))

receives : confirm_receipt env routed recipient (text "success") ≡ success got
unfolding confirm_receipt receive_body guarded locked_mutation requires_capability active_writer
    require_capability capability_allowed decide_with role_default dependencies request_policy
    active_user is_system_admin is_records_staff can_start_work is_viewer is_office_admin
    check_receipt refuse_viewers pending_step_for_office route_record route_body check_route
    can_user_act can_actor_act may_act can_user_view visible_to_actor visible_from visible_in_office
    current_actor distinct_offices active_offices active_office route_with enter_batch announce
    new_steps add_activity recalculate_status settle
receives = refl

confirm_receipt-custody_example :
    (actor : User) × (office : ℕ) × (active_user env.dir.users recipient.pk ≡ some actor)
    × (actor.office_id ≡ some office)
    × (exists (λ s. addressed_to office s && is_pending s) (current_steps routed.doc) ≡ true)
    × (has_custody got.doc (some office) ≡ true)
    × (suc (length (pending_receipt_offices got.doc)) ≡ length (pending_receipt_offices routed.doc))
confirm_receipt-custody_example =
    confirm_receipt-custody env routed recipient (text "success") got receives

confirm_receipt-can_user_confirm_receipt_example :
    is_success (confirm_receipt env routed recipient [])
    ≡ can_user_confirm_receipt env.dir none routed.doc recipient
unfolding active_user
confirm_receipt-can_user_confirm_receipt_example =
    confirm_receipt-can_user_confirm_receipt env routed recipient [] refl

-- The budget office finishes the document, and takes that back.
abbrev finished : Desk
finished = or_before got (complete_record env got recipient [])

abbrev back : Desk
back = or_before finished (reopen_record env finished recipient (text "again"))

completes : complete_record env got recipient [] ≡ success finished
unfolding complete_record complete_body finish_body ensure_received confirm_receipt receive_body
    guarded locked_mutation requires_capability active_writer require_capability capability_allowed
    decide_with role_default dependencies request_policy active_user is_system_admin
    is_records_staff can_start_work is_viewer is_office_admin check_receipt refuse_viewers
    pending_step_for_office route_record route_body check_route has_custody can_user_act
    can_actor_act may_act can_user_view visible_to_actor visible_from visible_in_office
    current_actor distinct_offices active_offices active_office route_with enter_batch announce
    new_steps add_activity recalculate_status settle settle_received receive_with receive_doc
    stamp_first touch_movement latest
completes = refl

reopens : reopen_record env finished recipient (text "again") ≡ success back
unfolding reopen_record reopen_body can_user_reopen can_actor_reopen complete_with complete_doc
    complete_record complete_body finish_body ensure_received confirm_receipt receive_body guarded
    locked_mutation requires_capability active_writer require_capability capability_allowed
    decide_with role_default dependencies request_policy active_user is_system_admin
    is_records_staff can_start_work is_viewer is_office_admin check_receipt refuse_viewers
    pending_step_for_office route_record route_body check_route has_custody can_user_act
    can_actor_act may_act can_user_view visible_to_actor visible_from visible_in_office
    current_actor distinct_offices active_offices active_office route_with enter_batch announce
    new_steps add_activity recalculate_status settle settle_received receive_with receive_doc
    stamp_first touch_movement latest
reopens = refl

reopen_record-complete_record_example : back.doc.status ≡ got.doc.status
unfolding confirm_receipt receive_body guarded locked_mutation requires_capability active_writer
    require_capability capability_allowed decide_with role_default dependencies request_policy
    active_user is_system_admin is_records_staff can_start_work is_viewer is_office_admin
    check_receipt refuse_viewers pending_step_for_office route_record route_body check_route
    has_custody can_user_act can_actor_act may_act can_user_view visible_to_actor visible_from
    visible_in_office current_actor distinct_offices active_offices active_office route_with
    enter_batch announce new_steps add_activity recalculate_status settle settle_received
    receive_with receive_doc stamp_first touch_movement latest stage_for local_stage aggregate_stage
    has_activity_after_receipt
reopen_record-complete_record_example =
    reopen_record-complete_record env env got finished back recipient recipient [] (text "again")
      refl refl completes reopens

-- The budget office shares the document with an account of a third office.
abbrev offer : ShareRequest
offer = record { office = none; target_user = some guest.pk; reason = text "for advice" }

abbrev shared : Desk
shared = or_before got (grant_access env got recipient offer)

shares : grant_access env got recipient offer ≡ success shared
unfolding grant_access share_body check_share grantee_of within_reach can_user_grant_access
    can_actor_grant_access confirm_receipt receive_body guarded locked_mutation requires_capability
    active_writer require_capability capability_allowed decide_with role_default dependencies
    request_policy active_user is_system_admin is_records_staff can_start_work is_viewer
    is_office_admin check_receipt refuse_viewers pending_step_for_office route_record route_body
    check_route has_custody can_user_act can_actor_act may_act can_user_view visible_to_actor
    visible_from visible_in_office current_actor distinct_offices active_offices active_office
    route_with enter_batch announce new_steps add_activity recalculate_status settle settle_received
    receive_with receive_doc stamp_first touch_movement latest
shares = refl

guest_reads : capability_allowed env.dir none guest tracking view_record false ≡ true
unfolding capability_allowed decide_with role_default dependencies request_policy active_user
    is_system_admin is_records_staff is_viewer
guest_reads = refl

received_by_both : is_draft got.doc.status ≡ false
unfolding confirm_receipt receive_body guarded locked_mutation requires_capability active_writer
    require_capability capability_allowed decide_with role_default dependencies request_policy
    active_user is_system_admin is_records_staff can_start_work is_viewer is_office_admin
    check_receipt refuse_viewers pending_step_for_office route_record route_body check_route
    has_custody can_user_act can_actor_act may_act can_user_view visible_to_actor visible_from
    visible_in_office current_actor distinct_offices active_offices active_office route_with
    enter_batch announce new_steps add_activity recalculate_status settle settle_received
    receive_with receive_doc stamp_first touch_movement latest
received_by_both = refl

grant_access-can_user_view_example : can_user_view env.dir none shared.doc guest ≡ true
unfolding active_user is_office_admin is_system_admin
grant_access-can_user_view_example =
    grant_access-can_user_view env got shared recipient guest offer 30 refl refl received_by_both
      refl refl refl refl guest_reads shares

-- The whole journey, with a refused call on the way.
abbrev journey : List Turn
journey =
    record { env = env; user = sender; call = route_call request }
    ∷ record { env = env; user = sender; call = receive_call [] }
    ∷ record { env = env; user = recipient; call = receive_call [] }
    ∷ record { env = env; user = recipient; call = share_call offer }
    ∷ record { env = env; user = recipient; call = remark_call (text "seen") }
    ∷ record { env = env; user = recipient; call = complete_call [] }
    ∷ record { env = env; user = recipient; call = reopen_call [] }
    ∷ []

run-stage_example : stage_for (run journey desk).doc none ≡ (run journey desk).doc.status
unfolding stage_for
run-stage_example = run-stage journey desk refl

run-history_example : Continues desk.doc (run journey desk).doc
run-history_example = run-history journey desk
