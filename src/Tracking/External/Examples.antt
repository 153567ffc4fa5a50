-- ===== src/Tracking/External/Examples.antt =====
-- A document of the registry goes to an outside office and back to the budget office, with a receipt
-- corrected on the way.
use udm_doctrack.Base.{
  true, suc, Outcome, strip, false, none, some, [], ◌∷◌, ◌≡◌, refl, text, Error, success, raised,
  arith,
}
use udm_doctrack.DocumentTypes.{resolve_document_types}
use udm_doctrack.Accounts.{
  User, active_user, can_start_work, is_system_admin, is_records_staff, is_viewer, is_office_admin,
}
use udm_doctrack.Accounts.Capabilities.{
  active_writer, require_capability, capability_allowed, decide_with, role_default, dependencies,
  request_policy, current_actor,
}
use udm_doctrack.Tracking.{Status, send}
use udm_doctrack.Tracking.Services.{active_office}
use udm_doctrack.Tracking.Sample.{recipient}
use udm_doctrack.Tracking.External.{
  internal, ExternalStep, in_transit, visible_to, visible_by, visible_for, can_act, can_actor_act,
  can_manage, can_actor_manage, responsible_office, can_confirm_receipt, can_actor_confirm_receipt,
}
use udm_doctrack.Tracking.External.Calls.{
  Ledger, text_within, actual, add_event, enter_event, active_entry, with_capability, mutation,
  guarded_mutation,
}
use udm_doctrack.Tracking.External.Moves.{
  ExternalRoute, route_record, route_body, check_dispatch, recipient_of, sending_time, dispatch,
  dispatch_doc, new_step, confirm_receipt, record_external_receipt, receive_body, receipt_time,
  receive_doc,
}
use udm_doctrack.Tracking.External.Correct.{
  clean_step, correct_step, correct_body, correct_doc, check_correction, change_step,
  corrected_party, corrected_sending, corrected_receipt, corrected_text, only_allowed,
  endpoint_open, chronology, fits_facts,
}
use udm_doctrack.Tracking.External.Creation.{
  CreateRequest, Chosen, clean_record, create_record, create_body, recording_office,
  first_custodian, origin_time,
}
use udm_doctrack.Tracking.External.Run.Created.{New, create_record-run}
use udm_doctrack.Tracking.External.Run.Witnessed.{Amended, correct_step-Amended}
use udm_doctrack.Tracking.External.Run.{
  route_call, receipt_call, correct_call, remark_call, perform, or_before, run,
}
use udm_doctrack.Tracking.External.Run.Chain.{Sound, Sound-later}
use udm_doctrack.Tracking.External.Run.Ledgers.{last_time, run-Sound}
use udm_doctrack.Tracking.External.Run.Trace.{Traced}
use udm_doctrack.Tracking.External.Run.Revisions.{perform-Traced, run-stale}
use udm_doctrack.Tracking.External.Run.Confirmed.{confirm_receipt-returns}
use udm_doctrack.Tracking.External.Sample.{
  head_of_registry, at, entries, start, start_Sound, turn, outwards, earlier_receipt, turns,
}

run-Sound_example : Sound (last_time 0 turns) (run turns start).doc
run-Sound_example =
    run-Sound 0 turns start
      (omega arith, (omega arith, (omega arith, (omega arith, (omega arith, tt))))) start_Sound

abbrev sent_out : Ledger
sent_out = or_before start (perform (turn 1000 1 head_of_registry) (route_call outwards) start)

sends : perform (turn 1000 1 head_of_registry) (route_call outwards) start ≡ success sent_out
unfolding perform route_record route_body guarded_mutation mutation with_capability active_writer
    is_records_staff active_user can_start_work is_viewer is_office_admin is_system_admin visible_to
    visible_by current_actor request_policy capability_allowed decide_with role_default visible_for
    require_capability dependencies check_dispatch can_act can_actor_act can_manage can_actor_manage
    responsible_office recipient_of active_entry sending_time text_within add_event strip
sends = refl

perform-Traced_example : Traced 1000 4 2 start sent_out
perform-Traced_example =
    perform-Traced (turn 1000 1 head_of_registry) (route_call outwards) start sent_out sends

-- A second page sends the draft elsewhere from the same revision.
run-stale_example :
    (e : Error) × (perform
        (turn 1001 1 head_of_registry)
        (route_call (record outwards { to_external_office = none; to_office = some 20 }))
        (run ((turn 1001 2 recipient, remark_call []) ∷ []) sent_out)
      ≡ raised e)
run-stale_example =
    run-stale (turn 1000 1 head_of_registry) (turn 1001 1 head_of_registry) (route_call outwards)
      (route_call (record outwards { to_external_office = none; to_office = some 20 }))
      ((turn 1001 2 recipient, remark_call []) ∷ []) start sent_out sends refl

abbrev arrived_out : Ledger
arrived_out =
    or_before sent_out
      (perform (turn 1010 2 head_of_registry) (receipt_call (some 1005) []) sent_out)

abbrev amended : Ledger
amended = or_before arrived_out (
    perform (turn 1020 3 head_of_registry) (correct_call 1 (text "Typing error") earlier_receipt)
      arrived_out)

amends :
    perform
      (turn 1020 3 head_of_registry)
      (correct_call 1 (text "Typing error") earlier_receipt)
      arrived_out
    ≡ success amended
unfolding perform route_record route_body guarded_mutation mutation with_capability active_writer
    is_records_staff active_user can_start_work is_viewer is_office_admin is_system_admin visible_to
    visible_by current_actor request_policy capability_allowed decide_with role_default visible_for
    require_capability dependencies check_dispatch can_act can_actor_act can_manage can_actor_manage
    responsible_office recipient_of active_entry sending_time text_within add_event strip dispatch
    dispatch_doc new_step enter_event record_external_receipt receive_body receipt_time receive_doc
    actual correct_step correct_body check_correction only_allowed endpoint_open change_step
    corrected_party corrected_sending corrected_receipt corrected_text chronology fits_facts
    clean_step correct_doc
amends = refl

-- To the budget office instead, which is awaited then.
abbrev to_budget : ExternalRoute
to_budget = record outwards { to_office = some 20; to_external_office = none }

abbrev sent_in : Ledger
sent_in = or_before start (perform (turn 1000 1 head_of_registry) (route_call to_budget) start)

sent_in_Sound : Sound 1010 sent_in.doc
unfolding run
sent_in_Sound = Sound-later 1000 1010 sent_in.doc (omega arith) (
    run-Sound 0 ((turn 1000 1 head_of_registry, route_call to_budget) ∷ []) start (omega arith, tt)
      start_Sound)

abbrev budget_step : ExternalStep
budget_step = record {
  sequence = 1;
  action = send;
  sender = internal 10;
  recipient = internal 20;
  from_name = text "R";
  to_name = text "B";
  sent_by = some 4;
  sent_recorded_by = 4;
  sent_at = 1000;
  received_by = none;
  receipt_recorded_by = none;
  received_at = none;
  received_recorded_at = none;
  instructions = [];
  receipt_note = [];
  due_at = none;
}

confirm_receipt-returns_example :
    (d' : Ledger) × (confirm_receipt (at 1010) (some 2) recipient [] sent_in ≡ success d')
    × (d'.doc.custodian ≡ internal 20)
    × (d'.doc.status ≡ Status.received)
    × (in_transit d'.doc ≡ false)
    × (d'.doc.revision ≡ suc sent_in.doc.revision)
unfolding perform route_record route_body guarded_mutation mutation with_capability active_writer
    is_records_staff active_user can_start_work is_viewer is_office_admin is_system_admin visible_to
    visible_by current_actor request_policy capability_allowed decide_with role_default visible_for
    require_capability dependencies check_dispatch can_act can_actor_act can_manage can_actor_manage
    responsible_office recipient_of active_entry sending_time text_within add_event strip
    can_confirm_receipt can_actor_confirm_receipt dispatch dispatch_doc new_step enter_event
    active_office
confirm_receipt-returns_example =
    confirm_receipt-returns (at 1010) (some 2) recipient recipient [] budget_step sent_in
      sent_in_Sound refl refl refl refl refl refl refl refl refl

correct_step-Amended_example : Amended 1 4 amended.doc.revision arrived_out.doc amended.doc
correct_step-Amended_example =
    correct_step-Amended (turn 1020 3 head_of_registry) 1 (text "Typing error") earlier_receipt
      arrived_out amended amends

-- The registry writes a new slip, and sends it out.
abbrev wanted : CreateRequest
wanted = record {
  title = text "Slip";
  managing_office = none;
  description = [];
  original_reference = [];
  from_office = none;
  from_external_office = none;
  document_type = some 4;
  document_types = 3 ∷ 4 ∷ [];
  actual_at = none;
}

abbrev or_start : Outcome Ledger → Ledger
or_start (success d) = d
or_start (raised e) = start

abbrev chosen : Chosen
chosen = record {
  pk = 7;
  number = text "x";
  taken = text "DRAFT-EXT-y" ∷ [];
  types = record { pk = 3; is_active = true } ∷ record { pk = 4; is_active = true } ∷ [];
}

abbrev written : Ledger
written = or_start (create_record (at 900) entries chosen wanted [] [] [] head_of_registry)

writes : create_record (at 900) entries chosen wanted [] [] [] head_of_registry ≡ success written
unfolding create_record create_body recording_office first_custodian origin_time active_writer
    is_records_staff active_user can_start_work is_viewer is_office_admin is_system_admin
    require_capability capability_allowed decide_with role_default dependencies active_office
    text_within strip add_event clean_record resolve_document_types
writes = refl

create_record-run_example :
    (actor : User) × (active_user (at 900).dir.users 4 ≡ some actor)
    × New 900 actor written.doc
    × Sound 1010
        (run
          ((turn 1000 1 head_of_registry, route_call outwards)
            ∷ (turn 1010 2 head_of_registry, receipt_call (some 1005) [])
            ∷ [])
          written).doc
create_record-run_example =
    create_record-run (at 900) entries chosen wanted [] [] [] head_of_registry
      ((turn 1000 1 head_of_registry, route_call outwards)
        ∷ (turn 1010 2 head_of_registry, receipt_call (some 1005) [])
        ∷ [])
      written writes (omega arith, (omega arith, tt))
