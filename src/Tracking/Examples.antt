-- ===== src/Tracking/Examples.antt =====
-- Runs of the record's queries on the sample paper.
use udm_doctrack.Base.{
  ℕ, All, not, exists, ◌==◌, ◌&&◌, ◌≢◌, true, false, none, some, [], ◌∷◌, ◌≡◌, refl, ◌⊎◌, ◌↔◌, Text,
  text, arith,
}
use udm_doctrack.Accounts.{
  active_user, can_start_work, is_system_admin, is_records_staff, is_viewer, is_office_admin,
}
use udm_doctrack.Accounts.Capabilities.{
  capability_allowed, decide_with, role_default, dependencies, request_policy, current_actor,
}
use udm_doctrack.Tracking.Directions.{count, direction_totals, by_status_direction}
use udm_doctrack.Tracking.Directions.Sums.{
  sum, total_of, Adds, direction_totals-sum, by_status_direction-total,
}
use udm_doctrack.Tracking.{
  is_incoming_for, is_outgoing_for, Status, TrackingRecord, RoutingStep, recalculate_status,
  is_completed, has_custody, send,
}
use udm_doctrack.Tracking.Access.{
  can_user_act, can_actor_act, may_act, can_user_view, visible_to_actor, visible_from,
  visible_in_office,
}
use udm_doctrack.Tracking.Access.Laws.{can_user_act-custody, draft_private}
use udm_doctrack.Tracking.Stage.{stage_for, recalculate_status-stage}
use udm_doctrack.Tracking.Deadline.{overdue_q, deadline_state, overdue, deadline_state-overdue}
use udm_doctrack.Tracking.Sla.{
  resolve_sla_due_days, most_specific, specificity, resolve_sla_due_days-by_tiers, by_tiers,
  sla_due_days_for, Smallest, sla_due_days_for-Smallest,
}
use udm_doctrack.Tracking.Numbers.{generate_tracking_number}
use udm_doctrack.Tracking.Numbers.Unique.{Call, after, numbers_unique}
use udm_doctrack.Tracking.Sample.{env, paper, sender, recipient, rules}

-- The paper at the budget office, received, due at time 500.
abbrev step : RoutingStep
step = record {
  sequence = 1;
  batch = 1;
  action = send;
  from_office = some 10;
  to_office = 20;
  sent_by = 1;
  sent_at = 5;
  instructions = [];
  due_at = none;
  received_by = some 2;
  received_at = some 6;
  receipt_note = [];
}

abbrev received_paper : TrackingRecord
received_paper = record paper {
  status = Status.received;
  current_batch = 1;
  due_at = some 500;
  routing_steps = step ∷ [];
}

recalculate_status-stage_example :
    stage_for (recalculate_status received_paper) none ≡ (recalculate_status received_paper).status
recalculate_status-stage_example = recalculate_status-stage received_paper

recipient_acts : can_user_act env.dir none received_paper recipient ≡ true
unfolding can_user_act can_actor_act may_act can_user_view visible_to_actor visible_from
    visible_in_office current_actor request_policy capability_allowed decide_with role_default
    dependencies active_user is_system_admin is_records_staff can_start_work is_viewer
    is_office_admin has_custody
recipient_acts = refl

can_user_act-custody_example :
    (is_completed received_paper.status ≡ false)
    × ((is_system_admin recipient ≡ true) ⊎ (has_custody received_paper recipient.office_id ≡ true))
unfolding current_actor request_policy active_user
can_user_act-custody_example =
    can_user_act-custody env.dir none received_paper recipient recipient refl refl recipient_acts

author_sees : can_user_view env.dir none paper sender ≡ true
unfolding can_user_view visible_to_actor visible_from visible_in_office current_actor request_policy
    capability_allowed decide_with role_default dependencies active_user is_system_admin
    is_records_staff is_viewer is_office_admin
author_sees = refl

draft_private_example : (is_system_admin sender ≡ true) ⊎ (paper.created_by ≡ sender.pk)
unfolding current_actor request_policy active_user
draft_private_example = draft_private env.dir none paper sender sender refl refl author_sees

deadline_state-overdue_example :
    ((deadline_state 24 501 received_paper ≡ overdue) ↔ (overdue_q 501 received_paper ≡ true))
    × (deadline_state 24 501 received_paper ≡ overdue
        → deadline_state 24 900 received_paper ≡ overdue)
deadline_state-overdue_example = deadline_state-overdue 24 501 900 received_paper (omega arith)

-- The rule for the office and the type wins over the office's own.
two_days : resolve_sla_due_days rules 3 (some 20) (some 7) ≡ 2
unfolding resolve_sla_due_days most_specific specificity
two_days = refl

resolve_sla_due_days-by_tiers_example :
    resolve_sla_due_days rules 3 (some 20) (some 7) ≡ by_tiers rules 3 (some 20) (some 7)
resolve_sla_due_days-by_tiers_example = resolve_sla_due_days-by_tiers rules 3 (some 20) (some 7)

sla_due_days_for-Smallest_example :
    Smallest rules 3 (some 7) (sla_due_days_for rules 3 (20 ∷ 30 ∷ []) (some 7)) (20 ∷ 30 ∷ [])
    × ((sla_due_days_for rules 3 (20 ∷ 30 ∷ []) (some 7) == 0)
        ≡ exists (λ o. 0 == resolve_sla_due_days rules 3 (some o) (some 7)) (20 ∷ 30 ∷ []))
sla_due_days_for-Smallest_example = sla_due_days_for-Smallest rules 3 20 (30 ∷ []) (some 7)

abbrev codes : ℕ → Text
codes office = text "R"

abbrev june : Call
june = record { office = 10; year = 2026; month = 6 }

numbers_unique_example :
    let (number, rows') = generate_tracking_number (text "UDM") 4 10 (codes 10) 2026 6 [] in
    let (number', _) =
      generate_tracking_number (text "UDM") 4 10 (codes 10) 2026 6 (after (june ∷ []) rows') in
    number ≢ number'
numbers_unique_example = numbers_unique (text "UDM") 4 codes june june (june ∷ []) [] (λ _. refl)

-- The received paper and a draft, seen by the office that sent the first.
direction_totals-sum_example :
    (sum (direction_totals (received_paper ∷ paper ∷ []) (some 10)) ≡ 2)
    × ((direction_totals (received_paper ∷ paper ∷ []) (some 10)).incoming
        ≡ count (λ r. is_incoming_for r (some 10)) (received_paper ∷ paper ∷ []))
    × ((direction_totals (received_paper ∷ paper ∷ []) (some 10)).outgoing
        ≡ count
            (λ r. is_outgoing_for r (some 10) && not (is_incoming_for r (some 10)))
            (received_paper ∷ paper ∷ []))
direction_totals-sum_example = direction_totals-sum (received_paper ∷ paper ∷ []) 10

by_status_direction-total_example :
    (total_of (by_status_direction (received_paper ∷ paper ∷ []) (some 20)) ≡ 1)
    × All (Adds (some 20)) (by_status_direction (received_paper ∷ paper ∷ []) (some 20))
by_status_direction-total_example =
    by_status_direction-total (received_paper ∷ paper ∷ []) (some 20)
