-- ===== src/Tracking/Services/Batches/Sent.antt =====
-- apps/tracking/services.py: the current batch after `route_record`.
use udm_doctrack.Base.{
  ℕ, suc, true, false, not, ◌&&◌, ◌||◌, Option, none, some, List, [], ◌∷◌, ◌++◌, map, ◌≡◌, refl,
  ◌∙◌, ap, keep, keep-append, arith, if◌then◌else◌, elem, Bool-cases, inl, inr, success, guard,
  >>=-returned, success-injective, guard-success, subst, permission_denied, validation_error,
}
use udm_doctrack.Accounts.{User}
use udm_doctrack.Tracking.{
  pending_receipt, RoutingStep, TrackingRecord, in_batch, is_pending, is_received, current_steps,
  recalculate_status, settle, is_draft, is_completed, receiving_offices, pending_receipt_offices,
}
use udm_doctrack.Tracking.Services.{Env, Desk, add_activity, refuse_viewers}
use udm_doctrack.Tracking.Access.Laws.{can_user_act-active}
use udm_doctrack.Tracking.Services.Authority.{guarded-success}
use udm_doctrack.Accounts.Capabilities.{endorse}
use udm_doctrack.Tracking.Access.{can_user_act, can_user_view}
use udm_doctrack.Tracking.Services.Route.{
  not_nil, distinct_offices, active_offices, check_route, of_action, or_invalid, is_send,
  sending_office, Route, RouteRequest, new_steps, max_batch, max_sequence, pks, deadline_for,
  enter_batch, announce, route_with, route_body, route_record,
}
use udm_doctrack.Tracking.Services.History.{recalculate_status-frame}
use udm_doctrack.Tracking.Services.Batches.{
  active_offices-pks, fresh_batch, new_steps-batch, new_steps-pending, new_steps-received,
  new_steps-offices,
}

-- The steps that a call adds.
abbrev pub added : Env → User → RouteRequest → Route → Desk → List RoutingStep
added env u q p d =
    new_steps env d.doc u p.action p.from_office (suc (max_batch d.doc.routing_steps))
      q.instructions (deadline_for env d.doc (pks p.destinations) q)
      (max_sequence d.doc.routing_steps) (pks p.destinations)

batch_steps :
    (env : Env) (u : User) (q : RouteRequest) (p : Route) (d : Desk)
    → keep
        (in_batch (suc (max_batch d.doc.routing_steps)))
        (d.doc.routing_steps ++ added env u q p d)
      ≡ added env u q p d
batch_steps env u q p d =
    keep-append (in_batch (suc (max_batch d.doc.routing_steps))) d.doc.routing_steps _
    ∙ ap
        (λ (l : List RoutingStep).
          l ++ keep (in_batch (suc (max_batch d.doc.routing_steps))) (added env u q p d))
        (fresh_batch _ d.doc.routing_steps (omega arith))
    ∙ new_steps-batch env d.doc u p.action p.from_office (suc (max_batch d.doc.routing_steps))
        q.instructions _ (max_sequence d.doc.routing_steps) (pks p.destinations)

-- What entering the batch leaves: the current steps are the new ones, and the record is in transit.
entered :
    (env : Env) (u : User) (q : RouteRequest) (p : Route) (d : Desk)
    → is_completed d.doc.status ≡ false
    → (current_steps (enter_batch env u q p d).doc ≡ added env u q p d)
      × ((is_draft (enter_batch env u q p d).doc.status
            || is_completed (enter_batch env u q p d).doc.status)
          ≡ false)
unfolding enter_batch
entered env u q p d active = elim (Bool-cases (is_draft d.doc.status)) [
  | inl new ↦ rw new (batch_steps env u q p d, refl)
  | inr sent ↦ rw sent (batch_steps env u q p d, rw (sent, active))
]

in_transit :
    (r : TrackingRecord) (s : RoutingStep) (steps : List RoutingStep)
    → (is_draft r.status || is_completed r.status) ≡ false
    → current_steps r ≡ s ∷ steps
    → keep is_received (s ∷ steps) ≡ []
    → (recalculate_status r).status ≡ pending_receipt
unfolding recalculate_status settle
in_transit r s steps active cur e = rw (active, cur, e)

nothing_sent : not_nil [] ≡ true → ⊥
nothing_sent h = cc

added-status :
    (env : Env) (u : User) (q : RouteRequest) (p : Route) (d : Desk)
    → is_completed d.doc.status ≡ false
    → not_nil (pks p.destinations) ≡ true
    → (recalculate_status (enter_batch env u q p d).doc).status ≡ pending_receipt
unfolding new_steps
added-status env u q p d active some_office =
    sent_to (pks p.destinations) some_office (entered env u q p d active).0
  where
    sent_to :
        (offices : List ℕ)
        → not_nil offices ≡ true
        → current_steps (enter_batch env u q p d).doc
          ≡ new_steps env d.doc u p.action p.from_office
              (suc (max_batch d.doc.routing_steps))
              q.instructions
              (deadline_for env d.doc (pks p.destinations) q)
              (max_sequence d.doc.routing_steps)
              offices
        → (recalculate_status (enter_batch env u q p d).doc).status ≡ pending_receipt
    sent_to [] h cur = elim (nothing_sent h) [ ]
    sent_to (o ∷ offices) h cur =
        in_transit (enter_batch env u q p d).doc _ _ (entered env u q p d active).1 cur (
          new_steps-received env d.doc u p.action p.from_office
            (suc (max_batch d.doc.routing_steps)) q.instructions _
            (max_sequence d.doc.routing_steps) (o ∷ offices))

routed_batch :
    (env : Env) (u : User) (q : RouteRequest) (p : Route) (d : Desk)
    → is_completed d.doc.status ≡ false
    → current_steps (route_with env u q p d).doc ≡ added env u q p d
unfolding route_with announce add_activity
routed_batch env u q p d active =
    ap current_steps (recalculate_status-frame (enter_batch env u q p d).doc)
    ∙ (entered env u q p d active).0

-- What the checks of a route have established.
record Checked (env : Env) (r : TrackingRecord) (u : User) (q : RouteRequest) (p : Route)
    : Type 0 where
  acting : can_user_act env.dir none r u ≡ true
  addressed : not_nil (distinct_offices [] q.offices) ≡ true
  found : active_offices env.offices (distinct_offices [] q.offices) ≡ some p.destinations

or_invalid-success {ℓ} : {A : Type ℓ} (o : Option A) {a : A} → or_invalid o ≡ success a → o ≡ some a
or_invalid-success none h = cc
or_invalid-success (some x) h = ap some (success-injective h)

check_route-Checked :
    (env : Env) (r : TrackingRecord) (u : User) (q : RouteRequest) (p : Route)
    → check_route env r u q ≡ success p
    → Checked env r u q p
unfolding check_route
check_route-Checked env r u q p h = >>=-returned (refuse_viewers u) _ h (λ _ _ h1.
    >>=-returned
      (guard (not (is_completed r.status && can_user_view env.dir none r u)) validation_error) _ h1
      (λ _ _ h2.
        >>=-returned (guard (can_user_act env.dir none r u) permission_denied) _ h2 (λ _ act h3.
          >>=-returned (of_action q.action) _ h3 (λ action _ h4.
            >>=-returned (guard (not_nil (distinct_offices [] q.offices)) validation_error) _ h4
              (λ _ one h5.
                >>=-returned
                  (or_invalid (active_offices env.offices (distinct_offices [] q.offices))) _ h5
                  (λ found f h6.
                    >>=-returned
                      (guard (not (is_send action) || is_draft r.status) validation_error) _ h6
                      (λ _ _ h7.
                        >>=-returned
                          (or_invalid (
                            if is_send action
                            then some r.originating_office
                            else sending_office r u))
                          _ h7
                          (λ from_office _ h8.
                            >>=-returned
                              (guard (not (elem from_office (pks found))) validation_error) _ h8
                              (λ _ _ e. record {
                                acting =
                                    guard-success (can_user_act env.dir none r u) permission_denied
                                      act;
                                addressed =
                                    guard-success (not_nil (distinct_offices [] q.offices))
                                      validation_error one;
                                found =
                                    subst
                                      (λ (x : Route).
                                        active_offices env.offices (distinct_offices [] q.offices)
                                        ≡ some x.destinations)
                                      (success-injective e) (or_invalid-success _ f);
                              })))))))))

route_with-sends :
    (env : Env) (u : User) (q : RouteRequest) (p : Route) (d : Desk)
    → is_completed d.doc.status ≡ false
    → let r' = (route_with env u q p d).doc in
      (receiving_offices r' ≡ pks p.destinations)
      × (pending_receipt_offices r' ≡ pks p.destinations)
unfolding receiving_offices pending_receipt_offices
route_with-sends env u q p d active =
    let cur = routed_batch env u q p d active in
    let waiting =
      new_steps-pending env d.doc u p.action p.from_office (suc (max_batch d.doc.routing_steps))
        q.instructions (deadline_for env d.doc (pks p.destinations) q)
        (max_sequence d.doc.routing_steps) (pks p.destinations) in
    let offices =
      new_steps-offices env d.doc u p.action p.from_office (suc (max_batch d.doc.routing_steps))
        q.instructions (deadline_for env d.doc (pks p.destinations) q)
        (max_sequence d.doc.routing_steps) (pks p.destinations) in
    (
      ap (map (λ (s : RoutingStep). s.to_office)) cur ∙ offices,
      ap (λ l. map (λ (s : RoutingStep). s.to_office) (keep is_pending l)) cur
          ∙ ap (map (λ (s : RoutingStep). s.to_office)) waiting
          ∙ offices,
    )

route_with-status :
    (env : Env) (u : User) (q : RouteRequest) (p : Route) (d : Desk)
    → is_completed d.doc.status ≡ false
    → not_nil (pks p.destinations) ≡ true
    → (route_with env u q p d).doc.status ≡ pending_receipt
unfolding route_with announce add_activity
route_with-status env u q p d active some_office = added-status env u q p d active some_office

-- When a route call returns, the record is in transit: its current batch has one step for each
-- distinct office that was asked for, in the order asked, and every one of them still waits for its
-- receipt.
pub route_record-sends :
    (env : Env) (d : Desk) (u : User) (q : RouteRequest) (d' : Desk)
    → route_record env d u q ≡ success d'
    → (d'.doc.status ≡ pending_receipt)
      × (receiving_offices d'.doc ≡ distinct_offices [] q.offices)
      × (pending_receipt_offices d'.doc ≡ distinct_offices [] q.offices)
unfolding route_record route_body
route_record-sends env d u q d' h =
    let done = guarded-success env endorse (route_body env d q) u h in
    >>=-returned (check_route env d.doc done.actor q) _ done.returned (λ p passed e.
      let checks = check_route-Checked env d.doc done.actor q p passed in
      let active = can_user_act-active env.dir none d.doc done.actor checks.acting in
      let keys =
        active_offices-pks env.offices (distinct_offices [] q.offices) p.destinations
          checks.found in
      let sends = route_with-sends env done.actor q p d active in
      subst
        (λ (x : Desk).
          (x.doc.status ≡ pending_receipt)
          × (receiving_offices x.doc ≡ distinct_offices [] q.offices)
          × (pending_receipt_offices x.doc ≡ distinct_offices [] q.offices))
        (success-injective e)
        (
          route_with-status env done.actor q p d active (rw keys checks.addressed),
          sends.0 ∙ keys,
          sends.1 ∙ keys,
        ))
