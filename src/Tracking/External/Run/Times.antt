-- ===== src/Tracking/External/Run/Times.antt =====
-- apps/tracking/external_services.py: what a dispatch has been checked for, and the times that are accepted.
use udm_doctrack.Base.{
  ℕ, Bool, true, false, not, ◌&&◌, ◌||◌, Option, none, some, List, [], ◌∷◌, ◌≡◌, refl, subst, leb,
  if◌then◌else◌, is_some, is_none, arith, Text, success, guard, >>=-returned, guard-success,
  success-injective, permission_denied, validation_error, Bool-cases, inl, inr,
}
use udm_doctrack.Accounts.{User, can_start_work}
use udm_doctrack.Accounts.Capabilities.{
  Directory, capability_allowed, external_tracking, view_record, current_actor,
}
use udm_doctrack.Tracking.Services.{Env}
use udm_doctrack.Tracking.Services.Route.{of_action}
use udm_doctrack.Tracking.External.{
  ExternalOffice, is_external_party, same_party, ExternalStep, ExternalEvent, ExternalRecord,
  current_step, latest_step, in_transit, can_act, can_actor_act,
}
use udm_doctrack.Tracking.External.Calls.{
  Ledger, text_within, not_before, or_now, actual, later_of, latest_movement, latest_actual,
  enter_event, add_event, require_unfrozen,
}
use udm_doctrack.Tracking.External.Moves.{
  ExternalRoute, recipient_of, sending_time, deadline_fits, Dispatch, check_dispatch,
}
use udm_doctrack.Tracking.External.Correct.{sent_after}
use udm_doctrack.Tracking.External.Run.Chain.{Chain, Sound}

-- A time that was accepted is past, and not before the bound.
pub actual-success :
    (now : ℕ) (value earliest : Option ℕ) {t : ℕ}
    → actual now value earliest ≡ success t
    → (leb t now ≡ true) × (not_before earliest t ≡ true)
unfolding actual
actual-success now value earliest h =
    >>=-returned (guard (leb (or_now value now) now) validation_error) _ h (λ _ past h1.
      >>=-returned (guard (not_before earliest (or_now value now)) validation_error) _ h1
        (λ _ after e.
          let same = success-injective e in
          (
            subst (λ x. leb x now ≡ true) same
                (guard-success (leb (or_now value now) now) validation_error past),
            subst (λ x. not_before earliest x ≡ true) same
                (guard-success (not_before earliest (or_now value now)) validation_error after),
          )))

not_before-later_of :
    (a b : Option ℕ) (t : ℕ)
    → not_before (later_of a b) t ≡ true
    → (not_before a t ≡ true) × (not_before b t ≡ true)
not_before-later_of none b t h = (refl, h)
not_before-later_of (some a) none t h = (h, refl)
not_before-later_of (some a) (some b) t h = (ground arith, ground arith)

-- An entry changes nothing that the chain reads.
pub add_event-Sound :
    (now : ℕ) (env : Env) (u : User) (event : ExternalEvent) (message detail : Text)
    (at step : Option ℕ) (d d' : Ledger)
    → add_event env u event message detail at step d ≡ success d'
    → Sound now d.doc
    → Sound now d'.doc
unfolding add_event enter_event
add_event-Sound now env u event message detail at step d d' h c =
    >>=-returned (text_within 255 message) _ h (λ short _ e.
      subst (λ (x : Ledger). Sound now x.doc) (success-injective e)
        (record { chain = c.chain; held = c.held; pending = c.pending; unsent = c.unsent }))

-- Who may act, acts on a document that has arrived.
can_actor_act-arrived :
    (dir : Directory) (r : ExternalRecord) (actor : Option User)
    → can_actor_act dir r actor ≡ true
    → in_transit r ≡ false
unfolding can_actor_act
can_actor_act-arrived dir r none h = cc
can_actor_act-arrived dir r (some u) h =
    ladder (not (capability_allowed dir none u external_tracking view_record false))
      (not u.is_authenticated || (not u.is_active || not (can_start_work u))) (in_transit r) _ h
  where
    ladder :
        (a b c k : Bool)
        → (if a then false else if b then false else if c then false else k) ≡ true
        → c ≡ false
    ladder a b c k e = ground arith

pub can_act-arrived :
    (dir : Directory) (r : ExternalRecord) (u : User)
    → can_act dir r u ≡ true
    → in_transit r ≡ false
unfolding can_act
can_act-arrived dir r u h = can_actor_act-arrived dir r (current_actor dir none u) h

-- What a dispatch has been checked for.
pub record Dispatched (now : ℕ) (r : ExternalRecord) (reported : Option ℕ) (p : Dispatch)
    : Type 0 where
  pub idle : in_transit r ≡ false
  pub distinct : same_party r.custodian p.recipient ≡ false
  pub timed : sending_time now r reported ≡ success p.sent_at

pub check_dispatch-success :
    (env : Env) (entries : List ExternalOffice) (r : ExternalRecord) (u : User) (q : ExternalRoute)
    (p : Dispatch)
    → check_dispatch env entries r u q ≡ success p
    → Dispatched env.now r q.sent_at p
unfolding check_dispatch
check_dispatch-success env entries r u q p h = >>=-returned (require_unfrozen r) _ h (λ _ _ h1.
    >>=-returned (guard (can_act env.dir r u) permission_denied) _ h1 (λ _ may h2.
      >>=-returned
        (guard (not (is_some q.to_office && is_some q.to_external_office)) validation_error) _ h2
        (λ _ _ h3. >>=-returned (of_action q.action) _ h3 (λ action _ h4.
          >>=-returned (recipient_of env entries q.to_office q.to_external_office) _ h4 (λ to _ h5.
            >>=-returned (guard (not (same_party r.custodian to.0)) validation_error) _ h5
              (λ _ other h6. >>=-returned (sending_time env.now r q.sent_at) _ h6 (λ time timed h7.
                >>=-returned (guard (deadline_fits q.due_at time) validation_error) _ h7 (λ _ _ h8.
                  >>=-returned (text_within 5000 q.instructions) _ h8 (λ written _ e.
                    subst (Dispatched env.now r q.sent_at) (success-injective e) (record {
                      idle =
                          can_act-arrived env.dir r u
                            (guard-success (can_act env.dir r u) permission_denied may);
                      distinct = negated (same_party r.custodian to.0) (
                          guard-success (not (same_party r.custodian to.0)) validation_error other);
                      timed = timed;
                    }))))))))))
  where
    negated : (b : Bool) → not b ≡ true → b ≡ false
    negated b e = ground arith

-- A time that is not before the latest movement is not before the latest receipt.
latest_movement-sent_after :
    (steps : List ExternalStep) (work : Option ℕ) (s : ExternalStep)
    → not_before (later_of (latest_movement steps) work) s.sent_at ≡ true
    → sent_after (latest_step steps) s ≡ true
latest_movement-sent_after [] work s h = refl
latest_movement-sent_after (p ∷ steps) work s h =
    let moved =
      not_before-later_of
        (later_of (later_of (some p.sent_at) p.received_at) (latest_movement steps)) work s.sent_at
        h in
    let own =
      not_before-later_of (later_of (some p.sent_at) p.received_at) (latest_movement steps)
        s.sent_at moved.0 in
    (not_before-later_of (some p.sent_at) p.received_at s.sent_at own.0).1

-- Now is not before the latest receipt either.
Chain-sent_after :
    (now : ℕ) (steps : List ExternalStep) (s : ExternalStep)
    → Chain now steps
    → now ≡ s.sent_at
    → sent_after (latest_step steps) s ≡ true
Chain-sent_after now [] s c e = refl
Chain-sent_after now (p ∷ steps) s c e =
    subst (λ t. not_before p.received_at t ≡ true) e c.0.received_past

pub leb_refl : (n : ℕ) → leb n n ≡ true
leb_refl n = ground arith

pub sending_time-success :
    (now : ℕ) (r : ExternalRecord) (reported : Option ℕ) (s : ExternalStep)
    → Chain now r.routing_steps
    → sending_time now r reported ≡ success s.sent_at
    → (leb s.sent_at now ≡ true) × (sent_after (current_step r) s ≡ true)
unfolding sending_time latest_actual
sending_time-success now r reported s c h = elim (Bool-cases (is_external_party r.custodian)) [
  | inl outside ↦
      let timed = actual-success now reported (latest_actual r) (rw outside at h) in
      (timed.0, latest_movement-sent_after r.routing_steps _ s timed.1)
  | inr inside ↦
      >>=-returned (guard (is_none reported) validation_error) _ (rw inside at h) (λ _ _ e. (
        subst (λ t. leb t now ≡ true) (success-injective e) (leb_refl now),
        Chain-sent_after now r.routing_steps s c (success-injective e),
      ))
]
