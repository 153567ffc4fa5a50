-- ===== src/Tracking/External/Run/Ledgers.antt =====
-- apps/tracking/external_services.py: the custody ledger before and after any sequence of service
-- calls.
use udm_doctrack.Base.{
  ℕ, ◌≤◌, Bool, true, false, not, ◌&&◌, Option, none, some, List, [], ◌∷◌, ◌≡◌, refl, sym, ◌∙◌,
  subst, if◌then◌else◌, is_some, arith, Text, text, Outcome, success, raised, guard, guard-success,
  >>=-returned, success-injective, permission_denied, validation_error,
}
use udm_doctrack.Accounts.{User}
use udm_doctrack.Tracking.{
  Status, in_process, completed_pending_upload, is_draft, is_pending_upload,
}
use udm_doctrack.Tracking.Services.{Env}
use udm_doctrack.Tracking.External.{
  is_external_party, ExternalRecord, remark, external_work, finished, reopened, annotation,
  in_transit, responsible_office, can_act,
}
use udm_doctrack.Tracking.External.Calls.{
  Ledger, require_manager, text_within, actual, latest_actual, add_event, require_unfrozen,
}
use udm_doctrack.Tracking.External.Work.{
  with_status, not_blank, work_started, remark_body, work_boundary, external_work_body,
  complete_doc, complete_body, reopen_doc, reopen_body, annotate_body,
}
use udm_doctrack.Tracking.External.Run.{
  Call, route_call, confirm_call, receipt_call, remark_call, annotate_call, reopen_call, work_call,
  complete_call, correct_call, Turn, perform, or_before, run,
}
use udm_doctrack.Tracking.External.Run.Guarded.{body_of, perform-Authorised}
use udm_doctrack.Tracking.External.Run.Chain.{is_pending, Sound, Sound-later}
use udm_doctrack.Tracking.External.Run.Times.{add_event-Sound, can_act-arrived}
use udm_doctrack.Tracking.External.Run.Sent.{route_body-Sound}
use udm_doctrack.Tracking.External.Run.Received.{receive_body-Sound}
use udm_doctrack.Tracking.External.Run.Corrected.{correct_body-Sound}

-- A status for a document that has been sent and has arrived, other than the two first ones.
restated-Sound :
    (now : ℕ) (r : ExternalRecord) (status : Status) (at : Option ℕ)
    → in_transit r ≡ false
    → is_draft r.status ≡ false
    → is_pending status ≡ false
    → is_draft status ≡ false
    → Sound now r
    → Sound now (record r { status = status; completed_at = at })
restated-Sound now r status at idle sent moving old c = record {
  chain = c.chain;
  held = c.held;
  pending = idle ∙ sym moving;
  unsent = c.unsent ∙ (sent ∙ sym old);
}

negated : (b : Bool) → not b ≡ true → b ≡ false
negated b h = ground arith

conj : (a b : Bool) → (a && b) ≡ true → (a ≡ true) × (b ≡ true)
conj a b h = ground arith

remark_body-Sound :
    (env : Env) (message : Text) (u : User) (d d' : Ledger)
    → remark_body env message u d ≡ success d'
    → Sound env.now d.doc
    → Sound env.now d'.doc
unfolding remark_body
remark_body-Sound env message u d d' h c = >>=-returned (require_unfrozen d.doc) _ h (λ _ _ h1.
    >>=-returned (guard (can_act env.dir d.doc u) permission_denied) _ h1 (λ _ may h2.
      >>=-returned (text_within 2000 message) _ h2 (λ note _ h3.
        >>=-returned (not_blank note) _ h3 (λ _ _ h4.
          add_event-Sound env.now env u remark (text "Remark added") note
            (if is_external_party d.doc.custodian then none else some env.now) none
            (if work_started d.doc then with_status in_process d else d) d' h4
            (by_work (work_started d.doc) refl (
              can_act-arrived env.dir d.doc u
                (guard-success (can_act env.dir d.doc u) permission_denied may)))))))
  where
    by_work :
        (t : Bool)
        → work_started d.doc ≡ t
        → in_transit d.doc ≡ false
        → Sound env.now (if t then with_status in_process d else d).doc
    by_work false e idle = c
    by_work true e idle =
        restated-Sound env.now d.doc in_process d.doc.completed_at idle
          (negated (is_draft d.doc.status) (conj (not (is_draft d.doc.status)) _ e).0) refl refl c

external_work_body-Sound :
    (env : Env) (at : Option ℕ) (message : Text) (u : User) (d d' : Ledger)
    → external_work_body env at message u d ≡ success d'
    → Sound env.now d.doc
    → Sound env.now d'.doc
unfolding external_work_body
external_work_body-Sound env at message u d d' h c =
    >>=-returned (require_unfrozen d.doc) _ h (λ _ _ h1.
      >>=-returned (require_manager u (responsible_office d.doc)) _ h1 (λ _ _ h2.
        >>=-returned (guard (not (is_draft d.doc.status)) validation_error) _ h2 (λ _ sent h3.
          >>=-returned
            (guard (is_external_party d.doc.custodian && can_act env.dir d.doc u) validation_error)
            _ h3
            (λ _ may h4. >>=-returned (actual env.now at (work_boundary d.doc)) _ h4 (λ time _ h5.
              >>=-returned (text_within 2000 message) _ h5 (λ note _ h6.
                let outside = conj (is_external_party d.doc.custodian) (can_act env.dir d.doc u) (
                  guard-success (is_external_party d.doc.custodian && can_act env.dir d.doc u)
                    validation_error may) in
                add_event-Sound env.now env u external_work (text "External work recorded") note
                  (some time) none (with_status in_process d) d' h6
                  (restated-Sound env.now d.doc in_process d.doc.completed_at
                    (can_act-arrived env.dir d.doc u outside.1)
                    (negated (is_draft d.doc.status)
                      (guard-success (not (is_draft d.doc.status)) validation_error sent))
                    refl refl c)))))))

complete_body-Sound :
    (env : Env) (note : Text) (at : Option ℕ) (u : User) (d d' : Ledger)
    → complete_body env note at u d ≡ success d'
    → Sound env.now d.doc
    → Sound env.now d'.doc
unfolding complete_body
complete_body-Sound env note at u d d' h c = >>=-returned (require_unfrozen d.doc) _ h (λ _ _ h1.
    >>=-returned (guard (not (is_draft d.doc.status) && can_act env.dir d.doc u) permission_denied)
      _ h1
      (λ _ may h2.
        >>=-returned
          (guard (not (is_some at && not (is_external_party d.doc.custodian))) validation_error) _
          h2
          (λ _ _ h3. >>=-returned (actual env.now at (latest_actual d.doc)) _ h3 (λ time _ h4.
            >>=-returned (text_within 2000 note) _ h4 (λ written _ h5.
              let done = record d { doc = complete_doc time d.doc } in
              let passed = conj (not (is_draft d.doc.status)) (can_act env.dir d.doc u) (
                guard-success (not (is_draft d.doc.status) && can_act env.dir d.doc u)
                  permission_denied may) in
              >>=-returned
                (add_event env u finished (text "Completed, pending filing") written (some time)
                  none done)
                _ h5
                (λ d1 entered e.
                  subst (λ (x : Ledger). Sound env.now x.doc) (success-injective e)
                    (add_event-Sound env.now env u finished (text "Completed, pending filing")
                      written (some time) none done d1 entered
                      (restated-Sound env.now d.doc completed_pending_upload (some time)
                        (can_act-arrived env.dir d.doc u passed.1)
                        (negated (is_draft d.doc.status) passed.0) refl refl c))))))))

-- A finished document is not under way, and not a draft.
finished-idle :
    (now : ℕ) (r : ExternalRecord)
    → is_pending_upload r.status ≡ true
    → Sound now r
    → (in_transit r ≡ false) × (is_draft r.status ≡ false)
finished-idle now r h c = let both = apart r.status h in (c.pending ∙ both.0, both.1)
  where
    apart :
        (s : Status) → is_pending_upload s ≡ true → (is_pending s ≡ false) × (is_draft s ≡ false)
    apart s h = ground arith

reopen_body-Sound :
    (env : Env) (note : Text) (u : User) (d d' : Ledger)
    → reopen_body env note u d ≡ success d'
    → Sound env.now d.doc
    → Sound env.now d'.doc
unfolding reopen_body
reopen_body-Sound env note u d d' h c =
    >>=-returned (require_manager u (responsible_office d.doc)) _ h (λ _ _ h1.
      >>=-returned (guard (is_pending_upload d.doc.status) validation_error) _ h1 (λ _ done h2.
        >>=-returned (text_within 2000 note) _ h2 (λ written _ h3.
          >>=-returned
            (add_event env u reopened (text "Reopened for continued work") written (some env.now)
              none (record d { doc = reopen_doc d.doc }))
            _ h3
            (λ d1 entered e.
              let idle =
                finished-idle env.now d.doc
                  (guard-success (is_pending_upload d.doc.status) validation_error done) c in
              subst (λ (x : Ledger). Sound env.now x.doc) (success-injective e)
                (add_event-Sound env.now env u reopened (text "Reopened for continued work") written
                  (some env.now) none (record d { doc = reopen_doc d.doc }) d1 entered
                  (restated-Sound env.now d.doc Status.received none idle.0 idle.1 refl refl c))))))

annotate_body-Sound :
    (env : Env) (message : Text) (u : User) (d d' : Ledger)
    → annotate_body env message u d ≡ success d'
    → Sound env.now d.doc
    → Sound env.now d'.doc
unfolding annotate_body
annotate_body-Sound env message u d d' h c =
    >>=-returned (require_manager u (responsible_office d.doc)) _ h (λ _ _ h1.
      >>=-returned (text_within 2000 message) _ h1 (λ note _ h2.
        >>=-returned (not_blank note) _ h2 (λ _ _ h3.
          add_event-Sound env.now env u annotation (text "Annotation added") note none none d d' h3
            c)))

body_of-Sound :
    (t : Turn) (call : Call) (u : User) (d d' : Ledger)
    → body_of t call u d ≡ success d'
    → Sound t.env.now d.doc
    → Sound t.env.now d'.doc
body_of-Sound t (route_call q) u d d' h c = route_body-Sound t.env t.entries q u d d' h c
body_of-Sound t (confirm_call note) u d d' h c = receive_body-Sound t.env false none note u d d' h c
body_of-Sound t (receipt_call at note) u d d' h c = receive_body-Sound t.env true at note u d d' h c
body_of-Sound t (remark_call message) u d d' h c = remark_body-Sound t.env message u d d' h c
body_of-Sound t (annotate_call message) u d d' h c = annotate_body-Sound t.env message u d d' h c
body_of-Sound t (reopen_call note) u d d' h c = reopen_body-Sound t.env note u d d' h c
body_of-Sound t (work_call at message) u d d' h c =
    external_work_body-Sound t.env at message u d d' h c
body_of-Sound t (complete_call note at) u d d' h c = complete_body-Sound t.env note at u d d' h c
body_of-Sound t (correct_call step reason ch) u d d' h c =
    correct_body-Sound t.env t.entries step reason ch u d d' h c

perform-Sound :
    (t : Turn) (call : Call) (d d' : Ledger)
    → perform t call d ≡ success d'
    → Sound t.env.now d.doc
    → Sound t.env.now d'.doc
perform-Sound t call d d' h c =
    let done = perform-Authorised t call d d' h in
    let left = body_of-Sound t call done.actor d done.left done.returned c in
    subst (λ (x : Ledger). Sound t.env.now x.doc) (sym done.next)
      (record {
        chain = left.chain;
        held = left.held;
        pending = left.pending;
        unsent = left.unsent;
      })

or_before-Sound :
    (now : ℕ) (d : Ledger) (result : Outcome Ledger)
    → ((d' : Ledger) → result ≡ success d' → Sound now d'.doc)
    → Sound now d.doc
    → Sound now (or_before d result).doc
or_before-Sound now d (success d') h c = h d' refl
or_before-Sound now d (raised e) h c = c

-- The turns are taken in the order of their clocks, from a given time on.
abbrev pub Ticking : ℕ → List (Turn × Call) → Type 0
Ticking now [] = Unit {0}
Ticking now (t ∷ turns) = (now ≤ t.0.env.now) × Ticking t.0.env.now turns

abbrev pub last_time : ℕ → List (Turn × Call) → ℕ
last_time now [] = now
last_time now (t ∷ turns) = last_time t.0.env.now turns

-- However services are called on an external record, by any accounts, with any of them refused and
-- with a clock that does not go back: a sound ledger stays sound. Its steps stay numbered from one
-- without a gap; each but the first is sent by the recipient of the step before it, which has
-- arrived; no step goes to its own sender, none is received before it was sent or sent before the
-- receipt of the one before, and none lies in the future, corrections included; the custodian is
-- the recipient of the latest step once it has arrived and its sender until then; the status awaits
-- a receipt exactly while the latest step is under way, and is draft exactly before the first.
pub run-Sound :
    (now : ℕ) (turns : List (Turn × Call)) (d : Ledger)
    → Ticking now turns
    → Sound now d.doc
    → Sound (last_time now turns) (run turns d).doc
unfolding run
run-Sound now [] d ticks c = c
run-Sound now (t ∷ turns) d ticks c =
    let before = Sound-later now t.0.env.now d.doc ticks.0 c in
    let after =
      or_before-Sound t.0.env.now d (perform t.0 t.1 d)
        (λ d' h. perform-Sound t.0 t.1 d d' h before) before in
    run-Sound t.0.env.now turns (or_before d (perform t.0 t.1 d)) ticks.1 after
