-- ===== src/Tracking/External/Run/Confirmed.antt =====
-- apps/tracking/external_services.py: a receipt that is due can be confirmed.
use udm_doctrack.Base.{
  ℕ, suc, Bool, true, false, not, ◌&&◌, Option, none, some, List, [], ◌∷◌, ◌++◌, ◌≡◌, refl, sym,
  ◌∙◌, ap, some-injective, if◌then◌else◌, is_key, ltb, arith, Text, text, strip, text_length,
  Outcome, success, raised, guard, ◌>>=◌, permission_denied, validation_error, Error,
}
use udm_doctrack.Accounts.{User, can_start_work}
use udm_doctrack.Accounts.Capabilities.{
  Directory, external_tracking, receive, capability_allowed, current_actor, active_writer,
  require_capability,
}
use udm_doctrack.Tracking.{Status, is_completed}
use udm_doctrack.Tracking.Services.{Env}
use udm_doctrack.Tracking.External.{
  internal_office, ExternalStep, receipt, ExternalRecord, arrived, latest_step, current_step,
  in_transit, visible_to, awaits_office, can_actor_confirm_receipt, can_confirm_receipt,
}
use udm_doctrack.Tracking.External.Calls.{
  Ledger, text_within, add_event, enter_event, require_unfrozen, with_capability, is_revision,
  mutation, guarded_mutation, next_revision,
}
use udm_doctrack.Tracking.External.Moves.{
  pending_step, receipt_time, receive_step, receive_doc, receive_body, resolved, confirm_receipt,
}
use udm_doctrack.Tracking.External.Run.Chain.{is_pending, Sound}

-- A statement that gives a value lets the block go on.
>>=-success :
    {V W : Type 0} (action : Outcome V) (rest : V → Outcome W) (v : V) (w : W)
    → action ≡ success v
    → rest v ≡ success w
    → (action >>= rest) ≡ success w
>>=-success action rest v w h k = ap (λ o. o >>= rest) h ∙ k

guard-passes : (b : Bool) (why : Error) → b ≡ true → guard b why ≡ success tt
guard-passes true why h = refl
guard-passes false why h = cc

text_within-success :
    (limit : ℕ) (value : Text)
    → ltb limit (text_length (strip value)) ≡ false
    → text_within limit value ≡ success (strip value)
unfolding text_within
text_within-success limit value h = rw h refl

awaits_office-pending :
    (s : ExternalStep) (o : Option ExternalStep) (office : Option ℕ)
    → o ≡ some s
    → awaits_office o office ≡ true
    → arrived s ≡ false
awaits_office-pending s none office e h = cc
awaits_office-pending s (some p) none e h = cc
awaits_office-pending s (some p) (some office) e h =
    ap arrived (sym (some-injective e))
    ∙ pending (is_key (internal_office p.recipient) office) (arrived p) h
  where
    pending : (a b : Bool) → (a && not b) ≡ true → b ≡ false
    pending a b k = ground arith

-- Who may confirm a receipt, is awaited at a step that has not arrived.
can_confirm_receipt-pending :
    (dir : Directory) (r : ExternalRecord) (u : User) (s : ExternalStep)
    → can_confirm_receipt dir r u ≡ true
    → current_step r ≡ some s
    → arrived s ≡ false
unfolding can_confirm_receipt can_actor_confirm_receipt
can_confirm_receipt-pending dir r u s h found = by_actor (current_actor dir none u) h
  where
    by_actor :
        (actor : Option User) → can_actor_confirm_receipt dir r actor ≡ true → arrived s ≡ false
    by_actor none k = cc
    by_actor (some a) k = awaits_office-pending s (current_step r) a.office_id found (
        ladder (not (capability_allowed dir none a external_tracking receive false)) a.is_active
          (can_start_work a) _ k)
      where
        ladder : (p q t k : Bool) → (if p then false else q && (t && k)) ≡ true → k ≡ true
        ladder p q t k e = ground arith

-- A document under way is not completed.
pending-open :
    (now : ℕ) (r : ExternalRecord) (s : ExternalStep)
    → Sound now r
    → current_step r ≡ some s
    → arrived s ≡ false
    → is_completed r.status ≡ false
pending-open now r s c found away =
    moving r.status (sym c.pending ∙ under_way r.routing_steps found)
  where
    under_way :
        (steps : List ExternalStep)
        → latest_step steps ≡ some s
        → elim steps [ [] ↦ false | x ∷ _ ↦ not (arrived x) ] ≡ true
    under_way [] e = cc
    under_way (x ∷ steps) e = ap (λ y. not (arrived y)) (some-injective e) ∙ ap not away

    moving : (status : Status) → is_pending status ≡ true → is_completed status ≡ false
    moving status h = ground arith

abbrev receipt_message : ExternalStep → Text
receipt_message s = text "Receipt confirmed at " ++ s.to_name

-- The ledger that the receipt leaves.
abbrev confirmed : Env → User → Text → ExternalStep → Ledger → Ledger
confirmed env u note s d = resolved env (
    enter_event env u receipt (strip (receipt_message s)) (receipt_message s) [] (some env.now) none
      (record d { doc = receive_doc env.now u false env.now (strip note) s d.doc }))

receive_body-success :
    (env : Env) (u : User) (note : Text) (s : ExternalStep) (d : Ledger)
    → is_completed d.doc.status ≡ false
    → current_step d.doc ≡ some s
    → arrived s ≡ false
    → can_confirm_receipt env.dir d.doc u ≡ true
    → ltb 2000 (text_length (strip note)) ≡ false
    → ltb 255 (text_length (strip (receipt_message s))) ≡ false
    → receive_body env false none note u d ≡ success (confirmed env u note s d)
unfolding receive_body receipt_time add_event
receive_body-success env u note s d going found away may short fits =
    >>=-success (require_unfrozen d.doc) _ tt _ (guard-passes _ validation_error (ap not going)) (
      >>=-success (pending_step (current_step d.doc)) _ s _
        (ap pending_step found ∙ waiting (arrived s) away)
        (>>=-success _ _ env.now _
          (>>=-success (guard (can_confirm_receipt env.dir d.doc u) permission_denied) _ tt _
            (guard-passes _ permission_denied may) refl)
          (>>=-success (text_within 2000 note) _ (strip note) _
            (text_within-success 2000 note short)
            (>>=-success _ _
              (enter_event env u receipt (strip (receipt_message s)) (receipt_message s) []
                (some env.now) none
                (record d { doc = receive_doc env.now u false env.now (strip note) s d.doc }))
              _
              (>>=-success (text_within 255 (receipt_message s)) _ (strip (receipt_message s)) _
                (text_within-success 255 (receipt_message s) fits) refl)
              refl))))
  where
    waiting :
        (t : Bool) → t ≡ false → (if t then raised validation_error else success s) ≡ success s
    waiting true e = cc
    waiting false e = refl

-- An awaited receipt can be confirmed: on a sound ledger, for a writer that sees the record, states
-- its revision, holds the capability and may confirm the receipt, and with a note and a recipient's
-- name within their limits, `confirm_receipt` returns; the recipient of the latest step is then the
-- custodian, the status is received and nothing is under way any more, one revision later.
pub confirm_receipt-returns :
    (env : Env) (expected : Option ℕ) (u w : User) (note : Text) (s : ExternalStep) (d : Ledger)
    → Sound env.now d.doc
    → active_writer env.dir u ≡ success w
    → active_writer env.dir w ≡ success w
    → visible_to env.dir d.doc w ≡ true
    → is_revision expected d.doc.revision ≡ true
    → capability_allowed env.dir none w external_tracking receive true ≡ true
    → can_confirm_receipt env.dir d.doc w ≡ true
    → current_step d.doc ≡ some s
    → ltb 2000 (text_length (strip note)) ≡ false
    → ltb 255 (text_length (strip (text "Receipt confirmed at " ++ s.to_name))) ≡ false
    → (d' : Ledger) × (confirm_receipt env expected u note d ≡ success d')
      × (d'.doc.custodian ≡ s.recipient)
      × (d'.doc.status ≡ Status.received)
      × (in_transit d'.doc ≡ false)
      × (d'.doc.revision ≡ suc d.doc.revision)
unfolding confirm_receipt guarded_mutation mutation with_capability require_capability enter_event
    receive_doc
confirm_receipt-returns env expected u w note s d sound row again seen same capable may found short
      fits =
    let away = can_confirm_receipt-pending env.dir d.doc w s may found in
    let going = pending-open env.now d.doc s sound found away in
    (
      next_revision (confirmed env w note s d),
      >>=-success (active_writer env.dir u) _ w _ row (
          >>=-success _ _ tt _ (guard-passes _ permission_denied seen) (
            >>=-success _ _ tt _ (guard-passes _ validation_error same) (
              >>=-success _ _ (confirmed env w note s d) _
                (>>=-success (active_writer env.dir w) _ w _ again (
                  >>=-success _ _ tt _ (guard-passes _ permission_denied capable)
                    (receive_body-success env w note s d going found away may short fits)))
                refl))),
      refl,
      refl,
      arrived_latest d.doc.routing_steps,
      refl,
    )
  where
    stamped : List ExternalStep → List ExternalStep
    stamped steps = elim steps [
      | [] ↦ []
      | _ ∷ rest ↦ receive_step env.now w false env.now (strip note) s ∷ rest
    ]

    arrived_latest :
        (steps : List ExternalStep)
        → elim (stamped steps) [ [] ↦ false | x ∷ _ ↦ not (arrived x) ] ≡ false
    arrived_latest [] = refl
    arrived_latest (p ∷ ps) = refl
