-- ===== src/Tracking/Services/Batches/Got.antt =====
-- apps/tracking/services.py: the current batch after `confirm_receipt`.
use udm_doctrack.Base.{
  ℕ, suc, Bool, true, not, ◌&&◌, ◌||◌, Option, none, some, List, [], ◌∷◌, ◌≡◌, refl, ◌∙◌, ap, sym,
  subst, keep, exists, first, length, length-map, Text, arith, Bool-cases, inl, inr, success, guard,
  >>=-returned, success-injective, validation_error,
}
use udm_doctrack.Accounts.{User, active_user}
use udm_doctrack.Accounts.Capabilities.{receive}
use udm_doctrack.Tracking.{
  RoutingStep, TrackingRecord, in_batch, is_pending, is_received, current_steps, addressed_to,
  has_custody, is_draft, is_completed, pending_step_for_office, pending_receipt_offices,
  touch_movement,
}
use udm_doctrack.Tracking.Services.{Env, Desk, add_activity, refuse_viewers}
use udm_doctrack.Tracking.Services.Route.{or_invalid}
use udm_doctrack.Tracking.Services.Receive.{
  stamp_step, stamp_first, office_of, check_receipt, receive_doc, receive_with, receive_body,
  confirm_receipt,
}
use udm_doctrack.Tracking.Services.Authority.{guarded-success}
use udm_doctrack.Tracking.Services.History.{recalculate_status-frame}

-- Stamping changes no step's batch, so it may be done within the batch.
keep-stamp_first :
    (p t : RoutingStep → Bool) (f : RoutingStep → RoutingStep) (steps : List RoutingStep)
    → ((s : RoutingStep) → p (f s) ≡ p s)
    → keep p (stamp_first (λ s. p s && t s) f steps) ≡ stamp_first t f (keep p steps)
unfolding stamp_first
keep-stamp_first p t f [] h = refl
keep-stamp_first p t f (s ∷ steps) h = elim (Bool-cases (p s)) [
  | inr out ↦ rw out (rw out (keep-stamp_first p t f steps h))
  | inl kept ↦ elim (Bool-cases (t s)) [
    | inl here ↦ rw (kept, here) (rw (h s, kept) refl)
    | inr later ↦ rw (kept, later) (rw kept (ap (λ l. s ∷ l) (keep-stamp_first p t f steps h)))
  ]
]

-- The step for the office, before and after the stamp.
wanted : ℕ → RoutingStep → Bool
wanted office s = addressed_to office s && is_pending s

stamped_custody :
    (office now user : ℕ) (note : Text) (steps : List RoutingStep) (step : RoutingStep)
    → first (wanted office) steps ≡ some step
    → exists
        (λ s. addressed_to office s && is_received s)
        (stamp_first (wanted office) (stamp_step now user note) steps)
      ≡ true
unfolding stamp_first wanted
stamped_custody office now user note [] step h = cc
stamped_custody office now user note (s ∷ steps) step h = elim (Bool-cases (wanted office s)) [
  | inl here ↦ rw here (stamped_here here)
  | inr later ↦ rw later (
      or_true (addressed_to office s && is_received s)
        (stamped_custody office now user note steps step (rw later at h)))
]
  where
    stamped_here :
        wanted office s ≡ true
        → ((addressed_to office s && true)
            || exists (λ (x : RoutingStep). addressed_to office x && is_received x) steps)
          ≡ true
    stamped_here here = ground arith

    or_true : (b : Bool) {c : Bool} → c ≡ true → (b || c) ≡ true
    or_true b h = ground arith

stamped_fewer :
    (office now user : ℕ) (note : Text) (steps : List RoutingStep) (step : RoutingStep)
    → first (wanted office) steps ≡ some step
    → suc (length (keep is_pending (stamp_first (wanted office) (stamp_step now user note) steps)))
      ≡ length (keep is_pending steps)
unfolding stamp_first wanted
stamped_fewer office now user note [] step h = cc
stamped_fewer office now user note (s ∷ steps) step h = elim (Bool-cases (wanted office s)) [
  | inl here ↦ rw (here, and_right (addressed_to office s) (is_pending s) here)
  | inr later ↦
      let rest = stamped_fewer office now user note steps step (rw later at h) in
      elim (Bool-cases (is_pending s)) [
        | inl waits ↦ rw (later, waits, rest)
        | inr got ↦ rw (later, got) rest
      ]
]
  where
    and_right : (a b : Bool) → (a && b) ≡ true → b ≡ true
    and_right a b h = ground arith

-- The current steps after a receipt.
received_batch :
    (env : Env) (u : User) (office : ℕ) (note : Text) (r : TrackingRecord)
    → current_steps (receive_doc env u office note r)
      ≡ stamp_first (wanted office) (stamp_step env.now u.pk note) (current_steps r)
unfolding receive_doc add_activity touch_movement wanted
received_batch env u office note r =
    ap current_steps (recalculate_status-frame _)
    ∙ keep-stamp_first (in_batch r.current_batch) (wanted office) (stamp_step env.now u.pk note)
        r.routing_steps (λ s. refl)

record Checked (r : TrackingRecord) (u : User) (at : ℕ × RoutingStep) : Type 0 where
  office : u.office_id ≡ some at.0
  step : pending_step_for_office r (some at.0) ≡ some at.1

office_of-success :
    (u : User) {office : ℕ} → office_of u ≡ success office → u.office_id ≡ some office
office_of-success u h = ground arith

or_invalid-success :
    (o : Option RoutingStep) {a : RoutingStep} → or_invalid o ≡ success a → o ≡ some a
or_invalid-success none h = cc
or_invalid-success (some x) h = ap some (success-injective h)

check_receipt-Checked :
    (r : TrackingRecord) (u : User) (at : ℕ × RoutingStep)
    → check_receipt r u ≡ success at
    → Checked r u at
unfolding check_receipt
check_receipt-Checked r u at h = >>=-returned (refuse_viewers u) _ h (λ _ _ h1.
    >>=-returned (office_of u) _ h1 (λ office here h2.
      >>=-returned (guard (not (is_completed r.status || is_draft r.status)) validation_error) _ h2
        (λ _ _ h3.
          >>=-returned (or_invalid (pending_step_for_office r (some office))) _ h3 (λ step waits e.
            subst (Checked r u) (success-injective e)
              (record { office = office_of-success u here; step = or_invalid-success _ waits })))))

-- A step that was found is one that is waited for.
waited :
    (office : ℕ) (steps : List RoutingStep) (step : RoutingStep)
    → first (λ s. addressed_to office s && is_pending s) steps ≡ some step
    → exists (λ s. addressed_to office s && is_pending s) steps ≡ true
waited office [] step h = cc
waited office (s ∷ steps) step h = elim (Bool-cases (addressed_to office s && is_pending s)) [
  | inl here ↦ rw here refl
  | inr later ↦ rw later (waited office steps step (rw later at h))
]

-- The office that received has the document, and one step fewer is pending.
receive_doc-custody :
    (env : Env) (u : User) (office : ℕ) (note : Text) (r : TrackingRecord) (step : RoutingStep)
    → pending_step_for_office r (some office) ≡ some step
    → let r' = receive_doc env u office note r in
      (has_custody r' (some office) ≡ true)
      × (suc (length (pending_receipt_offices r')) ≡ length (pending_receipt_offices r))
unfolding has_custody pending_receipt_offices pending_step_for_office wanted
receive_doc-custody env u office note r step h =
    let cur = received_batch env u office note r in
    (
      ap (exists (λ s. addressed_to office s && is_received s)) cur
          ∙ stamped_custody office env.now u.pk note (current_steps r) step h,
      ap suc (
            length-map (λ (s : RoutingStep). s.to_office) _
            ∙ ap (λ l. length (keep is_pending l)) cur)
          ∙ stamped_fewer office env.now u.pk note (current_steps r) step h
          ∙ sym (length-map (λ (s : RoutingStep). s.to_office) (keep is_pending (current_steps r))),
    )

-- When a receipt call returns, it acted for the account's current row; the office of that row had a
-- step of the current batch that was addressed to it and not received, now has custody of the
-- document, and one office fewer is waited for.
pub confirm_receipt-custody :
    (env : Env) (d : Desk) (u : User) (note : Text) (d' : Desk)
    → confirm_receipt env d u note ≡ success d'
    → (actor : User) × (office : ℕ) × (active_user env.dir.users u.pk ≡ some actor)
      × (actor.office_id ≡ some office)
      × (exists (λ s. addressed_to office s && is_pending s) (current_steps d.doc) ≡ true)
      × (has_custody d'.doc (some office) ≡ true)
      × (suc (length (pending_receipt_offices d'.doc)) ≡ length (pending_receipt_offices d.doc))
unfolding confirm_receipt receive_body receive_with pending_step_for_office
confirm_receipt-custody env d u note d' h =
    let done = guarded-success env receive (receive_body env d note) u h in
    >>=-returned (check_receipt d.doc done.actor) _ done.returned (λ at passed e.
      let checks = check_receipt-Checked d.doc done.actor at passed in
      let custody = receive_doc-custody env done.actor at.0 note d.doc at.1 checks.step in
      let custody' =
        subst
          (λ (x : Desk).
            (has_custody x.doc (some at.0) ≡ true)
            × (suc (length (pending_receipt_offices x.doc))
                ≡ length (pending_receipt_offices d.doc)))
          (success-injective e) custody in
      (
        done.actor,
        at.0,
        done.current,
        checks.office,
        waited at.0 (current_steps d.doc) at.1 checks.step,
        custody'.0,
        custody'.1,
      ))
