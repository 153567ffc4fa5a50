-- ===== src/Tracking/External/Run/Sent.antt =====
-- apps/tracking/external_services.py: the ledger after a dispatch.
use udm_doctrack.Base.{
  ℕ, suc, Bool, true, false, not, Option, none, some, List, [], ◌∷◌, ◌++◌, ◌≡◌, refl, sym, ◌∙◌, ap,
  subst, length, leb, if◌then◌else◌, Text, text, success, >>=-returned, success-injective,
}
use udm_doctrack.Accounts.{User}
use udm_doctrack.Tracking.{is_draft}
use udm_doctrack.Tracking.Numbers.{NumberSequence}
use udm_doctrack.Tracking.Services.{Env}
use udm_doctrack.Tracking.External.{
  ExternalOffice, Party, same_party, ExternalStep, ExternalRecord, arrived, latest_step, sent,
}
use udm_doctrack.Tracking.External.Calls.{Ledger, not_before, add_event}
use udm_doctrack.Tracking.External.Moves.{
  ExternalRoute, Dispatch, check_dispatch, new_step, dispatch_doc, dispatch, route_body,
}
use udm_doctrack.Tracking.External.Correct.{sent_after}
use udm_doctrack.Tracking.External.Run.Chain.{After, Fits, Chain, Held, Sound}
use udm_doctrack.Tracking.External.Run.Times.{
  add_event-Sound, Dispatched, check_dispatch-success, sending_time-success,
}

-- A step sent by the holder, on top of steps that have all arrived.
new-Fits :
    (now : ℕ) (steps : List ExternalStep) (holder : Party) (s : ExternalStep)
    → Chain now steps
    → Held holder steps
    → elim steps [ [] ↦ false | p ∷ _ ↦ not (arrived p) ] ≡ false
    → s.sequence ≡ elim (latest_step steps) [ none ↦ 1 | some p ↦ suc p.sequence ]
    → s.sender ≡ holder
    → s.received_at ≡ none
    → same_party s.sender s.recipient ≡ false
    → (leb s.sent_at now ≡ true) × (sent_after (latest_step steps) s ≡ true)
    → Fits now s steps
new-Fits now steps holder s c held idle numbered sender pending distinct timed = record {
  numbered = count steps c numbered;
  distinct = distinct;
  sent_past = timed.0;
  received_past = subst (λ t. not_before t now ≡ true) (sym pending) refl;
  in_order = unreceived s.received_at pending;
  after = from_holder steps held idle timed.1;
}
  where
    unreceived :
        (t : Option ℕ) → t ≡ none → elim t [ none ↦ true | some at ↦ leb s.sent_at at ] ≡ true
    unreceived none e = refl
    unreceived (some at) e = cc

    count :
        (ps : List ExternalStep)
        → Chain now ps
        → s.sequence ≡ elim (latest_step ps) [ none ↦ 1 | some p ↦ suc p.sequence ]
        → s.sequence ≡ suc (length ps)
    count [] k e = e
    count (p ∷ ps) k e = e ∙ ap suc k.0.numbered

    here :
        (p : ExternalStep) (t : Bool)
        → holder ≡ (if t then p.recipient else p.sender)
        → not t ≡ false
        → (holder ≡ p.recipient) × (t ≡ true)
    here p true e k = (e, refl)
    here p false e k = cc

    from_holder :
        (ps : List ExternalStep)
        → Held holder ps
        → elim ps [ [] ↦ false | p ∷ _ ↦ not (arrived p) ] ≡ false
        → sent_after (latest_step ps) s ≡ true
        → After s ps
    from_holder [] e k t = tt
    from_holder (p ∷ ps) e k t =
        let arrival = here p (arrived p) e k in (sender ∙ arrival.0, (arrival.1, t))

dispatch_doc-Sound :
    (now : ℕ) (u : User) (q : Option ℕ) (due : Option ℕ) (p : Dispatch) (r : ExternalRecord)
    → Dispatched now r q p
    → Sound now r
    → Sound now (dispatch_doc u p due r)
unfolding dispatch_doc new_step
dispatch_doc-Sound now u q due p r checked c = record {
  chain = (
    new-Fits now r.routing_steps r.custodian (new_step u p due r) c.chain c.held checked.idle refl
        refl refl checked.distinct
        (sending_time-success now r q (new_step u p due r) c.chain checked.timed),
    c.chain,
  );
  held = refl;
  pending = refl;
  unsent = refl;
}

dispatch-Sound :
    (now : ℕ) (env : Env) (u : User) (q due : Option ℕ) (p : Dispatch) (d : Ledger)
    → Dispatched now d.doc q p
    → Sound now d.doc
    → Sound now (dispatch env u p due d).doc
unfolding dispatch
dispatch-Sound now env u q due p d checked c = numbered (is_draft d.doc.status) _
  where
    sound : Sound now (dispatch_doc u p due d.doc)
    sound = dispatch_doc-Sound now u q due p d.doc checked c

    numbered :
        (t : Bool) (issued : Text × List NumberSequence)
        → Sound now
            (if t
              then record d {
                doc = record (dispatch_doc u p due d.doc) { tracking_number = issued.0 };
                sequences = issued.1;
              }
              else record d { doc = dispatch_doc u p due d.doc }).doc
    numbered true issued = record {
      chain = sound.chain;
      held = sound.held;
      pending = sound.pending;
      unsent = sound.unsent;
    }
    numbered false issued = sound

pub route_body-Sound :
    (env : Env) (entries : List ExternalOffice) (q : ExternalRoute) (u : User) (d d' : Ledger)
    → route_body env entries q u d ≡ success d'
    → Sound env.now d.doc
    → Sound env.now d'.doc
unfolding route_body
route_body-Sound env entries q u d d' h c =
    >>=-returned (check_dispatch env entries d.doc u q) _ h (λ p checked h1.
      >>=-returned
        (add_event env u sent (text "Routed to " ++ p.to_name) [] (some p.sent_at) none
          (dispatch env u p q.due_at d))
        _ h1
        (λ d1 entered e.
          subst (λ (x : Ledger). Sound env.now x.doc) (success-injective e)
            (add_event-Sound env.now env u sent (text "Routed to " ++ p.to_name) [] (some p.sent_at)
              none (dispatch env u p q.due_at d) d1 entered
              (dispatch-Sound env.now env u q.sent_at q.due_at p d
                (check_dispatch-success env entries d.doc u q p checked) c))))
