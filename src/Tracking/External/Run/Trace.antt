-- ===== src/Tracking/External/Run/Trace.antt =====
-- apps/tracking/external_services.py: what a change leaves in the timeline and the audit log.
use udm_doctrack.Base.{
  ℕ, suc, Bool, true, false, Option, List, [], ◌∷◌, ◌++◌, ◌≡◌, refl, ap, subst, if◌then◌else◌, Text,
  success, >>=-returned, success-injective,
}
use udm_doctrack.Accounts.{User}
use udm_doctrack.Tracking.{in_process, is_draft}
use udm_doctrack.Tracking.Numbers.{NumberSequence}
use udm_doctrack.Tracking.Notices.{Notification}
use udm_doctrack.Tracking.Services.{Env, AuditLog}
use udm_doctrack.Tracking.External.{ExternalEvent, ExternalActivity}
use udm_doctrack.Tracking.External.Calls.{
  Ledger, text_within, enter_event, new_activity, new_log, add_event, next_revision,
}
use udm_doctrack.Tracking.External.Moves.{Dispatch, dispatch_doc, dispatch}
use udm_doctrack.Tracking.External.Work.{with_status}

-- What a body may write before its timeline entry.
pub record Same (d d' : Ledger) : Type 0 where
  pub activities : d'.doc.activities ≡ d.doc.activities
  pub audit : d'.audit ≡ d.audit
  pub revision : d'.doc.revision ≡ d.doc.revision
  pub pk : d'.doc.pk ≡ d.doc.pk
  pub managing_office : d'.doc.managing_office ≡ d.doc.managing_office
  pub created_by : d'.doc.created_by ≡ d.doc.created_by

-- The one entry and the one audit row that an account's change leaves, at the given revision.
pub record Traced (now by number : ℕ) (d d' : Ledger) : Type 0 where
  pub entry : ExternalActivity
  pub log : AuditLog
  pub activities : d'.doc.activities ≡ d.doc.activities ++ entry ∷ []
  pub audit : d'.audit ≡ d.audit ++ log ∷ []
  pub actor : entry.actor ≡ by
  pub recorded_at : entry.recorded_at ≡ now
  pub logged : (log.actor ≡ by) × (log.target ≡ d.doc.pk)
  pub revision : d'.doc.revision ≡ number
  pub pk : d'.doc.pk ≡ d.doc.pk
  pub managing_office : d'.doc.managing_office ≡ d.doc.managing_office
  pub created_by : d'.doc.created_by ≡ d.doc.created_by

pub Same-of :
    (d d' : Ledger)
    → d'.doc.activities ≡ d.doc.activities
    → d'.audit ≡ d.audit
    → d'.doc.revision ≡ d.doc.revision
    → d'.doc.pk ≡ d.doc.pk
    → d'.doc.managing_office ≡ d.doc.managing_office
    → d'.doc.created_by ≡ d.doc.created_by
    → Same d d'
Same-of d d' activities audit revision pk office author = record {
  activities = activities;
  audit = audit;
  revision = revision;
  pk = pk;
  managing_office = office;
  created_by = author;
}

pub add_event-Traced :
    (env : Env) (u : User) (event : ExternalEvent) (message detail : Text) (at step : Option ℕ)
    (d d1 d' : Ledger)
    → Same d d1
    → add_event env u event message detail at step d1 ≡ success d'
    → Traced env.now u.pk d.doc.revision d d'
unfolding add_event enter_event
add_event-Traced env u event message detail at step d d1 d' k h =
    >>=-returned (text_within 255 message) _ h (λ short _ e.
      subst (Traced env.now u.pk d.doc.revision d) (success-injective e) (record {
        entry = new_activity env u event short detail at step d1.doc;
        log = new_log u message d1.doc;
        activities =
            ap (λ xs. xs ++ new_activity env u event short detail at step d1.doc ∷ []) k.activities;
        audit = ap (λ xs. xs ++ new_log u message d1.doc ∷ []) k.audit;
        actor = refl;
        recorded_at = refl;
        logged = (refl, k.pk);
        revision = k.revision;
        pk = k.pk;
        managing_office = k.managing_office;
        created_by = k.created_by;
      }))

-- Notices are not part of the trace, and the next revision is one higher.
pub renotified-Traced :
    (now by number : ℕ) (rows : List Notification) (d d' : Ledger)
    → Traced now by number d d'
    → Traced now by number d (record d' { notifications = rows })
renotified-Traced now by number rows d d' k = record {
  entry = k.entry;
  log = k.log;
  activities = k.activities;
  audit = k.audit;
  actor = k.actor;
  recorded_at = k.recorded_at;
  logged = k.logged;
  revision = k.revision;
  pk = k.pk;
  managing_office = k.managing_office;
  created_by = k.created_by;
}

pub next_revision-Traced :
    (now by : ℕ) (d d' : Ledger)
    → Traced now by d.doc.revision d d'
    → Traced now by (suc d.doc.revision) d (next_revision d')
next_revision-Traced now by d d' k = record {
  entry = k.entry;
  log = k.log;
  activities = k.activities;
  audit = k.audit;
  actor = k.actor;
  recorded_at = k.recorded_at;
  logged = k.logged;
  revision = ap suc k.revision;
  pk = k.pk;
  managing_office = k.managing_office;
  created_by = k.created_by;
}

pub dispatch-Same :
    (env : Env) (u : User) (p : Dispatch) (due : Option ℕ) (d : Ledger)
    → Same d (dispatch env u p due d)
unfolding dispatch dispatch_doc
dispatch-Same env u p due d = numbered (is_draft d.doc.status) _
  where
    numbered :
        (t : Bool) (issued : Text × List NumberSequence)
        → Same d (
            if t
            then record d {
              doc = record (dispatch_doc u p due d.doc) { tracking_number = issued.0 };
              sequences = issued.1;
            }
            else record d { doc = dispatch_doc u p due d.doc })
    numbered true issued = Same-of d _ refl refl refl refl refl refl
    numbered false issued = Same-of d _ refl refl refl refl refl refl

pub worked-Same : (t : Bool) (d : Ledger) → Same d (if t then with_status in_process d else d)
worked-Same true d = Same-of d _ refl refl refl refl refl refl
worked-Same false d = Same-of d _ refl refl refl refl refl refl
