-- ===== src/Documents/Examples.antt =====
-- A document of the registry is removed by its administrator, and restored a week later.
use udm_doctrack.Base.{
  ℕ, ◌+◌, ◌*◌, not, ◌&&◌, ◌||◌, leb, strip, true, false, none, some, [], ◌∷◌, ◌≡◌, refl, text,
  success,
}
use udm_doctrack.Accounts.{
  User, admin, active_user, can_start_work, is_system_admin, is_records_staff, is_viewer,
  is_office_admin,
}
use udm_doctrack.Accounts.Capabilities.{
  active_writer, capability_allowed, decide_with, role_default, dependencies, request_policy,
  current_actor,
}
use udm_doctrack.Tracking.Sample.{account}
use udm_doctrack.Documents.{
  Document, ovpa, done, office_only, recovery, visible_from, visible_to_actor, visible_to,
  can_user_review_deletion, deletion_purge_at, deletion_recovery_open, retention_is_due,
}
use udm_doctrack.Documents.Review.{
  Decision, Shelf, ReviewRequest, Desk, deletion_review_state, is_delete, is_restore, dates_fit,
  reviewed, review_body, review_document_deletion, is_purgeable, or_before, run,
}
use udm_doctrack.Documents.Lifecycle.{Agrees, run-Agrees, review-is_purgeable}

abbrev head : User
head = record (account 4 10) { role = admin }

abbrev day : ℕ
day = 86400 * 1000000

abbrev memo : Document
memo = record {
  pk = 3;
  title = text "Memo";
  collection = ovpa;
  origin = none;
  external_origin = none;
  office = 10;
  access_level = office_only;
  retention_until = some 20;
  ocr_status = done;
  uploaded_by = none;
  is_active = true;
  deleted_at = none;
  purge_attempted_at = none;
  updated_at = 5;
  grants = [];
}

abbrev shelf : Shelf
shelf = record { document = memo; reviews = []; audit = [] }

abbrev on : ℕ → Desk
on n = record { now = n * day; today = n; dir = record { users = head ∷ []; restrictions = [] } }

abbrev removal : ReviewRequest
removal = record {
  decision = Decision.delete;
  reason = text "Expired";
  expected_state = deletion_review_state memo;
  next_review_date = none;
  confirmed = true;
}

abbrev removed : Shelf
removed = or_before shelf (review_document_deletion (on 21) head removal shelf)

abbrev restoration : ReviewRequest
restoration = record {
  decision = Decision.restore;
  reason = text "Still needed";
  expected_state = deletion_review_state removed.document;
  next_review_date = some 100;
  confirmed = false;
}

abbrev restored : Shelf
restored = or_before removed (review_document_deletion (on 28) head restoration removed)

restores : review_document_deletion (on 28) head restoration removed ≡ success restored
unfolding review_document_deletion review_body active_writer is_records_staff active_user
    can_start_work is_viewer is_office_admin is_system_admin can_user_review_deletion
    capability_allowed decide_with role_default dependencies request_policy current_actor
    visible_from visible_to_actor visible_to deletion_recovery_open deletion_purge_at
    retention_is_due dates_fit reviewed strip
restores = refl

review-is_purgeable_example :
    ((not (is_restore restoration.decision) || not (is_purgeable (28 * day) removed.document))
      ≡ true)
    × (is_purgeable (90 * day) restored.document
        ≡ (is_delete restoration.decision && leb (28 * day + recovery) (90 * day)))
review-is_purgeable_example =
    review-is_purgeable (on 28) head restoration removed restored (90 * day) restores

run-Agrees_example : Agrees (
    run
      (record { desk = on 21; user = head; request = removal }
        ∷ record { desk = on 28; user = head; request = restoration }
        ∷ [])
      shelf)
run-Agrees_example =
    run-Agrees
      (record { desk = on 21; user = head; request = removal }
        ∷ record { desk = on 28; user = head; request = restoration }
        ∷ [])
      shelf (record { deleted = refl; removed = refl; lawful = refl })
