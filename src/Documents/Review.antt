-- ===== src/Documents/Review.antt =====
-- apps/documents/services.py, `review_document_deletion`, and the choice of documents of
-- `purge_deleted_documents` in apps/documents/tasks.py.
use udm_doctrack.Base.{
  ℕ, ◌+◌, Bool, true, false, not, ◌&&◌, ◌||◌, Option, none, some, List, [], ◌∷◌, ◌++◌, ◌==◌,
  if◌then◌else◌, is_none, opt_eq, is_empty, leb, ltb, Text, take, strip, text_length, Outcome,
  success, raised, guard, ◌>>=◌, ◌>>◌, permission_denied, validation_error,
}
use udm_doctrack.Accounts.{User}
use udm_doctrack.Accounts.Capabilities.{Directory, active_writer}
use udm_doctrack.Documents.{
  Document, OcrStatus, pending, running, skipped, can_user_review_deletion, deletion_recovery_open,
  retention_is_due, recovery,
}

-- `DeletionReview.Decision`; `invalid` is any other text.
pub data Decision : Type 0 where
  keep delete restore invalid : Decision

pub record DeletionReview : Type 0 where
  pub decision : Decision
  pub reason : Text
  pub previous_review_date : Option ℕ
  pub next_review_date : Option ℕ
  pub reviewed_by : ℕ
  pub reviewer_label : Text

-- The audit entry, whose action is DELETE or UPDATE.
pub record ReviewLog : Type 0 where
  pub is_deletion : Bool
  pub actor : ℕ
  pub target : ℕ

-- The locked row and what the service writes beside it.
pub record Shelf : Type 0 where
  pub document : Document
  pub reviews : List DeletionReview
  pub audit : List ReviewLog

-- `deletion_review_state`
pub record ReviewState : Type 0 where
  pub updated_at : ℕ
  pub retention_until : Option ℕ
  pub is_active : Bool

abbrev pub deletion_review_state : Document → ReviewState
deletion_review_state d = record {
  updated_at = d.updated_at;
  retention_until = d.retention_until;
  is_active = d.is_active;
}

abbrev pub same_bool : Bool → Bool → Bool
same_bool true b = b
same_bool false b = not b

abbrev pub same_state : ReviewState → ReviewState → Bool
same_state a b =
    (a.updated_at == b.updated_at)
    && (opt_eq a.retention_until b.retention_until && same_bool a.is_active b.is_active)

abbrev pub is_delete : Decision → Bool
is_delete delete = true
is_delete _ = false

abbrev pub is_restore : Decision → Bool
is_restore restore = true
is_restore _ = false

abbrev pub is_invalid : Decision → Bool
is_invalid invalid = true
is_invalid _ = false

-- The arguments of the service.
pub record ReviewRequest : Type 0 where
  pub decision : Decision
  pub reason : Text
  pub expected_state : ReviewState
  pub next_review_date : Option ℕ
  pub confirmed : Bool

-- What the call reads: the clock, the local date, the accounts.
pub record Desk : Type 0 where
  pub now : ℕ
  pub today : ℕ
  pub dir : Directory

-- A removal is due and confirmed, with no next date; any other decision has one after today.
unfoldable pub dates_fit : ℕ → Document → ReviewRequest → Bool
dates_fit today d q =
    if is_delete q.decision
    then retention_is_due today d && (q.confirmed && is_none q.next_review_date)
    else elim q.next_review_date [ none ↦ false | some t ↦ ltb today t ]

abbrev pub after_removal : OcrStatus → OcrStatus
after_removal pending = skipped
after_removal running = skipped
after_removal status = status

unfoldable pub reviewed : ℕ → ReviewRequest → Document → Document
reviewed now q d =
    if is_delete q.decision
    then record d {
      is_active = false;
      deleted_at = some now;
      purge_attempted_at = none;
      ocr_status = after_removal d.ocr_status;
      updated_at = now;
    }
    else record d {
      is_active = true;
      deleted_at = none;
      purge_attempted_at = none;
      retention_until = q.next_review_date;
      updated_at = now;
    }

abbrev pub new_review : User → ReviewRequest → Document → DeletionReview
new_review u q d = record {
  decision = q.decision;
  reason = strip q.reason;
  previous_review_date = d.retention_until;
  next_review_date = q.next_review_date;
  reviewed_by = u.pk;
  reviewer_label = take 150 u.display_name;
}

unfoldable pub review_body : Desk → ReviewRequest → User → Shelf → Outcome Shelf
review_body e q u s = do
  guard (can_user_review_deletion e.dir s.document u true) permission_denied
  guard (same_state q.expected_state (deletion_review_state s.document)) validation_error
  guard (not (is_empty (strip q.reason)) && leb (text_length (strip q.reason)) 2000)
      validation_error
  guard (not (is_invalid q.decision)) validation_error
  guard (not (same_bool (is_restore q.decision) s.document.is_active)) validation_error
  guard (not (is_restore q.decision) || deletion_recovery_open e.now s.document) validation_error
  guard (dates_fit e.today s.document q) validation_error
  success (record {
    document = reviewed e.now q s.document;
    reviews = s.reviews ++ new_review u q s.document ∷ [];
    audit =
        s.audit
        ++ record { is_deletion = is_delete q.decision; actor = u.pk; target = s.document.pk } ∷ [];
  })

-- `locked_mutation` reloads the account.
unfoldable pub review_document_deletion : Desk → User → ReviewRequest → Shelf → Outcome Shelf
review_document_deletion e u q s = do actor ← active_writer e.dir u; review_body e q actor s

-- `is_active=False, deleted_at__lte=now - 30 days`, with the days on the other side.
unfoldable pub is_purgeable : ℕ → Document → Bool
is_purgeable now d =
    not d.is_active && elim d.deleted_at [ none ↦ false | some t ↦ leb (t + recovery) now ]

pub record Turn : Type 0 where
  pub desk : Desk
  pub user : User
  pub request : ReviewRequest

abbrev pub or_before : Shelf → Outcome Shelf → Shelf
or_before s (success s') = s'
or_before s (raised e) = s

unfoldable pub run : List Turn → Shelf → Shelf
run [] s = s
run (t ∷ turns) s = run turns (or_before s (review_document_deletion t.desk t.user t.request s))
