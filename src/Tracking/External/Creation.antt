-- ===== src/Tracking/External/Creation.antt =====
-- apps/tracking/external_services.py: `recording_office` and `create_record`.
--
-- The database gives the new key, and a random text the draft's number. The columns that no rule
-- reads (description, original reference) are checked for length and left out.
use udm_doctrack.Base.{
  ℕ, Bool, false, not, ◌||◌, Option, none, some, List, [], ◌∷◌, ◌&&◌, ◌++◌, ◌==◌, is_key, is_empty,
  Text, text, text_eq, length, leb, exists, Outcome, success, raised, guard, ◌>>=◌, ◌>>◌,
  permission_denied, validation_error,
}
use udm_doctrack.DocumentTypes.{DocumentType, resolve_document_types}
use udm_doctrack.Accounts.{User, Office, is_system_admin}
use udm_doctrack.Accounts.Capabilities.{
  external_tracking, create, active_writer, require_capability,
}
use udm_doctrack.Tracking.{draft}
use udm_doctrack.Tracking.Numbers.{NumberSequence}
use udm_doctrack.Tracking.Notices.{Notification}
use udm_doctrack.Tracking.Services.{Env, AuditLog, active_office}
use udm_doctrack.Tracking.External.{
  ExternalOffice, Party, internal, external, created, ExternalRecord,
}
use udm_doctrack.Tracking.External.Calls.{
  Ledger, require_manager, text_within, actual, add_event, active_entry,
}

-- The arguments of `create_record`; a description or reference that is absent is empty.
pub record CreateRequest : Type 0 where
  pub title : Text
  pub managing_office : Option ℕ
  pub description : Text
  pub original_reference : Text
  pub from_office : Option ℕ
  pub from_external_office : Option ℕ
  pub document_type : Option ℕ
  pub document_types : List ℕ
  pub actual_at : Option ℕ

-- What the database and `uuid4` choose, with the tracking numbers and the document types that the
-- database holds.
pub record Chosen : Type 0 where
  pub pk : ℕ
  pub number : Text
  pub taken : List Text
  pub types : List DocumentType

-- `selected`, or the account's own office.
abbrev pub selected_office : User → Option ℕ → Option ℕ
selected_office u none = u.office_id
selected_office u (some office) = some office

abbrev pub own_office : User → Option ℕ → Bool
own_office u none = false
own_office u (some office) = is_key u.office_id office

abbrev pub active_or_invalid : Option Office → Outcome Office
active_or_invalid none = raised validation_error
active_or_invalid (some o) = success o

abbrev pub selected_row : Env → Option ℕ → Option Office
selected_row env none = none
selected_row env (some office) = active_office env.offices office

unfoldable pub recording_office : Env → User → Option ℕ → Outcome Office
recording_office env u selected = do
  guard (is_system_admin u || own_office u (selected_office u selected)) permission_denied
  o ← active_or_invalid (selected_row env (selected_office u selected))
  require_manager u o.pk
  success o

-- The first custodian: an entry of the directory, or the managing office.
unfoldable pub first_custodian :
    List ExternalOffice → Office → Option ℕ → Option ℕ → Outcome (Party × Text)
first_custodian entries o (some office) (some entry) = raised validation_error
first_custodian entries o (some office) none =
    guard (office == o.pk) validation_error >> success (internal o.pk, o.name)
first_custodian entries o none none = success (internal o.pk, o.name)
first_custodian entries o none (some entry) =
    active_entry entries entry >>= λ e. success (external e.pk, e.name)

unfoldable pub origin_time : ℕ → Option ℕ → Outcome (Option ℕ)
origin_time now none = success none
origin_time now (some t) = actual now (some t) none >>= λ time. success (some time)

abbrev pub new_record : Chosen → User → Office → Text → Party × Text → ExternalRecord
new_record k u o title custodian = record {
  pk = k.pk;
  managing_office = o.pk;
  tracking_number = text "DRAFT-EXT-" ++ k.number;
  title = title;
  status = draft;
  revision = 1;
  created_by = u.pk;
  custodian = custodian.0;
  custodian_name = custodian.1;
  due_at = none;
  completed_at = none;
  filed_office = none;
  document_type = none;
  document_types = [];
  routing_steps = [];
  activities = [];
  revisions = [];
  grants = [];
}

-- The tables that the new record joins.
abbrev pub new_ledger :
    ExternalRecord → List NumberSequence → List Notification → List AuditLog → Ledger
new_ledger r sequences notifications audit = record {
  doc = r;
  sequences = sequences;
  notifications = notifications;
  audit = audit;
}

-- `full_clean` of the record: the tracking number and the custodian's name fit their columns, and no
-- other record has the number. The title has been checked, the custodian is one of the two kinds,
-- and an unknown document type is refused here or by the next check, with the same exception.
unfoldable pub clean_record : List Text → ExternalRecord → Outcome (Unit {0})
clean_record taken r =
    guard
      (leb (length r.tracking_number) 100
        && (not (exists (text_eq r.tracking_number) taken) && leb (length r.custodian_name) 150))
      validation_error

-- `document_types or ([document_type] if document_type else [])`
abbrev pub selected_types : List ℕ → Option ℕ → List ℕ
selected_types (pk ∷ pks) main = pk ∷ pks
selected_types [] (some main) = main ∷ []
selected_types [] none = []

unfoldable pub create_body :
    Env
    → List ExternalOffice
    → Chosen
    → CreateRequest
    → List NumberSequence
    → List Notification
    → List AuditLog
    → User
    → Outcome Ledger
create_body env entries k q sequences notifications audit u = do
  o ← recording_office env u q.managing_office
  custodian ← first_custodian entries o q.from_office q.from_external_office
  title ← text_within 255 q.title
  description ← text_within 5000 q.description
  reference ← text_within 200 q.original_reference
  guard (not (is_empty title)) validation_error
  clean_record k.taken (new_record k u o title custodian)
  (kinds, main) ←
      resolve_document_types k.types (selected_types q.document_types q.document_type)
        q.document_type []
  time ← origin_time env.now q.actual_at
  add_event env u created (text "Created external tracking draft") [] time none (
      new_ledger
        (record (new_record k u o title custodian) { document_type = main; document_types = kinds })
        sequences notifications audit)

-- The decorator and then the service reload the account.
unfoldable pub create_record :
    Env
    → List ExternalOffice
    → Chosen
    → CreateRequest
    → List NumberSequence
    → List Notification
    → List AuditLog
    → User
    → Outcome Ledger
create_record env entries k q sequences notifications audit u = do
  a ← active_writer env.dir u
  require_capability env.dir none a external_tracking create
  actor ← active_writer env.dir a
  create_body env entries k q sequences notifications audit actor
