-- ===== src/Tracking/External/Sample.antt =====
-- A registry with its administrator, an outside office, a slip to send, and five calls on it.
use udm_doctrack.Base.{ℕ, true, false, none, some, List, [], ◌∷◌, refl, text}
use udm_doctrack.Accounts.{User, admin}
use udm_doctrack.Tracking.{draft, send}
use udm_doctrack.Tracking.Services.{Env}
use udm_doctrack.Tracking.Sample.{account, sender, recipient}
use udm_doctrack.Tracking.Sample
use udm_doctrack.Tracking.External.{ExternalOffice, internal, ExternalRecord}
use udm_doctrack.Tracking.External.Calls.{Ledger}
use udm_doctrack.Tracking.External.Moves.{ExternalRoute}
use udm_doctrack.Tracking.External.Correct.{Changes}
use udm_doctrack.Tracking.External.Run.{
  Turn, Call, route_call, confirm_call, receipt_call, correct_call,
}
use udm_doctrack.Tracking.External.Run.Chain.{Sound}

abbrev pub head_of_registry : User
head_of_registry = record (account 4 10) { role = admin }

abbrev pub at : ℕ → Env
at now = record Sample.env {
  now = now;
  dir = record { users = sender ∷ recipient ∷ head_of_registry ∷ []; restrictions = [] };
}

abbrev pub entries : List ExternalOffice
entries =
    record { pk = 9; managing_office = 10; name = text "Ministry"; is_active = true; revision = 1 }
    ∷ []

abbrev pub slip : ExternalRecord
slip = record {
  pk = 7;
  managing_office = 10;
  tracking_number = [];
  title = text "Slip";
  status = draft;
  revision = 1;
  created_by = 4;
  custodian = internal 10;
  custodian_name = text "R";
  due_at = none;
  completed_at = none;
  filed_office = none;
  document_type = none;
  document_types = [];
  routing_steps = [];
  activities = [];
  revisions = [];
  grants = [];
}

abbrev pub start : Ledger
start = record { doc = slip; sequences = []; notifications = []; audit = [] }

abbrev pub start_Sound : Sound 0 slip
start_Sound = record { chain = tt; held = tt; pending = refl; unsent = refl }

abbrev pub turn : ℕ → ℕ → User → Turn
turn now revision u = record { env = at now; entries = entries; expected = some revision; user = u }

abbrev pub outwards : ExternalRoute
outwards = record {
  to_office = none;
  to_external_office = some 9;
  action = some send;
  instructions = [];
  sent_at = none;
  due_at = none;
}

abbrev pub inwards : ExternalRoute
inwards = record outwards { to_office = some 20; to_external_office = none; sent_at = some 1015 }

abbrev pub earlier_receipt : Changes
earlier_receipt = record {
  from_external_office = none;
  to_external_office = none;
  sent_at = none;
  received_at = some (some 1003);
  instructions = none;
  receipt_note = none;
  unsupported = false;
}

abbrev pub turns : List (Turn × Call)
turns =
    (turn 1000 1 head_of_registry, route_call outwards)
    ∷ (turn 1010 2 head_of_registry, receipt_call (some 1005) [])
    ∷ (turn 1020 3 head_of_registry, correct_call 1 (text "Typing error") earlier_receipt)
    ∷ (turn 1030 4 head_of_registry, route_call inwards)
    ∷ (turn 1040 5 recipient, confirm_call [])
    ∷ []
