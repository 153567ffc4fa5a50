-- ===== src/Tracking/Sample.antt =====
-- A registry and a budget office with a clerk each, an account of a third office, a draft of the
-- registry, and the settings.
use udm_doctrack.Base.{ℕ, true, false, none, some, List, [], ◌∷◌, Text, text, decimal}
use udm_doctrack.Accounts.{User, Office, user}
use udm_doctrack.Tracking.{TrackingRecord, draft, send}
use udm_doctrack.Tracking.Sla.{RoutingSla}
use udm_doctrack.Tracking.Services.{Env, Desk}
use udm_doctrack.Tracking.Services.Route.{RouteRequest, DueAt}

abbrev pub account : ℕ → ℕ → User
account pk office = record {
  pk = pk;
  is_authenticated = true;
  is_active = true;
  role = user;
  office_id = some office;
  is_staff = false;
  is_superuser = false;
  display_name = text "A";
}

abbrev pub sender : User
sender = account 1 10

abbrev pub recipient : User
recipient = account 2 20

abbrev pub guest : User
guest = account 3 30

abbrev pub office : ℕ → Text → Office
office pk code = record { pk = pk; code = code; name = code; is_active = true }

-- The budget office has four days for anything, two for a document of type 7.
abbrev pub rules : List RoutingSla
rules =
    record { office = some 20; document_type = none; due_days = 4; is_active = true }
    ∷ record { office = some 20; document_type = some 7; due_days = 2; is_active = true }
    ∷ record { office = some 30; document_type = none; due_days = 1; is_active = true }
    ∷ []

abbrev pub env : Env
env = record {
  now = 1000;
  year = 2026;
  month = 6;
  dir = record { users = sender ∷ recipient ∷ guest ∷ []; restrictions = [] };
  offices = office 10 (text "R") ∷ office 20 (text "B") ∷ office 30 (text "L") ∷ [];
  slas = rules;
  default_due_days = 3;
  number_prefix = text "UDM";
  number_width = 2;
  date_text = decimal;
}

abbrev pub paper : TrackingRecord
paper = record {
  pk = 5;
  tracking_number = [];
  document_type = some 7;
  originating_office = 10;
  created_by = 1;
  instructions = text "act";
  status = draft;
  current_office = some 10;
  current_holder = some 1;
  current_batch = 0;
  due_at = none;
  first_received_at = none;
  last_movement_at = 0;
  completed_at = none;
  completed_by = none;
  completion_note = [];
  is_archived = false;
  archived_at = none;
  archived_document = none;
  routing_steps = [];
  activities = [];
  grants = [];
}

abbrev pub desk : Desk
desk = record { doc = paper; sequences = []; notifications = []; audit = [] }

abbrev pub request : RouteRequest
request = record {
  offices = some 20 ∷ none ∷ some 30 ∷ some 20 ∷ [];
  instructions = [];
  action = some send;
  due_days = none;
  due_at = DueAt.unset;
  remark = [];
}
