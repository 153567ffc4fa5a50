-- ===== src/Tracking/Notices.antt =====
-- apps/core/notifications.py: the notices that tracking writes and resolves. The link of a notice,
-- which no rule reads, is left out.
use udm_doctrack.Base.{
  ℕ, Bool, true, ◌&&◌, Option, none, some, List, [], ◌∷◌, ◌++◌, map, ◌==◌, if◌then◌else◌, is_none,
  is_key, exists, Text, take, text,
}

pub data Kind : Type 0 where
  routed received completed shared unreceived overdue : Kind

abbrev pub kind_rank : Kind → ℕ
kind_rank routed = 0
kind_rank received = 1
kind_rank completed = 2
kind_rank shared = 3
kind_rank unreceived = 4
kind_rank overdue = 5

abbrev pub same_kind : Kind → Kind → Bool
same_kind a b = kind_rank a == kind_rank b

pub record Notification : Type 0 where
  pub office : ℕ
  pub tracking_record : Option ℕ
  pub external_record : Option ℕ
  pub kind : Kind
  pub title : Text
  pub message : Text
  pub resolved_at : Option ℕ

-- `queryset.update(…)`
abbrev pub update_where :
    (Notification → Bool) → (Notification → Notification) → List Notification → List Notification
update_where test change rows = map (λ n. if test n then change n else n) rows

abbrev pub resolve : ℕ → Notification → Notification
resolve now n = record n { resolved_at = some now }

abbrev pub reword : Text → Text → Notification → Notification
reword title message n = record n { title = title; message = message }

-- The unresolved notices of a record of one kind.
abbrev pub open_notice : ℕ → Kind → Notification → Bool
open_notice pk kind n =
    is_key n.tracking_record pk && (is_none n.resolved_at && same_kind n.kind kind)

-- `if kinds:`: no kinds given means every kind.
abbrev pub among : List Kind → Kind → Bool
among [] kind = true
among (k ∷ kinds) kind = exists (same_kind kind) (k ∷ kinds)

unfoldable pub resolve_for_record : ℕ → List Kind → ℕ → List Notification → List Notification
resolve_for_record pk kinds now rows =
    update_where (λ n. is_key n.tracking_record pk && (is_none n.resolved_at && among kinds n.kind))
      (resolve now) rows

abbrev notice : ℕ → Kind → Text → Text → ℕ → Notification
notice office kind title message pk = record {
  office = office;
  tracking_record = some pk;
  external_record = none;
  kind = kind;
  title = take 160 title;
  message = take 255 message;
  resolved_at = none;
}

unfoldable pub notify_office :
    Option ℕ → Kind → Text → Text → ℕ → List Notification → List Notification
notify_office none kind title message pk rows = rows
notify_office (some office) kind title message pk rows =
    rows ++ notice office kind title message pk ∷ []

unfoldable pub notify_offices :
    List ℕ → Kind → Text → Text → ℕ → List Notification → List Notification
notify_offices offices kind title message pk rows =
    rows ++ map (λ office. notice office kind title message pk) offices

-- `resolve_for_external_record` and a notice about an external record.
unfoldable pub resolve_for_external_record : ℕ → ℕ → List Notification → List Notification
resolve_for_external_record pk now rows =
    update_where (λ n. is_key n.external_record pk && is_none n.resolved_at) (resolve now) rows

unfoldable pub notify_external : ℕ → Kind → Text → Text → ℕ → List Notification → List Notification
notify_external office kind title message pk rows =
    rows
    ++ record (notice office kind title message pk) {
      tracking_record = none;
      external_record = some pk;
    }
      ∷ []

-- `overdue_notice_text(record, awaiting_receipt=False)`; `date` is the printed deadline.
unfoldable pub overdue_notice_text : Text → Text → Text × Text
overdue_notice_text number date = (
  take 160 (text "A document with your office is past its deadline"),
  take 255 (number ++ (text " was due " ++ (date ++ text "."))),
)
