-- ===== src/Documents.antt =====
-- apps/documents/models.py: a stored document, who reads, edits and reviews it.
--
-- A day is a number, a time is microseconds. The columns of the search index, of the extracted text
-- and of the printed metadata are left out.
pub mod Review
pub mod Lifecycle
pub mod Examples
use udm_doctrack.Base.{
  ℕ, ◌+◌, ◌*◌, Bool, true, false, not, ◌&&◌, ◌||◌, Option, none, some, List, [], ◌∷◌, ◌==◌,
  if◌then◌else◌, is_some, is_none, is_key, exists, leb, ltb, Text,
}
use udm_doctrack.Accounts.{
  User, known_role, is_system_admin, is_office_admin, is_records_staff, can_start_work,
}
use udm_doctrack.Accounts.Capabilities.{
  Area, repository, external_repository, Capability, view_record, edit_metadata, deletion_review,
  restore, Directory, current_actor, capability_allowed,
}
use udm_doctrack.Tracking.{TrackingRecord}
use udm_doctrack.Tracking.External.{ExternalRecord, internal_office}

pub data Collection : Type 0 where
  ovpa external : Collection

pub data OcrStatus : Type 0 where
  pending running done empty failed skipped : OcrStatus

pub data AccessLevel : Type 0 where
  office_only all_offices restricted : AccessLevel

pub record DocumentAccessGrant : Type 0 where
  pub office : Option ℕ
  pub user : Option ℕ

-- `origin` and `external_origin` are the records that it was filed from.
pub record Document : Type 0 where
  pub pk : ℕ
  pub title : Text
  pub collection : Collection
  pub origin : Option TrackingRecord
  pub external_origin : Option ExternalRecord
  pub office : ℕ
  pub access_level : AccessLevel
  pub retention_until : Option ℕ
  pub ocr_status : OcrStatus
  pub uploaded_by : Option ℕ
  pub is_active : Bool
  pub deleted_at : Option ℕ
  pub purge_attempted_at : Option ℕ
  pub updated_at : ℕ
  pub grants : List DocumentAccessGrant

abbrev pub is_external : Collection → Bool
is_external ovpa = false
is_external external = true

abbrev pub is_restricted : AccessLevel → Bool
is_restricted restricted = true
is_restricted _ = false

abbrev pub is_all_offices : AccessLevel → Bool
is_all_offices all_offices = true
is_all_offices _ = false

-- `area_for`
abbrev pub area_for : Document → Area
area_for d = if is_external d.collection then external_repository else repository

abbrev pub granted_to_user : Document → User → Bool
granted_to_user d u = exists (λ (g : DocumentAccessGrant). is_key g.user u.pk) d.grants

abbrev pub granted_to_office : Document → ℕ → Bool
granted_to_office d office = exists (λ (g : DocumentAccessGrant). is_key g.office office) d.grants

abbrev pub on_tracking_route : Option TrackingRecord → ℕ → Bool
on_tracking_route none office = false
on_tracking_route (some r) office =
    exists (λ s. s.to_office == office) r.routing_steps || (r.originating_office == office)

abbrev pub on_external_route : Option ExternalRecord → ℕ → Bool
on_external_route none office = false
on_external_route (some r) office =
    exists
      (λ s. is_key (internal_office s.recipient) office || is_key (internal_office s.sender) office)
      r.routing_steps

-- `office_history`
abbrev pub office_history : Document → ℕ → Bool
office_history d office =
    (d.office == office)
    || (on_tracking_route d.origin office || on_external_route d.external_origin office)

-- An office administrator reads the own office's documents only.
abbrev pub visible_to_administrator : Document → User → ℕ → Bool
visible_to_administrator d u office =
    (d.office == office)
    && (not (is_restricted d.access_level)
        || (is_key d.uploaded_by u.pk || (granted_to_user d u || granted_to_office d office)))

abbrev pub visible_to_staff : Document → User → ℕ → Bool
visible_to_staff d u office =
    is_all_offices d.access_level
    || (is_key d.uploaded_by u.pk
        || (granted_to_user d u
            || (granted_to_office d office
                || (office_history d office && not (is_restricted d.access_level)))))

unfoldable pub visible_from : Document → User → Option ℕ → Bool
visible_from d u none = false
visible_from d u (some office) =
    if is_office_admin u then visible_to_administrator d u office else visible_to_staff d u office

unfoldable pub visible_to_actor : Directory → Document → Option User → Bool
visible_to_actor dir d none = false
visible_to_actor dir d (some u) =
    if not (capability_allowed dir none u (area_for d) view_record false)
    then false
    else if not u.is_authenticated || (not u.is_active || not (known_role u.role))
    then false
    else if is_system_admin u
    then true
    else visible_from d u u.office_id

unfoldable pub visible_to : Directory → Document → User → Bool
visible_to dir d u = visible_to_actor dir d (current_actor dir none u)

unfoldable pub can_user_view : Directory → Document → User → Bool
can_user_view dir d u = d.is_active && visible_to dir d u

unfoldable pub can_actor_manage : Directory → Document → Capability → Option User → Bool
can_actor_manage dir d action none = false
can_actor_manage dir d action (some u) =
    if not (capability_allowed dir none u (area_for d) action false)
    then false
    else if not d.is_active || (not u.is_authenticated || not (can_start_work u))
    then false
    else if is_system_admin u
    then true
    else if is_external d.collection && not (is_office_admin u)
    then false
    else if not (can_user_view dir d u)
    then false
    else is_key u.office_id d.office && is_records_staff u

unfoldable pub can_user_manage : Directory → Document → User → Capability → Bool
can_user_manage dir d u action = can_actor_manage dir d action (current_actor dir none u)

unfoldable pub can_user_edit : Directory → Document → User → Bool
can_user_edit dir d u = can_user_manage dir d u edit_metadata

unfoldable pub can_user_review_deletion : Directory → Document → User → Bool → Bool
can_user_review_deletion dir d u include_deleted =
    if not (
      capability_allowed dir none u (area_for d) (if d.is_active then deletion_review else restore)
        false)
    then false
    else if not u.is_authenticated || (not (can_start_work u) || not (is_office_admin u))
    then false
    else if not include_deleted && not d.is_active
    then false
    else if not (is_system_admin u) && not (is_key u.office_id d.office)
    then false
    else visible_to dir d u

-- `DELETION_RECOVERY_DAYS`
abbrev pub recovery : ℕ
recovery = 30 * (86400 * 1000000)

unfoldable pub deletion_purge_at : Document → Option ℕ
deletion_purge_at d = elim d.deleted_at [ none ↦ none | some t ↦ some (t + recovery) ]

unfoldable pub deletion_recovery_open : ℕ → Document → Bool
deletion_recovery_open now d =
    not d.is_active && elim (deletion_purge_at d) [ none ↦ false | some t ↦ ltb now t ]

unfoldable pub retention_is_due : ℕ → Document → Bool
retention_is_due today d = elim d.retention_until [ none ↦ false | some t ↦ leb t today ]
