-- ===== src/Tracking/Access.antt =====
-- apps/tracking/models.py: who may see a record (`visible_to`) and who may do what with it.
--
-- `visible_to` is read for one record, as `can_user_view` does.
pub mod Laws
use udm_doctrack.Base.{
  ℕ, Bool, true, false, not, ◌&&◌, ◌||◌, Option, none, some, List, [], ◌∷◌, ◌==◌, if◌then◌else◌,
  is_some, is_key, opt_eq, exists,
}
use udm_doctrack.Accounts.{
  User, known_role, is_system_admin, is_office_admin, is_viewer, is_records_staff, can_start_work,
}
use udm_doctrack.Accounts.Capabilities.{
  Area, tracking, Capability, view_record, share, receive, file, reopen, Directory, Request,
  current_actor, capability_allowed,
}
use udm_doctrack.Tracking.{
  RoutingStep, RecordAccessGrant, TrackingRecord, is_draft, is_completed, is_pending_upload,
  has_custody, pending_step_for_office,
}

-- `office_id` is one that sent or was sent some step of the record.
abbrev pub on_route : TrackingRecord → ℕ → Bool
on_route r office =
    exists (λ (s : RoutingStep). s.to_office == office) r.routing_steps
    || exists (λ (s : RoutingStep). is_key s.from_office office) r.routing_steps

-- `.exclude(~Q(created_by=user), status=Status.DRAFT)`
abbrev pub not_foreign_draft : TrackingRecord → User → Bool
not_foreign_draft r u = not (not (r.created_by == u.pk) && is_draft r.status)

abbrev pub granted : TrackingRecord → User → ℕ → Bool
granted r u office =
    exists (λ (g : RecordAccessGrant). is_key g.user u.pk) r.grants
    || exists (λ (g : RecordAccessGrant). is_key g.office office) r.grants

-- The rows for an account of one office.
unfoldable pub visible_in_office : TrackingRecord → User → ℕ → Bool
visible_in_office r u office =
    if is_office_admin u
    then ((r.originating_office == office) || (is_key r.current_office office || on_route r office))
      && not_foreign_draft r u
    else ((r.created_by == u.pk)
        || ((r.originating_office == office) || (on_route r office || granted r u office)))
      && not_foreign_draft r u

unfoldable pub visible_from : TrackingRecord → User → Option ℕ → Bool
visible_from r u none = false
visible_from r u (some office) = visible_in_office r u office

unfoldable pub visible_to_actor : Directory → Option Request → TrackingRecord → Option User → Bool
visible_to_actor dir q r none = false
visible_to_actor dir q r (some u) =
    if not (capability_allowed dir q u tracking view_record false)
    then false
    else if not u.is_authenticated || (not u.is_active || not (known_role u.role))
    then false
    else if is_system_admin u
    then true
    else visible_from r u u.office_id

unfoldable pub can_user_view : Directory → Option Request → TrackingRecord → User → Bool
can_user_view dir q r u = visible_to_actor dir q r (current_actor dir q u)

-- What an actor may do with a record that is neither completed nor, for an administrator, limited.
unfoldable pub may_act : Directory → Option Request → TrackingRecord → User → Bool
may_act dir q r u =
    if not (can_user_view dir q r u)
    then false
    else if is_draft r.status
    then (r.created_by == u.pk) || (is_records_staff u && is_key u.office_id r.originating_office)
    else is_some u.office_id && has_custody r u.office_id

unfoldable pub can_actor_act : Directory → Option Request → TrackingRecord → Option User → Bool
can_actor_act dir q r none = false
can_actor_act dir q r (some u) =
    if not (capability_allowed dir q u tracking view_record false)
    then false
    else if not u.is_authenticated || (not (can_start_work u) || is_completed r.status)
    then false
    else if is_viewer u
    then false
    else if is_system_admin u
    then true
    else may_act dir q r u

-- Can this user add remarks, forward or complete right now?
unfoldable pub can_user_act : Directory → Option Request → TrackingRecord → User → Bool
can_user_act dir q r u = can_actor_act dir q r (current_actor dir q u)

unfoldable pub can_actor_grant_access :
    Directory → Option Request → TrackingRecord → Option User → Bool
can_actor_grant_access dir q r none = false
can_actor_grant_access dir q r (some u) =
    if not (capability_allowed dir q u tracking share false)
    then false
    else if not u.is_authenticated || not (can_start_work u)
    then false
    else if is_office_admin u && (not (is_system_admin u) && not (can_user_view dir q r u))
    then false
    else if is_system_admin u || (r.created_by == u.pk)
    then true
    else is_some u.office_id
      && (is_key u.office_id r.originating_office || has_custody r u.office_id)

unfoldable pub can_user_grant_access : Directory → Option Request → TrackingRecord → User → Bool
can_user_grant_access dir q r u = can_actor_grant_access dir q r (current_actor dir q u)

unfoldable pub can_actor_confirm_receipt :
    Directory → Option Request → TrackingRecord → Option User → Bool
can_actor_confirm_receipt dir q r none = false
can_actor_confirm_receipt dir q r (some u) =
    if not (capability_allowed dir q u tracking receive false)
    then false
    else if not u.is_authenticated || (not (can_start_work u) || not (is_some u.office_id))
    then false
    else if is_draft r.status || is_completed r.status
    then false
    else is_some (pending_step_for_office r u.office_id)

unfoldable pub can_user_confirm_receipt : Directory → Option Request → TrackingRecord → User → Bool
can_user_confirm_receipt dir q r u = can_actor_confirm_receipt dir q r (current_actor dir q u)

-- `user.office_id in {self.originating_office_id, self.current_office_id}`, for an office that is set
abbrev pub of_its_offices : TrackingRecord → User → Bool
of_its_offices r u = is_key u.office_id r.originating_office || opt_eq u.office_id r.current_office

unfoldable pub can_actor_file : Directory → Option Request → TrackingRecord → Option User → Bool
can_actor_file dir q r none = false
can_actor_file dir q r (some u) =
    if not (capability_allowed dir q u tracking file false)
    then false
    else if not u.is_authenticated || not (can_start_work u)
    then false
    else if is_system_admin u
    then true
    else if not (is_office_admin u)
    then false
    else is_some u.office_id && of_its_offices r u

unfoldable pub can_user_file_when_completed :
    Directory → Option Request → TrackingRecord → User → Bool
can_user_file_when_completed dir q r u = can_actor_file dir q r (current_actor dir q u)

unfoldable pub can_user_approve_upload : Directory → Option Request → TrackingRecord → User → Bool
can_user_approve_upload dir q r u =
    if not u.is_authenticated || not (can_start_work u)
    then false
    else if not (is_pending_upload r.status)
    then false
    else can_user_file_when_completed dir q r u

unfoldable pub can_actor_reopen : Directory → Option Request → TrackingRecord → Option User → Bool
can_actor_reopen dir q r none = false
can_actor_reopen dir q r (some u) =
    if not (capability_allowed dir q u tracking reopen false)
    then false
    else if not u.is_authenticated || not (can_start_work u)
    then false
    else if not (is_pending_upload r.status) || r.is_archived
    then false
    else if is_system_admin u
    then true
    else if is_office_admin u && not (of_its_offices r u)
    then false
    else if is_key r.completed_by u.pk
    then true
    else if is_office_admin u && of_its_offices r u
    then true
    else is_some u.office_id && opt_eq u.office_id r.current_office

unfoldable pub can_user_reopen : Directory → Option Request → TrackingRecord → User → Bool
can_user_reopen dir q r u = can_actor_reopen dir q r (current_actor dir q u)
