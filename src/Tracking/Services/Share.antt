-- ===== src/Tracking/Services/Share.antt =====
-- `grant_access`: share the record with one office or one account.
pub mod Granted
use udm_doctrack.Base.{
  ℕ, Bool, true, false, not, ◌&&◌, Option, none, some, List, [], ◌∷◌, ◌++◌, ◌==◌, if◌then◌else◌,
  is_some, is_none, is_key, exists, Text, take, text, Outcome, success, raised, guard, ◌>>=◌, ◌>>◌,
  permission_denied, validation_error,
}
use udm_doctrack.Accounts.{
  User, Office, is_office_admin, is_system_admin, can_administer, active_user,
}
use udm_doctrack.Accounts.Capabilities.{share}
use udm_doctrack.Tracking.{Event, RecordAccessGrant, TrackingRecord}
use udm_doctrack.Tracking.Access.{can_user_grant_access}
use udm_doctrack.Tracking.Notices.{Kind, Notification, notify_office}
use udm_doctrack.Tracking.Services.{
  Env, Desk, active_office, refuse_viewers, guarded, add_activity, log_action, with_doc,
  AuditAction,
}

pub record ShareRequest : Type 0 where
  pub office : Option ℕ
  pub target_user : Option ℕ
  pub reason : Text

-- The reloaded row that the grant is for.
pub data Grantee : Type 0 where
  to_office : Office → Grantee
  to_user : User → Grantee

-- An active row, or the call stops.
abbrev pub office_grantee : Option Office → Outcome Grantee
office_grantee none = raised validation_error
office_grantee (some o) = success (to_office o)

abbrev pub user_grantee : Option User → Outcome Grantee
user_grantee none = raised validation_error
user_grantee (some u) = success (to_user u)

-- Exactly one office or account.
unfoldable pub grantee_of : Env → Option ℕ → Option ℕ → Outcome Grantee
grantee_of env none none = raised validation_error
grantee_of env (some office) none = office_grantee (active_office env.offices office)
grantee_of env none (some target) = user_grantee (active_user env.dir.users target)
grantee_of env (some office) (some target) = raised validation_error

-- An office's administrator shares within the office only.
abbrev pub reaches : User → Grantee → Bool
reaches u (to_office o) = is_key u.office_id o.pk
reaches u (to_user target) = can_administer u target

unfoldable pub within_reach : User → Grantee → Bool
within_reach u g =
    if is_office_admin u && not (is_system_admin u)
    then is_some u.office_id && reaches u g
    else true

unfoldable pub check_share : Env → TrackingRecord → User → ShareRequest → Outcome Grantee
check_share env r u q = do
  refuse_viewers u
  guard (can_user_grant_access env.dir none r u) permission_denied
  g ← grantee_of env q.office q.target_user
  guard (within_reach u g) permission_denied
  success g

-- The grant that `get_or_create` looks for.
abbrev pub is_for : Grantee → RecordAccessGrant → Bool
is_for (to_office o) grant = is_key grant.office o.pk && is_none grant.user
is_for (to_user u) grant = is_none grant.office && is_key grant.user u.pk

abbrev pub new_grant : User → Text → Grantee → RecordAccessGrant
new_grant u reason (to_office o) = record {
  office = some o.pk;
  user = none;
  granted_by = u.pk;
  reason = take 255 reason;
}
new_grant u reason (to_user target) = record {
  office = none;
  user = some target.pk;
  granted_by = u.pk;
  reason = take 255 reason;
}

-- `str(office or target_user)`
abbrev pub grantee_text : Grantee → Text
grantee_text (to_office o) = o.name ++ (text " (" ++ (o.code ++ text ")"))
grantee_text (to_user u) = u.display_name

unfoldable pub share_doc : Env → User → Text → Grantee → TrackingRecord → TrackingRecord
share_doc env u reason g r =
    add_activity env.now Event.access
      (text "Access granted to " ++ (grantee_text g ++ (text " by " ++ u.display_name))) u reason
      none (record r { grants = r.grants ++ new_grant u reason g ∷ [] })

abbrev pub share_notice : TrackingRecord → Grantee → List Notification → List Notification
share_notice r (to_user u) rows = rows
share_notice r (to_office o) rows =
    notify_office (some o.pk) Kind.shared (text "A document was shared with your office")
      (text "Access was granted to " ++ (r.tracking_number ++ text ".")) r.pk rows

unfoldable pub create_grant : Env → User → Text → Grantee → Desk → Desk
create_grant env u reason g d =
    let logged =
      log_action AuditAction.permission_action
        (text "Granted access to " ++ (d.doc.tracking_number ++ (text " for " ++ grantee_text g))) u
        (with_doc d (share_doc env u reason g d.doc)) in
    record logged { notifications = share_notice d.doc g d.notifications }

-- A grant that is there already is returned as it is.
unfoldable pub share_with : Env → User → Text → Grantee → Desk → Desk
share_with env u reason g d =
    if exists (is_for g) d.doc.grants then d else create_grant env u reason g d

unfoldable pub share_body : Env → Desk → ShareRequest → User → Outcome Desk
share_body env d q u = do g ← check_share env d.doc u q; success (share_with env u q.reason g d)

unfoldable pub grant_access : Env → Desk → User → ShareRequest → Outcome Desk
unfolding guarded
grant_access env d u q = guarded env share (share_body env d q) u
