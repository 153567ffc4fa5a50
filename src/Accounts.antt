-- ===== src/Accounts.antt =====
-- apps/accounts/models.py: offices, accounts and the four roles.
--
-- An account stands here both for a database row and for the object a caller holds, which may be
-- older than the row. Keys are positive numbers, so Python's truth of a key is its presence.
pub mod Capabilities
pub mod Administration
pub mod Overlay
pub mod Restricting
pub mod Otp
pub mod Lockout
pub mod Examples
use udm_doctrack.Base.{
  ℕ, Bool, true, false, not, ◌&&◌, ◌||◌, Option, none, some, List, [], ◌∷◌, ◌==◌, if◌then◌else◌,
  opt_eq, is_some, first, keep, Text,
}

-- `User.Role`; `unknown` is any other text in the column.
pub data Role : Type 0 where
  system_admin admin user viewer unknown : Role

pub record Office : Type 0 where
  pub pk : ℕ
  pub code : Text
  pub name : Text
  pub is_active : Bool

-- `is_authenticated` is false only for Django's anonymous user.
pub record User : Type 0 where
  pub pk : ℕ
  pub is_authenticated : Bool
  pub is_active : Bool
  pub role : Role
  pub office_id : Option ℕ
  pub is_staff : Bool
  pub is_superuser : Bool
  pub display_name : Text

abbrev pub known_role : Role → Bool
known_role unknown = false
known_role _ = true

abbrev pub is_system_admin_role : Role → Bool
is_system_admin_role system_admin = true
is_system_admin_role _ = false

abbrev pub is_admin_role : Role → Bool
is_admin_role admin = true
is_admin_role _ = false

abbrev pub is_viewer_role : Role → Bool
is_viewer_role viewer = true
is_viewer_role _ = false

abbrev pub is_staff_role : Role → Bool
is_staff_role user = true
is_staff_role admin = true
is_staff_role system_admin = true
is_staff_role _ = false

unfoldable pub is_system_admin : User → Bool
is_system_admin u = is_system_admin_role u.role

unfoldable pub is_office_admin : User → Bool
unfolding is_system_admin
is_office_admin u = is_admin_role u.role || is_system_admin u

unfoldable pub is_viewer : User → Bool
is_viewer u = is_viewer_role u.role

unfoldable pub is_records_staff : User → Bool
is_records_staff u = u.is_active && is_staff_role u.role

unfoldable pub can_start_work : User → Bool
unfolding is_records_staff is_system_admin
can_start_work u = is_records_staff u && (is_some u.office_id || is_system_admin u)

unfoldable pub can_administer : User → User → Bool
unfolding is_office_admin
can_administer u other =
    if not (u.is_active && is_office_admin u)
    then false
    else if is_system_admin u
    then true
    else if is_system_admin other || (other.is_staff || other.is_superuser)
    then false
    else is_some u.office_id && opt_eq u.office_id other.office_id

unfoldable pub can_act_for_office : User → Option ℕ → Bool
unfolding can_start_work
can_act_for_office u none = false
can_act_for_office u (some office) =
    if not (can_start_work u)
    then false
    else if is_system_admin u
    then true
    else opt_eq u.office_id (some office)

-- The codes of `assignable_roles`.
unfoldable pub assignable_roles : User → List Role
unfolding is_system_admin
assignable_roles u =
    if is_system_admin u
    then system_admin ∷ admin ∷ user ∷ viewer ∷ []
    else admin ∷ user ∷ viewer ∷ []

-- `UserQuerySet.administrable_by`: which rows the actor may manage.
unfoldable pub administrable_by : User → List User → List User
unfolding is_office_admin
administrable_by actor rows =
    if not (actor.is_authenticated && (actor.is_active && is_office_admin actor))
    then []
    else if is_system_admin actor
    then rows
    else if not (is_some actor.office_id)
    then []
    else keep
        (λ u.
          opt_eq u.office_id actor.office_id
          && (not u.is_superuser && (not u.is_staff && not (is_system_admin u))))
        rows

-- `User.objects.filter(pk=pk, is_active=True).first()`
unfoldable pub active_user : List User → ℕ → Option User
active_user rows pk = first (λ u. (u.pk == pk) && u.is_active) rows
