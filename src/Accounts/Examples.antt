-- ===== src/Accounts/Examples.antt =====
-- Three accounts of one office, a system administrator, and a clerk who may not endorse.
use udm_doctrack.Base.{
  ℕ, true, false, Option, none, some, List, [], ◌∷◌, ◌≡◌, refl, text, strip, keep, ◌&&◌, success,
  ◌⊎◌,
}
use udm_doctrack.Accounts.{
  User, Role, system_admin, admin, user, viewer, active_user, administrable_by, can_administer,
  can_start_work, is_office_admin, is_system_admin, is_records_staff, is_viewer,
}
use udm_doctrack.Accounts.Capabilities.{
  Area, Capability, tracking, endorse, receive, Directory, Request, current_actor, request_policy,
  capability_allowed, permission_snapshot, decide_with, role_default, dependencies,
}
use udm_doctrack.Accounts.Administration.{administrable_by-can_administer}
use udm_doctrack.Accounts.Overlay.{
  permission_snapshot-capability_allowed, capability_allowed-writes,
}
use udm_doctrack.Accounts.Restricting.{
  AdminSession, Permissions, row_of, policy_of, write_restrictions, set_restrictions,
}
use udm_doctrack.Accounts.Restricting.Written.{
  allowed_without, blocked_after, set_restrictions-capability_allowed,
}

abbrev account : ℕ → Role → Option ℕ → User
account pk role office = record {
  pk = pk;
  is_authenticated = true;
  is_active = true;
  role = role;
  office_id = office;
  is_staff = false;
  is_superuser = false;
  display_name = text "A";
}

abbrev clerk : User
clerk = account 1 user (some 10)

abbrev head : User
head = account 2 admin (some 10)

abbrev reader : User
reader = account 3 viewer (some 10)

abbrev root : User
root = account 4 system_admin none

abbrev elsewhere : User
elsewhere = account 5 user (some 20)

abbrev everyone : List User
everyone = clerk ∷ head ∷ reader ∷ root ∷ elsewhere ∷ []

-- The clerk may not endorse.
abbrev directory : Directory
directory = record {
  users = everyone;
  restrictions = record { user_id = 1; area = tracking; action = endorse } ∷ [];
}

clerk_receives : capability_allowed directory none clerk tracking receive true ≡ true
unfolding capability_allowed decide_with role_default dependencies active_user request_policy
    is_system_admin is_viewer is_records_staff
clerk_receives = refl

clerk_endorses : capability_allowed directory none clerk tracking endorse true ≡ false
unfolding capability_allowed decide_with role_default dependencies active_user request_policy
    is_system_admin is_viewer is_records_staff
clerk_endorses = refl

-- A page that only reads keeps a snapshot.
abbrev page : Request
page = record { is_safe = true; requester = clerk; snapshot = none }

page_receives : capability_allowed directory (some page) clerk tracking receive false ≡ true
unfolding capability_allowed decide_with role_default dependencies active_user request_policy
    is_system_admin is_viewer is_records_staff
page_receives = refl

permission_snapshot-capability_allowed_example :
    permission_snapshot directory (some page) clerk tracking endorse
    ≡ some (capability_allowed directory (some page) clerk tracking endorse false)
unfolding current_actor request_policy
permission_snapshot-capability_allowed_example =
    permission_snapshot-capability_allowed directory (some page) clerk clerk tracking endorse refl
      refl

capability_allowed-writes_example :
    (current : User) × (can_start_work current ≡ true)
    × ((active_user directory.users clerk.pk ≡ some current)
        ⊎ ((false ≡ false)
            × ((blocked : List (Area × Capability)) × (request_policy directory (some page) clerk
                  ≡ some (current, blocked)))))
capability_allowed-writes_example =
    capability_allowed-writes directory (some page) clerk tracking receive false refl page_receives

-- The head of the office manages the clerk, the reader and the head's own account.
managed : administrable_by head everyone ≡ clerk ∷ head ∷ reader ∷ []
unfolding administrable_by is_office_admin is_system_admin
managed = refl

administrable_by-can_administer_example :
    administrable_by head everyone ≡ keep (can_administer head) everyone
administrable_by-can_administer_example = administrable_by-can_administer head everyone refl

-- The system administrator takes receipts from the clerk as well.
abbrev before : Permissions
before = record { dir = directory; policies = []; audit = [] }

abbrev session : Option AdminSession
session = some (record { user = 4; recent = true })

abbrev after : Permissions
after = write_restrictions root 1 ((tracking, receive) ∷ []) (text "Leave") before

sets :
    set_restrictions true session 4 1 ((tracking, receive) ∷ []) 0 (text " Leave ") before
    ≡ success after
unfolding set_restrictions is_system_admin strip
sets = refl

set_restrictions-capability_allowed_example :
    (a : User) × (row_of everyone 4 ≡ some a)
    × (a.is_active ≡ true)
    × (is_system_admin a ≡ true)
    × (0 ≡ (policy_of 1 before.policies).revision)
    × (capability_allowed after.dir none clerk tracking endorse true ≡ (
        true
        && allowed_without
            (active_user everyone 1)
            (blocked_after before 1 ((tracking, receive) ∷ []) 1)
            tracking
            endorse))
    × ((policy_of 1 after.policies).revision ≡ 1)
set_restrictions-capability_allowed_example =
    set_restrictions-capability_allowed true session 4 1 ((tracking, receive) ∷ []) 0
      (text " Leave ") before after clerk tracking endorse true sets
