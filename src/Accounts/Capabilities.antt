-- ===== src/Accounts/Capabilities.antt =====
-- apps/accounts/capabilities.py: the restrictive overlay over the roles.
use udm_doctrack.Base.{
  ℕ, Bool, true, false, not, ◌&&◌, ◌||◌, Option, none, some, List, [], ◌∷◌, ◌==◌, if◌then◌else◌,
  is_some, exists, Outcome, success, raised, guard, permission_denied, ◌++◌,
}
use udm_doctrack.Accounts.{
  User, known_role, is_system_admin, is_office_admin, is_viewer, is_records_staff, can_start_work,
  active_user,
}

pub data Area : Type 0 where
  tracking external_tracking repository external_repository : Area

pub data Capability : Type 0 where
  view_record view_content download create edit_metadata edit_files : Capability
  receive work endorse complete reopen file : Capability
  share export extract deletion_review restore : Capability

abbrev pub area_rank : Area → ℕ
area_rank tracking = 0
area_rank external_tracking = 1
area_rank repository = 2
area_rank external_repository = 3

abbrev pub capability_rank : Capability → ℕ
capability_rank view_record = 0
capability_rank view_content = 1
capability_rank download = 2
capability_rank create = 3
capability_rank edit_metadata = 4
capability_rank edit_files = 5
capability_rank receive = 6
capability_rank work = 7
capability_rank endorse = 8
capability_rank complete = 9
capability_rank reopen = 10
capability_rank file = 11
capability_rank share = 12
capability_rank export = 13
capability_rank extract = 14
capability_rank deletion_review = 15
capability_rank restore = 16

abbrev pub same_area : Area → Area → Bool
same_area a b = area_rank a == area_rank b

abbrev pub same_capability : Capability → Capability → Bool
same_capability a b = capability_rank a == capability_rank b

-- `action in {'view_record', 'view_content', 'download', 'export'}`
abbrev pub is_reading : Capability → Bool
is_reading view_record = true
is_reading view_content = true
is_reading download = true
is_reading export = true
is_reading _ = false

abbrev pub is_external : Area → Bool
is_external external_tracking = true
is_external external_repository = true
is_external _ = false

abbrev in_common : Capability → Bool
in_common view_record = true
in_common view_content = true
in_common download = true
in_common create = true
in_common edit_metadata = true
in_common share = true
in_common export = true
in_common _ = false

abbrev in_tracking : Capability → Bool
in_tracking edit_files = true
in_tracking receive = true
in_tracking work = true
in_tracking endorse = true
in_tracking complete = true
in_tracking reopen = true
in_tracking file = true
in_tracking c = in_common c

abbrev in_repository : Capability → Bool
in_repository extract = true
in_repository deletion_review = true
in_repository restore = true
in_repository c = in_common c

-- `action in APPLICABLE[area]`
abbrev pub applicable : Area → Capability → Bool
applicable tracking c = in_tracking c
applicable external_tracking c = in_tracking c
applicable repository c = in_repository c
applicable external_repository c = in_repository c

abbrev pub is_administrative : Area → Capability → Bool
is_administrative _ file = true
is_administrative _ deletion_review = true
is_administrative _ restore = true
is_administrative a create = is_external a
is_administrative _ _ = false

unfoldable pub role_default : User → Area → Capability → Bool
unfolding is_system_admin is_office_admin is_viewer is_records_staff
role_default u area action =
    if not (applicable area action) || not u.is_active
    then false
    else if not (known_role u.role)
    then false
    else if is_reading action
    then true
    else if not (is_system_admin u) && not (is_some u.office_id)
    then false
    else if is_viewer u
    then false
    else if is_administrative area action
    then is_office_admin u
    else is_records_staff u

-- A row of `CapabilityRestriction`, with the account of its policy.
pub record Restriction : Type 0 where
  pub user_id : ℕ
  pub area : Area
  pub action : Capability

-- The account tables.
pub record Directory : Type 0 where
  pub users : List User
  pub restrictions : List Restriction

-- A web request: only a safe one (GET, HEAD, OPTIONS) keeps a snapshot of its user's restrictions.
pub record Request : Type 0 where
  pub is_safe : Bool
  pub requester : User
  pub snapshot : Option (User × List (Area × Capability))

abbrev pub blocked_pairs : ℕ → List Restriction → List (Area × Capability)
blocked_pairs pk [] = []
blocked_pairs pk (r ∷ rs) =
    let rest = blocked_pairs pk rs in if r.user_id == pk then (r.area, r.action) ∷ rest else rest

abbrev taken : Directory → Request → User × List (Area × Capability)
taken dir q = elim q.snapshot [
  | none ↦ (q.requester, blocked_pairs q.requester.pk dir.restrictions)
  | some s ↦ s
]

unfoldable pub request_policy :
    Directory → Option Request → User → Option (User × List (Area × Capability))
request_policy dir none u = none
request_policy dir (some q) u =
    if not q.is_safe
    then none
    else if not q.requester.is_authenticated || not (q.requester.pk == u.pk)
    then none
    else some (taken dir q)

unfoldable pub current_actor : Directory → Option Request → User → Option User
current_actor dir q u =
    if not u.is_authenticated || (not u.is_active || not (known_role u.role))
    then none
    else elim (request_policy dir q u) [ some s ↦ some s.0 | none ↦ active_user dir.users u.pk ]

-- What else must be allowed for the action to be.
abbrev pub needs_content : Capability → Bool
needs_content download = true
needs_content edit_files = true
needs_content extract = true
needs_content _ = false

unfoldable pub dependencies : Capability → List Capability
dependencies action =
    action ∷ (if not (same_capability action view_record) then view_record ∷ [] else [])
    ++ (if needs_content action then view_content ∷ [] else [])

-- `any((area, key) in blocked for key in actions)`
abbrev pub in_snapshot : List (Area × Capability) → Area → List Capability → Bool
in_snapshot blocked area actions =
    exists (λ key. exists (λ p. same_area p.0 area && same_capability p.1 key) blocked) actions

-- `CapabilityRestriction.objects.filter(policy__user_id=…, area=area, action__in=actions).exists()`
abbrev pub in_table : List Restriction → ℕ → Area → List Capability → Bool
in_table rows pk area actions =
    exists
      (λ (r : Restriction).
        (r.user_id == pk)
        && (same_area r.area area && exists (λ key. same_capability r.action key) actions))
      rows

-- The decision from a request's snapshot, else from the account's current row and the table.
unfoldable pub decide_with :
    List Restriction
    → Option (User × List (Area × Capability))
    → Option User
    → Area
    → Capability
    → Bool
decide_with rows (some (current, blocked)) row area action =
    role_default current area action && not (in_snapshot blocked area (dependencies action))
decide_with rows none none area action = false
decide_with rows none (some current) area action =
    role_default current area action && not (in_table rows current.pk area (dependencies action))

unfoldable pub capability_allowed :
    Directory → Option Request → User → Area → Capability → Bool → Bool
capability_allowed dir q u area action fresh =
    if not u.is_authenticated
    then false
    else decide_with dir.restrictions (if fresh then none else request_policy dir q u)
        (active_user dir.users u.pk) area action

unfoldable pub require_capability :
    Directory → Option Request → User → Area → Capability → Outcome (Unit {0})
require_capability dir q u area action =
    guard (capability_allowed dir q u area action true) permission_denied

-- apps/core/permissions.py, `active_writer`: the current row of an account that may write.
abbrev pub writer_row : Option User → Outcome User
writer_row none = raised permission_denied
writer_row (some actor) = if can_start_work actor then success actor else raised permission_denied

unfoldable pub active_writer : Directory → User → Outcome User
active_writer dir u =
    if not u.is_authenticated || not (is_records_staff u)
    then raised permission_denied
    else writer_row (active_user dir.users u.pk)

abbrev pub blocked_for :
    List Restriction → Option (User × List (Area × Capability)) → User → List (Area × Capability)
blocked_for rows none current = blocked_pairs current.pk rows
blocked_for rows (some s) current = s.1

-- One area's decisions of `permission_snapshot`, `none` where the dictionary has no such key.
unfoldable pub listed_with :
    List Restriction
    → Option (User × List (Area × Capability))
    → Option User
    → Area
    → Capability
    → Option Bool
listed_with rows policy none area action = none
listed_with rows policy (some current) area action =
    if not (applicable area action)
    then none
    else some (
        role_default current area action
        && not (
            in_snapshot (blocked_for rows policy current) area
              (action ∷ view_record ∷ (if needs_content action then view_content ∷ [] else []))))

unfoldable pub permission_snapshot :
    Directory → Option Request → User → Area → Capability → Option Bool
permission_snapshot dir q u area action =
    listed_with dir.restrictions (request_policy dir q u) (current_actor dir q u) area action
