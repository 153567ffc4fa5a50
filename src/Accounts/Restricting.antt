-- ===== src/Accounts/Restricting.antt =====
-- apps/accounts/capabilities.py, `set_restrictions`, and the tables of
-- apps/accounts/permission_models.py.
--
-- The proposed pairs are a set, here a list without repetitions. Whether codes are required, and
-- whether the request's session was verified recently, are arguments.
pub mod Written
use udm_doctrack.Base.{
  ℕ, suc, Bool, true, false, not, ◌&&◌, ◌||◌, Option, none, some, List, [], ◌∷◌, ◌++◌, map, ◌==◌,
  if◌then◌else◌, exists, for_all, keep, first, get_or, leb, Text, strip, text_length, is_empty,
  Outcome, success, raised, guard, ◌>>=◌, ◌>>◌, permission_denied, validation_error,
}
use udm_doctrack.Accounts.{User, is_system_admin}
use udm_doctrack.Accounts.Capabilities.{
  Area, Capability, applicable, Restriction, Directory, blocked_pairs,
}

pub record UserPermissionPolicy : Type 0 where
  pub user_id : ℕ
  pub revision : ℕ
  pub updated_by : Option ℕ
  pub reason : Text

-- The audit entry, with the pairs before and after.
pub record PermissionLog : Type 0 where
  pub actor : ℕ
  pub target : ℕ
  pub reason : Text
  pub before : List (Area × Capability)
  pub after : List (Area × Capability)
  pub revision : ℕ

pub record Permissions : Type 0 where
  pub dir : Directory
  pub policies : List UserPermissionPolicy
  pub audit : List PermissionLog

-- `request`: its user, and whether that session was verified recently.
pub record AdminSession : Type 0 where
  pub user : ℕ
  pub recent : Bool

abbrev pub row_of : List User → ℕ → Option User
row_of users pk = first (λ (u : User). u.pk == pk) users

-- The administrator's row, whose activity and role are tested.
abbrev pub administrator : Option User → Outcome User
administrator none = raised permission_denied
administrator (some a) =
    if a.is_active && is_system_admin a then success a else raised permission_denied

abbrev pub recently_verified : Bool → Option AdminSession → User → Bool
recently_verified required none a = not required
recently_verified required (some q) a = not required || ((q.user == a.pk) && q.recent)

abbrev pub fresh_policy : ℕ → UserPermissionPolicy
fresh_policy pk = record { user_id = pk; revision = 0; updated_by = none; reason = [] }

-- `get_or_create`
abbrev pub policy_of : ℕ → List UserPermissionPolicy → UserPermissionPolicy
policy_of pk policies =
    get_or (first (λ (p : UserPermissionPolicy). p.user_id == pk) policies) (fresh_policy pk)

abbrev pub put_policy : UserPermissionPolicy → List UserPermissionPolicy → List UserPermissionPolicy
put_policy policy policies =
    policy ∷ keep (λ (p : UserPermissionPolicy). not (p.user_id == policy.user_id)) policies

abbrev pub new_row : ℕ → Area × Capability → Restriction
new_row pk p = record { user_id = pk; area = p.0; action = p.1 }

-- The account's rows are deleted, and one row is made for each proposed pair.
unfoldable pub replace_rows : ℕ → List (Area × Capability) → List Restriction → List Restriction
replace_rows pk proposed rows =
    keep (λ (r : Restriction). not (r.user_id == pk)) rows ++ map (new_row pk) proposed

-- What the checks let through.
unfoldable pub write_restrictions :
    User → ℕ → List (Area × Capability) → Text → Permissions → Permissions
write_restrictions a pk proposed reason s =
    let revision = suc (policy_of pk s.policies).revision in
    record {
      dir = record s.dir { restrictions = replace_rows pk proposed s.dir.restrictions };
      policies =
          put_policy
            (record { user_id = pk; revision = revision; updated_by = some a.pk; reason = reason })
            s.policies;
      audit =
          s.audit
          ++ record {
            actor = a.pk;
            target = pk;
            reason = reason;
            before = blocked_pairs pk s.dir.restrictions;
            after = proposed;
            revision = revision;
          }
            ∷ [];
    }

unfoldable pub set_restrictions :
    Bool
    → Option AdminSession
    → ℕ
    → ℕ
    → List (Area × Capability)
    → ℕ
    → Text
    → Permissions
    → Outcome Permissions
set_restrictions required request actor pk proposed expected reason s = do
  guard (not (is_empty (strip reason)) && leb (text_length (strip reason)) 2000) validation_error
  guard (for_all (λ (p : Area × Capability). applicable p.0 p.1) proposed) validation_error
  a ← administrator (row_of s.dir.users actor)
  guard (exists (λ (u : User). u.pk == pk) s.dir.users) validation_error
  guard (recently_verified required request a) permission_denied
  guard (expected == (policy_of pk s.policies).revision) validation_error
  success (write_restrictions a pk proposed (strip reason) s)
