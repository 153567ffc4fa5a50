-- ===== src/Accounts/Restricting/Written.antt =====
-- apps/accounts/capabilities.py: what accounts may do after `set_restrictions`.
use udm_doctrack.Base.{
  ℕ, suc, Bool, true, false, not, ◌&&◌, Option, none, some, List, [], ◌∷◌, ◌++◌, map, ◌≡◌, refl,
  sym, ◌∙◌, ap, subst, ◌==◌, ==_refl, get_or, if◌then◌else◌, exists, for_all, keep, leb, arith,
  Text, strip, text_length, is_empty, success, raised, guard, >>=-returned, guard-success,
  success-injective, not_returned, permission_denied, validation_error,
}
use udm_doctrack.Accounts.{User, is_system_admin, active_user}
use udm_doctrack.Accounts.Capabilities.{
  Area, Capability, applicable, Restriction, Directory, blocked_pairs, role_default, dependencies,
  in_snapshot, in_table, decide_with, capability_allowed, request_policy,
}
use udm_doctrack.Accounts.Overlay.{in_snapshot-in_table}
use udm_doctrack.Accounts.Restricting.{
  AdminSession, UserPermissionPolicy, Permissions, row_of, administrator, recently_verified,
  policy_of, replace_rows, new_row, write_restrictions, set_restrictions,
}

-- The account's pairs are the proposed ones, and no others changed.
blocked_pairs-new :
    (pk v : ℕ) (proposed : List (Area × Capability))
    → blocked_pairs v (map (new_row pk) proposed) ≡ (if v == pk then proposed else [])
blocked_pairs-new pk v [] = ground arith
blocked_pairs-new pk v (p ∷ proposed) = ground (arith, blocked_pairs-new pk v proposed)

blocked_pairs-append :
    (v : ℕ) (xs ys : List Restriction)
    → blocked_pairs v (xs ++ ys) ≡ blocked_pairs v xs ++ blocked_pairs v ys
blocked_pairs-append v [] ys = refl
blocked_pairs-append v (x ∷ xs) ys = ground (arith, blocked_pairs-append v xs ys)

blocked_pairs-kept :
    (pk v : ℕ) (rows : List Restriction)
    → blocked_pairs v (keep (λ r. not (r.user_id == pk)) rows)
      ≡ (if v == pk then [] else blocked_pairs v rows)
blocked_pairs-kept pk v [] = ground arith
blocked_pairs-kept pk v (r ∷ rows) = ground (arith, blocked_pairs-kept pk v rows)

append_nil {ℓ} : {A : Type ℓ} (xs : List A) → xs ++ [] ≡ xs
append_nil [] = refl
append_nil (x ∷ xs) = ap (λ ys. x ∷ ys) (append_nil xs)

pub replace_rows-blocked_pairs :
    (pk v : ℕ) (proposed : List (Area × Capability)) (rows : List Restriction)
    → blocked_pairs v (replace_rows pk proposed rows)
      ≡ (if v == pk then proposed else blocked_pairs v rows)
unfolding replace_rows
replace_rows-blocked_pairs pk v proposed rows =
    blocked_pairs-append v (keep (λ r. not (r.user_id == pk)) rows) (map (new_row pk) proposed)
    ∙ (ap (λ xs. xs ++ blocked_pairs v (map (new_row pk) proposed)) (blocked_pairs-kept pk v rows)
        ∙ (ap (λ ys. (if v == pk then [] else blocked_pairs v rows) ++ ys)
              (blocked_pairs-new pk v proposed)
            ∙ joined (v == pk)))
  where
    joined :
        (t : Bool)
        → ((if t then [] else blocked_pairs v rows) ++ (if t then proposed else []))
          ≡ (if t then proposed else blocked_pairs v rows)
    joined true = refl
    joined false = append_nil (blocked_pairs v rows)

-- What an account may do by its current row, with the given pairs taken away.
abbrev pub allowed_without : Option User → List (Area × Capability) → Area → Capability → Bool
allowed_without none blocked area action = false
allowed_without (some current) blocked area action =
    role_default current area action && not (in_snapshot blocked area (dependencies action))

abbrev pub blocked_after : Permissions → ℕ → List (Area × Capability) → ℕ → List (Area × Capability)
blocked_after s pk proposed v = if v == pk then proposed else blocked_pairs v s.dir.restrictions

row-pk : (rows : List User) (pk : ℕ) (u : User) → active_user rows pk ≡ some u → u.pk ≡ pk
unfolding active_user
row-pk [] pk u h = cc
row-pk (x ∷ rows) pk u h = ground (arith, row-pk rows pk u)

capability_allowed-rows :
    (dir : Directory) (v : User) (area : Area) (action : Capability) (fresh : Bool)
    (blocked : List (Area × Capability))
    → blocked_pairs v.pk dir.restrictions ≡ blocked
    → capability_allowed dir none v area action fresh
      ≡ (v.is_authenticated && allowed_without (active_user dir.users v.pk) blocked area action)
unfolding capability_allowed request_policy decide_with
capability_allowed-rows dir v area action fresh blocked e =
    by_row (active_user dir.users v.pk) refl fresh v.is_authenticated
  where
    decided :
        (current : User)
        → current.pk ≡ v.pk
        → in_table dir.restrictions current.pk area (dependencies action)
          ≡ in_snapshot blocked area (dependencies action)
    decided current same =
        ap (λ k. in_table dir.restrictions k area (dependencies action)) same
        ∙ (sym (in_snapshot-in_table dir.restrictions v.pk area (dependencies action))
            ∙ ap (λ xs. in_snapshot xs area (dependencies action)) e)

    by_row :
        (o : Option User)
        → active_user dir.users v.pk ≡ o
        → (f a : Bool)
        → (if not a
            then false
            else decide_with dir.restrictions (if f then none else none) o area action)
          ≡ (a && allowed_without o blocked area action)
    by_row o e' f false = refl
    by_row none e' true true = refl
    by_row none e' false true = refl
    by_row (some current) e' true true =
        ap (λ b. role_default current area action && not b)
          (decided current (row-pk dir.users v.pk current e'))
    by_row (some current) e' false true =
        ap (λ b. role_default current area action && not b)
          (decided current (row-pk dir.users v.pk current e'))

administrator-success :
    (o : Option User) (a : User)
    → administrator o ≡ success a
    → (o ≡ some a) × ((a.is_active ≡ true) × (is_system_admin a ≡ true))
administrator-success none a h = elim (not_returned permission_denied a h) [ ]
administrator-success (some b) a h = by_role (b.is_active && is_system_admin b) refl h
  where
    conj : (p q : Bool) → (p && q) ≡ true → (p ≡ true) × (q ≡ true)
    conj p q e = ground arith

    by_role :
        (t : Bool)
        → (b.is_active && is_system_admin b) ≡ t
        → (if t then success b else raised permission_denied) ≡ success a
        → (some b ≡ some a) × ((a.is_active ≡ true) × (is_system_admin a ≡ true))
    by_role false e k = elim (not_returned permission_denied a k) [ ]
    by_role true e k = (
      ap some (success-injective k),
      subst (λ (x : User). (x.is_active ≡ true) × (is_system_admin x ≡ true)) (success-injective k)
          (conj b.is_active (is_system_admin b) e),
    )

-- When `set_restrictions` returned, it did so for an active system administrator and for the
-- policy's current revision; every account may then do what its current row's role gives, less the
-- proposed pairs if it is the account concerned and less its earlier pairs otherwise, and the
-- policy's revision is one higher.
pub set_restrictions-capability_allowed :
    (required : Bool) (request : Option AdminSession) (actor pk : ℕ)
    (proposed : List (Area × Capability)) (expected : ℕ) (reason : Text) (s s' : Permissions)
    (v : User) (area : Area) (action : Capability) (fresh : Bool)
    → set_restrictions required request actor pk proposed expected reason s ≡ success s'
    → (a : User) × (row_of s.dir.users actor ≡ some a)
      × (a.is_active ≡ true)
      × (is_system_admin a ≡ true)
      × (expected ≡ (policy_of pk s.policies).revision)
      × (capability_allowed s'.dir none v area action fresh ≡ (
          v.is_authenticated
          && allowed_without
              (active_user s.dir.users v.pk)
              (blocked_after s pk proposed v.pk)
              area
              action))
      × ((policy_of pk s'.policies).revision ≡ suc expected)
unfolding set_restrictions write_restrictions
set_restrictions-capability_allowed required request actor pk proposed expected reason s s' v area
      action fresh h =
    >>=-returned
      (guard (not (is_empty (strip reason)) && leb (text_length (strip reason)) 2000)
        validation_error)
      _ h
      (λ _ _ h1.
        >>=-returned
          (guard (for_all (λ (p : Area × Capability). applicable p.0 p.1) proposed)
            validation_error)
          _ h1
          (λ _ _ h2. >>=-returned (administrator (row_of s.dir.users actor)) _ h2 (λ a admin h3.
            >>=-returned (guard (exists (λ (u : User). u.pk == pk) s.dir.users) validation_error) _
              h3
              (λ _ _ h4.
                >>=-returned (guard (recently_verified required request a) permission_denied) _ h4
                  (λ _ _ h5.
                    >>=-returned
                      (guard (expected == (policy_of pk s.policies).revision) validation_error) _ h5
                      (λ _ level e.
                        let role = administrator-success (row_of s.dir.users actor) a admin in
                        let same = current expected (policy_of pk s.policies).revision (
                          guard-success (expected == (policy_of pk s.policies).revision)
                            validation_error level) in
                        (
                          a,
                          role.0,
                          role.1.0,
                          role.1.1,
                          same,
                          subst
                              (λ (x : Permissions).
                                capability_allowed x.dir none v area action fresh ≡ (
                                  v.is_authenticated
                                  && allowed_without (active_user s.dir.users v.pk)
                                      (blocked_after s pk proposed v.pk) area action))
                              (success-injective e)
                              (capability_allowed-rows
                                (write_restrictions a pk proposed (strip reason) s).dir v area
                                action fresh (blocked_after s pk proposed v.pk)
                                (replace_rows-blocked_pairs pk v.pk proposed s.dir.restrictions)),
                          subst
                              (λ (x : Permissions).
                                (policy_of pk x.policies).revision ≡ suc expected)
                              (success-injective e) (found _ _ _ pk ∙ ap suc (sym same)),
                        )))))))
  where
    current : (m n : ℕ) → (m == n) ≡ true → m ≡ n
    current m n e = ground arith

    found :
        (new other : UserPermissionPolicy) (o : Option UserPermissionPolicy) (k : ℕ)
        → (get_or (if k == k then some new else o) other).revision ≡ new.revision
    found new other o k = rw (==_refl k) refl
