-- ===== src/Tracking/Services/Share/Granted.antt =====
-- apps/tracking/services.py, `grant_access`, and what an account sees (`visible_to`).
use udm_doctrack.Base.{
  ℕ, ◌==◌, Bool, true, false, not, ◌&&◌, ◌||◌, none, some, List, [], ◌∷◌, ◌++◌, ◌≡◌, refl, ◌∙◌, ap,
  sym, subst, is_key, exists, exists-append, Text, arith, if◌then◌else◌, Bool-cases, inl, inr,
  success, guard, >>=-returned, success-injective, permission_denied, ==_refl,
}
use udm_doctrack.Accounts.{User, is_office_admin, is_system_admin, known_role, active_user}
use udm_doctrack.Accounts.Capabilities.{
  Directory, tracking, view_record, share, current_actor, request_policy, capability_allowed,
}
use udm_doctrack.Tracking.{RecordAccessGrant, TrackingRecord, is_draft}
use udm_doctrack.Tracking.Access.{
  can_user_view, visible_to_actor, visible_from, visible_in_office, on_route, can_user_grant_access,
}
use udm_doctrack.Tracking.Services.{Env, Desk, add_activity, refuse_viewers}
use udm_doctrack.Tracking.Services.Authority.{guarded-success}
use udm_doctrack.Tracking.Services.Share.{
  ShareRequest, Grantee, to_user, grantee_of, user_grantee, within_reach, check_share, is_for,
  new_grant, share_doc, create_grant, share_with, share_body, grant_access,
}

-- A grant for the account is one that the query for its grants finds.
for_user :
    (u : User) (grants : List RecordAccessGrant)
    → exists (is_for (to_user u)) grants ≡ true
    → exists (λ (g : RecordAccessGrant). is_key g.user u.pk) grants ≡ true
for_user u [] h = h
for_user u (g ∷ grants) h = ground (arith, for_user u grants)

share_with-granted :
    (env : Env) (u target : User) (reason : Text) (d : Desk)
    → (exists
          (λ (g : RecordAccessGrant). is_key g.user target.pk)
          (share_with env u reason (to_user target) d).doc.grants
        ≡ true)
      × ((share_with env u reason (to_user target) d).doc.status ≡ d.doc.status)
unfolding share_with create_grant share_doc add_activity
share_with-granted env u target reason d =
    elim (Bool-cases (exists (is_for (to_user target)) d.doc.grants)) [
      | inl there ↦ rw there (for_user target d.doc.grants there, refl)
      | inr missing ↦ rw missing (added, refl)
    ]
  where
    or_last : (b c : Bool) → c ≡ true → (b || (c || false)) ≡ true
    or_last b c h = ground arith

    added :
        exists
          (λ (g : RecordAccessGrant). is_key g.user target.pk)
          (d.doc.grants ++ new_grant u reason (to_user target) ∷ [])
        ≡ true
    added =
        exists-append (λ (g : RecordAccessGrant). is_key g.user target.pk) d.doc.grants
          (new_grant u reason (to_user target) ∷ [])
        ∙ or_last (exists (λ (g : RecordAccessGrant). is_key g.user target.pk) d.doc.grants)
            (target.pk == target.pk) (==_refl target.pk)

grantee_of-user :
    (env : Env) (target : User)
    → active_user env.dir.users target.pk ≡ some target
    → grantee_of env none (some target.pk) ≡ success (to_user target)
unfolding grantee_of
grantee_of-user env target row = ap user_grantee row

-- Whom a call with an account's key has shared with.
check_share-target :
    (env : Env) (r : TrackingRecord) (u target : User) (q : ShareRequest) (g : Grantee)
    → q.office ≡ none
    → q.target_user ≡ some target.pk
    → active_user env.dir.users target.pk ≡ some target
    → check_share env r u q ≡ success g
    → to_user target ≡ g
unfolding check_share
check_share-target env r u target q g no_office target_key row h =
    >>=-returned (refuse_viewers u) _ h (λ _ _ h1.
      >>=-returned (guard (can_user_grant_access env.dir none r u) permission_denied) _ h1
        (λ _ _ h2. >>=-returned (grantee_of env q.office q.target_user) _ h2 (λ chosen found h3.
          >>=-returned (guard (within_reach u chosen) permission_denied) _ h3
            (λ _ _ e. success-injective (sym (lookup found)) ∙ success-injective e))))
  where
    lookup :
        {chosen : Grantee}
        → grantee_of env q.office q.target_user ≡ success chosen
        → success chosen ≡ success (to_user target)
    lookup found =
        sym found
        ∙ ap (λ key. grantee_of env key q.target_user) no_office
        ∙ ap (grantee_of env none) target_key
        ∙ grantee_of-user env target row

seen_by_grant :
    (r : TrackingRecord) (u : User) (office : ℕ)
    → exists (λ (g : RecordAccessGrant). is_key g.user u.pk) r.grants ≡ true
    → is_draft r.status ≡ false
    → is_office_admin u ≡ false
    → visible_in_office r u office ≡ true
unfolding visible_in_office
seen_by_grant r u office shared sent staff =
    rw (staff, shared, sent)
      (ladder (r.created_by == u.pk) (r.originating_office == office) (on_route r office)
        (exists (λ (g : RecordAccessGrant). is_key g.office office) r.grants))
  where
    ladder :
        (own origin routed office_grant : Bool)
        → ((own || (origin || (routed || (true || office_grant)))) && not (not own && false)) ≡ true
    ladder own origin routed office_grant = ground arith

-- What a signed-in, active account with the capability sees is what its office sees.
can_user_view-office :
    (dir : Directory) (r : TrackingRecord) (u : User) (office : ℕ)
    → active_user dir.users u.pk ≡ some u
    → (u.is_authenticated && (u.is_active && known_role u.role)) ≡ true
    → capability_allowed dir none u tracking view_record false ≡ true
    → u.office_id ≡ some office
    → visible_in_office r u office ≡ true
    → can_user_view dir none r u ≡ true
unfolding can_user_view current_actor request_policy visible_to_actor visible_from
can_user_view-office dir r u office row valid may at_office sees =
    ap
      (λ actor. visible_to_actor dir none r (
        if not u.is_authenticated || (not u.is_active || not (known_role u.role))
        then none
        else actor))
      row
    ∙ signed_in
  where
    open_to :
        (auth active known may everywhere sees : Bool)
        → (auth && (active && known)) ≡ true
        → may ≡ true
        → sees ≡ true
        → (if not may
            then false
            else if not auth || (not active || not known)
            then false
            else if everywhere
            then true
            else sees)
          ≡ true
    open_to auth active known may everywhere sees a b c = ground arith

    no_bar :
        (auth active known : Bool)
        → (auth && (active && known)) ≡ true
        → (not auth || (not active || not known)) ≡ false
    no_bar auth active known h = ground arith

    signed_in :
        visible_to_actor dir none r (
          if not u.is_authenticated || (not u.is_active || not (known_role u.role))
          then none
          else some u)
        ≡ true
    signed_in =
        ap (λ bar. visible_to_actor dir none r (if bar then none else some u))
          (no_bar u.is_authenticated u.is_active (known_role u.role) valid)
        ∙ open_to u.is_authenticated u.is_active (known_role u.role)
            (capability_allowed dir none u tracking view_record false) (is_system_admin u)
            (visible_from r u u.office_id) valid may (ap (visible_from r u) at_office ∙ sees)

-- When a share with an account returns, that account sees the record: if the record is no draft and
-- the account, at its current row, is signed in and active, has a known role other than an
-- administrator's, an office, and the capability to view tracking records.
pub grant_access-can_user_view :
    (env : Env) (d d' : Desk) (u target : User) (q : ShareRequest) (office : ℕ)
    → q.office ≡ none
    → q.target_user ≡ some target.pk
    → is_draft d.doc.status ≡ false
    → active_user env.dir.users target.pk ≡ some target
    → (target.is_authenticated && (target.is_active && known_role target.role)) ≡ true
    → is_office_admin target ≡ false
    → target.office_id ≡ some office
    → capability_allowed env.dir none target tracking view_record false ≡ true
    → grant_access env d u q ≡ success d'
    → can_user_view env.dir none d'.doc target ≡ true
unfolding grant_access share_body
grant_access-can_user_view env d d' u target q office no_office target_key sent row valid staff
      at_office may h =
    let done = guarded-success env share (share_body env d q) u h in
    >>=-returned (check_share env d.doc done.actor q) _ done.returned (λ g passed e.
      let chosen =
        check_share-target env d.doc done.actor target q g no_office target_key row passed in
      let result : share_with env done.actor q.reason (to_user target) d ≡ d' =
        ap (λ x. share_with env done.actor q.reason x d) chosen ∙ success-injective e in
      let (shared, status) = share_with-granted env done.actor target q.reason d in
      subst (λ (x : Desk). can_user_view env.dir none x.doc target ≡ true) result
        (can_user_view-office env.dir (share_with env done.actor q.reason (to_user target) d).doc
          target office row valid may at_office
          (seen_by_grant (share_with env done.actor q.reason (to_user target) d).doc target office
            shared (ap is_draft status ∙ sent) staff)))
