-- ===== src/Tracking/Access/Laws.antt =====
-- apps/tracking/models.py: how acting on a record, seeing it and having custody of it relate.
use udm_doctrack.Base.{
  ℕ, Bool, true, false, not, ◌&&◌, ◌||◌, Option, none, some, List, [], ◌∷◌, ◌≡◌, ◌⊎◌, inl, inr,
  ◌==◌, if◌then◌else◌, is_some, is_key, arith, ==_iff, Bool-cases, Option-cases,
}
use udm_doctrack.Accounts.{
  User, known_role, is_system_admin, is_office_admin, is_viewer, is_records_staff, can_start_work,
  active_user,
}
use udm_doctrack.Accounts.Capabilities.{
  tracking, view_record, Directory, Request, current_actor, request_policy, capability_allowed,
}
use udm_doctrack.Tracking.{TrackingRecord, is_draft, is_completed, has_custody}
use udm_doctrack.Tracking.Access.{
  visible_from, visible_in_office, visible_to_actor, can_user_view, may_act, can_actor_act,
  can_user_act, on_route, granted,
}

-- The row found for a key carries it and is active.
pub active_user-pk :
    (rows : List User) (pk : ℕ) (u : User)
    → active_user rows pk ≡ some u
    → (u.pk ≡ pk) × (u.is_active ≡ true)
unfolding active_user
active_user-pk [] pk u h = cc
active_user-pk (x ∷ rows) pk u h = ground (arith, active_user-pk rows pk u)

loaded :
    (dir : Directory) (u : User) {a : User}
    → current_actor dir none u ≡ some a
    → active_user dir.users u.pk ≡ some a
unfolding current_actor request_policy
loaded dir u e = ground arith

-- Reloading a row that was just loaded gives it again.
pub current_actor_again :
    (dir : Directory) (u a : User)
    → current_actor dir none u ≡ some a
    → a.is_authenticated ≡ true
    → known_role a.role ≡ true
    → current_actor dir none a ≡ some a
unfolding current_actor request_policy
current_actor_again dir u a e signed_in known =
    let found = loaded dir u e in
    let (same, active) = active_user-pk dir.users u.pk a found in
    ground (arith, found, same, active)

-- The tests of `can_actor_act` that passed.
act_tests :
    (dir : Directory) (q : Option Request) (r : TrackingRecord) (a : User)
    → can_actor_act dir q r (some a) ≡ true
    → (capability_allowed dir q a tracking view_record false ≡ true)
      × (a.is_authenticated ≡ true)
      × (can_start_work a ≡ true)
      × (is_completed r.status ≡ false)
      × ((is_system_admin a || may_act dir q r a) ≡ true)
unfolding can_actor_act
act_tests dir q r a h =
    ladder (capability_allowed dir q a tracking view_record false) a.is_authenticated
      (can_start_work a) (is_completed r.status) (is_viewer a) (is_system_admin a)
      (may_act dir q r a) h
  where
    ladder :
        (allowed signed_in starts over viewer everywhere may : Bool)
        → (if not allowed
            then false
            else if not signed_in || (not starts || over)
            then false
            else if viewer
            then false
            else if everywhere
            then true
            else may)
          ≡ true
        → (allowed ≡ true)
          × (signed_in ≡ true)
          × (starts ≡ true)
          × (over ≡ false)
          × ((everywhere || may) ≡ true)
    ladder allowed signed_in starts over viewer everywhere may h = ground arith

-- A working account is active and has a known role.
pub starts_known :
    (a : User) → can_start_work a ≡ true → (a.is_active ≡ true) × (known_role a.role ≡ true)
unfolding can_start_work
starts_known a h = ground arith

admin_sees :
    (dir : Directory) (q : Option Request) (r : TrackingRecord) (a : User)
    → capability_allowed dir q a tracking view_record false ≡ true
    → a.is_authenticated ≡ true
    → a.is_active ≡ true
    → known_role a.role ≡ true
    → is_system_admin a ≡ true
    → visible_to_actor dir q r (some a) ≡ true
unfolding visible_to_actor
admin_sees dir q r a allowed signed_in active known everywhere =
    ladder _ _ _ _ _ _ allowed signed_in active known everywhere
  where
    ladder :
        (allowed signed_in active known everywhere rest : Bool)
        → allowed ≡ true
        → signed_in ≡ true
        → active ≡ true
        → known ≡ true
        → everywhere ≡ true
        → (if not allowed
            then false
            else if not signed_in || (not active || not known)
            then false
            else if everywhere
            then true
            else rest)
          ≡ true
    ladder allowed signed_in active known everywhere rest a b c d e = ground arith

may_act-view :
    (dir : Directory) (q : Option Request) (r : TrackingRecord) (a : User)
    → may_act dir q r a ≡ true
    → can_user_view dir q r a ≡ true
unfolding may_act
may_act-view dir q r a h = elim (Bool-cases (can_user_view dir q r a)) [
  | inl sees ↦ sees
  | inr hidden ↦ cc (rw hidden at h)
]

nobody_acts :
    (dir : Directory) (q : Option Request) (r : TrackingRecord)
    → can_actor_act dir q r none ≡ true
    → ⊥
unfolding can_actor_act
nobody_acts dir q r h = cc

-- Outside a web request, whoever may act on a record may see it.
pub can_user_act-view :
    (dir : Directory) (r : TrackingRecord) (u : User)
    → can_user_act dir none r u ≡ true
    → can_user_view dir none r u ≡ true
unfolding can_user_act can_user_view
can_user_act-view dir r u h = elim (Option-cases (current_actor dir none u)) [
  | inl nobody ↦ absurd (nobody_acts dir none r (rw nobody at h))
  | inr (a, e) ↦
      let (allowed, signed_in, starts, over, ways) = act_tests dir none r a (rw e at h) in
      let (active, known) = starts_known a starts in
      rw e (elim (Bool-cases (is_system_admin a)) [
        | inl everywhere ↦ admin_sees dir none r a allowed signed_in active known everywhere
        | inr own_office ↦
            let seen : can_user_view dir none r a ≡ true =
              may_act-view dir none r a (rw own_office at ways) in
            rw (current_actor_again dir u a e signed_in known) at seen
      ])
]

-- If the current account behind a user may act on a record that is no draft, then the record is not
-- completed, and the account is a system administrator or its office has custody: it has confirmed
-- receipt of a step of the current batch.
pub can_user_act-custody :
    (dir : Directory) (q : Option Request) (r : TrackingRecord) (u a : User)
    → current_actor dir q u ≡ some a
    → is_draft r.status ≡ false
    → can_user_act dir q r u ≡ true
    → (is_completed r.status ≡ false)
      × ((is_system_admin a ≡ true) ⊎ (has_custody r a.office_id ≡ true))
unfolding can_user_act
can_user_act-custody dir q r u a e sent h =
    let (allowed, signed_in, starts, over, ways) = act_tests dir q r a (rw e at h) in
    (
      over,
      (elim (Bool-cases (is_system_admin a)) [
        | inl everywhere ↦ inl everywhere
        | inr own_office ↦ inr (under_way dir q r a sent (rw own_office at ways))
      ]),
    )
  where
    ladder :
        (sees drafted own office custody : Bool)
        → drafted ≡ false
        → (if not sees then false else if drafted then own else office && custody) ≡ true
        → custody ≡ true
    ladder sees drafted own office custody d h = ground arith

    under_way :
        (dir : Directory) (q : Option Request) (r : TrackingRecord) (a : User)
        → is_draft r.status ≡ false
        → may_act dir q r a ≡ true
        → has_custody r a.office_id ≡ true
    under_way dir q r a sent m =
        ladder (can_user_view dir q r a) (is_draft r.status)
          ((r.created_by == a.pk)
            || (is_records_staff a && is_key a.office_id r.originating_office))
          (is_some a.office_id) (has_custody r a.office_id) sent (unfold may_act in m)

-- Both filters of `visible_in_office` end in the test for other people's drafts.
own_work :
    (admin x y own drafted : Bool)
    → drafted ≡ true
    → (if admin then x && not (not own && drafted) else y && not (not own && drafted)) ≡ true
    → own ≡ true
own_work admin x y own drafted d h = ground arith

own_draft :
    (r : TrackingRecord) (a : User) (office : Option ℕ)
    → is_draft r.status ≡ true
    → visible_from r a office ≡ true
    → r.created_by ≡ a.pk
unfolding visible_from visible_in_office
own_draft r a none drafted h = cc
own_draft r a (some office) drafted h = (==_iff r.created_by a.pk).0 (
    own_work (is_office_admin a)
      ((r.originating_office == office) || (is_key r.current_office office || on_route r office))
      ((r.created_by == a.pk)
        || ((r.originating_office == office) || (on_route r office || granted r a office)))
      (r.created_by == a.pk) (is_draft r.status) drafted h)

seen_by :
    (allowed signed_in active known everywhere rest : Bool)
    → (if not allowed
        then false
        else if not signed_in || (not active || not known)
        then false
        else if everywhere
        then true
        else rest)
      ≡ true
    → (everywhere ≡ true) ⊎ (rest ≡ true)
seen_by allowed signed_in active known everywhere rest h = ground arith

-- If the current account behind a user sees a draft, it is a system administrator or the draft's
-- author.
pub draft_private :
    (dir : Directory) (q : Option Request) (r : TrackingRecord) (u a : User)
    → current_actor dir q u ≡ some a
    → is_draft r.status ≡ true
    → can_user_view dir q r u ≡ true
    → (is_system_admin a ≡ true) ⊎ (r.created_by ≡ a.pk)
unfolding can_user_view visible_to_actor
draft_private dir q r u a e drafted h =
    elim (seen_by (capability_allowed dir q a tracking view_record false) a.is_authenticated
      a.is_active (known_role a.role) (is_system_admin a) (visible_from r a a.office_id)
      (rw e at h)) [
        | inl everywhere ↦ inl everywhere
        | inr inside ↦ inr (own_draft r a a.office_id drafted inside)
      ]

-- Nobody acts on a completed record.
pub can_user_act-active :
    (dir : Directory) (q : Option Request) (r : TrackingRecord) (u : User)
    → can_user_act dir q r u ≡ true
    → is_completed r.status ≡ false
unfolding can_user_act
can_user_act-active dir q r u h = by_actor (current_actor dir q u) h
  where
    by_actor : (a : Option User) → can_actor_act dir q r a ≡ true → is_completed r.status ≡ false
    by_actor none h = absurd (nobody_acts dir q r h)
    by_actor (some a) h = (act_tests dir q r a h).3
