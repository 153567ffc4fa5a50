-- ===== src/Accounts/Overlay.antt =====
-- apps/accounts/capabilities.py: the table of restrictions, read afresh or from a snapshot.
use udm_doctrack.Base.{
  ℕ, Bool, true, false, not, ◌&&◌, ◌||◌, Option, none, some, List, [], ◌∷◌, ◌++◌, ◌≡◌, refl, ◌∙◌,
  ◌⊎◌, inl, inr, ◌==◌, is_some, exists, arith, if◌then◌else◌,
}
use udm_doctrack.Accounts.{
  User, Role, can_start_work, active_user, known_role, is_system_admin_role, is_viewer_role,
  is_admin_role, is_staff_role,
}
use udm_doctrack.Accounts.Capabilities.{
  Area, Capability, Restriction, Directory, Request, view_record, same_area, same_capability,
  is_reading, applicable, role_default, dependencies, in_snapshot, in_table, blocked_pairs,
  capability_allowed, permission_snapshot, decide_with, listed_with, is_administrative,
  needs_content, view_content, current_actor, request_policy,
}

-- A restriction that concerns the key in the area.
abbrev hits : Restriction → ℕ → Area → Capability → Bool
hits r pk area key = (r.user_id == pk) && (same_area r.area area && same_capability r.action key)

exists_pairs :
    (rows : List Restriction) (pk : ℕ) (area : Area) (key : Capability)
    → exists (λ p. same_area p.0 area && same_capability p.1 key) (blocked_pairs pk rows)
      ≡ exists (λ r. hits r pk area key) rows
exists_pairs [] pk area key = refl
exists_pairs (r ∷ rows) pk area key = ground (arith, exists_pairs rows pk area key)

distribute :
    (u a k rest x y : Bool)
    → ((u && (a && (k || rest))) || (x || y))
      ≡ (((u && (a && k)) || x) || ((u && (a && rest)) || y))
distribute u a k rest x y = ground arith

in_table_cons :
    (rows : List Restriction) (pk : ℕ) (area : Area) (key : Capability) (keys : List Capability)
    → in_table rows pk area (key ∷ keys)
      ≡ (exists (λ r. hits r pk area key) rows || in_table rows pk area keys)
in_table_cons [] pk area key keys = refl
in_table_cons (r ∷ rows) pk area key keys = rw (in_table_cons rows pk area key keys) (
    distribute (r.user_id == pk) (same_area r.area area) (same_capability r.action key)
      (exists (same_capability r.action) keys) (exists (λ x. hits x pk area key) rows)
      (in_table rows pk area keys))

in_table_nil : (rows : List Restriction) (pk : ℕ) (area : Area) → in_table rows pk area [] ≡ false
in_table_nil [] pk area = refl
in_table_nil (r ∷ rows) pk area = ground (arith, in_table_nil rows pk area)

-- The query on the table and the search in a set of pairs taken from it find the same.
pub in_snapshot-in_table :
    (rows : List Restriction) (pk : ℕ) (area : Area) (keys : List Capability)
    → in_snapshot (blocked_pairs pk rows) area keys ≡ in_table rows pk area keys
in_snapshot-in_table rows pk area [] = ground (arith, in_table_nil rows pk area)
in_snapshot-in_table rows pk area (key ∷ keys) = ground (
  arith,
  exists_pairs rows pk area key,
  in_table_cons rows pk area key keys,
  in_snapshot-in_table rows pk area keys,
)

or_again : (x : Bool) → (x || false) ≡ (x || (x || false))
or_again x = ground arith

-- Repeating a key in the list of dependencies changes nothing.
dependencies_listed :
    (blocked : List (Area × Capability)) (area : Area) (action : Capability)
    → in_snapshot blocked area (dependencies action)
      ≡ in_snapshot blocked area
          (action ∷ view_record ∷ (if needs_content action then view_content ∷ [] else []))
unfolding dependencies
dependencies_listed blocked area view_record =
    or_again (exists (λ p. same_area p.0 area && same_capability p.1 view_record) blocked)
dependencies_listed blocked area _ = refl

actor_from_snapshot :
    (dir : Directory) (q : Option Request) (u : User) {current : User}
    {s : User × List (Area × Capability)}
    → request_policy dir q u ≡ some s
    → current_actor dir q u ≡ some current
    → (u.is_authenticated ≡ true) × (s.0 ≡ current)
unfolding current_actor
actor_from_snapshot dir q u held e = ground arith

actor_from_table :
    (dir : Directory) (q : Option Request) (u : User) {current : User}
    → request_policy dir q u ≡ none
    → current_actor dir q u ≡ some current
    → (u.is_authenticated ≡ true) × (active_user dir.users u.pk ≡ some current)
unfolding current_actor
actor_from_table dir q u none_held e = ground arith

-- The two ladders over what was looked up.
listed-decided :
    (rows : List Restriction) (policy : Option (User × List (Area × Capability)))
    (row : Option User) (current : User) (area : Area) (action : Capability)
    → applicable area action ≡ true
    → (policy ≡ none → row ≡ some current)
    → ((s : User × List (Area × Capability)) → policy ≡ some s → s.0 ≡ current)
    → listed_with rows policy (some current) area action
      ≡ some (decide_with rows policy row area action)
unfolding listed_with decide_with
listed-decided rows (some (holder, blocked)) row current area action applies table held =
    rw (applies, held (holder, blocked) refl) (rw (dependencies_listed blocked area action) refl)
listed-decided rows none row current area action applies table held =
    rw (applies, table refl)
      (rw
        (
          ← dependencies_listed (blocked_pairs current.pk rows) area action,
          in_snapshot-in_table rows current.pk area (dependencies action),
        )
        refl)

gate_open : (b x : Bool) → b ≡ true → (if not b then false else x) ≡ x
gate_open b x e = ground arith

gate_passed : (b x : Bool) → (if not b then false else x) ≡ true → (b ≡ true) × (x ≡ true)
gate_passed b x h = ground arith

actor_signed_in :
    (dir : Directory) (q : Option Request) (u : User) {current : User}
    → current_actor dir q u ≡ some current
    → u.is_authenticated ≡ true
unfolding current_actor
actor_signed_in dir q u e = ground arith

-- For an account that counts as signed in, each listed decision of `permission_snapshot` is the
-- answer that `capability_allowed` gives for it, from a request's snapshot and from the table alike.
pub permission_snapshot-capability_allowed :
    (dir : Directory) (q : Option Request) (u current : User) (area : Area) (action : Capability)
    → current_actor dir q u ≡ some current
    → applicable area action ≡ true
    → permission_snapshot dir q u area action ≡ some (capability_allowed dir q u area action false)
unfolding permission_snapshot capability_allowed
permission_snapshot-capability_allowed dir q u current area action e applies =
    rw
      (
        gate_open u.is_authenticated
            (decide_with dir.restrictions (request_policy dir q u) (active_user dir.users u.pk) area
              action)
            (actor_signed_in dir q u e),
        e,
      )
      (listed-decided dir.restrictions (request_policy dir q u) (active_user dir.users u.pk) current
        area action applies (λ none_held. (actor_from_table dir q u none_held e).1)
        (λ s found. (actor_from_snapshot dir q u found e).1))

-- The ladder of `role_default` over its tests.
writes_gate :
    (applies active reading office administrative : Bool) (r : Role)
    → reading ≡ false
    → (if not applies || not active
        then false
        else if not (known_role r)
        then false
        else if reading
        then true
        else if not (is_system_admin_role r) && not office
        then false
        else if is_viewer_role r
        then false
        else if administrative
        then is_admin_role r || is_system_admin_role r
        else active && is_staff_role r)
      ≡ true
    → (active && is_staff_role r && (office || is_system_admin_role r)) ≡ true
writes_gate applies active reading office administrative r writes h = ground arith

role_default_writes :
    (u : User) (area : Area) (action : Capability)
    → is_reading action ≡ false
    → role_default u area action ≡ true
    → can_start_work u ≡ true
unfolding role_default can_start_work
role_default_writes u area action writes h =
    writes_gate (applicable area action) u.is_active (is_reading action) (is_some u.office_id)
      (is_administrative area action) u.role writes h

both_hold : (a b : Bool) → (a && not b) ≡ true → (a ≡ true) × (b ≡ false)
both_hold a b e = ground arith

-- What allowed the action: the row that was decided on, of which the role allows it.
decided_row :
    (rows : List Restriction) (policy : Option (User × List (Area × Capability)))
    (row : Option User) (area : Area) (action : Capability)
    → decide_with rows policy row area action ≡ true
    → (current : User) × (role_default current area action ≡ true)
      × (((policy ≡ none) × (row ≡ some current))
          ⊎ ((blocked : List (Area × Capability)) × (policy ≡ some (current, blocked))))
unfolding decide_with
decided_row rows none none area action h = cc
decided_row rows none (some current) area action h =
    let (role, free) =
      both_hold (role_default current area action)
        (in_table rows current.pk area (dependencies action)) h in
    (current, role, inl (refl, refl))
decided_row rows (some (holder, blocked)) row area action h =
    let (role, free) =
      both_hold (role_default holder area action) (in_snapshot blocked area (dependencies action))
        h in
    (holder, role, inr (blocked, refl))

-- A capability that writes is only ever granted by a row that may start work: it is active, no
-- viewer, and has an office unless it administers the system. That row is the account's current one
-- in the table, or, if the decision was not asked to be fresh, the one that the request's snapshot
-- holds.
pub capability_allowed-writes :
    (dir : Directory) (q : Option Request) (u : User) (area : Area) (action : Capability)
    (fresh : Bool)
    → is_reading action ≡ false
    → capability_allowed dir q u area action fresh ≡ true
    → (current : User) × (can_start_work current ≡ true)
      × ((active_user dir.users u.pk ≡ some current)
          ⊎ ((fresh ≡ false)
              × ((blocked : List (Area × Capability)) × (request_policy dir q u
                    ≡ some (current, blocked)))))
unfolding capability_allowed
capability_allowed-writes dir q u area action fresh writes h =
    let (signed_in, decided) = gate_passed u.is_authenticated _ h in
    let (current, role, from) =
      decided_row dir.restrictions (if fresh then none else request_policy dir q u)
        (active_user dir.users u.pk) area action decided in
    (current, role_default_writes current area action writes role, source fresh current from)
  where
    source :
        (b : Bool) (current : User)
        → (((if b then none else request_policy dir q u) ≡ none)
            × (active_user dir.users u.pk ≡ some current))
          ⊎ ((blocked : List (Area × Capability)) × ((if b then none else request_policy dir q u)
                ≡ some (current, blocked)))
        → (active_user dir.users u.pk ≡ some current)
          ⊎ ((b ≡ false)
              × ((blocked : List (Area × Capability)) × (request_policy dir q u
                    ≡ some (current, blocked))))
    source b current (inl at) = inl at.1
    source true current (inr (blocked, e)) = elim (absent (current, blocked) e) [ ]
      where
        absent : (s : User × List (Area × Capability)) → none ≡ some s → ⊥
        absent s w = cc
    source false current (inr held) = inr (refl, held)

drop_left : (a b : Bool) → (a || b) ≡ false → b ≡ false
drop_left a b e = ground arith

in_table_mono :
    (extra rows : List Restriction) (pk : ℕ) (area : Area) (keys : List Capability)
    → in_table (extra ++ rows) pk area keys ≡ false
    → in_table rows pk area keys ≡ false
in_table_mono [] rows pk area keys h = h
in_table_mono (r ∷ extra) rows pk area keys h = in_table_mono extra rows pk area keys (
    drop_left
      ((r.user_id == pk) && (same_area r.area area && exists (same_capability r.action) keys))
      (in_table (extra ++ rows) pk area keys) h)

decide_mono :
    (extra rows : List Restriction) (row : Option User) (area : Area) (action : Capability)
    → decide_with (extra ++ rows) none row area action ≡ true
    → decide_with rows none row area action ≡ true
unfolding decide_with
decide_mono extra rows none area action h = h
decide_mono extra rows (some current) area action h =
    let (role, free) =
      both_hold (role_default current area action)
        (in_table (extra ++ rows) current.pk area (dependencies action)) h in
    rw (role, in_table_mono extra rows current.pk area (dependencies action) free)

-- Restrictions only take away: what a fresh reading allows with more of them in the table it allows
-- with fewer.
pub restrictions_only_deny :
    (dir : Directory) (extra : List Restriction) (u : User) (area : Area) (action : Capability)
    → capability_allowed
        (record dir { restrictions = extra ++ dir.restrictions })
        none
        u
        area
        action
        true
      ≡ true
    → capability_allowed dir none u area action true ≡ true
unfolding capability_allowed
restrictions_only_deny dir extra u area action h =
    let (signed_in, decided) = gate_passed u.is_authenticated _ h in
    gate_open u.is_authenticated _ signed_in
    ∙ decide_mono extra dir.restrictions (active_user dir.users u.pk) area action decided
