-- ===== src/Accounts/Administration.antt =====
-- apps/accounts/models.py: the check on one account, `can_administer`, beside the list query,
-- `administrable_by`.
use udm_doctrack.Base.{
  ℕ, Bool, true, false, Option, if◌then◌else◌, ◌||◌, List, [], ◌∷◌, ◌≡◌, refl, keep, is_some, sym,
  not, ◌&&◌, arith, Bool-cases, inl, inr, opt_eq,
}
use udm_doctrack.Accounts.{User, is_system_admin, is_office_admin, can_administer, administrable_by}

keep_all : (p : User → Bool) (rows : List User) → ((u : User) → p u ≡ true) → keep p rows ≡ rows
keep_all p [] h = refl
keep_all p (u ∷ rows) h = ground (arith, h u, keep_all p rows h)

keep_none : (p : User → Bool) (rows : List User) → ((u : User) → p u ≡ false) → keep p rows ≡ []
keep_none p [] h = refl
keep_none p (u ∷ rows) h = ground (arith, h u, keep_none p rows h)

keep_cong :
    (p q : User → Bool) (rows : List User) → ((u : User) → p u ≡ q u) → keep p rows ≡ keep q rows
keep_cong p q [] h = refl
keep_cong p q (u ∷ rows) h = ground (arith, h u, keep_cong p q rows h)

opt_eq_comm : (a b : Option ℕ) → opt_eq a b ≡ opt_eq b a
opt_eq_comm a b = ground arith

refused_elsewhere :
    (actor u : User)
    → (actor.is_active && is_office_admin actor) ≡ true
    → is_system_admin actor ≡ false
    → is_some actor.office_id ≡ false
    → can_administer actor u ≡ false
unfolding can_administer
refused_elsewhere actor u admin own_office no_office =
    rw (admin, own_office, no_office) (by_rows (is_system_admin u) u.is_staff u.is_superuser)
  where
    by_rows : (s t v : Bool) → (if s || (t || v) then false else false) ≡ false
    by_rows s t v = ground arith

within_office :
    (actor u : User)
    → (actor.is_active && is_office_admin actor) ≡ true
    → is_system_admin actor ≡ false
    → is_some actor.office_id ≡ true
    → can_administer actor u ≡ (
        opt_eq u.office_id actor.office_id
        && (not u.is_superuser && (not u.is_staff && not (is_system_admin u))))
unfolding can_administer
within_office actor u admin own_office office =
    rw (admin, own_office, office, opt_eq_comm u.office_id actor.office_id)
      (by_rows (is_system_admin u) u.is_staff u.is_superuser (opt_eq actor.office_id u.office_id))
  where
    by_rows :
        (s t v e : Bool) → (if s || (t || v) then false else e) ≡ (e && (not v && (not t && not s)))
    by_rows s t v e = ground arith

-- For a signed-in actor, the accounts listed as manageable are exactly those that the check of one
-- account lets the actor manage.
pub administrable_by-can_administer :
    (actor : User) (rows : List User)
    → actor.is_authenticated ≡ true
    → administrable_by actor rows ≡ keep (can_administer actor) rows
unfolding administrable_by can_administer
administrable_by-can_administer actor rows signed_in =
    elim (Bool-cases (actor.is_active && is_office_admin actor)) [
      | inr refused ↦
          rw (signed_in, refused)
            (sym (keep_none (can_administer actor) rows (λ u. unfold can_administer in rw refused)))
      | inl admin ↦ elim (Bool-cases (is_system_admin actor)) [
        | inl everywhere ↦
            rw (signed_in, admin, everywhere)
              (sym (
                keep_all (can_administer actor) rows
                  (λ u. unfold can_administer in rw (admin, everywhere))))
        | inr own_office ↦ elim (Bool-cases (is_some actor.office_id)) [
          | inr no_office ↦
              rw (signed_in, admin, own_office, no_office)
                (sym (
                  keep_none (can_administer actor) rows
                    (λ u. ground (arith, refused_elsewhere actor u admin own_office no_office))))
          | inl office ↦
              rw (signed_in, admin, own_office, office)
                (keep_cong _ (can_administer actor) rows
                  (λ u. ground (arith, within_office actor u admin own_office office)))
        ]
      ]
    ]
