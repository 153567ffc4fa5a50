-- ===== src/Tracking/External/Run/Created.antt =====
-- apps/tracking/external_services.py: a new record, and the calls that follow.
use udm_doctrack.Base.{
  ℕ, true, not, ◌||◌, Option, none, some, List, [], ◌≡◌, refl, sym, ap, subst, ◌⊎◌, inl, inr, ◌==◌,
  Text, text, is_empty, success, guard, guard-success, >>=-returned, success-injective,
  not_returned, permission_denied, validation_error,
}
use udm_doctrack.DocumentTypes.{resolve_document_types}
use udm_doctrack.Accounts.{User, active_user, Office, is_system_admin}
use udm_doctrack.Accounts.Capabilities.{
  external_tracking, create, active_writer, require_capability, capability_allowed,
}
use udm_doctrack.Tracking.{draft}
use udm_doctrack.Tracking.Numbers.{NumberSequence}
use udm_doctrack.Tracking.Notices.{Notification}
use udm_doctrack.Tracking.Access.Laws.{active_user-pk}
use udm_doctrack.Tracking.Services.{Env, AuditLog}
use udm_doctrack.Tracking.Services.Authority.{active_writer-success}
use udm_doctrack.Tracking.External.{
  ExternalOffice, Party, internal, external, ExternalRecord, never_sent, manages,
  responsible_office,
}
use udm_doctrack.Tracking.External.Calls.{
  Ledger, require_manager, text_within, active_entry, add_event, enter_event,
}
use udm_doctrack.Tracking.External.Creation.{
  CreateRequest, Chosen, selected_office, own_office, active_or_invalid, selected_row,
  recording_office, first_custodian, origin_time, new_record, clean_record, selected_types,
  create_body, create_record,
}
use udm_doctrack.Tracking.External.Run.{Turn, Call, run}
use udm_doctrack.Tracking.External.Run.Chain.{Sound}
use udm_doctrack.Tracking.External.Run.Ledgers.{Ticking, last_time, run-Sound}

recording_office-manages :
    (env : Env) (u : User) (selected : Option ℕ) (o : Office)
    → recording_office env u selected ≡ success o
    → manages u o.pk ≡ true
unfolding recording_office
recording_office-manages env u selected o h =
    >>=-returned
      (guard (is_system_admin u || own_office u (selected_office u selected)) permission_denied) _ h
      (λ _ _ h1.
        >>=-returned (active_or_invalid (selected_row env (selected_office u selected))) _ h1
          (λ row _ h2. >>=-returned (require_manager u row.pk) _ h2 (λ _ may e.
            subst (λ (x : Office). manages u x.pk ≡ true) (success-injective e)
              (guard-success (manages u row.pk) permission_denied may))))

-- The managing office, or an outside one.
first_custodian-success :
    (entries : List ExternalOffice) (o : Office) (from entry : Option ℕ) (to : Party × Text)
    → first_custodian entries o from entry ≡ success to
    → (to.0 ≡ internal o.pk) ⊎ ((pk : ℕ) × (to.0 ≡ external pk))
unfolding first_custodian
first_custodian-success entries o (some office) (some entry) to h =
    elim (not_returned validation_error to h) [ ]
first_custodian-success entries o (some office) none to h =
    >>=-returned (guard (office == o.pk) validation_error) _ h
      (λ _ _ e. inl (sym (ap (λ (x : Party × Text). x.0) (success-injective e))))
first_custodian-success entries o none none to h =
    inl (sym (ap (λ (x : Party × Text). x.0) (success-injective h)))
first_custodian-success entries o none (some entry) to h =
    >>=-returned (active_entry entries entry) _ h
      (λ e _ k. inr (e.pk, sym (ap (λ (x : Party × Text). x.0) (success-injective k))))

-- What a new record is.
pub record New (now : ℕ) (u : User) (r : ExternalRecord) : Type 0 where
  pub sound : Sound now r
  pub status : r.status ≡ draft
  pub revision : r.revision ≡ 1
  pub unsent : never_sent r ≡ true
  pub author : r.created_by ≡ u.pk
  pub managed : manages u r.managing_office ≡ true
  pub responsible : responsible_office r ≡ r.managing_office

new_record-New :
    (now : ℕ) (k : Chosen) (u : User) (o : Office) (title : Text) (to : Party × Text)
    → manages u o.pk ≡ true
    → (to.0 ≡ internal o.pk) ⊎ ((pk : ℕ) × (to.0 ≡ external pk))
    → New now u (new_record k u o title to)
unfolding responsible_office
new_record-New now k u o title to may at = record {
  sound = record { chain = tt; held = tt; pending = refl; unsent = refl };
  status = refl;
  revision = refl;
  unsent = refl;
  author = refl;
  managed = may;
  responsible = kept to.0 at;
}
  where
    kept :
        (p : Party)
        → (p ≡ internal o.pk) ⊎ ((pk : ℕ) × (p ≡ external pk))
        → elim p [ internal office ↦ office | external entry ↦ o.pk ] ≡ o.pk
    kept (internal a) (inl e) = office_of a o.pk e
      where
        office_of : (m n : ℕ) → internal m ≡ internal n → m ≡ n
        office_of m n e = cc
    kept (internal a) (inr e) = elim (apart a e.0 e.1) [ ]
      where
        apart : (m n : ℕ) → internal m ≡ external n → ⊥
        apart m n e = cc
    kept (external a) e = refl

create_body-New :
    (env : Env) (entries : List ExternalOffice) (k : Chosen) (q : CreateRequest)
    (sequences : List NumberSequence) (notifications : List Notification) (audit : List AuditLog)
    (u : User) (d : Ledger)
    → create_body env entries k q sequences notifications audit u ≡ success d
    → New env.now u d.doc
unfolding create_body add_event enter_event responsible_office
create_body-New env entries k q sequences notifications audit u d h =
    >>=-returned (recording_office env u q.managing_office) _ h (λ o chosen h1.
      >>=-returned (first_custodian entries o q.from_office q.from_external_office) _ h1
        (λ to at h2. >>=-returned (text_within 255 q.title) _ h2 (λ title _ h3.
          >>=-returned (text_within 5000 q.description) _ h3 (λ _ _ h4.
            >>=-returned (text_within 200 q.original_reference) _ h4 (λ _ _ h5.
              >>=-returned (guard (not (is_empty title)) validation_error) _ h5 (λ _ _ h6.
                >>=-returned (clean_record k.taken (new_record k u o title to)) _ h6 (λ _ _ h61.
                  >>=-returned
                    (resolve_document_types k.types
                      (selected_types q.document_types q.document_type) q.document_type [])
                    _ h61
                    (λ types _ h62.
                      >>=-returned (origin_time env.now q.actual_at) _ h62 (λ time _ h7.
                        >>=-returned (text_within 255 (text "Created external tracking draft")) _ h7
                          (λ short _ e.
                            let new =
                              new_record-New env.now k u o title to
                                (recording_office-manages env u q.managing_office o chosen)
                                (first_custodian-success entries o q.from_office
                                  q.from_external_office to at) in
                            subst (λ (x : Ledger). New env.now u x.doc) (success-injective e)
                              (record {
                                sound = record {
                                  chain = tt;
                                  held = tt;
                                  pending = refl;
                                  unsent = refl;
                                };
                                status = refl;
                                revision = refl;
                                unsent = refl;
                                author = refl;
                                managed = new.managed;
                                responsible = new.responsible;
                              })))))))))))

-- A record that `create_record` returned is a draft at revision one that was never sent, written by
-- the calling account, whose row in the table is active and administers the managing office, and
-- that office is responsible for it; its ledger is sound, and stays sound under whatever calls
-- follow with a clock that does not go back.
pub create_record-run :
    (env : Env) (entries : List ExternalOffice) (k : Chosen) (q : CreateRequest)
    (sequences : List NumberSequence) (notifications : List Notification) (audit : List AuditLog)
    (u : User) (turns : List (Turn × Call)) (d : Ledger)
    → create_record env entries k q sequences notifications audit u ≡ success d
    → Ticking env.now turns
    → (actor : User) × (active_user env.dir.users u.pk ≡ some actor)
      × New env.now actor d.doc
      × Sound (last_time env.now turns) (run turns d).doc
unfolding create_record require_capability
create_record-run env entries k q sequences notifications audit u turns d h ticks =
    >>=-returned (active_writer env.dir u) _ h (λ a first h1.
      >>=-returned
        (guard (capability_allowed env.dir none a external_tracking create true) permission_denied)
        _ h1
        (λ _ _ h2. >>=-returned (active_writer env.dir a) _ h2 (λ actor second h3.
          let new = create_body-New env entries k q sequences notifications audit actor d h3 in
          (
            actor,
            subst (λ pk. active_user env.dir.users pk ≡ some actor)
                (active_user-pk env.dir.users u.pk a (active_writer-success env.dir u first).0).0
                (active_writer-success env.dir a second).0,
            new,
            run-Sound env.now turns d ticks new.sound,
          ))))
