-- ===== src/Documents/Lifecycle.antt =====
-- apps/documents/services.py and apps/documents/tasks.py: documents that are removed, restored and
-- purged.
use udm_doctrack.Base.{
  ℕ, ◌+◌, Bool, true, false, not, ◌&&◌, ◌||◌, Option, none, some, List, [], ◌∷◌, ◌++◌, ◌≡◌, refl,
  sym, ◌∙◌, ap, is_some, is_empty, leb, ltb, Bool-cases, inl, inr, arith, strip, text_length,
  Outcome, success, raised, guard, guard-success, >>=-returned, success-injective,
  permission_denied, validation_error,
}
use udm_doctrack.Accounts.{User, active_user}
use udm_doctrack.Accounts.Capabilities.{active_writer}
use udm_doctrack.Tracking.Services.Authority.{active_writer-success}
use udm_doctrack.Documents.{
  Document, can_user_review_deletion, deletion_recovery_open, deletion_purge_at, recovery,
}
use udm_doctrack.Documents.Review.{
  DeletionReview, Shelf, ReviewRequest, Desk, deletion_review_state, same_state, same_bool,
  is_delete, is_restore, is_invalid, dates_fit, reviewed, new_review, review_body,
  review_document_deletion, is_purgeable, Turn, or_before, run,
}

-- What a review that returned has found, and what it left.
pub record Decided (e : Desk) (u : User) (q : ReviewRequest) (s s' : Shelf) : Type 0 where
  pub actor : User
  pub current : active_user e.dir.users u.pk ≡ some actor
  pub may : can_user_review_deletion e.dir s.document actor true ≡ true
  pub matches : not (same_bool (is_restore q.decision) s.document.is_active) ≡ true
  pub recoverable : (not (is_restore q.decision) || deletion_recovery_open e.now s.document) ≡ true
  pub dated : dates_fit e.today s.document q ≡ true
  pub document : s'.document ≡ reviewed e.now q s.document
  pub reviews : s'.reviews ≡ s.reviews ++ new_review actor q s.document ∷ []

pub review-Decided :
    (e : Desk) (u : User) (q : ReviewRequest) (s s' : Shelf)
    → review_document_deletion e u q s ≡ success s'
    → Decided e u q s s'
unfolding review_document_deletion review_body
review-Decided e u q s s' h = >>=-returned (active_writer e.dir u) _ h (λ actor row h0.
    >>=-returned (guard (can_user_review_deletion e.dir s.document actor true) permission_denied) _
      h0
      (λ _ may h1.
        >>=-returned
          (guard (same_state q.expected_state (deletion_review_state s.document)) validation_error)
          _ h1
          (λ _ _ h2.
            >>=-returned
              (guard (not (is_empty (strip q.reason)) && leb (text_length (strip q.reason)) 2000)
                validation_error)
              _ h2
              (λ _ _ h3.
                >>=-returned (guard (not (is_invalid q.decision)) validation_error) _ h3 (λ _ _ h4.
                  >>=-returned
                    (guard (not (same_bool (is_restore q.decision) s.document.is_active))
                      validation_error)
                    _ h4
                    (λ _ matches h5.
                      >>=-returned
                        (guard
                          (not (is_restore q.decision) || deletion_recovery_open e.now s.document)
                          validation_error)
                        _ h5
                        (λ _ open_ h6.
                          >>=-returned (guard (dates_fit e.today s.document q) validation_error) _
                            h6
                            (λ _ dated k. record {
                              actor = actor;
                              current = (active_writer-success e.dir u row).0;
                              may =
                                  guard-success
                                    (can_user_review_deletion e.dir s.document actor true)
                                    permission_denied may;
                              matches =
                                  guard-success
                                    (not (same_bool (is_restore q.decision) s.document.is_active))
                                    validation_error matches;
                              recoverable =
                                  guard-success
                                    (not (is_restore q.decision)
                                      || deletion_recovery_open e.now s.document)
                                    validation_error open_;
                              dated =
                                  guard-success (dates_fit e.today s.document q) validation_error
                                    dated;
                              document = sym (ap (λ (x : Shelf). x.document) (success-injective k));
                              reviews = sym (ap (λ (x : Shelf). x.reviews) (success-injective k));
                            }))))))))

-- Is the document removed, by its reviews?
abbrev pub removed_by : Bool → List DeletionReview → Bool
removed_by removed [] = removed
removed_by removed (r ∷ reviews) = removed_by (is_delete r.decision) reviews

-- Each restoration follows a removal directly, and each other decision does not.
abbrev pub alternates : Bool → List DeletionReview → Bool
alternates removed [] = true
alternates removed (r ∷ reviews) =
    same_bool (is_restore r.decision) removed && alternates (is_delete r.decision) reviews

removed_by-append :
    (removed : Bool) (xs : List DeletionReview) (r : DeletionReview)
    → removed_by removed (xs ++ r ∷ []) ≡ is_delete r.decision
removed_by-append removed [] r = refl
removed_by-append removed (x ∷ xs) r = removed_by-append (is_delete x.decision) xs r

alternates-append :
    (removed : Bool) (xs : List DeletionReview) (r : DeletionReview)
    → alternates removed (xs ++ r ∷ [])
      ≡ (alternates removed xs && same_bool (is_restore r.decision) (removed_by removed xs))
alternates-append removed [] r = ground arith
alternates-append removed (x ∷ xs) r =
    ap (λ b. same_bool (is_restore x.decision) removed && b)
      (alternates-append (is_delete x.decision) xs r)
    ∙ assoc (same_bool (is_restore x.decision) removed) _ _
  where
    assoc : (a b c : Bool) → (a && (b && c)) ≡ ((a && b) && c)
    assoc a b c = ground arith

-- The document agrees with its reviews.
pub record Agrees (s : Shelf) : Type 0 where
  pub deleted : is_some s.document.deleted_at ≡ not s.document.is_active
  pub removed : removed_by false s.reviews ≡ not s.document.is_active
  pub lawful : alternates false s.reviews ≡ true

reviewed-active :
    (now : ℕ) (q : ReviewRequest) (d : Document)
    → (reviewed now q d).is_active ≡ not (is_delete q.decision)
unfolding reviewed
reviewed-active now q d = elim (Bool-cases (is_delete q.decision)) [
  | inl gone ↦ rw gone refl
  | inr kept ↦ rw kept refl
]

reviewed-deleted :
    (now : ℕ) (q : ReviewRequest) (d : Document)
    → is_some (reviewed now q d).deleted_at ≡ is_delete q.decision
unfolding reviewed
reviewed-deleted now q d = elim (Bool-cases (is_delete q.decision)) [
  | inl gone ↦ rw gone refl
  | inr kept ↦ rw kept refl
]

double : (b : Bool) → b ≡ not (not b)
double b = ground arith

review-Agrees :
    (e : Desk) (u : User) (q : ReviewRequest) (s s' : Shelf)
    → review_document_deletion e u q s ≡ success s'
    → Agrees s
    → Agrees s'
review-Agrees e u q s s' h k =
    let done = review-Decided e u q s s' h in
    let active =
      ap (λ (d : Document). d.is_active) done.document ∙ reviewed-active e.now q s.document in
    record {
      deleted =
          ap (λ (d : Document). is_some d.deleted_at) done.document
          ∙ (reviewed-deleted e.now q s.document
              ∙ (double (is_delete q.decision) ∙ sym (ap not active)));
      removed =
          ap (removed_by false) done.reviews
          ∙ (removed_by-append false s.reviews (new_review done.actor q s.document)
              ∙ (double (is_delete q.decision) ∙ sym (ap not active)));
      lawful =
          ap (alternates false) done.reviews
          ∙ (alternates-append false s.reviews (new_review done.actor q s.document)
              ∙ both (alternates false s.reviews) (is_restore q.decision) s.document.is_active
                  (removed_by false s.reviews) k.lawful done.matches k.removed);
    }
  where
    both :
        (a r t g : Bool)
        → a ≡ true
        → not (same_bool r t) ≡ true
        → g ≡ not t
        → (a && same_bool r g) ≡ true
    both a r t g h l m = ground arith

or_before-Agrees :
    (s : Shelf) (o : Outcome Shelf)
    → ((s' : Shelf) → o ≡ success s' → Agrees s')
    → Agrees s
    → Agrees (or_before s o)
or_before-Agrees s (success s') h k = h s' refl
or_before-Agrees s (raised e) h k = k

-- Whatever reviews are asked for, by whatever accounts and with any of them refused: a document
-- that agrees with its reviews still does. It has a deletion time exactly while it is not active,
-- it is removed exactly if its last review removed it, and in its history every restoration comes
-- directly after a removal, and nothing else does.
pub run-Agrees : (turns : List Turn) (s : Shelf) → Agrees s → Agrees (run turns s)
unfolding run
run-Agrees [] s k = k
run-Agrees (t ∷ turns) s k =
    run-Agrees turns (or_before s (review_document_deletion t.desk t.user t.request s)) (
      or_before-Agrees s (review_document_deletion t.desk t.user t.request s)
        (λ s' h. review-Agrees t.desk t.user t.request s s' h k) k)

recoverable-kept :
    (now : ℕ) (d : Document)
    → (not (deletion_recovery_open now d) || not (is_purgeable now d)) ≡ true
unfolding deletion_recovery_open deletion_purge_at is_purgeable
recoverable-kept now d = exclusive d.is_active d.deleted_at
  where
    exclusive :
        (a : Bool) (o : Option ℕ)
        → (not (
              not a
              && elim (elim o as (λ _. Option ℕ) [ none ↦ none | some t ↦ some (t + recovery) ]) [
                | none ↦ false
                | some t ↦ ltb now t
              ])
            || not (not a && elim o [ none ↦ false | some t ↦ leb (t + recovery) now ]))
          ≡ true
    exclusive true o = refl
    exclusive false none = refl
    exclusive false (some t) = apart now (t + recovery)
      where
        apart : (m n : ℕ) → (not (ltb m n) || not (leb n m)) ≡ true
        apart m n = ground arith

reviewed-is_purgeable :
    (now later : ℕ) (q : ReviewRequest) (d : Document)
    → is_purgeable later (reviewed now q d) ≡ (is_delete q.decision && leb (now + recovery) later)
unfolding reviewed is_purgeable
reviewed-is_purgeable now later q d = elim (Bool-cases (is_delete q.decision)) [
  | inl gone ↦ rw gone refl
  | inr kept ↦ rw kept refl
]

-- Restoring and purging exclude each other: a document that a review has restored was not yet up
-- for the purge at that time; after any review that returned, the document is up for the purge
-- exactly if it was removed and thirty days have passed since.
pub review-is_purgeable :
    (e : Desk) (u : User) (q : ReviewRequest) (s s' : Shelf) (later : ℕ)
    → review_document_deletion e u q s ≡ success s'
    → ((not (is_restore q.decision) || not (is_purgeable e.now s.document)) ≡ true)
      × (is_purgeable later s'.document ≡ (is_delete q.decision && leb (e.now + recovery) later))
review-is_purgeable e u q s s' later h =
    let done = review-Decided e u q s s' h in
    (
      either (is_restore q.decision) (deletion_recovery_open e.now s.document)
          (is_purgeable e.now s.document) done.recoverable (recoverable-kept e.now s.document),
      ap (is_purgeable later) done.document ∙ reviewed-is_purgeable e.now later q s.document,
    )
  where
    either :
        (a b c : Bool) → (not a || b) ≡ true → (not b || not c) ≡ true → (not a || not c) ≡ true
    either a b c h l = ground arith
