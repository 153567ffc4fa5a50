-- ===== src/Tracking/External/Run/Revisions.antt =====
-- apps/tracking/external_services.py: the expected revision of `_mutation`, across calls.
use udm_doctrack.Base.{
  ℕ, suc, ◌≤◌, true, Option, none, some, List, [], ◌∷◌, ◌≡◌, refl, sym, subst, arith, Error,
  Outcome, success, raised,
}
use udm_doctrack.Tracking.External.Calls.{Ledger, is_revision}
use udm_doctrack.Tracking.External.Run.{Call, Turn, perform, or_before, run}
use udm_doctrack.Tracking.External.Run.Guarded.{perform-Authorised}
use udm_doctrack.Tracking.External.Run.Trace.{Traced, next_revision-Traced}
use udm_doctrack.Tracking.External.Run.Traces.{body_of-Traced}

-- A call on an external record that returned has added exactly one entry to the end of the timeline
-- and exactly one row to the end of the audit log, both in the name of the calling account and the
-- entry at the time of the call; it has raised the revision by one, and it has kept the record's
-- key, managing office and author.
pub perform-Traced :
    (t : Turn) (call : Call) (d d' : Ledger)
    → perform t call d ≡ success d'
    → Traced t.env.now t.user.pk (suc d.doc.revision) d d'
perform-Traced t call d d' h =
    let done = perform-Authorised t call d d' h in
    let left = body_of-Traced t call done.actor d done.left done.returned in
    subst (Traced t.env.now t.user.pk (suc d.doc.revision) d) (sym done.next) (
      next_revision-Traced t.env.now t.user.pk d done.left
        (subst (λ k. Traced t.env.now k d.doc.revision d done.left) done.same left))

-- What does not return, raises.
raised_of :
    (o : Outcome Ledger) → ((d' : Ledger) → o ≡ success d' → ⊥) → (e : Error) × (o ≡ raised e)
raised_of (raised e) h = (e, refl)
raised_of (success d') h = elim (h d' refl) [ ]

is_revision-eq :
    (expected : Option ℕ) (n m : ℕ)
    → is_revision expected n ≡ true
    → is_revision expected m ≡ true
    → n ≡ m
is_revision-eq none n m h k = cc
is_revision-eq (some r) n m h k = ground arith

or_before-revision :
    (d : Ledger) (o : Outcome Ledger)
    → ((d' : Ledger) → o ≡ success d' → d'.doc.revision ≡ suc d.doc.revision)
    → d.doc.revision ≤ (or_before d o).doc.revision
or_before-revision d (raised e) h = omega arith
or_before-revision d (success d') h = omega (arith, h d' refl)

run-revision :
    (turns : List (Turn × Call)) (d : Ledger) → d.doc.revision ≤ (run turns d).doc.revision
unfolding run
run-revision [] d = omega arith
run-revision (t ∷ turns) d =
    let now =
      or_before-revision d (perform t.0 t.1 d) (λ d' h. (perform-Traced t.0 t.1 d d' h).revision) in
    let later = run-revision turns (or_before d (perform t.0 t.1 d)) in omega (arith, now, later)

-- No update is lost: once a call on an external record has returned, every other call that was
-- prepared from the same revision raises, whatever calls came in between, and whoever makes it.
pub run-stale :
    (first second : Turn) (a b : Call) (turns : List (Turn × Call)) (d d' : Ledger)
    → perform first a d ≡ success d'
    → second.expected ≡ first.expected
    → (e : Error) × (perform second b (run turns d') ≡ raised e)
run-stale first second a b turns d d' h same =
    raised_of (perform second b (run turns d')) (λ d2 again.
      let one = perform-Authorised first a d d' h in
      let two = perform-Authorised second b (run turns d') d2 again in
      let level =
        is_revision-eq first.expected d.doc.revision (run turns d').doc.revision one.expected
          (subst (λ r. is_revision r (run turns d').doc.revision ≡ true) same two.expected) in
      omega (arith, level, (perform-Traced first a d d' h).revision, run-revision turns d'))
