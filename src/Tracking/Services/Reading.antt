-- ===== src/Tracking/Services/Reading.antt =====
-- `log_view` and `log_print` of apps/tracking/services.py: the timeline's entries about readers.
use udm_doctrack.Base.{
  ℕ, ◌+◌, ◌≤◌, Bool, true, false, not, ◌&&◌, ◌||◌, none, some, [], ◌∷◌, ◌++◌, ◌≡◌, refl, ap, sym,
  ◌∙◌, leb, if◌then◌else◌, is_key, exists, exists-append, text, arith, ==_refl,
}
use udm_doctrack.Accounts.{User}
use udm_doctrack.Tracking.{Event, RecordActivity, TrackingRecord}
use udm_doctrack.Tracking.Services.{add_activity}
use udm_doctrack.Tracking.Services.History.{Continues, Continues-refl, add_activity-Continues}

abbrev pub is_viewed : Event → Bool
is_viewed Event.viewed = true
is_viewed _ = false

-- `timezone.now() - timedelta(minutes=…) <= created_at`, without the subtraction.
abbrev pub recent_view : ℕ → ℕ → User → RecordActivity → Bool
recent_view window now u a =
    is_viewed a.event && (is_key a.actor u.pk && leb now (a.created_at + window))

-- `window` is the setting VIEW_LOG_DEDUP_MINUTES, in microseconds.
unfoldable pub log_view : ℕ → ℕ → User → TrackingRecord → TrackingRecord
log_view window now u r =
    if not u.is_authenticated
    then r
    else if exists (recent_view window now u) r.activities
    then r
    else add_activity now Event.viewed (u.display_name ++ text " opened the document") u [] none r

unfoldable pub log_print : ℕ → User → TrackingRecord → TrackingRecord
log_print now u r =
    add_activity now Event.printed (u.display_name ++ text " printed the routing slip") u [] none r

opened :
    (r r' : TrackingRecord) (signed_in already : Bool)
    → signed_in ≡ true
    → already ≡ false
    → (if not signed_in then r else if already then r else r') ≡ r'
opened r r' signed_in already s a = rw (s, a)

covered :
    (r r' : TrackingRecord) (signed_in already : Bool)
    → already ≡ true
    → (if not signed_in then r else if already then r else r') ≡ r
covered r r' false already a = refl
covered r r' true already a = rw a

-- An opening that the timeline recorded covers the account's further openings until the window has
-- passed: they leave the record as it is.
pub log_view-log_view :
    (window now later : ℕ) (u : User) (r : TrackingRecord)
    → u.is_authenticated ≡ true
    → exists (recent_view window now u) r.activities ≡ false
    → later ≤ now + window
    → log_view window later u (log_view window now u r) ≡ log_view window now u r
unfolding log_view add_activity
log_view-log_view window now later u r signed_in fresh soon =
    let entry = u.display_name ++ text " opened the document" in
    let r' = add_activity now Event.viewed entry u [] none r in
    let once : log_view window now u r ≡ r' =
      opened r r' u.is_authenticated (exists (recent_view window now u) r.activities) signed_in
        fresh in
    ap (log_view window later u) once
    ∙ covered r' (add_activity later Event.viewed entry u [] none r') u.is_authenticated
        (exists (recent_view window later u) r'.activities) (seen _ refl refl refl)
    ∙ sym once
  where
    found :
        (before : Bool) (a : RecordActivity)
        → a.event ≡ Event.viewed
        → a.actor ≡ some u.pk
        → a.created_at ≡ now
        → (before || (recent_view window later u a || false)) ≡ true
    found before a e by at = rw (e, by, at) (ground (arith, ==_refl u.pk))

    seen :
        (a : RecordActivity)
        → a.event ≡ Event.viewed
        → a.actor ≡ some u.pk
        → a.created_at ≡ now
        → exists (recent_view window later u) (r.activities ++ a ∷ []) ≡ true
    seen a e by at =
        exists-append (recent_view window later u) r.activities (a ∷ [])
        ∙ found (exists (recent_view window later u) r.activities) a e by at

-- Opening a document and printing its slip only add to the timeline: the earlier entries stay in
-- front, and no step of the custody chain is lost or rewritten.
pub reading-Continues :
    (window now : ℕ) (u : User) (r : TrackingRecord)
    → Continues r (log_view window now u r) × Continues r (log_print now u r)
unfolding log_view log_print
reading-Continues window now u r = (
  by_tests u.is_authenticated (exists (recent_view window now u) r.activities),
  add_activity-Continues now Event.printed _ u [] none r,
)
  where
    by_tests :
        (signed_in already : Bool)
        → Continues r (
            if not signed_in
            then r
            else if already
            then r
            else add_activity now Event.viewed
                (u.display_name ++ text " opened the document")
                u
                []
                none
                r)
    by_tests false already = Continues-refl r
    by_tests true true = Continues-refl r
    by_tests true false = add_activity-Continues now Event.viewed _ u [] none r
