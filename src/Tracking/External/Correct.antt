-- ===== src/Tracking/External/Correct.antt =====
-- apps/tracking/external_services.py: `correct_step`.
--
-- The ledger of a correction keeps its reason and author, not the printed old and new values.
use udm_doctrack.Base.{
  ℕ, suc, Bool, true, false, not, ◌&&◌, ◌||◌, Option, none, some, List, [], ◌∷◌, ◌++◌, ◌==◌,
  if◌then◌else◌, is_some, is_none, is_key, is_empty, first, exists, length, map, leb, ltb, Text,
  text, Outcome, success, raised, guard, ◌>>=◌, ◌>>◌, validation_error, does_not_exist,
}
use udm_doctrack.Accounts.{User}
use udm_doctrack.Accounts.Capabilities.{edit_metadata}
use udm_doctrack.Tracking.{is_filed}
use udm_doctrack.Tracking.Services.{Env}
use udm_doctrack.Tracking.External.{
  ExternalOffice, Party, external, is_external_party, same_party, ExternalStep, ExternalEvent,
  created, remark, external_work, attachment, finished, reopened, corrected, ExternalActivity,
  ExternalRecord, current_step, responsible_office,
}
use udm_doctrack.Tracking.External.Calls.{
  Ledger, require_manager, text_within, not_before, actual, latest_entry, add_event, active_entry,
  sequence_of, guarded_mutation,
}

-- The keyword dictionary `changes`: a field that is absent is `none`; `unsupported` tells whether
-- it has a key that is none of these.
pub record Changes : Type 0 where
  pub from_external_office : Option ℕ
  pub to_external_office : Option ℕ
  pub sent_at : Option (Option ℕ)
  pub received_at : Option (Option ℕ)
  pub instructions : Option Text
  pub receipt_note : Option Text
  pub unsupported : Bool

abbrev pub has_endpoint : Changes → Bool
has_endpoint c = is_some c.from_external_office || is_some c.to_external_office

abbrev pub no_change : Changes → Bool
no_change c =
    not (has_endpoint c)
    && (is_none c.sent_at
        && (is_none c.received_at
            && (is_none c.instructions && (is_none c.receipt_note && not c.unsupported))))

-- `set(changes) - allowed` is empty: an external sender's facts and an external recipient's.
unfoldable pub only_allowed : Changes → ExternalStep → Bool
only_allowed c s =
    not c.unsupported
    && ((is_external_party s.sender
          || (is_none c.sent_at && (is_none c.instructions && is_none c.from_external_office)))
        && (is_external_party s.recipient
            || (is_none c.received_at && (is_none c.receipt_note && is_none c.to_external_office))))

-- The endpoints of the latest step that is still under way, and the sender of the first one only.
unfoldable pub endpoint_open : Changes → ExternalRecord → ExternalStep → Bool
endpoint_open c r s =
    not (is_some c.from_external_office && ltb 1 s.sequence)
    && (is_none s.received_at && is_key (sequence_of (current_step r)) s.sequence)

unfoldable pub corrected_party :
    List ExternalOffice → Option ℕ → Party × Text → Outcome (Party × Text)
corrected_party entries none prior = success prior
corrected_party entries (some pk) prior = do
  e ← active_entry entries pk
  success (external e.pk, e.name)

unfoldable pub corrected_sending : ℕ → Option (Option ℕ) → ℕ → Outcome ℕ
corrected_sending now none prior = success prior
corrected_sending now (some none) prior = raised validation_error
corrected_sending now (some (some t)) prior = actual now (some t) none

unfoldable pub corrected_receipt : ℕ → Option (Option ℕ) → Option ℕ → Outcome (Option ℕ)
corrected_receipt now none prior = success prior
corrected_receipt now (some none) prior = raised validation_error
corrected_receipt now (some (some t)) none = raised validation_error
corrected_receipt now (some (some t)) (some prior) = do
  time ← actual now (some t) none
  success (some time)

unfoldable pub corrected_text : ℕ → Option Text → Text → Outcome Text
corrected_text limit none prior = success prior
corrected_text limit (some value) prior = text_within limit value

unfoldable pub change_step : ℕ → List ExternalOffice → Changes → ExternalStep → Outcome ExternalStep
change_step now entries c s = do
  (sender, from_name) ← corrected_party entries c.from_external_office (s.sender, s.from_name)
  (recipient, to_name) ← corrected_party entries c.to_external_office (s.recipient, s.to_name)
  sent_at ← corrected_sending now c.sent_at s.sent_at
  received_at ← corrected_receipt now c.received_at s.received_at
  instructions ← corrected_text 5000 c.instructions s.instructions
  note ← corrected_text 2000 c.receipt_note s.receipt_note
  success (record s {
    sender = sender;
    from_name = from_name;
    recipient = recipient;
    to_name = to_name;
    sent_at = sent_at;
    received_at = received_at;
    instructions = instructions;
    receipt_note = note;
  })

-- `filter(sequence__lt=…).order_by("-sequence").first()`, the steps being latest first.
abbrev pub step_before : ℕ → List ExternalStep → Option ExternalStep
step_before n steps = first (λ (p : ExternalStep). ltb p.sequence n) steps

-- `filter(sequence__gt=…).order_by("sequence").first()`: the last one above.
abbrev pub step_after : ℕ → Option ExternalStep → List ExternalStep → Option ExternalStep
step_after n found [] = found
step_after n found (s ∷ steps) = step_after n (if ltb n s.sequence then some s else found) steps

-- A receipt is not before its sending.
abbrev pub received_after : ExternalStep → Bool
received_after s = elim s.received_at [ none ↦ true | some t ↦ leb s.sent_at t ]

abbrev pub sent_after : Option ExternalStep → ExternalStep → Bool
sent_after none s = true
sent_after (some previous) s = not_before previous.received_at s.sent_at

abbrev pub received_before : Option ExternalStep → ExternalStep → Bool
received_before none s = true
received_before (some following) s = not_before s.received_at following.sent_at

unfoldable pub chronology : Option ExternalStep → Option ExternalStep → ExternalStep → Bool
chronology previous following s =
    received_after s && (sent_after previous s && received_before following s)

abbrev pub is_custody_work : ExternalEvent → Bool
is_custody_work external_work = true
is_custody_work finished = true
is_custody_work reopened = true
is_custody_work remark = true
is_custody_work attachment = true
is_custody_work _ = false

abbrev pub work_of : ℕ → ExternalActivity → Bool
work_of n a = is_key a.step n && is_custody_work a.event

-- The dispatch does not precede the work under the custody before it.
abbrev pub after_work : Option ExternalStep → List ExternalActivity → ℕ → Bool
after_work none activities sent_at = true
after_work (some previous) activities sent_at =
    not_before (latest_entry (work_of previous.sequence) activities) sent_at

-- The receipt does not follow any work under its custody.
abbrev pub before_work : ℕ → List ExternalActivity → Option ℕ → Bool
before_work n [] received_at = true
before_work n (a ∷ activities) received_at =
    let rest = before_work n activities received_at in
    if work_of n a && is_some a.actual_at
    then elim a.actual_at [ none ↦ rest | some t ↦ not_before received_at t && rest ]
    else rest

abbrev pub is_origin : ExternalActivity → Bool
is_origin a = elim a.event [ created ↦ is_some a.actual_at | _ ↦ false ]

abbrev pub after_origin : Option ExternalActivity → ℕ → Bool
after_origin none sent_at = true
after_origin (some a) sent_at = not_before a.actual_at sent_at

-- What depends on the corrected facts.
unfoldable pub fits_facts : Changes → Option ExternalStep → ExternalRecord → ExternalStep → Bool
fits_facts c previous r s =
    (is_none c.sent_at || after_work previous r.activities s.sent_at)
    && ((is_none c.received_at || before_work s.sequence r.activities s.received_at)
        && ((is_none c.sent_at
              || (not (s.sequence == 1) || after_origin (first is_origin r.activities) s.sent_at))
            && (is_none c.sent_at || elim s.due_at [ none ↦ true | some due ↦ leb s.sent_at due ])))

abbrev pub replace_step : ExternalStep → List ExternalStep → List ExternalStep
replace_step new steps = map (λ s. if s.sequence == new.sequence then new else s) steps

-- A corrected sender is also the record's custodian.
unfoldable pub correct_doc : Changes → ExternalStep → User → Text → ExternalRecord → ExternalRecord
correct_doc c s u reason r = record r {
  routing_steps = replace_step s r.routing_steps;
  custodian = if is_some c.from_external_office then s.sender else r.custodian;
  custodian_name = if is_some c.from_external_office then s.from_name else r.custodian_name;
  revisions =
      r.revisions
      ++ record { step = s.sequence; revision = suc r.revision; reason = reason; actor = u.pk }
        ∷ [];
}

abbrev pub found_step : Option ExternalStep → Outcome ExternalStep
found_step none = raised does_not_exist
found_step (some s) = success s

abbrev pub step_numbered : ℕ → List ExternalStep → Option ExternalStep
step_numbered n steps = first (λ (s : ExternalStep). s.sequence == n) steps

-- `full_clean` of a step: its name columns, its receipt's chronology, and no second step of the
-- record that is still under way. Its number and its parties are as valid as before.
abbrev pub is_name : Text → Bool
is_name name = not (is_empty name) && leb (length name) 150

abbrev pub other_pending : ExternalStep → List ExternalStep → Bool
other_pending s steps =
    is_none s.received_at
    && exists (λ (x : ExternalStep). not (x.sequence == s.sequence) && is_none x.received_at) steps

unfoldable pub clean_step : ExternalStep → List ExternalStep → Outcome (Unit {0})
clean_step s steps =
    guard
      (is_name s.from_name
        && (is_name s.to_name && (received_after s && not (other_pending s steps))))
      validation_error

-- The step as corrected, once every check has passed.
unfoldable pub check_correction :
    Env → List ExternalOffice → Changes → ExternalStep → ExternalRecord → Outcome ExternalStep
check_correction env entries c s r = do
  guard (not (has_endpoint c) || endpoint_open c r s) validation_error
  guard (not (no_change c) && only_allowed c s) validation_error
  s' ← change_step env.now entries c s
  guard
      (chronology (step_before s.sequence r.routing_steps)
        (step_after s.sequence none r.routing_steps) s')
      validation_error
  guard (not (is_external_party s'.sender && same_party s'.sender s'.recipient)) validation_error
  guard (fits_facts c (step_before s.sequence r.routing_steps) r s') validation_error
  clean_step s' r.routing_steps
  success s'

unfoldable pub correct_body :
    Env → List ExternalOffice → ℕ → Text → Changes → User → Ledger → Outcome Ledger
correct_body env entries step reason c u d = do
  require_manager u (responsible_office d.doc)
  guard (not (is_filed d.doc.status)) validation_error
  why ← text_within 2000 reason
  guard (not (is_empty why)) validation_error
  s ← found_step (step_numbered step d.doc.routing_steps)
  s' ← check_correction env entries c s d.doc
  add_event env u corrected (text "External action corrected") why none (some s.sequence)
      (record d { doc = correct_doc c s' u why d.doc })

unfoldable pub correct_step :
    Env → List ExternalOffice → Option ℕ → User → ℕ → Text → Changes → Ledger → Outcome Ledger
unfolding guarded_mutation
correct_step env entries expected u step reason c d =
    guarded_mutation env edit_metadata expected (correct_body env entries step reason c) u d
