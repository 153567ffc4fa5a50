-- ===== src/Tracking/External/Run/Chain.antt =====
-- apps/tracking/external_models.py: what the custody ledger of an external record has to satisfy, at
-- a given time, and how it is extended.
use udm_doctrack.Base.{
  ℕ, suc, ◌≤◌, Bool, true, false, Option, none, some, List, [], ◌∷◌, ◌≡◌, refl, length, leb,
  if◌then◌else◌, arith,
}
use udm_doctrack.Tracking.{Status, pending_receipt, is_draft}
use udm_doctrack.Tracking.External.{
  Party, same_party, ExternalStep, ExternalRecord, arrived, in_transit, never_sent,
}
use udm_doctrack.Tracking.External.Calls.{not_before}
use udm_doctrack.Tracking.External.Correct.{received_after, sent_after}

-- Who holds the document after a step: its recipient once it has arrived.
abbrev pub holder_after : ExternalStep → Party
holder_after s = if arrived s then s.recipient else s.sender

-- A step is sent by the recipient of the step before it, after that one's receipt.
abbrev pub After : ExternalStep → List ExternalStep → Type 0
After s [] = Unit {0}
After s (p ∷ _) = (s.sender ≡ p.recipient) × ((arrived p ≡ true) × (sent_after (some p) s ≡ true))

-- A step on top of the earlier ones.
pub record Fits (now : ℕ) (s : ExternalStep) (before : List ExternalStep) : Type 0 where
  pub numbered : s.sequence ≡ suc (length before)
  pub distinct : same_party s.sender s.recipient ≡ false
  pub sent_past : leb s.sent_at now ≡ true
  pub received_past : not_before s.received_at now ≡ true
  pub in_order : received_after s ≡ true
  pub after : After s before

abbrev pub Chain : ℕ → List ExternalStep → Type 0
Chain now [] = Unit {0}
Chain now (s ∷ steps) = Fits now s steps × Chain now steps

-- The custodian is the one that the latest step leaves.
abbrev pub Held : Party → List ExternalStep → Type 0
Held holder [] = Unit {0}
Held holder (s ∷ _) = holder ≡ holder_after s

abbrev pub is_pending : Status → Bool
is_pending pending_receipt = true
is_pending _ = false

pub record Sound (now : ℕ) (r : ExternalRecord) : Type 0 where
  pub chain : Chain now r.routing_steps
  pub held : Held r.custodian r.routing_steps
  pub pending : in_transit r ≡ is_pending r.status
  pub unsent : never_sent r ≡ is_draft r.status

leb-later : (t now later : ℕ) → now ≤ later → leb t now ≡ true → leb t later ≡ true
leb-later t now later h e = ground arith

not_before-later :
    (t : Option ℕ) (now later : ℕ)
    → now ≤ later
    → not_before t now ≡ true
    → not_before t later ≡ true
not_before-later none now later h e = refl
not_before-later (some t) now later h e = leb-later t now later h e

pub Chain-later :
    (now later : ℕ) (steps : List ExternalStep) → now ≤ later → Chain now steps → Chain later steps
Chain-later now later [] h c = tt
Chain-later now later (s ∷ steps) h c = (
  record {
    numbered = c.0.numbered;
    distinct = c.0.distinct;
    sent_past = leb-later s.sent_at now later h c.0.sent_past;
    received_past = not_before-later s.received_at now later h c.0.received_past;
    in_order = c.0.in_order;
    after = c.0.after;
  },
  Chain-later now later steps h c.1,
)

pub Sound-later : (now later : ℕ) (r : ExternalRecord) → now ≤ later → Sound now r → Sound later r
Sound-later now later r h c = record {
  chain = Chain-later now later r.routing_steps h c.chain;
  held = c.held;
  pending = c.pending;
  unsent = c.unsent;
}
