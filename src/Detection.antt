-- ===== src/Detection.antt =====
-- internal/detection: the data of the policy detectors. Each detector is a module below.
pub mod ContactHours
pub mod ThirdParty
pub mod AuthorizedChannel
pub mod PaymentRouting
pub mod Disclosure
pub mod ProtectedPopulation
pub mod Hours
pub mod Tables
pub mod Ages
use vigia.Prelude.{ℕ, String, Bool, List, Option}
use vigia.Prelude.Int.{ℤ}
use vigia.Time.{Time}
use vigia.Judge.{Failure}
use vigia.Core.{InteractionChannel}

-- `Outcome` is a string type: `other` holds any value that is not one of the constants.
pub data Outcome : Type 0 where
  pass block warn : Outcome
  other : String → Outcome

pub record Interaction : Type 0 where
  pub occurred_at : Time
  pub debtor_timezone : String
  pub channel : InteractionChannel
  pub contact_party_relationship : String
  pub contacted_party_dob : Option Time
  pub authorized_channels : List String
  pub payment_recipient : String
  pub disclosure_provided : Option Bool

-- The hours are not negative.
pub record Window : Type 0 where
  pub start_hour : ℕ
  pub end_hour : ℕ

-- A rationale is kept as its message and the arguments of `fmt.Sprintf`; its text is not rendered.
pub data Rationale : Type 0 where
  timezone_missing : Rationale
  timezone_invalid : String → Rationale
  before_window : Time → Window → Rationale
  after_window : Time → Window → Rationale
  in_window : Time → Window → Rationale
  relationship_unknown : Rationale
  relationship_authorized : String → Rationale
  relationship_refused : String → Rationale
  channels_missing : Rationale
  channel_authorized : String → Rationale
  channel_refused : String → Rationale
  recipient_missing : Rationale
  recipient_creditor : Rationale
  recipient_refused : String → Rationale
  disclosure_unknown : Rationale
  disclosure_stated : Rationale
  disclosure_absent : Rationale
  dob_missing_debtor : Rationale
  dob_missing : Rationale
  minor : ℤ → Rationale
  elderly_debtor : ℤ → Rationale
  elderly : ℤ → Rationale
  adult : ℤ → Rationale
  -- the rationale of an injected detector
  given : String → Rationale
  -- evaluation: a judge that failed, with the text of its error
  judge_failed : Failure → String → Rationale
  -- evaluation: an outcome that no case names, with the detector's code, outcome and rationale
  unrecognized : String → Outcome → Rationale → Rationale

pub record Result : Type 0 where
  pub outcome : Outcome
  pub rationale : Rationale

abbrev pub Detector : Type 0
Detector = Interaction → Result
