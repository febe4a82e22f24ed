-- ===== src/Harness/WellFormed.antt =====
-- The proposals that the outbound gate decodes (outboundgate, `decodeSendProposal`).
use vigia.Prelude.{
  ◌≡◌, ◌≢◌, refl, ◌⊎◌, inl, inr, String, true, false, arith, eq_iff, Bool-cases, ◌==◌,
  String_comparable,
}
use mathlib.Core.Path.{subst}
use vigia.Outbound.{OutboundActionProposal}
use vigia.Time.{Time}
use vigia.Core.{Fields}
use vigia.Prelude.{Bool, ◌||◌}
use vigia.Harness.Gate.{
  ParseTime, is_missing, string_value, valid_channel, proposal_at, timed, decode_send_proposal,
}

-- A proposal that names itself, its case, debtor and recipient, and has a text and a known channel.
pub record IsWellFormed (p : OutboundActionProposal) : Type 0 where
  pub proposal_id : p.proposal_id ≢ ""
  pub case_id : p.case_id ≢ ""
  pub debtor_id : p.debtor_id ≢ ""
  pub recipient_ref : p.recipient_ref ≢ ""
  pub text : p.text ≢ ""
  pub channel : (p.channel ≡ "call") ⊎ (p.channel ≡ "message") ⊎ (p.channel ≡ "email")

pub sides_differ :
    (e : String) (p : OutboundActionProposal) (s : String ⊎ OutboundActionProposal)
    → s ≡ inl e
    → s ≢ inr p
sides_differ e p s h k = absurd (cc)

pub same_proposal :
    (p q : OutboundActionProposal) (s : String ⊎ OutboundActionProposal)
    → s ≡ inr p
    → s ≡ inr q
    → p ≡ q
same_proposal p q s h k = cc

none_missing :
    (a b c d e f g : Bool)
    → (a || b || c || d || e || f || g) ≡ false
    → (a ≡ false) × (b ≡ false) × (c ≡ false) × (e ≡ false) × (f ≡ false)
none_missing a b c d e f g h = ground arith

not_empty : (s : String) → (s == "") ≡ false → s ≢ ""
not_empty s h e = absurd (ground (arith, eq_iff s ""))

valid_channel-cases :
    (s : String) → valid_channel s ≡ true → (s ≡ "call") ⊎ (s ≡ "message") ⊎ (s ≡ "email")
unfolding valid_channel
valid_channel-cases s h = ground (arith, eq_iff s "call", eq_iff s "message", eq_iff s "email")

proposal_at-IsWellFormed :
    (input : Fields) (at : Time)
    → is_missing input ≡ false
    → valid_channel (string_value input "channel") ≡ true
    → IsWellFormed (proposal_at input at)
unfolding proposal_at
proposal_at-IsWellFormed input at present known =
    let value = string_value input in
    let (id, case_id, debtor, recipient, text) =
      none_missing (value "proposal_id" == "") (value "case_id" == "") (value "debtor_id" == "")
        (value "channel" == "") (value "recipient_ref" == "") (value "text" == "")
        (value "proposed_at" == "") present in
    record {
      proposal_id = not_empty _ id;
      case_id = not_empty _ case_id;
      debtor_id = not_empty _ debtor;
      recipient_ref = not_empty _ recipient;
      text = not_empty _ text;
      channel = valid_channel-cases _ known;
    }

timed-IsWellFormed :
    (input : Fields) (parsed : String ⊎ Time) (p : OutboundActionProposal)
    → is_missing input ≡ false
    → valid_channel (string_value input "channel") ≡ true
    → timed input parsed ≡ inr p
    → IsWellFormed p
timed-IsWellFormed input (inl e) p present known h = absurd (sides_differ _ p _ refl h)
timed-IsWellFormed input (inr at) p present known h =
    subst IsWellFormed (same_proposal _ p _ refl h)
      (proposal_at-IsWellFormed input at present known)

pub decode-IsWellFormed :
    (parse : ParseTime) (input : Fields) (p : OutboundActionProposal)
    → decode_send_proposal parse input ≡ inr p
    → IsWellFormed p
unfolding decode_send_proposal
decode-IsWellFormed parse input p h = elim (Bool-cases (is_missing input)) [
  | inl missing ↦ absurd (ground (arith, missing, h))
  | inr present ↦ elim (Bool-cases (valid_channel (string_value input "channel"))) [
    | inr unknown ↦ absurd (ground (arith, present, unknown, h))
    | inl known ↦
        timed-IsWellFormed input (parse (string_value input "proposed_at")) p present known
          (ground (arith, present, known, h))
  ]
]
