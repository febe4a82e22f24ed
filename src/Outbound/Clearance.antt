-- ===== src/Outbound/Clearance.antt =====
-- When an outbound proposal is allowed (decider.go).
use vigia.Prelude.{◌≡◌, ◌≢◌, ◌↔◌, String, true, false, Option, none, some, arith, eq_iff, is_some}
use vigia.Time.{is_zero}
use vigia.Outbound.{
  DecisionOutcome, OutboundActionProposal, DecisionRequest, Decision, ResolvedPolicyBundle,
  AuthorityContext,
}
use vigia.Outbound.Engine.{Decider, BundleReply}
use vigia.Outbound.Rules.{interaction_of, check_rules}
use vigia.Outbound.Decider.{
  check_context, with_reply, check_bundle, resolved, check_resolver, verdict, finalize, decide,
}
use vigia.Outbound.RulesHold.{Approves, MeetsRules, check_rules-allow, allow-check_rules}

-- The resolved context is unambiguous, its zone is known, and its interaction meets the rules.
pub record MeetsContext (d : Decider) (req : DecisionRequest) (c : AuthorityContext) : Type 0 where
  pub one_recipient : c.recipient_ambiguous ≡ false
  pub one_channel : c.channel_ambiguous ≡ false
  pub zone_named : c.debtor_timezone ≢ ""
  pub zone_known : is_some (d.zones c.debtor_timezone) ≡ true
  pub rules : MeetsRules d (interaction_of req c)
  pub approved : Approves d req d.tone_judge

check_context-gates :
    (d : Decider) (req : DecisionRequest) (c : AuthorityContext) (b : ResolvedPolicyBundle)
    → ((check_context d req c b).outcome ≡ DecisionOutcome.allow) ↔ (
        (c.recipient_ambiguous ≡ false)
        × (c.channel_ambiguous ≡ false)
        × (c.debtor_timezone ≢ "")
        × (is_some (d.zones c.debtor_timezone) ≡ true)
        × ((check_rules d req b (interaction_of req c)).outcome ≡ DecisionOutcome.allow))
unfolding check_context
check_context-gates d req c b = ground (arith, eq_iff c.debtor_timezone "")

check_context-allow_iff :
    (d : Decider) (req : DecisionRequest) (c : AuthorityContext) (b : ResolvedPolicyBundle)
    → ((check_context d req c b).outcome ≡ DecisionOutcome.allow) ↔ MeetsContext d req c
check_context-allow_iff d req c b = (
  λ h.
      let (r, k, n, z, allowed) = (check_context-gates d req c b).0 h in
      let (rules, approved) = check_rules-allow d req b (interaction_of req c) allowed in
      record {
        one_recipient = r;
        one_channel = k;
        zone_named = n;
        zone_known = z;
        rules = rules;
        approved = approved;
      },
  λ m. (check_context-gates d req c b).1 (
    m.one_recipient,
    m.one_channel,
    m.zone_named,
    m.zone_known,
    allow-check_rules d req b (interaction_of req c) m.rules m.approved,
  ),
)

-- A policy bundle was resolved without an error and has a version.
abbrev pub HasBundle : DecisionRequest → Option (String → BundleReply) → Type 0
HasBundle req none = ⊥
HasBundle req (some resolve) =
    ((resolve req.tenant_id).error ≡ none) × ((resolve req.tenant_id).bundle.version ≢ "")

-- The authority context was resolved, and meets all that the rules ask of it.
abbrev pub ContextMet : Decider → DecisionRequest → Option AuthorityContext → Type 0
ContextMet d req none = ⊥
ContextMet d req (some c) = MeetsContext d req c

abbrev pub HasContext :
    Decider
    → DecisionRequest
    → Option (String → OutboundActionProposal → Option AuthorityContext)
    → Type 0
HasContext d req none = ⊥
HasContext d req (some resolve) = ContextMet d req (resolve req.tenant_id req.proposal)

with_reply-gates :
    (d : Decider) (req : DecisionRequest) (c : AuthorityContext) (reply : BundleReply)
    → ((with_reply d req c reply).outcome ≡ DecisionOutcome.allow) ↔ (
        (reply.error ≡ none)
        × (reply.bundle.version ≢ "")
        × ((check_context d req c reply.bundle).outcome ≡ DecisionOutcome.allow))
unfolding with_reply
with_reply-gates d req c reply = ground (arith, eq_iff reply.bundle.version "")

check_bundle-allow_iff :
    (d : Decider) (req : DecisionRequest) (c : AuthorityContext)
    (resolver : Option (String → BundleReply))
    → ((check_bundle d req c resolver).outcome ≡ DecisionOutcome.allow)
      ↔ (HasBundle req resolver × MeetsContext d req c)
unfolding check_bundle
check_bundle-allow_iff d req c none = ground arith
check_bundle-allow_iff d req c (some resolve) =
    let reply = resolve req.tenant_id in
    (
      λ h.
          let (no_error, versioned, allowed) = (with_reply-gates d req c reply).0 h in
          ((no_error, versioned), (check_context-allow_iff d req c reply.bundle).0 allowed),
      λ ((no_error, versioned), m).
          (with_reply-gates d req c reply).1
            (no_error, versioned, (check_context-allow_iff d req c reply.bundle).1 m),
    )

resolved-allow_iff :
    (d : Decider) (req : DecisionRequest) (found : Option AuthorityContext)
    → ((resolved d req found).outcome ≡ DecisionOutcome.allow)
      ↔ (HasBundle req d.bundle_resolver × ContextMet d req found)
unfolding resolved
resolved-allow_iff d req none = (λ h. absurd (cc), λ h. absurd h.1)
resolved-allow_iff d req (some c) = check_bundle-allow_iff d req c d.bundle_resolver

check_resolver-allow_iff :
    (d : Decider) (req : DecisionRequest)
    (resolver : Option (String → OutboundActionProposal → Option AuthorityContext))
    → ((check_resolver d req resolver).outcome ≡ DecisionOutcome.allow)
      ↔ (HasBundle req d.bundle_resolver × HasContext d req resolver)
unfolding check_resolver
check_resolver-allow_iff d req none = (λ h. absurd (cc), λ h. absurd h.1)
check_resolver-allow_iff d req (some resolve) =
    resolved-allow_iff d req (resolve req.tenant_id req.proposal)

-- All that must hold for an outbound proposal to be allowed.
pub record IsCleared (d : Decider) (req : DecisionRequest) : Type 0 where
  pub dated : is_zero req.proposal.proposed_at ≡ false
  pub bundle : HasBundle req d.bundle_resolver
  pub context : HasContext d req d.context_resolver

verdict-gates :
    (d : Decider) (req : DecisionRequest)
    → ((verdict d req).outcome ≡ DecisionOutcome.allow) ↔ (
        (is_zero req.proposal.proposed_at ≡ false)
        × ((check_resolver d req d.context_resolver).outcome ≡ DecisionOutcome.allow))
unfolding verdict
verdict-gates d req = ground arith

verdict-allow_iff :
    (d : Decider) (req : DecisionRequest)
    → ((verdict d req).outcome ≡ DecisionOutcome.allow) ↔ IsCleared d req
verdict-allow_iff d req = (
  λ h.
      let (dated, allowed) = (verdict-gates d req).0 h in
      let (bundle, context) = (check_resolver-allow_iff d req d.context_resolver).0 allowed in
      record { dated = dated; bundle = bundle; context = context },
  λ c.
      (verdict-gates d req).1
        (c.dated, (check_resolver-allow_iff d req d.context_resolver).1 (c.bundle, c.context)),
)

finalize-outcome :
    (d : Decider) (req : DecisionRequest) (plain : Decision)
    → (finalize d req plain).0.outcome ≡ plain.outcome
unfolding finalize
finalize-outcome d req plain = ground arith

-- A proposal is allowed exactly when it is dated, its context and its policy bundle are resolved,
-- the context is unambiguous and in a known zone, the hours, party, channel and recipient rules
-- hold, and the judge passes it with confidence of at least one half. What the recorder does never
-- changes that.
pub decide-allow_iff :
    (d : Decider) (req : DecisionRequest)
    → ((decide d req).0.outcome ≡ DecisionOutcome.allow) ↔ IsCleared d req
unfolding decide
decide-allow_iff d req = rw finalize-outcome (verdict-allow_iff d req)
