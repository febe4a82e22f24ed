-- ===== src/Outbound/Context.antt =====
-- internal/outbound/proposal_context.go: the authority context of a proposal that carries it.
use vigia.Prelude.{String, Option, none, some, false, ◌==◌, String_comparable, if◌then◌else◌}
use vigia.Outbound.{OutboundActionProposal, AuthorityContext}

-- `ProposalContextResolver.Resolve`; `none` is its error.
unfoldable pub resolve : String → OutboundActionProposal → Option AuthorityContext
resolve tenant_id p =
    if tenant_id == ""
    then none
    else some (record {
      tenant_id = tenant_id;
      debtor_id = p.debtor_id;
      debtor_timezone = p.debtor_timezone;
      channel = p.channel;
      proposed_at = p.proposed_at;
      recipient_ambiguous = false;
      channel_ambiguous = false;
      contact_party_relationship = p.contact_party_relationship;
      authorized_channels = p.authorized_channels;
      payment_recipient = p.payment_target;
    })
