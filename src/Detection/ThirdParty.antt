-- ===== src/Detection/ThirdParty.antt =====
-- internal/detection/third_party.go
use vigia.Prelude.{◌||◌, ◌==◌, String_comparable, if◌then◌else◌}
use vigia.Detection.{Detector, Outcome, Rationale}

unfoldable pub evaluate : Detector
evaluate i =
    if i.contact_party_relationship == ""
    then record { outcome = Outcome.block; rationale = Rationale.relationship_unknown }
    else if i.contact_party_relationship == "debtor" || i.contact_party_relationship == "authorized"
    then record {
      outcome = Outcome.pass;
      rationale = Rationale.relationship_authorized i.contact_party_relationship;
    }
    else record {
      outcome = Outcome.block;
      rationale = Rationale.relationship_refused i.contact_party_relationship;
    }
