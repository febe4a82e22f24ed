-- ===== src/Detection/PaymentRouting.antt =====
-- internal/detection/payment_routing.go
use vigia.Prelude.{◌==◌, String_comparable, if◌then◌else◌}
use vigia.Detection.{Detector, Outcome, Rationale}

unfoldable pub evaluate : Detector
evaluate i =
    if i.payment_recipient == ""
    then record { outcome = Outcome.block; rationale = Rationale.recipient_missing }
    else if i.payment_recipient == "creditor"
    then record { outcome = Outcome.pass; rationale = Rationale.recipient_creditor }
    else record {
      outcome = Outcome.block;
      rationale = Rationale.recipient_refused i.payment_recipient;
    }
