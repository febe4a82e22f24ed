-- ===== src/Detection/Disclosure.antt =====
-- internal/detection/disclosure.go
use vigia.Prelude.{Bool, true, false, Option, none, some}
use vigia.Detection.{Detector, Outcome, Rationale, Result}

abbrev of_flag : Option Bool → Result
of_flag none = record { outcome = Outcome.warn; rationale = Rationale.disclosure_unknown }
of_flag (some true) = record { outcome = Outcome.pass; rationale = Rationale.disclosure_stated }
of_flag (some false) = record { outcome = Outcome.warn; rationale = Rationale.disclosure_absent }

unfoldable pub evaluate : Detector
evaluate i = of_flag i.disclosure_provided
