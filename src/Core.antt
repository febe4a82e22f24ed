-- ===== src/Core.antt =====
-- internal/core/types.go: the vocabulary that the components share. A Go string type whose values
-- the code only compares stays a text; the closed vocabularies are data types.
use vigia.Prelude.{ℕ, String, List}

abbrev pub InteractionChannel : Type 0
InteractionChannel = String

pub data DetectorOutcome : Type 0 where
  pass review fail warn : DetectorOutcome

pub data Severity : Type 0 where
  low medium high critical : Severity

-- The values of a `map[string]any`, as far as the repository's code builds or reads them.
pub data Value : Type 0 where
  text : String → Value
  number : ℕ → Value
  texts : List String → Value
  maps : List (List (String × String)) → Value
  -- any value of another type
  opaque : String → Value

-- A map, by its entries; of two entries with one key the first counts.
abbrev pub Fields : Type 0
Fields = List (String × Value)
