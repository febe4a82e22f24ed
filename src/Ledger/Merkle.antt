-- ===== src/Ledger/Merkle.antt =====
-- internal/ledger/checkpoint.go: the Merkle root of a list of nodes.
pub mod Bounds
pub mod Tree
pub mod Binding
use vigia.Prelude.{
  ℕ, zero, suc, ◌*◌, List, [], ◌∷◌, ◌++◌, Option, none, some, length, take, drop, ltb,
  if◌then◌else◌,
}
use vigia.Ledger.Digest.{Bytes, Sha256}

-- `for k<<1 < n { k <<= 1 }`, on fuel; `none` is out of fuel.
unfoldable pub doubled : ℕ → ℕ → ℕ → Option ℕ
doubled zero n k = none
doubled (suc fuel) n k = let next = doubled fuel n (k * 2) in if ltb (k * 2) n then next else some k

-- `largestPowerOfTwoLessThan`
unfoldable pub largest_power_of_two_less_than : ℕ → Option ℕ
largest_power_of_two_less_than n = doubled (suc n) n 1

module _ (sha : Sha256) where
  abbrev pub merkle_leaf_hash : Bytes → Bytes
  merkle_leaf_hash hash = sha.digest (0 ∷ hash)

  abbrev pub merkle_node_hash : Bytes → Bytes → Bytes
  merkle_node_hash left right = sha.digest (1 ∷ left ++ right)

  abbrev pub node_of : Option Bytes → Option Bytes → Option Bytes
  node_of (some l) (some r) = some (merkle_node_hash l r)
  node_of _ _ = none

  abbrev pub split_at : (List Bytes → Option Bytes) → List Bytes → Option ℕ → Option Bytes
  split_at root nodes none = none
  split_at root nodes (some k) = node_of (root (take k nodes)) (root (drop k nodes))

  -- `merkleRoot`, on fuel; `none` is out of fuel, or the panic on an empty slice.
  unfoldable pub root_on : ℕ → List Bytes → Option Bytes
  root_on zero nodes = none
  root_on (suc fuel) [] = none
  root_on (suc fuel) (x ∷ []) = some x
  root_on (suc fuel) (x ∷ y ∷ nodes) =
      split_at (root_on fuel) (x ∷ y ∷ nodes)
        (largest_power_of_two_less_than (length (x ∷ y ∷ nodes)))

  abbrev pub merkle_root : List Bytes → Option Bytes
  merkle_root nodes = root_on (length nodes) nodes
