-- ===== src/Ledger/Merkle/Tree.antt =====
-- The tree hash of RFC 6962, apart from the code, and that the code's root is its root.
use vigia.Prelude.{
  ℕ, zero, suc, ◌+◌, ◌≤◌, ◌<◌, ◌≡◌, refl, ap, ◌∙◌, List, [], ◌∷◌, ◌++◌, Option, some, map, arith,
  length, take, drop, take-drop, length-take, length-drop, length-map, take-map, drop-map,
}
use vigia.Ledger.Digest.{Bytes, Sha256}
use vigia.Ledger.Merkle.{
  split_at, merkle_leaf_hash, root_on, merkle_root, largest_power_of_two_less_than,
}
use vigia.Ledger.Merkle.Bounds.{IsSplit, largest_power_of_two-IsSplit}

-- A tree over a list of hashes that is not empty.
pub data Tree : Type 0 where
  leaf : Bytes → Tree
  node : Tree → Tree → Tree

abbrev pub leaves : Tree → List Bytes
leaves (Tree.leaf h) = h ∷ []
leaves (Tree.node l r) = leaves l ++ leaves r

-- RFC 6962: a leaf is hashed behind the byte 0, and a node behind the byte 1, its left part first.
abbrev pub root : Sha256 → Tree → Bytes
root sha (Tree.leaf h) = sha.digest (0 ∷ h)
root sha (Tree.node l r) = sha.digest (1 ∷ root sha l ++ root sha r)

-- RFC 6962: a node of n leaves has k of them on its left, with k the power of two below n and at least its half.
abbrev pub IsRfc6962 : Tree → Type 0
IsRfc6962 (Tree.leaf h) = Unit
IsRfc6962 (Tree.node l r) =
    IsSplit (length (leaves l ++ leaves r)) (length (leaves l)) × (IsRfc6962 l × IsRfc6962 r)

module _ (sha : Sha256) where
  abbrev leaf_hashes : List Bytes → List Bytes
  leaf_hashes hs = map (merkle_leaf_hash sha) hs

  -- The tree over a list, where `f` computes its root.
  record HasTree (f : List Bytes → Option Bytes) (hs : List Bytes) : Type 0 where
    tree : Tree
    over : leaves tree ≡ hs
    shape : IsRfc6962 tree
    computed : f (leaf_hashes hs) ≡ some (root sha tree)

  -- The parts of a split list are not empty, and are shorter than it.
  record HasParts (hs : List Bytes) (k : ℕ) : Type 0 where
    first : length (take k hs) ≡ k
    second : length (drop k hs) + k ≡ length hs
    positive : 0 < k

  split-HasParts : (hs : List Bytes) (k : ℕ) → IsSplit (length hs) k → HasParts hs k
  split-HasParts hs k split = record {
    first = length-take k hs (omega (arith, split.below));
    second = length-drop k hs (omega (arith, split.below));
    positive = omega (arith, split.below, split.half);
  }

  root_on-split :
      (fuel k : ℕ) (nodes : List Bytes)
      → 2 ≤ length nodes
      → largest_power_of_two_less_than (length nodes) ≡ some k
      → root_on sha (suc fuel) nodes ≡ split_at sha (root_on sha fuel) nodes (some k)
  unfolding root_on
  root_on-split fuel k [] low found = absurd (omega arith)
  root_on-split fuel k (x ∷ []) low found = absurd (omega arith)
  root_on-split fuel k (x ∷ y ∷ nodes) low found =
      ap (split_at sha (root_on sha fuel) (x ∷ y ∷ nodes)) found

  split-HasTree :
      (fuel k : ℕ) (hs : List Bytes)
      → 2 ≤ length hs
      → largest_power_of_two_less_than (length hs) ≡ some k
      → IsSplit (length hs) k
      → HasTree (root_on sha fuel) (take k hs)
      → HasTree (root_on sha fuel) (drop k hs)
      → HasTree (root_on sha (suc fuel)) hs
  split-HasTree fuel k hs low found split left right =
      let size = length-map (merkle_leaf_hash sha) hs in
      let parts = split-HasParts hs k split in
      record {
        tree = Tree.node left.tree right.tree;
        over = cc (left.over, right.over, take-drop k hs);
        shape = (
          rw (left.over, right.over, take-drop k hs, parts.first) split,
          (left.shape, right.shape),
        );
        computed =
            root_on-split fuel k (leaf_hashes hs) (omega (arith, size))
              (ap largest_power_of_two_less_than size ∙ found)
            ∙ rw (
              take-map (merkle_leaf_hash sha) k hs,
              drop-map (merkle_leaf_hash sha) k hs,
              left.computed,
              right.computed,
            );
      }

  long-HasTree :
      (fuel : ℕ) (hs : List Bytes)
      → ((gs : List Bytes) → 0 < length gs → length gs ≤ fuel → HasTree (root_on sha fuel) gs)
      → 2 ≤ length hs
      → length hs ≤ suc fuel
      → HasTree (root_on sha (suc fuel)) hs
  long-HasTree fuel hs shorter low high =
      let (k, found, split) = largest_power_of_two-IsSplit (length hs) low in
      let parts = split-HasParts hs k split in
      split-HasTree fuel k hs low found split
        (shorter (take k hs) (omega (arith, parts.first, parts.positive))
          (omega (arith, parts.first, split.below)))
        (shorter (drop k hs) (omega (arith, parts.second, split.below))
          (omega (arith, parts.second, parts.positive)))

  root_on-HasTree :
      (fuel : ℕ) (hs : List Bytes)
      → 0 < length hs
      → length hs ≤ fuel
      → HasTree (root_on sha fuel) hs
  unfolding root_on
  root_on-HasTree zero hs low high = absurd (omega arith)
  root_on-HasTree (suc fuel) [] low high = absurd (omega arith)
  root_on-HasTree (suc fuel) (h ∷ []) low high = record {
    tree = Tree.leaf h;
    over = refl;
    shape = tt;
    computed = refl;
  }
  root_on-HasTree (suc fuel) (h ∷ g ∷ hs) low high =
      long-HasTree fuel (h ∷ g ∷ hs) (root_on-HasTree fuel) (omega arith) high

-- On the leaf hashes of any list that is not empty, the code's root is reached, and is the tree hash of
-- RFC 6962: the root of the tree over that list whose nodes split at the power of two below their size
-- and at least its half, each leaf hashed behind the byte 0, each node, left part first, behind the byte 1.
pub merkle_root-Rfc6962 :
    (sha : Sha256) (hs : List Bytes)
    → 0 < length hs
    → (t : Tree) × (leaves t ≡ hs)
      × IsRfc6962 t
      × (merkle_root sha (map (merkle_leaf_hash sha) hs) ≡ some (root sha t))
merkle_root-Rfc6962 sha hs h =
    let size = length-map (merkle_leaf_hash sha) hs in
    let built = root_on-HasTree sha (length (leaf_hashes sha hs)) hs h (omega (arith, size)) in
    (built.tree, built.over, built.shape, built.computed)
