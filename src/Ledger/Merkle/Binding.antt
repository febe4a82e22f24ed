-- ===== src/Ledger/Merkle/Binding.antt =====
-- What a Merkle root commits to (checkpoint.go): leaves and nodes are hashed under different first bytes.
use mathlib.Core.List.{Memᴰ}
use vigia.Prelude.{
  ◌≡◌, refl, List, [], ◌++◌, sym, ap, ◌∙◌, ◌⊎◌, inl, inr, ◌∷◌, arith, length, append_split,
}
use vigia.Ledger.Hashing.{digest-binding}
use vigia.Ledger.Digest.{Bytes, Sha256, Collision}
use vigia.Ledger.Merkle.Tree.{Tree, root}
use vigia.Prelude.Membership.{append-Mem}

-- Two findings, each made unless there is a collision.
pub unless {ℓ κ μ ν} :
    {C : Type ℓ} {A : Type κ} {B : Type μ} {D : Type ν} → (A → B → D) → C ⊎ A → C ⊎ B → C ⊎ D
unless f (inl c) y = inl c
unless f (inr x) (inl c) = inl c
unless f (inr x) (inr y) = inr (f x y)

module _ (sha : Sha256) where
  -- What the root of a tree hands to SHA-256, one input for each leaf and node.
  abbrev pub tree_inputs : Tree → List Bytes
  tree_inputs (Tree.leaf h) = (0 ∷ h) ∷ []
  tree_inputs (Tree.node l r) = (1 ∷ root sha l ++ root sha r) ∷ tree_inputs l ++ tree_inputs r

  length-root : (t : Tree) → length (root sha t) ≡ 32
  length-root (Tree.leaf h) = sha.digest_length _
  length-root (Tree.node l r) = sha.digest_length _

  module _ (hashed : List Bytes) where
    abbrev pub IsHashedIn : List Bytes → Type 0
    IsHashedIn inputs = (b : Bytes) → Memᴰ b inputs → Memᴰ b hashed

    -- Two trees with one root are one tree, or two of their inputs collide.
    pub root-binding :
        (t u : Tree)
        → IsHashedIn (tree_inputs t)
        → IsHashedIn (tree_inputs u)
        → root sha t ≡ root sha u
        → Collision sha hashed ⊎ (t ≡ u)
    root-binding (Tree.leaf h) (Tree.leaf g) m n e =
        elim (digest-binding sha hashed (0 ∷ h) (0 ∷ g) (m _ (Memᴰ.head refl))
          (n _ (Memᴰ.head refl)) e) [ inl broken ↦ inl broken | inr same ↦ inr (cc) ]
    root-binding (Tree.leaf h) (Tree.node l r) m n e =
        elim (digest-binding sha hashed _ _ (m _ (Memᴰ.head refl)) (n _ (Memᴰ.head refl)) e) [
          | inl broken ↦ inl broken
          | inr same ↦ absurd (ground arith)
        ]
    root-binding (Tree.node l r) (Tree.leaf h) m n e =
        elim (digest-binding sha hashed _ _ (m _ (Memᴰ.head refl)) (n _ (Memᴰ.head refl)) e) [
          | inl broken ↦ inl broken
          | inr same ↦ absurd (ground arith)
        ]
    root-binding (Tree.node l r) (Tree.node k s) m n e =
        elim (digest-binding sha hashed _ _ (m _ (Memᴰ.head refl)) (n _ (Memᴰ.head refl)) e) [
          | inl broken ↦ inl broken
          | inr same ↦
              let (left, right) =
                append_split (root sha l) (root sha r) (root sha k) (root sha s)
                  (length-root l ∙ sym (length-root k)) (cc) in
              unless (λ x y. ap (λ t. Tree.node t r) x ∙ ap (λ t. Tree.node k t) y)
                (root-binding l k (λ b h. m b (Memᴰ.tail (append-Mem b _ _ (inl h))))
                  (λ b h. n b (Memᴰ.tail (append-Mem b _ _ (inl h)))) left)
                (root-binding r s (λ b h. m b (Memᴰ.tail (append-Mem b _ _ (inr h))))
                  (λ b h. n b (Memᴰ.tail (append-Mem b _ _ (inr h)))) right)
        ]
