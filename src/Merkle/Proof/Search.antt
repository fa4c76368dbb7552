-- ===== src/Merkle/Proof/Search.antt =====
-- Which path `findDescendant` of src/kernel/merkletree.cpp finds in each kind of node.
use crypto_kernel.Prelude.{
  ℕ, ◌≡◌, ◌≢◌, ◌⊎◌, inl, inr, none, some, List, [], ◌∷◌, ◌++◌, arith, Option-cases,
}
use crypto_kernel.Merkle.{MerkleNode, values, nodes, root_node}
use crypto_kernel.Merkle.Proof.{find_descendant}

pub find-values :
    (x l r root : ℕ) {path : List MerkleNode}
    → find_descendant x (values l r root) ≡ some path
    → (path ≡ values l r root ∷ []) × ((l ≡ x) ⊎ (r ≡ x))
unfolding find_descendant
find-values x l r root e = ground arith

pub not-find-root_node :
    (x root : ℕ) {path : List MerkleNode} → x ≢ 0 → find_descendant x (root_node root) ≢ some path
unfolding find_descendant
not-find-root_node x root nz e = ground arith

-- The search in a node of two nodes: below on the left, or else below on the right.
pub find-nodes :
    (x : ℕ) (a b : MerkleNode) (root : ℕ) {path : List MerkleNode}
    → x ≢ 0
    → find_descendant x (nodes a b root) ≡ some path
    → ((p : List MerkleNode) × (find_descendant x a ≡ some p) × (path ≡ p ++ nodes a b root ∷ []))
      ⊎ ((p : List MerkleNode) × (find_descendant x b ≡ some p) × (path ≡ p ++ nodes a b root ∷ []))
unfolding find_descendant
find-nodes x a b root nz e = elim (Option-cases (find_descendant x a)) [
  | inr (p, found) ↦ inl (p, found, ground arith)
  | inl missed ↦ elim (Option-cases (find_descendant x b)) [
    | inr (p, found) ↦ inr (p, found, ground arith)
    | inl nowhere ↦ absurd (ground arith)
  ]
]

pub find-left :
    (x : ℕ) (a b : MerkleNode) (root : ℕ) {p : List MerkleNode}
    → x ≢ 0
    → find_descendant x a ≡ some p
    → find_descendant x (nodes a b root) ≡ some (p ++ nodes a b root ∷ [])
unfolding find_descendant
find-left x a b root nz found = ground arith

pub find-right :
    (x : ℕ) (a b : MerkleNode) (root : ℕ) {p : List MerkleNode}
    → x ≢ 0
    → find_descendant x a ≡ none
    → find_descendant x b ≡ some p
    → find_descendant x (nodes a b root) ≡ some (p ++ nodes a b root ∷ [])
unfolding find_descendant
find-right x a b root nz missed found = ground arith
