-- ===== src/Merkle/Proof.antt =====
-- `findDescendant`, `makeProof` and `makeMerkleTreeFromProof` of src/kernel/merkletree.cpp.
-- A proof is made from the root of its tree, a node with no `ancestor`. The `int` level and
-- position do not overflow in a tree of less than 2 ^ 31 values.
mod Path
mod Search
pub mod Form
pub mod RoundTrip
use crypto_kernel.Prelude.{
  ℕ, ◌+◌, ◌/◌, ◌%◌, ◌^◌, Option, none, some, List, [], ◌∷◌, ◌++◌, Bool, ◌==◌, ◌||◌, if◌then◌else◌,
}
use crypto_kernel.BigNum.{Hashing}
use crypto_kernel.Merkle.{
  MerkleNode, values, nodes, root_node, get_merkle_root, get_left_val, get_right_val, left_field,
  right_field, new_values, new_nodes,
}

pub record MerkleProof : Type 0 where
  pub leaves : List ℕ
  pub position_in_total_set : ℕ

-- `leftVal == needle || rightVal == needle`, on the fields
abbrev pub matches : ℕ → MerkleNode → Bool
matches needle n = left_field n == needle || right_field n == needle

-- The node that `findDescendant` returns, with the ancestors that lead from it up to the start;
-- `none` for `nullptr`.
unfoldable pub find_descendant : ℕ → MerkleNode → Option (List MerkleNode)
find_descendant needle (values l r root) =
    if matches needle (values l r root) then some (values l r root ∷ []) else none
find_descendant needle (root_node root) =
    if matches needle (root_node root) then some (root_node root ∷ []) else none
find_descendant needle (nodes a b root) =
    let in_left = find_descendant needle a in
    let in_right = find_descendant needle b in
    if matches needle (nodes a b root) then some (nodes a b root ∷ []) else elim in_left [
      | some path ↦ some (path ++ nodes a b root ∷ [])
      | none ↦ elim in_right [ some path ↦ some (path ++ nodes a b root ∷ []) | none ↦ none ]
    ]

-- `(getLeftVal() == proof) ? getRightVal() : getLeftVal()`
abbrev pub sibling : MerkleNode → ℕ → ℕ
sibling n v = if get_left_val n == v then get_right_val n else get_left_val n

-- One round at a node that has an ancestor: its sibling is appended, and `1 << level` is added if
-- the value stands on the right.
abbrev pub add_sibling : ℕ → ℕ → MerkleNode → MerkleProof → MerkleProof
add_sibling v level n p = record {
  leaves = p.leaves ++ sibling n v ∷ [];
  position_in_total_set = p.position_in_total_set + (if get_left_val n == v then 0 else 2 ^ level);
}

-- The `while` of `makeProof`: the loop ends at the node that has no ancestor, before the position
-- of that node's child is added.
pub collect : ℕ → ℕ → List MerkleNode → MerkleProof → MerkleProof
collect v level [] p = p
collect v level (n ∷ []) p = record p { leaves = p.leaves ++ sibling n v ∷ [] }
collect v level (n ∷ m ∷ ns) p =
    collect (get_merkle_root n) (level + 1) (m ∷ ns) (add_sibling v level n p)

-- `makeProof`; `none` for its `NotFoundException`.
pub make_proof : MerkleNode → ℕ → Option MerkleProof
unfolding find_descendant collect
make_proof tree v = elim (find_descendant v tree) [
  | none ↦ none
  | some path ↦ some (collect v 0 path (record { leaves = v ∷ []; position_in_total_set = 0 }))
]

module _ (lib : Hashing) where
  -- The `for` of `makeMerkleTreeFromProof`, over the siblings from the third element on.
  pub climb : ℕ → List ℕ → MerkleNode → MerkleNode
  climb layer [] result = result
  climb layer (s ∷ ss) result = climb (layer / 2) ss (
      if layer % 2 == 0
      then new_nodes lib result (root_node s)
      else new_nodes lib (root_node s) result)

  -- `makeMerkleTreeFromProof`; `none` for the `std::out_of_range` of `leaves.at(0)`.
  unfoldable pub tree_from_proof : MerkleProof → Option MerkleNode
  unfolding climb
  tree_from_proof p = elim p.leaves [
    | [] ↦ none
    | element ∷ [] ↦ some (root_node element)
    | element ∷ first ∷ rest ↦
        let even = p.position_in_total_set % 2 == 0 in
        some (
          climb (p.position_in_total_set / 2) rest
            (new_values lib (if even then element else first) (if even then first else element)))
  ]
