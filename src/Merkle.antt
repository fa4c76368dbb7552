-- ===== src/Merkle.antt =====
-- src/kernel/merkletree.cpp: Merkle trees over identifiers, and proofs of membership.
-- A node's `ancestor` is not stored: it is the next node on the path from the node to the root.
pub mod Build
pub mod Proof
mod Tests
use crypto_kernel.Prelude.{ℕ, List, [], ◌∷◌, ◌++◌, Bool, true, false}
use crypto_kernel.BigNum.{Text, Hashing, to_string}

-- `MerkleNode`, by its constructors: `MerkleNode(left, right)` of two values (`leaf` is set),
-- `MerkleNode(left, right)` of two nodes, and `MerkleRootNode`. The last number is the `root`.
pub data MerkleNode : Type 0 where
  values : ℕ → ℕ → ℕ → MerkleNode
  nodes : MerkleNode → MerkleNode → ℕ → MerkleNode
  root_node : ℕ → MerkleNode

-- `getMerkleRoot`
abbrev pub get_merkle_root : MerkleNode → ℕ
get_merkle_root (values l r root) = root
get_merkle_root (nodes a b root) = root
get_merkle_root (root_node root) = root

-- `getLeftVal`; the values of a `MerkleRootNode` are `BigNum()`, which is 0.
abbrev pub get_left_val : MerkleNode → ℕ
get_left_val (values l r root) = l
get_left_val (nodes a b root) = get_merkle_root a
get_left_val (root_node root) = 0

abbrev pub get_right_val : MerkleNode → ℕ
get_right_val (values l r root) = r
get_right_val (nodes a b root) = get_merkle_root b
get_right_val (root_node root) = 0

-- The fields `leftVal` and `rightVal`, which stay `BigNum()` in a node of two nodes.
abbrev pub left_field : MerkleNode → ℕ
left_field (values l r root) = l
left_field _ = 0

abbrev pub right_field : MerkleNode → ℕ
right_field (values l r root) = r
right_field _ = 0

module _ (lib : Hashing) where
  pub calc_root : Text → Text → ℕ
  calc_root left right = lib.from_hex (lib.sha256 (left ++ right))

  -- The root over two values, each printed.
  unfoldable pub combine : ℕ → ℕ → ℕ
  unfolding calc_root
  combine l r = calc_root (to_string lib l) (to_string lib r)

  unfoldable pub new_values : ℕ → ℕ → MerkleNode
  new_values l r = values l r (combine l r)

  pub new_nodes : MerkleNode → MerkleNode → MerkleNode
  new_nodes a b = nodes a b (combine (get_merkle_root a) (get_merkle_root b))

  -- `MerkleNode(left)` of one node. It also converts a `shared_ptr` to a `MerkleNode`.
  pub new_node : MerkleNode → MerkleNode
  new_node a = new_nodes a a
