-- ===== src/Merkle/Tests.antt =====
-- Trees of three values under the toy hash, and the theorems of src/kernel/merkletree.cpp's model at
-- them.
use crypto_kernel.Prelude.{ℕ, ◌≡◌, ◌≢◌, refl, some, none, [], ◌∷◌, arith}
use crypto_kernel.BigNum.{to_string}
use crypto_kernel.Decimal.{to_decimal}
use crypto_kernel.Example.{toy_hashing as lib}
use crypto_kernel.Merkle.{MerkleNode, nodes, get_merkle_root, combine, new_values, new_node}
use crypto_kernel.Merkle.Build.{make_merkle_tree}
use crypto_kernel.Merkle.Build.Contains.{make_merkle_tree-proves}
use crypto_kernel.Merkle.Proof.{find_descendant}
use crypto_kernel.Merkle.Proof.RoundTrip.{
  IsHashed, ProvesTo, make_proof-left_half, make_proof-right_half,
}

abbrev left_half : MerkleNode
left_half = new_values lib 1 2

abbrev right_half : MerkleNode
right_half = new_values lib 3 3

abbrev root : ℕ
root = combine lib (get_merkle_root left_half) (get_merkle_root right_half)

three-IsHashed : IsHashed lib (nodes left_half right_half root)
unfolding new_values
three-IsHashed = (refl, refl, refl)

found_left : find_descendant 1 left_half ≡ some (left_half ∷ [])
unfolding find_descendant new_values
found_left = refl

missed_left : find_descendant 3 left_half ≡ none
unfolding find_descendant new_values
missed_left = refl

found_right : find_descendant 3 right_half ≡ some (right_half ∷ [])
unfolding find_descendant new_values
found_right = refl

make_merkle_tree-proves_example :
    (t : MerkleNode) × (make_merkle_tree lib (1 ∷ 2 ∷ 3 ∷ []) ≡ some t)
    × ProvesTo lib (new_node lib t) 3 (get_merkle_root (new_node lib t))
make_merkle_tree-proves_example = make_merkle_tree-proves lib 3 1 (2 ∷ 3 ∷ []) (omega arith) refl

make_proof-left_half_example : ProvesTo lib (nodes left_half right_half root) 1 root
make_proof-left_half_example =
    make_proof-left_half lib 1 left_half right_half root (omega arith) three-IsHashed found_left

halves_differ : get_merkle_root left_half ≢ get_merkle_root right_half
unfolding new_values combine to_string to_decimal
halves_differ = omega arith

make_proof-right_half_example :
    ProvesTo lib
      (nodes left_half right_half root)
      3
      (combine lib (get_merkle_root right_half) (get_merkle_root left_half))
make_proof-right_half_example =
    make_proof-right_half lib 3 left_half right_half root (omega arith) three-IsHashed halves_differ
      missed_left found_right
