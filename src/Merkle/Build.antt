-- ===== src/Merkle/Build.antt =====
-- `MerkleNode::makeMerkleTree`: both of its loops, and the fuel that its `while` needs.
pub mod Contains
use mathlib.Core.List.{append_assoc}
use crypto_kernel.Prelude.{
  ℕ, zero, suc, ◌+◌, ◌/◌, ◌≤◌, ◌<◌, ◌≡◌, refl, Option, none, some, List, [], ◌∷◌, ◌++◌, length,
  arith, ap, ◌∙◌,
}
use crypto_kernel.BigNum.{Hashing}
use crypto_kernel.Merkle.{MerkleNode, new_values, new_nodes}

-- One pass over a sequence with a queue of at most two elements: a full queue becomes a node when
-- the next element comes, and what is left in the queue at the end becomes a last node.
module _ {A : Type 0} (join : A → A → MerkleNode) where
  -- `join(queue.front(), queue.back())`, pushed to the nodes made so far
  pub flush : List A → List MerkleNode → List MerkleNode
  flush [] made = made
  flush (a ∷ []) made = made ++ join a a ∷ []
  flush (a ∷ b ∷ _) made = made ++ join a b ∷ []

  pub pair_loop : List A → List A → List MerkleNode → List MerkleNode
  unfolding flush
  pair_loop queue [] made = flush queue made
  pair_loop [] (x ∷ xs) made = pair_loop (x ∷ []) xs made
  pair_loop (a ∷ []) (x ∷ xs) made = pair_loop (a ∷ x ∷ []) xs made
  pair_loop (a ∷ b ∷ r) (x ∷ xs) made = pair_loop (x ∷ []) xs (made ++ join a b ∷ [])

  -- What the pass means: neighbours are joined, and an odd last element with itself.
  pub pairs : List A → List MerkleNode
  pairs [] = []
  pairs (a ∷ []) = join a a ∷ []
  pairs (a ∷ b ∷ xs) = join a b ∷ pairs xs

  -- The queue holds at most two elements: the pass is `pairs` of the queue and the rest.
  pub pair_loop-one :
      (a : A) (xs : List A) (made : List MerkleNode)
      → pair_loop (a ∷ []) xs made ≡ made ++ pairs (a ∷ xs)
  unfolding pair_loop flush pairs
  pair_loop-one a [] made = refl
  pair_loop-one a (b ∷ []) made = refl
  pair_loop-one a (b ∷ c ∷ xs) made =
      pair_loop-one c xs (made ++ join a b ∷ [])
      ∙ append_assoc made (join a b ∷ []) (pairs (c ∷ xs))

  -- One pass of the loop with the queue over a sequence joins neighbours, and an odd last element
  -- with itself.
  pub pair_loop-eq-pairs : (xs : List A) → pair_loop [] xs [] ≡ pairs xs
  unfolding pair_loop flush pairs
  pair_loop-eq-pairs [] = refl
  pair_loop-eq-pairs (a ∷ xs) = pair_loop-one a xs []

  pub length-pairs : (xs : List A) → length (pairs xs) ≡ (length xs + 1) / 2
  unfolding pairs
  length-pairs [] = refl
  length-pairs (a ∷ []) = refl
  length-pairs (a ∷ b ∷ xs) = omega (arith, length-pairs xs)

module _ (lib : Hashing) where
  -- `while(nodes.size() > 1)`; `none` is fuel that ran out, or `nodes[0]` of an empty vector.
  pub reduce : ℕ → List MerkleNode → Option MerkleNode
  unfolding pair_loop
  reduce fuel [] = none
  reduce fuel (n ∷ []) = some n
  reduce zero (n ∷ m ∷ ns) = none
  reduce (suc fuel) (n ∷ m ∷ ns) = reduce fuel (pair_loop (new_nodes lib) [] (n ∷ m ∷ ns) [])

  -- `makeMerkleTree`, of the values in increasing order
  unfoldable pub make_merkle_tree : List ℕ → Option MerkleNode
  unfolding pair_loop reduce
  make_merkle_tree leaves = reduce (length leaves) (pair_loop (new_values lib) [] leaves [])

  -- The levels of the tree, one by one.
  pub reduce_total :
      (fuel : ℕ) (ns : List MerkleNode)
      → length ns ≤ fuel + 1
      → 0 < length ns
      → (t : MerkleNode) × (reduce fuel ns ≡ some t)
  unfolding reduce
  reduce_total fuel [] h pos = absurd (omega arith)
  reduce_total fuel (n ∷ []) h pos = (n, refl)
  reduce_total zero (n ∷ m ∷ ns) h pos = absurd (omega arith)
  reduce_total (suc fuel) (n ∷ m ∷ ns) h pos =
      let step = pair_loop-eq-pairs (new_nodes lib) (n ∷ m ∷ ns) in
      let len = ap length step ∙ length-pairs (new_nodes lib) (n ∷ m ∷ ns) in
      reduce_total fuel (pair_loop (new_nodes lib) [] (n ∷ m ∷ ns) []) (omega (arith, len))
        (omega (arith, len))

  -- For every non-empty set of values the loop ends in a tree.
  pub make_merkle_tree_total :
      (x : ℕ) (xs : List ℕ) → (t : MerkleNode) × (make_merkle_tree (x ∷ xs) ≡ some t)
  unfolding make_merkle_tree
  make_merkle_tree_total x xs =
      let len =
        ap length (pair_loop-eq-pairs (new_values lib) (x ∷ xs))
        ∙ length-pairs (new_values lib) (x ∷ xs) in
      reduce_total (length (x ∷ xs)) (pair_loop (new_values lib) [] (x ∷ xs) [])
        (omega (arith, len)) (omega (arith, len))
