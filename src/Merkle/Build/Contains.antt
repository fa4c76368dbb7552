-- ===== src/Merkle/Build/Contains.antt =====
-- The tree that `makeMerkleTree` builds: every node is hashed from its children, and every value
-- that went in is found.
use crypto_kernel.Prelude.{
  subst, ℕ, zero, suc, ◌≡◌, ◌≢◌, refl, ap, ◌∙◌, Bool, true, false, none, some, List, [], ◌∷◌, ◌==◌,
  ◌||◌, length, elem, All, arith, Option-cases, inl, inr,
}
use crypto_kernel.BigNum.{Hashing}
use crypto_kernel.Merkle.{
  MerkleNode, values, nodes, get_merkle_root, combine, new_values, new_nodes, new_node,
}
use crypto_kernel.Merkle.Build.{
  pair_loop, pairs, pair_loop-eq-pairs, reduce, make_merkle_tree, make_merkle_tree_total,
}
use crypto_kernel.Merkle.Proof.{find_descendant}
use crypto_kernel.Merkle.Proof.RoundTrip.{IsHashed, ProvesTo, make_proof-new_node}

abbrev is_found : ℕ → MerkleNode → Bool
is_found x n = elim (find_descendant x n) [ none ↦ false | some _ ↦ true ]

any_found : ℕ → List MerkleNode → Bool
any_found x [] = false
any_found x (n ∷ ns) = is_found x n || any_found x ns

or_mono :
    (a b c d : Bool)
    → (a ≡ true → c ≡ true)
    → (b ≡ true → d ≡ true)
    → (a || b) ≡ true
    → (c || d) ≡ true
or_mono a b c d f g h = ground arith

or_left : (a b : Bool) → a ≡ true → (a || b) ≡ true
or_left a b h = ground arith

or_assoc : (a b c : Bool) → (a || (b || c)) ≡ true → ((a || b) || c) ≡ true
or_assoc a b c h = ground arith

is_found-values : (x l r root : ℕ) → is_found x (values l r root) ≡ (l == x || r == x)
unfolding find_descendant
is_found-values x l r root = ground arith

is_found-nodes :
    (x : ℕ) (a b : MerkleNode) (root : ℕ)
    → (is_found x a || is_found x b) ≡ true
    → is_found x (nodes a b root) ≡ true
unfolding find_descendant
is_found-nodes x a b root h = ground arith

module _ (lib : Hashing) where
  pairs-values_IsHashed : (xs : List ℕ) → All (IsHashed lib) (pairs (new_values lib) xs)
  unfolding pairs new_values
  pairs-values_IsHashed [] = tt
  pairs-values_IsHashed (a ∷ []) = (refl, tt)
  pairs-values_IsHashed (a ∷ b ∷ xs) = (refl, pairs-values_IsHashed xs)

  pairs-nodes_IsHashed :
      (ns : List MerkleNode) → All (IsHashed lib) ns → All (IsHashed lib) (pairs (new_nodes lib) ns)
  unfolding pairs new_nodes
  pairs-nodes_IsHashed [] h = tt
  pairs-nodes_IsHashed (a ∷ []) h = ((refl, h.0, h.0), tt)
  pairs-nodes_IsHashed (a ∷ b ∷ ns) h = ((refl, h.0, h.1.0), pairs-nodes_IsHashed ns h.1.1)

  reduce-IsHashed :
      (fuel : ℕ) (ns : List MerkleNode) {t : MerkleNode}
      → All (IsHashed lib) ns
      → reduce lib fuel ns ≡ some t
      → IsHashed lib t
  unfolding reduce
  reduce-IsHashed fuel [] h e = absurd (ground arith)
  reduce-IsHashed fuel (n ∷ []) {t} h e = subst (IsHashed lib) (cc) h.0
  reduce-IsHashed zero (n ∷ m ∷ ns) h e = absurd (ground arith)
  reduce-IsHashed (suc fuel) (n ∷ m ∷ ns) h e =
      reduce-IsHashed fuel (pair_loop (new_nodes lib) [] (n ∷ m ∷ ns) [])
        (rw (pair_loop-eq-pairs (new_nodes lib) (n ∷ m ∷ ns)) (pairs-nodes_IsHashed (n ∷ m ∷ ns) h))
        e

  any_found-pairs_values :
      (x : ℕ) (xs : List ℕ) → elem x xs ≡ true → any_found x (pairs (new_values lib) xs) ≡ true
  unfolding any_found pairs new_values
  any_found-pairs_values x [] h = h
  any_found-pairs_values x (a ∷ []) h = rw is_found-values (ground arith)
  any_found-pairs_values x (a ∷ b ∷ xs) h =
      rw is_found-values (ground (arith, any_found-pairs_values x xs))

  any_found-pairs_nodes :
      (x : ℕ) (ns : List MerkleNode)
      → any_found x ns ≡ true
      → any_found x (pairs (new_nodes lib) ns) ≡ true
  unfolding any_found pairs new_nodes
  any_found-pairs_nodes x [] h = h
  any_found-pairs_nodes x (a ∷ []) h =
      let w = combine lib (get_merkle_root a) (get_merkle_root a) in
      or_mono (is_found x a) false (is_found x (nodes a a w)) false
        (λ e. is_found-nodes x a a w (or_left _ _ e)) (λ e. e) h
  any_found-pairs_nodes x (a ∷ b ∷ ns) h =
      let w = combine lib (get_merkle_root a) (get_merkle_root b) in
      or_mono (is_found x a || is_found x b) (any_found x ns) (is_found x (nodes a b w))
        (any_found x (pairs (new_nodes lib) ns)) (is_found-nodes x a b w)
        (any_found-pairs_nodes x ns) (or_assoc (is_found x a) (is_found x b) (any_found x ns) h)

  reduce-found :
      (x fuel : ℕ) (ns : List MerkleNode) {t : MerkleNode}
      → any_found x ns ≡ true
      → reduce lib fuel ns ≡ some t
      → (path : List MerkleNode) × (find_descendant x t ≡ some path)
  unfolding reduce any_found
  reduce-found x fuel [] h e = absurd (ground arith)
  reduce-found x fuel (n ∷ []) {t} h e = elim (Option-cases (find_descendant x n)) [
    | inr (path, found) ↦ (path, ap (find_descendant x) (let same : t ≡ n = cc in same) ∙ found)
    | inl missed ↦ absurd (ground arith)
  ]
  reduce-found x zero (n ∷ m ∷ ns) h e = absurd (ground arith)
  reduce-found x (suc fuel) (n ∷ m ∷ ns) h e =
      reduce-found x fuel (pair_loop (new_nodes lib) [] (n ∷ m ∷ ns) [])
        (rw (pair_loop-eq-pairs (new_nodes lib) (n ∷ m ∷ ns))
          (any_found-pairs_nodes x (n ∷ m ∷ ns) h))
        e

  -- For every non-empty set of values and each value of it but 0: `makeMerkleTree` returns a tree, and
  -- a proof made for the value from the tree, wrapped in a node, leads to the root of that node.
  pub make_merkle_tree-proves :
      (x y : ℕ) (ys : List ℕ)
      → x ≢ 0
      → elem x (y ∷ ys) ≡ true
      → (t : MerkleNode) × (make_merkle_tree lib (y ∷ ys) ≡ some t)
        × ProvesTo lib (new_node lib t) x (get_merkle_root (new_node lib t))
  unfolding make_merkle_tree
  make_merkle_tree-proves x y ys nz h =
      let (t, made) = make_merkle_tree_total lib y ys in
      let step = pair_loop-eq-pairs (new_values lib) (y ∷ ys) in
      let hashed =
        reduce-IsHashed (length (y ∷ ys)) (pair_loop (new_values lib) [] (y ∷ ys) [])
          (rw step (pairs-values_IsHashed (y ∷ ys))) made in
      let (path, found) =
        reduce-found x (length (y ∷ ys)) (pair_loop (new_values lib) [] (y ∷ ys) [])
          (rw step (any_found-pairs_values x (y ∷ ys) h)) made in
      (t, made, make_proof-new_node lib x t nz hashed found)
