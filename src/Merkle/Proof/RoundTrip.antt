-- ===== src/Merkle/Proof/RoundTrip.antt =====
-- A proof made by `makeProof` and read by `makeMerkleTreeFromProof`: which root comes out.
use crypto_kernel.Prelude.{
  ℕ, ◌/◌, ◌%◌, ◌≡◌, ◌≢◌, ◌⊎◌, inl, inr, refl, sym, ap, subst, ◌∙◌, none, some, List, [], ◌∷◌, ◌++◌,
  ◌==◌, if◌then◌else◌, arith, Bool-cases, ==_refl,
}
use crypto_kernel.BigNum.{Hashing}
use crypto_kernel.Merkle.{
  MerkleNode, values, nodes, root_node, get_merkle_root, get_left_val, get_right_val, combine,
  new_values, new_node, new_nodes,
}
use crypto_kernel.Merkle.Proof.{
  MerkleProof, find_descendant, sibling, collect, make_proof, climb, tree_from_proof,
}
use crypto_kernel.Merkle.Proof.Path.{
  siblings, turns, collect-leaves, collect-position, entering, top, IsHashedAt, Rises, rise,
  climb-root, rise-cons, rise-path,
}
use crypto_kernel.Merkle.Proof.Search.{
  find-values, not-find-root_node, find-nodes, find-left, find-right,
}

-- A path that leads to the root of `t`: its first node and the others.
record LeadsTo (lib : Hashing) (x : ℕ) (t : MerkleNode) (path : List MerkleNode) : Type 0 where
  first : MerkleNode
  others : List MerkleNode
  shape : path ≡ first ∷ others
  rises : Rises lib x (first ∷ others)
  ends : top first others ≡ t

top-append : (n : MerkleNode) (ns : List MerkleNode) (t : MerkleNode) → top n (ns ++ t ∷ []) ≡ t
unfolding top
top-append n [] t = refl
top-append n (m ∷ ns) t = top-append m ns t

entering-append :
    (v : ℕ) (n : MerkleNode) (ns : List MerkleNode) (t : MerkleNode)
    → entering v (n ∷ ns ++ t ∷ []) ≡ get_merkle_root (top n ns)
unfolding top entering
entering-append v n [] t = refl
entering-append v n (m ∷ ns) t = entering-append (get_merkle_root n) m ns t

module _ (lib : Hashing) where
  -- Every node with children has the root of its children's values.
  abbrev pub IsHashed : MerkleNode → Type 0
  IsHashed (values l r root) = IsHashedAt lib (values l r root)
  IsHashed (nodes a b root) = IsHashedAt lib (nodes a b root) × IsHashed a × IsHashed b
  IsHashed (root_node root) = Unit

  Rises-append :
      (v : ℕ) (n : MerkleNode) (ns : List MerkleNode) (t : MerkleNode)
      → Rises lib v (n ∷ ns)
      → (get_left_val t ≡ get_merkle_root (top n ns))
        ⊎ (get_right_val t ≡ get_merkle_root (top n ns))
      → IsHashedAt lib t
      → Rises lib v (n ∷ ns ++ t ∷ [])
  unfolding top
  Rises-append v n [] t h side hashed = (h.0, h.1, (side, hashed, tt))
  Rises-append v n (m ∷ ns) t h side hashed =
      (h.0, h.1, Rises-append (get_merkle_root n) m ns t h.2 side hashed)

  -- What the search in a child found, with the parent appended.
  LeadsTo-append :
      (x : ℕ) (c t : MerkleNode) (path : List MerkleNode)
      → LeadsTo lib x c path
      → (get_left_val t ≡ get_merkle_root c) ⊎ (get_right_val t ≡ get_merkle_root c)
      → IsHashedAt lib t
      → LeadsTo lib x t (path ++ t ∷ [])
  LeadsTo-append x c t path l side hashed = record {
    first = l.first;
    others = l.others ++ t ∷ [];
    shape = ap (λ p. p ++ t ∷ []) l.shape;
    rises = Rises-append x l.first l.others t l.rises (rw (l.ends) side) hashed;
    ends = top-append l.first l.others t;
  }

  find-LeadsTo :
      (x : ℕ) (t : MerkleNode) {path : List MerkleNode}
      → x ≢ 0
      → IsHashed t
      → find_descendant x t ≡ some path
      → LeadsTo lib x t path
  unfolding top
  find-LeadsTo x (values l r root) nz h e =
      let (shape, side) = find-values x l r root e in
      record {
        first = values l r root;
        others = [];
        shape = shape;
        rises = (side, h, tt);
        ends = refl;
      }
  find-LeadsTo x (root_node root) nz h e = absurd (not-find-root_node x root nz e)
  find-LeadsTo x (nodes a b root) nz h e = elim (find-nodes x a b root nz e) [
    | inl (p, found, shape) ↦
        rw shape
          (LeadsTo-append x a (nodes a b root) p (find-LeadsTo x a nz h.1 found) (inl refl) h.0)
    | inr (p, found, shape) ↦
        rw shape
          (LeadsTo-append x b (nodes a b root) p (find-LeadsTo x b nz h.2 found) (inr refl) h.0)
  ]

  -- `makeProof` finds `x` in `t`, and the tree that is made of the proof has the root `value`.
  abbrev pub ProvesTo : MerkleNode → ℕ → ℕ → Type 0
  ProvesTo t x value =
      (p : MerkleProof) × (r : MerkleNode) × (make_proof t x ≡ some p)
      × (tree_from_proof lib p ≡ some r)
      × (get_merkle_root r ≡ value)

  -- The proof that `makeProof` gathers on a path.
  proof_of : ℕ → MerkleNode → List MerkleNode → MerkleProof
  proof_of x n ns = record {
    leaves = x ∷ siblings x (n ∷ ns);
    position_in_total_set = turns x (n ∷ ns);
  }

  collect-proof_of :
      (x : ℕ) (n : MerkleNode) (ns : List MerkleNode)
      → collect x 0 (n ∷ ns) (record { leaves = x ∷ []; position_in_total_set = 0 })
        ≡ proof_of x n ns
  unfolding proof_of
  collect-proof_of x n ns =
      let start : MerkleProof = record { leaves = x ∷ []; position_in_total_set = 0 } in
      let position : (collect x 0 (n ∷ ns) start).position_in_total_set ≡ turns x (n ∷ ns) =
        omega (arith, collect-position x 0 (n ∷ ns) start) in
      λ i. record {
        leaves = collect-leaves x 0 (n ∷ ns) start i;
        position_in_total_set = position i;
      }

  -- The first pair of values is joined as the later ones are.
  tree_from_proof-rise :
      (x : ℕ) (n : MerkleNode) (ns : List MerkleNode)
      → (r : MerkleNode) × (tree_from_proof lib (proof_of x n ns) ≡ some r)
        × (get_merkle_root r ≡ rise lib (turns x (n ∷ ns)) x (siblings x (n ∷ ns)))
  unfolding tree_from_proof proof_of siblings new_values
  tree_from_proof-rise x n ns =
      let layer = turns x (n ∷ ns) in
      let s = sibling n x in
      let start : MerkleNode =
        new_values lib (if layer % 2 == 0 then x else s) (if layer % 2 == 0 then s else x) in
      (
        climb lib (layer / 2) (siblings (get_merkle_root n) ns) start,
        refl,
        climb-root lib (layer / 2) (siblings (get_merkle_root n) ns) start
            ∙ rw (rise-cons lib layer x s (siblings (get_merkle_root n) ns))
                (elim (Bool-cases (layer % 2 == 0)) [ inl even ↦ rw even | inr odd ↦ rw odd ]),
      )

  proof-root :
      (x : ℕ) (t n : MerkleNode) (ns : List MerkleNode)
      → find_descendant x t ≡ some (n ∷ ns)
      → Rises lib x (n ∷ ns)
      → ProvesTo t x (combine lib (entering x (n ∷ ns)) (sibling (top n ns) (entering x (n ∷ ns))))
  unfolding make_proof
  proof-root x t n ns found h =
      let (r, made, root) = tree_from_proof-rise x n ns in
      (
        proof_of x n ns,
        r,
        rw (found, make_proof) (ap some (collect-proof_of x n ns)),
        made,
        root ∙ rise-path lib x n ns h,
      )

  -- The proof of a value that was found in the child `c` of the root `t`.
  proof_in_child :
      (x : ℕ) (c t : MerkleNode) (path : List MerkleNode)
      → find_descendant x t ≡ some (path ++ t ∷ [])
      → LeadsTo lib x c path
      → (get_left_val t ≡ get_merkle_root c) ⊎ (get_right_val t ≡ get_merkle_root c)
      → IsHashedAt lib t
      → ProvesTo t x (combine lib (get_merkle_root c) (sibling t (get_merkle_root c)))
  proof_in_child x c t path found l side hashed =
      let enters : entering x (l.first ∷ l.others ++ t ∷ []) ≡ get_merkle_root c =
        entering-append x l.first l.others t ∙ ap get_merkle_root l.ends in
      let last : top l.first (l.others ++ t ∷ []) ≡ t = top-append l.first l.others t in
      let proof =
        proof-root x t l.first (l.others ++ t ∷ []) (found ∙ ap (λ p. some (p ++ t ∷ [])) l.shape)
          (Rises-append x l.first l.others t l.rises (rw l.ends side) hashed) in
      rw (enters, last) at proof

  -- The tests of the repository wrap the tree that `makeMerkleTree` returns: a `shared_ptr` converts
  -- to a `MerkleNode` that has the tree on both sides. Every value that is found in the tree, and
  -- is not 0, has a proof from there, and the proof leads to the root.
  pub make_proof-new_node :
      (x : ℕ) (t : MerkleNode) {path : List MerkleNode}
      → x ≢ 0
      → IsHashed t
      → find_descendant x t ≡ some path
      → ProvesTo (new_node lib t) x (get_merkle_root (new_node lib t))
  unfolding new_node new_nodes
  make_proof-new_node x t {path} nz h found =
      let root = get_merkle_root t in
      let proof =
        proof_in_child x t (new_node lib t) path (find-left x t t (combine lib root root) nz found)
          (find-LeadsTo x t nz h found) (inl refl) refl in
      rw (==_refl root) at proof

  -- A proof is made from the root of a tree of two nodes, each of whose nodes has the hash of its
  -- children. For a value in the left half, not 0, the proof leads to the root.
  pub make_proof-left_half :
      (x : ℕ) (a b : MerkleNode) (root : ℕ) {path : List MerkleNode}
      → x ≢ 0
      → IsHashed (nodes a b root)
      → find_descendant x a ≡ some path
      → ProvesTo (nodes a b root) x root
  make_proof-left_half x a b root {path} nz h found =
      let proof =
        proof_in_child x a (nodes a b root) path (find-left x a b root nz found)
          (find-LeadsTo x a nz h.1 found) (inl refl) h.0 in
      let sib : sibling (nodes a b root) (get_merkle_root a) ≡ get_merkle_root b = ground arith in
      subst (ProvesTo (nodes a b root) x) (ap (combine lib (get_merkle_root a)) sib ∙ sym h.0) proof

  -- A proof is made from the root of a tree of two nodes with different roots, each of whose nodes
  -- has the hash of its children. For a value that is in the right half only, not 0, the proof
  -- leads to the root of the two halves in the wrong order.
  pub make_proof-right_half :
      (x : ℕ) (a b : MerkleNode) (root : ℕ) {path : List MerkleNode}
      → x ≢ 0
      → IsHashed (nodes a b root)
      → get_merkle_root a ≢ get_merkle_root b
      → find_descendant x a ≡ none
      → find_descendant x b ≡ some path
      → ProvesTo (nodes a b root) x (combine lib (get_merkle_root b) (get_merkle_root a))
  make_proof-right_half x a b root {path} nz h differ missed found =
      let proof =
        proof_in_child x b (nodes a b root) path (find-right x a b root nz missed found)
          (find-LeadsTo x b nz h.2 found) (inr refl) h.0 in
      let sib : sibling (nodes a b root) (get_merkle_root b) ≡ get_merkle_root a = ground arith in
      subst (ProvesTo (nodes a b root) x) (ap (combine lib (get_merkle_root b)) sib) proof
