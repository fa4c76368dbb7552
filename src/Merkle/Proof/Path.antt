-- ===== src/Merkle/Proof/Path.antt =====
-- The loops of `makeProof` and `makeMerkleTreeFromProof` over one path from a node to the root:
-- what `collect` gathers, and which root `climb` makes of it.
use native.Mathlib.Nat.{pow-suc}
use native.Mathlib.Numerals.{add-one}
use crypto_kernel.Prelude.{
  ℕ, ◌+◌, ◌*◌, ◌/◌, ◌%◌, ◌^◌, ◌≡◌, ◌⊎◌, inl, inr, refl, sym, ◌∙◌, List, [], ◌∷◌, ◌++◌, ◌==◌,
  if◌then◌else◌, arith, Bool-cases,
}
use mathlib.Core.List.{append-nil, append_assoc}
use crypto_kernel.BigNum.{Hashing}
use crypto_kernel.Merkle.{
  MerkleNode, get_merkle_root, get_left_val, get_right_val, combine, new_nodes,
}
use crypto_kernel.Merkle.Proof.{MerkleProof, sibling, add_sibling, collect, climb}

-- The siblings that `collect` appends, and the position that it adds at level 0.
unfoldable pub siblings : ℕ → List MerkleNode → List ℕ
siblings v [] = []
siblings v (n ∷ ns) = sibling n v ∷ siblings (get_merkle_root n) ns

turn : MerkleNode → ℕ → ℕ
turn n v = if get_left_val n == v then 0 else 1

pub turns : ℕ → List MerkleNode → ℕ
turns v [] = 0
turns v (n ∷ []) = 0
turns v (n ∷ m ∷ ns) = turn n v + 2 * turns (get_merkle_root n) (m ∷ ns)

pub collect-leaves :
    (v level : ℕ) (path : List MerkleNode) (p : MerkleProof)
    → (collect v level path p).leaves ≡ p.leaves ++ siblings v path
unfolding collect siblings
collect-leaves v level [] p = sym (append-nil p.leaves)
collect-leaves v level (n ∷ []) p = refl
collect-leaves v level (n ∷ m ∷ ns) p =
    collect-leaves (get_merkle_root n) (level + 1) (m ∷ ns) _
    ∙ append_assoc p.leaves (sibling n v ∷ []) (siblings (get_merkle_root n) (m ∷ ns))

double_step : (level b t : ℕ) → 2 ^ level * (b + 2 * t) ≡ 2 ^ level * b + 2 ^ (level + 1) * t
double_step level b t = rw (add-one level, pow-suc) (omega arith)

pub collect-position :
    (v level : ℕ) (path : List MerkleNode) (p : MerkleProof)
    → (collect v level path p).position_in_total_set
      ≡ p.position_in_total_set + 2 ^ level * turns v path
unfolding collect turns turn
collect-position v level [] p = omega arith
collect-position v level (n ∷ []) p = omega arith
collect-position v level (n ∷ m ∷ ns) p =
    let rest =
      collect-position (get_merkle_root n) (level + 1) (m ∷ ns) (add_sibling v level n p) in
    let step = double_step level (turn n v) (turns (get_merkle_root n) (m ∷ ns)) in
    elim (Bool-cases (get_left_val n == v)) [
      | inl left ↦ rw (rest, step, left) (omega arith)
      | inr right ↦ rw (rest, step, right) (omega arith)
    ]

-- The value that enters the last node of the path, and that node.
unfoldable pub entering : ℕ → List MerkleNode → ℕ
entering v [] = v
entering v (n ∷ []) = v
entering v (n ∷ m ∷ ns) = entering (get_merkle_root n) (m ∷ ns)

unfoldable pub top : MerkleNode → List MerkleNode → MerkleNode
top n [] = n
top n (m ∷ ns) = top m ns

module _ (lib : Hashing) where
  abbrev pub IsHashedAt : MerkleNode → Type 0
  IsHashedAt n = get_merkle_root n ≡ combine lib (get_left_val n) (get_right_val n)

  -- Each node of the path has the value of the one before it on one of its sides.
  abbrev pub Rises : ℕ → List MerkleNode → Type 0
  Rises v [] = Unit
  Rises v (n ∷ ns) =
      ((get_left_val n ≡ v) ⊎ (get_right_val n ≡ v)) × IsHashedAt n × Rises (get_merkle_root n) ns

  -- The root that the `for` loop makes, as a function of values alone.
  pub rise : ℕ → ℕ → List ℕ → ℕ
  rise layer v [] = v
  rise layer v (s ∷ ss) =
      rise (layer / 2) (if layer % 2 == 0 then combine lib v s else combine lib s v) ss

  pub climb-root :
      (layer : ℕ) (ss : List ℕ) (r : MerkleNode)
      → get_merkle_root (climb lib layer ss r) ≡ rise layer (get_merkle_root r) ss
  unfolding climb rise new_nodes
  climb-root layer [] r = refl
  climb-root layer (s ∷ ss) r = elim (Bool-cases (layer % 2 == 0)) [
    | inl even ↦ rw even (climb-root (layer / 2) ss _)
    | inr odd ↦ rw odd (climb-root (layer / 2) ss _)
  ]

  pub rise-cons :
      (layer v s : ℕ) (ss : List ℕ)
      → rise layer v (s ∷ ss)
        ≡ rise (layer / 2) (if layer % 2 == 0 then combine lib v s else combine lib s v) ss
  unfolding rise
  rise-cons layer v s ss = refl

  -- With the value on one side, the lowest bit of the position puts it on that side again.
  join_again :
      (v q : ℕ) (n : MerkleNode)
      → (get_left_val n ≡ v) ⊎ (get_right_val n ≡ v)
      → IsHashedAt n
      → (if (turn n v + 2 * q) % 2 == 0
          then combine lib v (sibling n v)
          else combine lib (sibling n v) v)
        ≡ get_merkle_root n
  unfolding turn
  join_again v q n side hashed = ground arith

  turn-half : (v q : ℕ) (n : MerkleNode) → (turn n v + 2 * q) / 2 ≡ q
  unfolding turn
  turn-half v q n = ground arith

  pub rise-path :
      (v : ℕ) (n : MerkleNode) (ns : List MerkleNode)
      → Rises v (n ∷ ns)
      → rise (turns v (n ∷ ns)) v (siblings v (n ∷ ns))
        ≡ combine lib (entering v (n ∷ ns)) (sibling (top n ns) (entering v (n ∷ ns)))
  unfolding turns siblings entering top
  rise-path v n [] h = rise-cons 0 v (sibling n v) [] ∙ (unfold rise in refl)
  rise-path v n (m ∷ ns) h =
      let q = turns (get_merkle_root n) (m ∷ ns) in
      rise-cons (turn n v + 2 * q) v (sibling n v) (siblings (get_merkle_root n) (m ∷ ns))
      ∙ rw (turn-half v q n, join_again v q n h.0 h.1) (rise-path (get_merkle_root n) m ns h.2)
