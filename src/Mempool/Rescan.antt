-- ===== src/Mempool/Rescan.antt =====
-- `rescanMempool` of src/kernel/blockchain.cpp's mempool.
use crypto_kernel.Prelude.{
  ℕ, ◌≡◌, ◌⊎◌, refl, inl, inr, ◌∙◌, Bool, false, not, Option, none, some, List, [], ◌∷◌, map, elem,
  if◌then◌else◌, arith, All, Bool-cases,
}
use crypto_kernel.OrderedMap.{Map, lookup, IsSorted}
use crypto_kernel.OrderedMap.Laws.{lookup-Above}
use crypto_kernel.Env.{Env}
use crypto_kernel.Types.Transaction.{Transaction}
use crypto_kernel.Mempool.{Mempool, remove, remove_all, failing, rescan_mempool}
use crypto_kernel.Mempool.Consistent.{IsConsistent, remove-IsConsistent, lookup-remove}

module _ (env : Env) where
  abbrev AllThemselves : List (Transaction env) → Mempool env → Type 0
  AllThemselves txs m = All (λ tx. (lookup tx.id m.txs ≡ none) ⊎ (lookup tx.id m.txs ≡ some tx)) txs

  AllThemselves-remove :
      (tx : Transaction env) (txs : List (Transaction env)) (m : Mempool env)
      → IsConsistent env m
      → AllThemselves txs m
      → AllThemselves txs (remove env tx m)
  AllThemselves-remove tx [] m h a = tt
  AllThemselves-remove tx (t ∷ txs) m h a =
      (ground (arith, lookup-remove env tx m h t.id), AllThemselves-remove tx txs m h a.1)

  -- Removing several transactions leaves the others.
  remove_all_lem :
      (txs : List (Transaction env)) (m : Mempool env)
      → IsConsistent env m
      → AllThemselves txs m
      → IsConsistent env (remove_all env txs m)
        × ((k : ℕ)
            → lookup k (remove_all env txs m).txs
              ≡ (if elem k (map (λ t. t.id) txs) then none else lookup k m.txs))
  unfolding remove_all
  remove_all_lem [] m h a = (h, λ k. refl)
  remove_all_lem (tx ∷ txs) m h a =
      let rest =
        remove_all_lem txs (remove env tx m) (remove-IsConsistent env tx m h (a.0))
          (AllThemselves-remove tx txs m h (a.1)) in
      (rest.0, λ k. ground (arith, rest.1 k, lookup-remove env tx m h k))

  abbrev AreKeyed : Map (Transaction env) → Type 0
  AreKeyed txs = (k : ℕ) (t : Transaction env) → lookup k txs ≡ some t → t.id ≡ k

  AreKeyed-tail :
      (e : ℕ × Transaction env) (txs : Map (Transaction env))
      → IsSorted (e ∷ txs)
      → AreKeyed (e ∷ txs)
      → (e.1.id ≡ e.0) × AreKeyed txs
  AreKeyed-tail e txs s keyed = (
    keyed e.0 e.1 (ground arith),
    λ k t found. ground (arith, keyed k t, lookup-Above e.0 txs s.0),
  )

  -- Each of the transactions stands in the map under its identifier.
  abbrev AreFound : List (Transaction env) → Map (Transaction env) → Type 0
  AreFound ts txs = All (λ t. lookup t.id txs ≡ some t) ts

  AreFound-cons :
      (ts : List (Transaction env)) (e : ℕ × Transaction env) (txs : Map (Transaction env))
      → IsSorted (e ∷ txs)
      → AreFound ts txs
      → AreFound ts (e ∷ txs)
  AreFound-cons [] e txs s h = tt
  AreFound-cons (t ∷ ts) e txs s h =
      (ground (arith, h.0, lookup-Above e.0 txs s.0), AreFound-cons ts e txs s h.1)

  failing-AreFound :
      (verifies : Transaction env → Bool) (txs : Map (Transaction env))
      → IsSorted txs
      → AreKeyed txs
      → AreFound (failing env verifies txs) txs
  unfolding failing
  failing-AreFound verifies [] s keyed = tt
  failing-AreFound verifies (e ∷ txs) s keyed =
      let (own, below) = AreKeyed-tail e txs s keyed in
      let rest =
        AreFound-cons (failing env verifies txs) e txs s
          (failing-AreFound verifies txs s.1 below) in
      elim (Bool-cases (verifies e.1)) [
        | inl good ↦ rw good rest
        | inr bad ↦ rw bad ((ground arith, rest))
      ]

  abbrev pub fails : (Transaction env → Bool) → Option (Transaction env) → Bool
  fails verifies none = false
  fails verifies (some t) = not (verifies t)

  elem-failing :
      (verifies : Transaction env → Bool) (k : ℕ) (txs : Map (Transaction env))
      → IsSorted txs
      → AreKeyed txs
      → elem k (map (λ t. t.id) (failing env verifies txs)) ≡ fails verifies (lookup k txs)
  unfolding failing
  elem-failing verifies k [] s keyed = refl
  elem-failing verifies k (e ∷ txs) s keyed =
      let (own, below) = AreKeyed-tail e txs s keyed in
      ground (arith, elem-failing verifies k txs s.1 below, lookup-Above e.0 txs s.0)

  AreFound→AllThemselves :
      (ts : List (Transaction env)) (m : Mempool env) → AreFound ts m.txs → AllThemselves ts m
  AreFound→AllThemselves [] m h = tt
  AreFound→AllThemselves (t ∷ ts) m h = (inr h.0, AreFound→AllThemselves ts m h.1)

  -- A rescan keeps a mempool consistent, and keeps in it exactly the transactions that verify.
  pub rescan_mempool_lem :
      (verifies : Transaction env → Bool) (m : Mempool env)
      → IsConsistent env m
      → IsConsistent env (rescan_mempool env verifies m)
        × ((k : ℕ)
            → lookup k (rescan_mempool env verifies m).txs
              ≡ (if fails verifies (lookup k m.txs) then none else lookup k m.txs))
  unfolding rescan_mempool
  rescan_mempool_lem verifies m h =
      let keyed : AreKeyed m.txs = λ k t e. (h.entries k t e).0 in
      let ts = failing env verifies m.txs in
      let all =
        remove_all_lem ts m h
          (AreFound→AllThemselves ts m (failing-AreFound verifies m.txs h.sorted_txs keyed)) in
      (all.0, λ k. all.1 k ∙ rw (elem-failing verifies k m.txs h.sorted_txs keyed))
