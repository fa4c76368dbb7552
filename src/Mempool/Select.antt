-- ===== src/Mempool/Select.antt =====
-- `getTransactions` of src/kernel/blockchain.cpp's mempool: what a new block is filled with.
use crypto_kernel.Prelude.{
  ℕ, ◌+◌, ◌*◌, ◌%◌, ◌≤◌, ◌<◌, ◌≡◌, refl, List, [], ◌∷◌, map, length, take, sum, ltb, All, arith,
  Bool-cases, inl, inr, ap, suc, zero,
}
use crypto_kernel.OrderedMap.{Map}
use crypto_kernel.Env.{Env}
use crypto_kernel.Types.Transaction.{Transaction, u32, u64}
use crypto_kernel.Mempool.{Mempool, select, get_transactions}

module _ (env : Env) where
  abbrev pub sizes : List (Transaction env) → List ℕ
  sizes txs = map (λ t. t.bytes) txs

  abbrev pub values_of : Map (Transaction env) → List (Transaction env)
  values_of [] = []
  values_of (e ∷ txs) = e.1 ∷ values_of txs

  -- The most bytes that fit: 3.9 MiB, rounded down.
  abbrev pub max_total : ℕ
  max_total = 4089446

  IsFit : ℕ → Map (Transaction env) → List (Transaction env) → Type 0
  IsFit total txs chosen =
      (total + sum (sizes chosen) ≤ max_total)
      × (chosen ≡ take (length chosen) (values_of txs))
      × ((n : ℕ)
          → n ≤ length txs
          → total + sum (sizes (take n (values_of txs))) ≤ max_total
          → n ≤ length chosen)

  longer :
      (total : ℕ) (t : Transaction env) (ts : List (Transaction env)) (bound k : ℕ)
      → ((n : ℕ) → n ≤ bound → (total + t.bytes) + sum (sizes (take n ts)) ≤ max_total → n ≤ k)
      → (n : ℕ) → n ≤ suc bound
      → total + sum (sizes (take n (t ∷ ts))) ≤ max_total
      → n ≤ suc k
  longer total t ts bound k ih zero hn fits = omega arith
  longer total t ts bound k ih (suc n) hn fits =
      let rest = ih n (omega arith) (omega arith) in omega arith

  none_fits :
      (total : ℕ) (t : Transaction env) (ts : List (Transaction env)) (n : ℕ)
      → max_total < total + t.bytes
      → total + sum (sizes (take n (t ∷ ts))) ≤ max_total
      → n ≤ 0
  none_fits total t ts zero full fits = omega arith
  none_fits total t ts (suc n) full fits = absurd (omega arith)

  select-IsFit :
      (total : ℕ) (txs : Map (Transaction env))
      → All (λ t. t.bytes < u32) (values_of txs)
      → total ≤ max_total
      → IsFit total txs (select env total txs)
  unfolding select IsFit
  select-IsFit total [] small h = (omega arith, refl, λ n hn fits. hn)
  select-IsFit total (e ∷ txs) small h =
      let exact : (total + e.1.bytes) % u64 ≡ total + e.1.bytes = omega arith in
      elim (Bool-cases (ltb ((total + e.1.bytes) * 10) (39 * 1024 * 1024))) [
        | inl fits ↦
            let ih = select-IsFit (total + e.1.bytes) txs small.1 (ground arith) in
            let chosen = select env (total + e.1.bytes) txs in
            rw (exact, fits)
              (
                omega (arith, ih.0),
                ap (λ ts. e.1 ∷ ts) ih.1,
                longer total e.1 (values_of txs) (length txs) (length chosen) ih.2,
              )
        | inr full ↦
            rw (exact, full)
              (
                omega arith,
                refl,
                λ n hn fits. none_fits total e.1 (values_of txs) n (ground arith) fits,
              )
      ]

  -- A block is filled with a prefix of the mempool, in the order of the identifiers: the longest
  -- one whose sizes add up to less than 3.9 MiB. It is assumed that each size is an `unsigned int`.
  pub get_transactions_longest :
      (m : Mempool env)
      → All (λ t. t.bytes < u32) (values_of m.txs)
      → let chosen = get_transactions env m in
        (sum (sizes chosen) ≤ max_total)
        × (chosen ≡ take (length chosen) (values_of m.txs))
        × ((n : ℕ)
            → n ≤ length m.txs
            → sum (sizes (take n (values_of m.txs))) ≤ max_total
            → n ≤ length chosen)
  unfolding get_transactions IsFit
  get_transactions_longest m small =
      let fit = select-IsFit 0 m.txs small (omega arith) in
      (omega (arith, fit.0), fit.1, λ n hn fits. fit.2 n hn (omega arith))
