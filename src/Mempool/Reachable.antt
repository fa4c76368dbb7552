-- ===== src/Mempool/Reachable.antt =====
-- The states that the mempool of src/kernel/blockchain.cpp can come to: from the empty one, by
-- `insert`, `remove` and `rescanMempool` in any order.
use crypto_kernel.Prelude.{ℕ, ◌<◌, ◌≡◌, ◌≢◌, Bool, true, false, none, some, elem, ◌⊎◌, arith}
use crypto_kernel.OrderedMap.{lookup}
use crypto_kernel.Env.{Env}
use crypto_kernel.Types.Transaction.{Transaction, u32}
use crypto_kernel.Mempool.{Mempool, empty_mempool, insert, remove, rescan_mempool}
use crypto_kernel.Mempool.Index.{input_ids, output_ids}
use crypto_kernel.Mempool.Consistent.{
  IsConsistent, empty_mempool-IsConsistent, insert-IsConsistent, remove-IsConsistent,
}
use crypto_kernel.Mempool.Rescan.{rescan_mempool_lem}

module _ (env : Env) where
  -- The sizes of transactions are `unsigned int`s, and what is removed is the transaction that stands
  -- under its identifier, if one does.
  pub data Reached : Mempool env → Type 0 where
    starts : Reached (empty_mempool env)
    inserts :
        (tx : Transaction env) (m : Mempool env)
        → tx.bytes < u32
        → Reached m
        → Reached (insert env tx m).0
    removes :
        (tx : Transaction env) (m : Mempool env)
        → (lookup tx.id m.txs ≡ none) ⊎ (lookup tx.id m.txs ≡ some tx)
        → Reached m
        → Reached (remove env tx m)
    rescans :
        (verifies : Transaction env → Bool) (m : Mempool env)
        → Reached m
        → Reached (rescan_mempool env verifies m)

  Reached-IsConsistent : {m : Mempool env} → Reached m → IsConsistent env m
  Reached-IsConsistent starts = empty_mempool-IsConsistent env
  Reached-IsConsistent (inserts tx m small before) =
      insert-IsConsistent env tx m (Reached-IsConsistent before) small
  Reached-IsConsistent (removes tx m itself before) =
      remove-IsConsistent env tx m (Reached-IsConsistent before) itself
  Reached-IsConsistent (rescans verifies m before) =
      (rescan_mempool_lem env verifies m (Reached-IsConsistent before)).0

  -- However `insert`, `remove` and `rescanMempool` follow each other on a mempool that starts empty, as
  -- long as the sizes of the inserted transactions are below 2^32 and each removed transaction is the
  -- one that stands under its identifier, if one does: two transactions that stand in the mempool under
  -- different identifiers have no input in common and touch no output in common, so none is spent
  -- twice.
  pub no_double_spend :
      {m : Mempool env}
      → Reached m
      → (a b x : ℕ) {ta tb : Transaction env} → a ≢ b
      → lookup a m.txs ≡ some ta
      → lookup b m.txs ≡ some tb
      → (elem x (input_ids env ta) ≡ true → elem x (input_ids env tb) ≡ false)
        × (elem x (output_ids env ta) ≡ true → elem x (output_ids env tb) ≡ false)
  no_double_spend reached a b x other first second =
      let h = Reached-IsConsistent reached in
      (
        λ touches. ground (arith, h.indexed_inputs x a, h.indexed_inputs x b),
        λ touches. ground (arith, h.indexed_outputs x a, h.indexed_outputs x b),
      )
