-- ===== src/Mempool/RoundTrip.antt =====
-- `insert` and `remove` of src/kernel/blockchain.cpp's mempool undo one another.
use crypto_kernel.Prelude.{ℕ, ◌<◌, ◌≡◌, subst, some, none, true, false, arith}
use crypto_kernel.OrderedMap.{lookup}
use crypto_kernel.OrderedMap.Laws.{lookup-insert, lookup-erase, lookup-eq-some}
use crypto_kernel.Env.{Env}
use crypto_kernel.Types.Transaction.{Transaction, u32}
use crypto_kernel.Mempool.{Mempool, insert, remove}
use crypto_kernel.Mempool.Index.{
  any_in, input_ids, output_ids, lookup-insert_all, lookup-erase_all, lookup-any_in,
}
use crypto_kernel.Mempool.Consistent.{
  IsConsistent, inserted, removed, insert_lem, insert-IsConsistent, remove_lem,
}

module _ (env : Env) (tx : Transaction env) (m : Mempool env) (h : IsConsistent env m) where
  taken_in :
      (insert env tx m).1 ≡ true
      → ((insert env tx m).0 ≡ inserted env tx m h)
        × (lookup tx.id m.txs ≡ none)
        × (any_in (input_ids env tx) m.inputs ≡ false)
        × (any_in (output_ids env tx) m.outputs ≡ false)
  taken_in e = ground (arith, insert_lem env tx m h)

  there : lookup tx.id m.txs ≡ none → lookup tx.id (inserted env tx m h).txs ≡ some tx
  unfolding inserted
  there new = ground (arith, lookup-insert tx.id tx.id tx m.txs h.sorted_txs)

  -- In a consistent mempool, a transaction that `insert` took and `remove` takes out again leaves
  -- the mempool as it was: every lookup in its three maps, and its size. It is assumed that the
  -- transaction's size is an `unsigned int`.
  pub remove-insert :
      tx.bytes < u32
      → (insert env tx m).1 ≡ true
      → let m' = remove env tx (insert env tx m).0 in
        ((k : ℕ) → lookup k m'.txs ≡ lookup k m.txs)
        × ((k : ℕ) → lookup k m'.inputs ≡ lookup k m.inputs)
        × ((k : ℕ) → lookup k m'.outputs ≡ lookup k m.outputs)
        × (m'.bytes ≡ m.bytes)
  unfolding inserted removed
  remove-insert small took =
      let (same, new, free_inputs, free_outputs) = taken_in took in
      let valid = subst (IsConsistent env) same (insert-IsConsistent env tx m h small) in
      let gone : remove env tx (inserted env tx m h) ≡ removed env tx (inserted env tx m h) valid =
        rw (
          remove_lem env tx (inserted env tx m h) valid,
          lookup-eq-some tx.id (inserted env tx m h).txs (there new),
        ) in
      rw (same, gone)
        (
          (λ k. ground (
            arith,
            lookup-erase k tx.id (inserted env tx m h).txs valid.sorted_txs,
            lookup-insert k tx.id tx m.txs h.sorted_txs,
          )),
          (λ k. ground (
            arith,
            lookup-erase_all k (input_ids env tx) (inserted env tx m h).inputs valid.sorted_inputs,
            lookup-insert_all k (input_ids env tx) tx.id m.inputs h.sorted_inputs,
            lookup-any_in k (input_ids env tx) m.inputs free_inputs,
          )),
          (λ k. ground (
            arith,
            lookup-erase_all k (output_ids env tx) (inserted env tx m h).outputs
                valid.sorted_outputs,
            lookup-insert_all k (output_ids env tx) tx.id m.outputs h.sorted_outputs,
            lookup-any_in k (output_ids env tx) m.outputs free_outputs,
          )),
          omega (arith, h.counted),
        )
