-- ===== src/Mempool.antt =====
-- `Blockchain::Mempool` of src/kernel/blockchain.cpp: the unconfirmed transactions, with the inputs
-- and outputs that they touch.
pub mod Index
pub mod Consistent
pub mod Rescan
pub mod Select
pub mod RoundTrip
pub mod Reachable
mod Tests
use crypto_kernel.Prelude.{
  ℕ, ◌+◌, ◌-◌, ◌*◌, ◌%◌, Bool, true, false, not, ◌||◌, List, [], ◌∷◌, length, ltb, if◌then◌else◌,
}
use crypto_kernel.OrderedMap.{Map, contains}
use crypto_kernel.OrderedMap
use crypto_kernel.Env.{Env}
use crypto_kernel.Types.{Input, Output}
use crypto_kernel.Types.Transaction.{Transaction, u32, u64}

module _ (env : Env) where
  pub record Mempool : Type 0 where
    pub txs : Map (Transaction env)
    pub outputs : Map ℕ
    pub inputs : Map ℕ
    pub bytes : ℕ

  -- `Mempool()`
  abbrev pub empty_mempool : Mempool
  empty_mempool = record { txs = []; outputs = []; inputs = []; bytes = 0 }

  -- The first loop of `insert`: whether it returns false for one of the inputs.
  pub inputs_conflict : List (Input env) → Mempool → Bool
  inputs_conflict [] m = false
  inputs_conflict (inp ∷ inps) m =
      contains inp.id m.inputs || contains inp.output_id m.outputs || inputs_conflict inps m

  -- The second loop of `insert`.
  pub outputs_conflict : List (Output env) → Mempool → Bool
  outputs_conflict [] m = false
  outputs_conflict (out ∷ outs) m = contains out.id m.outputs || outputs_conflict outs m

  pub index_inputs : List (Input env) → ℕ → Mempool → Mempool
  index_inputs [] txid m = m
  index_inputs (inp ∷ inps) txid m = index_inputs inps txid (record m {
    inputs = OrderedMap.insert inp.id txid m.inputs;
    outputs = OrderedMap.insert inp.output_id txid m.outputs;
  })

  pub index_outputs : List (Output env) → ℕ → Mempool → Mempool
  index_outputs [] txid m = m
  index_outputs (out ∷ outs) txid m =
      index_outputs outs txid (record m { outputs = OrderedMap.insert out.id txid m.outputs })

  -- `insert`, with its result; the sum in `bytes` is an `unsigned int`.
  unfoldable pub insert : Transaction env → Mempool → Mempool × Bool
  unfolding inputs_conflict outputs_conflict index_inputs index_outputs
  insert tx m =
      if contains tx.id m.txs || inputs_conflict tx.inputs m || outputs_conflict tx.outputs m
      then (m, false)
      else (
        index_outputs tx.outputs tx.id (
            index_inputs tx.inputs tx.id (record m {
              txs = OrderedMap.insert tx.id tx m.txs;
              bytes = (m.bytes + tx.bytes) % u32;
            })),
        true,
      )

  pub drop_inputs : List (Input env) → Mempool → Mempool
  drop_inputs [] m = m
  drop_inputs (inp ∷ inps) m = drop_inputs inps (record m {
    inputs = OrderedMap.erase inp.id m.inputs;
    outputs = OrderedMap.erase inp.output_id m.outputs;
  })

  pub drop_outputs : List (Output env) → Mempool → Mempool
  drop_outputs [] m = m
  drop_outputs (out ∷ outs) m =
      drop_outputs outs (record m { outputs = OrderedMap.erase out.id m.outputs })

  unfoldable pub remove : Transaction env → Mempool → Mempool
  unfolding drop_inputs drop_outputs
  remove tx m =
      if contains tx.id m.txs
      then drop_outputs tx.outputs (
          drop_inputs tx.inputs (record m {
            txs = OrderedMap.erase tx.id m.txs;
            bytes = (m.bytes + u32 - tx.bytes) % u32;
          }))
      else m

  -- The transactions of the map that fail, in its order.
  pub failing : (Transaction env → Bool) → Map (Transaction env) → List (Transaction env)
  failing verifies [] = []
  failing verifies (e ∷ txs) =
      let rest = failing verifies txs in if not (verifies e.1) then e.1 ∷ rest else rest

  pub remove_all : List (Transaction env) → Mempool → Mempool
  unfolding remove
  remove_all [] m = m
  remove_all (tx ∷ txs) m = remove_all txs (remove tx m)

  -- `rescanMempool`, given what `verifyTransaction` returns for each transaction
  pub rescan_mempool : (Transaction env → Bool) → Mempool → Mempool
  unfolding failing remove_all
  rescan_mempool verifies m = remove_all (failing verifies m.txs) m

  -- The loop of `getTransactions`; `totalSize + size < 3.9 * 1024 * 1024`, times ten.
  pub select : ℕ → Map (Transaction env) → List (Transaction env)
  select total_size [] = []
  select total_size (e ∷ txs) =
      let next = (total_size + e.1.bytes) % u64 in
      let rest = select next txs in if ltb (next * 10) (39 * 1024 * 1024) then e.1 ∷ rest else []

  -- `getTransactions`
  unfoldable pub get_transactions : Mempool → List (Transaction env)
  unfolding select
  get_transactions m = select 0 m.txs

  -- `count`
  pub count : Mempool → ℕ
  count m = length m.txs

  -- `size`
  pub size : Mempool → ℕ
  size m = m.bytes
