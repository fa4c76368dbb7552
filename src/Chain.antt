-- ===== src/Chain.antt =====
-- src/kernel/blockchain.cpp: the chain's tables, what it asks of the consensus method and of contract
-- scripts, and how stored data is looked up. A table is a map from identifiers to what the stored JSON
-- reads back as; `tip` is the entry "tip" of the blocks, which is no identifier. The index 0 of a table
-- is a map of its own: heights of blocks, and public keys joined with output identifiers.
pub mod Spend
mod Tests
pub mod Aggregate
pub mod Verify
pub mod Confirm
pub mod Build
pub mod Reorganise
pub mod Generate
pub mod Submit
use crypto_kernel.Prelude.{
  ◌≡◌, arith, ℕ, ◌+◌, ◌-◌, ◌*◌, ◌%◌, Bool, true, false, Option, none, some, List, [], ◌∷◌, ◌++◌,
  map, length, if◌then◌else◌,
}
use crypto_kernel.BigNum.{Text}
use crypto_kernel.BigNum
use crypto_kernel.Env.{Env}
use crypto_kernel.Json.{to_string as json_to_string}
use crypto_kernel.KeyMap.{KeyMap}
use crypto_kernel.Mempool.{Mempool}
use crypto_kernel.OrderedMap.{Map, lookup}
use crypto_kernel.Outcome.{Outcome, ok, invalid, not_found, ◌>>=◌, ◌>>◌, value_below_one}
use crypto_kernel.Types.{Input, Output}
use crypto_kernel.Types.Block.{Block}
use crypto_kernel.Types.Stored.{DbOutput, DbTransaction, DbBlock, new_db_block_at_own_height}
use crypto_kernel.Types.Transaction.{Transaction, u64}

module _ (env : Env) where
  open env use {hashing, json}
  open env.json use {Json}

  pub record Tables : Type 0 where
    pub blocks : Map (DbBlock env)
    pub tip : Option (DbBlock env)
    pub heights : Map ℕ
    pub transactions : Map (DbTransaction env)
    pub utxos : Map (DbOutput env)
    pub utxo_keys : KeyMap (Unit {0})
    pub stxos : Map (DbOutput env)
    pub stxo_keys : KeyMap (Unit {0})
    pub inputs : Map (Input env)
    pub candidates : Map (Block env)

  -- `Blockchain`, with the state of its open database transaction
  pub record Chain : Type 0 where
    pub tables : Tables
    pub unconfirmed : Mempool env
    pub genesis_block_id : ℕ

  -- The virtual functions of `Consensus` and of `Blockchain`, which read the tables, and the
  -- interpreter of `ContractRunner::evaluateScriptValid`. `checkConsensusRules` may change the block
  -- that it accepts; `none` is its false. It and `isBlockBetter` may throw. A script that ends in an error throws, which is `none` too.
  pub record Rules : Type 0 where
    pub check_consensus_rules : Tables → Block env → DbBlock env → Outcome (Option (Block env))
    pub is_block_better : Tables → Block env → DbBlock env → Outcome Bool
    pub submits_block : Tables → Block env → Bool
    pub verifies_transaction : Tables → Transaction env → Bool
    pub submits_transaction : Tables → Transaction env → Bool
    pub evaluate_script : Tables → Transaction env → Input env → Text → Option Bool
    pub block_reward : ℕ → ℕ

  -- `dbOutput(table->get(…))`: a null value has the value 0, which `checkRep` refuses.
  pub get_output_or_throw : ℕ → Map (DbOutput env) → Outcome (DbOutput env)
  get_output_or_throw id table = elim (lookup id table) [
    | none ↦ invalid value_below_one
    | some out ↦ ok out
  ]

  -- `getOutputDB`
  unfoldable pub get_output_db : Tables → ℕ → Outcome (DbOutput env)
  get_output_db t id = elim (lookup id t.utxos) [
    | some out ↦ ok out
    | none ↦ elim (lookup id t.stxos) [ none ↦ not_found | some out ↦ ok out ]
  ]

  -- `getBlockDB`, by an identifier
  unfoldable pub get_block_db : Tables → ℕ → Bool → Outcome (DbBlock env)
  get_block_db t id main_chain = elim (lookup id t.blocks) [
    | some block ↦ ok block
    | none ↦ elim (lookup id t.candidates) [
      | none ↦ not_found
      | some block ↦ if main_chain then not_found else new_db_block_at_own_height env block
    ]
  ]

  -- A block of the main chain is found first.
  pub get_block_db-stored :
      (t : Tables) (id : ℕ) (main_chain : Bool) (block : DbBlock env)
      → lookup id t.blocks ≡ some block
      → get_block_db t id main_chain ≡ ok block
  unfolding get_block_db
  get_block_db-stored t id main_chain block stored = ground (arith, stored)

  -- `getBlockDB(transaction, "tip")`
  unfoldable pub get_tip : Tables → Outcome (DbBlock env)
  get_tip t = elim t.tip [ none ↦ not_found | some block ↦ ok block ]

  -- `getTransactionFee`; the sizes of the data, in a `uint64_t`
  data_fee : Json → ℕ
  data_fee content = length (json_to_string json content false) * 100

  pub inputs_fee : ℕ → List (Input env) → ℕ
  unfolding data_fee
  inputs_fee fee [] = fee
  inputs_fee fee (inp ∷ inps) = inputs_fee ((fee + data_fee inp.content) % u64) inps

  pub outputs_fee : ℕ → List (Output env) → ℕ
  unfolding data_fee
  outputs_fee fee [] = fee
  outputs_fee fee (out ∷ outs) = outputs_fee ((fee + data_fee out.content) % u64) outs

  pub get_transaction_fee : Transaction env → ℕ
  unfolding inputs_fee outputs_fee
  get_transaction_fee tx = outputs_fee (inputs_fee 0 tx.inputs) tx.outputs

  -- The sum of outputs' values in a `uint64_t`
  unfoldable pub output_total : ℕ → List (Output env) → ℕ
  output_total total [] = total
  output_total total (out ∷ outs) = output_total ((total + out.value) % u64) outs

  -- The sum of the values that the inputs spend, in a `uint64_t`
  pub input_total : Tables → ℕ → List (Input env) → Outcome ℕ
  unfolding get_output_or_throw
  input_total t total [] = ok total
  input_total t total (inp ∷ inps) = get_output_or_throw inp.output_id t.utxos >>= λ out.
      input_total t ((total + out.output.value) % u64) inps

  -- `calculateTransactionFee`
  pub calculate_transaction_fee : Tables → Transaction env → Outcome ℕ
  unfolding output_total input_total
  calculate_transaction_fee t tx =
      input_total t 0 tx.inputs >>= λ total. ok ((total + u64 - output_total 0 tx.outputs) % u64)
