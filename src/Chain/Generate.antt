-- ===== src/Chain/Generate.antt =====
-- `generateVerifyingBlock` of src/kernel/blockchain.cpp. The nonce that it draws, the time, the owner of the
-- coinbase and the data of the consensus method are arguments.
pub mod Fair
mod Tests
use crypto_kernel.Prelude.{ℕ, ◌+◌, ◌%◌, Bool, true, false, List, [], ◌∷◌, if◌then◌else◌}
use crypto_kernel.BigNum.{Text}
use crypto_kernel.Chain.{Tables, Chain, Rules, get_tip, calculate_transaction_fee}
use crypto_kernel.Env.{Env}
use crypto_kernel.Mempool
use crypto_kernel.Outcome.{Outcome, ok, invalid, not_found, uncaught, undefined, out_of_fuel, ◌>>=◌}
use crypto_kernel.Types.{new_output, public_key_name}
use crypto_kernel.Types.Block.{Block, new_block}
use crypto_kernel.Types.Transaction.{Transaction, u64, new_transaction}

-- Where the new block is to stand
pub record Site : Type 0 where
  pub height : ℕ
  pub previous_block_id : ℕ
  pub genesis_block : Bool

-- What `generateVerifyingBlock` gets from elsewhere
pub record Supplies : Type 0 where
  pub now : ℕ
  -- `getCoinbaseOwner`
  pub owner : Text
  pub nonce : ℕ

module _ (env : Env) (rules : Rules env) where
  open env.json use {Json, null, set_member, of_text}

  -- The `try` around `getBlockDB`; `BigNum()` is 0.
  pub site : Tables env → Outcome Site
  site t = elim (get_tip env t) [
    | ok tip ↦ ok (record {
      height = (tip.height + 1) % u64;
      previous_block_id = tip.id;
      genesis_block = false;
    })
    | not_found ↦ ok (record { height = 1; previous_block_id = 0; genesis_block = true })
    | invalid message ↦ invalid message
    | uncaught ↦ uncaught
    | undefined ↦ undefined
    | out_of_fuel ↦ out_of_fuel
  ]

  -- The loop over the fees, from a value: whether the transactions stay in the block, and the value
  pub add_fees : Tables env → ℕ → List (Transaction env) → Outcome (Bool × ℕ)
  add_fees t value [] = ok (true, value)
  add_fees t value (tx ∷ txs) = elim (calculate_transaction_fee env t tx) [
    | ok fee ↦ add_fees t ((value + fee) % u64) txs
    | invalid message ↦ ok (false, value)
    | not_found ↦ not_found
    | uncaught ↦ uncaught
    | undefined ↦ undefined
    | out_of_fuel ↦ out_of_fuel
  ]

  -- The coinbase transaction and the block, with these transactions and this value
  pub assemble :
      (Tables env → ℕ → Outcome Json)
      → Supplies
      → Tables env
      → Site
      → List (Transaction env)
      → ℕ
      → Outcome (Block env)
  assemble consensus_data_for s t place txs value =
      new_output env value s.nonce (set_member null public_key_name (of_text s.owner)) >>= λ out.
      new_transaction env [] (out ∷ []) s.now true >>= λ coinbase.
      (if place.genesis_block then ok null else consensus_data_for t place.previous_block_id)
      >>= λ consensus.
          new_block env txs coinbase place.previous_block_id s.now consensus place.height null

  -- `generateVerifyingBlock`
  pub generate_verifying_block :
      (Tables env → ℕ → Outcome Json) → Supplies → Chain env → Outcome (Block env)
  unfolding site add_fees assemble
  generate_verifying_block consensus_data_for s chain =
      let txs = Mempool.get_transactions env chain.unconfirmed in
      site chain.tables >>= λ place.
      add_fees chain.tables (rules.block_reward place.height) txs >>= λ fees.
      assemble consensus_data_for s chain.tables place (if fees.0 then txs else []) fees.1
