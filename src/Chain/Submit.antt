-- ===== src/Chain/Submit.antt =====
-- src/kernel/blockchain.cpp: `submitTransaction`, and the part of `submitBlock` that puts a block on
-- top of the chain. The threads that verify a block's transactions all read the same tables, so they
-- are a loop here.
pub mod Value
pub mod Pool
pub mod Tip
mod Tests
use crypto_kernel.Prelude.{
  ℕ, ◌+◌, ◌%◌, ◌≡◌, Bool, true, false, not, ◌&&◌, Option, none, some, List, [], ◌∷◌, ltb,
  if◌then◌else◌,
}
use crypto_kernel.Env.{Env}
use crypto_kernel.Mempool
use crypto_kernel.OrderedMap
use crypto_kernel.OrderedMap.{Map}
use crypto_kernel.Outcome.{Outcome, ok, ◌>>=◌}
use crypto_kernel.Types.Block.{Block}
use crypto_kernel.Types.Stored.{DbBlock, new_db_block}
use crypto_kernel.Types.Transaction.{Transaction, u64}
use crypto_kernel.Chain.{Tables, Chain, Rules, calculate_transaction_fee, output_total}
use crypto_kernel.Chain.Verify.{Verdict, verify_transaction}
use crypto_kernel.Chain.Confirm.{confirm_transaction}

-- What a call that returned a verdict says; a call that threw says nothing.
abbrev pub accepted : Outcome Verdict → Bool
accepted (ok verdict) = verdict.0
accepted _ = false

module _ (env : Env) (rules : Rules env) where
  -- `submitTransaction`
  pub submit_transaction : Transaction env → Chain env → Outcome (Chain env × Verdict)
  submit_transaction tx chain = verify_transaction env rules chain.tables tx false >>= λ verdict.
      if not verdict.0
      then ok (chain, verdict)
      else if not (rules.submits_transaction chain.tables tx)
      then ok (chain, (false, true))
      else (let inserted = Mempool.insert env tx chain.unconfirmed in
          ok (record chain { unconfirmed = inserted.0 }, (inserted.1, false)))

  -- Whether all of the block's transactions verify
  pub all_verified : Tables env → List (Transaction env) → Outcome Bool
  all_verified t [] = ok true
  all_verified t (tx ∷ txs) = verify_transaction env rules t tx false >>= λ verdict.
      all_verified t txs >>= λ rest. ok (verdict.0 && rest)

  -- `fees`, a `uint64_t`
  unfoldable pub total_fees : Tables env → ℕ → List (Transaction env) → Outcome ℕ
  total_fees t fees [] = ok fees
  total_fees t fees (tx ∷ txs) =
      calculate_transaction_fee env t tx >>= λ fee. total_fees t ((fees + fee) % u64) txs

  pub confirm_all : List (Transaction env) → ℕ → Chain env → Outcome (Chain env)
  confirm_all [] block chain = ok chain
  confirm_all (tx ∷ txs) block chain =
      confirm_transaction env tx block false chain >>= confirm_all txs block

  -- Whether one of the calls of `verifyTransaction` in a rescan throws.
  rescan_returns : Tables env → Map (Transaction env) → Outcome (Unit {0})
  rescan_returns t [] = ok tt
  rescan_returns t (e ∷ txs) =
      verify_transaction env rules t e.1 false >>= λ verdict. rescan_returns t txs

  -- `rescanMempool(dbTx, this)`
  pub rescan : Chain env → Outcome (Chain env)
  unfolding rescan_returns
  rescan chain = rescan_returns chain.tables chain.unconfirmed.txs >>= λ done. ok (record chain {
    unconfirmed =
        Mempool.rescan_mempool env
          (λ tx. accepted (verify_transaction env rules chain.tables tx false)) chain.unconfirmed;
  })

  -- The block becomes the tip.
  pub store_tip : Block env → DbBlock env → ℕ → Tables env → Tables env
  store_tip block stored height t = record t {
    candidates = OrderedMap.erase block.id t.candidates;
    tip = some stored;
    heights = OrderedMap.assign height block.id t.heights;
    blocks = OrderedMap.assign block.id stored t.blocks;
  }

  -- The transactions are confirmed, the coinbase first, and the block is stored.
  pub confirm_block : Block env → ℕ → Chain env → Outcome (Chain env)
  unfolding confirm_all store_tip rescan
  confirm_block block height chain =
      confirm_transaction env block.fields.coinbase_tx block.id true chain >>= λ c1.
      confirm_all block.fields.transactions block.id c1 >>= λ c2.
      new_db_block env block height >>= λ stored.
      rescan (record c2 { tables = store_tip block stored height c2.tables })

  -- The checks of the fees and the coinbase
  unfoldable pub check_coinbase : Block env → ℕ → Tables env → Outcome Bool
  unfolding total_fees
  check_coinbase block height t = total_fees t 0 block.fields.transactions >>= λ fees.
      verify_transaction env rules t block.fields.coinbase_tx true >>= λ verdict. ok (
        verdict.0
        && not (
            ltb ((fees + rules.block_reward height) % u64)
              (output_total env 0 block.fields.coinbase_tx.outputs)))

  -- What `submitBlock` does if not `onlySave`, for a block that is to stand at `height`
  unfoldable pub extend_chain : Block env → ℕ → Chain env → Outcome (Chain env × Verdict)
  unfolding all_verified check_coinbase confirm_block
  extend_chain block height chain =
      all_verified chain.tables block.fields.transactions >>= λ verified.
      if not verified
      then ok (chain, (false, true))
      else (check_coinbase block height chain.tables >>= λ fair.
          if not fair
          then ok (chain, (false, true))
          else if not (rules.submits_block chain.tables block)
          then ok (chain, (false, true))
          else (confirm_block block height chain >>= λ chain'. ok (chain', (true, false))))
