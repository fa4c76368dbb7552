-- ===== src/Chain/Build/Content.antt =====
-- What `buildBlock` of src/kernel/blockchain.cpp makes of the field `data`.
use crypto_kernel.Prelude.{ℕ, ◌≡◌, none, List, arith}
use crypto_kernel.Env.{Env}
use crypto_kernel.OrderedMap.{lookup}
use crypto_kernel.Outcome.{ok, returned}
use crypto_kernel.Types.Block.{Block, new_block, calculate_block_id}
use crypto_kernel.Types.Stored.{DbBlock}
use crypto_kernel.Types.Transaction.{Transaction}
use crypto_kernel.Chain.{Tables}
use crypto_kernel.Chain.Build.{rebuild, build_block, get_transaction, get_transactions_of}

module _ (env : Env) where
  open env.json use {Json, null}

  new_block-content :
      (txs : List (Transaction env)) (coinbase : Transaction env) (previous timestamp : ℕ)
      (consensus : Json) (height : ℕ) (content : Json) (block : Block env)
      → new_block env txs coinbase previous timestamp consensus height content ≡ ok block
      → (block.fields.content ≡ content) × (block.id ≡ calculate_block_id env block.fields)
  unfolding new_block
  new_block-content txs coinbase previous timestamp consensus height content block e = ground arith

  rebuild-content :
      (t : Tables env) (b : DbBlock env) (block : Block env)
      → rebuild env t b ≡ ok block
      → (block.fields.content ≡ null) × (block.id ≡ calculate_block_id env block.fields)
  unfolding rebuild
  rebuild-content t b block e =
      let (txs, rest, _) =
        returned {result = block} (get_transactions_of env t b.transactions) _ e in
      let (coinbase, last, _) =
        returned {result = block} (get_transaction env t b.coinbase_tx) _ rest in
      new_block-content txs coinbase b.previous_block_id b.timestamp b.consensus_data b.height null
        block last

  -- A block that `buildBlock` puts together from the tables, no candidate standing in for it, has a
  -- null `data` and the identifier of a block with a null `data`, whatever the stored block's `data` is.
  pub build_block-drops_content :
      (t : Tables env) (b : DbBlock env) {block : Block env}
      → lookup b.id t.candidates ≡ none
      → build_block env t b ≡ ok block
      → (block.fields.content ≡ null) × (block.id ≡ calculate_block_id env block.fields)
  unfolding build_block
  build_block-drops_content t b {block} alone e = rebuild-content t b block (ground arith)
