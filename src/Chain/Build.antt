-- ===== src/Chain/Build.antt =====
-- How src/kernel/blockchain.cpp puts stored transactions and blocks together again: `getTransaction`,
-- `buildBlock`, `getBlock` and `getBlockByHeight`.
pub mod Content
pub mod Ends
mod Tests
use crypto_kernel.Prelude.{ℕ, ◌≡◌, Bool, true, false, Option, none, some, List, [], ◌∷◌}
use crypto_kernel.Env.{Env}
use crypto_kernel.OrderedMap.{Map, lookup}
use crypto_kernel.Outcome.{Outcome, ok, invalid, not_found, uncaught, undefined, out_of_fuel, ◌>>=◌}
use crypto_kernel.Types.{Input, Output, new_input}
use crypto_kernel.Types.Block.{Block, new_block}
use crypto_kernel.Types.Stored.{DbOutput, DbTransaction, DbBlock}
use crypto_kernel.Types.Transaction.{Transaction, new_transaction}
use crypto_kernel.Chain.{Tables, get_output_db, get_block_db, get_tip}

module _ (env : Env) where
  open env use {hashing}
  open env.json use {null}

  unfoldable pub get_outputs : Tables env → List ℕ → Outcome (List (Output env))
  get_outputs t [] = ok []
  get_outputs t (id ∷ ids) =
      get_output_db env t id >>= λ out. get_outputs t ids >>= λ outs. ok (out.output ∷ outs)

  -- `input(inputs->get(…))`: of a null value the identifier is that of an empty text.
  unfoldable pub get_inputs : Tables env → List ℕ → List (Input env)
  get_inputs t [] = []
  get_inputs t (id ∷ ids) =
      (elim (lookup id t.inputs) [
        | some inp ↦ inp
        | none ↦ new_input env (hashing.from_hex []) null
      ])
      ∷ get_inputs t ids

  -- `getTransaction`
  unfoldable pub get_transaction : Tables env → ℕ → Outcome (Transaction env)
  unfolding get_outputs get_inputs
  get_transaction t id = elim (lookup id t.transactions) [
    | none ↦ not_found
    | some tx ↦ get_outputs t tx.outputs >>= λ outputs.
        new_transaction env (get_inputs t tx.inputs) outputs tx.timestamp tx.coinbase
  ]

  unfoldable pub get_transactions_of : Tables env → List ℕ → Outcome (List (Transaction env))
  unfolding get_transaction
  get_transactions_of t [] = ok []
  get_transactions_of t (id ∷ ids) =
      get_transaction t id >>= λ tx. get_transactions_of t ids >>= λ txs. ok (tx ∷ txs)

  -- The `try` of `buildBlock`; the `data` of the new block is the default, null.
  unfoldable pub rebuild : Tables env → DbBlock env → Outcome (Block env)
  unfolding get_transactions_of get_transaction
  rebuild t b = get_transactions_of t b.transactions >>= λ txs.
      get_transaction t b.coinbase_tx >>= λ coinbase.
      new_block env txs coinbase b.previous_block_id b.timestamp b.consensus_data b.height null

  -- `buildBlock`; a candidate stands in for a block whose transactions are not stored.
  unfoldable pub build_block : Tables env → DbBlock env → Outcome (Block env)
  unfolding rebuild
  build_block t b = elim (rebuild t b) [
    | not_found ↦ elim (lookup b.id t.candidates) [ none ↦ not_found | some block ↦ ok block ]
    | ok block ↦ ok block
    | invalid message ↦ invalid message
    | uncaught ↦ uncaught
    | undefined ↦ undefined
    | out_of_fuel ↦ out_of_fuel
  ]

  -- `getBlock`, by an identifier
  unfoldable pub get_block : Tables env → ℕ → Outcome (Block env)
  unfolding build_block
  get_block t id = get_block_db env t id false >>= build_block t

  -- `getBlock(transaction, "tip")`
  pub get_tip_block : Tables env → Outcome (Block env)
  unfolding build_block
  get_tip_block t = get_tip env t >>= build_block t

  -- `getBlockByHeight`: without an entry the identifier is an empty text, under which nothing stands.
  unfoldable pub get_block_by_height : Tables env → ℕ → Outcome (Block env)
  unfolding get_block
  get_block_by_height t height = elim (lookup height t.heights) [
    | none ↦ not_found
    | some id ↦ get_block t id
  ]
