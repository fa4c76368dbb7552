-- ===== src/Wallet/Sync.antt =====
-- src/client/wallet.cpp: how blocks are digested and taken back, and how `watchFunc` follows the chain.
pub mod Returns
pub mod Follows
pub mod Forks
pub mod Ends
pub mod Terminates
pub mod Resolved
mod Tests
use crypto_kernel.Prelude.{
  ℕ, zero, suc, ◌+◌, Bool, true, false, not, Option, none, some, List, [], ◌∷◌, if◌then◌else◌, ltb,
  ◌==◌,
}
use crypto_kernel.Chain.{Tables, get_block_db, get_tip}
use crypto_kernel.Chain.Build.{get_block, get_block_by_height}
use crypto_kernel.Env.{Env}
use crypto_kernel.KeyMap.{KeyMap}
use crypto_kernel.OrderedMap.{lookup}
use crypto_kernel.Outcome.{Outcome, ok, invalid, not_found, uncaught, undefined, out_of_fuel, ◌>>=◌}
use crypto_kernel.Types.Block.{Block}
use crypto_kernel.Types.Stored.{DbBlock}
use crypto_kernel.Types.Transaction.{Transaction}
use crypto_kernel.Wallet.{Cipher, Account, Wallet, digest_tx, rewind_tx}

module _ (env : Env) where
  -- `txs.insert(tx)`, in the order of the identifiers
  pub insert_transaction : Transaction env → List (Transaction env) → List (Transaction env)
  insert_transaction tx [] = tx ∷ []
  insert_transaction tx (u ∷ txs) =
      if ltb tx.id u.id
      then tx ∷ u ∷ txs
      else if tx.id == u.id
      then u ∷ txs
      else u ∷ insert_transaction tx txs

  -- The transactions of a block with its coinbase transaction
  pub block_transactions : Block env → List (Transaction env)
  unfolding insert_transaction
  block_transactions block = insert_transaction block.fields.coinbase_tx block.fields.transactions

  module _ (cipher : Cipher) where
    unfoldable pub clear_accounts : KeyMap (Account env cipher) → KeyMap (Account env cipher)
    clear_accounts [] = []
    clear_accounts ((name, account) ∷ accounts) =
        (name, record account { balance = 0 }) ∷ clear_accounts accounts

    -- `clearDB`, of the wallet as it was committed
    unfoldable pub clear_db : Wallet env cipher → Wallet env cipher
    unfolding clear_accounts
    clear_db w = record w {
      accounts = clear_accounts w.accounts;
      utxos = [];
      transactions = [];
      height = 0;
      tip_id = none;
    }

  module _ (cipher : Cipher) (t : Tables env) where
    pub digest_transactions :
        Bool → List (Transaction env) → Wallet env cipher → Outcome (Wallet env cipher)
    digest_transactions unconfirmed [] w = ok w
    digest_transactions unconfirmed (tx ∷ txs) w =
        digest_tx env cipher t unconfirmed tx w >>= digest_transactions unconfirmed txs

    -- `digestBlock`
    pub digest_block : Block env → Wallet env cipher → Outcome (Wallet env cipher)
    digest_block block w = digest_transactions false (block_transactions block) w >>= λ w'.
        ok (record w' { height = block.fields.height; tip_id = some block.id })

    pub rewind_transactions :
        List (Transaction env) → Wallet env cipher → Outcome (Wallet env cipher)
    rewind_transactions [] w = ok w
    rewind_transactions (tx ∷ txs) w = rewind_tx env cipher t tx w >>= rewind_transactions txs

    -- `getBlockDB(bchainTx, tipId)` and `buildBlock`; under an empty text nothing stands.
    pub tip_block : Wallet env cipher → Outcome (Block env)
    tip_block w = elim w.tip_id [ none ↦ not_found | some id ↦ get_block env t id ]

    -- `rewindBlock`
    pub rewind_block : Wallet env cipher → Outcome (Wallet env cipher)
    unfolding rewind_transactions tip_block block_transactions
    rewind_block w = tip_block w >>= λ old_tip.
        rewind_transactions (block_transactions old_tip) w >>= λ w'.
        get_block_db env t old_tip.fields.previous_block_id false >>= λ new_tip.
        ok (record w' { height = new_tip.height; tip_id = some new_tip.id })

    -- Whether another block than the wallet's tip stands at its height on the chain, or none
    pub is_forked : Wallet env cipher → Outcome Bool
    is_forked w = elim (lookup w.height t.heights) [
      | none ↦ ok true
      | some id ↦ elim (get_block_db env t id false) [
        | ok block ↦ ok (not (elim w.tip_id [ none ↦ false | some tip ↦ block.id == tip ]))
        | not_found ↦ ok true
        | invalid message ↦ invalid message
        | uncaught ↦ uncaught
        | undefined ↦ undefined
        | out_of_fuel ↦ out_of_fuel
      ]
    ]

    -- The `do` loop of `watchFunc`, from the wallet as it was committed
    pub rewind_forks : ℕ → Wallet env cipher → Wallet env cipher → Outcome (Wallet env cipher)
    unfolding is_forked rewind_block clear_db
    rewind_forks zero committed w = out_of_fuel
    rewind_forks (suc fuel) committed w =
        if w.height == 0
        then ok w
        else (is_forked w >>= λ forked. elim forked [
          | false ↦ ok w
          | true ↦ elim (rewind_block w) [
            | ok w' ↦ rewind_forks fuel committed w'
            | not_found ↦ rewind_forks fuel (clear_db cipher committed) (clear_db cipher committed)
            | invalid message ↦ invalid message
            | uncaught ↦ uncaught
            | undefined ↦ undefined
            | out_of_fuel ↦ out_of_fuel
          ]
        ])

    -- The `while` loop of `watchFunc`, up to the height of the chain's tip
    pub follow : ℕ → ℕ → Wallet env cipher → Outcome (Wallet env cipher)
    follow zero height w = if ltb w.height height then out_of_fuel else ok w
    follow (suc fuel) height w = elim (ltb w.height height) [
      | false ↦ ok w
      | true ↦ get_block_by_height env t (w.height + 1) >>= λ block.
          digest_block block w >>= follow fuel height
    ]

    -- A round of `watchFunc` that is committed; the unconfirmed transactions are those of the mempool.
    watch : ℕ → List (Transaction env) → Wallet env cipher → Outcome (Wallet env cipher)
    unfolding rewind_forks follow digest_transactions
    watch fuel unconfirmed committed = rewind_forks fuel committed committed >>= λ w.
        get_tip env t >>= λ tip.
        follow tip.height tip.height w >>= digest_transactions true unconfirmed
