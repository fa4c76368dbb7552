-- ===== src/Types/Stored.antt =====
-- What the database stores of a transaction and a block: `dbOutput`, `dbTransaction` and `dbBlock` of
-- src/kernel/blockchaintypes.cpp, whose members are identifiers.
use crypto_kernel.Prelude.{
  ℕ, ◌*◌, ◌≡◌, ◌∙◌, refl, Bool, false, not, ◌&&◌, List, [], ◌∷◌, ◌++◌, map, length, ltb, ◌==◌,
  if◌then◌else◌, length-map, arith,
}
use crypto_kernel.BigNum.{Text}
use crypto_kernel.BigNum
use crypto_kernel.Decimal.{to_decimal}
use crypto_kernel.Env.{Env}
use crypto_kernel.Json.{to_string as json_to_string}
use crypto_kernel.OrderedSet.{insert_ids, elements, elements-insert_ids_empty}
use crypto_kernel.Outcome.{
  Outcome, ok, ◌>>=◌, ◌>>◌, throw_if, transaction_without_outputs, coinbase_with_inputs,
  transaction_without_inputs, data_too_large, data_malformed, root_incorrect,
}
use crypto_kernel.Types.{Output, Input, hash_id}
use crypto_kernel.Types.Transaction.{
  Transaction, root_of_set, root_of_ids, calculate_transaction_id, inputs_buffer, get_output_set_id,
}
use crypto_kernel.Types.Block.{Block, block_buffer, calculate_block_id, root_of_transactions}

-- The identifiers that a loop inserts into a `std::set`, in order.
abbrev set_of : List ℕ → List ℕ
set_of ids = elements (insert_ids ids [])

module _ (env : Env) where
  open env use {hashing, json}
  open env.json use {Json, is_null, is_object}

  -- `dbOutput`: an output and the transaction that made it.
  pub record DbOutput : Type 0 where
    pub output : Output env
    pub creation_tx : ℕ

  pub record DbTransaction : Type 0 where
    pub confirming_block : ℕ
    pub coinbase : Bool
    pub inputs : List ℕ
    pub outputs : List ℕ
    pub timestamp : ℕ
    pub id : ℕ

  -- `dbTransaction::checkRep`
  pub check_db_transaction : List ℕ → List ℕ → Bool → Outcome (Unit {0})
  check_db_transaction inputs outputs coinbase = do
    throw_if (ltb (length outputs) 1) transaction_without_outputs
    throw_if (coinbase && ltb 0 (length inputs)) coinbase_with_inputs
    throw_if (not coinbase && ltb (length inputs) 1) transaction_without_inputs

  stored_inputs_buffer : List ℕ → Outcome Text
  stored_inputs_buffer inputs =
      if length inputs == 0
      then ok []
      else (root_of_set env inputs >>= λ root. ok (BigNum.to_string hashing root))

  -- `dbTransaction::calculateId`
  pub calculate_db_transaction_id : List ℕ → List ℕ → ℕ → Outcome ℕ
  unfolding stored_inputs_buffer
  calculate_db_transaction_id inputs outputs timestamp = do
    head ← stored_inputs_buffer inputs
    made ← root_of_set env outputs
    ok (hash_id env (head ++ (BigNum.to_string hashing made ++ to_decimal timestamp)))

  -- `dbTransaction(compactTransaction, confirmingBlock, coinbaseTx)`
  unfoldable pub new_db_transaction : Transaction env → ℕ → Bool → Outcome DbTransaction
  unfolding check_db_transaction calculate_db_transaction_id
  new_db_transaction tx block coinbase = do
    let inputs = set_of (map (λ i. i.id) tx.inputs)
    let outputs = set_of (map (λ o. o.id) tx.outputs)
    check_db_transaction inputs outputs coinbase
    id ← calculate_db_transaction_id inputs outputs tx.timestamp
    ok (record {
      confirming_block = block;
      coinbase = coinbase;
      inputs = inputs;
      outputs = outputs;
      timestamp = tx.timestamp;
      id = id;
    })

  pub record DbBlock : Type 0 where
    pub transactions : List ℕ
    pub coinbase_tx : ℕ
    pub previous_block_id : ℕ
    pub timestamp : ℕ
    pub consensus_data : Json
    pub content : Json
    pub height : ℕ
    pub transaction_merkle_root : ℕ
    pub id : ℕ

  check_stored_root : List ℕ → ℕ → Outcome (Unit {0})
  check_stored_root transactions root =
      if length transactions == 0
      then ok tt
      else (root_of_set env transactions >>= λ r. throw_if (not (r == root)) root_incorrect)

  -- `dbBlock::checkRep`
  unfoldable pub check_db_block : List ℕ → Json → ℕ → Outcome (Unit {0})
  unfolding check_stored_root
  check_db_block transactions content root = do
    check_stored_root transactions root
    throw_if (ltb (100 * 1024) (length (json_to_string json content false))) data_too_large
    throw_if (not (is_object content) && not (is_null content)) data_malformed

  -- `dbBlock::calculateId`
  pub calculate_db_block_id : List ℕ → ℕ → ℕ → ℕ → ℕ → Json → ℕ
  calculate_db_block_id transactions root coinbase previous timestamp content =
      hash_id env
        (block_buffer env (length transactions == 0) root coinbase previous timestamp content)

  -- The root that the constructors compute; `BigNum()`, which is 0, without transactions
  unfoldable pub stored_root : List ℕ → Outcome ℕ
  stored_root transactions = if length transactions == 0 then ok 0 else root_of_set env transactions

  -- `dbBlock(compactBlock, height)`
  unfoldable pub new_db_block : Block env → ℕ → Outcome DbBlock
  unfolding stored_root check_db_block calculate_db_block_id
  new_db_block block height = do
    let b = block.fields
    let transactions = set_of (map (λ t. t.id) b.transactions)
    root ← stored_root transactions
    check_db_block transactions b.content root
    ok (record {
      transactions = transactions;
      coinbase_tx = b.coinbase_tx.id;
      previous_block_id = b.previous_block_id;
      timestamp = b.timestamp;
      consensus_data = b.consensus_data;
      content = b.content;
      height = height;
      transaction_merkle_root = root;
      id =
          calculate_db_block_id transactions root b.coinbase_tx.id b.previous_block_id b.timestamp
            b.content;
    })

  -- The constructor for a block that has its height already: `dbBlock(compactBlock)`
  unfoldable pub new_db_block_at_own_height : Block env → Outcome DbBlock
  unfolding new_db_block
  new_db_block_at_own_height block = new_db_block block block.fields.height

  stored_inputs_buffer-eq :
      (inputs : List (Input env))
      → stored_inputs_buffer (set_of (map (λ i. i.id) inputs)) ≡ inputs_buffer env inputs
  unfolding stored_inputs_buffer inputs_buffer root_of_ids
  stored_inputs_buffer-eq [] = rw (elements-insert_ids_empty []) refl
  stored_inputs_buffer-eq (i ∷ inputs) =
      ground (arith, elements-insert_ids_empty (map (λ j. j.id) (i ∷ inputs)))

  calculate_db_transaction_id-eq :
      (inputs : List (Input env)) (outputs : List (Output env)) (timestamp : ℕ)
      → calculate_db_transaction_id
          (set_of (map (λ i. i.id) inputs))
          (set_of (map (λ o. o.id) outputs))
          timestamp
        ≡ calculate_transaction_id env inputs outputs timestamp
  unfolding calculate_db_transaction_id calculate_transaction_id get_output_set_id root_of_ids
  calculate_db_transaction_id-eq inputs outputs timestamp = rw (stored_inputs_buffer-eq inputs) refl

  -- A stored transaction has the identifier of the transaction, if that is the one that
  -- `transaction::calculateId` gives.
  pub new_db_transaction-id :
      (tx : Transaction env) (block : ℕ) (coinbase : Bool) {d : DbTransaction}
      → calculate_transaction_id env tx.inputs tx.outputs tx.timestamp ≡ ok tx.id
      → new_db_transaction tx block coinbase ≡ ok d
      → d.id ≡ tx.id
  unfolding new_db_transaction
  new_db_transaction-id tx block coinbase whole stored =
      let same = calculate_db_transaction_id-eq tx.inputs tx.outputs tx.timestamp ∙ whole in
      ground arith

  stored_root-eq :
      (txs : List (Transaction env))
      → stored_root (set_of (map (λ t. t.id) txs)) ≡ root_of_transactions env txs
  unfolding stored_root root_of_transactions root_of_ids
  stored_root-eq [] = rw (elements-insert_ids_empty []) refl
  stored_root-eq (tx ∷ txs) = ground (arith, elements-insert_ids_empty (map (λ t. t.id) (tx ∷ txs)))

  -- A stored block has the identifier of the block, if its root is the root of its transactions and
  -- its identifier the one that `block::calculateId` gives.
  pub new_db_block-id :
      (block : Block env) (height : ℕ) {d : DbBlock}
      → block.id ≡ calculate_block_id env block.fields
      → root_of_transactions env block.fields.transactions ≡ ok block.fields.transaction_merkle_root
      → new_db_block block height ≡ ok d
      → d.id ≡ block.id
  unfolding new_db_block calculate_db_block_id calculate_block_id
  new_db_block-id block height own root stored =
      let txs = block.fields.transactions in
      let same = stored_root-eq txs ∙ root in
      let empty = elements-insert_ids_empty (map (λ t. t.id) txs) in
      let len = length-map txs (λ t. t.id) in ground arith

  -- The members that a stored block takes over as they are
  pub new_db_block-fields :
      (block : Block env) (height : ℕ) {d : DbBlock}
      → new_db_block block height ≡ ok d
      → (d.consensus_data ≡ block.fields.consensus_data)
        × (d.previous_block_id ≡ block.fields.previous_block_id)
        × (d.height ≡ height)
  unfolding new_db_block
  new_db_block-fields block height stored = ground arith
