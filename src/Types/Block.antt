-- ===== src/Types/Block.antt =====
-- `Blockchain::block` of src/kernel/blockchaintypes.cpp: its Merkle root, its identifier and its
-- `checkRep`. The transactions are a list in increasing order of the identifiers.
pub mod Valid
mod Tests
use crypto_kernel.Prelude.{
  ℕ, ◌+◌, ◌*◌, ◌%◌, Bool, true, false, not, ◌&&◌, ◌||◌, List, [], ◌∷◌, ◌++◌, map, length, ltb, ◌==◌,
  if◌then◌else◌,
}
use crypto_kernel.BigNum.{Text}
use crypto_kernel.BigNum
use crypto_kernel.Decimal.{to_decimal}
use crypto_kernel.Env.{Env}
use crypto_kernel.Json.{to_string as json_to_string}
use crypto_kernel.OrderedSet.{IdSet, insert_ids}
use crypto_kernel.Outcome.{
  Outcome, ok, invalid, ◌>>=◌, ◌>>◌, throw_if, block_too_large, data_too_large, data_malformed,
  outputs_not_unique, coinbase_outputs_not_unique, inputs_not_unique, root_incorrect,
}
use crypto_kernel.Types.{data_name, hash_id}
use crypto_kernel.Types.Transaction.{
  Transaction, u32, touched, root_of_ids, transaction_to_json, new_transaction, timestamp_name,
}

abbrev pub coinbase_name : Text
coinbase_name = b'c' ∷ b'o' ∷ b'i' ∷ b'n' ∷ b'b' ∷ b'a' ∷ b's' ∷ b'e' ∷ b'T' ∷ b'x' ∷ []

abbrev pub previous_name : Text
previous_name =
    b'p' ∷ b'r' ∷ b'e' ∷ b'v' ∷ b'i' ∷ b'o' ∷ b'u' ∷ b's' ∷ b'B' ∷ b'l' ∷ b'o' ∷ b'c' ∷ b'k' ∷ b'I'
    ∷ b'd' ∷ []

abbrev pub consensus_name : Text
consensus_name =
    b'c' ∷ b'o' ∷ b'n' ∷ b's' ∷ b'e' ∷ b'n' ∷ b's' ∷ b'u' ∷ b's' ∷ b'D' ∷ b'a' ∷ b't' ∷ b'a' ∷ []

abbrev pub height_name : Text
height_name = b'h' ∷ b'e' ∷ b'i' ∷ b'g' ∷ b'h' ∷ b't' ∷ []

abbrev pub transactions_name : Text
transactions_name =
    b't' ∷ b'r' ∷ b'a' ∷ b'n' ∷ b's' ∷ b'a' ∷ b'c' ∷ b't' ∷ b'i' ∷ b'o' ∷ b'n' ∷ b's' ∷ []

abbrev pub root_name : Text
root_name =
    b't' ∷ b'r' ∷ b'a' ∷ b'n' ∷ b's' ∷ b'a' ∷ b'c' ∷ b't' ∷ b'i' ∷ b'o' ∷ b'n' ∷ b'M' ∷ b'e' ∷ b'r'
    ∷ b'k' ∷ b'l' ∷ b'e' ∷ b'R' ∷ b'o' ∷ b'o' ∷ b't' ∷ []

module _ (env : Env) where
  open env use {hashing, json}
  open env.json use {Json, null, is_null, is_object, member, set_member, of_uint, of_text, append}

  -- The fields of a block but its identifier; the source's `data` is `content`.
  pub record Draft : Type 0 where
    pub transactions : List (Transaction env)
    pub coinbase_tx : Transaction env
    pub previous_block_id : ℕ
    pub timestamp : ℕ
    pub consensus_data : Json
    pub content : Json
    pub height : ℕ
    pub transaction_merkle_root : ℕ

  pub record Block : Type 0 where
    pub fields : Draft
    pub id : ℕ

  abbrev tx_to_json : Transaction env → Json
  tx_to_json tx = transaction_to_json env tx.inputs tx.outputs tx.timestamp

  append_transactions : List (Transaction env) → Json → Json
  append_transactions [] j = j
  append_transactions (tx ∷ txs) j =
      append_transactions txs
        (set_member j transactions_name (append (member j transactions_name) (tx_to_json tx)))

  -- `block::toJson`
  pub block_to_json : Draft → Json
  unfolding append_transactions
  block_to_json b =
      let j0 = set_member null coinbase_name (tx_to_json b.coinbase_tx) in
      let j1 =
        set_member j0 previous_name (of_text (BigNum.to_string hashing b.previous_block_id)) in
      let j2 = set_member j1 timestamp_name (of_uint b.timestamp) in
      let j3 = set_member j2 consensus_name b.consensus_data in
      let j4 = set_member j3 height_name (of_uint b.height) in
      let j5 = set_member j4 data_name b.content in
      let j6 = append_transactions b.transactions j5 in
      if length b.transactions == 0
      then j6
      else set_member j6 root_name (of_text (BigNum.to_string hashing b.transaction_merkle_root))

  -- The identifiers that the loop of `checkRep` collects, transaction by transaction.
  pub all_touched : List (Transaction env) → List ℕ
  all_touched [] = []
  all_touched (tx ∷ txs) = touched env tx.inputs tx.outputs ++ all_touched txs

  pub all_inputs : List (Transaction env) → List ℕ
  all_inputs [] = []
  all_inputs (tx ∷ txs) = map (λ i. i.id) tx.inputs ++ all_inputs txs

  -- `totalPuts` and `totalInputs` after the loop, which are `unsigned int`s
  pub count_puts : ℕ → List (Transaction env) → ℕ
  count_puts n [] = n
  count_puts n (tx ∷ txs) = count_puts ((n + (length tx.inputs + length tx.outputs)) % u32) txs

  pub count_inputs : ℕ → List (Transaction env) → ℕ
  count_inputs n [] = n
  count_inputs n (tx ∷ txs) = count_inputs ((n + length tx.inputs) % u32) txs

  -- The last test of `checkRep`
  unfoldable pub check_root : Draft → Outcome (Unit {0})
  check_root b =
      if length b.transactions == 0
      then ok tt
      else (root_of_ids env (map (λ t. t.id) b.transactions) >>= λ root.
          throw_if (not (root == b.transaction_merkle_root)) root_incorrect)

  -- `block::checkRep`
  unfoldable pub check_block : Draft → Outcome (Unit {0})
  unfolding all_touched all_inputs count_puts count_inputs check_root
  check_block b = do
    let puts = count_puts 0 b.transactions
    let ids = insert_ids (all_touched b.transactions) []
    let made = map (λ o. o.id) b.coinbase_tx.outputs
    throw_if (ltb (4 * 1024 * 1024) (length (json_to_string json (block_to_json b) false)))
        block_too_large
    throw_if (ltb (100 * 1024) (length (json_to_string json b.content false))) data_too_large
    throw_if (not (is_object b.content) && not (is_null b.content)) data_malformed
    throw_if (not (puts == length ids)) outputs_not_unique
    throw_if (not ((puts + length made) % u32 == length (insert_ids made ids)))
        coinbase_outputs_not_unique
    throw_if
        (not (count_inputs 0 b.transactions == length (insert_ids (all_inputs b.transactions) [])))
        inputs_not_unique
    check_root b

  -- The buffer of `block::calculateId`
  pub block_buffer : Bool → ℕ → ℕ → ℕ → ℕ → Json → Text
  block_buffer no_transactions root coinbase previous timestamp content =
      (if no_transactions then [] else BigNum.to_string hashing root)
      ++ (BigNum.to_string hashing coinbase
          ++ (BigNum.to_string hashing previous
              ++ (to_decimal timestamp ++ json_to_string json content false)))

  -- `block::calculateId`
  unfoldable pub calculate_block_id : Draft → ℕ
  unfolding block_buffer
  calculate_block_id b = hash_id env (
      block_buffer (length b.transactions == 0) b.transaction_merkle_root b.coinbase_tx.id
        b.previous_block_id b.timestamp b.content)

  -- The root that the constructor computes; `BigNum()`, which is 0, without transactions
  unfoldable pub root_of_transactions : List (Transaction env) → Outcome ℕ
  root_of_transactions [] = ok 0
  root_of_transactions (tx ∷ txs) = root_of_ids env (map (λ t. t.id) (tx ∷ txs))

  -- `block(transactions, coinbaseTx, previousBlockId, timestamp, consensusData, height, data)`
  unfoldable pub new_block :
      List (Transaction env) → Transaction env → ℕ → ℕ → Json → ℕ → Json → Outcome Block
  unfolding check_block calculate_block_id root_of_transactions
  new_block transactions coinbase previous timestamp consensus height content = do
    coinbase_tx ← new_transaction env coinbase.inputs coinbase.outputs coinbase.timestamp true
    root ← root_of_transactions transactions
    let draft : Draft = record {
      transactions = transactions;
      coinbase_tx = coinbase_tx;
      previous_block_id = previous;
      timestamp = timestamp;
      consensus_data = consensus;
      content = content;
      height = height;
      transaction_merkle_root = root;
    }
    check_block draft
    ok (record { fields = draft; id = calculate_block_id draft })
