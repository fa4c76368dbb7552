-- ===== src/Types/Block/Tests.antt =====
-- A block of one transaction, and what is stored of it, for src/kernel/blockchaintypes.cpp's model.
use crypto_kernel.Prelude.{ℕ, ◌≡◌, ◌↔◌, refl, false, [], ◌∷◌, arith}
use crypto_kernel.Outcome.{ok}
use crypto_kernel.Sample.{sample_env as env, nothing}
use crypto_kernel.Types.{Input, Output}
use crypto_kernel.Types.Block.{
  Block, Draft, check_block, calculate_block_id, root_of_transactions, all_touched, all_inputs,
}
use crypto_kernel.Types.Block.Valid.{IsValid, check_block-IsValid}
use crypto_kernel.Types.Stored.{
  DbTransaction, DbBlock, new_db_transaction, new_db_block, new_db_block-id,
}
use crypto_kernel.Types.Transaction.{Transaction, calculate_transaction_id}

abbrev spend : Input env
spend = record { output_id = 8; content = nothing; id = 3 }

abbrev coin : ℕ → Output env
coin id = record { value = 50; nonce = 0; content = nothing; id = id }

abbrev payment_id : ℕ
payment_id = elim (calculate_transaction_id env (spend ∷ []) (coin 20 ∷ []) 0) [ ok n ↦ n | _ ↦ 0 ]

abbrev payment : Transaction env
payment = record {
  inputs = spend ∷ [];
  outputs = coin 20 ∷ [];
  timestamp = 0;
  bytes = 90;
  id = payment_id;
}

abbrev reward : Transaction env
reward = record { inputs = []; outputs = coin 21 ∷ []; timestamp = 1; bytes = 90; id = 41 }

abbrev root : ℕ
root = elim (root_of_transactions env (payment ∷ [])) [ ok n ↦ n | _ ↦ 0 ]

abbrev draft : Draft env
draft = record {
  transactions = payment ∷ [];
  coinbase_tx = reward;
  previous_block_id = 70;
  timestamp = 2;
  consensus_data = nothing;
  content = nothing;
  height = 1;
  transaction_merkle_root = root;
}

abbrev block : Block env
block = record { fields = draft; id = calculate_block_id env draft }

check_block-IsValid_example : (check_block env draft ≡ ok tt) ↔ IsValid env draft
unfolding all_touched all_inputs
check_block-IsValid_example = check_block-IsValid env draft (omega arith) (omega arith)

payment_hashed :
    calculate_transaction_id env payment.inputs payment.outputs payment.timestamp ≡ ok payment.id
unfolding calculate_transaction_id crypto_kernel.Merkle.Build.make_merkle_tree
    crypto_kernel.OrderedSet.elements crypto_kernel.OrderedSet.insert_ids
    crypto_kernel.OrderedMap.insert
payment_hashed = refl

abbrev stored_payment : DbTransaction env
stored_payment = elim (new_db_transaction env payment 78 false) [
  | ok d ↦ d
  | _ ↦ record {
    confirming_block = 0;
    coinbase = false;
    inputs = [];
    outputs = [];
    timestamp = 0;
    id = 0;
  }
]

payment_stored : new_db_transaction env payment 78 false ≡ ok stored_payment
unfolding new_db_transaction crypto_kernel.OrderedSet.elements crypto_kernel.OrderedSet.insert_ids
    crypto_kernel.OrderedMap.insert crypto_kernel.Types.Transaction.root_of_set
    crypto_kernel.Merkle.Build.make_merkle_tree
payment_stored = refl

draft_rooted : root_of_transactions env draft.transactions ≡ ok draft.transaction_merkle_root
unfolding root_of_transactions crypto_kernel.Types.Transaction.root_of_ids
    crypto_kernel.Merkle.Build.make_merkle_tree crypto_kernel.OrderedSet.elements
    crypto_kernel.OrderedSet.insert_ids crypto_kernel.OrderedMap.insert
draft_rooted = refl

abbrev stored_block : DbBlock env
stored_block = elim (new_db_block env block 5) [
  | ok d ↦ d
  | _ ↦ record {
    transactions = [];
    coinbase_tx = 0;
    previous_block_id = 0;
    timestamp = 0;
    consensus_data = nothing;
    content = nothing;
    height = 0;
    transaction_merkle_root = 0;
    id = 0;
  }
]

block_stored : new_db_block env block 5 ≡ ok stored_block
unfolding new_db_block crypto_kernel.OrderedSet.elements crypto_kernel.OrderedSet.insert_ids
    crypto_kernel.OrderedMap.insert crypto_kernel.Types.Transaction.root_of_set
    crypto_kernel.Merkle.Build.make_merkle_tree crypto_kernel.Merkle.new_values
    crypto_kernel.Merkle.combine crypto_kernel.BigNum.to_string crypto_kernel.Decimal.to_decimal
    calculate_transaction_id crypto_kernel.Types.hash_id crypto_kernel.Json.to_string
block_stored = refl

new_db_block-id_example : stored_block.id ≡ block.id
new_db_block-id_example = new_db_block-id env block 5 refl draft_rooted block_stored
