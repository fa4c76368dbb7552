-- ===== src/Chain/Tests.antt =====
-- A chain of one block, and the theorems of src/kernel/blockchain.cpp's model at it.
use crypto_kernel.Prelude.{
  All, ℕ, ◌+◌, ◌-◌, ◌*◌, ◌≤◌, ◌≡◌, refl, true, false, none, some, [], ◌∷◌, arith,
}
use crypto_kernel.BigNum.{Text}
use crypto_kernel.Mempool.{empty_mempool}
use crypto_kernel.OrderedMap.{lookup}
use crypto_kernel.Outcome.{ok}
use crypto_kernel.Sample.{sample_env as env, nothing, text, entry}
use crypto_kernel.Types.{Input, Output, public_key_name}
use crypto_kernel.Types.Transaction.{get_output_set_id, Transaction}
use crypto_kernel.Types.Block.{Block}
use crypto_kernel.Types.Stored.{DbOutput, DbTransaction, DbBlock}
use crypto_kernel.Chain.{Tables, Chain, Rules, get_transaction_fee}
use crypto_kernel.Chain.Spend.{
  leave, locked_by, schnorr_key_name, merkle_root_name, spend_type_name, key_or_script_name,
  merkle_proof_name, pubkey_word, check_merkle_root,
}
use crypto_kernel.Chain.Spend.{signature_name}
use crypto_kernel.Chain.Verify.{verify_transaction}
use crypto_kernel.Chain.Verify.Signed.{IsPlain, IsAuthorised, verify_transaction-IsAuthorised}
use crypto_kernel.KeyMap.{text_eq}
use crypto_kernel.Chain.Confirm.{confirm_transaction, reverse_transaction}
use crypto_kernel.Chain.Confirm.Reverse.{reverse_transaction-confirm_transaction}
use crypto_kernel.Chain.Submit.{extend_chain}
use crypto_kernel.Chain.Submit.Value.{all_made, all_spent, extend_chain-conserves}
use crypto_kernel.Types.Transaction.{u64}
use crypto_kernel.Chain.{get_block_db}
use crypto_kernel.Chain.Verify.Value.{made, spent, verify_transaction-conserves}

abbrev rules : Rules env
rules = record {
  check_consensus_rules = λ t block previous. ok (some block);
  is_block_better = λ t block tip. ok true;
  submits_block = λ t block. true;
  verifies_transaction = λ t tx. true;
  submits_transaction = λ t tx. true;
  evaluate_script = λ t tx inp script. some true;
  block_reward = λ height. 50;
}

-- An output of `value` under the key `k`, and an input that signs for it.
abbrev locked : ℕ → ℕ → ℕ → DbOutput env
locked id value k = record {
  output = record {
    value = value;
    nonce = 0;
    content = entry public_key_name (text (k ∷ [])) nothing;
    id = id;
  };
  creation_tx = 1;
}

abbrev signed : ℕ → ℕ → ℕ → Input env
signed id output_id k = record {
  output_id = output_id;
  content = entry signature_name (text (k ∷ [])) nothing;
  id = id;
}

abbrev coin : ℕ → ℕ → Output env
coin id value = record { value = value; nonce = 0; content = nothing; id = id }

abbrev tables : Tables env
tables = record {
  blocks = [];
  tip = none;
  heights = [];
  transactions = [];
  utxos = (8, locked 8 500 5) ∷ (9, locked 9 70 6) ∷ [];
  utxo_keys = [];
  stxos = [];
  stxo_keys = [];
  inputs = [];
  candidates = [];
}

-- Spends the output 8 and makes the output 20.
abbrev payment : Transaction env
payment = record {
  inputs = signed 3 8 5 ∷ [];
  outputs = coin 20 400 ∷ [];
  timestamp = 0;
  bytes = 90;
  id = 40;
}

payment_verified : verify_transaction env rules tables payment false ≡ ok (true, false)
unfolding verify_transaction crypto_kernel.Types.Transaction.get_output_set_id
    crypto_kernel.Merkle.Build.make_merkle_tree crypto_kernel.OrderedSet.elements
    crypto_kernel.OrderedSet.insert_ids crypto_kernel.OrderedMap.insert
    crypto_kernel.Chain.Spend.check_schnorr crypto_kernel.KeyMap.text_eq
    crypto_kernel.Chain.Spend.check_merkle_root crypto_kernel.Chain.Spend.check_key
    crypto_kernel.Chain.Aggregate.check_aggregates crypto_kernel.Chain.output_total
    get_transaction_fee crypto_kernel.Json.to_string crypto_kernel.Chain.get_output_or_throw
payment_verified = refl

verify_transaction-conserves_example :
    (made env payment.outputs ≤ spent env tables.utxos payment.inputs)
    × (get_transaction_fee env payment
        ≤ (spent env tables.utxos payment.inputs - made env payment.outputs) * 2)
verify_transaction-conserves_example =
    verify_transaction-conserves env rules tables payment false (omega arith) payment_verified

abbrev chain : Chain env
chain = record { tables = tables; unconfirmed = empty_mempool env; genesis_block_id = 0 }

abbrev paid : DbTransaction env
paid = record {
  confirming_block = 77;
  coinbase = false;
  inputs = 3 ∷ [];
  outputs = 20 ∷ [];
  timestamp = 0;
  id = 0;
}

-- What the chain is once the payment is confirmed.
abbrev confirmed : Chain env
confirmed = elim (confirm_transaction env payment 77 false chain) [ ok c ↦ c | _ ↦ chain ]

payment_goes_in : confirm_transaction env payment 77 false chain ≡ ok confirmed
unfolding confirm_transaction crypto_kernel.Chain.get_output_or_throw crypto_kernel.KeyMap.text_eq
    crypto_kernel.Types.Stored.new_db_transaction crypto_kernel.OrderedSet.elements
    crypto_kernel.OrderedSet.insert_ids crypto_kernel.OrderedMap.insert
    crypto_kernel.Types.Transaction.root_of_set crypto_kernel.Merkle.Build.make_merkle_tree
payment_goes_in = refl

reverse_transaction-confirm_transaction_example :
    (t : Tables env) × (reverse_transaction env payment confirmed.tables ≡ ok t)
    × ((x : ℕ) → lookup x t.utxos ≡ lookup x tables.utxos)
    × ((x : ℕ) → lookup x t.stxos ≡ lookup x tables.stxos)
reverse_transaction-confirm_transaction_example =
    reverse_transaction-confirm_transaction env payment 77 false chain confirmed
      ((omega arith, tt), (tt, tt)) tt (refl, tt) (λ x m. ground arith) (λ x m. refl)
      payment_goes_in

-- A block with the payment, whose coinbase takes the fee and the reward.
abbrev reward : Transaction env
reward = record { inputs = []; outputs = coin 21 150 ∷ []; timestamp = 1; bytes = 90; id = 41 }

abbrev block : Block env
block = record {
  fields = record {
    transactions = payment ∷ [];
    coinbase_tx = reward;
    previous_block_id = 70;
    timestamp = 2;
    consensus_data = nothing;
    content = nothing;
    height = 1;
    transaction_merkle_root = 0;
  };
  id = 78;
}

abbrev extended : Chain env
extended = elim (extend_chain env rules block 1 chain) [ ok (c, v) ↦ c | _ ↦ chain ]

block_extends : extend_chain env rules block 1 chain ≡ ok (extended, (true, false))
unfolding extend_chain verify_transaction crypto_kernel.Types.Transaction.get_output_set_id
    crypto_kernel.Merkle.Build.make_merkle_tree crypto_kernel.OrderedSet.elements
    crypto_kernel.OrderedSet.insert_ids crypto_kernel.OrderedMap.insert
    crypto_kernel.Chain.Spend.check_schnorr crypto_kernel.KeyMap.text_eq check_merkle_root
    crypto_kernel.Chain.Spend.check_key crypto_kernel.Chain.Aggregate.check_aggregates
    crypto_kernel.Chain.output_total get_transaction_fee crypto_kernel.Json.to_string
    crypto_kernel.Chain.get_output_or_throw crypto_kernel.Chain.calculate_transaction_fee
    confirm_transaction crypto_kernel.Types.Stored.new_db_transaction
    crypto_kernel.OrderedMap.assign crypto_kernel.Types.Stored.new_db_block
    crypto_kernel.Merkle.new_values crypto_kernel.Merkle.combine crypto_kernel.BigNum.to_string
    crypto_kernel.Decimal.to_decimal crypto_kernel.Mempool.remove
block_extends = refl

extend_chain-conserves_example :
    made env block.fields.coinbase_tx.outputs + all_made env rules block.fields.transactions
    ≤ all_spent env rules chain.tables block.fields.transactions + rules.block_reward 1
extend_chain-conserves_example =
    extend_chain-conserves env rules block 1 chain ((omega arith, omega arith), tt) (omega arith)
      block_extends

payment-IsPlain : All (IsPlain env rules tables payment) payment.inputs
unfolding text_eq
payment-IsPlain = (λ out found. ground arith, tt)

verify_transaction-IsAuthorised_example :
    (output_hash : ℕ) × (get_output_set_id env payment.outputs ≡ ok output_hash)
    × All (IsAuthorised env rules tables payment output_hash) payment.inputs
verify_transaction-IsAuthorised_example =
    verify_transaction-IsAuthorised env rules tables payment false false payment-IsPlain
      payment_verified
