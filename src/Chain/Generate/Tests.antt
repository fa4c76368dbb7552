-- ===== src/Chain/Generate/Tests.antt =====
-- A block that src/kernel/blockchain.cpp generates for a mempool of two transactions, of which the second
-- spends an output that is gone.
use crypto_kernel.Prelude.{◌≡◌, refl, ◌&&◌, ◌||◌, leb, true, false, none, some, [], ◌∷◌, arith}
use crypto_kernel.Outcome.{Outcome, ok}
use crypto_kernel.Sample.{sample_env as env, nothing}
use crypto_kernel.Types.Block.{Block}
use crypto_kernel.Types.Transaction.{Transaction}
use crypto_kernel.Chain.{Tables, Chain, Rules}
use crypto_kernel.Chain.Generate.{Site, Supplies, site, add_fees, generate_verifying_block}
use crypto_kernel.Chain.Generate.Fair.{generate_verifying_block-check_coinbase}
use crypto_kernel.Chain.Submit.{check_coinbase}
use crypto_kernel.Chain.Verify.{verify_transaction}

abbrev rules : Rules env
rules = record {
  check_consensus_rules = λ t block previous. ok (some block);
  is_block_better = λ t block tip. ok true;
  submits_block = λ t block. true;
  verifies_transaction = λ t tx. true;
  submits_transaction = λ t tx. true;
  evaluate_script = λ t tx inp script. some true;
  block_reward = λ height. 50;
}

abbrev payment : Transaction env
payment = record {
  inputs = record { output_id = 8; content = nothing; id = 3 } ∷ [];
  outputs = record { value = 400; nonce = 0; content = nothing; id = 20 } ∷ [];
  timestamp = 0;
  bytes = 90;
  id = 40;
}

abbrev stale : Transaction env
stale = record {
  inputs = record { output_id = 9; content = nothing; id = 4 } ∷ [];
  outputs = record { value = 10; nonce = 0; content = nothing; id = 21 } ∷ [];
  timestamp = 0;
  bytes = 90;
  id = 41;
}

abbrev chain : Chain env
chain = record {
  tables = record {
    blocks = [];
    tip = none;
    heights = [];
    transactions = [];
    utxos =
        (
          8,
          record {
            output = record { value = 500; nonce = 0; content = nothing; id = 8 };
            creation_tx = 1;
          },
        )
        ∷ [];
    utxo_keys = [];
    stxos = [];
    stxo_keys = [];
    inputs = [];
    candidates = [];
  };
  unconfirmed = record {
    txs = (40, payment) ∷ (41, stale) ∷ [];
    inputs = (3, 40) ∷ (4, 41) ∷ [];
    outputs = (8, 40) ∷ (9, 41) ∷ (20, 40) ∷ (21, 41) ∷ [];
    bytes = 180;
  };
  genesis_block_id = 70;
}

abbrev supplies : Supplies
supplies = record { now = 600; owner = b'k' ∷ []; nonce = 5 }

abbrev place : Site
place = record { height = 1; previous_block_id = 0; genesis_block = true }

located : site env rules chain.tables ≡ ok place
unfolding site crypto_kernel.Chain.get_tip
located = refl

-- The fee of the second is refused, after the first one's fee of 100 was counted.
refused :
    add_fees env rules chain.tables 50
      (crypto_kernel.Mempool.get_transactions env chain.unconfirmed)
    ≡ ok (false, 150)
unfolding generate_verifying_block crypto_kernel.Chain.get_tip
    crypto_kernel.Mempool.get_transactions crypto_kernel.Chain.calculate_transaction_fee
refused = refl

abbrev generated : Outcome (Block env)
generated = generate_verifying_block env rules (λ t id. ok nothing) supplies chain

abbrev block : Block env
block = elim generated [
  | ok b ↦ b
  | _ ↦ record {
    fields = record {
      transactions = [];
      coinbase_tx = record { inputs = []; outputs = []; timestamp = 0; bytes = 0; id = 0 };
      previous_block_id = 0;
      timestamp = 0;
      consensus_data = nothing;
      content = nothing;
      height = 0;
      transaction_merkle_root = 0;
    };
    id = 0;
  }
]

is_generated : generated ≡ ok block
unfolding generate_verifying_block crypto_kernel.Chain.get_tip
    crypto_kernel.Mempool.get_transactions crypto_kernel.Chain.calculate_transaction_fee
    crypto_kernel.Types.new_output crypto_kernel.KeyMap.text_eq
    crypto_kernel.Types.Transaction.new_transaction crypto_kernel.Json.to_string
    crypto_kernel.OrderedSet.insert_ids crypto_kernel.OrderedMap.insert
    crypto_kernel.Merkle.Build.make_merkle_tree crypto_kernel.OrderedSet.elements
    crypto_kernel.Types.Block.new_block
is_generated = refl

verified :
    verify_transaction env rules chain.tables block.fields.coinbase_tx true ≡ ok (true, false)
unfolding generate_verifying_block verify_transaction crypto_kernel.Chain.get_tip
    crypto_kernel.Mempool.get_transactions crypto_kernel.Chain.calculate_transaction_fee
    crypto_kernel.Types.new_output crypto_kernel.KeyMap.text_eq
    crypto_kernel.Types.Transaction.new_transaction crypto_kernel.Json.to_string
    crypto_kernel.OrderedSet.insert_ids crypto_kernel.OrderedMap.insert
    crypto_kernel.Merkle.Build.make_merkle_tree crypto_kernel.OrderedSet.elements
    crypto_kernel.Types.Block.new_block crypto_kernel.Decimal.to_decimal
    crypto_kernel.Chain.Aggregate.check_aggregates
verified = refl

generate_verifying_block-check_coinbase_example :
    check_coinbase env rules block 1 chain.tables ≡ ok (true && (false || leb 150 50))
generate_verifying_block-check_coinbase_example =
    generate_verifying_block-check_coinbase env rules (λ t id. ok nothing) supplies chain place
      (false, 150) block (true, false) located (omega arith) refused is_generated verified
