-- ===== src/Chain/Submit/Tests.antt =====
-- A transaction for `submitTransaction` of src/kernel/blockchain.cpp, sent to a chain that has the
-- output that it spends.
use crypto_kernel.Prelude.{◌≡◌, refl, true, false, Bool, none, some, [], ◌∷◌, arith}
use crypto_kernel.Mempool
use crypto_kernel.Mempool.{empty_mempool}
use crypto_kernel.Mempool.Consistent.{IsConsistent, empty_mempool-IsConsistent}
use crypto_kernel.Outcome.{ok}
use crypto_kernel.Sample.{sample_env as env, nothing}
use crypto_kernel.Types.Transaction.{Transaction}
use crypto_kernel.Chain.{Tables, Chain, Rules}
use crypto_kernel.Chain.Verify.{verify_transaction}
use crypto_kernel.Chain.Submit.{submit_transaction}
use crypto_kernel.Chain.Submit.Pool.{submit_transaction-IsConsistent}

abbrev rules : Rules env
rules = record {
  check_consensus_rules = λ t block previous. ok (some block);
  is_block_better = λ t block tip. ok true;
  submits_block = λ t block. true;
  verifies_transaction = λ t tx. true;
  submits_transaction = λ t tx. true;
  evaluate_script = λ t tx inp script. some true;
  block_reward = λ height. 50;
}

abbrev chain : Chain env
chain = record {
  tables = record {
    blocks = [];
    tip = none;
    heights = [];
    transactions = [];
    utxos =
        (
          8,
          record {
            output = record { value = 500; nonce = 0; content = nothing; id = 8 };
            creation_tx = 1;
          },
        )
        ∷ [];
    utxo_keys = [];
    stxos = [];
    stxo_keys = [];
    inputs = [];
    candidates = [];
  };
  unconfirmed = empty_mempool env;
  genesis_block_id = 70;
}

abbrev payment : Transaction env
payment = record {
  inputs = record { output_id = 8; content = nothing; id = 3 } ∷ [];
  outputs = record { value = 400; nonce = 0; content = nothing; id = 20 } ∷ [];
  timestamp = 0;
  bytes = 90;
  id = 40;
}

abbrev pending : Chain env
pending = record chain { unconfirmed = (Mempool.insert env payment chain.unconfirmed).0 }

payment_taken : submit_transaction env rules payment chain ≡ ok (pending, (true, false))
unfolding submit_transaction verify_transaction crypto_kernel.Types.Transaction.get_output_set_id
    crypto_kernel.Merkle.Build.make_merkle_tree crypto_kernel.OrderedSet.elements
    crypto_kernel.OrderedSet.insert_ids crypto_kernel.OrderedMap.insert
    crypto_kernel.Chain.Spend.check_schnorr crypto_kernel.Chain.Spend.check_merkle_root
    crypto_kernel.Chain.Spend.check_key crypto_kernel.Chain.Aggregate.check_aggregates
    crypto_kernel.Chain.output_total crypto_kernel.Chain.get_transaction_fee
    crypto_kernel.Json.to_string crypto_kernel.Chain.get_output_or_throw Mempool.insert
payment_taken = refl

submit_transaction-IsConsistent_example :
    IsConsistent env pending.unconfirmed
    × (pending.tables ≡ chain.tables)
    × ((◌≡◌ {A = Bool} true true)
        → ((ban : Bool) × (verify_transaction env rules chain.tables payment false
              ≡ ok (true, ban)))
          × ((Mempool.insert env payment chain.unconfirmed).1 ≡ true))
    × ((◌≡◌ {A = Bool} true false) → pending ≡ chain)
submit_transaction-IsConsistent_example =
    submit_transaction-IsConsistent env rules payment chain pending (true, false) (omega arith)
      (empty_mempool-IsConsistent env) payment_taken
