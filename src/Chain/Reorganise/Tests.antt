-- ===== src/Chain/Reorganise/Tests.antt =====
-- A chain of two blocks, and a block that arrives beside its tip, for `submitBlock` of
-- src/kernel/blockchain.cpp.
use crypto_kernel.Prelude.{ℕ, ◌≡◌, refl, true, false, some, [], ◌∷◌, arith}
use crypto_kernel.Mempool.{empty_mempool}
use crypto_kernel.Outcome.{ok, undefined}
use crypto_kernel.Sample.{sample_env as env, nothing}
use crypto_kernel.Types.Block.{Block}
use crypto_kernel.Types.Stored.{DbBlock}
use crypto_kernel.Chain.{Chain, Rules}
use crypto_kernel.Chain.Reorganise.{submit_block}
use crypto_kernel.Chain.Reorganise.Parent.{Arrives, submit_block-below_tip}

abbrev rules : Rules env
rules = record {
  check_consensus_rules = λ t block previous. ok (some block);
  is_block_better = λ t block tip. ok true;
  submits_block = λ t block. true;
  verifies_transaction = λ t tx. true;
  submits_transaction = λ t tx. true;
  evaluate_script = λ t tx inp script. some true;
  block_reward = λ height. 50;
}

abbrev stored : ℕ → ℕ → ℕ → DbBlock env
stored id previous height = record {
  transactions = [];
  coinbase_tx = 1;
  previous_block_id = previous;
  timestamp = 0;
  consensus_data = nothing;
  content = nothing;
  height = height;
  transaction_merkle_root = 0;
  id = id;
}

abbrev chain : Chain env
chain = record {
  tables = record {
    blocks = (70, stored 70 0 1) ∷ (71, stored 71 70 2) ∷ [];
    tip = some (stored 71 70 2);
    heights = (1, 70) ∷ (2, 71) ∷ [];
    transactions = [];
    utxos = [];
    utxo_keys = [];
    stxos = [];
    stxo_keys = [];
    inputs = [];
    candidates = [];
  };
  unconfirmed = empty_mempool env;
  genesis_block_id = 70;
}

abbrev arriving : ℕ → Block env
arriving previous = record {
  fields = record {
    transactions = [];
    coinbase_tx = record {
      inputs = [];
      outputs = record { value = 50; nonce = 0; content = nothing; id = 21 } ∷ [];
      timestamp = 1;
      bytes = 90;
      id = 41;
    };
    previous_block_id = previous;
    timestamp = 2;
    consensus_data = nothing;
    content = nothing;
    height = 3;
    transaction_merkle_root = 0;
  };
  id = 78;
}

below_tip : Arrives env rules chain (arriving 70) (stored 70 0 1) (stored 71 70 2)
below_tip = record { is_new = refl; has_parent = refl; has_tip = refl; conforms = refl }

submit_block-below_tip_example : submit_block env rules 5 (arriving 70) false chain ≡ undefined
submit_block-below_tip_example =
    submit_block-below_tip env rules chain 4 (arriving 70) (stored 70 0 1) (stored 71 70 2)
      below_tip (omega arith) refl refl
