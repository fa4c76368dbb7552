-- ===== src/Chain/Build/Tests.antt =====
-- A stored block with a `data` field, put together again as src/kernel/blockchain.cpp does.
use crypto_kernel.Prelude.{◌≡◌, refl, true, some, [], ◌∷◌}
use crypto_kernel.Outcome.{ok}
use crypto_kernel.Sample.{sample_env as env, nothing, number, entry}
use crypto_kernel.Types.Block.{Block, calculate_block_id}
use crypto_kernel.Types.Stored.{DbBlock}
use crypto_kernel.Chain.{Tables}
use crypto_kernel.Chain.Build.{build_block}
use crypto_kernel.Chain.Build.Content.{build_block-drops_content}

abbrev stored : DbBlock env
stored = record {
  transactions = [];
  coinbase_tx = 1;
  previous_block_id = 0;
  timestamp = 0;
  consensus_data = nothing;
  content = entry [] (number 5) nothing;
  height = 1;
  transaction_merkle_root = 0;
  id = 70;
}

abbrev tables : Tables env
tables = record {
  blocks = (70, stored) ∷ [];
  tip = some stored;
  heights = (1, 70) ∷ [];
  transactions =
      (
        1,
        record {
          confirming_block = 70;
          coinbase = true;
          inputs = [];
          outputs = 9 ∷ [];
          timestamp = 0;
          id = 1;
        },
      )
      ∷ [];
  utxos =
      (
        9,
        record {
          output = record { value = 50; nonce = 0; content = nothing; id = 9 };
          creation_tx = 1;
        },
      )
      ∷ [];
  utxo_keys = [];
  stxos = [];
  stxo_keys = [];
  inputs = [];
  candidates = [];
}

abbrev rebuilt : Block env
rebuilt = elim (build_block env tables stored) [
  | ok block ↦ block
  | _ ↦ record {
    fields = record {
      transactions = [];
      coinbase_tx = record { inputs = []; outputs = []; timestamp = 0; bytes = 0; id = 0 };
      previous_block_id = 0;
      timestamp = 0;
      consensus_data = nothing;
      content = nothing;
      height = 0;
      transaction_merkle_root = 0;
    };
    id = 0;
  }
]

stored_again : build_block env tables stored ≡ ok rebuilt
unfolding build_block crypto_kernel.Chain.get_output_db
    crypto_kernel.Types.Transaction.new_transaction crypto_kernel.Json.to_string
    crypto_kernel.OrderedSet.insert_ids crypto_kernel.OrderedMap.insert
    crypto_kernel.Merkle.Build.make_merkle_tree crypto_kernel.OrderedSet.elements
    crypto_kernel.Types.Block.new_block
stored_again = refl

build_block-drops_content_example :
    (rebuilt.fields.content ≡ nothing) × (rebuilt.id ≡ calculate_block_id env rebuilt.fields)
build_block-drops_content_example = build_block-drops_content env tables stored refl stored_again
