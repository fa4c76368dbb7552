-- ===== src/Wallet/Sync/Tests.antt =====
-- An empty wallet that follows a chain of one block, with concrete parameters.
use crypto_kernel.Prelude.{
  zero, suc, ℕ, ◌+◌, ◌≡◌, ◌≢◌, refl, sym, ◌∙◌, ap, Bool, Bool-cases, inl, inr, ◌==◌, ==→eq, true,
  false, none, some, [], ◌∷◌, arith,
}
use crypto_kernel.Chain.{Tables, get_output_db, get_block_db}
use crypto_kernel.Chain.Build.{
  get_outputs, get_inputs, get_transaction, get_transactions_of, rebuild, build_block, get_block,
  get_block_by_height,
}
use crypto_kernel.Outcome.{ok, not_found, out_of_fuel, ok-injective}
use crypto_kernel.Sample.{sample_env as env, entry, text, nothing}
use crypto_kernel.Types.{Output, public_key_name}
use crypto_kernel.Types.Block.{Block}
use crypto_kernel.Types.Stored.{DbBlock}
use crypto_kernel.Wallet.Plain.{plain, key_name, account_name}
use crypto_kernel.Wallet.{Wallet, get_output}
use crypto_kernel.Wallet.Sync.Forks.{IsDescending, IsInStep}
use crypto_kernel.Wallet.Sync.Resolved.{IsResolved, rewind_forks-IsResolved}
use crypto_kernel.Wallet.Sync.{
  tip_block, rewind_forks, insert_transaction, block_transactions, follow,
}
use crypto_kernel.Wallet.Sync.Returns.{AreOwned}
use crypto_kernel.Wallet.Sync.Follows.{AreReadable, HasBlocks, HasFollowed, follow-HasFollowed}

abbrev reward : Output env
reward = record {
  value = 50;
  nonce = 0;
  content = entry public_key_name (text key_name) nothing;
  id = 9;
}

abbrev stored : DbBlock env
stored = record {
  transactions = [];
  coinbase_tx = 1;
  previous_block_id = 0;
  timestamp = 0;
  consensus_data = nothing;
  content = nothing;
  height = 1;
  transaction_merkle_root = 0;
  id = 70;
}

abbrev tables : Tables env
tables = record {
  blocks = (70, stored) ∷ [];
  tip = some stored;
  heights = (1, 70) ∷ [];
  transactions =
      (
        1,
        record {
          confirming_block = 70;
          coinbase = true;
          inputs = [];
          outputs = 9 ∷ [];
          timestamp = 0;
          id = 1;
        },
      )
      ∷ [];
  utxos = (9, record { output = reward; creation_tx = 1 }) ∷ [];
  utxo_keys = [];
  stxos = [];
  stxo_keys = [];
  inputs = [];
  candidates = [];
}

abbrev rebuilt : Block env
rebuilt = elim (get_block_by_height env tables 1) [
  | ok block ↦ block
  | _ ↦ record {
    fields = record {
      transactions = [];
      coinbase_tx = record { inputs = []; outputs = []; timestamp = 0; bytes = 0; id = 0 };
      previous_block_id = 0;
      timestamp = 0;
      consensus_data = nothing;
      content = nothing;
      height = 0;
      transaction_merkle_root = 0;
    };
    id = 0;
  }
]

stored_again : get_block_by_height env tables 1 ≡ ok rebuilt
unfolding get_block_by_height get_block build_block rebuild get_transaction get_transactions_of
    get_outputs get_inputs crypto_kernel.Chain.get_output_db crypto_kernel.Chain.get_block_db
    crypto_kernel.Types.Transaction.new_transaction crypto_kernel.Json.to_string
    crypto_kernel.OrderedSet.insert_ids crypto_kernel.OrderedMap.insert
    crypto_kernel.Merkle.Build.make_merkle_tree crypto_kernel.OrderedSet.elements
    crypto_kernel.Types.Block.new_block
stored_again = refl

abbrev empty_wallet : Wallet env plain
empty_wallet = record {
  password_check = [];
  accounts = (account_name, record { name = account_name; balance = 0; keys = [] }) ∷ [];
  key_names = (key_name, account_name) ∷ [];
  utxos = [];
  transactions = [];
  height = 0;
  tip_id = none;
}

found_9 : get_output env plain tables 9 ≡ ok reward
unfolding get_output get_output_db
found_9 = refl

rebuilt-AreReadable : AreReadable env plain tables (block_transactions env rebuilt)
unfolding block_transactions insert_transaction get_block_by_height get_block build_block rebuild
    get_transaction get_transactions_of get_outputs get_inputs crypto_kernel.Chain.get_output_db
    crypto_kernel.Chain.get_block_db crypto_kernel.Types.Transaction.new_transaction
    crypto_kernel.Json.to_string crypto_kernel.OrderedSet.insert_ids crypto_kernel.OrderedMap.insert
    crypto_kernel.Merkle.Build.make_merkle_tree crypto_kernel.OrderedSet.elements
    crypto_kernel.Types.Block.new_block
rebuilt-AreReadable = ((found_9, tt), tt)

rebuilt_height : rebuilt.fields.height ≡ 1
unfolding get_block_by_height get_block build_block rebuild get_transaction get_transactions_of
    get_outputs get_inputs crypto_kernel.Chain.get_output_db crypto_kernel.Chain.get_block_db
    crypto_kernel.Types.Transaction.new_transaction crypto_kernel.Json.to_string
    crypto_kernel.OrderedSet.insert_ids crypto_kernel.OrderedMap.insert
    crypto_kernel.Merkle.Build.make_merkle_tree crypto_kernel.OrderedSet.elements
    crypto_kernel.Types.Block.new_block
rebuilt_height = refl

rebuilt_parent : get_block_db env tables rebuilt.fields.previous_block_id false ≡ not_found
unfolding get_block_by_height get_block build_block rebuild get_transaction get_transactions_of
    get_outputs get_inputs crypto_kernel.Chain.get_output_db crypto_kernel.Chain.get_block_db
    crypto_kernel.Types.Transaction.new_transaction crypto_kernel.Json.to_string
    crypto_kernel.OrderedSet.insert_ids crypto_kernel.OrderedMap.insert
    crypto_kernel.Merkle.Build.make_merkle_tree crypto_kernel.OrderedSet.elements
    crypto_kernel.Types.Block.new_block
rebuilt_parent = refl

tables-HasBlocks : HasBlocks env plain tables 1
tables-HasBlocks zero below = (rebuilt, stored_again, rebuilt_height, rebuilt-AreReadable)
tables-HasBlocks (suc h) below = absurd (omega arith)

empty_wallet-AreOwned : AreOwned env plain tables empty_wallet
empty_wallet-AreOwned = record { sorted = tt; owned = λ id txo kept. absurd (ground arith) }

follow-HasFollowed_example :
    (w' : Wallet env plain) × (follow env plain tables 1 1 empty_wallet ≡ ok w')
    × HasFollowed env plain tables 1 empty_wallet w'
follow-HasFollowed_example =
    follow-HasFollowed env plain tables 1 1 empty_wallet tables-HasBlocks empty_wallet-AreOwned
      (omega arith) (omega arith)

absent :
    (id : ℕ) (main_chain : Bool)
    → (id == 70) ≡ false
    → get_block_db env tables id main_chain ≡ not_found
unfolding get_block_db
absent id main_chain other = ground (arith, other)

absent_block : (id : ℕ) → (id == 70) ≡ false → get_block env tables id ≡ not_found
unfolding get_block
absent_block id other = ground (arith, absent id false other)

found_70 : get_block_db env tables 70 false ≡ ok stored
unfolding get_block_db
found_70 = refl

stored_block : get_block env tables 70 ≡ ok rebuilt
unfolding get_block get_block_by_height
stored_block = stored_again

tables-IsDescending : IsDescending env plain tables
tables-IsDescending = record {
  parent_below = λ id block parent got above. elim (Bool-cases (id == 70)) [
    | inr other ↦ absurd (ground (arith, absent_block id other, got))
    | inl here ↦
        let same : rebuilt ≡ block =
          ok-injective
            (sym stored_block ∙ (ap (get_block env tables) (sym (==→eq id 70 here)) ∙ got)) in
        let parentless : get_block_db env tables block.fields.previous_block_id false ≡ not_found =
          ap (λ b. get_block_db env tables b.fields.previous_block_id false) (sym same)
          ∙ rebuilt_parent in
        absurd (ground (arith, parentless, above))
  ];
  same_height = λ id b block found got. elim (Bool-cases (id == 70)) [
    | inr other ↦ absurd (ground (arith, absent id false other, found))
    | inl here ↦
        let is_b : stored ≡ b = ok-injective (
          sym found_70
          ∙ (ap (λ i. get_block_db env tables i false) (sym (==→eq id 70 here)) ∙ found)) in
        let same : rebuilt ≡ block =
          ok-injective (sym stored_block ∙ (ap (λ c. get_block env tables c.id) is_b ∙ got)) in
        ap (λ c. c.fields.height) (sym same) ∙ (rebuilt_height ∙ ap (λ c. c.height) is_b)
  ];
}

-- A wallet whose tip is no block of the chain
abbrev astray : Wallet env plain
astray = record empty_wallet { height = 2; tip_id = some 99 }

astray-IsInStep : IsInStep env plain tables astray
unfolding tip_block
astray-IsInStep block e = absurd (ground (arith, absent_block 99 refl, e))

rewind_forks-IsResolved_example :
    (rewind_forks env plain tables 3 astray astray ≢ out_of_fuel)
    × (rewind_forks env plain tables (5 + 3) astray astray
        ≡ rewind_forks env plain tables 3 astray astray)
    × ((w' : Wallet env plain)
        → rewind_forks env plain tables 3 astray astray ≡ ok w'
        → IsResolved env plain tables w')
rewind_forks-IsResolved_example =
    rewind_forks-IsResolved env plain tables 5 astray astray tables-IsDescending astray-IsInStep
