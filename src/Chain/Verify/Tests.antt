-- ===== src/Chain/Verify/Tests.antt =====
-- A pay-to-merkleroot spend by a public key followed by an unsigned input, and an input with a hollow
-- Merkle proof, for `verifyTransaction` of src/kernel/blockchain.cpp. Under the toy hash the key "5"
-- has the number 75.
use crypto_kernel.Prelude.{◌≡◌, refl, true, false, none, some, [], ◌∷◌}
use crypto_kernel.BigNum.{Text}
use crypto_kernel.KeyMap.{text_eq}
use crypto_kernel.Merkle.Proof.Form.{position_name, leaves_name}
use crypto_kernel.Outcome.{ok, uncaught}
use crypto_kernel.Sample.{sample_env as env, Value, nothing, text, number, entry, element}
use crypto_kernel.Types.{Input, Output, public_key_name}
use crypto_kernel.Types.Stored.{DbOutput}
use crypto_kernel.Types.Transaction.{Transaction, get_output_set_id}
use crypto_kernel.Chain.{Tables, Rules}
use crypto_kernel.Chain.Spend.{
  merkle_root_name, spend_type_name, key_or_script_name, merkle_proof_name, signature_name,
  pubkey_word, script_word,
}
use crypto_kernel.Chain.Spend.Malformed.{HasHollowProof}
use crypto_kernel.Chain.Verify.{outputs_exist, verify_transaction}
use crypto_kernel.Chain.Verify.Hollow.{verify_transaction-uncaught}
use crypto_kernel.Chain.Verify.Scalar.{verify_transaction-throws}

abbrev rules : Rules env
rules = record {
  check_consensus_rules = λ t block previous. ok (some block);
  is_block_better = λ t block tip. ok true;
  submits_block = λ t block. true;
  verifies_transaction = λ t tx. true;
  submits_transaction = λ t tx. true;
  evaluate_script = λ t tx inp script. some true;
  block_reward = λ height. 50;
}

abbrev rooted : DbOutput env
rooted = record {
  output = record {
    value = 500;
    nonce = 0;
    content = entry merkle_root_name (text (b'7' ∷ b'5' ∷ [])) nothing;
    id = 8;
  };
  creation_tx = 1;
}

abbrev proof : Value
proof =
    entry position_name (number 0) (entry leaves_name (element (text (b'5' ∷ [])) nothing) nothing)

abbrev by_key : Input env
by_key = record {
  output_id = 8;
  content = entry spend_type_name (text pubkey_word) (
      entry key_or_script_name (text (b'5' ∷ []))
        (entry merkle_proof_name proof (entry signature_name (text (b'5' ∷ [])) nothing)));
  id = 3;
}

-- An output of somebody else, under a public key.
abbrev guarded : DbOutput env
guarded = record {
  output = record {
    value = 900;
    nonce = 0;
    content = entry public_key_name (text (b'6' ∷ [])) nothing;
    id = 9;
  };
  creation_tx = 1;
}

-- An input that spends it without a signature.
abbrev loose : Input env
loose = record { output_id = 9; content = nothing; id = 4 }

abbrev tables : Tables env
tables = record {
  blocks = [];
  tip = none;
  heights = [];
  transactions = [];
  utxos = (8, rooted) ∷ (9, guarded) ∷ [];
  utxo_keys = [];
  stxos = [];
  stxo_keys = [];
  inputs = [];
  candidates = [];
}

abbrev made : Output env
made = record { value = 10; nonce = 0; content = nothing; id = 20 }

abbrev theft : Transaction env
theft = record {
  inputs = by_key ∷ loose ∷ [];
  outputs = made ∷ [];
  timestamp = 0;
  bytes = 90;
  id = 40;
}

made_hashed : get_output_set_id env (made ∷ []) ≡ ok 72020
unfolding get_output_set_id crypto_kernel.Merkle.Build.make_merkle_tree
    crypto_kernel.OrderedSet.elements crypto_kernel.OrderedSet.insert_ids
    crypto_kernel.OrderedMap.insert crypto_kernel.Merkle.new_values crypto_kernel.Merkle.combine
    crypto_kernel.BigNum.to_string crypto_kernel.Decimal.to_decimal
made_hashed = refl

-- The leaves are a text.
abbrev hollow : Value
hollow = entry position_name (number 0) (entry leaves_name (text []) nothing)

abbrev probe : Input env
probe = record {
  output_id = 8;
  content =
      entry spend_type_name (text script_word)
        (entry key_or_script_name (text (b'5' ∷ [])) (entry merkle_proof_name hollow nothing));
  id = 3;
}

abbrev sent : Transaction env
sent = record theft { inputs = probe ∷ [] }

probe-HasHollowProof : HasHollowProof env probe
unfolding text_eq
probe-HasHollowProof = record {
  members = refl;
  spend_type = refl;
  spend_type_text = script_word;
  is_spend_type = refl;
  signed = refl;
  script = refl;
  script_text = b'5' ∷ [];
  is_script_text = refl;
  proof = refl;
  has_position = refl;
  position = 0;
  is_position = refl;
  has_leaves = refl;
  leaves_filled = refl;
  no_leaf = refl;
}

verify_transaction-uncaught_example : verify_transaction env rules tables sent false ≡ uncaught
unfolding text_eq outputs_exist
verify_transaction-uncaught_example =
    verify_transaction-uncaught env rules tables sent false probe [] rooted 72020 refl refl
      made_hashed refl refl refl refl probe-HasHollowProof

-- Spends the output under a public key, with a text as its data.
abbrev worded : Input env
worded = record { output_id = 9; content = text (b'6' ∷ []); id = 4 }

abbrev spoken : Transaction env
spoken = record theft { inputs = worded ∷ by_key ∷ [] }

verify_transaction-throws_example : verify_transaction env rules tables spoken false ≡ uncaught
unfolding text_eq outputs_exist
verify_transaction-throws_example =
    verify_transaction-throws env rules tables spoken false worded (by_key ∷ []) guarded 72020 refl
      refl made_hashed refl refl refl refl
